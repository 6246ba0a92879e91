-- ===== src/Jquery/Arrays/Search.antt =====
-- `inArray`: where an element first occurs.
use mathlib.Core.Path.{subst}
use mathlib.Core.Option.{some-injective}
use terminator.Base.{
  ℕ, zero, suc, ◌+◌, ◌≤◌, ◌<◌, Bool, true, false, Bool-cases, List, [], ◌∷◌, Option, none, some, ℤ,
  pos, negsuc, length, get_elem?, drop, ◌≡◌, ◌⊎◌, inl, inr, refl, sym, ap, ◌∙◌, arith,
}
use terminator.Jquery.Arrays.{bounded, index_from, in_array}

abbrev head? : {B : Type 0} → List B → Option B
head? [] = none
head? (x ∷ l) = some x

abbrev tail : {B : Type 0} → List B → List B
tail [] = []
tail (x ∷ l) = l

next_suc : (n : ℕ) → suc n + 1 ≡ suc (n + 1)
next_suc n = omega arith

at_or_after : (n k : ℕ) → n ≤ k → (k ≡ n) ⊎ (n + 1 ≤ k)
at_or_after n k h = ground (arith, h)

lt_or_ge : (m n : ℕ) → (m < n) ⊎ (n ≤ m)
lt_or_ge m n = ground arith

module _ {B : Type 0} where
  -- The first item of what is left behind a place.
  drop_head :
      (l : List B) (n : ℕ) (x : B) (rest : List B)
      → drop n l ≡ x ∷ rest
      → (get_elem? l n ≡ some x) × (n < length l) × (drop (n + 1) l ≡ rest)
  drop_head [] zero x rest h = cc
  drop_head [] (suc n) x rest h = cc
  drop_head (y ∷ l) zero x rest h = (ap head? h, omega arith, ap tail h)
  drop_head (y ∷ l) (suc n) x rest h =
      let (e, bound, after) = drop_head l n x rest h in
      (e, omega (arith, bound), ap (λ k. drop k (y ∷ l)) (next_suc n) ∙ after)

  drop_nil : (l : List B) (n : ℕ) → drop n l ≡ [] → length l ≤ n
  drop_nil [] n h = omega arith
  drop_nil (y ∷ l) zero h = cc
  drop_nil (y ∷ l) (suc n) h = omega (arith, drop_nil l n h)

  get_elem?_past : (l : List B) (j : ℕ) → length l ≤ j → get_elem? l j ≡ none
  get_elem?_past [] j h = refl
  get_elem?_past (x ∷ l) zero h = absurd (omega arith)
  get_elem?_past (x ∷ l) (suc j) h = get_elem?_past l j (omega (arith, h))

-- The place where a search in `len` items starts: an index from the front, or one of the items counted
-- from the end, -1 for the last; the length, or 0, where it is out of bounds.
abbrev pub IsStart : ℤ → ℕ → ℕ → Type 0
IsStart (pos n) len k = ((n ≤ len) × (k ≡ n)) ⊎ ((len < n) × (k ≡ len))
IsStart (negsuc n) len k = ((n < len) × (k + n + 1 ≡ len)) ⊎ ((len ≤ n) × (k ≡ 0))

bounded-IsStart : (i : ℤ) (len : ℕ) → IsStart i len (bounded i len)
unfolding bounded
bounded-IsStart (pos n) len = ground arith
bounded-IsStart (negsuc n) len = elim (lt_or_ge n len) [
  | inl h ↦ inl (h, omega (arith, h))
  | inr h ↦ inr (h, omega (arith, h))
]

module _ {A : Type 0} (same : A → A → Bool) (elem : A) where
  -- At this place there is no such element.
  abbrev IsOther : List (Option A) → ℕ → Type 0
  IsOther l j = (a : A) → get_elem? l j ≡ some (some a) → same a elem ≡ false

  -- The result of a search in `l` from `start` on.
  abbrev pub IsFirst : List (Option A) → ℕ → ℤ → Type 0
  IsFirst l start (pos j) =
      (start ≤ j)
      × (j < length l)
      × ((a : A) × (get_elem? l j ≡ some (some a)) × (same a elem ≡ true))
      × ((k : ℕ) → start ≤ k → k < j → IsOther l k)
  IsFirst l start (negsuc n) = (n ≡ 0) × ((k : ℕ) → start ≤ k → IsOther l k)

  IsFirst-earlier :
      (l : List (Option A)) (i : ℕ) (r : ℤ) → IsOther l i → IsFirst l (i + 1) r → IsFirst l i r
  IsFirst-earlier l i (pos j) other (from, bound, found, before) = (
    omega (arith, from),
    bound,
    found,
    (λ k from_i to_j. elim (at_or_after i k from_i) [
      | inl same_place ↦ subst (IsOther l) (sym same_place) other
      | inr after ↦ before k after to_j
    ]),
  )
  IsFirst-earlier l i (negsuc n) other (code, none_found) = (
    code,
    (λ k from_i. elim (at_or_after i k from_i) [
      | inl same_place ↦ subst (IsOther l) (sym same_place) other
      | inr after ↦ none_found k after
    ]),
  )

  index_from-IsFirst :
      (l rest : List (Option A)) (i : ℕ)
      → drop i l ≡ rest
      → IsFirst l i (index_from same elem i rest)
  unfolding index_from
  index_from-IsFirst l [] i h =
      (refl, (λ k from_i a e. cc (e, get_elem?_past l k (omega (arith, drop_nil l i h, from_i)))))
  index_from-IsFirst l (none ∷ rest) i h =
      let (e, bound, after) = drop_head l i none rest h in
      IsFirst-earlier l i _ (λ a e'. cc (e, e')) (index_from-IsFirst l rest (i + 1) after)
  index_from-IsFirst l (some a ∷ rest) i h =
      let (e, bound, after) = drop_head l i (some a) rest h in
      elim (Bool-cases (same a elem)) [
        | inl yes_it ↦ rw yes_it (
          omega arith,
          bound,
          (a, e, yes_it),
          (λ k from_i to_i. absurd (omega (arith, from_i, to_i))),
        )
        | inr other ↦ rw other (
            IsFirst-earlier l i _
              (λ b e'.
                let agree : a ≡ b =
                  some-injective a b (some-injective (some a) (some b) (sym e ∙ e')) in
                ap (λ z. same z elem) (sym agree) ∙ other)
              (index_from-IsFirst l rest (i + 1) after))
      ]

  -- The result is the index of the first element that is the same as the one looked for, among those
  -- from the start on: the start that is given, counted from the end where it is negative, and kept
  -- between 0 and the length. It is -1 where there is no such element.
  pub in_array-IsFirst :
      (l : List (Option A)) (i : ℤ)
      → (start : ℕ) × IsStart i (length l) start × IsFirst l start (in_array same elem (some l) i)
  unfolding in_array
  in_array-IsFirst l i =
      let start = bounded i (length l) in
      (start, bounded-IsStart i (length l), index_from-IsFirst l (drop start l) start refl)
