-- ===== src/Jquery/Arrays/Picked.antt =====
-- Picking one element of a set by its index.
use terminator.Base.{
  ℕ, zero, suc, ◌+◌, ◌-◌, ◌≤◌, ◌<◌, List, [], ◌∷◌, Option, none, some, Text, ℤ, pos, negsuc, length,
  get_elem?, take, drop, ◌≡◌, ◌⊎◌, inl, inr, refl, sym, ap, ◌∙◌, arith, le→ltb_false,
}
use terminator.Jquery.Arrays.{bounded, item_at, plus, Matched, items, end, get_at, eq}

-- The elements of a set of at most one.
abbrev pub singleton : {A : Type 0} → Option A → List A
singleton none = []
singleton (some a) = a ∷ []

bounded_within : (n len : ℕ) → n ≤ len → bounded (pos n) len ≡ n
unfolding bounded
bounded_within n len h = ground (arith, h)

bounded_beyond : (n len : ℕ) → len ≤ n → bounded (pos n) len ≡ len
unfolding bounded
bounded_beyond n len h = ground (arith, h)

plus_inside : (n len : ℕ) → n < len → plus (negsuc n) len ≡ pos (len - suc n)
unfolding plus
plus_inside n len h = ground (arith, h)

plus_outside : (n len : ℕ) → len ≤ n → plus (negsuc n) len ≡ negsuc (n - len)
unfolding plus
plus_outside n len h = ground (arith, h)

add_one : (n : ℕ) → n + 1 ≡ suc n
add_one n = omega arith

next : (len n : ℕ) → suc n < len → len - suc n ≡ suc (len - suc (suc n))
next len n h = omega (arith, h)

nothing_left : (len n : ℕ) → len ≤ suc n → len - suc n ≡ 0
nothing_left len n h = omega (arith, h)

add_sub : (n : ℕ) → suc n - 1 ≡ n
add_sub n = omega arith

next_place : (n len : ℕ) → bounded (plus (negsuc (suc n)) 1) len ≡ len - suc n
unfolding bounded plus
next_place n len = rw (le→ltb_false (suc n) 1 (omega arith), add_sub n) refl

lt_cases : (m n : ℕ) → (m < n) ⊎ (n ≤ m)
lt_cases m n = ground arith

module _ {A : Type 0} where
  window : (n : ℕ) (l : List A) → drop n (take (suc n) l) ≡ singleton (get_elem? l n)
  window zero [] = refl
  window zero (a ∷ l) = refl
  window (suc n) [] = refl
  window (suc n) (a ∷ l) = window n l

  take_all : (n : ℕ) (l : List A) → length l ≤ n → take n l ≡ l
  take_all zero [] h = refl
  take_all zero (a ∷ l) h = absurd (omega arith)
  take_all (suc n) [] h = refl
  take_all (suc n) (a ∷ l) h = ap (λ k. a ∷ k) (take_all n l (omega (arith, h)))

  drop_none : (n : ℕ) (l : List A) → length l ≤ n → drop n l ≡ []
  drop_none zero [] h = refl
  drop_none zero (a ∷ l) h = absurd (omega arith)
  drop_none (suc n) [] h = refl
  drop_none (suc n) (a ∷ l) h = drop_none n l (omega (arith, h))

  drop_beyond : (k : ℕ) (l : List A) → drop (length l) (take k l) ≡ []
  drop_beyond zero [] = refl
  drop_beyond zero (a ∷ l) = refl
  drop_beyond (suc k) [] = refl
  drop_beyond (suc k) (a ∷ l) = drop_beyond k l

  drop_nothing : (k : ℕ) → drop {A = A} k [] ≡ []
  drop_nothing zero = refl
  drop_nothing (suc k) = refl

  get_elem?-none : (n : ℕ) (l : List A) → length l ≤ n → get_elem? l n ≡ none
  get_elem?-none n [] h = refl
  get_elem?-none zero (a ∷ l) h = absurd (omega arith)
  get_elem?-none (suc n) (a ∷ l) h = get_elem?-none n l (omega (arith, h))

  -- The items between a place and the next.
  picked :
      (n : ℕ) (l : List A)
      → drop (bounded (pos n) (length l)) (take (bounded (pos (n + 1)) (length l)) l)
        ≡ singleton (get_elem? l n)
  picked n l = elim (lt_cases n (length l)) [
    | inl inside ↦
        rw
          (
            bounded_within n (length l) (omega (arith, inside)),
            bounded_within (n + 1) (length l) (omega (arith, inside)),
            add_one n,
          )
          (window n l)
    | inr outside ↦
        rw (bounded_beyond n (length l) outside, get_elem?-none n l outside)
          (drop_beyond (bounded (pos (n + 1)) (length l)) l)
  ]

  -- The items from a place counted from the end, up to the next place.
  picked_last :
      (n : ℕ) (l : List A)
      → drop (length l - suc (suc n)) (take (length l - suc n) l)
        ≡ singleton (item_at l (plus (negsuc (suc n)) (length l)))
  unfolding item_at
  picked_last n l = elim (lt_cases (suc n) (length l)) [
    | inl inside ↦
        rw (plus_inside (suc n) (length l) inside, (next (length l) n inside))
          (window (length l - suc (suc n)) l)
    | inr outside ↦
        rw (plus_outside (suc n) (length l) outside, nothing_left (length l) n outside)
          (drop_nothing (length l - suc (suc n)))
  ]

  last_item :
      (l : List A) → drop (length l - 1) l ≡ singleton (item_at l (plus (negsuc 0) (length l)))
  unfolding item_at
  last_item [] = rw (plus_outside 0 0 (omega arith)) refl
  last_item (a ∷ l) =
      rw (plus_inside 0 (suc (length l)) (omega arith), add_sub (length l))
        (ap (drop (length l)) (sym (take_all (suc (length l)) (a ∷ l) (omega arith)))
          ∙ window (length l) (a ∷ l))

  -- `eq` keeps of a set what `get` finds at the same index, from the front or from the end, and keeps
  -- nothing where `get` finds nothing; `end` gives back the set it was taken from.
  pub eq-get_at :
      (shown : List ℤ → Text) (i : ℤ) (m : Matched A)
      → (items (eq shown i m) ≡ singleton (get_at m i)) × (end (eq shown i m) ≡ m)
  unfolding eq get_at items end
  eq-get_at shown (pos n) m = (picked n (items m), refl)
  eq-get_at shown (negsuc zero) m = (last_item (items m), refl)
  eq-get_at shown (negsuc (suc n)) m =
      let stop : bounded (plus (negsuc (suc n)) 1) (length (items m)) ≡ length (items m) - suc n =
        next_place n (length (items m)) in
      let from = drop (length (items m) - suc (suc n)) in
      (ap (λ k. from (take k (items m))) stop ∙ picked_last n (items m), refl)
