-- ===== src/Stub/Matcher/Meaning.antt =====
-- What the three matchers decide, for conditions and elements that may hold null.
use mathlib.Core.Bool
use terminator.Base.{
  ℕ, ◌+◌, Bool, true, false, ◌||◌, List, [], ◌∷◌, Option, none, some, Result, ok, ◌>>=◌, length,
  ◌==◌, if◌then◌else◌, All, Any, ◌↔◌, ◌≤◌, inl, inr, ◌≡◌, refl, ap, ◌∙◌, sym, arith, Text, text_eq,
  text_eq_iff, text_eq_refl, bind-eq-ok, ok-injective,
}
use terminator.Stub.Data.{Operator, and, or, not, StubCondition, RequestElement, java_equals}
use terminator.Stub.Matcher.{
  same_pair, has_element, and_index, and_match, or_match, not_match, is_match,
}

-- The element carries the key and the value that the condition asks for, none of them null.
abbrev pub Carries : StubCondition → RequestElement → Type 0
Carries c re =
    (k : Text) × (v : Text) × (c.key ≡ some k)
    × (c.value ≡ some v)
    × (re.key ≡ some k)
    × (re.value ≡ some v)

abbrev pub Satisfied : List RequestElement → StubCondition → Type 0
Satisfied es c = Any (Carries c) es

-- What an operator means: all conditions, some condition, no condition.
abbrev pub Meaning : Operator → List StubCondition → List RequestElement → Type 0
Meaning and cs es = All (Satisfied es) cs
Meaning or cs es = Any (Satisfied es) cs
Meaning not cs es = ¬ Any (Satisfied es) cs

abbrev pub NonNull : StubCondition → Type 0
NonNull c = (k : Text) × (v : Text) × (c.key ≡ some k) × (c.value ≡ some v)

java_equals-eq-true :
    (a b : Option Text) → java_equals a b ≡ ok true → (k : Text) × (a ≡ some k) × (b ≡ some k)
unfolding java_equals
java_equals-eq-true none b h = cc
java_equals-eq-true (some a) none h = cc
java_equals-eq-true (some a) (some b) h = (a, refl, ground (arith, text_eq_iff a b))

java_equals_total : (a : Text) (b : Option Text) → (r : Bool) × (java_equals (some a) b ≡ ok r)
unfolding java_equals
java_equals_total a none = (false, refl)
java_equals_total a (some b) = (text_eq a b, refl)

if-eq-true :
    (b : Bool) (r : Result Bool)
    → (if b then r else ok false) ≡ ok true
    → (b ≡ true) × (r ≡ ok true)
if-eq-true true r h = (refl, h)
if-eq-true false r h = cc

same_pair-eq-true :
    (c : StubCondition) (re : RequestElement) → same_pair c re ≡ ok true → Carries c re
unfolding same_pair
same_pair-eq-true c re h =
    let (b, first, then_h) = bind-eq-ok (java_equals c.key re.key) _ h in
    let (is_same, second) = if-eq-true b _ then_h in
    let (k, ck, rk) = java_equals-eq-true c.key re.key (rw is_same at first) in
    let (v, cv, rv) = java_equals-eq-true c.value re.value second in (k, v, ck, cv, rk, rv)

same_pair_of_Carries :
    (c : StubCondition) (re : RequestElement) → Carries c re → same_pair c re ≡ ok true
unfolding same_pair
same_pair_of_Carries c re (k, v, ck, cv, rk, rv) =
    rw (ck, rk, text_eq_refl k, cv, rv) (rw (text_eq_refl v))

same_pair_total :
    (c : StubCondition) (re : RequestElement) → NonNull c → (r : Bool) × (same_pair c re ≡ ok r)
unfolding same_pair
same_pair_total c re (k, v, ck, cv) =
    let (b, first) = java_equals_total k re.key in
    let (d, second) = java_equals_total v re.value in
    (if b then d else false, rw (ck, first, cv, second) (if-ok b d))
  where
    if-ok : (b d : Bool) → (if b then ok d else ok false) ≡ ok (if b then d else false)
    if-ok true d = refl
    if-ok false d = refl

-- A condition that is satisfied is found, whatever the other elements hold: no comparison throws
-- once the condition has a key and a value.
module _ (c : StubCondition) where
  has_element_total :
      (es : List RequestElement) → NonNull c → (r : Bool) × (has_element c es ≡ ok r)
  unfolding has_element
  has_element_total [] n = (false, refl)
  has_element_total (re ∷ es) n =
      let (r, first) = same_pair_total c re n in
      let (s, later) = has_element_total es n in (r || s, rw first (next r s later))
    where
      next :
          (r s : Bool)
          → has_element c es ≡ ok s
          → (if r then ok true else has_element c es) ≡ ok (r || s)
      next true s h = refl
      next false s h = h

  has_element-eq-true : (es : List RequestElement) → has_element c es ≡ ok true → Satisfied es c
  unfolding has_element
  has_element-eq-true [] h = cc
  has_element-eq-true (re ∷ es) h =
      let (r, first, later) = bind-eq-ok (same_pair c re) _ h in
      next r first later (has_element-eq-true es)
    where
      next :
          (r : Bool)
          → same_pair c re ≡ ok r
          → (if r then ok true else has_element c es) ≡ ok true
          → (has_element c es ≡ ok true → Satisfied es c)
          → Satisfied (re ∷ es) c
      next true first later ih = inl (same_pair-eq-true c re first)
      next false first later ih = inr (ih later)

  Satisfied-NonNull : (es : List RequestElement) → Satisfied es c → NonNull c
  Satisfied-NonNull [] s = elim s [ ]
  Satisfied-NonNull (re ∷ es) (inl (k, v, ck, cv, _, _)) = (k, v, ck, cv)
  Satisfied-NonNull (re ∷ es) (inr s) = Satisfied-NonNull es s

  has_element_of_Satisfied :
      (es : List RequestElement) → Satisfied es c → has_element c es ≡ ok true
  unfolding has_element
  has_element_of_Satisfied [] s = elim s [ ]
  has_element_of_Satisfied (re ∷ es) (inl s) = rw (same_pair_of_Carries c re s)
  has_element_of_Satisfied (re ∷ es) (inr s) =
      let (r, first) = same_pair_total c re (Satisfied-NonNull es s) in
      rw first (next r (has_element_of_Satisfied es s))
    where
      next :
          (r : Bool)
          → has_element c es ≡ ok true
          → (if r then ok true else has_element c es) ≡ ok true
      next true h = refl
      next false h = h

-- The answer of the inner loop decides `Satisfied`.
found_iff :
    (c : StubCondition) (es : List RequestElement)
    → NonNull c
    → (b : Bool) × (has_element c es ≡ ok b) × ((b ≡ true) ↔ Satisfied es c)
found_iff c es n =
    let (b, e) = has_element_total c es n in
    (
      b,
      e,
      (
        (λ t. has_element-eq-true c es (e ∙ ap ok t)),
        λ s. ok-injective b true (sym e ∙ has_element_of_Satisfied c es s),
      ),
    )

-- The loops decide, where no condition holds null.
module _ (es : List RequestElement) where
  or_match_iff :
      (cs : List StubCondition)
      → All NonNull cs
      → (b : Bool) × (or_match cs es ≡ ok b) × ((b ≡ true) ↔ Any (Satisfied es) cs)
  unfolding or_match
  or_match_iff [] n = (false, refl, ((λ h. cc), λ h. elim h [ ]))
  or_match_iff (c ∷ cs) (n, ns) =
      let (b, e, here) = found_iff c es n in
      let (d, f, there) = or_match_iff cs ns in
      (b || d, rw e (next b d f), (ground arith, ground arith))
    where
      next :
          (b d : Bool)
          → or_match cs es ≡ ok d
          → (if b then ok true else or_match cs es) ≡ ok (b || d)
      next true d h = refl
      next false d h = h

  -- The index reaches the end exactly when every condition is satisfied.
  and_index_iff :
      (i : ℕ) (cs : List StubCondition)
      → All NonNull cs
      → (j : ℕ) × (and_index es i cs ≡ ok j)
        × (j ≤ i + length cs)
        × ((j ≡ i + length cs) ↔ All (Satisfied es) cs)
  unfolding and_index
  and_index_iff i [] n = (i, refl, omega arith, ((λ h. tt), λ h. omega arith))
  and_index_iff i (c ∷ cs) (n, ns) =
      let (b, e, here) = found_iff c es n in
      let rest = and_index_iff (i + 1) cs ns in rw e (next b here rest)
    where
      next :
          (b : Bool)
          → ((b ≡ true) ↔ Satisfied es c)
          → (j : ℕ) × (and_index es (i + 1) cs ≡ ok j)
            × (j ≤ i + 1 + length cs)
            × ((j ≡ i + 1 + length cs) ↔ All (Satisfied es) cs)
          → (j : ℕ) × ((if b then and_index es (i + 1) cs else ok i) ≡ ok j)
            × (j ≤ i + length (c ∷ cs))
            × ((j ≡ i + length (c ∷ cs)) ↔ All (Satisfied es) (c ∷ cs))
      next true here (j, f, le, there) = (
        j,
        f,
        omega arith,
        ((λ h. (here.0 refl, there.0 (omega arith))), λ h. omega (arith, there.1 h.1)),
      )
      next false here rest =
          (i, refl, omega arith, ((λ h. absurd (omega arith)), λ h. cc (here.1 h.0)))

-- `NotRequestMatcher` is the negation of `OrRequestMatcher` on every input, and throws when it
-- does.
pub not_match-or_match :
    (cs : List StubCondition) (es : List RequestElement)
    → not_match cs es ≡ (or_match cs es >>= λ b. ok (Bool.not b))
unfolding not_match or_match
not_match-or_match [] es = refl
not_match-or_match (c ∷ cs) es = ground (arith, not_match-or_match cs es)

and_match_iff :
    (cs : List StubCondition) (es : List RequestElement)
    → All NonNull cs
    → (b : Bool) × (and_match cs es ≡ ok b) × ((b ≡ true) ↔ All (Satisfied es) cs)
unfolding and_match
and_match_iff cs es n =
    let (j, e, le, there) = and_index_iff es 0 cs n in
    (length cs == j, rw e, ((λ h. there.0 (ground arith)), λ h. ground (arith, there.1 h)))

-- On conditions without null every matcher returns, and answers true exactly when the operator's
-- meaning holds: all conditions, some condition, or none of them have an equal element.
pub is_match_iff :
    (op : Operator) (cs : List StubCondition) (es : List RequestElement)
    → All NonNull cs
    → (b : Bool) × (is_match op cs es ≡ ok b) × ((b ≡ true) ↔ Meaning op cs es)
unfolding is_match
is_match_iff and cs es n = and_match_iff cs es n
is_match_iff or cs es n = or_match_iff es cs n
is_match_iff not cs es n =
    let (b, e, iff) = or_match_iff es cs n in
    (Bool.not b, not_match-or_match cs es ∙ rw e, negate b iff)
  where
    negate :
        (b : Bool)
        → ((b ≡ true) ↔ Any (Satisfied es) cs)
        → (Bool.not b ≡ true) ↔ (¬ Any (Satisfied es) cs)
    negate true iff = ((λ h. cc), λ h. absurd (h (iff.0 refl)))
    negate false iff = ((λ h s. cc (iff.1 s)), λ h. refl)
