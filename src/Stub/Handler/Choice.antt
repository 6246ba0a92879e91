-- ===== src/Stub/Handler/Choice.antt =====
-- Which stub the handler answers with.
use mathlib.Core.Bool.{false≢true}
use mathlib.Core.HLevel.{Π_prop, ⊥_prop}
use mathlib.Core.List.Perm
use mathlib.Core.List.Permᴰ
use mathlib.Core.List.{mem-cons_self, mem-cons_of_mem}
use mathlib.Core.Option.{some-injective}
use mathlib.Core.Path.{subst, sym}
use terminator.Base.{
  ℕ, Bool, true, false, List, [], ◌∷◌, none, some, Text, Result, ok, ℤ, if◌then◌else◌, All, ◌≡◌,
  refl, ◌⊎◌, inl, inr, ◌∙◌, ◌↔◌, Mem, Permᴰ, All-perm, All-mem,
}
use terminator.Stub.Data.{Operator, StubCondition, StubData, RequestElement}
use terminator.Stub.Matcher.{is_match}
use terminator.Stub.Matcher.Meaning.{Meaning, NonNull, is_match_iff}
use terminator.Stub.Comparator.{compare}
use terminator.Stub.Handler.{respond, forward, hit_response, first_hit, message_received}

-- A stub that no part of the handler throws on.
pub record IsComplete (d : StubData) : Type 0 where
  pub op : Operator
  pub operator_is : d.operator ≡ some op
  pub conditions : List StubCondition
  pub conditions_are : d.conditions ≡ some conditions
  pub conditions_set : All NonNull conditions
  pub body : Text
  pub response_is : d.response ≡ some body

abbrev pub Matches : List RequestElement → StubData → Type 0
Matches es d =
    (op : Operator) × (cs : List StubCondition) × (d.operator ≡ some op)
    × (d.conditions ≡ some cs)
    × Meaning op cs es

-- `d` is the first stub of the list that matches.
pub data IsFirst (es : List RequestElement) (d : StubData) : List StubData → Type 0 where
  here : {ds : List StubData} → Matches es d → IsFirst es d (d ∷ ds)
  there :
      {x : StubData} {ds : List StubData} → ¬ Matches es x → IsFirst es d ds → IsFirst es d (x ∷ ds)

IsFirst-mem :
    {es : List RequestElement} {d : StubData} {ds : List StubData} → IsFirst es d ds → Mem d ds
IsFirst-mem (here m) = mem-cons_self
IsFirst-mem (there {x} n f) = mem-cons_of_mem x (IsFirst-mem f)

IsFirst-Matches :
    {es : List RequestElement} {d : StubData} {ds : List StubData} → IsFirst es d ds → Matches es d
IsFirst-Matches (here m) = m
IsFirst-Matches (there n f) = IsFirst-Matches f

module _ (utf8_length : Text → ℕ) (es : List RequestElement) where
  -- The loop answers for the first stub that matches, or with null when none does.
  pub Answer : List StubData → Type 0
  Answer ds =
      ((d : StubData) × (body : Text) × IsFirst es d ds
        × (d.response ≡ some body)
        × (first_hit utf8_length ds es ≡ ok (some (hit_response utf8_length body))))
      ⊎ ((first_hit utf8_length ds es ≡ ok none) × All (λ d. ¬ Matches es d) ds)

  first_hit-cons :
      (d : StubData) (ds : List StubData) (op : Operator) (cs : List StubCondition) (b : Bool)
      (body : Text)
      → d.operator ≡ some op
      → d.conditions ≡ some cs
      → is_match op cs es ≡ ok b
      → d.response ≡ some body
      → first_hit utf8_length (d ∷ ds) es
        ≡ (if b then ok (some (hit_response utf8_length body)) else first_hit utf8_length ds es)
  unfolding first_hit
  first_hit-cons d ds op cs b body o k m r = rw (o, k, m, r)

  Answer-cons : (d : StubData) (ds : List StubData) → IsComplete d → Answer ds → Answer (d ∷ ds)
  unfolding Answer
  Answer-cons d ds c rest =
      let (b, e, iff) = is_match_iff c.op c.conditions es c.conditions_set in
      let step =
        first_hit-cons d ds c.op c.conditions b c.body c.operator_is c.conditions_are e
          c.response_is in
      next b iff step rest
    where
      refuse : {b : Bool} → (b ≡ true) ↔ Meaning c.op c.conditions es → b ≡ false → ¬ Matches es d
      refuse iff f (op, cs, o, k, m) =
          let same : op ≡ c.op = some-injective op c.op (sym o ∙ c.operator_is) in
          let alike : cs ≡ c.conditions =
            some-injective cs c.conditions (sym k ∙ c.conditions_are) in
          false≢true (
            sym f
            ∙ iff.1 (subst (λ x. Meaning c.op x es) alike (subst (λ x. Meaning x cs es) same m)))

      next :
          (b : Bool)
          → (b ≡ true) ↔ Meaning c.op c.conditions es
          → first_hit utf8_length (d ∷ ds) es ≡ (
              if b
              then ok (some (hit_response utf8_length c.body))
              else first_hit utf8_length ds es)
          → Answer ds
          → Answer (d ∷ ds)
      next true iff step rest = inl (
        d,
        c.body,
        here (c.op, c.conditions, c.operator_is, c.conditions_are, iff.0 refl),
        c.response_is,
        step,
      )
      next false iff step (inl (x, body, first, r, f)) =
          inl (x, body, there (refuse iff refl) first, r, step ∙ f)
      next false iff step (inr (f, none_match)) = inr (step ∙ f, (refuse iff refl, none_match))

  pub first_hit-Answer : (ds : List StubData) → All IsComplete ds → Answer ds
  unfolding Answer first_hit
  first_hit-Answer [] h = inr (refl, tt)
  first_hit-Answer (d ∷ ds) (c, cs) = Answer-cons d ds c (first_hit-Answer ds cs)

module _ {Request : Type 0} (utf8_length : Text → ℕ) (extract : Request → List RequestElement)
    (sort : (StubData → StubData → Result ℤ) → List StubData → Result (List StubData))
    (sort_permutes : (l out : List StubData) → sort compare l ≡ ok out → Permᴰ out l) where
  -- With a sort that returns a permutation of the list, a complete set of stubs is handled without an
  -- exception. The handler answers with the body of the first stub in the sorted order that
  -- matches, a stub of the storage; it forwards the request exactly if no stub of the storage matches.
  pub message_received-IsFirst :
      (stubs sorted : List StubData) (request : Request)
      → sort compare stubs ≡ ok sorted
      → All IsComplete stubs
      → ((d : StubData) × (body : Text) × Mem d stubs
          × IsFirst (extract request) d sorted
          × (d.response ≡ some body)
          × (message_received utf8_length extract sort true stubs request
              ≡ ok (respond (hit_response utf8_length body), sorted)))
        ⊎ ((message_received utf8_length extract sort true stubs request
              ≡ ok (forward request, sorted))
            × ((d : StubData) → Mem d stubs → ¬ Matches (extract request) d))
  unfolding message_received Answer
  message_received-IsFirst stubs sorted request run complete =
      let p = sort_permutes stubs sorted run in
      elim (first_hit-Answer utf8_length (extract request) sorted
        (All-perm IsComplete (Permᴰ.symm p) complete)) [
          | inl (d, body, first, r, f) ↦
              inl (d, body, (Perm.mem_iff ∣ p ∣₁).0 (IsFirst-mem first), first, r, rw (run, f))
          | inr (f, none_match) ↦ inr (
            rw (run, f),
            λ d m.
                All-mem (λ d. ¬ Matches (extract request) d) (λ d. Π_prop (λ h. ⊥_prop)) stubs
                  (All-perm (λ d. ¬ Matches (extract request) d) p none_match) m,
          )
        ]
