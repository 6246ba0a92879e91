-- ===== src/Stub/Examples.antt =====
-- Runs of stub mode on small inputs, and the theorems at inputs where their hypotheses hold.
use mathlib.Core.List.Permᴰ
use mathlib.Core.Path.{subst}
use Prim.Native.String.{String}
use terminator.Base.{
  List, [], ◌∷◌, none, some, Text, codes, Result, ok, ℤ, pos, All, Mem, Permᴰ, ◌≡◌, refl, ◌↔◌, ◌⊎◌,
  Bool, true, false, length, ok-injective, text_eq,
}
use terminator.Stub.Data.{Operator, and, or, not, StubCondition, StubData, RequestElement}
use terminator.Stub.Matcher.{is_match}
use terminator.Stub.Matcher.Meaning.{Meaning, NonNull, is_match_iff}
use terminator.Stub.Comparator.{compare, priority, IsMisjudged, compare-priority}
use terminator.Stub.Handler.{respond, forward, hit_response, message_received}
use terminator.Stub.Handler.Choice.{IsComplete, Matches, IsFirst, message_received-IsFirst}

abbrev condition : String → String → StubCondition
condition k v = record { stub_data_id = none; key = some (codes k); value = some (codes v) }

abbrev element : String → String → RequestElement
element k v = record { key = some (codes k); value = some (codes v) }

abbrev stub : Operator → List StubCondition → String → StubData
stub op cs body = record {
  id = some (pos 1);
  link_id = some 1;
  conditions = some cs;
  delay = 0;
  sequence = 0;
  operator = some op;
  response = some (codes body);
}

abbrev get_a : List RequestElement
get_a = element "METHOD" "GET" ∷ element "URI" "/a" ∷ []

abbrev conditions : List StubCondition
conditions = condition "URI" "/a" ∷ condition "METHOD" "POST" ∷ []

matcher_runs :
    (is_match and conditions get_a ≡ ok false)
    × (is_match or conditions get_a ≡ ok true)
    × (is_match not conditions get_a ≡ ok false)
unfolding is_match text_eq
matcher_runs = (refl, refl, refl)

conditions-NonNull : All NonNull conditions
conditions-NonNull = ((_, _, refl, refl), ((_, _, refl, refl), tt))

is_match_iff_example :
    (b : Bool) × (is_match or conditions get_a ≡ ok b) × ((b ≡ true) ↔ Meaning or conditions get_a)
is_match_iff_example = is_match_iff or conditions get_a conditions-NonNull

compare-priority_example :
    (compare (stub and [] "x") (stub or [] "y") ≡ ok (priority and or)) ↔ (¬ IsMisjudged and or)
compare-priority_example = compare-priority (stub and [] "x") (stub or [] "y") and or refl refl

-- A sort that leaves the list as it is: it returns a permutation.
abbrev keep : (StubData → StubData → Result ℤ) → List StubData → Result (List StubData)
keep order l = ok l

keep_permutes : (l out : List StubData) → keep compare l ≡ ok out → Permᴰ out l
keep_permutes l out h = subst (λ x. Permᴰ x l) (ok-injective l out h) (Permᴰ.refl l)

abbrev stubs : List StubData
stubs = stub and conditions "no" ∷ stub or conditions "yes" ∷ []

stubs-IsComplete : All IsComplete stubs
stubs-IsComplete = (
  record {
    op = and;
    operator_is = refl;
    conditions = conditions;
    conditions_are = refl;
    conditions_set = conditions-NonNull;
    body = codes "no";
    response_is = refl;
  },
  (
    record {
      op = or;
      operator_is = refl;
      conditions = conditions;
      conditions_are = refl;
      conditions_set = conditions-NonNull;
      body = codes "yes";
      response_is = refl;
    },
    tt,
  ),
)

handler_run :
    message_received length (λ r. r) keep true stubs get_a
    ≡ ok (respond (hit_response length (codes "yes")), stubs)
unfolding message_received is_match text_eq
handler_run = refl

message_received-IsFirst_example :
    ((d : StubData) × (body : Text) × Mem d stubs
      × IsFirst get_a d stubs
      × (d.response ≡ some body)
      × (message_received length (λ r. r) keep true stubs get_a
          ≡ ok (respond (hit_response length body), stubs)))
    ⊎ ((message_received length (λ r. r) keep true stubs get_a ≡ ok (forward get_a, stubs))
        × ((d : StubData) → Mem d stubs → ¬ Matches get_a d))
message_received-IsFirst_example =
    message_received-IsFirst length (λ r. r) keep keep_permutes stubs stubs get_a refl
      stubs-IsComplete
