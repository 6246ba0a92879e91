-- ===== src/Stub/Comparator.antt =====
-- server/common/util/StubMatcherComparator.java, and the priority that the handler's comment
-- states for it.
use terminator.Base.{
  Bool, true, false, Option, none, some, Result, ok, err, null_pointer, ◌>>=◌, ℤ, pos, negsuc,
  if◌then◌else◌, ◌≡◌, ◌↔◌, arith,
}
use terminator.Stub.Data.{Operator, and, or, not, StubData}

abbrev operator_eq : Operator → Operator → Bool
operator_eq and and = true
operator_eq or or = true
operator_eq not not = true
operator_eq _ _ = false

-- `a.equals(b)` of two operators, with the exception when `a` is null.
unfoldable pub operator_equals : Option Operator → Option Operator → Result Bool
operator_equals none b = err null_pointer
operator_equals (some a) none = ok false
operator_equals (some a) (some b) = ok (operator_eq a b)

-- `StubMatcherComparator.compare`
unfoldable pub compare : StubData → StubData → Result ℤ
unfolding operator_equals
compare stub1 stub2 = do
  first_not ← operator_equals stub1.operator (some not)
  if first_not then ok (negsuc 0) else do
    first_and ← operator_equals stub1.operator (some and)
    and_not ← (if first_and then operator_equals stub2.operator (some not) else ok false)
    if and_not then ok (pos 1) else do
      first_or ← operator_equals stub1.operator (some or)
      if first_or then ok (pos 1) else ok (pos 0)

-- The order that the handler's comment asks for: `not` before `and` before `or`.
abbrev pub priority : Operator → Operator → ℤ
priority not not = pos 0
priority not _ = negsuc 0
priority and not = pos 1
priority and and = pos 0
priority and or = negsuc 0
priority or or = pos 0
priority or _ = pos 1

-- The pairs of operators on which the comparator departs from that order.
abbrev pub IsMisjudged : Operator → Operator → Type 0
IsMisjudged not not = Unit
IsMisjudged and or = Unit
IsMisjudged or or = Unit
IsMisjudged _ _ = ⊥

-- On stubs with operators the comparator answers what the stated priority asks for, except exactly
-- on two `not`, on two `or`, and on an `and` before an `or`.
pub compare-priority :
    (s t : StubData) (o p : Operator)
    → s.operator ≡ some o
    → t.operator ≡ some p
    → (compare s t ≡ ok (priority o p)) ↔ (¬ IsMisjudged o p)
unfolding compare
compare-priority s t not not h k = ground arith
compare-priority s t and and h k = ground arith
compare-priority s t or or h k = ground arith
compare-priority s t _ _ h k = ground arith
