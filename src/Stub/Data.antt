-- ===== src/Stub/Data.antt =====
-- The data of stub mode. A Java reference that may be null is an `Option`.
use terminator.Base.{
  ℕ, ℤ, Option, none, some, List, Text, Bool, Result, ok, err, null_pointer, text_eq,
}

-- `StubData.Operator`
pub data Operator : Type 0 where
  and or not : Operator

-- `StubCondition`
pub record StubCondition : Type 0 where
  pub stub_data_id : Option ℕ
  pub key : Option Text
  pub value : Option Text

-- `StubData`. Nothing on the modelled paths reads `delay` or `sequence`, which are numbers here.
pub record StubData : Type 0 where
  pub id : Option ℤ
  pub link_id : Option ℕ
  pub conditions : Option (List StubCondition)
  pub delay : ℕ
  pub sequence : ℕ
  pub operator : Option Operator
  pub response : Option Text

-- `RequestElement`
pub record RequestElement : Type 0 where
  pub key : Option Text
  pub value : Option Text

-- `a.equals(b)` of two strings, with the exception when `a` is null.
unfoldable pub java_equals : Option Text → Option Text → Result Bool
java_equals none b = err null_pointer
java_equals (some a) none = ok Bool.false
java_equals (some a) (some b) = ok (text_eq a b)
