-- ===== src/Json/Stringify/Units.antt =====
-- Strings of 16-bit code units, in values and replacers.
use terminator.Base.{List, Option, none, some, Text, All}
use terminator.Json.Quote.Reads.{IsUnit16}
use terminator.Json.Value.{JsonValue, Items, Fields}

-- The values whose strings and keys are made of 16-bit code units, as all strings are.
unfoldable mutual
  pub HasUnits : {N : Type 0} → JsonValue N → Type 0
  HasUnits (JsonValue.string s) = All IsUnit16 s
  HasUnits (JsonValue.array vs) = ItemsHaveUnits vs
  HasUnits (JsonValue.object fs) = FieldsHaveUnits fs
  HasUnits _ = Unit

  pub ItemsHaveUnits : {N : Type 0} → Items N → Type 0
  ItemsHaveUnits Items.end = Unit
  ItemsHaveUnits (Items.item v vs) = HasUnits v × ItemsHaveUnits vs

  pub FieldsHaveUnits : {N : Type 0} → Fields N → Type 0
  FieldsHaveUnits Fields.empty = Unit
  FieldsHaveUnits (Fields.field k v fs) = All IsUnit16 k × HasUnits v × FieldsHaveUnits fs

abbrev pub KeyHasUnits : Option Text → Type 0
KeyHasUnits none = Unit
KeyHasUnits (some k) = All IsUnit16 k

abbrev pub ReplacerHasUnits : Option (List (Option Text)) → Type 0
ReplacerHasUnits none = Unit
ReplacerHasUnits (some ks) = All KeyHasUnits ks
