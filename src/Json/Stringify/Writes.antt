-- ===== src/Json/Stringify/Writes.antt =====
-- What `JSON.stringify` writes is a JSON text of the data of its value.
use terminator.Base.{
  ℕ, zero, suc, Bool, true, false, List, [], ◌++◌, Option, none, some, Text, codes, All-append, ◌≡◌,
  ◌≢◌, ◌⊎◌, inl, inr, refl, if◌then◌else◌,
}
use terminator.Json.Quote.{quote}
use terminator.Json.Value.{JsonValue, Items, Fields}
use terminator.Json.Stringify.{
  members, select, str, str_items, str_fields, Space, no_space, spaces, space_text, repeat_space,
  indent_of, stringify,
}
use terminator.Json.Stringify.Grammar.{
  Json, IsBlank, Blank, Writes, WritesElements, as_null, as_true, as_false, as_number, as_string,
  as_array, as_object, as_end, as_element, data_of, elements_of, fields_of,
}
use terminator.Json.Stringify.Units.{HasUnits, ItemsHaveUnits, FieldsHaveUnits, ReplacerHasUnits}
use terminator.Json.Stringify.Joins.{bracket-Joined, quote-Literal}
use terminator.Json.Stringify.Properties.{
  Agrees, or_null-Writes, Paired, select-Paired, members-Writes,
}

module _ {N : Type 0} (is_finite : N → Bool) (number_text : N → Text)
    (number_text-ne-nil : (n : N) → number_text n ≢ []) (r : Option (List (Option Text)))
    (indent : Text) (units : ReplacerHasUnits r) (blank : Blank indent) where
  number-Writes :
      (b : Bool) (n : N)
      → Writes number_text
          (if b then Json.number n else Json.null)
          (if b then number_text n else codes "null")
  number-Writes true n = as_number n
  number-Writes false n = as_null

  deeper : (gap : Text) → Blank gap → Blank (gap ++ indent)
  deeper gap g = All-append IsBlank gap indent g blank

  mutual
    unfolding str data_of Agrees Paired HasUnits

    str-Agrees :
        (gap : Text) (v : JsonValue N)
        → Blank gap
        → HasUnits v
        → Agrees number_text number_text-ne-nil
            (data_of is_finite r v)
            (str is_finite number_text r indent gap v)
    str-Agrees gap JsonValue.undefined g u = tt
    str-Agrees gap JsonValue.null g u = as_null
    str-Agrees gap (JsonValue.boolean true) g u = as_true
    str-Agrees gap (JsonValue.boolean false) g u = as_false
    str-Agrees gap (JsonValue.number n) g u = number-Writes (is_finite n) n
    str-Agrees gap (JsonValue.string s) g u = as_string s (quote s) (quote-Literal s u)
    str-Agrees gap (JsonValue.array vs) g u =
        let ts = str_items is_finite number_text r indent (gap ++ indent) vs in
        let (inner, joined, e) = bracket-Joined b'[' b']' (gap ++ indent) gap ts (deeper gap g) g in
        rw e (as_array _ ts inner (items-Writes (gap ++ indent) vs (deeper gap g) u) joined)
    str-Agrees gap (JsonValue.object fs) g u =
        let all = str_fields is_finite number_text r indent (gap ++ indent) fs in
        let ts = members (gap ++ indent) (select r all) in
        let (inner, joined, e) = bracket-Joined b'{' b'}' (gap ++ indent) gap ts (deeper gap g) g in
        let paired = fields-Paired (gap ++ indent) fs (deeper gap g) u in
        let chosen = select-Paired number_text number_text-ne-nil r _ all units paired in
        rw e (
          as_object _ ts inner
            (members-Writes number_text number_text-ne-nil (gap ++ indent) _ _ chosen) joined)

    items-Writes :
        (gap : Text) (vs : Items N)
        → Blank gap
        → ItemsHaveUnits vs
        → WritesElements number_text
            (elements_of is_finite r vs)
            (str_items is_finite number_text r indent gap vs)
    items-Writes gap Items.end g u = as_end
    items-Writes gap (Items.item v vs) g (u, us) =
        as_element (or_null-Writes number_text number_text-ne-nil _ _ (str-Agrees gap v g u))
          (items-Writes gap vs g us)

    fields-Paired :
        (gap : Text) (fs : Fields N)
        → Blank gap
        → FieldsHaveUnits fs
        → Paired number_text number_text-ne-nil
            (fields_of is_finite r fs)
            (str_fields is_finite number_text r indent gap fs)
    fields-Paired gap Fields.empty g u = tt
    fields-Paired gap (Fields.field k v fs) g (k_units, u, us) =
        (refl, k_units, str-Agrees gap v g u, fields-Paired gap fs g us)

  -- The text is written, if the value has data, and it is a text of the data: none is undefined for
  -- a value that has no data.
  str-Writes :
      (gap : Text) (v : JsonValue N)
      → Blank gap
      → HasUnits v
      → ((data_of is_finite r v ≡ none) × (str is_finite number_text r indent gap v ≡ none))
        ⊎ ((d : Json N) × (t : Text) × (data_of is_finite r v ≡ some d)
            × (str is_finite number_text r indent gap v ≡ some t)
            × Writes number_text d t)
  unfolding Agrees
  str-Writes gap v g u =
      split (data_of is_finite r v) (str is_finite number_text r indent gap v) refl refl
        (str-Agrees gap v g u)
    where
      split :
          (d : Option (Json N)) (t : Option Text)
          → data_of is_finite r v ≡ d
          → str is_finite number_text r indent gap v ≡ t
          → Agrees number_text number_text-ne-nil d t
          → ((data_of is_finite r v ≡ none) × (str is_finite number_text r indent gap v ≡ none))
            ⊎ ((d : Json N) × (t : Text) × (data_of is_finite r v ≡ some d)
                × (str is_finite number_text r indent gap v ≡ some t)
                × Writes number_text d t)
      split none none p q a = inl (p, q)
      split none (some t) p q a = elim a [ ]
      split (some d) none p q a = elim a [ ]
      split (some d) (some t) p q a = inr (d, t, p, q, a)

-- An argument `space` that makes an indentation of white space.
abbrev pub IndentsBlank : Space → Type 0
IndentsBlank no_space = Unit
IndentsBlank (spaces n) = Unit
IndentsBlank (space_text t) = Blank t

repeat_space-Blank : (n : ℕ) → Blank (repeat_space n)
unfolding repeat_space
repeat_space-Blank zero = tt
repeat_space-Blank (suc n) = (inl refl, repeat_space-Blank n)

indent_of-Blank : (s : Space) → IndentsBlank s → Blank (indent_of s)
unfolding indent_of
indent_of-Blank no_space h = tt
indent_of-Blank (spaces n) h = repeat_space-Blank n
indent_of-Blank (space_text t) h = h

-- For every value, every array of keys and every indentation of white space: `JSON.stringify` is
-- undefined if the value has no data, and else writes a text that the grammar of JSON allows for
-- the data: undefined properties left out, undefined elements and numbers that are not finite null,
-- and, with an array of keys, just the properties that it names. The text of a number is assumed
-- not to be empty, and strings are made of 16-bit code units.
pub stringify-Writes :
    {N : Type 0} (is_finite : N → Bool) (number_text : N → Text)
    → ((n : N) → number_text n ≢ [])
    → (r : Option (List (Option Text))) (space : Space) (v : JsonValue N) → ReplacerHasUnits r
    → IndentsBlank space
    → HasUnits v
    → ((data_of is_finite r v ≡ none) × (stringify is_finite number_text r space v ≡ none))
      ⊎ ((d : Json N) × (t : Text) × (data_of is_finite r v ≡ some d)
          × (stringify is_finite number_text r space v ≡ some t)
          × Writes number_text d t)
unfolding stringify
stringify-Writes is_finite number_text written r space v units blank u =
    str-Writes is_finite number_text written r (indent_of space) units (indent_of-Blank space blank)
      [] v tt u
