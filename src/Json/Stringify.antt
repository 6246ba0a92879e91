-- ===== src/Json/Stringify.antt =====
-- `str` and `JSON.stringify` of json2.js. The global `gap` is an argument, which a call leaves as it
-- was. A replacer is absent or an array; a replacer function is not modelled.
pub mod Grammar
pub mod Units
pub mod Joins
pub mod Properties
pub mod Writes
use terminator.Base.{
  ℕ, zero, suc, Bool, true, false, List, [], ◌∷◌, ◌++◌, Option, none, some, Text, codes, text_eq,
  if◌then◌else◌,
}
use terminator.Json.Quote.{quote}
use terminator.Json.Value.{
  JsonValue, undefined, null, boolean, number, string, array, object, Items, end, item, Fields,
  empty, field,
}

abbrev pub is_nonempty : Text → Bool
is_nonempty [] = false
is_nonempty (c ∷ t) = true

-- `partial.join(separator)`
unfoldable pub join : Text → List Text → Text
join separator [] = []
join separator (t ∷ []) = t
join separator (t ∷ ts) = t ++ (separator ++ join separator ts)

-- The text `v` of an array or an object, from its brackets, `gap`, `mind` and `partial`.
unfoldable pub bracket : ℕ → ℕ → Text → Text → List Text → Text
unfolding join
bracket opening closing gap mind [] = opening ∷ closing ∷ []
bracket opening closing gap mind partial =
    if is_nonempty gap
    then opening
      ∷ b'\n'
      ∷ (gap ++ (join (b',' ∷ b'\n' ∷ gap) partial ++ (b'\n' ∷ (mind ++ (closing ∷ [])))))
    else opening ∷ (join (b',' ∷ []) partial ++ (closing ∷ []))

-- `str(i, value) || 'null'`
abbrev pub or_null : Option Text → Text
or_null none = codes "null"
or_null (some []) = codes "null"
or_null (some t) = t

-- `partial.push(quote(k) + (gap ? ': ' : ':') + v)`, where `v` is neither undefined nor empty.
unfoldable pub push_member : Text → Text → Option Text → List Text → List Text
push_member gap k none partial = partial
push_member gap k (some []) partial = partial
push_member gap k (some v) partial =
    (quote k ++ ((if is_nonempty gap then codes ": " else codes ":") ++ v)) ∷ partial

unfoldable pub members : Text → List (Text × Option Text) → List Text
unfolding push_member
members gap [] = []
members gap ((k, v) ∷ fs) = push_member gap k v (members gap fs)

module _ {X : Type 0} where
  -- `holder[key]`, of what has been made of each property.
  unfoldable pub find : Text → List (Text × Option X) → Option X
  find k [] = none
  find k ((l, v) ∷ fs) = let later = find k fs in if text_eq l k then v else later

  unfoldable pub pick : List (Option Text) → List (Text × Option X) → List (Text × Option X)
  unfolding find
  pick [] fs = []
  pick (none ∷ ks) fs = pick ks fs
  pick (some k ∷ ks) fs = (k, find k fs) ∷ pick ks fs

  -- The properties that are written: those named by the replacer's strings, or all.
  unfoldable pub select :
      Option (List (Option Text)) → List (Text × Option X) → List (Text × Option X)
  unfolding pick
  select none fs = fs
  select (some ks) fs = pick ks fs

module _ {N : Type 0} (is_finite : N → Bool) (number_text : N → Text)
    (replacer : Option (List (Option Text))) (indent : Text) where
  -- `str`, with `gap` as the call finds it.
  unfoldable mutual
    unfolding quote bracket members select

    pub str : Text → JsonValue N → Option Text
    str gap undefined = none
    str gap null = some (codes "null")
    str gap (boolean true) = some (codes "true")
    str gap (boolean false) = some (codes "false")
    str gap (number n) = some (if is_finite n then number_text n else codes "null")
    str gap (string s) = some (quote s)
    str gap (array vs) = some (bracket b'[' b']' (gap ++ indent) gap (str_items (gap ++ indent) vs))
    str gap (object fs) = some (
        bracket b'{' b'}' (gap ++ indent) gap
          (members (gap ++ indent) (select replacer (str_fields (gap ++ indent) fs))))

    pub str_items : Text → Items N → List Text
    str_items gap end = []
    str_items gap (item v vs) = or_null (str gap v) ∷ str_items gap vs

    pub str_fields : Text → Fields N → List (Text × Option Text)
    str_fields gap empty = []
    str_fields gap (field k v fs) = (k, str gap v) ∷ str_fields gap fs

-- The argument `space`: absent, a number, or a string.
pub data Space : Type 0 where
  no_space : Space
  spaces : ℕ → Space
  space_text : Text → Space

unfoldable pub repeat_space : ℕ → Text
repeat_space zero = []
repeat_space (suc n) = b' ' ∷ repeat_space n

unfoldable pub indent_of : Space → Text
unfolding repeat_space
indent_of no_space = []
indent_of (spaces n) = repeat_space n
indent_of (space_text t) = t

-- `JSON.stringify`
unfoldable pub stringify :
    {N : Type 0}
    → (N → Bool)
    → (N → Text)
    → Option (List (Option Text))
    → Space
    → JsonValue N
    → Option Text
unfolding str indent_of
stringify is_finite number_text replacer space value =
    str is_finite number_text replacer (indent_of space) [] value
