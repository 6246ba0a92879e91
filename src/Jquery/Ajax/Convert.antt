-- ===== src/Jquery/Ajax/Convert.antt =====
-- `ajaxConvert`: the response is passed from data type to data type.
pub mod Sound
use terminator.Base.{
  Bool, true, false, not, ◌&&◌, ◌||◌, List, [], ◌∷◌, ◌++◌, Option, none, some, Text, codes, text_eq,
  Result, ok, err, no_conversion, ◌>>=◌, ◌==◌, if◌then◌else◌,
}
use terminator.Registry.Table.{get, set}

-- A converter: `true` stands for no change.
pub data Converter (F : Type 0) : Type 0 where
  same : Converter F
  convert : F → Converter F

abbrev pub Converters : Type 0 → Type 0
Converters F = List (Text × Converter F)

-- The map of the converters with lower-case keys, from the converters in order.
unfoldable pub lower_keys :
    {F : Type 0} → (Text → Text) → Converters F → Converters F → Converters F
lower_keys lower [] map = map
lower_keys lower ((k, c) ∷ rest) map = lower_keys lower rest (set (lower k) c map)

-- `key.split(" ")`, its first two parts; a missing part reads "undefined" where it is appended to.
unfoldable pub split_first : Text → Text × Option Text
split_first [] = ([], none)
split_first (c ∷ t) =
    let (word, rest) = split_first t in if c == b' ' then ([], some t) else (c ∷ word, rest)

abbrev pub second_part : Option Text → Text
second_part none = codes "undefined"
second_part (some t) = (split_first t).0

-- `prev + " " + current`
abbrev pub conversion : Text → Text → Text
conversion prev current = prev ++ (b' ' ∷ current)

module _ {F : Type 0} (converters : Converters F) where
  -- `converters[prev + " " + current] || converters["* " + current]`
  unfoldable pub direct : Text → Text → Option (Converter F)
  direct prev current = elim (get (conversion prev current) converters) [
    | some c ↦ some c
    | none ↦ get (conversion (codes "*") current) converters
  ]

  -- The `for` loop that looks for two converters, over the rest of the keys.
  unfoldable pub transitive : Text → Text → Converters F → Option (Converter F × Converter F)
  unfolding split_first
  transitive prev current [] = none
  transitive prev current ((key, first) ∷ rest) =
      let (from, to) = split_first key in
      let later = transitive prev current rest in
      let here : Option (Converter F × Converter F) =
        (elim (get (conversion (second_part to) current) converters) [
          | some second ↦ some (first, second)
          | none ↦ later
        ]) in
      if text_eq from prev || text_eq from (codes "*") then here else later

  module _ {B : Type 0} (apply : F → B → Result B) where
    unfoldable pub run_converter : Converter F → B → Result B
    run_converter same body = ok body
    run_converter (convert f) body = apply f body

    -- From `prev` to another data type, by one converter or by two.
    unfoldable pub convert_one : Text → Text → B → Result B
    unfolding direct transitive run_converter
    convert_one prev current body = elim (direct prev current) [
      | some c ↦ run_converter c body
      | none ↦ elim (transitive prev current converters) [
        | none ↦ err (no_conversion prev current)
        | some (first, second) ↦ run_converter first body >>= λ b. run_converter second b
      ]
    ]

    -- The loop over the data types behind `prev`.
    unfoldable pub convert_chain : Text → List Text → B → Result B
    unfolding convert_one
    convert_chain prev [] body = ok body
    convert_chain prev (current ∷ types) body =
        let kept = text_eq current (codes "*") in
        let next = (if kept then prev else current) in
        let changes = not kept && not (text_eq prev (codes "*")) && not (text_eq prev current) in
        (if changes then convert_one prev current body else ok body) >>= λ b.
        convert_chain next types b

    unfoldable pub ajax_convert : Option (B → B) → List Text → B → Result B
    unfolding convert_chain
    ajax_convert filter types body =
        let filtered : B = (elim filter [ none ↦ body | some f ↦ f body ]) in
        elim types [ [] ↦ ok filtered | t ∷ ts ↦ convert_chain t ts filtered ]
