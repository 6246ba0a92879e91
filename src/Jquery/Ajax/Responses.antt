-- ===== src/Jquery/Ajax/Responses.antt =====
-- `ajaxHandleResponses`: which of the responses counts, and which data types it has to pass through.
pub mod Leading
pub mod Chosen
use terminator.Base.{
  Bool, true, false, not, ◌||◌, List, [], ◌∷◌, ◌++◌, Option, none, some, Text, codes, text_eq,
  if◌then◌else◌,
}
use terminator.Registry.Table.{get, set}

-- What the settings hold: tests of content types, names of fields, and the keys of the converters.
pub record Settings (B : Type 0) : Type 0 where
  pub contents : List (Text × (Text → Bool))
  pub response_fields : List (Text × Text)
  pub has_converter : Text → Bool
  pub mime_type : Option Text

module _ {B : Type 0} (s : Settings B) where
  -- The `responseXXX` fields of the request.
  unfoldable pub fill_fields :
      List (Text × Text) → List (Text × B) → List (Text × B) → List (Text × B)
  fill_fields [] responses fields = fields
  fill_fields ((type, name) ∷ rest) responses fields =
      fill_fields rest responses
        (elim (get type responses) [ none ↦ fields | some body ↦ set name body fields ])

  -- Whether there was an auto data type, and the data types behind those.
  unfoldable pub shift_stars : List Text → Bool × List Text
  shift_stars [] = (false, [])
  shift_stars (t ∷ ts) =
      let rest : Bool × List Text = (true, (shift_stars ts).1) in
      if text_eq t (codes "*") then rest else (false, t ∷ ts)

  -- `s.mimeType || jqXHR.getResponseHeader("content-type")`
  unfoldable pub content_type : Option Text → Option Text
  content_type header = elim s.mime_type [ some (c ∷ t) ↦ some (c ∷ t) | _ ↦ header ]

  -- The first known type whose test the content type passes.
  unfoldable pub known_type : Text → List (Text × (Text → Bool)) → Option Text
  known_type ct [] = none
  known_type ct ((type, test) ∷ rest) =
      let later = known_type ct rest in if test ct then some type else later

  unfoldable pub add_known : Bool → Option Text → List Text → List Text
  unfolding content_type known_type
  add_known false header types = types
  add_known true header types = elim (content_type header) [
    | some (c ∷ ct) ↦ elim (known_type (c ∷ ct) s.contents) [
      | none ↦ types
      | some type ↦ type ∷ types
    ]
    | _ ↦ types
  ]

  -- `!dataTypes[0] || s.converters[type + " " + dataTypes[0]]`
  unfoldable pub is_convertible : List Text → Text → Bool
  is_convertible [] type = true
  is_convertible ([] ∷ ts) type = true
  is_convertible (t ∷ ts) type = s.has_converter (type ++ (b' ' ∷ t))

  -- The first response that is convertible. The types of the responses are names, never empty texts.
  unfoldable pub convertible : List Text → List (Text × B) → Option Text
  unfolding is_convertible
  convertible types [] = none
  convertible types ((type, body) ∷ rest) =
      let later = convertible types rest in if is_convertible types type then some type else later

  abbrev pub first_type : List (Text × B) → Option Text
  first_type [] = none
  first_type ((type, body) ∷ rest) = some type

  -- Or just the first one, where none is convertible.
  unfoldable pub any_type : List Text → List (Text × B) → Option Text
  unfolding convertible
  any_type types responses = elim (convertible types responses) [
    | some type ↦ some type
    | none ↦ first_type responses
  ]

  unfoldable pub final_type : List Text → List (Text × B) → Option Text
  unfolding any_type
  final_type [] responses = any_type [] responses
  final_type (t ∷ ts) responses =
      let other = any_type (t ∷ ts) responses in
      elim (get t responses) [ some body ↦ some t | none ↦ other ]

  -- `if (finalDataType !== dataTypes[0]) dataTypes.unshift(finalDataType)`
  unfoldable pub put_first : Text → List Text → List Text
  put_first type [] = type ∷ []
  put_first type (t ∷ ts) = if text_eq type t then t ∷ ts else type ∷ t ∷ ts

  -- The data types and the response that are returned, with the fields of the request.
  unfoldable pub handle_responses :
      Option Text
      → List Text
      → List (Text × B)
      → List (Text × B)
      → List Text × Option B × List (Text × B)
  unfolding fill_fields shift_stars add_known final_type put_first
  handle_responses header data_types responses fields =
      let (auto, rest) = shift_stars data_types in
      let types = add_known auto header rest in
      let filled = fill_fields s.response_fields responses fields in
      elim (final_type types responses) [
        | none ↦ (types, none, filled)
        | some [] ↦ (types, none, filled)
        | some (c ∷ type) ↦ (put_first (c ∷ type) types, get (c ∷ type) responses, filled)
      ]
