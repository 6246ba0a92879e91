-- ===== src/Jquery/Ajax/Examples.antt =====
-- Requests at concrete inputs, and the theorems there.
use terminator.Base.{
  ℕ, ◌+◌, ◌≡◌, refl, ◌⊎◌, false, ◌==◌, List, [], ◌∷◌, ◌++◌, none, some, Text, codes, text_eq,
  Result, ok, err, ◌>>=◌, no_conversion, All, Any, if◌then◌else◌,
}
use terminator.Registry.Table.{get}
use terminator.Jquery.Ajax.Inspect.{
  Selection, nothing, redirect, transport, Structure, Inspection, inspect, is_inspected,
}
use terminator.Jquery.Ajax.Inspect.Transport.{ask, candidates, inspect-ask}
use terminator.Jquery.Ajax.Responses.{Settings, handle_responses}
use terminator.Jquery.Ajax.Responses.Leading.{IsLeading}
use terminator.Jquery.Ajax.Responses.Chosen.{IsFinal, handle_responses-IsFinal}
use terminator.Jquery.Ajax.Convert.{
  Converter, same, convert, Converters, convert_one, run_converter,
}
use terminator.Jquery.Ajax.Convert.Sound.{IsDirect, Links, IsDeadEnd, convert_one_cases}

-- Function 1 has nothing to offer, function 2 sends the request on, function 3 has a transport.
abbrev offers : ℕ → List ℕ → Selection ℕ × List ℕ
offers f w = (
  if f == 1 then nothing else if f == 2 then redirect (codes "xml") else transport f,
  w ++ (f ∷ []),
)

abbrev transports : Structure ℕ
transports = (codes "json", 1 ∷ 2 ∷ []) ∷ (codes "*", 3 ∷ 4 ∷ []) ∷ []

abbrev request : Inspection (List ℕ)
request = record { data_types = codes "json" ∷ []; inspected = []; world = [] }

inspect-ask_example :
    (s' : Inspection (List ℕ)) × (inspect offers false 2 transports (codes "json") request
      ≡ ok (transport 3, s'))
    × (s'.world ≡ 1 ∷ 2 ∷ 3 ∷ [])
    × (s'.data_types ≡ codes "json" ∷ [])
unfolding ask candidates text_eq get is_inspected
inspect-ask_example = inspect-ask offers 0 transports (codes "json") request refl

-- The content type tells that the response is JSON, but there is one as text.
abbrev settings : Settings ℕ
settings = record {
  contents = (codes "json", λ t. text_eq t (codes "application/json")) ∷ [];
  response_fields = [];
  has_converter = λ t. text_eq t (codes "text json");
  mime_type = none;
}

handle_responses-IsFinal_example :
    let (types, response, filled) =
      handle_responses settings
        (some (codes "application/json"))
        (codes "*" ∷ [])
        ((codes "text", 5) ∷ [])
        [] in
    (leading : List Text) × IsLeading settings
      (some (codes "application/json"))
      (codes "*" ∷ [])
      leading
    × (t : Text) × (ts : List Text) × (types ≡ t ∷ ts)
    × (response ≡ get t ((codes "text", 5) ∷ []))
    × IsFinal settings leading ((codes "text", 5) ∷ []) t
unfolding text_eq get
handle_responses-IsFinal_example =
    handle_responses-IsFinal settings (some (codes "application/json")) (codes "*" ∷ [])
      (codes "text") 5 [] [] refl

abbrev converters : Converters ℕ
converters = (codes "* text", same) ∷ (codes "text json", convert 1) ∷ []

abbrev apply : ℕ → ℕ → Result ℕ
apply f body = ok (f + body)

convert_one_cases_example :
    ((c : Converter ℕ) × IsDirect converters (codes "xml") (codes "json") c
      × (convert_one converters apply (codes "xml") (codes "json") 5
          ≡ run_converter converters apply c 5))
    ⊎ ((first second : Converter ℕ) × ((c : Converter ℕ)
          → ¬ IsDirect converters (codes "xml") (codes "json") c)
        × Any (Links converters (codes "xml") (codes "json") first second) converters
        × (convert_one converters apply (codes "xml") (codes "json") 5 ≡ (
            run_converter converters apply first 5 >>= λ b.
            run_converter converters apply second b)))
    ⊎ (((c : Converter ℕ) → ¬ IsDirect converters (codes "xml") (codes "json") c)
        × All (IsDeadEnd converters (codes "xml") (codes "json")) converters
        × (convert_one converters apply (codes "xml") (codes "json") 5
            ≡ err (no_conversion (codes "xml") (codes "json"))))
convert_one_cases_example = convert_one_cases converters apply (codes "xml") (codes "json") 5
