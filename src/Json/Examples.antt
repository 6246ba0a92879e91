-- ===== src/Json/Examples.antt =====
-- Values written as JSON, and the theorems at inputs where their hypotheses hold.
use terminator.Base.{
  ℕ, ◌+◌, Bool, [], ◌∷◌, ◌++◌, none, some, Text, codes, text_eq, All, ◌≡◌, ◌≢◌, ◌⊎◌, ◌<◌, refl,
  arith, ltb,
}
use terminator.Json.Quote.{quote, escapable, replacement, hex_digit}
use terminator.Json.Quote.Reader.{read_string}
use terminator.Json.Quote.Reads.{read_string-quote}
use terminator.Json.Quote.Clean.{IsClean, quote-IsClean}
use terminator.Json.Value.{
  JsonValue, undefined, number, string, array, object, end, item, empty, field,
}
use terminator.Json.Stringify.{no_space, spaces, stringify}
use terminator.Json.Stringify.Grammar.{Json, Writes, data_of}
use terminator.Json.Stringify.Units.{HasUnits}
use terminator.Json.Stringify.Writes.{stringify-Writes}

-- Numbers below ten stand for themselves, and the others for numbers that are not finite.
abbrev one_digit : ℕ → Text
one_digit n = (n + 48) ∷ []

abbrev is_digit : ℕ → Bool
is_digit n = ltb n 10

-- The data that the link page sends, with a function among the properties.
abbrev sent : JsonValue ℕ
sent = object (
    field (codes "ids") (array (item (number 1) (item (number 20) (item undefined end))))
      (field (codes "f") undefined (field (codes "n") (string (codes "a\"\n")) empty)))

stringify_runs :
    (stringify is_digit one_digit none no_space sent
      ≡ some (codes "{\"ids\":[1,null,null],\"n\":\"a\\\"\\n\"}"))
    × (stringify is_digit one_digit (some (some (codes "n") ∷ [])) (spaces 1) sent
        ≡ some (codes "{\n \"n\": \"a\\\"\\n\"\n}"))
    × (stringify is_digit one_digit none no_space undefined ≡ none)
unfolding stringify text_eq escapable replacement
stringify_runs = (refl, refl, refl)

quote_runs : quote (7 ∷ 8232 ∷ []) ≡ codes "\"\\u0007\\u2028\""
unfolding quote escapable replacement hex_digit
quote_runs = refl

units : All (λ c. c < 65536) (codes "a\"\n")
units = (omega arith, (omega arith, (omega arith, tt)))

read_string-quote_example :
    read_string (quote (codes "a\"\n") ++ codes ",") ≡ some (codes "a\"\n", codes ",")
read_string-quote_example = read_string-quote (codes "a\"\n") (codes ",") units

quote-IsClean_example : All IsClean (quote (codes "a\"\n"))
quote-IsClean_example = quote-IsClean (codes "a\"\n") units

sent-HasUnits : HasUnits sent
unfolding HasUnits
sent-HasUnits = (
  (omega arith, (omega arith, (omega arith, tt))),
  (tt, (tt, (tt, tt))),
  ((omega arith, tt), tt, ((omega arith, tt), units, tt)),
)

written : (n : ℕ) → one_digit n ≢ []
written n e = cc

stringify-Writes_example :
    ((data_of is_digit none sent ≡ none)
      × (stringify is_digit one_digit none (spaces 2) sent ≡ none))
    ⊎ ((d : Json ℕ) × (t : Text) × (data_of is_digit none sent ≡ some d)
        × (stringify is_digit one_digit none (spaces 2) sent ≡ some t)
        × Writes one_digit d t)
stringify-Writes_example =
    stringify-Writes is_digit one_digit written none (spaces 2) sent tt tt sent-HasUnits
