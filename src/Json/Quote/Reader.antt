-- ===== src/Json/Quote/Reader.antt =====
-- The reference for string literals: a reader of the literals that RFC 8259 allows, one code unit at
-- a time. It shares nothing with `quote`.
use terminator.Base.{ℕ, ◌+◌, ◌-◌, ◌*◌, ◌==◌, [], ◌∷◌, Option, none, some, Text, ltb, if◌then◌else◌}
use terminator.Json.Quote.{within}

-- Inside a literal, behind a backslash, or within the hexadecimal digits of an escape sequence, with
-- the number of digits to come and the value of those read.
pub data Reading : Type 0 where
  plain escaped : Reading
  digits : ℕ → ℕ → Reading

-- What a code unit means: an error, the end, nothing yet, or a code unit of the string.
pub data Move : Type 0 where
  fail finish : Move
  go : Reading → Move
  emit : ℕ → Move

unfoldable pub hex_value : ℕ → Option ℕ
hex_value c =
    if within 48 57 c
    then some (c - 48)
    else if within 65 70 c
    then some (c - 55)
    else if within 97 102 c
    then some (c - 87)
    else none

abbrev pub escape_move : ℕ → Move
escape_move c =
    if c == b'u'
    then go (digits 4 0)
    else if c == b'b'
    then emit 8
    else if c == b't'
    then emit 9
    else if c == b'n'
    then emit 10
    else if c == b'f'
    then emit 12
    else if c == b'r'
    then emit 13
    else if c == b'"'
    then emit b'"'
    else if c == b'\\'
    then emit b'\\'
    else if c == b'/'
    then emit b'/'
    else fail

abbrev pub digit_move : ℕ → ℕ → Option ℕ → Move
digit_move n value none = fail
digit_move n value (some d) =
    if n == 1 then emit (value * 16 + d) else go (digits (n - 1) (value * 16 + d))

unfoldable pub move : Reading → ℕ → Move
move plain c =
    if c == b'"'
    then finish
    else if c == b'\\'
    then go escaped
    else if ltb c 32
    then fail
    else emit c
move escaped c = escape_move c
move (digits n value) c = digit_move n value (hex_value c)

abbrev pub put : ℕ → Option (Text × Text) → Option (Text × Text)
put c none = none
put c (some (s, rest)) = some (c ∷ s, rest)

-- The string up to the closing quotation mark, and the text behind that.
unfoldable pub read_body : Reading → Text → Option (Text × Text)
unfolding move
read_body r [] = none
read_body r (c ∷ t) = elim (move r c) [
  | fail ↦ none
  | finish ↦ some ([], t)
  | go r' ↦ read_body r' t
  | emit d ↦ put d (read_body plain t)
]

unfoldable pub read_string : Text → Option (Text × Text)
unfolding read_body
read_string [] = none
read_string (c ∷ t) = if c == b'"' then read_body plain t else none
