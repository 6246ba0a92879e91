-- ===== src/Json/Quote.antt =====
-- `quote` of json2.js: string literals, with an escape sequence for each offending code unit.
pub mod Reader
pub mod Reads
pub mod Clean
use terminator.Base.{
  ℕ, zero, suc, ◌+◌, ◌-◌, ◌/◌, ◌%◌, Bool, true, false, ◌||◌, ◌&&◌, List, [], ◌∷◌, ◌++◌, Option,
  none, some, Text, codes, length, drop, ltb, leb, ◌==◌, if◌then◌else◌,
}

abbrev pub within : ℕ → ℕ → ℕ → Bool
within a b c = leb a c && leb c b

-- The class `escapable`.
unfoldable pub escapable : ℕ → Bool
escapable c =
    c == b'\\'
    || c == b'"'
    || within 0 31 c
    || within 127 159 c
    || c == 173
    || within 1536 1540 c
    || c == 1807
    || within 6068 6069 c
    || within 8204 8207 c
    || within 8232 8239 c
    || within 8288 8303 c
    || c == 65279
    || within 65520 65535 c

-- `escapable.test(string)`
unfoldable pub has_escapable : Text → Bool
has_escapable [] = false
has_escapable (c ∷ s) = escapable c || has_escapable s

-- The table `meta`.
unfoldable pub meta : ℕ → Option Text
meta c =
    if c == 8
    then some (codes "\\b")
    else if c == 9
    then some (codes "\\t")
    else if c == 10
    then some (codes "\\n")
    else if c == 12
    then some (codes "\\f")
    else if c == 13
    then some (codes "\\r")
    else if c == b'"'
    then some (codes "\\\"")
    else if c == b'\\'
    then some (codes "\\\\")
    else none

unfoldable pub hex_digit : ℕ → ℕ
hex_digit n = if ltb n 10 then n + 48 else n + 87

-- The digits of `n.toString(16)` before those already written; a code unit has at most four.
unfoldable pub hex_text : ℕ → ℕ → Text → Text
hex_text zero n written = written
hex_text (suc fuel) n written =
    let longer = hex_text fuel (n / 16) (hex_digit (n % 16) ∷ written) in
    if ltb n 16 then hex_digit n ∷ written else longer

-- `text.slice(-n)`
abbrev slice_last : ℕ → Text → Text
slice_last n t = drop (length t - n) t

-- `'\\u' + ('0000' + a.charCodeAt(0).toString(16)).slice(-4)`
unfoldable pub unicode_escape : ℕ → Text
unfolding hex_text
unicode_escape c = codes "\\u" ++ slice_last 4 (codes "0000" ++ hex_text 4 c [])

-- What `string.replace` puts in the place of one code unit.
unfoldable pub replacement : ℕ → Text
unfolding meta unicode_escape escapable
replacement c =
    if escapable c then elim (meta c) [ some t ↦ t | none ↦ unicode_escape c ] else c ∷ []

unfoldable pub replace_escapable : Text → Text
replace_escapable [] = []
replace_escapable (c ∷ s) = replacement c ++ replace_escapable s

unfoldable pub quote : Text → Text
unfolding has_escapable replace_escapable
quote s =
    if has_escapable s
    then b'"' ∷ (replace_escapable s ++ (b'"' ∷ []))
    else b'"' ∷ (s ++ (b'"' ∷ []))
