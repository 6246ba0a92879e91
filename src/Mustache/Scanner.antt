-- ===== src/Mustache/Scanner.antt =====
-- `Scanner` and the regular expressions that the parser hands to it.
pub mod Consumes
use terminator.Base.{
  ℕ, zero, suc, ◌+◌, Bool, true, false, ◌&&◌, ◌||◌, Option, none, some, List, [], ◌∷◌, ◌++◌, Text,
  codes, length, take, drop, ◌==◌, leb, if◌then◌else◌,
}
use mathlib.Core.Option

-- The class `\s` of JavaScript.
unfoldable pub is_space : ℕ → Bool
is_space c =
    (leb 9 c && leb c 13)
    || c == 32
    || c == 0xa0
    || c == 0x1680
    || (leb 0x2000 c && leb c 0x200a)
    || c == 0x2028
    || c == 0x2029
    || c == 0x202f
    || c == 0x205f
    || c == 0x3000
    || c == 0xfeff

-- `isWhitespace`, on the one character that the parser gives to it.
abbrev pub is_whitespace : ℕ → Bool
is_whitespace c = is_space c

-- `whiteRe`, `tagRe`; `spaced` is `\s*` before a literal (`eqRe`, `curlyRe`, the closing tag),
-- `literal_spaced` a literal before `\s*` (the opening tag).
pub data Regex : Type 0 where
  white tag_type : Regex
  spaced literal_spaced : Text → Regex

-- The length of a literal that stands at the head of the text.
unfoldable pub prefix : Text → Text → Option ℕ
prefix [] t = some 0
prefix (c ∷ s) [] = none
prefix (c ∷ s) (d ∷ t) =
    let rest = prefix s t in if c == d then Option.map (λ n. n + 1) rest else none

-- The length of the white space at the head of the text.
unfoldable pub white_length : Text → ℕ
unfolding is_space
white_length [] = 0
white_length (c ∷ t) = let rest = white_length t in if is_space c then rest + 1 else 0

-- `\s*` and a literal: the longest white space after which the literal stands.
unfoldable pub spaced_length : Text → Text → Option ℕ
unfolding is_space prefix
spaced_length s [] = prefix s []
spaced_length s (c ∷ t) =
    let rest = spaced_length s t in
    let here = prefix s (c ∷ t) in
    if is_space c then (elim rest [ some n ↦ some (n + 1) | none ↦ here ]) else here

abbrev pub is_tag_type : ℕ → Bool
is_tag_type c =
    c == b'#'
    || c == b'^'
    || c == b'/'
    || c == b'>'
    || c == b'{'
    || c == b'&'
    || c == b'='
    || c == b'!'

-- The length of the match that begins at the head of the text, if there is one.
unfoldable pub match_here : Regex → Text → Option ℕ
unfolding prefix white_length spaced_length
match_here white t = some (white_length t)
match_here tag_type [] = none
match_here tag_type (c ∷ t) = if is_tag_type c then some 1 else none
match_here (spaced s) t = spaced_length s t
match_here (literal_spaced s) t = Option.map (λ n. n + white_length (drop n t)) (prefix s t)

-- `String.prototype.search`: the first position where the expression matches.
unfoldable pub search : Regex → Text → Option ℕ
unfolding match_here
search re [] = elim (match_here re []) [ some n ↦ some 0 | none ↦ none ]
search re (c ∷ t) =
    let rest = search re t in
    elim (match_here re (c ∷ t)) [ some n ↦ some 0 | none ↦ Option.map (λ n. n + 1) rest ]

pub record Scanner : Type 0 where
  pub string : Text
  pub tail : Text
  pub pos : ℕ

-- The constructor `Scanner`.
abbrev pub scanner : Text → Scanner
scanner string = record { string = string; tail = string; pos = 0 }

-- `eos`
abbrev pub is_empty : Text → Bool
is_empty [] = true
is_empty (c ∷ t) = false

abbrev pub eos : Scanner → Bool
eos s = is_empty s.tail

abbrev advance : ℕ → Scanner → Text × Scanner
advance n s = (take n s.tail, record s { tail = drop n s.tail; pos = s.pos + n })

-- `scan`: a match counts only at the head of the tail.
unfoldable pub scan : Regex → Scanner → Text × Scanner
unfolding match_here
scan re s = elim (match_here re s.tail) [ some n ↦ advance n s | none ↦ ([], s) ]

-- `scanUntil`
unfoldable pub scan_until : Regex → Scanner → Text × Scanner
unfolding search
scan_until re s = elim (search re s.tail) [
  | none ↦ (s.tail, record s { tail = []; pos = s.pos + length s.tail })
  | some n ↦ advance n s
]
