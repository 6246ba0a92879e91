-- ===== src/Json/Quote/Reads.antt =====
-- Reading back what `quote` writes.
use mathlib.Core.List.{append_assoc}
use terminator.Base.{
  ℕ, ◌+◌, ◌*◌, ◌/◌, ◌%◌, ◌<◌, Bool, true, false, Bool-cases, ◌||◌, [], ◌∷◌, ◌++◌, Option, none,
  some, Text, codes, All, ◌≡◌, refl, ap, ◌∙◌, inl, inr, arith,
}
use terminator.Json.Quote.{
  escapable, has_escapable, meta, hex_digit, hex_text, unicode_escape, replacement,
  replace_escapable, quote,
}
use terminator.Json.Quote.Reader.{
  plain, digits, hex_value, fail, finish, go, emit, digit_move, move, put, read_body, read_string,
}

abbrev pub IsUnit16 : ℕ → Type 0
IsUnit16 c = c < 65536

hex_value-hex_digit : (d : ℕ) → d < 16 → hex_value (hex_digit d) ≡ some d
unfolding hex_value hex_digit
hex_value-hex_digit d h = ground arith

-- The four digits of a code unit.
abbrev pub four : ℕ → Text
four c =
    hex_digit (c / 16 / 16 / 16)
    ∷ hex_digit (c / 16 / 16 % 16)
    ∷ hex_digit (c / 16 % 16)
    ∷ hex_digit (c % 16)
    ∷ []

pub unicode_escape-four : (c : ℕ) → IsUnit16 c → unicode_escape c ≡ codes "\\u" ++ four c
unfolding unicode_escape hex_text hex_digit
unicode_escape-four c h = ground arith

-- Where the reader goes from a digit.
abbrev after_digit : ℕ → ℕ → Text → Option ℕ → Option (Text × Text)
after_digit n value t digit = elim (digit_move n value digit) [
  | fail ↦ none
  | finish ↦ some ([], t)
  | go r ↦ read_body r t
  | emit d ↦ put d (read_body plain t)
]

read_digit :
    (n value d : ℕ) (t : Text)
    → d < 16
    → read_body (digits n value) (hex_digit d ∷ t) ≡ after_digit n value t (some d)
unfolding read_body move
read_digit n value d t h = ap (after_digit n value t) (hex_value-hex_digit d h)

read_digits :
    (d e f g : ℕ) (t : Text)
    → d < 16
    → e < 16
    → f < 16
    → g < 16
    → read_body plain (codes "\\u" ++ (hex_digit d ∷ hex_digit e ∷ hex_digit f ∷ hex_digit g ∷ t))
      ≡ put ((((0 * 16 + d) * 16 + e) * 16 + f) * 16 + g) (read_body plain t)
unfolding read_body move
read_digits d e f g t hd he hf hg =
    read_digit 4 0 d (hex_digit e ∷ hex_digit f ∷ hex_digit g ∷ t) hd
    ∙ read_digit 3 (0 * 16 + d) e (hex_digit f ∷ hex_digit g ∷ t) he
    ∙ read_digit 2 ((0 * 16 + d) * 16 + e) f (hex_digit g ∷ t) hf
    ∙ read_digit 1 (((0 * 16 + d) * 16 + e) * 16 + f) g t hg

read-unicode_escape :
    (c : ℕ) (t : Text)
    → IsUnit16 c
    → read_body plain (unicode_escape c ++ t) ≡ put c (read_body plain t)
read-unicode_escape c t h = rw (unicode_escape-four c h) (
    read_digits (c / 16 / 16 / 16) (c / 16 / 16 % 16) (c / 16 % 16) (c % 16) t (omega arith)
      (omega arith) (omega arith) (omega arith)
    ∙ ap (λ n. put n (read_body plain t)) (omega arith))

-- A code unit that is not escapable stands for itself.
read_self :
    (c : ℕ) (t : Text) → escapable c ≡ false → read_body plain (c ∷ t) ≡ put c (read_body plain t)
unfolding read_body move escapable
read_self c t h = ground arith

-- A code unit with a short escape sequence.
read-meta :
    (c : ℕ) (t m : Text) → meta c ≡ some m → read_body plain (m ++ t) ≡ put c (read_body plain t)
unfolding read_body move meta
read-meta c t m h = ground arith

read-escape :
    (c : ℕ) (t : Text)
    → IsUnit16 c
    → (o : Option Text) → meta c ≡ o
    → read_body plain (elim o [ some m ↦ m | none ↦ unicode_escape c ] ++ t)
      ≡ put c (read_body plain t)
read-escape c t h none e = read-unicode_escape c t h
read-escape c t h (some m) e = read-meta c t m e

read-replacement :
    (c : ℕ) (t : Text)
    → IsUnit16 c
    → read_body plain (replacement c ++ t) ≡ put c (read_body plain t)
unfolding replacement
read-replacement c t h = elim (Bool-cases (escapable c)) [
  | inl e ↦ rw e (read-escape c t h (meta c) refl)
  | inr e ↦ rw e (read_self c t e)
]

read-closing : (t : Text) → read_body plain (b'"' ∷ t) ≡ some ([], t)
unfolding read_body move
read-closing t = refl

read-replace_escapable :
    (s t : Text)
    → All IsUnit16 s
    → read_body plain (replace_escapable s ++ (b'"' ∷ t)) ≡ some (s, t)
unfolding replace_escapable
read-replace_escapable [] t h = read-closing t
read-replace_escapable (c ∷ s) t (h, hs) =
    rw (append_assoc (replacement c) (replace_escapable s) (b'"' ∷ t)) (
      read-replacement c (replace_escapable s ++ (b'"' ∷ t)) h ∙ rw (read-replace_escapable s t hs))

or-eq-false : (a b : Bool) → a || b ≡ false → (a ≡ false) × (b ≡ false)
or-eq-false false b h = (refl, h)
or-eq-false true b h = cc

-- Where no code unit is escapable the replacement changes nothing.
replace_escapable_self : (s : Text) → has_escapable s ≡ false → replace_escapable s ≡ s
unfolding replace_escapable has_escapable replacement
replace_escapable_self [] h = refl
replace_escapable_self (c ∷ s) h =
    let (other, others) = or-eq-false (escapable c) (has_escapable s) h in
    rw (other, replace_escapable_self s others)

pub quote-replace_escapable : (s : Text) → quote s ≡ b'"' ∷ (replace_escapable s ++ (b'"' ∷ []))
unfolding quote
quote-replace_escapable s = elim (Bool-cases (has_escapable s)) [
  | inl e ↦ rw e
  | inr e ↦ rw (e, replace_escapable_self s e)
]

-- Reading a string literal that `quote` wrote, whatever stands behind it, gives the string and what
-- stands behind it, for every string of 16-bit code units.
pub read_string-quote : (s t : Text) → All IsUnit16 s → read_string (quote s ++ t) ≡ some (s, t)
unfolding read_string
read_string-quote s t h =
    rw (quote-replace_escapable s, append_assoc (replace_escapable s) (b'"' ∷ []) t)
      (read-replace_escapable s t h)
