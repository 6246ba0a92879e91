-- ===== src/Json/Quote/Clean.antt =====
-- What `quote` never writes.
use terminator.Base.{
  ℕ, ◌<◌, false, Bool-cases, [], ◌∷◌, Option, none, some, Text, All, All-append, ◌⊎◌, ◌≡◌, refl,
  inl, inr, arith,
}
use terminator.Json.Quote.{
  escapable, meta, hex_digit, unicode_escape, replacement, replace_escapable, quote,
}
use terminator.Json.Quote.Reads.{IsUnit16, unicode_escape-four, quote-replace_escapable}

-- The code unit is not between the two.
abbrev pub Avoids : ℕ → ℕ → ℕ → Type 0
Avoids a b c = (c < a) ⊎ (b < c)

-- A code unit that is no control character, none of the separators and marks of direction, and none of
-- the others that old engines delete or take for the end of a line.
pub record IsClean (c : ℕ) : Type 0 where
  pub no_control : 31 < c
  pub no_delete : Avoids 127 159 c
  pub no_soft_hyphen : Avoids 173 173 c
  pub no_arabic : Avoids 1536 1540 c
  pub no_syriac : Avoids 1807 1807 c
  pub no_khmer : Avoids 6068 6069 c
  pub no_joiner : Avoids 8204 8207 c
  pub no_separator : Avoids 8232 8239 c
  pub no_invisible : Avoids 8288 8303 c
  pub no_byte_order_mark : Avoids 65279 65279 c
  pub no_special : Avoids 65520 65535 c

ascii-IsClean : (c : ℕ) → 31 < c → c < 127 → IsClean c
ascii-IsClean c low high = record {
  no_control = low;
  no_delete = inl high;
  no_soft_hyphen = inl (omega (arith, high));
  no_arabic = inl (omega (arith, high));
  no_syriac = inl (omega (arith, high));
  no_khmer = inl (omega (arith, high));
  no_joiner = inl (omega (arith, high));
  no_separator = inl (omega (arith, high));
  no_invisible = inl (omega (arith, high));
  no_byte_order_mark = inl (omega (arith, high));
  no_special = inl (omega (arith, high));
}

unescaped-IsClean : (c : ℕ) → escapable c ≡ false → IsClean c
unfolding escapable
unescaped-IsClean c e = record {
  no_control = ground (arith, e);
  no_delete = ground (arith, e);
  no_soft_hyphen = ground (arith, e);
  no_arabic = ground (arith, e);
  no_syriac = ground (arith, e);
  no_khmer = ground (arith, e);
  no_joiner = ground (arith, e);
  no_separator = ground (arith, e);
  no_invisible = ground (arith, e);
  no_byte_order_mark = ground (arith, e);
  no_special = ground (arith, e);
}

hex_digit_range : (d : ℕ) → d < 16 → (31 < hex_digit d) × (hex_digit d < 127)
unfolding hex_digit
hex_digit_range d h = (ground (arith, h), ground (arith, h))

hex_digit-IsClean : (d : ℕ) → d < 16 → IsClean (hex_digit d)
hex_digit-IsClean d h =
    let (low, high) = hex_digit_range d h in ascii-IsClean (hex_digit d) low high

backslash-IsClean : IsClean b'\\'
backslash-IsClean = ascii-IsClean b'\\' (omega arith) (omega arith)

quote_mark-IsClean : IsClean b'"'
quote_mark-IsClean = ascii-IsClean b'"' (omega arith) (omega arith)

two-IsClean : (c : ℕ) → 31 < c → c < 127 → All IsClean (b'\\' ∷ c ∷ [])
two-IsClean c low high = (backslash-IsClean, (ascii-IsClean c low high, tt))

meta_two :
    (c : ℕ) (m : Text) → meta c ≡ some m → (d : ℕ) × (m ≡ b'\\' ∷ d ∷ []) × (31 < d) × (d < 127)
unfolding meta
meta_two c m h = ground arith

meta-IsClean : (c : ℕ) (m : Text) → meta c ≡ some m → All IsClean m
meta-IsClean c m h = let (d, same, low, high) = meta_two c m h in rw same (two-IsClean d low high)

escape-IsClean :
    (c : ℕ)
    → IsUnit16 c
    → (o : Option Text) → meta c ≡ o
    → All IsClean (elim o [ some m ↦ m | none ↦ unicode_escape c ])
unfolding escapable
escape-IsClean c h none e = rw (unicode_escape-four c h) (
  backslash-IsClean,
  (
    ascii-IsClean b'u' (omega arith) (omega arith),
    (
      hex_digit-IsClean _ (omega arith),
      (
        hex_digit-IsClean _ (omega arith),
        (hex_digit-IsClean _ (omega arith), (hex_digit-IsClean _ (omega arith), tt)),
      ),
    ),
  ),
)
escape-IsClean c h (some m) e = meta-IsClean c m e

replacement-IsClean : (c : ℕ) → IsUnit16 c → All IsClean (replacement c)
unfolding replacement
replacement-IsClean c h = elim (Bool-cases (escapable c)) [
  | inl e ↦ rw e (escape-IsClean c h (meta c) refl)
  | inr e ↦ rw e (unescaped-IsClean c e, tt)
]

replace_escapable-IsClean : (s : Text) → All IsUnit16 s → All IsClean (replace_escapable s)
unfolding replace_escapable
replace_escapable-IsClean [] h = tt
replace_escapable-IsClean (c ∷ s) (h, hs) =
    All-append IsClean (replacement c) (replace_escapable s) (replacement-IsClean c h)
      (replace_escapable-IsClean s hs)

-- A literal that `quote` writes for code units of 16 bits holds no control character, and none of the
-- other characters that old engines delete or take for the end of a line.
pub quote-IsClean : (s : Text) → All IsUnit16 s → All IsClean (quote s)
quote-IsClean s h = rw (quote-replace_escapable s) (
  quote_mark-IsClean,
  All-append IsClean (replace_escapable s) (b'"' ∷ []) (replace_escapable-IsClean s h)
      (quote_mark-IsClean, tt),
)
