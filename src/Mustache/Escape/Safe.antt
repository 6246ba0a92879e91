-- ===== src/Mustache/Escape/Safe.antt =====
-- Escaped text is inert in HTML, and says what the original said.
use terminator.Base.{ℕ, [], ◌∷◌, ◌++◌, Text, All, All-append, ◌≡◌, ◌≢◌, refl, sym, ap₂, arith}
use terminator.Mustache.Escape.{entity, escape_html}

-- A character that neither opens nor closes a tag or an attribute value.
abbrev pub IsInert : ℕ → Type 0
IsInert c = (c ≢ b'<') × (c ≢ b'>') × (c ≢ b'"') × (c ≢ 39) × (c ≢ b'/')

entity-IsInert : (c : ℕ) → All IsInert (entity c)
unfolding entity
entity-IsInert c = ground arith

-- Whatever the text, none of the characters that delimit tags and attribute values is left in its
-- escaped form.
pub escape_html-IsInert : (s : Text) → All IsInert (escape_html s)
unfolding escape_html
escape_html-IsInert [] = tt
escape_html-IsInert (c ∷ s) =
    All-append IsInert (entity c) (escape_html s) (entity-IsInert c) (escape_html-IsInert s)

entity-prefix : (c d : ℕ) (s t : Text) → entity c ++ s ≡ entity d ++ t → (c ≡ d) × (s ≡ t)
unfolding entity
entity-prefix c d s t h = ground arith

entity-ne-nil : (c : ℕ) (s : Text) → entity c ++ s ≢ []
unfolding entity
entity-ne-nil c s h = ground arith

-- Two texts with the same escaped form are equal.
pub escape_html-injective : (s t : Text) → escape_html s ≡ escape_html t → s ≡ t
unfolding escape_html
escape_html-injective [] [] h = refl
escape_html-injective [] (d ∷ t) h = absurd (entity-ne-nil d (escape_html t) (sym h))
escape_html-injective (c ∷ s) [] h = absurd (entity-ne-nil c (escape_html s) h)
escape_html-injective (c ∷ s) (d ∷ t) h =
    let (same, rest) = entity-prefix c d (escape_html s) (escape_html t) h in
    ap₂ (λ x xs. x ∷ xs) same (escape_html-injective s t rest)
