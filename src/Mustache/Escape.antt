-- ===== src/Mustache/Escape.antt =====
-- `entityMap` and `escapeHtml`.
pub mod Safe
use terminator.Base.{ℕ, List, [], ◌∷◌, ◌++◌, Text, codes, ◌==◌, if◌then◌else◌}

-- The replacement of one character: its entity, or the character where `entityMap` is not asked.
unfoldable pub entity : ℕ → Text
entity c =
    if c == b'&'
    then codes "&amp;"
    else if c == b'<'
    then codes "&lt;"
    else if c == b'>'
    then codes "&gt;"
    else if c == b'"'
    then codes "&quot;"
    else if c == 39
    then codes "&#39;"
    else if c == b'/'
    then codes "&#x2F;"
    else c ∷ []

unfoldable pub escape_html : Text → Text
unfolding entity
escape_html [] = []
escape_html (c ∷ s) = entity c ++ escape_html s
