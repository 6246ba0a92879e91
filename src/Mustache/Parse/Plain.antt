-- ===== src/Mustache/Parse/Plain.antt =====
-- A template with no opening tag is one text token.
use mathlib.Core.List.{append_assoc, append-nil}
use terminator.Base.{
  ℕ, suc, ◌+◌, false, none, List, [], ◌∷◌, ◌++◌, Text, length, Result, ok, ◌≡◌, refl, sym, ap, ap₂,
  ◌∙◌, arith,
}
use terminator.Mustache.Scanner.{
  Regex, literal_spaced, Scanner, match_here, search, scan, scan_until,
}
use terminator.Mustache.Token.{text, Token, leaf, Nodes, nil, cons, push}
use terminator.Mustache.Squash.{squash_onto, squash_tokens}
use terminator.Mustache.Nest.{nest_tokens}
use terminator.Mustache.Parse.{Parser, text_char, text_chars, stop, round, initial, parse}

abbrev char_tokens : Text → ℕ → List Token
char_tokens [] start = []
char_tokens (c ∷ s) start =
    record { type = text; value = c ∷ []; start = start; end = start + 1 }
    ∷ char_tokens s (start + 1)

text_char-tokens :
    (c start : ℕ) (p : Parser)
    → p.has_tag ≡ false
    → ((text_char c start p).tokens
        ≡ p.tokens ++ (record { type = text; value = c ∷ []; start = start; end = start + 1 } ∷ []))
      × ((text_char c start p).has_tag ≡ false)
unfolding text_char
text_char-tokens c start p h = ground arith

text_chars-tokens :
    (s : Text) (start : ℕ) (p : Parser)
    → p.has_tag ≡ false
    → (text_chars s start p).tokens ≡ p.tokens ++ char_tokens s start
unfolding text_chars
text_chars-tokens [] start p h = sym (append-nil p.tokens)
text_chars-tokens (c ∷ s) start p h =
    let (pushed, still) = text_char-tokens c start p h in
    text_chars-tokens s (start + 1) (text_char c start p) still
    ∙ rw pushed (append_assoc p.tokens _ _)

abbrev text_token : Text → ℕ → ℕ → Token
text_token v start end = record { type = text; value = v; start = start; end = end }

text_token-eq :
    (v w : Text) (start a b : ℕ)
    → v ≡ w
    → a ≡ b
    → text_token v start a ∷ [] ≡ text_token w start b ∷ []
text_token-eq v w start a b e f = ap₂ (λ x y. text_token x start y ∷ []) e f

squash_onto-char_tokens :
    (s v : Text) (start at : ℕ)
    → squash_onto (record { type = text; value = v; start = start; end = at }) (char_tokens s at)
      ≡ record { type = text; value = v ++ s; start = start; end = at + length s } ∷ []
unfolding squash_onto
squash_onto-char_tokens [] v start at =
    text_token-eq v (v ++ []) start at (at + 0) (sym (append-nil v)) (omega arith)
squash_onto-char_tokens (c ∷ s) v start at =
    squash_onto-char_tokens s (v ++ (c ∷ [])) start (at + 1)
    ∙ text_token-eq _ _ start _ _ (append_assoc v (c ∷ []) s) (omega arith)

-- The tree of one text token, or of none for the empty template.
abbrev pub plain : Text → Nodes
plain [] = nil
plain (c ∷ s) =
    cons (leaf (record { type = text; value = c ∷ s; start = 0; end = length (c ∷ s) })) nil

search-none : (re : Regex) (t : Text) → search re t ≡ none → match_here re [] ≡ none
unfolding search
search-none re [] h = ground arith
search-none re (c ∷ t) h = ground (arith, search-none re t)

scan_until-none :
    (re : Regex) (s : Scanner)
    → search re s.tail ≡ none
    → scan_until re s ≡ (s.tail, record s { tail = []; pos = s.pos + length s.tail })
unfolding scan_until
scan_until-none re s h = rw (h, scan_until)

scan-none : (re : Regex) (s : Scanner) → match_here re s.tail ≡ none → scan re s ≡ ([], s)
unfolding scan
scan-none re s h = rw (h, scan)

round_plain :
    (p : Parser)
    → p.has_tag ≡ false
    → search (literal_spaced p.open_tag) p.scanner.tail ≡ none
    → (q : Parser) × (round p ≡ ok (stop q))
      × (q.tokens ≡ p.tokens ++ char_tokens p.scanner.tail p.scanner.pos)
unfolding round
round_plain p idle h =
    let s1 : Scanner = record p.scanner {
      tail = [];
      pos = p.scanner.pos + length p.scanner.tail;
    } in
    let p1 = record p { scanner = s1 } in
    let p2 = text_chars p.scanner.tail p.scanner.pos p1 in
    let re = literal_spaced p.open_tag in
    let ran : round p ≡ ok (stop (record p2 { scanner = s1 })) =
      rw (scan_until-none re p.scanner h, scan-none re s1 (search-none re p.scanner.tail h)) in
    (record p2 { scanner = s1 }, ran, text_chars-tokens p.scanner.tail _ p1 idle)

-- Parsing a text in which the opening tag does not occur yields that text as one token, whatever
-- white space and lines it has.
pub parse-plain :
    (t open_tag close_tag : Text)
    → search (literal_spaced open_tag) t ≡ none
    → parse t (open_tag ∷ close_tag ∷ []) ≡ ok (plain t)
unfolding parse push
parse-plain [] open_tag close_tag h = refl
parse-plain (c ∷ s) open_tag close_tag h =
    let (q, ran, tokens) = round_plain (initial (c ∷ s) open_tag close_tag) refl h in
    rw (ran, tokens) (squashed (squash_onto-char_tokens s (c ∷ []) 0 1))
  where
    squashed :
        squash_onto (text_token (c ∷ []) 0 1) (char_tokens s 1)
          ≡ text_token (c ∷ s) 0 (1 + length s) ∷ []
        → nest_tokens (squash_tokens (char_tokens (c ∷ s) 0)) ≡ ok (plain (c ∷ s))
    squashed e = rw e (
        ap {B = Result Nodes} (λ n. ok (cons (leaf (text_token (c ∷ s) 0 n)) nil))
          (let sum : 1 + length s ≡ suc (length s) = omega arith in sum))
