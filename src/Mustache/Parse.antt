-- ===== src/Mustache/Parse.antt =====
-- `parse`, `escapeTags` and what they call: the loop over the template with its line state.
pub mod Terminates
pub mod Total
pub mod Plain
use terminator.Base.{
  ℕ, zero, suc, ◌+◌, Bool, true, false, not, ◌&&◌, List, [], ◌∷◌, ◌++◌, Text, codes, length, ◌==◌,
  Result, ok, err, unclosed_tag, invalid_tags, out_of_fuel, ◌>>=◌, if◌then◌else◌,
}
use terminator.Mustache.Scanner.{
  white, tag_type, spaced, literal_spaced, Scanner, scanner, is_space, is_whitespace, is_empty, eos,
  scan, scan_until,
}
use terminator.Mustache.Token.{TokenType, text, amp, delims, brace, Token, Nodes, type_of, is_value}
use terminator.Mustache.Squash.{squash_tokens}
use terminator.Mustache.Nest.{nest_tokens}

-- The variables of `parse`; `spaces` has its last item first.
pub record Parser : Type 0 where
  pub scanner : Scanner
  pub tokens : List Token
  pub spaces : List ℕ
  pub has_tag : Bool
  pub non_space : Bool
  pub open_tag : Text
  pub close_tag : Text

-- `escapeTags`: its check. The two expressions that it builds are `literal_spaced` of the first tag
-- and `spaced` of the second.
unfoldable pub escape_tags : List Text → Result (Text × Text)
escape_tags (a ∷ b ∷ []) = ok (a, b)
escape_tags _ = err invalid_tags

-- `value.split(spaceRe)`; the flag tells that the character before was white space.
unfoldable pub split_space : Bool → Text → Text → List Text
unfolding is_space
split_space in_run piece [] = piece ∷ []
split_space in_run piece (c ∷ s) =
    let skipped = split_space true piece s in
    let ended = piece ∷ split_space true [] s in
    let longer = split_space false (piece ++ (c ∷ [])) s in
    if is_space c then (if in_run then skipped else ended) else longer

-- `tokens.splice(i, 1)`
unfoldable pub remove_at : ℕ → List Token → List Token
remove_at i [] = []
remove_at zero (t ∷ ts) = ts
remove_at (suc i) (t ∷ ts) = t ∷ remove_at i ts

unfoldable pub remove_all : List ℕ → List Token → List Token
unfolding remove_at
remove_all [] ts = ts
remove_all (i ∷ is) ts = remove_all is (remove_at i ts)

-- `stripSpace`
unfoldable pub strip_space : Parser → Parser
unfolding remove_all
strip_space p = record p {
  tokens = if p.has_tag && not p.non_space then remove_all p.spaces p.tokens else p.tokens;
  spaces = [];
  has_tag = false;
  non_space = false;
}

-- One round of the loop over the characters of a text.
unfoldable pub text_char : ℕ → ℕ → Parser → Parser
unfolding strip_space is_space
text_char chr start p =
    let noted =
      (if is_whitespace chr
        then record p { spaces = length p.tokens ∷ p.spaces }
        else record p { non_space = true }) in
    let token : Token = record { type = text; value = chr ∷ []; start = start; end = start + 1 } in
    let pushed = record noted { tokens = p.tokens ++ (token ∷ []) } in
    if chr == b'\n' then strip_space pushed else pushed

unfoldable pub text_chars : Text → ℕ → Parser → Parser
unfolding text_char
text_chars [] start p = p
text_chars (chr ∷ s) start p = text_chars s (start + 1) (text_char chr start p)

-- The tag's value, with the scanner behind it and the type that its token gets.
unfoldable pub tag_value : TokenType → Text → Scanner → Text × Scanner × TokenType
tag_value delims close_tag s =
    let (value, a) = scan_until (spaced (codes "=")) s in
    let (equal, b) = scan (spaced (codes "=")) a in
    let (skipped, c) = scan_until (spaced close_tag) b in (value, c, delims)
tag_value brace close_tag s =
    let (value, a) = scan_until (spaced (b'}' ∷ close_tag)) s in
    let (curly, b) = scan (spaced (codes "}")) a in
    let (skipped, c) = scan_until (spaced close_tag) b in (value, c, amp)
tag_value type close_tag s = let (value, a) = scan_until (spaced close_tag) s in (value, a, type)

-- "Set the tags for the next time around."
unfoldable pub set_tags : TokenType → Text → Parser → Result Parser
unfolding escape_tags split_space
set_tags delims value p = do
  (open_tag, close_tag) ← escape_tags (split_space false [] value)
  ok (record p { open_tag = open_tag; close_tag = close_tag })
set_tags _ value p = ok p

-- The closing tag and the token, from where the value ends.
unfoldable pub finish_tag : ℕ → TokenType → Text → Scanner → Parser → Result Parser
unfolding set_tags
finish_tag start type value s3 p =
    let (closing, s4) = scan (spaced p.close_tag) s3 in
    let token : Token = record { type = type; value = value; start = start; end = s4.pos } in
    let p' = record p {
      scanner = s4;
      tokens = p.tokens ++ (token ∷ []);
      non_space = if is_value type then true else p.non_space;
    } in
    if is_empty closing then err (unclosed_tag s4.pos) else set_tags type value p'

-- The part of a round behind the opening tag, which began at `start`.
unfoldable pub read_tag : ℕ → Parser → Result Parser
unfolding tag_value type_of finish_tag
read_tag start p =
    let (type_text, s1) = scan tag_type p.scanner in
    let (blank, s2) = scan white s1 in
    let (value, s3, type) = tag_value (type_of type_text) p.close_tag s2 in
    finish_tag start type value s3 p

-- How a round of the loop ends: by `break`, or at the end of its body.
pub data Round : Type 0 where
  stop next : Parser → Round

-- The rest of a round, from the text that matched the opening tag.
unfoldable pub after_opening : ℕ → Text → Parser → Result Round
unfolding read_tag
after_opening start opening p =
    if is_empty opening
    then ok (stop p)
    else (do p' ← read_tag start (record p { has_tag = true }); ok (next p'))

unfoldable pub round : Parser → Result Round
unfolding text_chars after_opening
round p =
    let (value, s1) = scan_until (literal_spaced p.open_tag) p.scanner in
    let p1 = text_chars value p.scanner.pos (record p { scanner = s1 }) in
    let (opening, s2) = scan (literal_spaced p.open_tag) s1 in
    after_opening s1.pos opening (record p1 { scanner = s2 })

-- `while (!scanner.eos())`, on fuel.
unfoldable pub parse_loop : ℕ → Parser → Result Parser
unfolding round
parse_loop zero p = err out_of_fuel
parse_loop (suc fuel) p =
    let body = (round p >>= λ r. elim r [ stop q ↦ ok q | next q ↦ parse_loop fuel q ]) in
    if eos p.scanner then ok p else body

abbrev pub initial : Text → Text → Text → Parser
initial template open_tag close_tag = record {
  scanner = scanner template;
  tokens = [];
  spaces = [];
  has_tag = false;
  non_space = false;
  open_tag = open_tag;
  close_tag = close_tag;
}

-- `exports.tags`
abbrev pub default_tags : List Text
default_tags = codes "{{" ∷ codes "}}" ∷ []

-- `exports.parse`. A round takes at least one character, so the fuel is the length and one more.
unfoldable pub parse : Text → List Text → Result Nodes
unfolding parse_loop escape_tags squash_tokens nest_tokens scan scan_until
parse template tags = do
  (open_tag, close_tag) ← escape_tags tags
  p ← parse_loop (suc (length template)) (initial template open_tag close_tag)
  nest_tokens (squash_tokens p.tokens)
