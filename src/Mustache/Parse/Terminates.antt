-- ===== src/Mustache/Parse/Terminates.antt =====
-- The loop of `parse` ends: each round that goes on takes a character, so the fuel suffices.
use terminator.Base.{
  ℕ, ◌+◌, ◌≤◌, ◌<◌, Bool, true, false, [], ◌∷◌, ◌++◌, Text, length, length-append, Result, ok, err,
  Exception, ok-injective, bind-eq-ok, if◌then◌else◌, ◌≡◌, refl, sym, ap, arith,
}
use terminator.Mustache.Scanner.{
  Regex, white, tag_type, spaced, literal_spaced, Scanner, is_empty, scan, scan_until,
}
use terminator.Mustache.Scanner.Consumes.{Consumes, scan-Consumes, scan_until-Consumes}
use terminator.Mustache.Token.{TokenType, delims, brace, Token, type_of, is_value}
use terminator.Mustache.Parse.{
  Parser, escape_tags, split_space, tag_value, set_tags, finish_tag, read_tag, after_opening,
  text_chars, stop, next, round,
}

abbrev pub left : Scanner → ℕ
left s = length s.tail

Consumes-le : {s t : Scanner} {m : Text} → Consumes s m t → left t + length m ≤ left s
Consumes-le {s} {t} {m} c = omega (arith, ap length c.splits, length-append m t.tail)

scan-le : (re : Regex) (s : Scanner) → left (scan re s).1 ≤ left s
scan-le re s = omega (arith, Consumes-le (scan-Consumes re s))

scan_until-le : (re : Regex) (s : Scanner) → left (scan_until re s).1 ≤ left s
scan_until-le re s = omega (arith, Consumes-le (scan_until-Consumes re s))

length-pos_of_not_empty : (m : Text) → is_empty m ≡ false → 0 < length m
length-pos_of_not_empty [] h = cc
length-pos_of_not_empty (c ∷ m) h = omega arith

scan-lt : (re : Regex) (s : Scanner) → is_empty (scan re s).0 ≡ false → left (scan re s).1 < left s
scan-lt re s h =
    omega (arith, Consumes-le (scan-Consumes re s), length-pos_of_not_empty (scan re s).0 h)

-- The three moves behind the value of a `{{=` or a `{{{` tag.
three_moves-le :
    (re re' re'' : Regex) (s : Scanner)
    → left (scan_until re'' (scan re' (scan_until re s).1).1).1 ≤ left s
three_moves-le re re' re'' s =
    let a = (scan_until re s).1 in
    let b = (scan re' a).1 in omega (arith, scan_until-le re s, scan-le re' a, scan_until-le re'' b)

tag_value-le :
    (ty : TokenType) (close_tag : Text) (s : Scanner) → left (tag_value ty close_tag s).1 ≤ left s
unfolding tag_value
tag_value-le delims close_tag s = three_moves-le _ _ _ s
tag_value-le brace close_tag s = three_moves-le _ _ _ s
tag_value-le _ close_tag s = scan_until-le (spaced close_tag) s

set_tags-scanner :
    (ty : TokenType) (value : Text) (p q : Parser)
    → set_tags ty value p ≡ ok q
    → q.scanner ≡ p.scanner
unfolding set_tags
set_tags-scanner delims value p q e =
    let (tags, split, set) = bind-eq-ok (escape_tags (split_space false [] value)) _ e in
    ap (λ (x : Parser). x.scanner) (sym (ok-injective _ q set))
set_tags-scanner _ value p q e = ap (λ (x : Parser). x.scanner) (sym (ok-injective p q e))

if_err-eq-ok {ℓ} :
    {A : Type ℓ} (b : Bool) (x : Exception) (r : Result A) {a : A}
    → (if b then err x else r) ≡ ok a
    → r ≡ ok a
if_err-eq-ok true x r h = cc
if_err-eq-ok false x r h = h

finish_tag-le :
    (start : ℕ) (type : TokenType) (value : Text) (s3 : Scanner) (p q : Parser)
    → finish_tag start type value s3 p ≡ ok q
    → left q.scanner ≤ left s3
unfolding finish_tag
finish_tag-le start type value s3 p q e =
    let s4 = (scan (spaced p.close_tag) s3).1 in
    let token : Token = record { type = type; value = value; start = start; end = s4.pos } in
    let p' : Parser = record p {
      scanner = s4;
      tokens = p.tokens ++ (token ∷ []);
      non_space = if is_value type then true else p.non_space;
    } in
    let set = if_err-eq-ok (is_empty (scan (spaced p.close_tag) s3).0) _ _ e in
    let same : left q.scanner ≡ left s4 = ap left (set_tags-scanner type value p' q set) in
    omega (arith, same, scan-le (spaced p.close_tag) s3)

read_tag-le : (start : ℕ) (p q : Parser) → read_tag start p ≡ ok q → left q.scanner ≤ left p.scanner
unfolding read_tag
read_tag-le start p q e =
    let s1 = (scan tag_type p.scanner).1 in
    let s2 = (scan white s1).1 in
    let type = type_of (scan tag_type p.scanner).0 in
    let out = tag_value type p.close_tag s2 in
    omega (
      arith,
      scan-le tag_type p.scanner,
      scan-le white s1,
      tag_value-le type p.close_tag s2,
      finish_tag-le start out.2 out.0 out.1 p q e,
    )

next-injective : (p q : Parser) → next p ≡ next q → p ≡ q
next-injective p q h = ap (λ r. elim r [ stop x ↦ p | next x ↦ x ]) h

after_opening-le :
    (start : ℕ) (opening : Text) (p q : Parser)
    → after_opening start opening p ≡ ok (next q)
    → (is_empty opening ≡ false) × (left q.scanner ≤ left p.scanner)
unfolding after_opening
after_opening-le start [] p q e = cc
after_opening-le start (c ∷ m) p q e =
    let p1 = record p { has_tag = true } in
    let (p', read, out) = bind-eq-ok (read_tag start p1) _ e in
    let same : left p'.scanner ≡ left q.scanner =
      ap (λ (x : Parser). left x.scanner) (next-injective p' q (ok-injective _ _ out)) in
    (refl, omega (arith, same, read_tag-le start p1 p' read))

pub round-lt : (p q : Parser) → round p ≡ ok (next q) → left q.scanner < left p.scanner
unfolding round
round-lt p q e =
    let re = literal_spaced p.open_tag in
    let out = scan_until re p.scanner in
    let p1 = text_chars out.0 p.scanner.pos (record p { scanner = out.1 }) in
    let opened = scan re out.1 in
    let (some_text, le) =
      after_opening-le out.1.pos opened.0 (record p1 { scanner = opened.1 }) q e in
    omega (arith, le, scan_until-le re p.scanner, scan-lt re out.1 some_text)
