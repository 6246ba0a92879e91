-- ===== src/Mustache/Parse/Total.antt =====
-- Parsing ends in a tree or in an error of the parser's own.
use terminator.Base.{
  ℕ, zero, suc, ◌<◌, Bool, true, false, Bool-cases, List, [], ◌∷◌, ◌++◌, Text, text_eq, length,
  Result, ok, err, out_of_fuel, bind-eq-err, unclosed_tag, ◌>>=◌, if◌then◌else◌, ◌≡◌, ◌≢◌, inl, inr,
  arith,
}
use terminator.Mustache.Scanner.{
  white, tag_type, spaced, literal_spaced, Scanner, is_empty, eos, scan, scan_until,
}
use terminator.Mustache.Token.{
  TokenType, section, close, delims, Token, Nodes, nil, type_of, is_value,
}
use terminator.Mustache.Squash.{squash_tokens}
use terminator.Mustache.Nest.{Open, close_section, nest_token, nest_loop}
use terminator.Mustache.Parse.{
  Parser, escape_tags, split_space, tag_value, set_tags, finish_tag, read_tag, after_opening,
  text_chars, Round, stop, next, round, parse_loop, initial, parse,
}
use terminator.Mustache.Parse.Terminates.{left, round-lt}

-- None of the parser's own errors is the end of the fuel.
escape_tags-fuel : (tags : List Text) → escape_tags tags ≢ err out_of_fuel
unfolding escape_tags
escape_tags-fuel [] h = cc
escape_tags-fuel (a ∷ []) h = cc
escape_tags-fuel (a ∷ (b ∷ [])) h = cc
escape_tags-fuel (a ∷ (b ∷ (c ∷ r))) h = cc

set_tags-fuel :
    (type : TokenType) (value : Text) (p : Parser) → set_tags type value p ≢ err out_of_fuel
unfolding set_tags
set_tags-fuel delims value p e = elim (bind-eq-err (escape_tags (split_space false [] value)) _ e) [
  | inl bad ↦ escape_tags-fuel (split_space false [] value) bad
  | inr (tags, split, set) ↦ cc set
]
set_tags-fuel _ value p e = cc

if_unclosed-fuel :
    (b : Bool) (n : ℕ) (r : Result Parser)
    → r ≢ err out_of_fuel
    → (if b then err (unclosed_tag n) else r) ≢ err out_of_fuel
if_unclosed-fuel true n r g e = cc
if_unclosed-fuel false n r g e = g e

finish_tag-fuel :
    (start : ℕ) (type : TokenType) (value : Text) (s3 : Scanner) (p : Parser)
    → finish_tag start type value s3 p ≢ err out_of_fuel
unfolding finish_tag
finish_tag-fuel start type value s3 p =
    let s4 = (scan (spaced p.close_tag) s3).1 in
    let token : Token = record { type = type; value = value; start = start; end = s4.pos } in
    let p' : Parser = record p {
      scanner = s4;
      tokens = p.tokens ++ (token ∷ []);
      non_space = if is_value type then true else p.non_space;
    } in
    if_unclosed-fuel (is_empty (scan (spaced p.close_tag) s3).0) s4.pos (set_tags type value p')
      (set_tags-fuel type value p')

read_tag-fuel : (start : ℕ) (p : Parser) → read_tag start p ≢ err out_of_fuel
unfolding read_tag
read_tag-fuel start p =
    let s2 = (scan white (scan tag_type p.scanner).1).1 in
    let out = tag_value (type_of (scan tag_type p.scanner).0) p.close_tag s2 in
    finish_tag-fuel start out.2 out.0 out.1 p

after_opening-fuel :
    (start : ℕ) (opening : Text) (p : Parser) → after_opening start opening p ≢ err out_of_fuel
unfolding after_opening
after_opening-fuel start [] p e = cc
after_opening-fuel start (c ∷ m) p e =
    let p1 = record p { has_tag = true } in
    elim (bind-eq-err (read_tag start p1) _ e) [
      | inl bad ↦ read_tag-fuel start p1 bad
      | inr (p', read, out) ↦ cc out
    ]

round-fuel : (p : Parser) → round p ≢ err out_of_fuel
unfolding round
round-fuel p =
    let re = literal_spaced p.open_tag in
    let out = scan_until re p.scanner in
    let p1 = text_chars out.0 p.scanner.pos (record p { scanner = out.1 }) in
    let opened = scan re out.1 in
    after_opening-fuel out.1.pos opened.0 (record p1 { scanner = opened.1 })

-- One turn of the loop, over what the next turns do.
module _ (fuel : ℕ) (p : Parser) (h : left p.scanner < suc fuel)
    (ih : (q : Parser) → left q.scanner < fuel → parse_loop fuel q ≢ err out_of_fuel) where
  after_round-fuel :
      (r : Round)
      → round p ≡ ok r
      → elim r [ stop q ↦ ok q | next q ↦ parse_loop fuel q ] ≢ err out_of_fuel
  after_round-fuel (stop q) went out = cc
  after_round-fuel (next q) went out = ih q (omega (arith, round-lt p q went)) out

  turn-fuel :
      (b : Bool)
      → (if b
          then ok p
          else (round p >>= λ r. elim r [ stop q ↦ ok q | next q ↦ parse_loop fuel q ]))
        ≢ err out_of_fuel
  turn-fuel true out = cc
  turn-fuel false out = elim (bind-eq-err (round p) _ out) [
    | inl bad ↦ round-fuel p bad
    | inr (r, went, rest) ↦ after_round-fuel r went rest
  ]

parse_loop-fuel :
    (fuel : ℕ) (p : Parser) → left p.scanner < fuel → parse_loop fuel p ≢ err out_of_fuel
unfolding parse_loop
parse_loop-fuel zero p h = absurd (omega arith)
parse_loop-fuel (suc fuel) p h = turn-fuel fuel p h (parse_loop-fuel fuel) (eos p.scanner)

close_section-fuel :
    (t : Token) (os : List Open) (col : Nodes) (k : List Open → Nodes → Result Nodes)
    → ((os : List Open) (col : Nodes) → k os col ≢ err out_of_fuel)
    → close_section t os col k ≢ err out_of_fuel
unfolding close_section
close_section-fuel t [] col k ih e = cc
close_section-fuel t (o ∷ os) col k ih e = elim (Bool-cases (text_eq o.token.value t.value)) [
  | inl same ↦ ih _ _ (rw (same, close_section) at e)
  | inr other ↦ cc (rw (other, close_section) at e)
]

nest_token-fuel :
    (ty : TokenType) (t : Token) (os : List Open) (col : Nodes)
    (k : List Open → Nodes → Result Nodes)
    → ((os : List Open) (col : Nodes) → k os col ≢ err out_of_fuel)
    → nest_token ty t os col k ≢ err out_of_fuel
unfolding nest_token
nest_token-fuel section t os col k ih = ih _ _
nest_token-fuel close t os col k ih = close_section-fuel t os col k ih
nest_token-fuel _ t os col k ih = ih _ _

nest_loop-fuel :
    (ts : List Token) (os : List Open) (col : Nodes) → nest_loop ts os col ≢ err out_of_fuel
unfolding nest_loop
nest_loop-fuel [] [] col e = cc
nest_loop-fuel [] (o ∷ os) col e = cc
nest_loop-fuel (t ∷ ts) os col e =
    nest_token-fuel t.type t os col (nest_loop ts) (nest_loop-fuel ts) e

-- On every template and every list of tags, parsing ends in a tree or in an error of the parser:
-- the loop never runs out of fuel.
pub parse_total : (template : Text) (tags : List Text) → parse template tags ≢ err out_of_fuel
unfolding parse
parse_total template tags e = elim (bind-eq-err (escape_tags tags) _ e) [
  | inl bad ↦ escape_tags-fuel tags bad
  | inr ((open_tag, close_tag), split, rest) ↦
      let p = initial template open_tag close_tag in
      elim (bind-eq-err (parse_loop (suc (length template)) p) _ rest) [
        | inl bad ↦ parse_loop-fuel (suc (length template)) p (omega arith) bad
        | inr (q, ran, nested) ↦ nest_loop-fuel (squash_tokens q.tokens) [] nil nested
      ]
]
