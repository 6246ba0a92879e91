-- ===== src/Mustache/Nest.antt =====
-- `nestTokens`. The arrays that `sections` and `collector` share in the source are here the parts of
-- a zipper: each open section with the siblings before it, and the nodes collected since.
pub mod Balanced
pub mod Flatten
use terminator.Base.{
  List, [], ◌∷◌, Text, text_eq, Result, ok, err, unopened_section, unclosed_section, if◌then◌else◌,
}
use terminator.Mustache.Token.{
  TokenType, section, inverted, close, Token, Node, leaf, branch, Nodes, nil, cons, push,
}

pub record Open : Type 0 where
  pub token : Token
  pub before : Nodes

-- `case "/"`, with what the loop does next.
unfoldable pub close_section :
    Token → List Open → Nodes → (List Open → Nodes → Result Nodes) → Result Nodes
close_section token [] collector next = err (unopened_section token.value)
close_section token (o ∷ sections) collector next =
    if text_eq o.token.value token.value
    then next sections (push o.before (branch o.token collector))
    else err (unclosed_section o.token.value)

unfoldable pub nest_token :
    TokenType → Token → List Open → Nodes → (List Open → Nodes → Result Nodes) → Result Nodes
unfolding close_section
nest_token section token sections collector next =
    next (record { token = token; before = collector } ∷ sections) nil
nest_token inverted token sections collector next =
    next (record { token = token; before = collector } ∷ sections) nil
nest_token close token sections collector next = close_section token sections collector next
nest_token _ token sections collector next = next sections (push collector (leaf token))

-- The loop, and the check behind it that no section is left open.
unfoldable pub nest_loop : List Token → List Open → Nodes → Result Nodes
unfolding nest_token
nest_loop [] [] collector = ok collector
nest_loop [] (o ∷ sections) collector = err (unclosed_section o.token.value)
nest_loop (token ∷ tokens) sections collector =
    nest_token token.type token sections collector (nest_loop tokens)

unfoldable pub nest_tokens : List Token → Result Nodes
unfolding nest_loop
nest_tokens tokens = nest_loop tokens [] nil
