-- ===== src/Mustache/Token.antt =====
-- The tokens of a template: arrays [type, value, start, end], nested ones with a fifth item.
use terminator.Base.{ℕ, Bool, true, false, [], ◌∷◌, Text, ◌==◌, if◌then◌else◌}

-- The first item of a token. `brace` is the type that is scanned for `{{{`, which becomes `amp`.
pub data TokenType : Type 0 where
  text name section inverted close partial amp comment delims brace : TokenType

pub record Token : Type 0 where
  pub type : TokenType
  pub value : Text
  pub start : ℕ
  pub end : ℕ

-- `scanner.scan(tagRe) || "name"`
unfoldable pub type_of : Text → TokenType
type_of [] = name
type_of (c ∷ t) =
    if c == b'#'
    then section
    else if c == b'^'
    then inverted
    else if c == b'/'
    then close
    else if c == b'>'
    then partial
    else if c == b'{'
    then brace
    else if c == b'&'
    then amp
    else if c == b'='
    then delims
    else comment

abbrev pub is_text : TokenType → Bool
is_text text = true
is_text _ = false

-- `type === "name" || type === "{" || type === "&"`
abbrev pub is_value : TokenType → Bool
is_value name = true
is_value brace = true
is_value amp = true
is_value _ = false

-- The nested tree: a token, or a section with the tokens between its opening and closing tag.
mutual
  pub data Node : Type 0 where
    leaf : Token → Node
    branch : Token → Nodes → Node

  pub data Nodes : Type 0 where
    nil : Nodes
    cons : Node → Nodes → Nodes

-- `collector.push`
unfoldable pub push : Nodes → Node → Nodes
push nil n = cons n nil
push (cons m ms) n = cons m (push ms n)
