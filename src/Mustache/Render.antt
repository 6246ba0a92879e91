-- ===== src/Mustache/Render.antt =====
-- `Writer`: rendering a tree of tokens in a context. The caches of compiled templates and of
-- sub-renderers are left out: what they hold is what would be computed again. `String(n)` of a number
-- is a parameter.
pub mod Escaped
pub mod Sections
use terminator.Base.{
  ℕ, zero, suc, Bool, true, false, not, ◌||◌, List, [], ◌∷◌, ◌++◌, Text, codes, Option, none, some,
  Result, ok, err, out_of_fuel, ◌>>=◌, if◌then◌else◌,
}
use terminator.Mustache.Escape.{escape_html}
use terminator.Mustache.Token.{
  TokenType, text, name, section, inverted, partial, amp, Token, Node, leaf, branch, Nodes, nil,
  cons,
}
use terminator.Mustache.Value.{
  Value, undefined, null, boolean, number, string, array, object, Items, end, item, Fields, empty,
  field, items, truthy, is_set, Context, lookup,
}
use terminator.Mustache.Parse.{parse, default_tags}

-- `String(value)`; an array is joined by commas, its unset items are empty.
module _ (number_text : ℕ → Text) where
  unfoldable mutual
    pub to_text : Value → Text
    to_text undefined = codes "undefined"
    to_text null = codes "null"
    to_text (boolean true) = codes "true"
    to_text (boolean false) = codes "false"
    to_text (number n) = number_text n
    to_text (string s) = s
    to_text (array vs) = join_items vs
    to_text (object fs) = codes "[object Object]"

    pub item_text : Value → Text
    item_text undefined = []
    item_text null = []
    item_text (boolean true) = codes "true"
    item_text (boolean false) = codes "false"
    item_text (number n) = number_text n
    item_text (string s) = s
    item_text (array vs) = join_items vs
    item_text (object fs) = codes "[object Object]"

    pub join_items : Items → Text
    join_items end = []
    join_items (item v end) = item_text v
    join_items (item v (item w vs)) = item_text v ++ (codes "," ++ join_items (item w vs))

  -- `_name`
  unfoldable pub name_text : Text → Context → Result Text
  unfolding to_text
  name_text n context = do value ← lookup n context; ok (if is_set value then to_text value else [])

  -- `_escaped`
  unfoldable pub escaped_text : Text → Context → Result Text
  unfolding name_text
  escaped_text n context = do s ← name_text n context; ok (escape_html s)

-- The loop over an array in `_section`, with its buffer.
unfoldable pub each_item : Text → List Value → Context → (Context → Result Text) → Result Text
each_item buffer [] context callback = ok buffer
each_item buffer (v ∷ vs) context callback = do
  out ← callback (v ∷ context)
  each_item (buffer ++ out) vs context callback

-- `_section`, on the value that was looked up.
unfoldable pub section_text : Value → Context → (Context → Result Text) → Result Text
unfolding each_item
section_text (array vs) context callback = each_item [] (items vs) context callback
section_text (object fs) context callback = callback (object fs ∷ context)
section_text value context callback = if truthy value then callback context else ok []

abbrev pub is_empty_array : Value → Bool
is_empty_array (array end) = true
is_empty_array _ = false

-- `_inverted`, on the value that was looked up.
unfoldable pub inverted_text : Value → Context → (Context → Result Text) → Result Text
inverted_text value context callback =
    if not (truthy value) || is_empty_array value then callback context else ok []

-- A section, with the rendering of its nested tokens.
unfoldable pub branch_text : TokenType → Token → (Context → Result Text) → Context → Result Text
unfolding section_text inverted_text
branch_text section t callback context = do
  value ← lookup t.value context
  section_text value context callback
branch_text inverted t callback context = do
  value ← lookup t.value context
  inverted_text value context callback
branch_text _ t callback context = ok []

module _ (number_text : ℕ → Text) (partial_text : Text → Context → Result Text) where
  -- A token without nested tokens. Comments and changes of the tags render to nothing.
  unfoldable pub leaf_text : TokenType → Token → Context → Result Text
  unfolding escaped_text name_text
  leaf_text partial t context = partial_text t.value context
  leaf_text amp t context = name_text number_text t.value context
  leaf_text name t context = escaped_text number_text t.value context
  leaf_text text t context = ok t.value
  leaf_text _ t context = ok []

  -- The function that `compileTokens` returns.
  unfoldable mutual
    pub render_node : Node → Context → Result Text
    render_node (leaf t) context = leaf_text t.type t context
    render_node (branch t ns) context = branch_text t.type t (λ c. render_nodes ns c) context

    pub render_nodes : Nodes → Context → Result Text
    render_nodes nil context = ok []
    render_nodes (cons n ns) context = do
      out ← render_node n context
      rest ← render_nodes ns context
      ok (out ++ rest)

-- `_partial`; the fuel bounds how deep partials call one another, which nothing does in the source.
unfoldable pub partial_text : (ℕ → Text) → ℕ → (Text → Option Nodes) → Text → Context → Result Text
partial_text number_text zero partials n context = err out_of_fuel
partial_text number_text (suc fuel) partials n context = elim (partials n) [
  | none ↦ ok []
  | some ns ↦ render_nodes number_text (partial_text number_text fuel partials) ns context
]

-- `Writer.render`, with the default tags and with partials that were compiled before.
unfoldable pub render : (ℕ → Text) → ℕ → (Text → Option Nodes) → Text → Value → Result Text
render number_text fuel partials template view = do
  tree ← parse template default_tags
  render_nodes number_text (partial_text number_text fuel partials) tree (view ∷ [])
