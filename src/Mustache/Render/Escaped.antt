-- ===== src/Mustache/Render/Escaped.antt =====
-- What a template can put into a page.
use terminator.Base.{
  ℕ, Bool, true, false, List, [], ◌∷◌, ◌++◌, Text, Result, ok, err, ◌>>=◌, if◌then◌else◌, All,
  All-append, ◌≡◌,
}
use mathlib.Core.Path.{subst}
use terminator.Mustache.Escape.Safe.{IsInert, escape_html-IsInert}
use terminator.Mustache.Token.{
  TokenType, text, name, section, inverted, partial, amp, Token, Node, leaf, branch, Nodes, nil,
  cons,
}
use terminator.Mustache.Value.{Value, array, object, items, truthy, Context, lookup}
use terminator.Mustache.Render.{
  name_text, each_item, section_text, inverted_text, leaf_text, branch_text, render_node,
  render_nodes,
}

-- The template's own text is inert, and no tag of it inserts a value or a partial unescaped.
abbrev IsInertLeaf : TokenType → Text → Type 0
IsInertLeaf text v = All IsInert v
IsInertLeaf amp v = ⊥
IsInertLeaf partial v = ⊥
IsInertLeaf _ v = Unit

unfoldable mutual
  pub IsInertNode : Node → Type 0
  IsInertNode (leaf t) = IsInertLeaf t.type t.value
  IsInertNode (branch t ns) = IsInertTemplate ns

  pub IsInertTemplate : Nodes → Type 0
  IsInertTemplate nil = Unit
  IsInertTemplate (cons n ns) = IsInertNode n × IsInertTemplate ns

-- A rendering that, where it succeeds, gives inert text.
abbrev GivesInert : Result Text → Type 0
GivesInert (ok s) = All IsInert s
GivesInert (err e) = Unit

bind-GivesInert {ℓ} :
    {A : Type ℓ} (m : Result A) (f : A → Result Text)
    → ((a : A) → GivesInert (f a))
    → GivesInert (m >>= f)
bind-GivesInert (ok a) f h = h a
bind-GivesInert (err e) f h = tt

if-GivesInert : (b : Bool) (r : Result Text) → GivesInert r → GivesInert (if b then r else ok [])
if-GivesInert true r h = h
if-GivesInert false r h = tt

append-GivesInert :
    (m : Result Text) (f : Text → Result Text)
    → GivesInert m
    → ((s : Text) → All IsInert s → GivesInert (f s))
    → GivesInert (m >>= f)
append-GivesInert (ok s) f h k = k s h
append-GivesInert (err e) f h k = tt

module _ (callback : Context → Result Text) (inert : (c : Context) → GivesInert (callback c)) where
  each_item-GivesInert :
      (buffer : Text) (vs : List Value) (context : Context)
      → All IsInert buffer
      → GivesInert (each_item buffer vs context callback)
  unfolding each_item
  each_item-GivesInert buffer [] context h = h
  each_item-GivesInert buffer (v ∷ vs) context h =
      append-GivesInert (callback (v ∷ context)) _ (inert (v ∷ context))
        (λ s k. each_item-GivesInert (buffer ++ s) vs context (All-append IsInert buffer s h k))

  section_text-GivesInert :
      (value : Value) (context : Context) → GivesInert (section_text value context callback)
  unfolding section_text
  section_text-GivesInert (array vs) context = each_item-GivesInert [] (items vs) context tt
  section_text-GivesInert (object fs) context = inert _
  section_text-GivesInert value context = if-GivesInert (truthy value) _ (inert context)

  branch_text-GivesInert :
      (ty : TokenType) (t : Token) (context : Context)
      → GivesInert (branch_text ty t callback context)
  unfolding branch_text inverted_text
  branch_text-GivesInert section t context =
      bind-GivesInert (lookup t.value context) _ (λ v. section_text-GivesInert v context)
  branch_text-GivesInert inverted t context =
      bind-GivesInert (lookup t.value context) _ (λ v. if-GivesInert _ _ (inert context))
  branch_text-GivesInert _ t context = tt

module _ (number_text : ℕ → Text) (partial_text : Text → Context → Result Text) where
  leaf_text-GivesInert :
      (ty : TokenType) (t : Token) (context : Context)
      → IsInertLeaf ty t.value
      → GivesInert (leaf_text number_text partial_text ty t context)
  unfolding leaf_text
  leaf_text-GivesInert text t context h = h
  leaf_text-GivesInert amp t context h = elim h [ ]
  leaf_text-GivesInert partial t context h = elim h [ ]
  leaf_text-GivesInert name t context h =
      bind-GivesInert (name_text number_text t.value context) _ escape_html-IsInert
  leaf_text-GivesInert _ t context h = tt

  mutual
    unfolding render_node IsInertNode

    render_node-GivesInert :
        (n : Node) (context : Context)
        → IsInertNode n
        → GivesInert (render_node number_text partial_text n context)
    render_node-GivesInert (leaf t) context h = leaf_text-GivesInert t.type t context h
    render_node-GivesInert (branch t ns) context h =
        branch_text-GivesInert (render_nodes number_text partial_text ns)
          (λ c. render_nodes-GivesInert ns c h) t.type t context

    render_nodes-GivesInert :
        (ns : Nodes) (context : Context)
        → IsInertTemplate ns
        → GivesInert (render_nodes number_text partial_text ns context)
    render_nodes-GivesInert nil context h = tt
    render_nodes-GivesInert (cons n ns) context h =
        append-GivesInert (render_node number_text partial_text n context) _
          (render_node-GivesInert n context h.0)
          (λ s k.
            append-GivesInert (render_nodes number_text partial_text ns context) _
              (render_nodes-GivesInert ns context h.1) (λ r l. All-append IsInert s r k l))

  -- However hostile the values of the view are: a template whose own text has none of the
  -- characters that delimit tags and attribute values, and which inserts values only by `{{name}}`,
  -- in whatever sections, renders to a page that has none of them.
  pub render_nodes-IsInert :
      (ns : Nodes) (context : Context) (out : Text)
      → IsInertTemplate ns
      → render_nodes number_text partial_text ns context ≡ ok out
      → All IsInert out
  render_nodes-IsInert ns context out h e =
      subst GivesInert e (render_nodes-GivesInert ns context h)
