-- ===== src/Mustache/Nest/Balanced.antt =====
-- `nestTokens` accepts exactly the balanced token lists, and its tree spells them.
use mathlib.Core.List.{append_assoc, append-nil}
use terminator.Base.{
  List, [], ◌∷◌, ◌++◌, Text, text_eq, text_eq_iff, Bool-cases, ok, ok-injective, ◌≡◌, refl, sym, ap,
  ◌∙◌, inl, inr,
}
use terminator.Mustache.Token.{
  TokenType, section, inverted, close, Token, Node, leaf, branch, Nodes, nil, cons, push,
}
use terminator.Mustache.Nest.{Open, close_section, nest_token, nest_loop, nest_tokens}

-- What a token says, apart from its place: its type and its value.
abbrev pub Label : Type 0
Label = TokenType × Text

abbrev pub label : Token → Label
label t = (t.type, t.value)

abbrev pub labels : List Token → List Label
labels [] = []
labels (t ∷ ts) = label t ∷ labels ts

-- The labels that a tree spells: a section's closing tag repeats its name.
unfoldable mutual
  pub spell : Node → List Label
  spell (leaf t) = label t ∷ []
  spell (branch t ns) = label t ∷ (spell_all ns ++ ((close, t.value) ∷ []))

  pub spell_all : Nodes → List Label
  spell_all nil = []
  spell_all (cons n ns) = spell n ++ spell_all ns

spell_all-push : (ns : Nodes) (n : Node) → spell_all (push ns n) ≡ spell_all ns ++ spell n
unfolding spell push
spell_all-push nil n = append-nil (spell n)
spell_all-push (cons m ms) n = rw (spell_all-push ms n) (sym (append_assoc (spell m) _ _))

-- The labels of what was read, with the sections that are still open.
abbrev spell_open : List Open → List Label
spell_open [] = []
spell_open (o ∷ os) = spell_open os ++ (spell_all o.before ++ (label o.token ∷ []))

abbrev Spells : List Token → List Open → Nodes → Nodes → Type 0
Spells ts os col tree = spell_all tree ≡ spell_open os ++ (spell_all col ++ labels ts)

module _ (t : Token) (ts : List Token) (tree : Nodes)
    (ih : (os : List Open) (col : Nodes)
      → nest_loop ts os col ≡ ok tree
      → Spells ts os col tree) where
  leaf-Spells :
      (os : List Open) (col : Nodes)
      → nest_loop ts os (push col (leaf t)) ≡ ok tree
      → Spells (t ∷ ts) os col tree
  unfolding spell
  leaf-Spells os col e = ih os (push col (leaf t)) e ∙ simp (spell_all-push, append_assoc)

  open-Spells :
      (os : List Open) (col : Nodes)
      → nest_loop ts (record { token = t; before = col } ∷ os) nil ≡ ok tree
      → Spells (t ∷ ts) os col tree
  unfolding spell
  open-Spells os col e = ih _ nil e ∙ simp append_assoc

  close-Spells :
      (os : List Open) (col : Nodes)
      → t.type ≡ close
      → close_section t os col (nest_loop ts) ≡ ok tree
      → Spells (t ∷ ts) os col tree
  unfolding close_section
  close-Spells [] col c e = cc
  close-Spells (o ∷ os) col c e = elim (Bool-cases (text_eq o.token.value t.value)) [
    | inl same ↦
        ih os (push o.before (branch o.token col)) (rw (same, close_section) at e)
        ∙ rw (spell_all-push, (text_eq_iff o.token.value t.value).0 same, c)
            (unfold spell in simp append_assoc)
    | inr other ↦ cc (rw (other, close_section) at e)
  ]

  nest_token-Spells :
      (ty : TokenType) (os : List Open) (col : Nodes)
      → t.type ≡ ty
      → nest_token ty t os col (nest_loop ts) ≡ ok tree
      → Spells (t ∷ ts) os col tree
  unfolding nest_token
  nest_token-Spells section os col c e = open-Spells os col e
  nest_token-Spells inverted os col c e = open-Spells os col e
  nest_token-Spells close os col c e = close-Spells os col c e
  nest_token-Spells _ os col c e = leaf-Spells os col e

nest_loop-Spells :
    (ts : List Token) (tree : Nodes) (os : List Open) (col : Nodes)
    → nest_loop ts os col ≡ ok tree
    → Spells ts os col tree
unfolding nest_loop
nest_loop-Spells [] tree [] col e = rw append-nil (ap spell_all (sym (ok-injective col tree e)))
nest_loop-Spells [] tree (o ∷ os) col e = cc
nest_loop-Spells (t ∷ ts) tree os col e =
    nest_token-Spells t ts tree (nest_loop-Spells ts tree) t.type os col refl e

-- The tree of an accepted token list spells the list's labels, each section closed by a tag of
-- its own name, properly nested.
pub nest_tokens-spell :
    (ts : List Token) (tree : Nodes) → nest_tokens ts ≡ ok tree → spell_all tree ≡ labels ts
unfolding nest_tokens spell_all
nest_tokens-spell ts tree e = nest_loop-Spells ts tree [] nil e
