-- ===== src/Mustache/Nest/Flatten.antt =====
-- Trees written out as token lists, and read back by nestTokens of mustache.js.
use mathlib.Core.List.{append_assoc, append-nil}
use terminator.Base.{List, [], ◌∷◌, ◌++◌, text_eq_refl, ok, ◌≡◌, refl, sym, ap, ◌∙◌}
use terminator.Mustache.Token.{
  TokenType, section, inverted, close, Token, Node, leaf, branch, Nodes, nil, cons, push,
}
use terminator.Mustache.Nest.{Open, nest_token, nest_loop, nest_tokens}

-- The token types that open a section, and those that stand alone.
abbrev pub Opens : TokenType → Type 0
Opens section = Unit
Opens inverted = Unit
Opens _ = ⊥

abbrev pub Stands : TokenType → Type 0
Stands section = ⊥
Stands inverted = ⊥
Stands close = ⊥
Stands _ = Unit

unfoldable mutual
  pub IsTree : Node → Type 0
  IsTree (leaf t) = Stands t.type
  IsTree (branch t ns) = Opens t.type × IsForest ns

  pub IsForest : Nodes → Type 0
  IsForest nil = Unit
  IsForest (cons n ns) = IsTree n × IsForest ns

abbrev pub closing : Token → Token
closing t = record { type = close; value = t.value; start = t.end; end = t.end }

-- A token list for a tree, with a closing tag behind each section.
unfoldable mutual
  pub flatten : Node → List Token
  flatten (leaf t) = t ∷ []
  flatten (branch t ns) = t ∷ (flatten_all ns ++ (closing t ∷ []))

  pub flatten_all : Nodes → List Token
  flatten_all nil = []
  flatten_all (cons n ns) = flatten n ++ flatten_all ns

abbrev push_all : Nodes → Nodes → Nodes
push_all col nil = col
push_all col (cons n ns) = push_all (push col n) ns

nest_loop-leaf :
    (ty : TokenType) (t : Token) (rest : List Token) (os : List Open) (col : Nodes)
    → Stands ty
    → nest_token ty t os col (nest_loop rest) ≡ nest_loop rest os (push col (leaf t))
unfolding nest_token
nest_loop-leaf section t rest os col h = elim h [ ]
nest_loop-leaf inverted t rest os col h = elim h [ ]
nest_loop-leaf close t rest os col h = elim h [ ]
nest_loop-leaf _ t rest os col h = refl

nest_loop-open :
    (ty : TokenType) (t : Token) (rest : List Token) (os : List Open) (col : Nodes)
    → Opens ty
    → nest_token ty t os col (nest_loop rest)
      ≡ nest_loop rest (record { token = t; before = col } ∷ os) nil
unfolding nest_token
nest_loop-open section t rest os col h = refl
nest_loop-open inverted t rest os col h = refl
nest_loop-open _ t rest os col h = elim h [ ]

abbrev join : Nodes → Nodes → Nodes
join nil ns = ns
join (cons m ms) ns = cons m (join ms ns)

join-push : (col ns : Nodes) (n : Node) → join (push col n) ns ≡ join col (cons n ns)
unfolding push
join-push nil ns n = refl
join-push (cons m ms) ns n = ap (cons m) (join-push ms ns n)

push_all-join : (col ns : Nodes) → push_all col ns ≡ join col ns
push_all-join nil nil = refl
push_all-join (cons m ms) nil = ap (cons m) (push_all-join ms nil)
push_all-join col (cons n ns) = push_all-join (push col n) ns ∙ join-push col ns n

nest_loop-close :
    (t : Token) (rest : List Token) (os : List Open) (col ns : Nodes)
    → nest_loop (closing t ∷ rest) (record { token = t; before = col } ∷ os) ns
      ≡ nest_loop rest os (push col (branch t ns))
unfolding nest_loop
nest_loop-close t rest os col ns = rw (text_eq_refl t.value)

mutual
  unfolding flatten nest_loop IsTree

  nest_loop-flatten :
      (n : Node) (rest : List Token) (os : List Open) (col : Nodes)
      → IsTree n
      → nest_loop (flatten n ++ rest) os col ≡ nest_loop rest os (push col n)
  nest_loop-flatten (leaf t) rest os col h = nest_loop-leaf t.type t rest os col h
  nest_loop-flatten (branch t ns) rest os col (h, hs) =
      let o : Open = record { token = t; before = col } in
      nest_loop-open t.type t ((flatten_all ns ++ (closing t ∷ [])) ++ rest) os col h
      ∙ rw (append_assoc (flatten_all ns) (closing t ∷ []) rest) (
          nest_loop-flatten_all ns (closing t ∷ rest) (o ∷ os) nil hs
          ∙ nest_loop-close t rest os col (push_all nil ns)
          ∙ rw (push_all-join nil ns))

  nest_loop-flatten_all :
      (ns : Nodes) (rest : List Token) (os : List Open) (col : Nodes)
      → IsForest ns
      → nest_loop (flatten_all ns ++ rest) os col ≡ nest_loop rest os (push_all col ns)
  nest_loop-flatten_all nil rest os col h = refl
  nest_loop-flatten_all (cons n ns) rest os col (h, hs) =
      rw (append_assoc (flatten n) (flatten_all ns) rest) (
        nest_loop-flatten n (flatten_all ns ++ rest) os col h
        ∙ nest_loop-flatten_all ns rest os (push col n) hs)

-- Every tree whose sections are opened by section tags, and whose leaves are not section tags, is
-- what nesting makes of its flattened token list.
pub nest_tokens-flatten_all : (ns : Nodes) → IsForest ns → nest_tokens (flatten_all ns) ≡ ok ns
unfolding nest_tokens
nest_tokens-flatten_all ns h =
    ap (λ ts. nest_loop ts [] nil) (sym (append-nil (flatten_all ns)))
    ∙ nest_loop-flatten_all ns [] [] nil h
    ∙ unfold nest_loop in ap ok (push_all-join nil ns)
