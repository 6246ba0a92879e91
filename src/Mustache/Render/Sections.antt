-- ===== src/Mustache/Render/Sections.antt =====
-- Sections and inverted sections, and templates without tags.
use mathlib.Core.List.{append_assoc, append-nil}
use terminator.Base.{
  ℕ, Bool, true, false, not, ◌||◌, List, [], ◌∷◌, ◌++◌, map, Text, Option, none, Result, ok, err,
  ◌>>=◌, if◌then◌else◌, ◌≡◌, refl, sym, ap, ◌∙◌, codes,
}
use terminator.Mustache.Scanner.{literal_spaced, search}
use terminator.Mustache.Token.{section, inverted, Token, branch, Nodes}
use terminator.Mustache.Value.{Value, array, object, end, item, items, truthy, Context}
use terminator.Mustache.Names.{Means, lookup-Means}
use terminator.Mustache.Parse.Plain.{parse-plain}
use terminator.Mustache.Render.{
  each_item, section_text, inverted_text, branch_text, leaf_text, render_node, render_nodes, render,
}

-- The contexts in which a section's body is rendered: one for each item of an array, one for an
-- object, the surrounding one for another value that is true, and none otherwise.
abbrev pub instances : Value → Context → List Context
instances (array vs) context = map (λ v. v ∷ context) (items vs)
instances (object fs) context = (object fs ∷ context) ∷ []
instances value context = if truthy value then context ∷ [] else []

abbrev pub render_all : (Context → Result Text) → List Context → Result Text
render_all callback [] = ok []
render_all callback (c ∷ cs) = do s ← callback c; rest ← render_all callback cs; ok (s ++ rest)

-- The body of an inverted section is rendered once if the section's own is not rendered at all.
abbrev pub instead : List Context → Context → List Context
instead [] context = context ∷ []
instead (c ∷ cs) context = []

each_item-render_all :
    (callback : Context → Result Text) (buffer : Text) (vs : List Value) (context : Context)
    → each_item buffer vs context callback
      ≡ (render_all callback (map (λ v. v ∷ context) vs) >>= λ s. ok (buffer ++ s))
unfolding each_item
each_item-render_all callback buffer [] context = ap ok (sym (append-nil buffer))
each_item-render_all callback buffer (v ∷ vs) context =
    step (callback (v ∷ context)) (λ b. each_item-render_all callback b vs context)
  where
    rest : Result Text
    rest = render_all callback (map (λ w. w ∷ context) vs)

    join :
        (r : Result Text) (out : Text)
        → (r >>= λ s. ok ((buffer ++ out) ++ s))
          ≡ ((r >>= λ s. ok (out ++ s)) >>= λ s. ok (buffer ++ s))
    join (ok s) out = ap ok (append_assoc buffer out s)
    join (err e) out = refl

    step :
        (r : Result Text)
        → ((b : Text) → each_item b vs context callback ≡ (rest >>= λ s. ok (b ++ s)))
        → (r >>= λ out. each_item (buffer ++ out) vs context callback)
          ≡ ((r >>= λ out. rest >>= λ s. ok (out ++ s)) >>= λ s. ok (buffer ++ s))
    step (ok out) ih = ih (buffer ++ out) ∙ join rest out
    step (err e) ih = refl

render_all_one :
    (callback : Context → Result Text) (context : Context)
    → render_all callback (context ∷ []) ≡ callback context
render_all_one callback context = once (callback context)
  where
    once : (r : Result Text) → (r >>= λ s. ok (s ++ [])) ≡ r
    once (ok s) = ap ok (append-nil s)
    once (err e) = refl

bind-ok : (r : Result Text) → (r >>= λ s. ok s) ≡ r
bind-ok (ok s) = refl
bind-ok (err e) = refl

module _ (callback : Context → Result Text) (context : Context) where
  if-render_all :
      (b : Bool)
      → (if b then callback context else ok [])
        ≡ render_all callback (if b then context ∷ [] else [])
  if-render_all true = sym (render_all_one callback context)
  if-render_all false = refl

  section_text-render_all :
      (value : Value)
      → section_text value context callback ≡ render_all callback (instances value context)
  unfolding section_text
  section_text-render_all (array vs) =
      each_item-render_all callback [] (items vs) context ∙ bind-ok (render_all callback _)
  section_text-render_all (object fs) = sym (render_all_one callback (object fs ∷ context))
  section_text-render_all value = if-render_all (truthy value)

  if_not-render_all :
      (b : Bool)
      → (if not b || false then callback context else ok [])
        ≡ render_all callback (instead (if b then context ∷ [] else []) context)
  if_not-render_all true = refl
  if_not-render_all false = sym (render_all_one callback context)

  inverted_text-render_all :
      (value : Value)
      → inverted_text value context callback
        ≡ render_all callback (instead (instances value context) context)
  unfolding inverted_text
  inverted_text-render_all (array end) = sym (render_all_one callback context)
  inverted_text-render_all (array (item v vs)) = refl
  inverted_text-render_all (object fs) = refl
  inverted_text-render_all value = if_not-render_all (truthy value)

module _ (number_text : ℕ → Text) (partial_text : Text → Context → Result Text) where
  -- A section renders its body once in each instance of the value that its name means in the context,
  -- in order, and an inverted section of the same name renders its body, in the surrounding context,
  -- exactly if there is no instance.
  pub section-inverted :
      (t u : Token) (ns ms : Nodes) (context : Context) (value : Value)
      → t.type ≡ section
      → u.type ≡ inverted
      → u.value ≡ t.value
      → Means t.value context value
      → (render_node number_text partial_text (branch t ns) context
          ≡ render_all (render_nodes number_text partial_text ns) (instances value context))
        × (render_node number_text partial_text (branch u ms) context
            ≡ render_all
                (render_nodes number_text partial_text ms)
                (instead (instances value context) context))
  unfolding render_node branch_text
  section-inverted t u ns ms context value p q same means =
      let found = lookup-Means t.value context value means in
      (
        rw (p, found)
            (section_text-render_all (render_nodes number_text partial_text ns) context value),
        rw (q, same, found)
            (inverted_text-render_all (render_nodes number_text partial_text ms) context value),
      )

-- A template without an opening tag renders to itself, for every view.
pub render_plain :
    (number_text : ℕ → Text) (fuel : ℕ) (partials : Text → Option Nodes) (template : Text)
    (view : Value)
    → search (literal_spaced (codes "{{")) template ≡ none
    → render number_text fuel partials template view ≡ ok template
unfolding render render_node leaf_text
render_plain number_text fuel partials [] view h = rw (parse-plain [] _ (codes "}}") h)
render_plain number_text fuel partials (c ∷ s) view h =
    rw (parse-plain (c ∷ s) _ (codes "}}") h) (ap ok (append-nil (c ∷ s)))
