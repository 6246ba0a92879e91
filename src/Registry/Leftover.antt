-- ===== src/Registry/Leftover.antt =====
-- What `remove` leaves behind in the writer.
use mathlib.Core.Path.{subst}
use terminator.Base.{
  ℕ, false, Bool-cases, List, [], ◌∷◌, Option, none, some, Text, Result, ok, err, Exception, ◌≡◌,
  ◌≢◌, refl, sym, ap, ◌∙◌, inl, inr, text_eq, text_eq_iff,
}
use terminator.Registry.Table.{get, set, get-set_self, get-delete_self, get-set_keeps}
use terminator.Mustache.Token.{Nodes}
use terminator.Mustache.Parse.{parse, default_tags}
use terminator.Mustache.Value.{Value}
use terminator.Registry.Templates.{
  Options, Registry, Failure, has, remove, compile_partials, shown, engine, call_template, to_html,
  render,
}

-- What compiling does with one template and the rest of the list.
abbrev compile_next :
    Text
    → List (Text × Text)
    → List (Text × Nodes)
    → Result Nodes
    → List (Text × Nodes) × Option Exception
compile_next name m cache (err e) = (cache, some e)
compile_next name m cache (ok nodes) = compile_partials m (set name nodes cache)

compile_partials-next :
    (name template : Text) (m : List (Text × Text)) (cache : List (Text × Nodes))
    → compile_partials ((name, template) ∷ m) cache
      ≡ compile_next name m cache (parse template default_tags)
unfolding compile_partials
compile_partials-next name template m cache = next (parse template default_tags)
  where
    next :
        (r : Result Nodes)
        → elim r [ err e ↦ (cache, some e) | ok nodes ↦ compile_partials m (set name nodes cache) ]
          ≡ compile_next name m cache r
    next (err e) = refl
    next (ok nodes) = refl

module _ (k : Text) where
  Has : List (Text × Nodes) → Type 0
  Has cache = get k cache ≢ none

  compile_next-Has :
      (name : Text) (m : List (Text × Text)) (cache : List (Text × Nodes)) (r : Result Nodes)
      → ((c : List (Text × Nodes)) → Has c → Has (compile_partials m c).0)
      → Has cache
      → Has (compile_next name m cache r).0
  unfolding Has
  compile_next-Has name m cache (err e) ih h = h
  compile_next-Has name m cache (ok nodes) ih h =
      ih (set name nodes cache) (get-set_keeps k name nodes cache h)

  -- Compiling keeps what is compiled.
  compile_partials-Has :
      (m : List (Text × Text)) (cache : List (Text × Nodes))
      → Has cache
      → Has (compile_partials m cache).0
  compile_partials-Has [] cache h = unfold compile_partials in h
  compile_partials-Has ((name, template) ∷ m) cache h =
      rw (compile_partials-next name template m cache)
        (compile_next-Has name m cache (parse template default_tags) (compile_partials-Has m) h)

  -- Compiling that does not throw compiles every template.
  compile_next_all :
      (name template : Text) (m : List (Text × Text)) (cache : List (Text × Nodes))
      (r : Result Nodes)
      → ((c : List (Text × Nodes))
          → (compile_partials m c).1 ≡ none
          → get k m ≢ none
          → Has (compile_partials m c).0)
      → (compile_next name m cache r).1 ≡ none
      → get k ((name, template) ∷ m) ≢ none
      → Has (compile_next name m cache r).0
  unfolding Has get
  compile_next_all name template m cache (err e) ih done h = cc
  compile_next_all name template m cache (ok nodes) ih done h = elim (Bool-cases (text_eq name k)) [
    | inl e ↦
        let same = (text_eq_iff name k).0 e in
        compile_partials-Has m (set name nodes cache)
          (rw same (λ n. cc (n, get-set_self k nodes cache)))
    | inr e ↦ ih (set name nodes cache) done (rw e at h)
  ]

  compile_partials_all :
      (m : List (Text × Text)) (cache : List (Text × Nodes))
      → (compile_partials m cache).1 ≡ none
      → get k m ≢ none
      → Has (compile_partials m cache).0
  compile_partials_all [] cache done h = absurd (h (unfold get in refl))
  compile_partials_all ((name, template) ∷ m) cache done h =
      rw (compile_partials-next name template m cache) (
        compile_next_all name template m cache (parse template default_tags)
          (compile_partials_all m)
          (ap (λ x. x.1) (sym (compile_partials-next name template m cache)) ∙ done) h)

shown-state : (s : Registry) (r : Result Text) → (shown s r).0 ≡ s
shown-state s (ok text) = refl
shown-state s (err e) = refl

-- A call that returns was not stopped by a partial, and leaves the partials that it compiled.
call_template-cache :
    (number_text : ℕ → Text) (fuel : ℕ) (options : Options) (tree : Nodes) (view : Value)
    (s : Registry) (c : List (Text × Nodes) × Option Exception)
    → (call_template number_text fuel options tree view s c).2 ≡ none
    → (c.1 ≡ none) × ((call_template number_text fuel options tree view s c).0.partial_cache ≡ c.0)
call_template-cache number_text fuel options tree view s (cache, some e) h = cc
call_template-cache number_text fuel options tree view s (cache, none) h = (
  refl,
  ap (λ (x : Registry). x.partial_cache) (shown-state (record s { partial_cache = cache }) _),
)

module _ (number_text : ℕ → Text) (fuel : ℕ) (options : Options) (view : Value) (s : Registry) where
  -- What `to_html` does with the parsed template.
  abbrev html_next : Result Nodes → Registry × Text × Option Failure
  html_next (err e) = (s, [], some (engine e))
  html_next (ok tree) =
      call_template number_text fuel options tree view s
        (compile_partials s.template_map s.partial_cache)

  to_html-next :
      (template : Text)
      → to_html number_text fuel options template view s ≡ html_next (parse template default_tags)
  unfolding to_html
  to_html-next template = next (parse template default_tags)
    where
      next :
          (r : Result Nodes)
          → elim r [
            | err e ↦ (s, [], some (engine e))
            | ok tree ↦
                call_template number_text fuel options tree view s
                  (compile_partials s.template_map s.partial_cache)
          ]
            ≡ html_next r
      next (err e) = refl
      next (ok tree) = refl

  html_next-Has :
      (p : Text) (r : Result Nodes)
      → (html_next r).2 ≡ none
      → get p s.template_map ≢ none
      → Has p (html_next r).0.partial_cache
  html_next-Has p (err e) h known = cc
  html_next-Has p (ok tree) h known =
      let c = compile_partials s.template_map s.partial_cache in
      let (done, left) = call_template-cache number_text fuel options tree view s c h in
      rw left (compile_partials_all p s.template_map s.partial_cache done known)

  render-to_html :
      (name template : Text)
      → get name s.template_map ≡ some template
      → render number_text fuel options name view s
        ≡ to_html number_text fuel options template view s
  unfolding render to_html
  render-to_html name template found = rw (found, render) refl

-- A render that returns compiles every registered template as a partial, and `remove` does not undo
-- that: afterwards the removed template is not registered any more, but the writer still has a
-- partial of its name.
pub remove-render :
    (number_text : ℕ → Text) (fuel : ℕ) (options : Options) (p name template : Text) (view : Value)
    (s : Registry)
    → get name s.template_map ≡ some template
    → get p s.template_map ≢ none
    → (render number_text fuel options name view s).2 ≡ none
    → (has p (remove p (render number_text fuel options name view s).0).0 ≡ false)
      × (get p (remove p (render number_text fuel options name view s).0).0.partial_cache ≢ none)
unfolding remove has
remove-render number_text fuel options p name template view s found known h =
    let out = render number_text fuel options name view s in
    let e : out ≡ html_next number_text fuel options view s (parse template default_tags) =
      render-to_html number_text fuel options view s name template found
      ∙ to_html-next number_text fuel options view s template in
    let compiled =
      html_next-Has number_text fuel options view s p (parse template default_tags)
        (ap (λ x. x.2) (sym e) ∙ h) known in
    (
      rw (remove, has, get-delete_self p out.0.template_map) refl,
      unfold remove Has in subst (λ x. Has p x.0.partial_cache) (sym e) compiled,
    )
