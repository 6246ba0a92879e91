-- ===== src/Registry/Kept.antt =====
-- Which templates the operations keep, and what `remove` leaves behind.
use mathlib.Core.Bool.{false≢true}
use terminator.Base.{
  true, false, Bool-cases, List, [], ◌∷◌, Option, none, some, Option-cases, Text, ◌≡◌, ◌≢◌, refl,
  sym, ap, ◌∙◌, inl, inr,
}
use terminator.Registry.Table.{get, get-set_ne}
use terminator.Registry.Templates.{Options, Registry, Left, has, add, go_on, add_from_dom, loaded}

-- The calls that add templates.
pub data Action : Type 0 where
  adds : Text → Text → Action
  adds_from_dom : List Text → Action
  loads : List (Text × Text) → Action

module _ (options : Options) (trim : Text → Text) (html_of : Text → Option Text) where
  unfoldable pub act : Action → Registry → Left
  act (adds name html) s = add options trim name html s
  act (adds_from_dom ids) s = add_from_dom options trim html_of ids s
  act (loads scripts) s = loaded options trim scripts s

  -- The calls one after the other, also after one that threw.
  unfoldable pub act_all : List Action → Registry → Registry
  act_all [] s = s
  act_all (a ∷ as') s = act_all as' (act a s).0

  module _ (fixed : options.allow_overwrite ≡ false) (k t : Text) where
    abbrev Keeps : Registry → Type 0
    Keeps s = get k s.template_map ≡ some t

    go_on-Keeps :
        (rest : Registry → Left)
        → ((s : Registry) → Keeps s → Keeps (rest s).0)
        → (l : Left) → Keeps l.0
        → Keeps (go_on options trim rest l).0
    go_on-Keeps rest f (s, none) h = f s h
    go_on-Keeps rest f (s, some x) h = h

    has_of_Keeps : (s : Registry) → Keeps s → has k s ≡ true
    unfolding has
    has_of_Keeps s h = rw (h, has) refl

    add-Keeps : (name html : Text) (s : Registry) → Keeps s → Keeps (add options trim name html s).0
    unfolding add
    add-Keeps name html s h = elim (Bool-cases (has name s)) [
      | inl e ↦ rw (fixed, e) h
      | inr e ↦
          let ne : name ≢ k = λ q. false≢true (sym e ∙ ap (λ x. has x s) q ∙ has_of_Keeps s h) in
          rw (fixed, e) (get-set_ne k name (trim html) s.template_map ne ∙ h)
    ]

    add_from_dom-Keeps :
        (ids : List Text) (s : Registry)
        → Keeps s
        → Keeps (add_from_dom options trim html_of ids s).0
    unfolding add_from_dom
    add_from_dom-Keeps [] s h = h
    add_from_dom-Keeps (id ∷ ids) s h = elim (Option-cases (html_of id)) [
      | inl e ↦ rw (e, add_from_dom) h
      | inr (html, e) ↦
          rw (e, add_from_dom)
            (go_on-Keeps (λ s'. add_from_dom options trim html_of ids s') (add_from_dom-Keeps ids)
              (add options trim id html s) (add-Keeps id html s h))
    ]

    loaded-Keeps :
        (scripts : List (Text × Text)) (s : Registry)
        → Keeps s
        → Keeps (loaded options trim scripts s).0
    unfolding loaded
    loaded-Keeps [] s h = h
    loaded-Keeps (([], html) ∷ scripts) s h = loaded-Keeps scripts s h
    loaded-Keeps ((c ∷ id, html) ∷ scripts) s h =
        go_on-Keeps (λ s'. loaded options trim scripts s') (loaded-Keeps scripts)
          (add options trim (c ∷ id) html s) (add-Keeps (c ∷ id) html s h)

    act-Keeps : (a : Action) (s : Registry) → Keeps s → Keeps (act a s).0
    unfolding act
    act-Keeps (adds name html) s h = add-Keeps name html s h
    act-Keeps (adds_from_dom ids) s h = add_from_dom-Keeps ids s h
    act-Keeps (loads scripts) s h = loaded-Keeps scripts s h

    -- Where overwriting is not allowed, a registered template stays as it is through every sequence
    -- of calls that add templates, from the caller, from the page or from a file, whether they
    -- throw or not.
    pub get-act_all_keeps :
        (as' : List Action) (s : Registry)
        → get k s.template_map ≡ some t
        → get k (act_all as' s).template_map ≡ some t
    unfolding act_all
    get-act_all_keeps [] s h = h
    get-act_all_keeps (a ∷ as') s h = get-act_all_keeps as' (act a s).0 (act-Keeps a s h)
