-- ===== src/Registry/Examples.antt =====
-- Runs of the registry, and the theorems at inputs where their hypotheses hold.
use terminator.Base.{
  ℕ, ◌+◌, false, [], ◌∷◌, Option, none, some, Text, codes, text_eq, ◌≡◌, ◌≢◌, refl, if◌then◌else◌,
}
use terminator.Registry.Table.{get, set}
use terminator.Mustache.Escape.{escape_html}
use terminator.Mustache.Token.{push}
use terminator.Mustache.Parse.{parse}
use terminator.Mustache.Value.{Value, string, object, field, empty, lookup}
use terminator.Mustache.Render.{render_node, leaf_text, branch_text, partial_text}
use terminator.Registry.Templates.{
  Options, Registry, has, remove, add_from_dom, already_mapped, no_such_element, render,
}
use terminator.Registry.Kept.{adds, adds_from_dom, loads, act_all, get-act_all_keeps}
use terminator.Registry.Leftover.{remove-render}

abbrev one_digit : ℕ → Text
one_digit n = (n + 48) ∷ []

abbrev fixed : Options
fixed = record { warn_on_missing_templates = false; allow_overwrite = false }

abbrev keep : Text → Text
keep t = t

abbrev page : Text → Option Text
page id = if text_eq id (codes "b") then some (codes "<{{x}}>") else none

abbrev start : Registry
start = record {
  template_map = (codes "a", codes "[{{>b}}]") ∷ (codes "b", codes "{{x}}") ∷ [];
  partial_cache = [];
}

abbrev view : Value
view = object (field (codes "x") (string (codes "1")) empty)

-- A conflict and a missing element end the loop over the elements of the page.
add_from_dom_runs :
    (add_from_dom fixed keep page (codes "b" ∷ codes "c" ∷ []) start
      ≡ (start, some (already_mapped (codes "b"))))
    × (add_from_dom fixed keep page (codes "c" ∷ codes "b" ∷ []) start
        ≡ (start, some (no_such_element (codes "c"))))
unfolding add_from_dom text_eq has get
add_from_dom_runs = (refl, refl)

render_run : (render one_digit 2 fixed (codes "a") view start).1 ≡ codes "[1]"
unfolding render get set parse lookup render_node text_eq push branch_text leaf_text escape_html
    partial_text
render_run = refl

start-a : get (codes "a") start.template_map ≡ some (codes "[{{>b}}]")
unfolding get text_eq
start-a = refl

start-b : get (codes "b") start.template_map ≢ none
unfolding get text_eq
start-b e = cc

returns : (render one_digit 2 fixed (codes "a") view start).2 ≡ none
unfolding render get set parse lookup render_node text_eq push branch_text leaf_text escape_html
    partial_text
returns = refl

get-act_all_keeps_example :
    get
      (codes "a")
      (act_all fixed keep page
        (adds (codes "a") (codes "new")
          ∷ adds_from_dom (codes "b" ∷ [])
          ∷ loads ((codes "a", codes "other") ∷ [])
          ∷ [])
        start).template_map
    ≡ some (codes "[{{>b}}]")
get-act_all_keeps_example =
    get-act_all_keeps fixed keep page refl (codes "a") (codes "[{{>b}}]")
      (adds (codes "a") (codes "new")
        ∷ adds_from_dom (codes "b" ∷ [])
        ∷ loads ((codes "a", codes "other") ∷ [])
        ∷ [])
      start start-a

remove-render_example :
    (has (codes "b") (remove (codes "b") (render one_digit 2 fixed (codes "a") view start).0).0
      ≡ false)
    × (get
          (codes "b")
          (remove (codes "b") (render one_digit 2 fixed (codes "a") view start).0).0.partial_cache
        ≢ none)
remove-render_example =
    remove-render one_digit 2 fixed (codes "b") (codes "a") (codes "[{{>b}}]") view start start-a
      start-b returns
