-- ===== src/Registry/Templates.antt =====
-- The operations of jquery-mustache.js. `$.trim`, the page's elements and the text of a number are
-- parameters.
use terminator.Base.{
  ℕ, Bool, true, false, not, ◌&&◌, List, [], ◌∷◌, Option, none, some, Text, Result, ok, err,
  Exception, if◌then◌else◌, map,
}
use terminator.Registry.Table.{get, set, delete}
use terminator.Mustache.Token.{Nodes}
use terminator.Mustache.Parse.{parse, default_tags}
use terminator.Mustache.Value.{Value}
use terminator.Mustache.Render.{render_nodes, partial_text}

pub record Options : Type 0 where
  pub warn_on_missing_templates : Bool
  pub allow_overwrite : Bool

-- `templateMap`, and `_partialCache` of the writer that every call of `to_html` shares.
pub record Registry : Type 0 where
  pub template_map : List (Text × Text)
  pub partial_cache : List (Text × Nodes)

-- What `$.error` throws, and what the template engine throws.
pub data Failure : Type 0 where
  already_mapped no_such_element no_template : Text → Failure
  engine : Exception → Failure

unfoldable pub has : Text → Registry → Bool
has name s = elim (get name s.template_map) [ none ↦ false | some t ↦ true ]

-- `templates`
unfoldable pub templates : Registry → List Text
templates s = map (λ entry. entry.0) s.template_map

unfoldable pub remove : Text → Registry → Registry × Option Text
remove name s = (record s { template_map = delete name s.template_map }, get name s.template_map)

unfoldable pub clear : Registry → Registry
clear s = record { template_map = []; partial_cache = [] }

-- The state that a call leaves, and what it throws.
abbrev pub Left : Type 0
Left = Registry × Option Failure

module _ (options : Options) (trim : Text → Text) where
  unfoldable pub add : Text → Text → Registry → Left
  unfolding has
  add name html s =
      if not options.allow_overwrite && has name s
      then (s, some (already_mapped name))
      else (record s { template_map = set name (trim html) s.template_map }, none)

  -- The rest of a loop, which an exception ends.
  abbrev pub go_on : (Registry → Left) → Left → Left
  go_on rest (s, none) = rest s
  go_on rest (s, some f) = (s, some f)

  -- `addFromDom`, on the identifiers of the elements and the content of each that exists.
  unfoldable pub add_from_dom : (Text → Option Text) → List Text → Registry → Left
  unfolding add
  add_from_dom html_of [] s = (s, none)
  add_from_dom html_of (id ∷ ids) s = elim (html_of id) [
    | none ↦ (s, some (no_such_element id))
    | some html ↦ go_on (λ s'. add_from_dom html_of ids s') (add id html s)
  ]

  -- `load`, once the script elements have come, each with its identifier and its content.
  unfoldable pub loaded : List (Text × Text) → Registry → Left
  unfolding add
  loaded [] s = (s, none)
  loaded (([], html) ∷ scripts) s = loaded scripts s
  loaded ((id, html) ∷ scripts) s = go_on (λ s'. loaded scripts s') (add id html s)

-- `compilePartial` of each template: the cache as it is left, and what parsing throws.
unfoldable pub compile_partials :
    List (Text × Text) → List (Text × Nodes) → List (Text × Nodes) × Option Exception
compile_partials [] cache = (cache, none)
compile_partials ((name, template) ∷ rest) cache = elim (parse template default_tags) [
  | err e ↦ (cache, some e)
  | ok nodes ↦ compile_partials rest (set name nodes cache)
]

-- The text of a call, or the empty text and what it throws.
abbrev pub shown : Registry → Result Text → Registry × Text × Option Failure
shown s (ok text) = (s, text, none)
shown s (err e) = (s, [], some (engine e))

module _ (number_text : ℕ → Text) (fuel : ℕ) (options : Options) where
  -- The call of the compiled template, after its partials.
  abbrev pub call_template :
      Nodes
      → Value
      → Registry
      → List (Text × Nodes) × Option Exception
      → Registry × Text × Option Failure
  call_template tree view s (cache, some e) =
      (record s { partial_cache = cache }, [], some (engine e))
  call_template tree view s (cache, none) =
      shown (record s { partial_cache = cache })
        (render_nodes number_text (partial_text number_text fuel (λ n. get n cache)) tree
          (view ∷ []))

  -- `to_html(template, templateData, templateMap)`
  unfoldable pub to_html : Text → Value → Registry → Registry × Text × Option Failure
  unfolding compile_partials
  to_html template view s = elim (parse template default_tags) [
    | err e ↦ (s, [], some (engine e))
    | ok tree ↦ call_template tree view s (compile_partials s.template_map s.partial_cache)
  ]

  unfoldable pub render : Text → Value → Registry → Registry × Text × Option Failure
  unfolding to_html
  render name view s = elim (get name s.template_map) [
    | none ↦ (s, [], if options.warn_on_missing_templates then some (no_template name) else none)
    | some template ↦ to_html template view s
  ]

  -- `$.fn.mustache` puts what `render` gives into one element after another, for each of the view
  -- models, where `put` is the method of the settings and `W` the document.
  module _ {E W : Type 0} (put : E → Text → W → W) where
    unfoldable pub render_views :
        Text → E → List Value → Registry → W → (Registry × Option Failure) × W
    unfolding render
    render_views name element [] s w = ((s, none), w)
    render_views name element (view ∷ views) s w =
        let (s₁, text, thrown) = render name view s in
        let later = render_views name element views s₁ (put element text w) in
        elim thrown [ none ↦ later | some f ↦ ((s₁, some f), w) ]

    unfoldable pub mustache :
        Text → List E → List Value → Registry → W → (Registry × Option Failure) × W
    unfolding render_views
    mustache name [] views s w = ((s, none), w)
    mustache name (element ∷ elements) views s w =
        let ((s₁, thrown), w₁) = render_views name element views s w in
        let later = mustache name elements views s₁ w₁ in
        elim thrown [ none ↦ later | some f ↦ ((s₁, some f), w₁) ]
