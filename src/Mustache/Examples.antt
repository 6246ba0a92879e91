-- ===== src/Mustache/Examples.antt =====
-- Templates parsed and rendered, and the theorems at inputs where their hypotheses hold.
use Prim.Native.String.{String}
use terminator.Base.{
  ℕ, ◌+◌, List, [], ◌∷◌, Option, none, Text, codes, text_eq, Result, ok, err, unclosed_tag,
  invalid_tags, unopened_section, unclosed_section, out_of_fuel, All, map, ◌≡◌, ◌≢◌, refl, inr,
}
use terminator.Mustache.Escape.{escape_html}
use terminator.Mustache.Escape.Safe.{IsInert}
use terminator.Mustache.Token.{
  TokenType, text, name, section, inverted, Token, leaf, branch, Nodes, nil, cons, push,
}
use terminator.Mustache.Nest.{nest_tokens}
use terminator.Mustache.Nest.Balanced.{labels, spell_all, nest_tokens-spell}
use terminator.Mustache.Nest.Flatten.{IsForest, flatten_all, nest_tokens-flatten_all}
use terminator.Mustache.Parse.{parse, default_tags}
use terminator.Mustache.Parse.Total.{parse_total}
use terminator.Mustache.Value.{
  Value, string, number, array, object, end, item, empty, field, Context, property, lookup,
}
use terminator.Mustache.Names.{found}
use terminator.Mustache.Render.{leaf_text, branch_text, render_node, render_nodes, render}
use terminator.Mustache.Render.Escaped.{IsInertTemplate, render_nodes-IsInert}
use terminator.Mustache.Render.Sections.{instances, render_all, instead, section-inverted}
use terminator.Registry.Table.{get, set}
use terminator.Mustache.Writer.{Writer, compile}
use terminator.Mustache.Writer.Cached.{
  Call, clears, compiles, compiles_partial, call_all, fresh_call, call_all-fresh_call,
}

-- What a test has to see through.
engine : Unit {0}
unfolding render parse lookup render_node text_eq push branch_text leaf_text escape_html
engine = tt

abbrev no_partials : Text → Option Nodes
no_partials n = none

abbrev one_digit : ℕ → Text
one_digit n = (n + 48) ∷ []

abbrev show : String → Value → Result Text
show template view = render one_digit 0 no_partials (codes template) view

-- A list of links, as the index page renders it.
abbrev link : String → ℕ → Value
link n port =
    object (field (codes "name") (string (codes n)) (field (codes "port") (number port) empty))

abbrev links : Value
links = object (field (codes "links") (array (item (link "a" 1) (item (link "<b>" 2) end))) empty)

render_links :
    show "{{#links}}\n<td>{{name}}:{{port}}</td>\n{{/links}}\n{{^links}}none{{/links}}" links
    ≡ ok (codes "<td>a:1</td>\n<td>&lt;b&gt;:2</td>\n")
unfolding engine
render_links = refl

errors :
    (parse (codes "{{#a}}x") default_tags ≡ err (unclosed_section (codes "a")))
    × (parse (codes "{{/a}}") default_tags ≡ err (unopened_section (codes "a")))
    × (parse (codes "{{a") default_tags ≡ err (unclosed_tag 3))
    × (parse (codes "{{=a=}}") default_tags ≡ err invalid_tags)
unfolding parse text_eq push
errors = (refl, refl, refl, refl)

change_of_tags : show "{{=<% %>=}}<%name%>" (link "a" 1) ≡ ok (codes "a")
unfolding engine
change_of_tags = refl

abbrev token : TokenType → String → Token
token ty v = record { type = ty; value = codes v; start = 0; end = 0 }

abbrev pieces : List Token
pieces = token text "a" ∷ token text "b" ∷ token name "x" ∷ token text "c" ∷ []

abbrev body : Nodes
body = cons (leaf (token name "n")) nil

abbrev forest : Nodes
forest = cons (branch (token section "s") body) (cons (leaf (token text "!")) nil)

nest_tokens-spell_example : spell_all forest ≡ labels (flatten_all forest)
unfolding nest_tokens text_eq flatten_all push
nest_tokens-spell_example = nest_tokens-spell (flatten_all forest) forest refl

nest_tokens-flatten_all_example : nest_tokens (flatten_all forest) ≡ ok forest
unfolding IsForest
nest_tokens-flatten_all_example = nest_tokens-flatten_all forest ((tt, (tt, tt)), (tt, tt))

parse_total_example : parse (codes "{{#a}}{{=") default_tags ≢ err out_of_fuel
parse_total_example = parse_total (codes "{{#a}}{{=") default_tags

abbrev hostile : Context
hostile = object (field (codes "n") (string (codes "<script>")) empty) ∷ []

abbrev no_partial_text : Text → Context → Result Text
no_partial_text n context = ok []

render_nodes-IsInert_example : All IsInert (codes "&lt;script&gt;")
unfolding render_nodes lookup text_eq escape_html leaf_text IsInertTemplate
render_nodes-IsInert_example =
    render_nodes-IsInert one_digit no_partial_text body hostile (codes "&lt;script&gt;") (tt, tt)
      refl

section-inverted_example :
    (render_node one_digit no_partial_text (branch (token section "n") body) hostile
      ≡ render_all
          (render_nodes one_digit no_partial_text body)
          (instances (string (codes "<script>")) hostile))
    × (render_node one_digit no_partial_text (branch (token inverted "n") nil) hostile
        ≡ render_all
            (render_nodes one_digit no_partial_text nil)
            (instead (instances (string (codes "<script>")) hostile) hostile))
unfolding property text_eq
section-inverted_example =
    section-inverted one_digit no_partial_text (token section "n") (token inverted "n") body nil
      hostile (string (codes "<script>")) refl refl refl
      (inr ((λ e. cc), found (inr (refl, refl)) refl))

-- Arrays have a length and indices.
render_indices :
    show "{{#links.length}}{{links.1.name}}{{links.01}}{{links.2}}{{links.length}}{{/links.length}}"
      links
    ≡ ok (codes "&lt;b&gt;2")
unfolding engine
render_indices = refl

abbrev new_writer : Writer
new_writer = record { cache = []; partial_cache = [] }

abbrev calls : List Call
calls =
    compiles (codes "{{x}}")
    ∷ compiles (codes "{{x}}")
    ∷ compiles_partial (codes "p") (codes "{{x")
    ∷ clears
    ∷ []

call_all-fresh_call_example :
    call_all default_tags calls new_writer ≡ map (fresh_call default_tags) calls
unfolding get
call_all-fresh_call_example =
    call_all-fresh_call default_tags calls new_writer (λ template fn h. cc)

abbrev other_tags : List Text
other_tags = codes "<" ∷ codes ">" ∷ []

-- A template that was compiled with some tags stays compiled with them, whatever tags come later.
ignored_change :
    (compile (codes "<x>") other_tags (compile (codes "<x>") default_tags new_writer).1).0
    ≡ ok (cons (leaf (record { type = text; value = codes "<x>"; start = 0; end = 3 })) nil)
unfolding compile get set parse text_eq push
ignored_change = refl

heeded_change :
    parse (codes "<x>") other_tags
    ≡ ok (cons (leaf (record { type = name; value = codes "x"; start = 0; end = 3 })) nil)
unfolding parse text_eq push
heeded_change = refl
