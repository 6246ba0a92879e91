-- ===== src/Jquery/Classes.antt =====
-- `addClass`, `removeClass`, `toggleClass` and `hasClass`: the class names of elements, in one text.
pub mod Spaced
pub mod Added
use terminator.Base.{
  ℕ, zero, suc, Bool, true, false, not, ◌&&◌, ◌||◌, ◌==◌, List, [], ◌∷◌, ◌++◌, Option, none, some,
  Text, length, if◌then◌else◌, map,
}
use terminator.Mustache.Scanner.{is_space}
use terminator.Mustache.Parse.{split_space}

-- `stored` is the text kept under "__className__".
pub record Element : Type 0 where
  pub node_type : ℕ
  pub class_name : Text
  pub stored : Option Text

-- `indexOf` at the start, and whether it finds anything.
unfoldable pub is_prefix : Text → Text → Bool
is_prefix [] t = true
is_prefix (c ∷ p) [] = false
is_prefix (c ∷ p) (d ∷ t) = c == d && is_prefix p t

unfoldable pub occurs : Text → Text → Bool
unfolding is_prefix
occurs p [] = is_prefix p []
occurs p (d ∷ t) = is_prefix p (d ∷ t) || occurs p t

abbrev pub drop_chars : Text → Text → Text
drop_chars [] t = t
drop_chars (c ∷ p) [] = []
drop_chars (c ∷ p) (d ∷ t) = drop_chars p t

-- `replace` with a text, which replaces its first occurrence.
unfoldable pub replace_first : Text → Text → Text → Text
unfolding is_prefix
replace_first p r [] = if is_prefix p [] then r else []
replace_first p r (d ∷ t) =
    let later = replace_first p r t in
    if is_prefix p (d ∷ t) then r ++ drop_chars p (d ∷ t) else d ∷ later

-- `replace( rclass, " " )`
unfoldable pub blank : ℕ → ℕ
blank c = if (c == 10) || (c == 9) || (c == 13) then b' ' else c

-- `trim`
unfoldable pub trim_left : Text → Text
trim_left [] = []
trim_left (c ∷ t) = let rest = trim_left t in if is_space c then rest else c ∷ t

abbrev pub cons_nonblank : ℕ → Text → Text
cons_nonblank c [] = if is_space c then [] else c ∷ []
cons_nonblank c (d ∷ t) = c ∷ d ∷ t

unfoldable pub trim_right : Text → Text
trim_right [] = []
trim_right (c ∷ t) = cons_nonblank c (trim_right t)

unfoldable pub trim : Text → Text
unfolding trim_left trim_right
trim t = trim_right (trim_left t)

-- A text between two spaces.
abbrev pub spaced : Text → Text
spaced t = b' ' ∷ (t ++ (b' ' ∷ []))

-- The loop of `addClass` over the names.
unfoldable pub add_names : List Text → Text → Text
unfolding occurs
add_names [] set_class = set_class
add_names (c ∷ cs) set_class =
    add_names cs (if occurs (spaced c) set_class then set_class else set_class ++ c ++ (b' ' ∷ []))

abbrev pub is_single : {A : Type 0} → List A → Bool
is_single (x ∷ []) = true
is_single _ = false

abbrev pub is_nothing : Text → Bool
is_nothing [] = true
is_nothing (c ∷ t) = false

unfoldable pub add_to_element : Text → Element → Element
unfolding add_names trim split_space
add_to_element value elem =
    let names = split_space false [] value in
    let class_name =
      if is_nothing elem.class_name && is_single names
      then value
      else trim (add_names names (spaced elem.class_name)) in
    if elem.node_type == 1 then record elem { class_name = class_name } else elem

-- `addClass` with a text; the empty text counts as none.
unfoldable pub add_class : Text → List Element → List Element
unfolding add_to_element
add_class [] elems = elems
add_class (c ∷ value) elems = map (add_to_element (c ∷ value)) elems

-- The loop of `removeClass` over the names.
unfoldable pub remove_names : List Text → Text → Text
unfolding replace_first
remove_names [] class_name = class_name
remove_names (c ∷ cs) class_name = remove_names cs (replace_first (spaced c) (b' ' ∷ []) class_name)

unfoldable pub remove_from_element : Text → Element → Element
unfolding remove_names trim blank split_space
remove_from_element value elem =
    let class_name =
      if is_nothing value
      then []
      else trim (remove_names (split_space false [] value) (map blank (spaced elem.class_name))) in
    if elem.node_type == 1 && not (is_nothing elem.class_name)
    then record elem { class_name = class_name }
    else elem

-- `removeClass` with a text, or with none for all names.
unfoldable pub remove_class : Option Text → List Element → List Element
unfolding remove_from_element
remove_class none elems = map (remove_from_element []) elems
remove_class (some []) elems = elems
remove_class (some (c ∷ value)) elems = map (remove_from_element (c ∷ value)) elems

unfoldable pub has_class : Text → List Element → Bool
unfolding occurs blank
has_class selector [] = false
has_class selector (elem ∷ elems) =
    (elem.node_type == 1 && occurs (spaced selector) (map blank (spaced elem.class_name)))
    || has_class selector elems

-- The loop of `toggleClass` over the names, for one element, which an empty name ends.
unfoldable pub toggle_names : Option Bool → List Text → Element → Element
unfolding has_class add_to_element remove_from_element
toggle_names state [] elem = elem
toggle_names state ([] ∷ names) elem = elem
toggle_names state ((c ∷ name) ∷ names) elem =
    let wanted : Bool = (elim state [
      | none ↦ not (has_class (c ∷ name) (elem ∷ []))
      | some s ↦ s
    ]) in
    toggle_names state names
      (if wanted then add_to_element (c ∷ name) elem else remove_from_element (c ∷ name) elem)

-- `toggleClass` with a text, and with nothing or a Boolean for the whole text.
unfoldable pub toggle_class : Text → Option Bool → List Element → List Element
unfolding toggle_names split_space
toggle_class value state elems = map (toggle_names state (split_space false [] value)) elems

unfoldable pub toggle_whole : Option Bool → Element → Element
toggle_whole value elem =
    let kept_text : Text = (elim elem.stored [ none ↦ [] | some t ↦ t ]) in
    elim elem.class_name [
      | c ∷ t ↦ record elem { class_name = []; stored = some (c ∷ t) }
      | [] ↦ record elem { class_name = elim value [ some false ↦ [] | _ ↦ kept_text ] }
    ]
