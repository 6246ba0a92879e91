-- ===== src/Jquery/Classes/Added.antt =====
-- Elements have the classes they are given.
use mathlib.Core.Path.{subst}
use mathlib.Core.List.{append_assoc, append-nil}
use terminator.Base.{
  Bool, true, false, Bool-cases, ◌==◌, List, [], ◌∷◌, ◌++◌, Text, if◌then◌else◌, map, Any, ◌≡◌, ◌⊎◌,
  inl, inr, refl, ap, sym, ◌∙◌,
}
use terminator.Mustache.Scanner.{is_space}
use terminator.Mustache.Parse.{split_space}
use terminator.Jquery.Classes.{
  Element, occurs, blank, trim, spaced, add_names, is_single, is_nothing, add_to_element, has_class,
}
use terminator.Jquery.Classes.{add_class}
use terminator.Jquery.Classes.Spaced.{
  IsWord, or_true, IsIn, occurs-IsIn, IsIn-occurs, IsIn-append, trim-IsIn, blank-IsIn,
}

-- The text ends with a space.
abbrev EndsSpaced : Text → Type 0
EndsSpaced s = (r : Text) × (s ≡ r ++ (b' ' ∷ []))

-- The text after one turn of the loop over the names.
abbrev with_name : Text → Text → Text
with_name c s = if occurs (spaced c) s then s else s ++ c ++ (b' ' ∷ [])

-- What one turn of the loop over the names does.
name_added :
    (c s : Text)
    → EndsSpaced s
    → IsIn c (with_name c s)
      × EndsSpaced (with_name c s)
      × ((n : Text) → IsIn n s → IsIn n (with_name c s))
name_added c s (r, e) = elim (Bool-cases (occurs (spaced c) s)) [
  | inl there ↦ rw there (occurs-IsIn c s there, (r, e), λ n h. h)
  | inr missing ↦ rw missing (
    (r, [], ap (λ l. l ++ c ++ (b' ' ∷ [])) e ∙ simp append_assoc refl),
    (s ++ c, refl),
    λ n h. IsIn-append n (s ++ c) (b' ' ∷ []) (IsIn-append n s c h),
  )
]

add_names-IsIn :
    (c : Text) (names : List Text) (s : Text)
    → EndsSpaced s
    → IsIn c s ⊎ Any (λ n. n ≡ c) names
    → IsIn c (add_names names s)
unfolding add_names
add_names-IsIn c [] s ends (inl there) = there
add_names-IsIn c [] s ends (inr none_left) = absurd none_left
add_names-IsIn c (n ∷ names) s ends (inl there) =
    let (here, ends', kept) = name_added n s ends in
    add_names-IsIn c names _ ends' (inl (kept c there))
add_names-IsIn c (n ∷ names) s ends (inr (inl same)) =
    let (here, ends', kept) = name_added n s ends in
    add_names-IsIn c names _ ends' (inl (subst (λ x. IsIn x (with_name n s)) same here))
add_names-IsIn c (n ∷ names) s ends (inr (inr later)) =
    let (here, ends', kept) = name_added n s ends in add_names-IsIn c names _ ends' (inr later)

-- A text that is split into one name is that name.
split_cons :
    (run : Bool) (piece value : Text)
    → (x : Text) × (xs : List Text) × (split_space run piece value ≡ x ∷ xs)
unfolding split_space
split_cons run piece [] = (piece, [], refl)
split_cons run piece (c ∷ s) = elim (Bool-cases (is_space c)) [
  | inr char ↦
      let (x, xs, e) = split_cons false (piece ++ (c ∷ [])) s in (x, xs, rw (split_space, char) e)
  | inl space ↦ elim (Bool-cases run) [
    | inl in_run ↦
        let (x, xs, e) = split_cons true piece s in (x, xs, rw (split_space, space, in_run) e)
    | inr no_run ↦ (piece, split_space true [] s, rw (split_space, space, no_run) refl)
  ]
]

split_single : (piece value x : Text) → split_space false piece value ≡ x ∷ [] → x ≡ piece ++ value
unfolding split_space
split_single piece [] x e = cc (e, append-nil piece)
split_single piece (c ∷ s) x e = elim (Bool-cases (is_space c)) [
  | inl space ↦
      let (y, ys, more) = split_cons true [] s in cc (more, (rw (split_space, space) at e))
  | inr char ↦
      split_single (piece ++ (c ∷ [])) s x (rw (split_space, char) at e)
      ∙ append_assoc piece (c ∷ []) s
]

single_cases : (names : List Text) → ((x : Text) × (names ≡ x ∷ [])) ⊎ (is_single names ≡ false)
single_cases [] = inr refl
single_cases (x ∷ []) = inl (x, refl)
single_cases (x ∷ y ∷ names) = inr refl

IsIn-single :
    (value c x : Text)
    → Any (λ n. n ≡ c) (split_space false [] value)
    → split_space false [] value ≡ x ∷ []
    → IsIn c (spaced value)
IsIn-single value c x among single =
    let whole : x ≡ value = split_single [] value x single in
    elim (subst (Any (λ n. n ≡ c)) single among) [
      | inl same ↦ ([], [], ap spaced (sym whole ∙ same))
      | inr impossible ↦ absurd impossible
    ]

-- The class name of an element with a word among those that are added.
add_to_element-IsIn :
    (value c : Text) (elem : Element)
    → elem.node_type ≡ 1
    → IsWord c
    → Any (λ n. n ≡ c) (split_space false [] value)
    → IsIn c (spaced (add_to_element value elem).class_name)
unfolding add_to_element
add_to_element-IsIn value c elem node word among =
    let names = split_space false [] value in
    let added : IsIn c (spaced (trim (add_names names (spaced elem.class_name)))) =
      trim-IsIn c (add_names names (spaced elem.class_name)) word (
        add_names-IsIn c names (spaced elem.class_name) (b' ' ∷ elem.class_name, refl)
          (inr among)) in
    elim (Bool-cases (is_nothing elem.class_name)) [
      | inr some_class ↦ rw (add_to_element, node, some_class) added
      | inl no_class ↦ elim (single_cases names) [
        | inr several ↦ rw (add_to_element, node, no_class, several) added
        | inl (x, single) ↦
            rw (add_to_element, node, no_class, single) (IsIn-single value c x among single)
      ]
    ]

add_to_element-node_type :
    (value : Text) (elem : Element) → (add_to_element value elem).node_type ≡ elem.node_type
unfolding add_to_element
add_to_element-node_type value elem = elim (Bool-cases (elem.node_type == 1)) [
  | inl yes_it ↦ rw (add_to_element, yes_it) refl
  | inr no_it ↦ rw (add_to_element, no_it) refl
]

has_class-map :
    (value c : Text) (elems : List Element)
    → IsWord c
    → Any (λ n. n ≡ c) (split_space false [] value)
    → Any (λ e. e.node_type ≡ 1) elems
    → has_class c (map (add_to_element value) elems) ≡ true
unfolding has_class
has_class-map value c [] word among none_left = absurd none_left
has_class-map value c (elem ∷ elems) word among (inl node) =
    let here = IsIn-occurs c (map blank (spaced (add_to_element value elem).class_name)) (
      blank-IsIn c (spaced (add_to_element value elem).class_name) word
        (add_to_element-IsIn value c elem node word among)) in
    rw (add_to_element-node_type value elem ∙ node, here) refl
has_class-map value c (elem ∷ elems) word among (inr later) =
    rw (has_class-map value c elems word among later) (or_true _)

-- After `addClass` with a text, `hasClass` finds each class name of that text, provided that there is an
-- element node in the set: whatever class names the elements had, however the names of the text and
-- theirs are separated, and whether or not they had the name before.
pub has_class-add_class :
    (value c : Text) (elems : List Element)
    → IsWord c
    → Any (λ n. n ≡ c) (split_space false [] value)
    → Any (λ e. e.node_type ≡ 1) elems
    → has_class c (add_class value elems) ≡ true
unfolding add_class
has_class-add_class [] [] elems (some_char, word) among node = cc
has_class-add_class [] (x ∷ c) elems word (inl same) node = cc
has_class-add_class [] (x ∷ c) elems word (inr none_left) node = absurd none_left
has_class-add_class (d ∷ value) c elems word among node =
    has_class-map (d ∷ value) c elems word among node
