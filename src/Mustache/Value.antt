-- ===== src/Mustache/Value.antt =====
-- The values of a view, and `Context`. A view is what the pages get as JSON: the values that are
-- functions, the numbers that are no natural number, and the properties that values inherit from
-- JavaScript's prototypes are left out.
use terminator.Base.{
  ℕ, zero, suc, ◌+◌, ◌-◌, ◌*◌, leb, ◌&&◌, Option, none, some, length, map, Bool, true, false, not,
  List, [], ◌∷◌, ◌++◌, Text, codes, text_eq, ◌==◌, Result, ok, err, type_error, ◌>>=◌,
  if◌then◌else◌,
}

mutual
  pub data Value : Type 0 where
    undefined null : Value
    boolean : Bool → Value
    number : ℕ → Value
    string : Text → Value
    array : Items → Value
    object : Fields → Value

  pub data Items : Type 0 where
    end : Items
    item : Value → Items → Items

  pub data Fields : Type 0 where
    empty : Fields
    field : Text → Value → Fields → Fields

abbrev pub items : Items → List Value
items end = []
items (item v vs) = v ∷ items vs

abbrev nonempty : Text → Bool
nonempty [] = false
nonempty (c ∷ s) = true

-- JavaScript's conversion to a truth value.
abbrev pub truthy : Value → Bool
truthy undefined = false
truthy null = false
truthy (boolean b) = b
truthy (number n) = not (n == 0)
truthy (string s) = nonempty s
truthy (array vs) = true
truthy (object fs) = true

-- `value != null`
abbrev pub is_set : Value → Bool
is_set undefined = false
is_set null = false
is_set _ = true

unfoldable pub own_property : Text → Fields → Value
own_property name empty = undefined
own_property name (field k v fs) = if text_eq k name then v else own_property name fs

-- The number that a run of decimal digits spells, after those that spell `n`.
unfoldable pub index_digits : ℕ → Text → Option ℕ
index_digits n [] = some n
index_digits n (c ∷ s) =
    let rest = index_digits (n * 10 + (c - 48)) s in if leb 48 c && leb c 57 then rest else none

-- The index that a name spells: decimal digits, without a zero in front.
unfoldable pub array_index : Text → Option ℕ
unfolding index_digits
array_index [] = none
array_index (c ∷ s) =
    if c == b'0' then (if nonempty s then none else some 0) else index_digits 0 (c ∷ s)

unfoldable pub at_index : ℕ → List Value → Value
at_index n [] = undefined
at_index zero (v ∷ vs) = v
at_index (suc n) (v ∷ vs) = at_index n vs

-- The own properties of an array, or of a string, whose items are its code units: `length` and the
-- indices.
unfoldable pub indexed_property : Text → List Value → Value
unfolding array_index at_index
indexed_property name vs =
    if text_eq name (codes "length")
    then number (length vs)
    else elim (array_index name) [ none ↦ undefined | some n ↦ at_index n vs ]

-- `view[name]`
unfoldable pub property : Text → Value → Result Value
unfolding own_property indexed_property
property name undefined = err type_error
property name null = err type_error
property name (object fs) = ok (own_property name fs)
property name (array vs) = ok (indexed_property name (items vs))
property name (string s) = ok (indexed_property name (map (λ c. string (c ∷ [])) s))
property name _ = ok undefined

-- `name.split(".")`
unfoldable pub split_dots : Text → Text → List Text
split_dots piece [] = piece ∷ []
split_dots piece (c ∷ s) =
    let closed = piece ∷ split_dots [] s in
    let longer = split_dots (piece ++ (c ∷ [])) s in if c == b'.' then closed else longer

abbrev has_dot : Text → Bool
has_dot [] = false
has_dot (c ∷ s) = if c == b'.' then true else has_dot s

-- `name.indexOf(".") > 0`
abbrev pub is_dotted : Text → Bool
is_dotted [] = false
is_dotted (c ∷ s) = if c == b'.' then false else has_dot s

-- `while (value && i < names.length) value = value[names[i++]]`
unfoldable pub walk_names : List Text → Value → Result Value
unfolding property
walk_names [] value = ok value
walk_names (name ∷ names) value =
    let onward = (property name value >>= λ v. walk_names names v) in
    if truthy value then onward else ok value

-- A context is its view and those of its parents, the innermost first. `_cache` is left out: a
-- context's views do not change, so a cached value is the one that is looked up again.
abbrev pub Context : Type 0
Context = List Value

unfoldable pub lookup_here : Text → Value → Result Value
unfolding walk_names split_dots
lookup_here name view =
    if is_dotted name then walk_names (split_dots [] name) view else property name view

-- The loop over the contexts; its last value, when none is set.
unfoldable pub lookup_from : Text → Value → Context → Result Value
unfolding lookup_here
lookup_from name last [] = ok last
lookup_from name last (view ∷ parents) = do
  value ← lookup_here name view
  if is_set value then ok value else lookup_from name value parents

abbrev view_of : Context → Value
view_of [] = undefined
view_of (view ∷ parents) = view

-- `Context.prototype.lookup`
unfoldable pub lookup : Text → Context → Result Value
unfolding lookup_from
lookup name context =
    if text_eq name (codes ".") then ok (view_of context) else lookup_from name undefined context
