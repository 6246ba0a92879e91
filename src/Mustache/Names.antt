-- ===== src/Mustache/Names.antt =====
-- What a name means in a context: an account of `Context.prototype.lookup` without its loops.
use mathlib.Core.List.{append_assoc, append-nil}
use terminator.Base.{
  true, false, Bool-cases, List, [], ◌∷◌, ◌++◌, Text, codes, text_eq, text_eq_iff, ◌==◌, ok, All,
  ◌≡◌, ◌≢◌, refl, sym, ap, ◌∙◌, ◌⊎◌, inl, inr,
}
use terminator.Mustache.Value.{
  Value, undefined, truthy, is_set, property, is_dotted, split_dots, walk_names, lookup_here,
  lookup_from, Context, lookup,
}

abbrev pub joined : List Text → Text
joined [] = []
joined (n ∷ []) = n
joined (n ∷ m ∷ ns) = n ++ (b'.' ∷ joined (m ∷ ns))

abbrev pub HasNoDot : Text → Type 0
HasNoDot n = All (λ c. (c == b'.') ≡ false) n

-- The pieces of a name between its dots.
abbrev pub IsPath : Text → List Text → Type 0
IsPath name names = (joined names ≡ name) × (names ≢ []) × All HasNoDot names

-- The value behind the pieces, one property after the other, up to a value that is not true.
pub data Reaches : List Text → Value → Value → Type 0 where
  here : {v : Value} → Reaches [] v v
  stops : {n : Text} {ns : List Text} {v : Value} → truthy v ≡ false → Reaches (n ∷ ns) v v
  goes :
      {n : Text} {ns : List Text} {v w x : Value}
      → truthy v ≡ true
      → property n v ≡ ok w
      → Reaches ns w x
      → Reaches (n ∷ ns) v x

-- What one view has for a name, which counts as a path when it has a dot behind the first place.
abbrev pub Sees : Text → Value → Value → Type 0
Sees name view v =
    ((is_dotted name ≡ true) × (names : List Text) × IsPath name names × Reaches names view v)
    ⊎ ((is_dotted name ≡ false) × (property name view ≡ ok v))

-- The innermost view that has a value other than null and undefined counts, or else the outermost.
pub data Finds (name : Text) : Context → Value → Type 0 where
  found :
      {view v : Value} {parents : Context}
      → Sees name view v
      → is_set v ≡ true
      → Finds name (view ∷ parents) v
  outermost : {view v : Value} → Sees name view v → is_set v ≡ false → Finds name (view ∷ []) v
  behind :
      {view w v : Value} {parents : Context}
      → Sees name view w
      → is_set w ≡ false
      → Finds name parents v
      → Finds name (view ∷ parents) v

-- A dot means the innermost view itself.
abbrev pub Means : Text → Context → Value → Type 0
Means name [] v = ⊥
Means name (view ∷ parents) v =
    ((name ≡ codes ".") × (v ≡ view)) ⊎ ((name ≢ codes ".") × Finds name (view ∷ parents) v)

split_dots-last : (piece n : Text) → HasNoDot n → split_dots piece n ≡ (piece ++ n) ∷ []
unfolding split_dots
split_dots-last piece [] h = ap (λ x. x ∷ []) (sym (append-nil piece))
split_dots-last piece (c ∷ n) (e, h) =
    rw e
      (split_dots-last (piece ++ (c ∷ [])) n h ∙ ap (λ x. x ∷ []) (append_assoc piece (c ∷ []) n))

split_dots-append :
    (piece n rest : Text)
    → HasNoDot n
    → split_dots piece (n ++ (b'.' ∷ rest)) ≡ (piece ++ n) ∷ split_dots [] rest
unfolding split_dots
split_dots-append piece [] rest h = ap (λ x. x ∷ split_dots [] rest) (sym (append-nil piece))
split_dots-append piece (c ∷ n) rest (e, h) = rw e (
    split_dots-append (piece ++ (c ∷ [])) n rest h
    ∙ ap (λ x. x ∷ split_dots [] rest) (append_assoc piece (c ∷ []) n))

split_dots-joined :
    (names : List Text) → names ≢ [] → All HasNoDot names → split_dots [] (joined names) ≡ names
split_dots-joined [] ne h = absurd (ne refl)
split_dots-joined (n ∷ []) ne (h, hs) = split_dots-last [] n h
split_dots-joined (n ∷ m ∷ ns) ne (h, hs) =
    split_dots-append [] n (joined (m ∷ ns)) h
    ∙ ap (λ x. n ∷ x) (split_dots-joined (m ∷ ns) (λ e. cc) hs)

walk_names-Reaches :
    (names : List Text) (v x : Value) → Reaches names v x → walk_names names v ≡ ok x
unfolding walk_names
walk_names-Reaches [] v _ here = refl
walk_names-Reaches (n ∷ ns) v _ (stops e) = rw e refl
walk_names-Reaches (n ∷ ns) v x (goes {w} e f r) = rw (e, f) (walk_names-Reaches ns w x r)

lookup_here-Sees : (name : Text) (view v : Value) → Sees name view v → lookup_here name view ≡ ok v
unfolding lookup_here
lookup_here-Sees name view v (inl (dotted, names, (spelled, ne, plain), reaches)) =
    let pieces : split_dots [] name ≡ names =
      ap (split_dots []) (sym spelled) ∙ split_dots-joined names ne plain in
    rw (dotted, pieces) (walk_names-Reaches names view v reaches)
lookup_here-Sees name view v (inr (single, e)) = rw single e

lookup_from-Finds :
    (name : Text) (last : Value) (context : Context) (v : Value)
    → Finds name context v
    → lookup_from name last context ≡ ok v
unfolding lookup_from
lookup_from-Finds name last [] v h = elim h [ ]
lookup_from-Finds name last (view ∷ parents) v (found sees set) =
    rw (lookup_here-Sees name view v sees, set) refl
lookup_from-Finds name last (view ∷ []) v (outermost sees unset) =
    rw (lookup_here-Sees name view v sees, unset) refl
lookup_from-Finds name last (view ∷ parents) v (behind {w} sees unset finds) =
    rw (lookup_here-Sees name view w sees, unset) (lookup_from-Finds name w parents v finds)

pub lookup-Means :
    (name : Text) (context : Context) (v : Value)
    → Means name context v
    → lookup name context ≡ ok v
unfolding lookup
lookup-Means name [] v h = elim h [ ]
lookup-Means name (view ∷ parents) v (inl (dot, same)) =
    rw ((text_eq_iff name (codes ".")).1 dot, same) refl
lookup-Means name (view ∷ parents) v (inr (ne, finds)) =
    elim (Bool-cases (text_eq name (codes "."))) [
      | inl e ↦ absurd (ne ((text_eq_iff name (codes ".")).0 e))
      | inr e ↦ rw e (lookup_from-Finds name undefined (view ∷ parents) v finds)
    ]
