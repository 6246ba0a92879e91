-- ===== src/Jquery/Param/Joined.antt =====
-- What `param` writes is read back, by a reader that splits at `&` and at the first `=`.
use terminator.Jquery.Param.{Uri, Params, elements, properties, replace_spaces, join_and, param}
use terminator.Jquery.Param.Leaves.{
  param_leaves, write_pair, build_all-leaves, add_elements-leaves, all_leaves, element_leaves,
}
use terminator.Base.{
  ℕ, Text, Bool, false, ◌&&◌, List, [], ◌∷◌, ◌++◌, map, All, All-append, All-map, ◌==◌,
  if◌then◌else◌, ◌≡◌, ◌≢◌, refl, sym, ◌∙◌, ap, ap₂, arith, Bool-cases, inl, inr,
}

-- Every `+` stands for an encoded space.
unfoldable pub spaces_back : Text → Text
spaces_back [] = []
spaces_back (c ∷ t) = let rest = spaces_back t in if c == 43 then 37 ∷ 50 ∷ 48 ∷ rest else c ∷ rest

-- The text up to the first code unit `c`, and what stands behind it.
unfoldable pub cut : ℕ → Text → Text × Text
cut c [] = ([], [])
cut c (d ∷ t) = let (left, right) = cut c t in if d == c then ([], t) else (d ∷ left, right)

abbrev IsWithout : ℕ → Text → Type 0
IsWithout c = All (λ d. d ≢ c)

spaces_back-replace_spaces : (t : Text) → IsWithout 43 t → spaces_back (replace_spaces t) ≡ t
unfolding spaces_back replace_spaces
spaces_back-replace_spaces [] h = refl
spaces_back-replace_spaces (a ∷ []) h = ground (arith, h)
spaces_back-replace_spaces (a ∷ b ∷ []) h = ground (arith, h)
spaces_back-replace_spaces (a ∷ b ∷ c ∷ t) (x, (y, (z, h))) =
    elim (Bool-cases (a == 37 && b == 50 && c == 48)) [
      | inl e ↦
          let first : a ≡ 37 = ground (arith, e) in
          let second : b ≡ 50 = ground (arith, e) in
          let third : c ≡ 48 = ground (arith, e) in
          rw (e, first, second, third) (ap (λ r. 37 ∷ 50 ∷ 48 ∷ r) (spaces_back-replace_spaces t h))
      | inr e ↦
          let other : (a == 43) ≡ false = ground (arith, x) in
          rw (e, other) (ap (λ r. a ∷ r) (spaces_back-replace_spaces (b ∷ c ∷ t) (y, (z, h))))
    ]

cut-append : (c : ℕ) (t rest : Text) → IsWithout c t → cut c (t ++ (c ∷ rest)) ≡ (t, rest)
unfolding cut
cut-append c [] rest h = ground arith
cut-append c (d ∷ t) rest (ne, h) = ground (arith, ne, cut-append c t rest h)

-- The parts between the code units `&`.
unfoldable pub split_and : Text → List Text
split_and [] = [] ∷ []
split_and (d ∷ t) =
    let rest = split_and t in
    if d == 38 then [] ∷ rest else elim rest [ [] ↦ (d ∷ []) ∷ [] | x ∷ xs ↦ (d ∷ x) ∷ xs ]

split_and-plain : (t : Text) → IsWithout 38 t → split_and t ≡ t ∷ []
unfolding split_and
split_and-plain [] h = refl
split_and-plain (d ∷ t) (ne, h) = ground (arith, ne, split_and-plain t h)

split_and-append :
    (t rest : Text) → IsWithout 38 t → split_and (t ++ (38 ∷ rest)) ≡ t ∷ split_and rest
unfolding split_and
split_and-append [] rest h = refl
split_and-append (d ∷ t) rest (ne, h) = ground (arith, ne, split_and-append t rest h)

split_and-join_and :
    (x : Text) (xs : List Text)
    → All (IsWithout 38) (x ∷ xs)
    → split_and (join_and (x ∷ xs)) ≡ x ∷ xs
unfolding join_and
split_and-join_and x [] (h, _) = split_and-plain x h
split_and-join_and x (y ∷ ys) (h, hs) =
    split_and-append x (join_and (y ∷ ys)) h ∙ ap (λ t. x ∷ t) (split_and-join_and y ys hs)

IsWithout-join_and : (xs : List Text) → All (IsWithout 43) xs → IsWithout 43 (join_and xs)
unfolding join_and
IsWithout-join_and [] h = tt
IsWithout-join_and (x ∷ []) (h, _) = h
IsWithout-join_and (x ∷ y ∷ ys) (h, hs) =
    All-append (λ d. d ≢ 43) x (38 ∷ join_and (y ∷ ys)) h
      ((λ e. omega (arith, e)), IsWithout-join_and (y ∷ ys) hs)

module _ {N : Type 0} (u : Uri N) where
  unfoldable pub read_pair : Text → Text × Text
  read_pair t = let (name, value) = cut 61 t in (u.decode name, u.decode value)

  -- The names and values in a text, of which there are none in the empty one.
  unfoldable pub read_text : Text → List (Text × Text)
  read_text [] = []
  read_text (c ∷ t) = map read_pair (split_and (c ∷ t))

  unfoldable pub read_query : Text → List (Text × Text)
  read_query t = read_text (spaces_back t)

  read_pair-write_pair : (p : Text × Text) → read_pair (write_pair u p) ≡ p
  unfolding read_pair
  read_pair-write_pair (name, value) =
      rw
        (
          cut-append 61 (u.encode name) (u.encode value)
              (All-map (λ c h. h.1) (u.encode name) (u.encode-plain name)),
          u.decode-encode name,
          u.decode-encode value,
        )
        refl

  map-read_pair : (ps : List (Text × Text)) → map read_pair (map (write_pair u) ps) ≡ ps
  map-read_pair [] = refl
  map-read_pair (p ∷ ps) = ap₂ (λ q qs. q ∷ qs) (read_pair-write_pair p) (map-read_pair ps)

  written-IsWithout :
      (c : ℕ)
      → c ≢ 61
      → ((t : Text) → IsWithout c (u.encode t))
      → (ps : List (Text × Text)) → All (IsWithout c) (map (write_pair u) ps)
  written-IsWithout c ne h [] = tt
  written-IsWithout c ne h ((name, value) ∷ ps) = (
    All-append (λ d. d ≢ c) (u.encode name) (61 ∷ u.encode value) (h name)
        ((λ e. ne (sym e)), h value),
    written-IsWithout c ne h ps,
  )

  without : (ps : List (Text × Text)) → All (IsWithout 38) (map (write_pair u) ps)
  without =
      written-IsWithout 38 (λ e. omega (arith, e))
        (λ t. All-map (λ c h. h.0) (u.encode t) (u.encode-plain t))

  -- A text with something behind its first part is read part by part.
  read_text-append :
      (s : Text) (c : ℕ) (t : Text)
      → read_text (s ++ (c ∷ t)) ≡ map read_pair (split_and (s ++ (c ∷ t)))
  unfolding read_text
  read_text-append [] c t = refl
  read_text-append (d ∷ s) c t = refl

  read_text-join_and : (ps : List (Text × Text)) → read_text (join_and (map (write_pair u) ps)) ≡ ps
  unfolding join_and read_text
  read_text-join_and [] = refl
  read_text-join_and ((name, value) ∷ []) =
      read_text-append (u.encode name) 61 (u.encode value)
      ∙ ap (map read_pair) (split_and-join_and _ [] (without ((name, value) ∷ [])))
      ∙ map-read_pair ((name, value) ∷ [])
  read_text-join_and (p ∷ q ∷ ps) =
      read_text-append (write_pair u p) 38 (join_and (map (write_pair u) (q ∷ ps)))
      ∙ ap (map read_pair)
          (split_and-join_and _ (map (write_pair u) (q ∷ ps)) (without (p ∷ q ∷ ps)))
      ∙ map-read_pair (p ∷ q ∷ ps)

  back :
      (ps : List (Text × Text))
      → read_text (spaces_back (replace_spaces (join_and (map (write_pair u) ps)))) ≡ ps
  back ps =
      ap read_text (
        spaces_back-replace_spaces (join_and (map (write_pair u) ps)) (
          IsWithout-join_and (map (write_pair u) ps) (
            written-IsWithout 43 (λ e. omega (arith, e))
              (λ t. All-map (λ c h. h.2) (u.encode t) (u.encode-plain t)) ps)))
      ∙ read_text-join_and ps

  -- Reading what `param` wrote gives, in their order, the names and the values, as texts, of all
  -- scalars in the data: of the form elements, or of the properties with the path to each scalar in
  -- brackets, arrays and objects being scalars where the traditional way is asked for.
  pub read_query-param :
      (a : Params N) (traditional : Bool)
      → read_query (param u a traditional) ≡ param_leaves u a traditional
  unfolding read_query param param_leaves
  read_query-param (elements es) traditional =
      rw (add_elements-leaves u es []) (back (element_leaves u es))
  read_query-param (properties fs) traditional =
      rw (build_all-leaves u traditional fs []) (back (all_leaves u traditional fs))
