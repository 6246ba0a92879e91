-- ===== src/Jquery/Param/Leaves.antt =====
-- The names and values that `param` sends, as texts and in their order, and what it writes of them.
use terminator.Json.Value.{
  JsonValue, undefined, null, boolean, number, string, array, object, Items, end, item, Fields,
  empty, field,
}
use terminator.Jquery.Param.{
  Uri, FormElement, Params, elements, properties, ends_in_brackets, item_prefix, add_pair,
  build_params, build_items, build_fields, build_all, add_elements,
}
use terminator.Base.{
  ℕ, suc, Text, Bool, true, false, ◌||◌, List, [], ◌∷◌, ◌++◌, map, if◌then◌else◌, ◌≡◌, refl, sym,
  ◌∙◌, ap, Bool-cases, inl, inr,
}
use mathlib.Core.List.{append_assoc, append-nil}

module _ {N : Type 0} (u : Uri N) where
  abbrev one : Text → JsonValue N → List (Text × Text)
  one name v = (name, u.string_of v) ∷ []

  unfoldable mutual
    unfolding ends_in_brackets item_prefix

    pub leaves : Bool → Text → JsonValue N → List (Text × Text)
    leaves traditional prefix (array vs) = item_leaves traditional prefix 0 vs
    leaves true prefix (object fs) = one prefix (object fs)
    leaves false prefix (object fs) = field_leaves prefix fs
    leaves traditional prefix v = one prefix v

    pub item_leaves : Bool → Text → ℕ → Items N → List (Text × Text)
    item_leaves traditional prefix i end = []
    item_leaves traditional prefix i (item v vs) =
        let here =
          (if traditional || ends_in_brackets prefix
            then one prefix v
            else leaves traditional (item_prefix u prefix i v) v) in
        here ++ item_leaves traditional prefix (suc i) vs

    pub field_leaves : Text → Fields N → List (Text × Text)
    field_leaves prefix empty = []
    field_leaves prefix (field name v fs) =
        leaves false (prefix ++ (91 ∷ (name ++ (93 ∷ [])))) v ++ field_leaves prefix fs

  unfoldable pub all_leaves : Bool → Fields N → List (Text × Text)
  unfolding leaves
  all_leaves traditional empty = []
  all_leaves traditional (field prefix v fs) =
      leaves traditional prefix v ++ all_leaves traditional fs

  unfoldable pub element_leaves : List (FormElement N) → List (Text × Text)
  element_leaves [] = []
  element_leaves (e ∷ es) = (u.string_of e.name, u.string_of e.value) ∷ element_leaves es

  -- The names and values of what `param` is given.
  unfoldable pub param_leaves : Params N → Bool → List (Text × Text)
  unfolding all_leaves element_leaves
  param_leaves (elements es) traditional = element_leaves es
  param_leaves (properties fs) traditional = all_leaves traditional fs

  abbrev pub write_pair : Text × Text → Text
  write_pair (name, value) = u.encode name ++ (61 ∷ u.encode value)

  map-append :
      (xs ys : List (Text × Text))
      → map write_pair (xs ++ ys) ≡ map write_pair xs ++ map write_pair ys
  map-append [] ys = refl
  map-append (x ∷ xs) ys = ap (λ t. write_pair x ∷ t) (map-append xs ys)

  -- Two writers, one after the other, write the leaves of both.
  in_turn :
      (s : List Text) (xs ys : List (Text × Text))
      → (s ++ map write_pair xs) ++ map write_pair ys ≡ s ++ map write_pair (xs ++ ys)
  in_turn s xs ys =
      append_assoc s (map write_pair xs) (map write_pair ys)
      ∙ ap (λ t. s ++ t) (sym (map-append xs ys))

  mutual
    unfolding build_params leaves add_pair

    pub build_params-leaves :
        (traditional : Bool) (prefix : Text) (v : JsonValue N) (s : List Text)
        → build_params u traditional prefix v s ≡ s ++ map write_pair (leaves traditional prefix v)
    build_params-leaves traditional prefix (array vs) s =
        build_items-leaves traditional prefix 0 vs s
    build_params-leaves true prefix (object fs) s = refl
    build_params-leaves false prefix (object fs) s = build_fields-leaves prefix fs s
    build_params-leaves traditional prefix undefined s = refl
    build_params-leaves traditional prefix null s = refl
    build_params-leaves traditional prefix (boolean b) s = refl
    build_params-leaves traditional prefix (number n) s = refl
    build_params-leaves traditional prefix (string t) s = refl

    build_items-leaves :
        (traditional : Bool) (prefix : Text) (i : ℕ) (vs : Items N) (s : List Text)
        → build_items u traditional prefix i vs s
          ≡ s ++ map write_pair (item_leaves traditional prefix i vs)
    build_items-leaves traditional prefix i end s = sym (append-nil s)
    build_items-leaves traditional prefix i (item v vs) s =
        elim (Bool-cases (traditional || ends_in_brackets prefix)) [
          | inl e ↦ rw e (
              build_items-leaves traditional prefix (suc i) vs (add_pair u prefix v s)
              ∙ in_turn s (one prefix v) (item_leaves traditional prefix (suc i) vs))
          | inr e ↦ rw e (
              build_items-leaves traditional prefix (suc i) vs
                (build_params u traditional (item_prefix u prefix i v) v s)
              ∙ ap (λ t. t ++ map write_pair (item_leaves traditional prefix (suc i) vs))
                  (build_params-leaves traditional (item_prefix u prefix i v) v s)
              ∙ in_turn s (leaves traditional (item_prefix u prefix i v) v)
                  (item_leaves traditional prefix (suc i) vs))
        ]

    build_fields-leaves :
        (prefix : Text) (fs : Fields N) (s : List Text)
        → build_fields u prefix fs s ≡ s ++ map write_pair (field_leaves prefix fs)
    build_fields-leaves prefix empty s = sym (append-nil s)
    build_fields-leaves prefix (field name v fs) s =
        build_fields-leaves prefix fs
          (build_params u false (prefix ++ (91 ∷ (name ++ (93 ∷ [])))) v s)
        ∙ ap (λ t. t ++ map write_pair (field_leaves prefix fs))
            (build_params-leaves false (prefix ++ (91 ∷ (name ++ (93 ∷ [])))) v s)
        ∙ in_turn s (leaves false (prefix ++ (91 ∷ (name ++ (93 ∷ [])))) v) (field_leaves prefix fs)

  pub build_all-leaves :
      (traditional : Bool) (fs : Fields N) (s : List Text)
      → build_all u traditional fs s ≡ s ++ map write_pair (all_leaves traditional fs)
  unfolding build_all all_leaves
  build_all-leaves traditional empty s = sym (append-nil s)
  build_all-leaves traditional (field prefix v fs) s =
      build_all-leaves traditional fs (build_params u traditional prefix v s)
      ∙ ap (λ t. t ++ map write_pair (all_leaves traditional fs))
          (build_params-leaves traditional prefix v s)
      ∙ in_turn s (leaves traditional prefix v) (all_leaves traditional fs)

  pub add_elements-leaves :
      (es : List (FormElement N)) (s : List Text)
      → add_elements u es s ≡ s ++ map write_pair (element_leaves es)
  unfolding add_elements element_leaves add_pair
  add_elements-leaves [] s = sym (append-nil s)
  add_elements-leaves (e ∷ es) s =
      add_elements-leaves es (add_pair u (u.string_of e.name) e.value s)
      ∙ in_turn s ((u.string_of e.name, u.string_of e.value) ∷ []) (element_leaves es)
