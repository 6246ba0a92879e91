-- ===== src/Registry/Table.antt =====
-- A JavaScript object used as a map: its properties in the order in which they were added. Names of
-- members of `Object.prototype` are not keys.
use terminator.Base.{
  List, [], ◌∷◌, Option, none, some, Text, text_eq, text_eq_iff, if◌then◌else◌, Bool-cases, ◌≡◌,
  ◌≢◌, refl, sym, ◌∙◌, inl, inr, false,
}
use mathlib.Core.Bool.{false≢true}

module _ {V : Type 0} where
  unfoldable pub get : Text → List (Text × V) → Option V
  get k [] = none
  get k ((l, v) ∷ m) = let later = get k m in if text_eq l k then some v else later

  unfoldable pub set : Text → V → List (Text × V) → List (Text × V)
  set k v [] = (k, v) ∷ []
  set k v ((l, w) ∷ m) = let later = (l, w) ∷ set k v m in if text_eq l k then (l, v) ∷ m else later

  -- `delete map[k]`
  unfoldable pub delete : Text → List (Text × V) → List (Text × V)
  delete k [] = []
  delete k ((l, w) ∷ m) = let rest = delete k m in if text_eq l k then rest else (l, w) ∷ rest

  pub get-set_self : (k : Text) (v : V) (m : List (Text × V)) → get k (set k v m) ≡ some v
  unfolding get set
  get-set_self k v [] = rw ((text_eq_iff k k).1 refl) refl
  get-set_self k v ((l, w) ∷ m) = elim (Bool-cases (text_eq l k)) [
    | inl e ↦ rw (e, e) refl
    | inr e ↦ rw (e, e) (get-set_self k v m)
  ]

  pub get-set_ne : (j k : Text) (v : V) (m : List (Text × V)) → k ≢ j → get j (set k v m) ≡ get j m
  unfolding get set
  get-set_ne j k v [] ne = elim (Bool-cases (text_eq k j)) [
    | inl e ↦ absurd (ne ((text_eq_iff k j).0 e))
    | inr e ↦ rw e refl
  ]
  get-set_ne j k v ((l, w) ∷ m) ne = elim (Bool-cases (text_eq l k)) [
    | inl e ↦ rw (e, other (λ h. ne (sym ((text_eq_iff l k).0 e) ∙ h))) refl
    | inr e ↦ rw e (rw (get-set_ne j k v m ne) refl)
  ]
    where
      other : l ≢ j → text_eq l j ≡ false
      other ne' = elim (Bool-cases (text_eq l j)) [
        | inl t ↦ absurd (ne' ((text_eq_iff l j).0 t))
        | inr f ↦ f
      ]

  pub get-delete_self : (k : Text) (m : List (Text × V)) → get k (delete k m) ≡ none
  unfolding get delete
  get-delete_self k [] = refl
  get-delete_self k ((l, w) ∷ m) = elim (Bool-cases (text_eq l k)) [
    | inl e ↦ rw e (get-delete_self k m)
    | inr e ↦ rw (e, e) (get-delete_self k m)
  ]

  -- A key that is set stays set, whatever else is set.
  pub get-set_keeps :
      (j k : Text) (v : V) (m : List (Text × V)) → get j m ≢ none → get j (set k v m) ≢ none
  get-set_keeps j k v m h = elim (Bool-cases (text_eq k j)) [
    | inl e ↦ rw ((text_eq_iff k j).0 e) (λ n. cc (n, get-set_self j v m))
    | inr e ↦ rw (get-set_ne j k v m (λ q. false≢true (sym e ∙ (text_eq_iff k j).1 q))) h
  ]
