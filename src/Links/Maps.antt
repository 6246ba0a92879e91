-- ===== src/Links/Maps.antt =====
-- A `ConcurrentHashMap` with numbers as keys, as the list of its entries in the order of insertion.
use terminator.Base.{
  ℕ, List, [], ◌∷◌, Option, none, some, ◌==◌, if◌then◌else◌, ◌≡◌, ◌≢◌, refl, arith,
}
use native.Mathlib.Decide.{ℕ_discrete}
use mathlib.Core.Path.{subst}

-- What holds at one key and at every other key holds at all keys.
pub each_key {ℓ} : (P : ℕ → Type ℓ) (k : ℕ) → P k → ((j : ℕ) → k ≢ j → P j) → (j : ℕ) → P j
each_key P k here other j = elim (ℕ_discrete k j) [ yes e ↦ subst P e here | no ne ↦ other j ne ]

module _ {V : Type 0} where
  unfoldable pub get : ℕ → List (ℕ × V) → Option V
  get k [] = none
  get k ((l, v) ∷ m) = let later = get k m in if l == k then some v else later

  unfoldable pub put : ℕ → V → List (ℕ × V) → List (ℕ × V)
  put k v [] = (k, v) ∷ []
  put k v ((l, w) ∷ m) = let later = (l, w) ∷ put k v m in if l == k then (l, v) ∷ m else later

  unfoldable pub remove : ℕ → List (ℕ × V) → List (ℕ × V)
  remove k [] = []
  remove k ((l, w) ∷ m) = let rest = remove k m in if l == k then rest else (l, w) ∷ rest

  pub get-put_self : (k : ℕ) (v : V) (m : List (ℕ × V)) → get k (put k v m) ≡ some v
  unfolding get put
  get-put_self k v [] = ground arith
  get-put_self k v ((l, w) ∷ m) = ground (arith, get-put_self k v m)

  pub get-put_ne : (j k : ℕ) (v : V) (m : List (ℕ × V)) → k ≢ j → get j (put k v m) ≡ get j m
  unfolding get put
  get-put_ne j k v [] ne = ground arith
  get-put_ne j k v ((l, w) ∷ m) ne = ground (arith, get-put_ne j k v m ne)

  pub get-remove_self : (k : ℕ) (m : List (ℕ × V)) → get k (remove k m) ≡ none
  unfolding get remove
  get-remove_self k [] = refl
  get-remove_self k ((l, w) ∷ m) = ground (arith, get-remove_self k m)

  pub get-remove_ne : (j k : ℕ) (m : List (ℕ × V)) → k ≢ j → get j (remove k m) ≡ get j m
  unfolding get remove
  get-remove_ne j k [] ne = refl
  get-remove_ne j k ((l, w) ∷ m) ne = ground (arith, get-remove_ne j k m ne)

  -- A key that was put and removed leaves the map as it was.
  pub remove-put : (k : ℕ) (v : V) (m : List (ℕ × V)) → get k m ≡ none → remove k (put k v m) ≡ m
  unfolding get put remove
  remove-put k v [] h = ground arith
  remove-put k v ((l, w) ∷ m) h = ground (arith, h, remove-put k v m)
