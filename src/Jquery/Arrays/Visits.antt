-- ===== src/Jquery/Arrays/Visits.antt =====
-- Which items `each` visits.
use terminator.Base.{
  ℕ, ◌+◌, Bool, Bool-cases, List, [], ◌∷◌, ok, ◌≡◌, refl, if◌then◌else◌, inl, inr,
}
use terminator.Jquery.Arrays.{each_from, each}

module _ {A W : Type 0} (wanted : A → ℕ → Bool) (effect : A → ℕ → W → W) where
  -- The items from index `i` on, up to the first after which the callback wants no more.
  abbrev pub visited : ℕ → List A → List A
  visited i [] = []
  visited i (a ∷ l) = let rest = visited (i + 1) l in a ∷ (if wanted a i then rest else [])

  -- The effects of the items from index `i` on, in their order.
  abbrev pub all_effects : ℕ → List A → W → W
  all_effects i [] w = w
  all_effects i (a ∷ l) w = all_effects (i + 1) l (effect a i w)

  each_from-visited :
      (i : ℕ) (l : List A) (w : W)
      → each_from (λ a j v. ok (wanted a j, effect a j v)) i l w
        ≡ ok (all_effects i (visited i l) w)
  unfolding each_from
  each_from-visited i [] w = refl
  each_from-visited i (a ∷ l) w = elim (Bool-cases (wanted a i)) [
    | inl more ↦ rw (more, each_from-visited (i + 1) l (effect a i w)) refl
    | inr enough ↦ rw enough refl
  ]

  -- With a callback that does not throw, `each` has the effects of the items up to and including the
  -- first for which the callback returns false, in their order, and of no other.
  pub each-visited :
      (object : List A) (w : W)
      → each (λ a j v. ok (wanted a j, effect a j v)) object w
        ≡ ok (all_effects 0 (visited 0 object) w)
  unfolding each
  each-visited object w = each_from-visited 0 object w
