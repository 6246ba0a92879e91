-- ===== src/Jquery/Ajax/Convert/Sound.antt =====
-- By which converters a response is converted.
use terminator.Base.{
  Bool, true, false, Bool-cases, ◌||◌, [], ◌∷◌, none, some, Option-cases, Text, codes, text_eq,
  text_eq_iff, Result, err, no_conversion, ◌>>=◌, All, Any, ◌≡◌, ◌≢◌, refl, ◌∙◌, ◌⊎◌, inl, inr,
  arith,
}
use terminator.Registry.Table.{get}
use terminator.Jquery.Ajax.Convert.{
  Converter, Converters, split_first, second_part, conversion, direct, transitive, run_converter,
  convert_one,
}

module _ {F : Type 0} (converters : Converters F) where
  -- The converter registered from `prev`, or else from any data type, to `current`.
  unfoldable pub IsDirect : Text → Text → Converter F → Type 0
  IsDirect prev current c =
      (get (conversion prev current) converters ≡ some c)
      ⊎ ((get (conversion prev current) converters ≡ none)
          × (get (conversion (codes "*") current) converters ≡ some c))

  -- A registered converter from `prev`, or from any data type, with one from where it ends.
  unfoldable pub Links : Text → Text → Converter F → Converter F → Text × Converter F → Type 0
  Links prev current first second (key, c) =
      (c ≡ first)
      × (((split_first key).0 ≡ prev) ⊎ ((split_first key).0 ≡ codes "*"))
      × (get (conversion (second_part (split_first key).1) current) converters ≡ some second)

  -- No converter leads on from the key.
  unfoldable pub IsDeadEnd : Text → Text → Text × Converter F → Type 0
  IsDeadEnd prev current (key, c) =
      (((split_first key).0 ≢ prev) × ((split_first key).0 ≢ codes "*"))
      ⊎ (get (conversion (second_part (split_first key).1) current) converters ≡ none)

  direct_cases :
      (prev current : Text)
      → ((c : Converter F) × (direct converters prev current ≡ some c) × IsDirect prev current c)
        ⊎ ((direct converters prev current ≡ none)
            × (get (conversion prev current) converters ≡ none)
            × (get (conversion (codes "*") current) converters ≡ none))
  unfolding direct IsDirect
  direct_cases prev current = elim (Option-cases (get (conversion prev current) converters)) [
    | inr (c, e) ↦ inl (c, rw (e, direct) refl, inl e)
    | inl e ↦ elim (Option-cases (get (conversion (codes "*") current) converters)) [
      | inr (c, f) ↦ inl (c, rw (e, direct, f) refl, inr (e, f))
      | inl f ↦ inr (rw (e, direct, f) refl, e, f)
    ]
  ]

  starts : Text → Text → Bool
  starts prev key = text_eq (split_first key).0 prev || text_eq (split_first key).0 (codes "*")

  starts_iff :
      (prev key : Text)
      → starts prev key ≡ true
      → ((split_first key).0 ≡ prev) ⊎ ((split_first key).0 ≡ codes "*")
  unfolding starts
  starts_iff prev key h =
      ground
        (arith, text_eq_iff (split_first key).0 prev, text_eq_iff (split_first key).0 (codes "*"))

  starts_not :
      (prev key : Text)
      → starts prev key ≡ false
      → ((split_first key).0 ≢ prev) × ((split_first key).0 ≢ codes "*")
  unfolding starts
  starts_not prev key h = (
    (λ e. ground (arith, text_eq_iff (split_first key).0 prev)),
    λ e. ground (arith, text_eq_iff (split_first key).0 (codes "*")),
  )

  not-IsDirect :
      (prev current : Text)
      → get (conversion prev current) converters ≡ none
      → get (conversion (codes "*") current) converters ≡ none
      → (c : Converter F) → ¬ IsDirect prev current c
  unfolding IsDirect
  not-IsDirect prev current own any c (inl e) = cc
  not-IsDirect prev current own any c (inr (n, e)) = cc

  abbrev Cases : Text → Text → Converters F → Type 0
  Cases prev current rest =
      ((first second : Converter F) × (transitive converters prev current rest
          ≡ some (first, second))
        × Any (Links prev current first second) rest)
      ⊎ ((transitive converters prev current rest ≡ none) × All (IsDeadEnd prev current) rest)

  transitive-Cases : (prev current : Text) (rest : Converters F) → Cases prev current rest
  unfolding transitive Links IsDeadEnd starts
  transitive-Cases prev current [] = inr (refl, tt)
  transitive-Cases prev current ((key, c) ∷ rest) =
      elim (Option-cases (get (conversion (second_part (split_first key).1) current) converters)) [
        | inl none_on ↦ elim (Bool-cases (starts prev key)) [
          | inl hit ↦
              later (inr none_on) (rw (hit, none_on) refl) (transitive-Cases prev current rest)
          | inr miss ↦ later (inr none_on) (rw miss refl) (transitive-Cases prev current rest)
        ]
        | inr (second, on) ↦ elim (Bool-cases (starts prev key)) [
          | inl hit ↦ inl (c, second, rw (hit, on) refl, inl (refl, starts_iff prev key hit, on))
          | inr miss ↦
              later (inl (starts_not prev key miss)) (rw miss refl)
                (transitive-Cases prev current rest)
        ]
      ]
    where
      later :
          IsDeadEnd prev current (key, c)
          → transitive converters prev current ((key, c) ∷ rest)
            ≡ transitive converters prev current rest
          → Cases prev current rest
          → Cases prev current ((key, c) ∷ rest)
      later dead e (inl (f, g, found, any)) = inl (f, g, e ∙ found, inr any)
      later dead e (inr (gone, all)) = inr (e ∙ gone, (dead, all))

  module _ {B : Type 0} (apply : F → B → Result B) where
    -- The response goes from `prev` to `current` by one converter, by two where there is no such
    -- converter, or fails where there are neither: with a converter registered for the two types,
    -- or from any type, the conversion is that converter's; else with a registered converter from
    -- `prev` to a type from which one leads to `current`, it is the two in turn; else it throws.
    pub convert_one_cases :
        (prev current : Text) (body : B)
        → ((c : Converter F) × IsDirect prev current c
            × (convert_one converters apply prev current body
                ≡ run_converter converters apply c body))
          ⊎ ((first second : Converter F) × ((c : Converter F) → ¬ IsDirect prev current c)
              × Any (Links prev current first second) converters
              × (convert_one converters apply prev current body ≡ (
                  run_converter converters apply first body >>= λ b.
                  run_converter converters apply second b)))
          ⊎ (((c : Converter F) → ¬ IsDirect prev current c)
              × All (IsDeadEnd prev current) converters
              × (convert_one converters apply prev current body ≡ err (no_conversion prev current)))
    unfolding convert_one
    convert_one_cases prev current body = elim (direct_cases prev current) [
      | inl (c, e, d) ↦ inl (c, d, rw (e, convert_one) refl)
      | inr (e, own, any) ↦ elim (transitive-Cases prev current converters) [
        | inl (first, second, f, links) ↦ inr (
            inl (
              first,
              second,
              not-IsDirect prev current own any,
              links,
              rw (e, convert_one, f) refl,
            ))
        | inr (f, dead) ↦
            inr (inr (not-IsDirect prev current own any, dead, rw (e, convert_one, f) refl))
      ]
    ]
