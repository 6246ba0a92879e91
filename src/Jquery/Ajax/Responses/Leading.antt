-- ===== src/Jquery/Ajax/Responses/Leading.antt =====
-- The data types that a response is expected to have: what is left behind the autos, and in front of
-- it the type that the content type of the response tells.
use terminator.Base.{
  Bool, true, false, Bool-cases, List, [], ◌∷◌, ◌++◌, Option, none, some, Text, codes, text_eq,
  text_eq_iff, All, ◌≡◌, ◌≢◌, refl, sym, ap, ◌∙◌, ◌⊎◌, inl, inr,
}
use mathlib.Core.Bool.{false≢true}
use mathlib.Core.Option.{some-injective}
use terminator.Jquery.Ajax.Responses.{Settings, shift_stars, content_type, known_type, add_known}

module _ {B : Type 0} (s : Settings B) where
  -- The type of the settings, or where that is missing the one of the header.
  abbrev pub IsContentType : Option Text → Text → Type 0
  IsContentType header ct =
      (ct ≢ [])
      × ((s.mime_type ≡ some ct)
          ⊎ (((s.mime_type ≡ none) ⊎ (s.mime_type ≡ some [])) × (header ≡ some ct)))

  abbrev pub Fails : Text → Text × (Text → Bool) → Type 0
  Fails ct e = e.1 ct ≡ false

  -- The first type whose test the content type passes.
  abbrev pub IsKnown : Text → List (Text × (Text → Bool)) → Text → Type 0
  IsKnown ct l k =
      (before after : List (Text × (Text → Bool))) × (test : Text → Bool) × (l
        ≡ before ++ ((k, test) ∷ after))
      × (test ct ≡ true)
      × All (Fails ct) before

  abbrev pub IsSniffed : Option Text → List Text → List Text → Type 0
  IsSniffed header rest types =
      ((ct k : Text) × IsContentType header ct × IsKnown ct s.contents k × (types ≡ k ∷ rest))
      ⊎ (((ct : Text) → IsContentType header ct → All (Fails ct) s.contents) × (types ≡ rest))

  -- Autos lead the data types; with one of them, the content type counts.
  abbrev pub IsLeading : Option Text → List Text → List Text → Type 0
  IsLeading header data_types types =
      (stars rest : List Text) × (data_types ≡ stars ++ rest)
      × All (λ t. t ≡ codes "*") stars
      × ((us : List Text) → rest ≢ codes "*" ∷ us)
      × (((stars ≡ []) × (types ≡ rest)) ⊎ ((stars ≢ []) × IsSniffed header rest types))

  known_type-cases :
      (ct : Text) (l : List (Text × (Text → Bool)))
      → ((k : Text) × (known_type s ct l ≡ some k) × IsKnown ct l k)
        ⊎ ((known_type s ct l ≡ none) × All (Fails ct) l)
  unfolding known_type
  known_type-cases ct [] = inr (refl, tt)
  known_type-cases ct ((k, test) ∷ l) = elim (Bool-cases (test ct)) [
    | inl e ↦ inl (k, rw e refl, ([], l, test, refl, e, tt))
    | inr e ↦ elim (known_type-cases ct l) [
      | inl (j, f, (before, after, t, split, passes, fails)) ↦ inl (
        j,
        rw e f,
        ((k, test) ∷ before, after, t, ap (λ x. (k, test) ∷ x) split, passes, (e, fails)),
      )
      | inr (f, fails) ↦ inr (rw e f, (e, fails))
    ]
  ]

  content_type-IsContentType :
      (header : Option Text) (ct : Text)
      → ct ≢ []
      → content_type s header ≡ some ct
      → IsContentType header ct
  unfolding content_type
  content_type-IsContentType header ct ne e = (ne, go s.mime_type refl e)
    where
      go :
          (m : Option Text)
          → s.mime_type ≡ m
          → (elim m [ some (c ∷ t) ↦ some (c ∷ t) | _ ↦ header ]) ≡ some ct
          → (s.mime_type ≡ some ct)
            ⊎ (((s.mime_type ≡ none) ⊎ (s.mime_type ≡ some [])) × (header ≡ some ct))
      go none m h = inr (inl m, h)
      go (some []) m h = inr (inr m, h)
      go (some (c ∷ t)) m h = inl (m ∙ h)

  IsContentType-content_type :
      (header : Option Text) (ct : Text) → IsContentType header ct → content_type s header ≡ some ct
  unfolding content_type
  IsContentType-content_type header [] (ne, h) = absurd (ne refl)
  IsContentType-content_type header (c ∷ t) (ne, inl e) = rw (content_type, e) refl
  IsContentType-content_type header (c ∷ t) (ne, inr (inl e, h)) = rw (content_type, e) h
  IsContentType-content_type header (c ∷ t) (ne, inr (inr e, h)) = rw (content_type, e) h

  add_known-IsSniffed :
      (header : Option Text) (rest : List Text)
      → IsSniffed header rest (add_known s true header rest)
  unfolding add_known
  add_known-IsSniffed header rest = go (content_type s header) refl
    where
      unless :
          (o : Option Text)
          → content_type s header ≡ o
          → (o ≡ none) ⊎ (o ≡ some [])
          → (ct : Text) → IsContentType header ct
          → All (Fails ct) s.contents
      unless o e (inl f) ct (ne, h) =
          absurd (cc (e, f, IsContentType-content_type header ct (ne, h)))
      unless o e (inr f) ct (ne, h) =
          absurd
            (ne (some-injective ct [] (sym (IsContentType-content_type header ct (ne, h)) ∙ e ∙ f)))

      go :
          (o : Option Text)
          → content_type s header ≡ o
          → IsSniffed header rest (add_known s true header rest)
      go none e = inr (unless none e (inl refl), rw (add_known, e) refl)
      go (some []) e = inr (unless (some []) e (inr refl), rw (add_known, e) refl)
      go (some (c ∷ ct)) e = elim (known_type-cases (c ∷ ct) s.contents) [
        | inl (k, f, known) ↦ inl (
          c ∷ ct,
          k,
          content_type-IsContentType header (c ∷ ct) (λ h. cc) e,
          known,
          rw (add_known, e, f) refl,
        )
        | inr (f, fails) ↦ inr (
          (λ t h.
              rw (← some-injective (c ∷ ct) t (sym e ∙ IsContentType-content_type header t h))
                fails),
          rw (add_known, e, f) refl,
        )
      ]

  -- The autos that `shift_stars` takes away.
  IsSplit : List Text → Bool → List Text → Type 0
  IsSplit data_types auto rest =
      (stars : List Text) × (data_types ≡ stars ++ rest)
      × All (λ t. t ≡ codes "*") stars
      × ((us : List Text) → rest ≢ codes "*" ∷ us)
      × (((auto ≡ false) × (stars ≡ [])) ⊎ ((auto ≡ true) × (stars ≢ [])))

  shift_stars-IsSplit : (ts : List Text) → IsSplit ts (shift_stars s ts).0 (shift_stars s ts).1
  unfolding shift_stars IsSplit
  shift_stars-IsSplit [] = ([], refl, tt, (λ us e. cc), inl (refl, refl))
  shift_stars-IsSplit (t ∷ ts) = elim (Bool-cases (text_eq t (codes "*"))) [
    | inl e ↦
        let (stars, split, autos, end, which) = shift_stars-IsSplit ts in
        rw e (
          t ∷ stars,
          ap (λ x. t ∷ x) split,
          ((text_eq_iff t (codes "*")).0 e, autos),
          end,
          inr (refl, λ h. cc),
        )
    | inr e ↦ rw e ([], refl, tt, (λ us h. no_star e us h), inl (refl, refl))
  ]
    where
      leading : List Text → Text
      leading [] = []
      leading (x ∷ xs) = x

      no_star : text_eq t (codes "*") ≡ false → (us : List Text) → t ∷ ts ≢ codes "*" ∷ us
      no_star e us h = false≢true (sym e ∙ (text_eq_iff t (codes "*")).1 (ap leading h))

  pub add_known-IsLeading :
      (header : Option Text) (data_types : List Text)
      → let (auto, rest) = shift_stars s data_types in
        IsLeading header data_types (add_known s auto header rest)
  unfolding IsSplit add_known
  add_known-IsLeading header data_types =
      let (stars, split, autos, end, which) = shift_stars-IsSplit data_types in
      let rest = (shift_stars s data_types).1 in
      (
        stars,
        rest,
        split,
        autos,
        end,
        elim which [
          | inl (manual, no_star) ↦ inl (no_star, rw manual refl)
          | inr (auto, star) ↦ inr (star, rw auto (add_known-IsSniffed header rest))
        ],
      )
