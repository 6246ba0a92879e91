-- ===== src/Jquery/Ajax/Responses/Chosen.antt =====
-- Which response is chosen.
use mathlib.Core.Bool.{false≢true}
use mathlib.Core.Option.{some-injective, none-ne-some}
use terminator.Base.{
  true, false, Bool-cases, List, [], ◌∷◌, Option, none, some, Option-cases, Text, text_eq,
  text_eq_iff, text_eq_refl, ◌++◌, ◌≡◌, refl, sym, ap, ◌⊎◌, inl, inr, ◌∙◌,
}
use terminator.Registry.Table.{get}
use terminator.Jquery.Ajax.Responses.Leading.{IsLeading, add_known-IsLeading}
use terminator.Jquery.Ajax.Responses.{
  Settings, shift_stars, add_known, is_convertible, convertible, any_type, final_type, put_first,
  fill_fields, handle_responses,
}

module _ {B : Type 0} where
  -- There is a response of the type.
  abbrev pub IsKey : Text → List (Text × B) → Type 0
  IsKey t responses = (body : B) × (get t responses ≡ some body)

  IsKey-cons : (t l : Text) (b : B) (rs : List (Text × B)) → IsKey t rs → IsKey t ((l, b) ∷ rs)
  unfolding get
  IsKey-cons t l b rs (body, e) = elim (Bool-cases (text_eq l t)) [
    | inl same ↦ (b, rw same refl)
    | inr other ↦ (body, rw other e)
  ]

  IsKey-head : (l : Text) (b : B) (rs : List (Text × B)) → IsKey l ((l, b) ∷ rs)
  unfolding get
  IsKey-head l b rs = (b, rw (text_eq_refl l) refl)

  module _ (s : Settings B) where
    convertible-IsKey :
        (types : List Text) (rs : List (Text × B)) (t : Text)
        → convertible s types rs ≡ some t
        → IsKey t rs × (is_convertible s types t ≡ true)
    unfolding convertible
    convertible-IsKey types [] t e = cc
    convertible-IsKey types ((l, b) ∷ rs) t e = elim (Bool-cases (is_convertible s types l)) [
      | inl yes_it ↦
          let same : l ≡ t = some-injective l t (rw yes_it at e) in
          rw (← same) (IsKey-head l b rs, yes_it)
      | inr later ↦
          let (key, conv) = convertible-IsKey types rs t (rw later at e) in
          (IsKey-cons t l b rs key, conv)
    ]

    convertible-none :
        (types : List Text) (rs : List (Text × B))
        → convertible s types rs ≡ none
        → (t : Text) → IsKey t rs
        → is_convertible s types t ≡ false
    unfolding convertible get
    convertible-none types [] e t (body, k) = cc
    convertible-none types ((l, b) ∷ rs) e t (body, k) =
        elim (Bool-cases (is_convertible s types l)) [
          | inl yes_it ↦ cc (yes_it, e)
          | inr later ↦ elim (Bool-cases (text_eq l t)) [
            | inl same ↦ rw (← (text_eq_iff l t).0 same) later
            | inr other ↦ convertible-none types rs (rw later at e) t (body, rw other at k)
          ]
        ]

    -- No type is expected, or there is a converter from this one to the expected type that leads.
    abbrev pub Converts : List Text → Text → Type 0
    Converts [] t = Unit
    Converts ([] ∷ us) t = Unit
    Converts ((c ∷ u) ∷ us) t = s.has_converter (t ++ (b' ' ∷ c ∷ u)) ≡ true

    is_convertible-Converts :
        (types : List Text) (t : Text) → is_convertible s types t ≡ true → Converts types t
    unfolding is_convertible
    is_convertible-Converts [] t e = tt
    is_convertible-Converts ([] ∷ us) t e = tt
    is_convertible-Converts ((c ∷ u) ∷ us) t e = e

    refused-Converts :
        (types : List Text) (t : Text) → is_convertible s types t ≡ false → ¬ Converts types t
    unfolding is_convertible
    refused-Converts [] t e h = cc
    refused-Converts ([] ∷ us) t e h = cc
    refused-Converts ((c ∷ u) ∷ us) t e h = false≢true (sym e ∙ h)

    -- No data type leads, or there is no response of the one that does.
    abbrev pub LacksFirst : List Text → List (Text × B) → Type 0
    LacksFirst types rs = (u : Text) (us : List Text) → types ≡ u ∷ us → ¬ IsKey u rs

    -- Why a type is the final one: it leads the data types, or there is no response of the type that
    -- leads, and it can be converted into that type, or no response can.
    abbrev pub IsFinal : List Text → List (Text × B) → Text → Type 0
    IsFinal types rs t =
        (IsKey t rs)
        × (((ts : List Text) × (types ≡ t ∷ ts))
            ⊎ (LacksFirst types rs
                × (Converts types t ⊎ ((l : Text) → IsKey l rs → ¬ Converts types l))))

    LacksFirst-cons :
        (u : Text) (us : List Text) (rs : List (Text × B))
        → get u rs ≡ none
        → LacksFirst (u ∷ us) rs
    LacksFirst-cons u us rs e v vs same (body, k) =
        none-ne-some body (sym e ∙ ap (λ x. get x rs) (some-injective u v (ap first same)) ∙ k)
      where
        first : List Text → Option Text
        first [] = none
        first (x ∷ xs) = some x

    any_type-IsFinal :
        (types : List Text) (l : Text) (b : B) (rs : List (Text × B))
        → LacksFirst types ((l, b) ∷ rs)
        → (t : Text) × (any_type s types ((l, b) ∷ rs) ≡ some t) × (IsFinal types ((l, b) ∷ rs) t)
    unfolding any_type
    any_type-IsFinal types l b rs lacks = elim (Option-cases (convertible s types ((l, b) ∷ rs))) [
      | inl e ↦ (
        l,
        rw (any_type, e) refl,
        (
          IsKey-head l b rs,
          inr (
            lacks,
            inr (λ t key. refused-Converts types t (convertible-none types ((l, b) ∷ rs) e t key)),
          ),
        ),
      )
      | inr (t, e) ↦
          let (key, yes_it) = convertible-IsKey types ((l, b) ∷ rs) t e in
          (
            t,
            rw (any_type, e) refl,
            (key, inr (lacks, inl (is_convertible-Converts types t yes_it))),
          )
    ]

    final_type-IsFinal :
        (types : List Text) (l : Text) (b : B) (rs : List (Text × B))
        → (t : Text) × (final_type s types ((l, b) ∷ rs) ≡ some t) × (IsFinal types ((l, b) ∷ rs) t)
    unfolding final_type
    final_type-IsFinal [] l b rs = any_type-IsFinal [] l b rs (λ u us same key. cc)
    final_type-IsFinal (u ∷ us) l b rs = elim (Option-cases (get u ((l, b) ∷ rs))) [
      | inl e ↦
          let (t, same, final) =
            any_type-IsFinal (u ∷ us) l b rs (LacksFirst-cons u us ((l, b) ∷ rs) e) in
          (t, rw (final_type, e) same, final)
      | inr (body, e) ↦ (u, rw (final_type, e) refl, ((body, e), inl (us, refl)))
    ]

    put_first_cons :
        (t : Text) (types : List Text) → (us : List Text) × (put_first s t types ≡ t ∷ us)
    unfolding put_first
    put_first_cons t [] = ([], refl)
    put_first_cons t (u ∷ us) = elim (Bool-cases (text_eq t u)) [
      | inl same ↦ (us, rw same (ap (λ v. v ∷ us) (sym ((text_eq_iff t u).0 same))))
      | inr other ↦ (u ∷ us, rw other refl)
    ]

    module _ (header : Option Text) (data_types : List Text) (rs fields : List (Text × B)) where
      abbrev types : List Text
      types = let (auto, rest) = shift_stars s data_types in add_known s auto header rest

      handle_responses_final :
          (t : Text)
          → get [] rs ≡ none
          → IsFinal types rs t
          → final_type s types rs ≡ some t
          → (ts : List Text) × (handle_responses s header data_types rs fields
              ≡ (t ∷ ts, get t rs, fill_fields s s.response_fields rs fields))
      unfolding handle_responses
      handle_responses_final [] named ((body, key), why) e = cc
      handle_responses_final (c ∷ t) named final e =
          let (ts, same) = put_first_cons (c ∷ t) types in (ts, rw (handle_responses, e, same) refl)

    -- Where there is at least one response and none of the empty type, the response that is returned is
    -- the one stored for the first of the data types that are returned. It is the type that leads what
    -- is expected (the data types behind the autos, and with an auto the type that the content type
    -- tells before them), if there is a response of that type. Otherwise it is convertible into the type
    -- that leads, or no response is.
    pub handle_responses-IsFinal :
        (header : Option Text) (data_types : List Text) (l : Text) (b : B)
        (rs fields : List (Text × B))
        → get [] ((l, b) ∷ rs) ≡ none
        → let (types, response, filled) =
            handle_responses s header data_types ((l, b) ∷ rs) fields in
          (leading : List Text) × IsLeading s header data_types leading
          × (t : Text) × (ts : List Text) × (types ≡ t ∷ ts)
          × (response ≡ get t ((l, b) ∷ rs))
          × IsFinal leading ((l, b) ∷ rs) t
    unfolding handle_responses
    handle_responses-IsFinal header data_types l b rs fields named =
        let (auto, rest) = shift_stars s data_types in
        let (t, e, final) = final_type-IsFinal (add_known s auto header rest) l b rs in
        let (ts, same) =
          handle_responses_final header data_types ((l, b) ∷ rs) fields t named final e in
        (
          add_known s auto header rest,
          add_known-IsLeading s header data_types,
          t,
          ts,
          rw same refl,
          rw same refl,
          final,
        )
