-- ===== src/Jquery/Ajax/Inspect/Transport.antt =====
-- Choosing a transport: the functions of the data type are asked, then those of "*".
use terminator.Base.{
  ℕ, suc, false, Bool-cases, not, ◌&&◌, List, [], ◌∷◌, ◌++◌, Text, text_eq, text_eq_refl, Result,
  ok, ◌>>=◌, if◌then◌else◌, ◌≡◌, refl, ◌∙◌, ◌⊎◌, inl, inr,
}
use terminator.Jquery.Ajax.Inspect.{
  Selection, nothing, redirect, transport, is_truthy, Structure, list_of, star, is_inspected,
  Inspection, follow, each_function, inspect,
}

module _ {F T W : Type 0} (call : F → W → Selection T × W) where
  -- The specification: ask the functions in order up to the first that returns a transport.
  abbrev answered : (W → Selection T × W) → Selection T → W → Selection T × W
  answered rest (transport t) w = (transport t, w)
  answered rest value w = rest w

  unfoldable pub ask : List F → W → Selection T × W
  ask [] w = (nothing, w)
  ask (f ∷ fs) w = (let (value, w') = call f w in answered (λ v. ask fs v) value w')

  abbrev Step : Type 0
  Step = Text → Inspection W → Result (Selection T × Inspection W)

  -- What `ask` finds, as the loop returns it.
  abbrev found : Selection T × W → Inspection W → Result (Selection T × Inspection W)
  found (value, w) s = ok (value, record s { world = w })

  each_function-transport :
      (again : Step) (fs : List F) (t : T) (s : Inspection W)
      → each_function call false again fs (transport t) s ≡ ok (transport t, s)
  unfolding each_function
  each_function-transport again [] t s = refl
  each_function-transport again (f ∷ fs) t s = refl

  follow-answered :
      (again : Step) (fs : List F) (value : Selection T) (s : Inspection W)
      → ((s' : Inspection W)
          → each_function call false again fs nothing s' ≡ found (ask fs s'.world) s')
      → (follow call false again value s >>= λ (sel, s'). each_function call false again fs sel s')
        ≡ found (answered (λ v. ask fs v) value s.world) s
  unfolding follow
  follow-answered again fs nothing s ih = ih s
  follow-answered again fs (redirect t) s ih = ih s
  follow-answered again fs (transport t) s ih = each_function-transport again fs t s

  each_function-ask :
      (again : Step) (fs : List F) (s : Inspection W)
      → each_function call false again fs nothing s ≡ found (ask fs s.world) s
  unfolding each_function ask
  each_function-ask again [] s = refl
  each_function-ask again (f ∷ fs) s =
      let (value, w) = call f s.world in
      follow-answered again fs value (record s { world = w }) (each_function-ask again fs)

  answered-append :
      (fs gs : List F) (value : Selection T) (w : W)
      → ((v : W) → ask (fs ++ gs) v ≡ (let r = ask fs v in answered (λ x. ask gs x) r.0 r.1))
      → answered (λ v. ask (fs ++ gs) v) value w
        ≡ (let r = answered (λ v. ask fs v) value w in answered (λ x. ask gs x) r.0 r.1)
  answered-append fs gs nothing w ih = ih w
  answered-append fs gs (redirect t) w ih = ih w
  answered-append fs gs (transport t) w ih = refl

  ask-append :
      (fs gs : List F) (w : W)
      → ask (fs ++ gs) w ≡ (let r = ask fs w in answered (λ x. ask gs x) r.0 r.1)
  unfolding ask
  ask-append [] gs w = refl
  ask-append (f ∷ fs) gs w =
      let (value, w') = call f w in answered-append fs gs value w' (ask-append fs gs)

  -- No string comes out of `ask`.
  abbrev Settles : Selection T × W → Type 0
  Settles r = ((w : W) × (r ≡ (nothing, w))) ⊎ ((t : T) × (w : W) × (r ≡ (transport t, w)))

  answered-Settles :
      (rest : W → Selection T × W) (value : Selection T) (w : W)
      → ((v : W) → Settles (rest v))
      → Settles (answered rest value w)
  answered-Settles rest nothing w h = h w
  answered-Settles rest (redirect t) w h = h w
  answered-Settles rest (transport t) w h = inr (t, w, refl)

  ask-Settles : (fs : List F) (w : W) → Settles (ask fs w)
  unfolding ask
  ask-Settles [] w = inl (w, refl)
  ask-Settles (f ∷ fs) w =
      let (value, w') = call f w in answered-Settles (λ v. ask fs v) value w' (ask-Settles fs)

  -- The call for "*" that ends an inspection.
  inspect-star :
      (fuel : ℕ) (structure : Structure F) (s : Inspection W)
      → inspect call false (suc fuel) structure star s
        ≡ found (ask (list_of star structure) s.world) (record s { inspected = star ∷ s.inspected })
  unfolding inspect is_inspected
  inspect-star fuel structure s =
      let again = λ (t : Text) (s' : Inspection W). inspect call false fuel structure t s' in
      rw
        (
          each_function-ask again (list_of star structure)
              (record s { inspected = star ∷ s.inspected }),
          text_eq_refl star,
        )
        (ends (ask (list_of star structure) s.world))
    where
      ends :
          (r : Selection T × W)
          → (if not (is_truthy r.0) && false
              then inspect call false fuel structure star
                  (record s { inspected = star ∷ s.inspected; world = r.1 })
              else ok (r.0, record s { inspected = star ∷ s.inspected; world = r.1 }))
            ≡ found r (record s { inspected = star ∷ s.inspected })
      ends (nothing, w) = refl
      ends (redirect [], w) = refl
      ends (redirect (c ∷ t), w) = refl
      ends (transport t, w) = refl

  -- The functions that are asked for a data type: its own, and those of "*" behind them.
  unfoldable pub candidates : Text → Structure F → List F
  candidates type structure =
      list_of type structure ++ (if text_eq star type then [] else list_of star structure)

  -- The transport that is chosen is the first that a function of the data type or then of "*"
  -- returns; no function behind it is called, and the data types stay as they are. A string that
  -- a function returns counts for nothing. No fuel beyond two is needed.
  pub inspect-ask :
      (fuel : ℕ) (structure : Structure F) (type : Text) (s : Inspection W)
      → is_inspected star s.inspected ≡ false
      → (s' : Inspection W) × (inspect call false (suc (suc fuel)) structure type s
          ≡ ok ((ask (candidates type structure) s.world).0, s'))
        × (s'.world ≡ (ask (candidates type structure) s.world).1)
        × (s'.data_types ≡ s.data_types)
  unfolding candidates inspect is_inspected
  inspect-ask fuel structure type s h =
      let own = list_of type structure in
      let every = list_of star structure in
      let s1 = record s { inspected = type ∷ s.inspected } in
      let again = λ (t : Text) (s' : Inspection W). inspect call false (suc fuel) structure t s' in
      let looped = each_function-ask again own s1 in
      elim (ask-Settles own s.world) [
        | inr (t, w, e) ↦
            let whole : ask (candidates type structure) s.world ≡ (transport t, w) =
              ask-append own (if text_eq star type then [] else every) s.world ∙ rw e refl in
            (record s1 { world = w }, rw (whole, looped, e) refl, rw whole refl, refl)
        | inl (w, e) ↦ elim (Bool-cases (text_eq star type)) [
          | inl is_star ↦
              let whole : ask (candidates type structure) s.world ≡ (nothing, w) =
                ask-append own (if text_eq star type then [] else every) s.world
                ∙ rw (e, is_star) (unfold ask in refl) in
              (record s1 { world = w }, rw (whole, looped, e, is_star) refl, rw whole refl, refl)
          | inr other ↦
              let whole : ask (candidates type structure) s.world ≡ ask every w =
                ask-append own (if text_eq star type then [] else every) s.world
                ∙ rw (e, other) refl in
              (
                record s1 { inspected = star ∷ s1.inspected; world = (ask every w).1 },
                rw (whole, looped, e, other, h)
                    (inspect-star fuel structure (record s1 { world = w })),
                rw whole refl,
                refl,
              )
        ]
      ]
