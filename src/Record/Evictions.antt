-- ===== src/Record/Evictions.antt =====
-- What a cache holds after exchanges were recorded: the last response of a signature, unless the cache
-- evicted it.
use terminator.Base.{
  true, false, Bool-cases, List, [], ◌∷◌, Option, none, some, Text, text_eq, text_eq_iff,
  if◌then◌else◌, All, ◌≡◌, ◌≢◌, ◌⊎◌, inl, inr, refl, sym, ◌∙◌,
}
use mathlib.Core.Bool.{false≢true}
use terminator.Record.Store.{Cache}
use terminator.Record.Handler.{Protocol, Bundle}

module _ (p : Protocol) (cache : Cache (Bundle p)) where
  -- A request and the response that the remote service gave to it.
  abbrev pub Exchange : Type 0
  Exchange = p.Request × p.Response

  -- The specification of a recording: the response of the last exchange with the signature.
  abbrev pub latest : Option p.Response → Text → List Exchange → Option p.Response
  latest o k [] = o
  latest o k ((r, a) ∷ xs) = latest (if text_eq (p.sign r) k then some a else o) k xs

  abbrev pub bundle_of : p.Request → p.Response → Bundle p
  bundle_of r a = record { request = some r; response = some a }

  abbrev pub record_all : List Exchange → cache.State → cache.State
  record_all [] s = s
  record_all ((r, a) ∷ xs) s = record_all xs (cache.put (p.sign r) (bundle_of r a) s)

  abbrev pub IsOther : Text → Exchange → Type 0
  IsOther k x = p.sign x.0 ≢ k

  -- While the exchanges are recorded, the cache evicts what it holds under the key, at the put of
  -- another key, and nothing is recorded for the key from then on.
  pub data Evicts (k : Text) : List Exchange → cache.State → Type 0 where
    now :
        {r : p.Request} {a : p.Response} {xs : List Exchange} {s : cache.State}
        → p.sign r ≢ k
        → (b : Bundle p) → cache.get_if_present k s ≡ some b
        → cache.get_if_present k (cache.put (p.sign r) (bundle_of r a) s) ≡ none
        → All (IsOther k) xs
        → Evicts k ((r, a) ∷ xs) s
    later :
        {r : p.Request} {a : p.Response} {xs : List Exchange} {s : cache.State}
        → Evicts k xs (cache.put (p.sign r) (bundle_of r a) s)
        → Evicts k ((r, a) ∷ xs) s

  -- The key has a bundle with this response.
  abbrev pub Holds : Text → Option p.Response → cache.State → Type 0
  Holds k o s = (b : Bundle p) × (cache.get_if_present k s ≡ some b) × (b.response ≡ o)

  abbrev pub IsGone : Text → cache.State → Type 0
  IsGone k s = cache.get_if_present k s ≡ none

  -- After the recording: the last response is there, or it was evicted.
  abbrev pub Ends : Text → Option p.Response → List Exchange → cache.State → Type 0
  Ends k o xs s =
      Holds k (latest o k xs) (record_all xs s) ⊎ (Evicts k xs s × IsGone k (record_all xs s))

  -- Or nothing was there and nothing was recorded.
  abbrev pub EndsGone : Text → Option p.Response → List Exchange → cache.State → Type 0
  EndsGone k o xs s = Ends k o xs s ⊎ (All (IsOther k) xs × IsGone k (record_all xs s))

  Holds-put :
      (k : Text) (r : p.Request) (a : p.Response) (s : cache.State)
      → text_eq (p.sign r) k ≡ true
      → Holds k (some a) (cache.put (p.sign r) (bundle_of r a) s)
  Holds-put k r a s same =
      let e = (text_eq_iff (p.sign r) k).0 same in
      (bundle_of r a, rw (← e) (cache.get-put_self (p.sign r) (bundle_of r a) s), refl)

  sign_ne : (k : Text) (r : p.Request) → text_eq (p.sign r) k ≡ false → p.sign r ≢ k
  sign_ne k r other e = false≢true (sym other ∙ (text_eq_iff (p.sign r) k).1 e)

  Ends-later :
      (k : Text) (o : Option p.Response) (r : p.Request) (a : p.Response) (xs : List Exchange)
      (s : cache.State)
      → Ends k
          (if text_eq (p.sign r) k then some a else o)
          xs
          (cache.put (p.sign r) (bundle_of r a) s)
      → Ends k o ((r, a) ∷ xs) s
  Ends-later k o r a xs s (inl held) = inl held
  Ends-later k o r a xs s (inr (evicted, gone)) = inr (later evicted, gone)

  pub latest-other :
      (k : Text) (o : Option p.Response) (xs : List Exchange)
      → All (IsOther k) xs
      → latest o k xs ≡ o
  latest-other k o [] h = refl
  latest-other k o ((r, a) ∷ xs) (ne, h) = elim (Bool-cases (text_eq (p.sign r) k)) [
    | inl same ↦ absurd (ne ((text_eq_iff (p.sign r) k).0 same))
    | inr other ↦ rw other (latest-other k o xs h)
  ]

  mutual
    record_all-Holds :
        (xs : List Exchange) (k : Text) (o : Option p.Response) (s : cache.State)
        → Holds k o s
        → Ends k o xs s
    record_all-Holds [] k o s h = inl h
    record_all-Holds ((r, a) ∷ xs) k o s (b, e, f) = elim (Bool-cases (text_eq (p.sign r) k)) [
      | inl same ↦
          Ends-later k o r a xs s
            (rw same (record_all-Holds xs k (some a) _ (Holds-put k r a s same)))
      | inr other ↦
          elim (cache.get-put_ne k (p.sign r) (bundle_of r a) s (λ q. sign_ne k r other (sym q))) [
            | inl kept ↦
                Ends-later k o r a xs s (rw other (record_all-Holds xs k o _ (b, kept ∙ e, f)))
            | inr gone ↦ evicted other gone (record_all-IsGone xs k o _ gone)
          ]
    ]
      where
        evicted :
            text_eq (p.sign r) k ≡ false
            → IsGone k (cache.put (p.sign r) (bundle_of r a) s)
            → EndsGone k o xs (cache.put (p.sign r) (bundle_of r a) s)
            → Ends k o ((r, a) ∷ xs) s
        evicted other gone (inl ends) = Ends-later k o r a xs s (rw other ends)
        evicted other gone (inr (others, end)) = inr (now (sign_ne k r other) b e gone others, end)

    pub record_all-IsGone :
        (xs : List Exchange) (k : Text) (o : Option p.Response) (s : cache.State)
        → IsGone k s
        → EndsGone k o xs s
    record_all-IsGone [] k o s h = inr (tt, h)
    record_all-IsGone ((r, a) ∷ xs) k o s h = elim (Bool-cases (text_eq (p.sign r) k)) [
      | inl same ↦ inl (
          Ends-later k o r a xs s
            (rw same (record_all-Holds xs k (some a) _ (Holds-put k r a s same))))
      | inr other ↦ go other (record_all-IsGone xs k o _ (still_gone other))
    ]
      where
        still_gone :
            text_eq (p.sign r) k ≡ false → IsGone k (cache.put (p.sign r) (bundle_of r a) s)
        still_gone other =
            elim (cache.get-put_ne k (p.sign r) (bundle_of r a) s
              (λ q. sign_ne k r other (sym q))) [ inl kept ↦ kept ∙ h | inr gone ↦ gone ]

        go :
            text_eq (p.sign r) k ≡ false
            → EndsGone k o xs (cache.put (p.sign r) (bundle_of r a) s)
            → EndsGone k o ((r, a) ∷ xs) s
        go other (inl ends) = inl (Ends-later k o r a xs s (rw other ends))
        go other (inr (others, end)) = inr ((sign_ne k r other, others), end)
