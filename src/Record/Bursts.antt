-- ===== src/Record/Bursts.antt =====
-- Recording a client that sends requests ahead of the responses, or a request in chunks.
use terminator.Base.{
  true, false, List, [], ◌∷◌, ◌++◌, none, some, Text, ok, err, ◌>>=◌, if◌then◌else◌, All, ◌≡◌, ◌≢◌,
  ◌⊎◌, inl, inr, refl, ap, ◌∙◌,
}
use terminator.Record.Store.{Cache}
use terminator.Record.Handler.{
  Protocol, http_request, http_chunk, Event, from_client, from_remote, Bundle, Connection, step,
  run,
}
use terminator.Record.Evictions.{bundle_of}
use terminator.Record.Exchanges.{IsPlain}

module _ (p : Protocol) (cache : Cache (Bundle p)) where
  -- A run of two lists of events is a run of the one after the other.
  run-append :
      (es fs : List (Event p)) (c : Connection p cache)
      → run p cache (es ++ fs) c ≡ (run p cache es c >>= run p cache fs)
  unfolding run
  run-append [] fs c = refl
  run-append (e ∷ es) fs c =
      elim (step p cache e c)
        as (λ r.
          (r >>= λ c'. run p cache (es ++ fs) c')
          ≡ ((r >>= λ c'. run p cache es c') >>= run p cache fs)) [
            | ok c' ↦ run-append es fs c'
            | err e ↦ refl
          ]

  abbrev pub sent_requests : List p.Request → List (Event p)
  sent_requests [] = []
  sent_requests (r ∷ rs) = from_client (http_request r) ∷ sent_requests rs

  abbrev pub responses : List p.Response → List (Event p)
  responses [] = []
  responses (a ∷ as') = from_remote a ∷ responses as'

  abbrev pub chunks : List p.Chunk → List (Event p)
  chunks [] = []
  chunks (k ∷ ks) = from_client (http_chunk k) ∷ chunks ks

  -- All responses put under the signature of one request.
  abbrev pub put_all : p.Request → List p.Response → cache.State → cache.State
  put_all r [] s = s
  put_all r (a ∷ as') s = put_all r as' (cache.put (p.sign r) (bundle_of p cache r a) s)

  abbrev pub last_request : p.Request → List p.Request → p.Request
  last_request r [] = r
  last_request r (q ∷ qs) = last_request q qs

  abbrev sent : p.Request → Connection p cache → Connection p cache
  sent r c = record c {
    request = some r;
    to_remote = c.to_remote ++ (http_request r ∷ []);
    to_client =
        (if p.is_100_continue_expected r
          then c.to_client ++ (p.continue_response ∷ [])
          else c.to_client);
  }

  run_requests :
      (r : p.Request) (rs : List p.Request) (c : Connection p cache)
      → c.reading_chunks ≡ false
      → All (IsPlain p cache) (r ∷ rs)
      → (c' : Connection p cache) × (run p cache (sent_requests (r ∷ rs)) c ≡ ok c')
        × (c'.request ≡ some (last_request r rs))
        × (c'.storage ≡ c.storage)
  unfolding run step
  run_requests r [] c idle (plain, rest) = (sent r c, rw (idle, plain), refl, refl)
  run_requests r (q ∷ qs) c idle (plain, rest) =
      let (c', e, last, kept) = run_requests q qs (sent r c) idle rest in
      (c', rw (idle, plain) (rw idle at e), last, kept)

  run-responses :
      (r : p.Request) (as' : List p.Response) (c : Connection p cache)
      → c.request ≡ some r
      → (c' : Connection p cache) × (run p cache (responses as') c ≡ ok c')
        × (c'.storage ≡ put_all r as' c.storage)
  unfolding run step
  run-responses r [] c here = (c, refl, refl)
  run-responses r (a ∷ as') c here =
      let next = record c {
        storage = cache.put (p.sign r) (bundle_of p cache r a) c.storage;
        to_client = c.to_client ++ (a ∷ []);
      } in
      let (c', e, stored) = run-responses r as' next here in (c', rw here (rw here at e), stored)

  put_all-other :
      (r : p.Request) (as' : List p.Response) (k : Text) (s : cache.State)
      → k ≢ p.sign r
      → (cache.get_if_present k (put_all r as' s) ≡ cache.get_if_present k s)
        ⊎ (cache.get_if_present k (put_all r as' s) ≡ none)
  put_all-other r [] k s ne = inl refl
  put_all-other r (a ∷ as') k s ne =
      let s' = cache.put (p.sign r) (bundle_of p cache r a) s in
      next s' (put_all-other r as' k s' ne) (cache.get-put_ne k (p.sign r) _ s ne)
    where
      next :
          (s' : cache.State)
          → (cache.get_if_present k (put_all r as' s') ≡ cache.get_if_present k s')
            ⊎ (cache.get_if_present k (put_all r as' s') ≡ none)
          → (cache.get_if_present k s' ≡ cache.get_if_present k s)
            ⊎ (cache.get_if_present k s' ≡ none)
          → (cache.get_if_present k (put_all r as' s') ≡ cache.get_if_present k s)
            ⊎ (cache.get_if_present k (put_all r as' s') ≡ none)
      next s' (inl e) (inl f) = inl (e ∙ f)
      next s' (inl e) (inr g) = inr (e ∙ g)
      next s' (inr g) d = inr g

  -- When a client sends several plain requests before the first response comes back, every response
  -- is recorded under the signature of the last of them: the storage gains no entry for any
  -- other signature.
  pub burst-records_last :
      (r : p.Request) (rs : List p.Request) (as' : List p.Response) (c : Connection p cache)
      → c.reading_chunks ≡ false
      → All (IsPlain p cache) (r ∷ rs)
      → (c' : Connection p cache) × (run p cache (sent_requests (r ∷ rs) ++ responses as') c
          ≡ ok c')
        × (c'.storage ≡ put_all (last_request r rs) as' c.storage)
        × ((k : Text)
            → k ≢ p.sign (last_request r rs)
            → (cache.get_if_present k c'.storage ≡ cache.get_if_present k c.storage)
              ⊎ (cache.get_if_present k c'.storage ≡ none))
  burst-records_last r rs as' c idle plain =
      let (c1, e, last, kept) = run_requests r rs c idle plain in
      let (c2, f, stored) = run-responses (last_request r rs) as' c1 last in
      let final : c2.storage ≡ put_all (last_request r rs) as' c.storage =
        stored ∙ ap (put_all (last_request r rs) as') kept in
      (
        c2,
        run-append (sent_requests (r ∷ rs)) (responses as') c ∙ rw e f,
        final,
        λ k ne. rw final (put_all-other (last_request r rs) as' k c.storage ne),
      )

  run-chunks :
      (ks : List p.Chunk) (last : p.Chunk) (c : Connection p cache)
      → c.reading_chunks ≡ true
      → All (λ k. p.is_last k ≡ false) ks
      → p.is_last last ≡ true
      → run p cache (chunks ks ++ chunks (last ∷ [])) c
        ≡ ok
            (record c { reading_chunks = false; to_remote = c.to_remote ++ (http_chunk last ∷ []) })
  unfolding run step
  run-chunks [] last c reading more h = rw (reading, h)
  run-chunks (k ∷ ks) last c reading (m, more) h =
      rw (reading, m) (rw reading at (run-chunks ks last c reading more h))

  -- Of a request that comes in chunks only the last chunk is sent on: its head and every other
  -- chunk are dropped.
  pub chunked-sends_last :
      (r : p.Request) (ks : List p.Chunk) (last : p.Chunk) (c : Connection p cache)
      → c.reading_chunks ≡ false
      → p.is_chunked r ≡ true
      → All (λ k. p.is_last k ≡ false) ks
      → p.is_last last ≡ true
      → (c' : Connection p cache) × (run p cache
            (from_client (http_request r) ∷ (chunks ks ++ chunks (last ∷ [])))
            c
          ≡ ok c')
        × (c'.to_remote ≡ c.to_remote ++ (http_chunk last ∷ []))
        × (c'.storage ≡ c.storage)
  unfolding run step
  chunked-sends_last r ks last c idle chunked more h =
      let head = record (sent r c) { reading_chunks = true; to_remote = c.to_remote } in
      (
        record head { reading_chunks = false; to_remote = c.to_remote ++ (http_chunk last ∷ []) },
        rw (idle, chunked) (run-chunks ks last head refl more h),
        refl,
        refl,
      )
