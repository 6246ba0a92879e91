-- ===== src/Record/Exchanges.antt =====
-- Recording a client that waits for each response, and replaying what was recorded.
use terminator.Base.{false, List, [], ◌∷◌, ◌++◌, Option, none, some, ok, if◌then◌else◌, ◌≡◌, ◌⊎◌}
use terminator.Record.Evictions.{Exchange, latest, bundle_of, Evicts}
use terminator.Record.Store.{Cache}
use terminator.Record.Handler.{
  Protocol, ClientMessage, http_request, Event, from_client, from_remote, Bundle, Connection, step,
  run, replay_message,
}

module _ (p : Protocol) (cache : Cache (Bundle p)) where
  abbrev pub lockstep : List (Exchange p cache) → List (Event p)
  lockstep [] = []
  lockstep ((r, a) ∷ xs) = from_client (http_request r) ∷ from_remote a ∷ lockstep xs

  abbrev pub IsPlain : p.Request → Type 0
  IsPlain r = p.is_chunked r ≡ false

  -- What replay should answer: the recorded response, or the response for an unrecorded request.
  abbrev pub answer : Option p.Response → p.Response
  answer none = p.not_hit_response
  answer (some a) = a

  abbrev pub requests : List (Exchange p cache) → List (ClientMessage p)
  requests [] = []
  requests ((r, a) ∷ xs) = http_request r ∷ requests xs

  abbrev after : p.Request → p.Response → Connection p cache → Connection p cache
  after r a c = record c {
    request = some r;
    storage = cache.put (p.sign r) (bundle_of p cache r a) c.storage;
    to_remote = c.to_remote ++ (http_request r ∷ []);
    to_client =
        (if p.is_100_continue_expected r
          then c.to_client ++ (p.continue_response ∷ [])
          else c.to_client)
        ++ (a ∷ []);
  }

  run_exchange :
      (r : p.Request) (a : p.Response) (xs : List (Exchange p cache)) (c : Connection p cache)
      → c.reading_chunks ≡ false
      → IsPlain r
      → run p cache (lockstep ((r, a) ∷ xs)) c ≡ run p cache (lockstep xs) (after r a c)
  unfolding run step
  run_exchange r a xs c idle plain = rw (idle, plain)

  -- What replay answers after the recording of exchanges.
  abbrev pub Replays : List (Exchange p cache) → p.Request → cache.State → cache.State → Type 0
  Replays xs q s s' =
      (replay_message p cache (http_request q) s' ≡ ok (answer (latest p cache none (p.sign q) xs)))
      ⊎ ((replay_message p cache (http_request q) s' ≡ ok p.not_hit_response)
          × Evicts p cache (p.sign q) xs s)

module _ (p : Protocol) (cache : Cache (Bundle p)) where
  -- A response that was just recorded is what replay answers, to the recorded request and to every
  -- other with its signature, whatever was stored before.
  pub replay-record_last :
      (r q : p.Request) (a : p.Response) (c : Connection p cache)
      → c.reading_chunks ≡ false
      → IsPlain p cache r
      → p.sign q ≡ p.sign r
      → (c' : Connection p cache) × (run p cache (lockstep p cache ((r, a) ∷ [])) c ≡ ok c')
        × (replay_message p cache (http_request q) c'.storage ≡ ok a)
  unfolding replay_message run
  replay-record_last r q a c idle plain same = (
    after p cache r a c,
    run_exchange p cache r a [] c idle plain,
    rw (same, cache.get-put_self (p.sign r) (bundle_of p cache r a) c.storage),
  )
