-- ===== src/Record/Examples.antt =====
-- A small protocol over numbers, a cache that keeps everything, and the theorems on them.
use terminator.Base.{
  ℕ, pos, negsuc, false, List, [], ◌∷◌, ◌++◌, Option, none, some, Text, text_eq, text_eq_iff,
  text_eq_refl, ok, if◌then◌else◌, ◌≡◌, ◌≢◌, ◌⊎◌, inl, refl, ltb, ◌==◌, arith,
}
use terminator.Record.Store.{Cache}
use terminator.Record.Handler.{
  Protocol, http_request, http_chunk, from_client, Bundle, Connection, run, step, replay_message,
}
use terminator.Record.Exchanges.{lockstep}
use terminator.Record.Bursts.{
  sent_requests, responses, chunks, put_all, burst-records_last, chunked-sends_last,
}
use terminator.Stub.Data.{StubData}
use terminator.Record.Stubs.{StubCache, increment}
use terminator.Record.Stubs.Ids.{puts, deletes, change_all, IsAscending, change_all-IsAscending}

-- A request is a number, chunked from 100 on; its signature holds it alone. Chunk 9 is the last.
abbrev digits : Protocol
digits = record {
  Request = ℕ;
  Chunk = ℕ;
  Response = ℕ;
  is_chunked = λ r. ltb 99 r;
  is_100_continue_expected = λ r. r == 7;
  is_last = λ k. k == 9;
  sign = λ r. r ∷ [];
  continue_response = 1000;
  not_hit_response = 501;
}

abbrev State : Type 0
State = List (Text × Bundle digits)

abbrev find : Text → State → Option (Bundle digits)
find k [] = none
find k ((j, b) ∷ s) = if text_eq j k then some b else find k s

find_self : (k : Text) (b : Bundle digits) (s : State) → find k ((k, b) ∷ s) ≡ some b
find_self k b s = rw (text_eq_refl k)

find_ne :
    (j k : Text) (b : Bundle digits) (s : State)
    → j ≢ k
    → (find j ((k, b) ∷ s) ≡ find j s) ⊎ (find j ((k, b) ∷ s) ≡ none)
find_ne j k b s ne = inl (ground (arith, text_eq_iff k j))

abbrev keep_all : Cache (Bundle digits)
keep_all = record {
  State = State;
  put = λ k b s. (k, b) ∷ s;
  get_if_present = find;
  get-put_self = find_self;
  get-put_ne = find_ne;
}

abbrev fresh : Connection digits keep_all
fresh = record {
  request = none;
  reading_chunks = false;
  storage = [];
  to_remote = [];
  to_client = [];
}

recorded :
    (c : Connection digits keep_all) × (run digits keep_all
        (lockstep digits keep_all ((1, 10) ∷ (7, 70) ∷ (1, 11) ∷ []))
        fresh
      ≡ ok c)
    × (replay_message digits keep_all (http_request 1) c.storage ≡ ok 11)
    × (replay_message digits keep_all (http_request 2) c.storage ≡ ok 501)
    × (c.to_client ≡ 10 ∷ 1000 ∷ 70 ∷ 11 ∷ [])
unfolding run step replay_message text_eq
recorded = (_, refl, refl, refl, refl)

burst-records_last_example :
    (c : Connection digits keep_all) × (run digits keep_all
        (sent_requests digits keep_all (1 ∷ 2 ∷ []) ++ responses digits keep_all (10 ∷ 20 ∷ []))
        fresh
      ≡ ok c)
    × (c.storage ≡ put_all digits keep_all 2 (10 ∷ 20 ∷ []) [])
    × ((k : Text) → k ≢ 2 ∷ [] → (find k c.storage ≡ find k []) ⊎ (find k c.storage ≡ none))
burst-records_last_example =
    burst-records_last digits keep_all 1 (2 ∷ []) (10 ∷ 20 ∷ []) fresh refl (refl, (refl, tt))

chunked-sends_last_example :
    (c : Connection digits keep_all) × (run digits keep_all
        (from_client (http_request 100)
          ∷ (chunks digits keep_all (4 ∷ 5 ∷ []) ++ chunks digits keep_all (9 ∷ [])))
        fresh
      ≡ ok c)
    × (c.to_remote ≡ [] ++ (http_chunk 9 ∷ []))
    × (c.storage ≡ [])
chunked-sends_last_example =
    chunked-sends_last digits keep_all 100 (4 ∷ 5 ∷ []) 9 fresh refl refl (refl, (refl, tt)) refl

abbrev stub : StubData
stub = record {
  id = none;
  link_id = some 1;
  conditions = some [];
  delay = 0;
  sequence = 0;
  operator = none;
  response = none;
}

-- A cache with one stub, the second that was put.
abbrev stubs : StubCache
stubs = record { id = pos 2; stub_data = record stub { id = some (pos 2) } ∷ [] }

-- The counter of the stubs is a Java int.
overflow : increment (pos 2147483647) ≡ negsuc 2147483647
unfolding increment
overflow = refl

change_all-IsAscending_example :
    (s' : StubCache) × (m : ℕ) × (change_all
        (puts stub ∷ deletes (pos 2) ∷ puts stub ∷ deletes (negsuc 8) ∷ [])
        stubs
      ≡ ok s')
    × (s'.id ≡ pos m)
    × IsAscending 0 s'.stub_data m
change_all-IsAscending_example =
    change_all-IsAscending (puts stub ∷ deletes (pos 2) ∷ puts stub ∷ deletes (negsuc 8) ∷ []) stubs
      2 refl (2, refl, omega arith, omega arith) (omega arith)
