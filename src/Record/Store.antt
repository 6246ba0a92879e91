-- ===== src/Record/Store.antt =====
-- storage/RequestResponseBundle.java, the record half of storage/Storage.java as an interface, and
-- storage/cache/CacheStorage.java over the cache library.
use terminator.Base.{Option, none, some, Text, ◌≡◌, ◌≢◌, ◌⊎◌}

-- `RequestResponseBundle`; the constructor with no arguments leaves both fields null.
pub record RequestResponseBundle (Request Response : Type 0) : Type 0 where
  pub request : Option Request
  pub response : Option Response

-- What is relied on of the cache that `CacheStorage` builds (Guava's `put` and `getIfPresent`): an
-- entry that was just put is present, and a put of another key leaves an entry or evicts it.
pub record Cache (V : Type 0) : Type 1 where
  pub State : Type 0
  pub put : Text → V → State → State
  pub get_if_present : Text → State → Option V
  pub get-put_self : (k : Text) (v : V) (s : State) → get_if_present k (put k v s) ≡ some v
  pub get-put_ne :
      (j k : Text) (v : V) (s : State)
      → j ≢ k
      → (get_if_present j (put k v s) ≡ get_if_present j s) ⊎ (get_if_present j (put k v s) ≡ none)

module _ {Request Response : Type 0} (cache : Cache (RequestResponseBundle Request Response)) where
  open cache use {State, put, get_if_present}

  -- `CacheStorage.putRecordData`
  unfoldable pub put_record_data : Text → RequestResponseBundle Request Response → State → State
  put_record_data key bundles s = put key bundles s

  -- `CacheStorage.getRecordData`: an empty bundle when the key is not present.
  unfoldable pub get_record_data : Text → State → RequestResponseBundle Request Response
  get_record_data key s = elim (get_if_present key s) [
    | none ↦ record { request = none; response = none }
    | some bundle ↦ bundle
  ]
