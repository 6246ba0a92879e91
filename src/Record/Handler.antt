-- ===== src/Record/Handler.antt =====
-- The channel handlers of the record and the replay mode, as steps on the state that they share.
-- Back pressure (`setReadable`), logging and channel life cycle are not part of the state.
use terminator.Base.{
  Bool, true, false, List, [], ◌∷◌, ◌++◌, Option, none, some, Text, Result, ok, err, null_pointer,
  class_cast, ◌>>=◌, if◌then◌else◌,
}
use terminator.Record.Store.{RequestResponseBundle, Cache, put_record_data, get_record_data}

-- What the handlers read of the codec's messages, and the signer of the link. A response is one that
-- the relay pipeline's aggregator hands on.
pub record Protocol : Type 1 where
  pub Request : Type 0
  pub Chunk : Type 0
  pub Response : Type 0
  pub is_chunked : Request → Bool
  pub is_100_continue_expected : Request → Bool
  pub is_last : Chunk → Bool
  pub sign : Request → Text
  pub continue_response : Response
  pub not_hit_response : Response

-- A message that the codec hands to a server handler.
pub data ClientMessage (p : Protocol) : Type 0 where
  http_request : p.Request → ClientMessage p
  http_chunk : p.Chunk → ClientMessage p

-- What happens on the two channels of one connection.
pub data Event (p : Protocol) : Type 0 where
  from_client : ClientMessage p → Event p
  from_remote : p.Response → Event p

abbrev pub Bundle : Protocol → Type 0
Bundle p = RequestResponseBundle p.Request p.Response

-- The handler's fields, the storage, and what was written to either channel.
pub record Connection (p : Protocol) (cache : Cache (Bundle p)) : Type 0 where
  pub request : Option p.Request
  pub reading_chunks : Bool
  pub storage : cache.State
  pub to_remote : List (ClientMessage p)
  pub to_client : List p.Response

module _ (p : Protocol) (cache : Cache (Bundle p)) where
  -- `BaseServerHandler.writeObject`
  abbrev write_object : ClientMessage p → Connection p cache → Connection p cache
  write_object m c = record c { to_remote = c.to_remote ++ (m ∷ []) }

  -- `HttpRecordServerHandler.messageReceived`
  unfoldable pub record_message : ClientMessage p → Connection p cache → Result (Connection p cache)
  record_message (http_request r) c =
      if c.reading_chunks
      then err class_cast
      else (let greeted =
            (if p.is_100_continue_expected r
              then c.to_client ++ (p.continue_response ∷ [])
              else c.to_client) in
          let c' = record c { request = some r; to_client = greeted } in
          if p.is_chunked r
          then ok (record c' { reading_chunks = true })
          else ok (write_object (http_request r) c'))
  record_message (http_chunk k) c =
      if c.reading_chunks
      then (if p.is_last k
          then ok (write_object (http_chunk k) (record c { reading_chunks = false }))
          else ok c)
      else err class_cast

  -- `BaseRecordServerHandler.onRelayResponse`; the signer throws on the request null.
  unfoldable pub on_relay_response : p.Response → Connection p cache → Result (Connection p cache)
  unfolding put_record_data
  on_relay_response a c = elim c.request [
    | none ↦ err null_pointer
    | some r ↦
        let bundle : Bundle p = record { request = c.request; response = some a } in
        ok (record c { storage = put_record_data cache (p.sign r) bundle c.storage })
  ]

  -- `BaseRelayHandler.writeObject`: the listener first, then the client.
  unfoldable relay_object : p.Response → Connection p cache → Result (Connection p cache)
  unfolding on_relay_response
  relay_object a c = do
    c' ← on_relay_response a c
    ok (record c' { to_client = c'.to_client ++ (a ∷ []) })

  -- `HttpRelayHandler.messageReceived`. The relay pipeline of `HttpRecordServerHandler` has the
  -- codec's aggregator in front of the handler, which hands on whole responses: none is chunked and no
  -- message is a chunk, so `readingChunks` stays false and a response takes the branch `writeObject`.
  unfoldable pub relay_message : p.Response → Connection p cache → Result (Connection p cache)
  unfolding relay_object
  relay_message a c = relay_object a c

  unfoldable pub step : Event p → Connection p cache → Result (Connection p cache)
  unfolding record_message relay_message
  step (from_client m) c = record_message m c
  step (from_remote a) c = relay_message a c

  -- The events of a connection in the order in which the handlers take them.
  unfoldable pub run : List (Event p) → Connection p cache → Result (Connection p cache)
  run [] c = ok c
  run (e ∷ es) c = do c' ← step e c; run es c'

  -- `BaseReplayServerHandler.messageReceived`: what is written to the client.
  unfoldable pub replay_message : ClientMessage p → cache.State → Result p.Response
  unfolding get_record_data
  replay_message (http_request r) s = ok (elim (get_record_data cache (p.sign r) s).response [
    | none ↦ p.not_hit_response
    | some a ↦ a
  ])
  replay_message (http_chunk k) s = err class_cast
