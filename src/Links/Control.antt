-- ===== src/Links/Control.antt =====
-- manager/service/LinkControlServiceImpl.java with server/common/ServerImpl.java, server/ServerContext.java
-- and storage/StorageFactory.java. Link objects live in a heap, since a server, its context and the map
-- `linkIdLinkMap` share one. Calls come one at a time; logs, thread pools and timers are left out.
pub mod Steps
pub mod Coherent
pub mod Kept
pub mod Modes
pub mod Shown
pub mod Lifecycle
pub mod Recovered
use terminator.Links.Table.{
  Platform, Link, Table, Row, WorkMode, tunnel_mode, record_mode, replay_mode, stub_mode,
  ServerStatus, running, stopped, StorageType, file_type, select_link_by_id, select_all_link,
  update_link,
}
use terminator.Links.Maps.{get, put, remove}
use terminator.Base.{
  ℕ, suc, ℤ, pos, negsuc, Text, Bool, true, false, List, [], ◌∷◌, ◌++◌, map, Option, none, some,
  Result, ok, err, null_pointer, link_status, signer_initialization, channel_error,
  illegal_argument, ◌>>=◌, leb, ◌==◌, if◌then◌else◌,
}

-- `ServerImpl` and its context: the link object, the port of the server channel, and for each channel
-- of `otherChannels` the mode whose handler serves it.
pub record Server : Type 0 where
  pub link : ℕ
  pub local_port : ℕ
  pub other_channels : List WorkMode

-- A server that was just bound, with the link object at `ref`.
abbrev pub new_server : ℕ → ℕ → Server
new_server ref port = record { link = ref; local_port = port; other_channels = [] }

pub record Control (p : Platform) : Type 0 where
  pub link_table : Table
  pub heap : ℕ → Link p
  pub next_ref : ℕ
  pub link_id_server_map : List (ℕ × Server)
  pub link_id_link_map : List (ℕ × ℕ)

-- What a call that may throw leaves behind.
abbrev pub Outcome : Platform → Type 0
Outcome p = Control p × Result Unit

-- A statement after one that may throw.
abbrev pub and_then {ℓ} :
    {A : Type ℓ} {E : Type 0} → A × Result E → (A → A × Result E) → A × Result E
and_then (s, err x) next = (s, err x)
and_then (s, ok _) next = next s

module _ (p : Platform) where
  unfoldable pub class_name : WorkMode → Link p → Option Text
  class_name tunnel_mode l = none
  class_name record_mode l = l.sign_class
  class_name replay_mode l = l.sign_class
  class_name stub_mode l = l.extract_class

  unfoldable pub default_class : WorkMode → Link p → Option p.Class
  default_class tunnel_mode l = none
  default_class record_mode l = p.default_signer l.protocol_type
  default_class replay_mode l = p.default_signer l.protocol_type
  default_class stub_mode l = p.default_extractor l.protocol_type

  -- What the handler of `ClassNotFoundException` does.
  unfoldable pub class_not_found : WorkMode → Result (Option p.Class)
  class_not_found tunnel_mode = ok none
  class_not_found _ = err signer_initialization

  -- `getPluginClass`; the class may be null.
  unfoldable pub get_plugin_class : Link p → WorkMode → Result (Option p.Class)
  unfolding class_name default_class class_not_found
  get_plugin_class l mode =
      let name = class_name mode l in
      if p.is_blank name then ok (default_class mode l) else elim name [
        | none ↦ err null_pointer
        | some text ↦ elim (p.for_name text) [ none ↦ class_not_found mode | some c ↦ ok (some c) ]
      ]

  -- `getPluginInstance`; the handlers do not catch the exception of a null class.
  unfoldable pub get_plugin_instance : Option p.Class → Result p.Class
  get_plugin_instance none = err null_pointer
  get_plugin_instance (some c) = if p.instantiates c then ok c else err signer_initialization

  -- `StorageFactory.getStorage` of a link with this id.
  unfoldable pub get_storage : ℕ → Option StorageType → p.Storage
  get_storage id (some file_type) = p.new_file_storage id
  get_storage id _ = p.new_cache_storage id

  -- `configLink`: the link with its plugins and storage set.
  unfoldable pub config_link : Link p → Result (Link p)
  unfolding get_plugin_class get_plugin_instance get_storage
  config_link l = do
    signer_class ← get_plugin_class l record_mode
    extractor_class ← get_plugin_class l stub_mode
    signer ← get_plugin_instance signer_class
    extractor ← get_plugin_instance extractor_class
    id ← elim l.id [ none ↦ err null_pointer | some id ↦ ok id ]
    ok (record l {
      request_signer = some signer;
      request_extractor = some extractor;
      storage = some (get_storage id l.storage_type);
    })

  -- The ports on which the process listens.
  unfoldable pub bound_ports : Control p → List ℕ
  bound_ports s = map (λ e. e.1.local_port) s.link_id_server_map

  -- `ServerImpl.start`: the port that is bound. `new InetSocketAddress` refuses what is no port.
  unfoldable pub start : Link p → Control p → Result ℕ
  unfolding bound_ports
  start l s = elim l.local_port [
    | none ↦ err null_pointer
    | some (negsuc _) ↦ err illegal_argument
    | some (pos port) ↦
        if leb port 65535
        then (if p.bindable (bound_ports s) port then ok port else err channel_error)
        else err illegal_argument
  ]

  -- `link.setX` of the object at `ref`.
  unfoldable pub mutate : ℕ → (Link p → Link p) → Control p → Control p
  mutate ref f s = record s { heap = λ r. if r == ref then f (s.heap r) else s.heap r }

  -- `LinkServiceImpl.modifyLink`
  unfoldable pub modify_link : Link p → Control p → Outcome p
  modify_link l s = elim (update_link p l s.link_table) [
    | err x ↦ (s, err x)
    | ok t ↦ (record s { link_table = t }, ok tt)
  ]

  -- A link and its new server enter both maps.
  unfoldable pub register : ℕ → Link p → ℕ → Control p → Control p
  register id l port s =
      let ref = s.next_ref in
      record s {
        heap = λ r. if r == ref then l else s.heap r;
        next_ref = suc ref;
        link_id_link_map = put id ref s.link_id_link_map;
        link_id_server_map = put id (new_server ref port) s.link_id_server_map;
      }

  -- The part of `startServer` that may throw before anything changes.
  unfoldable pub prepare : Link p → Control p → Result (Link p × ℕ)
  unfolding config_link start
  prepare l s = do c ← config_link l; port ← start c s; ok (c, port)

  -- `startServer` of a link that has no server.
  unfoldable pub start_new : ℕ → Link p → Control p → Outcome p
  unfolding prepare register modify_link mutate
  start_new id l s = elim (prepare l s) [
    | err x ↦ (s, err x)
    | ok (c, port) ↦
        let s' =
          mutate s.next_ref (λ o. record o { status = some running }) (register id c port s) in
        modify_link (s'.heap s.next_ref) s'
  ]

  -- `startServer`
  unfoldable pub start_server : ℕ → Control p → Outcome p
  unfolding start_new modify_link
  start_server id s = elim (select_link_by_id p id s.link_table) [
    | none ↦ (s, ok tt)
    | some l ↦ elim (get id s.link_id_server_map) [
      | some _ ↦ modify_link (record l { status = some running }) s
      | none ↦ start_new id l s
    ]
  ]

  -- `stopServer`; `ServerImpl.stop` closes every channel of the server.
  unfoldable pub stop_server : ℕ → Control p → Outcome p
  unfolding modify_link
  stop_server id s = elim (select_link_by_id p id s.link_table) [
    | none ↦ (s, ok tt)
    | some l ↦
        let s' = record s {
          link_id_server_map = remove id s.link_id_server_map;
          link_id_link_map = remove id s.link_id_link_map;
        } in
        modify_link (record l { status = some stopped }) s'
  ]

  -- `ServerImpl.changeWorkMode`: the shared link object changes and the channels are closed.
  unfoldable pub server_change_work_mode : ℕ → Server → WorkMode → Control p → Control p
  unfolding mutate
  server_change_work_mode id server mode s =
      let s' = mutate server.link (λ o. record o { work_mode = some mode }) s in
      record s' {
        link_id_server_map = put id (record server { other_channels = [] }) s.link_id_server_map;
      }

  -- `changeWorkMode`
  unfoldable pub change_work_mode : ℕ → WorkMode → Control p → Outcome p
  unfolding server_change_work_mode modify_link
  change_work_mode id mode s = elim (get id s.link_id_server_map) [
    | none ↦ (s, err link_status)
    | some server ↦
        let s' = server_change_work_mode id server mode s in
        elim (select_link_by_id p id s.link_table) [
          | none ↦ (s', err null_pointer)
          | some l ↦ modify_link (record l { work_mode = some mode }) s'
        ]
  ]

  -- `getLink`
  unfoldable pub get_link : ℕ → Control p → Option (Link p)
  get_link id s = elim (get id s.link_id_link_map) [ none ↦ none | some ref ↦ some (s.heap ref) ]

  -- The loop of `recoveryLink`, and its body.
  unfoldable pub recover_one : Link p → Control p → Outcome p
  unfolding start_server
  recover_one l s = elim l.status [
    | some running ↦ elim l.id [ none ↦ (s, err null_pointer) | some id ↦ start_server id s ]
    | _ ↦ (s, ok tt)
  ]

  unfoldable pub recover : List (Link p) → Control p → Outcome p
  unfolding recover_one
  recover [] s = (s, ok tt)
  recover (l ∷ ls) s = and_then (recover_one l s) (λ s'. recover ls s')

  unfoldable pub recovery_link : Control p → Outcome p
  unfolding recover
  recovery_link s = recover (select_all_link p s.link_table) s
