-- ===== src/Links/Requests.antt =====
-- What reaches the links from outside: manager/service/LinkServiceImpl.java, the requests of
-- manager/action/LinkAction.java and LinkControlAction.java, and a client that connects to a server
-- (server/common/ServerPipelineFactory.java with the `channelOpen` of the handlers).
pub mod Kept
pub mod Ports
pub mod Restarted
pub mod Orphans
use terminator.Links.Table.{
  Platform, Link, Table, WorkMode, tunnel_mode, StorageType, count_valid_port, insert_link,
  delete_link,
}
use terminator.Links.Maps.{get, put}
use terminator.Links.Control.{
  Control, Server, Outcome, bound_ports, modify_link, start_server, stop_server, change_work_mode,
  recovery_link,
}
use terminator.Base.{
  ℕ, suc, zero, ◌+◌, ℤ, pos, negsuc, Text, Bool, true, false, ◌||◌, List, [], ◌∷◌, ◌++◌, Option,
  none, some, Result, ok, err, illegal_argument, ◌>>=◌, leb, ltb, if◌then◌else◌,
}

-- `LinkForm`, whose validation leaves no other field null.
pub record LinkForm : Type 0 where
  pub name : Text
  pub local_port : ℤ
  pub remote_address : Text
  pub remote_port : ℤ
  pub work_mode : WorkMode
  pub protocol_type : Text
  pub storage_type : StorageType
  pub sign_class : Option Text
  pub extract_class : Option Text

pub data Request : Type 0 where
  starts stops deletes connects : ℕ → Request
  changes : ℕ → WorkMode → Request
  adds : LinkForm → Request
  updates : ℕ → LinkForm → Request

module _ (p : Platform) where
  -- The link that `LinkAction.addLink` and `updateLink` build.
  unfoldable pub form_link : Option ℕ → LinkForm → Link p
  form_link id f = record {
    id = id;
    name = some f.name;
    local_port = some f.local_port;
    remote_address = some f.remote_address;
    remote_port = some f.remote_port;
    work_mode = some f.work_mode;
    protocol_type = some f.protocol_type;
    storage_type = some f.storage_type;
    sign_class = f.sign_class;
    extract_class = f.extract_class;
    storage = none;
    request_signer = none;
    request_extractor = none;
    status = none;
  }

  -- `isPortAvailable`; `new ServerSocket` refuses what is no port.
  unfoldable pub is_port_available : ℤ → Control p → Result Bool
  unfolding count_valid_port bound_ports
  is_port_available port s =
      if ltb 0 (count_valid_port port s.link_table.rows) then ok false else elim port [
        | negsuc _ ↦ err illegal_argument
        | pos n ↦ if leb n 65535 then ok (p.bindable (bound_ports p s) n) else err illegal_argument
      ]

  -- The loop of `distributeLocalPort`, with the number of ports that are left.
  unfoldable pub distribute_from : ℕ → ℕ → Control p → Result ℤ
  unfolding is_port_available
  distribute_from zero i s = ok (negsuc 0)
  distribute_from (suc left) i s =
      let rest = distribute_from left (i + 1) s in
      (is_port_available (pos i) s >>= λ available. if available then ok (pos i) else rest)

  -- `distributeLocalPort`: from 8001 to 49999.
  unfoldable pub distribute_local_port : Control p → Result ℤ
  unfolding distribute_from
  distribute_local_port s = distribute_from 41999 8001 s

  -- `LinkServiceImpl.addLink`
  unfoldable pub add_link : Link p → Control p → Outcome p
  unfolding distribute_local_port insert_link
  add_link l s =
      let port : Result ℤ = elim l.local_port [ none ↦ distribute_local_port s | some q ↦ ok q ] in
      elim (port >>= λ q. insert_link p (record l { local_port = some q }) s.link_table) [
        | err x ↦ (s, err x)
        | ok (_, t) ↦ (record s { link_table = t }, ok tt)
      ]

  -- `ServerPipelineFactory.getPipeline`: a tunnel needs no factory for its protocol.
  unfoldable pub has_pipeline : WorkMode → Link p → Bool
  has_pipeline tunnel_mode l = true
  has_pipeline _ l = p.has_pipeline_factory l.protocol_type

  -- A channel whose handler serves `mode` enters `otherChannels`.
  unfoldable pub add_channel : ℕ → Server → WorkMode → Control p → Control p
  add_channel id server mode s = record s {
    link_id_server_map =
        put id (record server { other_channels = server.other_channels ++ (mode ∷ []) })
          s.link_id_server_map;
  }

  -- A client connects: the pipeline gets the handler of the link's mode, whose `channelOpen` adds the
  -- channel. Without a pipeline the channel is closed.
  unfoldable pub connect : ℕ → Control p → Control p
  unfolding has_pipeline add_channel
  connect id s = elim (get id s.link_id_server_map) [
    | none ↦ s
    | some server ↦ elim (s.heap server.link).work_mode [
      | none ↦ s
      | some mode ↦
          if has_pipeline mode (s.heap server.link) then add_channel id server mode s else s
    ]
  ]

  unfoldable pub perform : Request → Control p → Outcome p
  unfolding form_link add_link connect start_server stop_server change_work_mode modify_link
      delete_link
  perform (starts id) s = start_server p id s
  perform (stops id) s = stop_server p id s
  perform (changes id mode) s = change_work_mode p id mode s
  perform (adds f) s = add_link (form_link none f) s
  perform (updates id f) s = modify_link p (form_link (some id) f) s
  perform (deletes id) s = (record s { link_table = delete_link id s.link_table }, ok tt)
  perform (connects id) s = (connect id s, ok tt)

  -- Requests one after the other; an exception ends its own request only.
  unfoldable pub run : List Request → Control p → Control p
  unfolding perform
  run [] s = s
  run (r ∷ rs) s = run rs (perform r s).0

  -- `destroy` closes every server, and the process that starts next has the table alone.
  unfoldable pub restart : Control p → Control p
  restart s = record s { next_ref = 0; link_id_server_map = []; link_id_link_map = [] }
