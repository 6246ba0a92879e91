-- ===== src/Links/Machine.antt =====
-- A machine and one link on it, for the examples.
use terminator.Stub.Data.{StubData}
use terminator.Record.Stubs as Cached
use terminator.Record.Stubs.{StubCache, increment, delete_from}
use terminator.Links.Table.{
  Platform, Link, Row, record_mode, replay_mode, running, stopped, cache_type,
}
use terminator.Links.Control.{Control, Server, new_server}
use terminator.Links.Requests.{LinkForm, Request, adds, starts, connects, changes, run, form_link}
use terminator.Links.Services.{Storages}
use terminator.Base.{
  ℕ, ℤ, Result, sym, ap, refl, ok-injective, ok, err, ◌++◌, ◌≡◌, pos, Text, codes, Bool, true,
  false, not, ◌||◌, List, [], ◌∷◌, Option, none, some, ◌==◌,
}

abbrev pub holds : List ℕ → ℕ → Bool
holds [] n = false
holds (m ∷ ms) n = m == n || holds ms n

abbrev pub blank : Option Text → Bool
blank none = true
blank (some []) = true
blank (some (_ ∷ _)) = false

-- A machine on which every class is found and every port is free that the process has not bound.
abbrev pub machine : Platform
machine = record {
  Class = Text;
  Storage = StubCache;
  new_cache_storage = λ _. record { id = pos 0; stub_data = [] };
  new_file_storage = λ _. record { id = pos 0; stub_data = [] };
  is_blank = blank;
  for_name = some;
  default_signer = λ _. some (codes "signer");
  default_extractor = λ _. some (codes "extractor");
  instantiates = λ _. true;
  has_pipeline_factory = λ _. true;
  bindable = λ ports n. not (holds ports n);
}

abbrev pub cached_put : StubData → StubCache → StubCache × Result ℤ
cached_put d s = ((Cached.put_stub_data d s).1, ok (Cached.put_stub_data d s).0)

abbrev pub cached_get : StubCache → Result (List StubData)
cached_get s = ok s.stub_data

pub get-put_stub_data :
    (d : StubData) (storage after : StubCache) (number : ℤ) (before : List StubData)
    → cached_put d storage ≡ (after, ok number)
    → cached_get storage ≡ ok before
    → cached_get after ≡ ok (before ++ (record d { id = some number } ∷ []))
unfolding Cached.put_stub_data
get-put_stub_data d storage after number before e f =
    let same : after ≡ (Cached.put_stub_data d storage).1 = sym (ap (λ x. x.0) e) in
    let given : (Cached.put_stub_data d storage).0 ≡ number = ok-injective _ _ (ap (λ x. x.1) e) in
    let listed : storage.stub_data ≡ before = ok-injective _ _ f in rw (same, given, listed) refl

-- `CacheStorage` keeps no record of a version to delete.
abbrev pub storages : Storages machine
storages = record {
  put_stub_data = cached_put;
  get_stub_data = cached_get;
  delete_stub_data = λ number s. elim (Cached.delete_stub_data number s) [
    | err x ↦ (s, err x)
    | ok s' ↦ (s', ok tt)
  ];
  delete_record_data = λ _ s. (s, ok tt);
  get-put_stub_data = get-put_stub_data;
}

abbrev pub form : LinkForm
form = record {
  name = codes "a";
  local_port = pos 9000;
  remote_address = codes "host";
  remote_port = pos 80;
  work_mode = record_mode;
  protocol_type = codes "HTTP";
  storage_type = cache_type;
  sign_class = none;
  extract_class = none;
}

abbrev pub nothing : Link machine
nothing = form_link machine none form

abbrev pub begin : Control machine
begin = record {
  link_table = record { rows = []; auto_increment = 1 };
  heap = λ _. nothing;
  next_ref = 0;
  link_id_server_map = [];
  link_id_link_map = [];
}

abbrev pub requests : List Request
requests = adds form ∷ starts 1 ∷ connects 1 ∷ changes 1 replay_mode ∷ connects 1 ∷ []

-- The link's server, after the requests that add and start it.
abbrev pub one_row : Row
one_row = record {
  id = 1;
  name = codes "a";
  local_port = pos 9000;
  remote_address = codes "host";
  remote_port = pos 80;
  work_mode = record_mode;
  protocol_type = codes "HTTP";
  storage_type = cache_type;
  sign_class = none;
  extract_class = none;
  work_status = running;
  is_delete = false;
}

abbrev pub up : Control machine
up = run machine (adds form ∷ starts 1 ∷ []) begin

abbrev pub one_link : Link machine
one_link = record {
  id = some 1;
  name = some (codes "a");
  local_port = some (pos 9000);
  remote_address = some (codes "host");
  remote_port = some (pos 80);
  work_mode = some record_mode;
  protocol_type = some (codes "HTTP");
  storage_type = some cache_type;
  sign_class = none;
  extract_class = none;
  storage = some (record { id = pos 0; stub_data = [] });
  request_signer = some (codes "signer");
  request_extractor = some (codes "extractor");
  status = some running;
}

abbrev pub one_server : Server
one_server = new_server 0 9000

abbrev pub one_up : Control machine
one_up = record {
  link_table = record { rows = one_row ∷ []; auto_increment = 2 };
  heap = λ _. one_link;
  next_ref = 1;
  link_id_server_map = (1, one_server) ∷ [];
  link_id_link_map = (1, 0) ∷ [];
}

abbrev pub one_down : Control machine
one_down = record one_up {
  link_table = record {
    rows = (record one_row { work_status = stopped }) ∷ [];
    auto_increment = 2;
  };
  link_id_server_map = [];
  link_id_link_map = [];
}

-- The link that `startServer` configures.
abbrev pub configured : Link machine
configured = record one_link { status = some stopped }

abbrev pub one_stub : StubData
one_stub = record {
  id = none;
  link_id = none;
  conditions = some [];
  delay = 0;
  sequence = 0;
  operator = none;
  response = some (codes "{}");
}
