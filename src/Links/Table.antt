-- ===== src/Links/Table.antt =====
-- manager/bo/Link.java, WorkMode.java, ServerStatus.java and StorageType.java, the table `link` of
-- database/1.1/terminator.sql, and the statements of manager/mapper/LinkMapper.xml. Widths of columns
-- and the time stamp `add_time` are left out, and `localIp`, which is no column.
pub mod Rows
use terminator.Base.{
  ℕ, suc, ℤ, Text, Bool, true, false, not, ◌&&◌, ◌||◌, List, [], ◌∷◌, ◌++◌, map, Option, none, some,
  Result, ok, err, data_access, ◌>>=◌, ◌==◌, if◌then◌else◌, pos, negsuc,
}
use mathlib.Core.Option as Options

pub data WorkMode : Type 0 where
  tunnel_mode record_mode replay_mode stub_mode : WorkMode

pub data ServerStatus : Type 0 where
  running stopped : ServerStatus

pub data StorageType : Type 0 where
  cache_type file_type database_type stub_file_type : StorageType

-- What the link code calls of the class loader, the plugin tables, the storages' constructors, the
-- text library and the network: `for_name` has no value for a class that is not found,
-- `instantiates` tells whether the constructor of a class that takes a link returns, and `bindable`
-- whether a port can be bound while the process itself listens on those given.
pub record Platform : Type 1 where
  pub Class : Type 0
  pub Storage : Type 0
  pub new_cache_storage : ℕ → Storage
  pub new_file_storage : ℕ → Storage
  pub is_blank : Option Text → Bool
  pub for_name : Text → Option Class
  pub default_signer : Option Text → Option Class
  pub default_extractor : Option Text → Option Class
  pub instantiates : Class → Bool
  pub has_pipeline_factory : Option Text → Bool
  pub bindable : List ℕ → ℕ → Bool

-- `Link`; a reference that may be null is an `Option`, and a plugin is the class it is made of.
pub record Link (p : Platform) : Type 0 where
  pub id : Option ℕ
  pub name : Option Text
  pub local_port : Option ℤ
  pub remote_address : Option Text
  pub remote_port : Option ℤ
  pub work_mode : Option WorkMode
  pub protocol_type : Option Text
  pub storage_type : Option StorageType
  pub sign_class : Option Text
  pub extract_class : Option Text
  pub storage : Option p.Storage
  pub request_signer : Option p.Class
  pub request_extractor : Option p.Class
  pub status : Option ServerStatus

-- A row of the table `link`: only the two class names may be null.
pub record Row : Type 0 where
  pub id : ℕ
  pub name : Text
  pub local_port : ℤ
  pub remote_address : Text
  pub remote_port : ℤ
  pub work_mode : WorkMode
  pub protocol_type : Text
  pub storage_type : StorageType
  pub sign_class : Option Text
  pub extract_class : Option Text
  pub work_status : ServerStatus
  pub is_delete : Bool

pub record Table : Type 0 where
  pub rows : List Row
  pub auto_increment : ℕ

-- `where is_delete = 0 and id = #{id}`; the primary key lets one row pass at most.
unfoldable pub find_row : ℕ → List Row → Option Row
find_row id [] = none
find_row id (r ∷ rs) =
    let later = find_row id rs in if not r.is_delete && r.id == id then some r else later

unfoldable pub same_port : ℤ → ℤ → Bool
same_port (pos m) (pos n) = m == n
same_port (negsuc m) (negsuc n) = m == n
same_port _ _ = false

-- `countValidPort`
unfoldable pub count_valid_port : ℤ → List Row → ℕ
unfolding same_port
count_valid_port port [] = 0
count_valid_port port (r ∷ rs) =
    let rest = count_valid_port port rs in
    if same_port r.local_port port && not r.is_delete then suc rest else rest

-- `deleteLink`
unfoldable pub delete_link : ℕ → Table → Table
delete_link id t = record t {
  rows = map (λ r. if r.id == id then record r { is_delete = true } else r) t.rows;
}

-- `<if test="column != null">`: a column that is null is left as it is.
abbrev pub set_column {ℓ} : {A : Type ℓ} → Option A → A → A
set_column none old = old
set_column (some new) old = new

abbrev pub is_set {ℓ} : {A : Type ℓ} → Option A → Bool
is_set none = false
is_set (some _) = true

-- A column declared `not null` throws when it is given none.
abbrev pub column {ℓ} : {A : Type ℓ} → Option A → Result A
column none = err data_access
column (some value) = ok value

module _ (p : Platform) where
  -- The result map `LinkMap`.
  unfoldable pub link_map : Row → Link p
  link_map r = record {
    id = some r.id;
    name = some r.name;
    local_port = some r.local_port;
    remote_address = some r.remote_address;
    remote_port = some r.remote_port;
    work_mode = some r.work_mode;
    protocol_type = some r.protocol_type;
    storage_type = some r.storage_type;
    sign_class = r.sign_class;
    extract_class = r.extract_class;
    storage = none;
    request_signer = none;
    request_extractor = none;
    status = some r.work_status;
  }

  unfoldable pub select_link_by_id : ℕ → Table → Option (Link p)
  unfolding link_map find_row
  select_link_by_id id t = Options.map link_map (find_row id t.rows)

  unfoldable pub select_rows : List Row → List (Link p)
  unfolding link_map
  select_rows [] = []
  select_rows (r ∷ rs) =
      let rest = select_rows rs in if r.is_delete then rest else link_map r ∷ rest

  unfoldable pub select_all_link : Table → List (Link p)
  unfolding select_rows
  select_all_link t = select_rows t.rows

  -- `insertLink` of a link that has no id yet: the number of the new row, and the table with it. A
  -- column that may not be null throws when it is.
  unfoldable pub insert_link : Link p → Table → Result (ℕ × Table)
  insert_link l t = do
    name ← column l.name
    local_port ← column l.local_port
    remote_address ← column l.remote_address
    remote_port ← column l.remote_port
    work_mode ← column l.work_mode
    protocol_type ← column l.protocol_type
    storage_type ← column l.storage_type
    let row : Row = record {
      id = t.auto_increment;
      name = name;
      local_port = local_port;
      remote_address = remote_address;
      remote_port = remote_port;
      work_mode = work_mode;
      protocol_type = protocol_type;
      storage_type = storage_type;
      sign_class = l.sign_class;
      extract_class = l.extract_class;
      work_status = stopped;
      is_delete = false;
    } in
        ok (
          t.auto_increment,
          record { rows = t.rows ++ (row ∷ []); auto_increment = suc t.auto_increment },
        )

  unfoldable pub update_row : Link p → Row → Row
  update_row l r = record r {
    name = set_column l.name r.name;
    local_port = set_column l.local_port r.local_port;
    remote_address = set_column l.remote_address r.remote_address;
    remote_port = set_column l.remote_port r.remote_port;
    work_mode = set_column l.work_mode r.work_mode;
    protocol_type = set_column l.protocol_type r.protocol_type;
    storage_type = set_column l.storage_type r.storage_type;
    sign_class = elim l.sign_class [ none ↦ r.sign_class | some c ↦ some c ];
    extract_class = elim l.extract_class [ none ↦ r.extract_class | some c ↦ some c ];
    work_status = set_column l.status r.work_status;
  }

  -- `where id = #{id}`, which no row passes when the id is null.
  unfoldable pub update_at : Link p → Row → Row
  unfolding update_row
  update_at l r = elim l.id [ none ↦ r | some id ↦ if r.id == id then update_row l r else r ]

  -- The part `set` is not written when it is empty, and the statement then has no meaning.
  unfoldable pub sets_column : Link p → Bool
  sets_column l =
      is_set l.name
      || is_set l.local_port
      || is_set l.remote_address
      || is_set l.remote_port
      || is_set l.work_mode
      || is_set l.protocol_type
      || is_set l.storage_type
      || is_set l.sign_class
      || is_set l.extract_class
      || is_set l.status

  -- `updateLink`
  unfoldable pub update_link : Link p → Table → Result Table
  unfolding update_at sets_column
  update_link l t =
      if sets_column l then ok (record t { rows = map (update_at l) t.rows }) else err data_access
