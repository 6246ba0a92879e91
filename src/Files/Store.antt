-- ===== src/Files/Store.antt =====
-- The record half of storage/file/FileStorage.java: a data file for each link, to which objects are
-- appended, and the table `data_index` of the offsets, with the statements of
-- storage/file/mapper/DataIndexMapper.xml. The time of a row, logs and failures to close are left out.
use terminator.Record.Store.{RequestResponseBundle}
use terminator.Base.{
  ℕ, suc, Text, Bool, ◌&&◌, List, [], ◌∷◌, ◌++◌, map, Option, none, some, Result, ok, err,
  class_cast, ◌==◌, ltb, if◌then◌else◌, length, take, drop, ◌≡◌,
}

-- What is called of the object streams, and how the database compares two signatures. An object is
-- read back whatever follows it in the file; `none` stands for the exceptions that are caught.
pub record Streams (B : Type 0) : Type 0 where
  pub write_object : B → List ℕ
  pub read_object : List ℕ → Option B
  pub same_signature : Text → Text → Bool
  pub read_object-write_object :
      (b : B) (rest : List ℕ) → read_object (write_object b ++ rest) ≡ some b

-- A row of `data_index`.
pub record DataIndex : Type 0 where
  pub id : ℕ
  pub link_id : ℕ
  pub offset : ℕ
  pub signature : Text

-- The table, the number of its next row, and the contents of each link's data file.
pub record Disk : Type 0 where
  pub data_index : List DataIndex
  pub auto_increment : ℕ
  pub files : ℕ → Option (List ℕ)

-- What the list that a mapper returns may hold.
pub data Mapped : Type 0 where
  long_value : ℕ → Mapped
  index_value : DataIndex → Mapped

-- `File.length`, which is 0 without a file.
unfoldable pub file_length : Option (List ℕ) → ℕ
file_length none = 0
file_length (some bytes) = length bytes

-- What a file holds after bytes were appended to it.
unfoldable pub appended : Option (List ℕ) → List ℕ → List ℕ
appended none more = more
appended (some bytes) more = bytes ++ more

-- `deleteDataIndex`
unfoldable pub delete_data_index : ℕ → List DataIndex → List DataIndex
delete_data_index link [] = []
delete_data_index link (d ∷ ds) =
    let rest = delete_data_index link ds in if d.link_id == link then rest else d ∷ rest

-- `deleteRecordData`; `deleted` is what `File.delete` returns.
unfoldable pub delete_record_data : ℕ → Bool → Disk → Disk
unfolding delete_data_index
delete_record_data link deleted s = record s {
  data_index = delete_data_index link s.data_index;
  files = λ l. if l == link then (if deleted then none else s.files l) else s.files l;
}

-- The cast to `Long` of an item of the list of ids.
unfoldable pub as_long : Mapped → Result ℕ
as_long (long_value n) = ok n
as_long (index_value d) = err class_cast

-- `selectDataIndexIDs`, whose result map makes a `DataIndex` of each row.
unfoldable pub select_data_index_ids : ℕ → List DataIndex → List Mapped
select_data_index_ids link [] = []
select_data_index_ids link (d ∷ ds) =
    let rest = select_data_index_ids link ds in
    if d.link_id == link then index_value d ∷ rest else rest

unfoldable pub select_data_index_by_id : ℕ → List DataIndex → Option DataIndex
select_data_index_by_id id [] = none
select_data_index_by_id id (d ∷ ds) =
    let later = select_data_index_by_id id ds in if d.id == id then some d else later

-- `updateDataIndexSign`
unfoldable pub update_data_index_sign : ℕ → Text → List DataIndex → List DataIndex
update_data_index_sign id key ds =
    map (λ d. if d.id == id then record d { signature = key } else d) ds

module _ {Request Response : Type 0} (o : Streams (RequestResponseBundle Request Response)) where
  abbrev Bundle : Type 0
  Bundle = RequestResponseBundle Request Response

  -- `new RequestResponseBundle()`
  abbrev pub empty_bundle : Bundle
  empty_bundle = record { request = none; response = none }

  -- The row with the greater id.
  unfoldable pub later_row : DataIndex → Option DataIndex → DataIndex
  later_row d none = d
  later_row d (some e) = if ltb d.id e.id then e else d

  -- `selectDataIndex`: `order by id desc limit 1`.
  unfoldable pub select_data_index : ℕ → Text → List DataIndex → Option DataIndex
  unfolding later_row
  select_data_index link key [] = none
  select_data_index link key (d ∷ ds) =
      let rest = select_data_index link key ds in
      if d.link_id == link && o.same_signature d.signature key
      then some (later_row d rest)
      else rest

  -- Reading the object at an offset of a link's file; what fails leaves the empty bundle.
  unfoldable pub read_at : ℕ → Option (List ℕ) → Bundle
  read_at offset none = empty_bundle
  read_at offset (some bytes) = elim (o.read_object (drop offset bytes)) [
    | none ↦ empty_bundle
    | some b ↦ b
  ]

  -- `getRecordData`
  unfoldable pub get_record_data : ℕ → Text → Disk → Bundle
  unfolding select_data_index read_at
  get_record_data link key s = elim (select_data_index link key s.data_index) [
    | none ↦ empty_bundle
    | some d ↦ read_at d.offset (s.files link)
  ]

  -- `getbyID`
  unfoldable pub get_by_id : ℕ → ℕ → Disk → Bundle
  unfolding select_data_index_by_id read_at
  get_by_id link id s = elim (select_data_index_by_id id s.data_index) [
    | none ↦ empty_bundle
    | some d ↦ read_at d.offset (s.files link)
  ]

  -- `putRecordData`; `written` bytes of the object reach the file before writing ends or fails, and
  -- the row is inserted in either case.
  unfoldable pub put_record_data : ℕ → Text → Bundle → ℕ → Disk → Disk
  unfolding file_length appended
  put_record_data link key b written s =
      let row : DataIndex = record {
        id = s.auto_increment;
        link_id = link;
        offset = file_length (s.files link);
        signature = key;
      } in
      record s {
        data_index = s.data_index ++ (row ∷ []);
        auto_increment = suc s.auto_increment;
        files = λ l.
            if l == link
            then some (appended (s.files link) (take written (o.write_object b)))
            else s.files l;
      }

  -- The loop of `signerChanged`, which may throw between two rows.
  unfoldable pub sign_rows :
      (Option Request → Text) → ℕ → List Mapped → Disk → Disk × Result {0} Unit
  unfolding as_long get_by_id update_data_index_sign
  sign_rows sign link [] s = (s, ok tt)
  sign_rows sign link (m ∷ ms) s = elim (as_long m) [
    | err x ↦ (s, err x)
    | ok id ↦
        let key = sign (get_by_id link id s).request in
        sign_rows sign link ms
          (record s { data_index = update_data_index_sign id key s.data_index })
  ]

  -- `signerChanged`
  unfoldable pub signer_changed : (Option Request → Text) → ℕ → Disk → Disk × Result {0} Unit
  unfolding sign_rows select_data_index_ids
  signer_changed sign link s = sign_rows sign link (select_data_index_ids link s.data_index) s
