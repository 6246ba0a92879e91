-- ===== src/Links/Services.antt =====
-- manager/service/BaseLinkService.java, RecordServiceImpl.java and the stub calls of
-- StubServiceImpl.java, which act on the storage of the link object of `LinkControlServiceImpl.getLink`.
pub mod Isolated
use terminator.Stub.Data.{StubData}
use terminator.Links.Table.{Platform, Link, ServerStatus, running, stopped}
use terminator.Links.Maps.{get}
use terminator.Links.Control.{Control, get_link, mutate}
use terminator.Base.{
  ℕ, ℤ, [], ◌∷◌, ◌++◌, ◌≡◌, List, Option, none, some, Result, ok, err, null_pointer, link_status,
  ◌>>=◌,
}

-- The interface `Storage` without the record half that the handlers use. A call may throw, as those of
-- `FileStorage` do; `put_stub_data` returns the number that it wrote into the stub. A stub that was put
-- is listed behind the others, with its number.
pub record Storages (p : Platform) : Type 0 where
  pub put_stub_data : StubData → p.Storage → p.Storage × Result ℤ
  pub get_stub_data : p.Storage → Result (List StubData)
  pub delete_stub_data : ℤ → p.Storage → p.Storage × Result {0} Unit
  pub delete_record_data : ℤ → p.Storage → p.Storage × Result {0} Unit
  pub get-put_stub_data :
      (d : StubData) (storage after : p.Storage) (number : ℤ) (before : List StubData)
      → put_stub_data d storage ≡ (after, ok number)
      → get_stub_data storage ≡ ok before
      → get_stub_data after ≡ ok (before ++ (record d { id = some number } ∷ []))

module _ (p : Platform) (storages : Storages p) where
  -- `checkLinkStatus`
  unfoldable pub check_link_status : ℕ → ServerStatus → Control p → Result {0} Unit
  unfolding get_link
  check_link_status id running s = elim (get_link p id s) [
    | none ↦ err link_status
    | some _ ↦ ok tt
  ]
  check_link_status id stopped s = elim (get_link p id s) [
    | none ↦ ok tt
    | some _ ↦ err link_status
  ]

  -- `getActiveStorage`; a storage that is null throws where it is used.
  unfoldable pub get_active_storage : ℕ → Control p → Result p.Storage
  unfolding check_link_status
  get_active_storage id s = do
    _ ← check_link_status id running s
    l ← elim (get_link p id s) [ none ↦ err null_pointer | some l ↦ ok l ]
    elim l.storage [ none ↦ err null_pointer | some storage ↦ ok storage ]

  -- The storage of a link changes in place.
  unfoldable pub set_storage : ℕ → p.Storage → Control p → Control p
  unfolding mutate
  set_storage id storage s = elim (get id s.link_id_link_map) [
    | none ↦ s
    | some ref ↦ mutate p ref (λ l. record l { storage = some storage }) s
  ]

  -- `StubServiceImpl.getStubData`
  unfoldable pub get_stub_data : ℕ → Control p → Result (List StubData)
  unfolding get_active_storage
  get_stub_data id s = get_active_storage id s >>= storages.get_stub_data

  -- `addStubData`: the number of the stub.
  unfoldable pub add_stub_data : ℕ → StubData → Control p → Control p × Result ℤ
  unfolding get_active_storage set_storage
  add_stub_data id d s = elim (get_active_storage id s) [
    | err x ↦ (s, err x)
    | ok storage ↦
        let (after, number) = storages.put_stub_data d storage in (set_storage id after s, number)
  ]

  -- `deleteStubData`
  unfoldable pub delete_stub_data : ℕ → ℤ → Control p → Control p × Result {0} Unit
  unfolding get_active_storage set_storage
  delete_stub_data id number s = elim (get_active_storage id s) [
    | err x ↦ (s, err x)
    | ok storage ↦
        let (after, done) = storages.delete_stub_data number storage in
        (set_storage id after s, done)
  ]

  -- `RecordServiceImpl.deleteRecord`
  unfoldable pub delete_record : ℕ → ℤ → Control p → Control p × Result {0} Unit
  unfolding get_link set_storage
  delete_record id version s = elim (get_link p id s) [
    | none ↦ (s, err link_status)
    | some l ↦ elim l.storage [
      | none ↦ (s, err null_pointer)
      | some storage ↦
          let (after, done) = storages.delete_record_data version storage in
          (set_storage id after s, done)
    ]
  ]
