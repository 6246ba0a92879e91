-- ===== src/Links/Services/Isolated.antt =====
-- The services throw for a stopped link, and reach the storage of that link alone.
use terminator.Stub.Data.{StubData}
use terminator.Links.Table.{Platform, Row, stopped, find_row}
use terminator.Links.Maps.{get}
use terminator.Links.Control.{Control, Server, get_link, mutate}
use terminator.Links.Control.Coherent.{IsServed, IsCoherent, ServerAgrees, StatusAgrees}
use terminator.Links.Control.Recovered.{shown_status}
use terminator.Links.Requests.{Request, run}
use terminator.Links.Requests.Kept.{run-IsCoherent}
use mathlib.Core.Option as Options
use mathlib.Core.Option.{none-ne-some}
use terminator.Links.Control.Modes.{served_server}
use terminator.Links.Control.Shown.{get_link-mutate_ne}
use terminator.Links.Control.Steps.{eq_refl}
use terminator.Links.Services.{
  Storages, check_link_status, get_active_storage, set_storage, get_stub_data, add_stub_data,
  delete_stub_data, delete_record,
}
use terminator.Base.{
  ℕ, ℤ, List, [], ◌∷◌, ◌++◌, Option, none, some, ok, err, link_status, ◌>>=◌, ◌≡◌, ◌≢◌, refl, ap,
  ◌∙◌,
}

module _ (p : Platform) (storages : Storages p) where
  unlinked-throw :
      (id : ℕ) (version number : ℤ) (d : StubData) (s : Control p)
      → get_link p id s ≡ none
      → (get_stub_data p storages id s ≡ err link_status)
        × (add_stub_data p storages id d s ≡ (s, err link_status))
        × (delete_stub_data p storages id number s ≡ (s, err link_status))
        × (delete_record p storages id version s ≡ (s, err link_status))
  unfolding get_stub_data add_stub_data delete_stub_data delete_record get_active_storage
      check_link_status
  unlinked-throw id version number d s e = (
    rw (get_stub_data, get_active_storage, check_link_status, e) refl,
    rw (add_stub_data, get_active_storage, check_link_status, e) refl,
    rw (delete_stub_data, get_active_storage, check_link_status, e) refl,
    rw (delete_record, e) refl,
  )

  -- A link whose row shows `stopped` has no server, hence no object in the map of links.
  stopped-unlinked :
      (id : ℕ) (s : Control p)
      → IsCoherent p s
      → shown_status id s.link_table.rows ≡ some stopped
      → get_link p id s ≡ none
  unfolding get_link
  stopped-unlinked id s (served, shown, numbered) e =
      rw
        (
          get_link,
          (unlinked (get id s.link_id_server_map) (get id s.link_id_link_map)
              (find_row id s.link_table.rows) (served id) (shown id) e),
        )
        refl
    where
      unlinked :
          (server : Option Server) (link : Option ℕ) (row : Option Row)
          → ServerAgrees p s.heap s.next_ref id server link
          → StatusAgrees server row
          → Options.map (λ r. r.work_status) row ≡ some stopped
          → link ≡ none
      unlinked none link row h a f = h
      unlinked (some server) link none h a f = absurd (none-ne-some stopped f)
      unlinked (some server) link (some r) h a f = cc

  -- Whatever requests are performed from a coherent state, when the table then shows a link as
  -- stopped, the calls of the services for that link throw, and change nothing.
  pub services-throw :
      (rs : List Request) (id : ℕ) (version number : ℤ) (d : StubData) (s : Control p)
      → IsCoherent p s
      → shown_status id (run p rs s).link_table.rows ≡ some stopped
      → let s' = run p rs s in
        (get_stub_data p storages id s' ≡ err link_status)
        × (add_stub_data p storages id d s' ≡ (s', err link_status))
        × (delete_stub_data p storages id number s' ≡ (s', err link_status))
        × (delete_record p storages id version s' ≡ (s', err link_status))
  services-throw rs id version number d s h e =
      unlinked-throw id version number d (run p rs s)
        (stopped-unlinked id (run p rs s) (run-IsCoherent p rs s h) e)

  get_active_storage-served :
      (id : ℕ) (server : Server) (storage : p.Storage) (s : Control p)
      → get id s.link_id_link_map ≡ some server.link
      → (s.heap server.link).storage ≡ some storage
      → get_active_storage p storages id s ≡ ok storage
  unfolding get_active_storage check_link_status get_link
  get_active_storage-served id server storage s e f =
      rw (get_active_storage, check_link_status, get_link, e, f) refl

  set_storage-mutate :
      (id : ℕ) (server : Server) (storage : p.Storage) (s : Control p)
      → get id s.link_id_link_map ≡ some server.link
      → set_storage p storages id storage s
        ≡ mutate p server.link (λ l. record l { storage = some storage }) s
  unfolding set_storage
  set_storage-mutate id server storage s e = rw (set_storage, e) refl

  get_active_storage-get_link :
      (j : ℕ) (s s' : Control p)
      → get_link p j s' ≡ get_link p j s
      → get_active_storage p storages j s' ≡ get_active_storage p storages j s
  unfolding get_active_storage check_link_status
  get_active_storage-get_link j s s' e = rw (get_active_storage, check_link_status, e) refl

  -- Another link's object keeps its storage.
  get_active_storage-other :
      (id j : ℕ) (server : Server) (storage : p.Storage) (s : Control p)
      → get id s.link_id_server_map ≡ some server
      → IsServed p s
      → id ≢ j
      → get_active_storage p storages j (set_storage p storages id storage s)
        ≡ get_active_storage p storages j s
  get_active_storage-other id j server storage s e served ne =
      get_active_storage-get_link j s (set_storage p storages id storage s) (
        ap (get_link p j)
          (set_storage-mutate id server storage s (served_server p id server s e served).0)
        ∙ get_link-mutate_ne p id j server (λ l. record l { storage = some storage }) s e served ne)

  set_storage-served :
      (id : ℕ) (server : Server) (storage : p.Storage) (s : Control p)
      → get id s.link_id_link_map ≡ some server.link
      → ((set_storage p storages id storage s).heap server.link).storage ≡ some storage
  unfolding set_storage mutate
  set_storage-served id server storage s e = rw (set_storage, e) (rw (eq_refl p server.link) refl)

  set_storage-map :
      (id j : ℕ) (server : Server) (storage : p.Storage) (s : Control p)
      → get id s.link_id_link_map ≡ some server.link
      → get j (set_storage p storages id storage s).link_id_link_map ≡ get j s.link_id_link_map
  unfolding set_storage mutate
  set_storage-map id j server storage s e = rw (set_storage, e) refl

  -- Where links with servers share their objects with the map of links, and the storage of a link
  -- that has a server lists its stubs and takes a new one, adding that stub to the link returns its
  -- number. Afterwards the server's object holds the changed storage, `getStubData` of the link lists
  -- the stubs from before and then the new one with its number, and of another link what it listed
  -- before.
  pub add_stub_data-isolated :
      (id j : ℕ) (d : StubData) (server : Server) (storage after : p.Storage) (number : ℤ)
      (before : List StubData) (s : Control p)
      → IsServed p s
      → get id s.link_id_server_map ≡ some server
      → (s.heap server.link).storage ≡ some storage
      → storages.get_stub_data storage ≡ ok before
      → storages.put_stub_data d storage ≡ (after, ok number)
      → id ≢ j
      → (s' : Control p) × (add_stub_data p storages id d s ≡ (s', ok number))
        × ((s'.heap server.link).storage ≡ some after)
        × (get_stub_data p storages id s' ≡ ok (before ++ (record d { id = some number } ∷ [])))
        × (get_stub_data p storages j s' ≡ get_stub_data p storages j s)
  unfolding add_stub_data get_stub_data
  add_stub_data-isolated id j d server storage after number before s served e f lists puts ne =
      let linked = (served_server p id server s e served).0 in
      let active =
        get_active_storage-served id server after (set_storage p storages id after s)
          (set_storage-map id id server after s linked ∙ linked)
          (set_storage-served id server after s linked) in
      (
        set_storage p storages id after s,
        rw (add_stub_data, get_active_storage-served id server storage s linked f, puts) refl,
        set_storage-served id server after s linked,
        rw (get_stub_data, active)
            (storages.get-put_stub_data d storage after number before puts lists),
        ap (λ o. o >>= storages.get_stub_data)
            (get_active_storage-other id j server after s e served ne),
      )
