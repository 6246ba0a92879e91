-- ===== src/Links/Requests/Kept.antt =====
-- Whatever requests arrive, the maps of `LinkControlServiceImpl` and the table `link` stay coherent.
use terminator.Links.Table.{Platform, Row, stopped, WorkMode, insert_link, delete_link, sets_column}
use terminator.Links.Table.Rows.{
  find_row-append, find_row-append_new, find_row-delete_self, find_row-delete_ne,
}
use terminator.Links.Maps.{get, each_key}
use terminator.Links.Control.{Control, Server, modify_link}
use terminator.Links.Control.Steps.{modify_link-ok}
use terminator.Links.Control.Coherent.{IsCoherent, All-update, StatusAgrees-keep}
use terminator.Links.Control.Kept.{start_server-IsCoherent, stop_server-IsCoherent}
use terminator.Links.Control.Modes.{
  served_server, replaced-IsServed, replaced-IsShown, replaced-IsFresh, change_work_mode-IsCoherent,
}
use terminator.Links.Requests.{
  LinkForm, Request, starts, stops, deletes, connects, changes, adds, updates, form_link, add_link,
  connect, has_pipeline, add_channel, perform, run,
}
use terminator.Base.{
  ℕ, suc, ◌<◌, true, false, List, [], ◌∷◌, ◌++◌, map, none, some, ◌≡◌, refl, arith, All, All-append,
  All-map, ◌==◌, if◌then◌else◌, Option-cases, Bool-cases, inl, inr,
}

-- The row of a link that was just added.
abbrev pub form_row : ℕ → LinkForm → Row
form_row id f = record {
  id = id;
  name = f.name;
  local_port = f.local_port;
  remote_address = f.remote_address;
  remote_port = f.remote_port;
  work_mode = f.work_mode;
  protocol_type = f.protocol_type;
  storage_type = f.storage_type;
  sign_class = f.sign_class;
  extract_class = f.extract_class;
  work_status = stopped;
  is_delete = false;
}

module _ (p : Platform) where
  -- A channel joins those of its server, with the handler of the link's mode.
  joined-IsCoherent :
      (id : ℕ) (server : Server) (mode : WorkMode) (s : Control p)
      → get id s.link_id_server_map ≡ some server
      → (s.heap server.link).work_mode ≡ some mode
      → IsCoherent p s
      → IsCoherent p (add_channel p id server mode s)
  unfolding add_channel
  joined-IsCoherent id server mode s e f (served, shown, numbered) =
      let serves = (served_server p id server s e served).2 in
      (
        replaced-IsServed p id server (server.other_channels ++ (mode ∷ [])) s.heap s e served
            (serves.0, All-append _ server.other_channels (mode ∷ []) serves.1 (f, tt))
            (λ ref ne. refl),
        replaced-IsShown p id server _ s e shown,
        (numbered.0, replaced-IsFresh p id server _ s e numbered),
      )

  connect-IsCoherent : (id : ℕ) (s : Control p) → IsCoherent p s → IsCoherent p (connect p id s)
  unfolding connect
  connect-IsCoherent id s h = elim (Option-cases (get id s.link_id_server_map)) [
    | inl e ↦ rw (connect, e) h
    | inr (server, e) ↦ elim (Option-cases (s.heap server.link).work_mode) [
      | inl f ↦ rw (connect, e, f) h
      | inr (mode, f) ↦ elim (Bool-cases (has_pipeline p mode (s.heap server.link))) [
        | inl g ↦ rw (connect, e, f, g) (joined-IsCoherent id server mode s e f h)
        | inr g ↦ rw (connect, e, f, g) h
      ]
    ]
  ]

  deleted-IsCoherent :
      (id : ℕ) (s : Control p)
      → IsCoherent p s
      → IsCoherent p (record s { link_table = delete_link id s.link_table })
  unfolding delete_link
  deleted-IsCoherent id s (served, shown, (below, fresh)) = (
    served,
    each_key _ id (rw (find_row-delete_self id s.link_table) tt)
        (λ j ne. rw (find_row-delete_ne j id s.link_table ne) (shown j)),
    (All-delete s.link_table.rows below, fresh),
  )
    where
      All-delete :
          (rs : List Row)
          → All (λ r. r.id < s.link_table.auto_increment) rs
          → All
              (λ r. r.id < s.link_table.auto_increment)
              (map (λ r. if r.id == id then record r { is_delete = true } else r) rs)
      All-delete [] h = tt
      All-delete (r ∷ rs) (lt, h) = (ground (arith, lt), All-delete rs h)

  updated-IsCoherent :
      (id : ℕ) (f : LinkForm) (s : Control p)
      → IsCoherent p s
      → IsCoherent p (modify_link p (form_link p (some id) f) s).0
  unfolding form_link sets_column
  updated-IsCoherent id f s (served, shown, (below, fresh)) =
      rw (modify_link-ok p (form_link p (some id) f) s refl) (
        served,
        (λ j. StatusAgrees-keep p j (form_link p (some id) f) s.link_table.rows _ refl (shown j)),
        (All-update p _ (form_link p (some id) f) s.link_table.rows below, fresh),
      )

  added-IsCoherent :
      (f : LinkForm) (s : Control p)
      → IsCoherent p s
      → IsCoherent p (add_link p (form_link p none f) s).0
  unfolding form_link add_link insert_link
  added-IsCoherent f s (served, shown, (below, fresh)) =
      let row = form_row s.link_table.auto_increment f in
      (
        served,
        each_key _ s.link_table.auto_increment
            (rw
              (
                fresh s.link_table.auto_increment (omega arith),
                find_row-append_new s.link_table.rows row below refl,
              )
              refl)
            (λ j ne. rw (find_row-append j s.link_table.rows row ne) (shown j)),
        (
          All-append (λ x. x.id < suc s.link_table.auto_increment) s.link_table.rows (row ∷ [])
              (All-map (λ x lt. omega (arith, lt)) s.link_table.rows below) (omega arith, tt),
          λ j le. fresh j (omega (arith, le)),
        ),
      )

  perform-IsCoherent :
      (r : Request) (s : Control p) → IsCoherent p s → IsCoherent p (perform p r s).0
  unfolding perform
  perform-IsCoherent (starts id) s h = start_server-IsCoherent p id s h
  perform-IsCoherent (stops id) s h = stop_server-IsCoherent p id s h
  perform-IsCoherent (deletes id) s h = deleted-IsCoherent id s h
  perform-IsCoherent (connects id) s h = connect-IsCoherent id s h
  perform-IsCoherent (changes id mode) s h = change_work_mode-IsCoherent p id mode s h
  perform-IsCoherent (adds f) s h = added-IsCoherent f s h
  perform-IsCoherent (updates id f) s h = updated-IsCoherent id f s h

  -- From a state in which it holds, the following holds after any sequence of requests to start,
  -- stop, delete, connect to, change, add and update links, whether they return or throw: a link has
  -- an object in the map of links exactly when it has a server, and it is the server's object and
  -- carries the link's id; every open channel of a server has the handler of the mode that the object
  -- shows; the row of a link that is not deleted shows `running` exactly when the link has a server
  -- (of a deleted link, whose server may still run, the table shows nothing); and numbers that the
  -- table has not given out have neither row nor server.
  pub run-IsCoherent :
      (rs : List Request) (s : Control p) → IsCoherent p s → IsCoherent p (run p rs s)
  unfolding run
  run-IsCoherent [] s h = h
  run-IsCoherent (r ∷ rs) s h = run-IsCoherent rs (perform p r s).0 (perform-IsCoherent r s h)
