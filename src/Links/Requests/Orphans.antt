-- ===== src/Links/Requests/Orphans.antt =====
-- The server of a link that is deleted while it runs.
use terminator.Links.Table.{
  Platform, Link, Table, Row, update_at, find_row, WorkMode, insert_link, delete_link, sets_column,
  select_link_by_id, running,
}
use terminator.Links.Table.Rows.{
  find_row-append, find_row-update, find_row-delete_self, find_row-delete_ne,
}
use terminator.Links.Maps.{get, put, get-put_self, get-put_ne, get-remove_ne}
use terminator.Links.Control.{
  Control, Server, new_server, start_server, stop_server, change_work_mode, prepare, start_new,
  server_change_work_mode, register, mutate,
}
use terminator.Links.Control.Steps.{
  modify_link-ok, start_server-none, start_server-some, start_server-start_new, start_new-ok,
  start_new-err, stop_server-none, stop_server-some, change_work_mode-none,
  change_work_mode-deleted, change_work_mode-some,
}
use terminator.Links.Requests.{
  Request, starts, stops, deletes, connects, changes, adds, updates, form_link, add_link, connect,
  has_pipeline, add_channel, perform, run,
}
use terminator.Links.Requests.Kept.{form_row}
use terminator.Base.{
  ℕ, ◌<◌, List, [], ◌∷◌, map, none, some, Result, ok, err, ◌≡◌, ◌≢◌, refl, sym, ◌∙◌, ap, arith,
  Option-cases, Bool-cases, inl, inr,
}
use native.Mathlib.Decide.{ℕ_discrete}
use mathlib.Core.Option.{some-injective}
use mathlib.Core.Path.{subst}

module _ (p : Platform) where
  -- The link has a server that listens on the port.
  abbrev pub Listens : ℕ → ℕ → Control p → Type 0
  Listens id port s =
      (server : Server) × (get id s.link_id_server_map ≡ some server) × (server.local_port ≡ port)

  -- A server that listens on the port for a link whose row can be selected no more.
  abbrev pub IsOrphan : ℕ → ℕ → Control p → Type 0
  IsOrphan id port s =
      (id < s.link_table.auto_increment)
      × (find_row id s.link_table.rows ≡ none)
      × Listens id port s

  select-none : (id : ℕ) (t : Table) → find_row id t.rows ≡ none → select_link_by_id p id t ≡ none
  unfolding select_link_by_id
  select-none id t e = rw e refl

  update-none :
      (id : ℕ) (l : Link p) (rs : List Row)
      → find_row id rs ≡ none
      → find_row id (map (update_at p l) rs) ≡ none
  update-none id l rs e = rw (find_row-update p id l rs, e) refl

  start_other :
      (id j port : ℕ) (s : Control p)
      → j ≢ id
      → IsOrphan id port s
      → IsOrphan id port (start_server p j s).0
  unfolding register mutate
  start_other id j port s ne (lt, gone, (server, e, q)) =
      elim (Option-cases (select_link_by_id p j s.link_table)) [
        | inl f ↦ rw (start_server-none p j s f) (lt, gone, (server, e, q))
        | inr (l, f) ↦ elim (Option-cases (get j s.link_id_server_map)) [
          | inr (other, g) ↦
              rw (start_server-some p j l other s f g)
                (lt, update-none id _ s.link_table.rows gone, (server, e, q))
          | inl g ↦ rw (start_server-start_new p j l s f g) (go l (prepare p l s) refl)
        ]
      ]
    where
      go :
          (l : Link p) (o : Result (Link p × ℕ))
          → prepare p l s ≡ o
          → IsOrphan id port (start_new p j l s).0
      go l (err x) h = rw (start_new-err p j l x s h) (lt, gone, (server, e, q))
      go l (ok (c, n)) h = rw (start_new-ok p j l c n s h) (
        lt,
        update-none id (record c { status = some running }) s.link_table.rows gone,
        (server, get-put_ne id j (new_server s.next_ref n) s.link_id_server_map ne ∙ e, q),
      )

  stop_other :
      (id j port : ℕ) (s : Control p)
      → j ≢ id
      → IsOrphan id port s
      → IsOrphan id port (stop_server p j s).0
  stop_other id j port s ne (lt, gone, (server, e, q)) =
      elim (Option-cases (select_link_by_id p j s.link_table)) [
        | inl f ↦ rw (stop_server-none p j s f) (lt, gone, (server, e, q))
        | inr (l, f) ↦ rw (stop_server-some p j l s f) (
          lt,
          update-none id _ s.link_table.rows gone,
          (server, get-remove_ne id j s.link_id_server_map ne ∙ e, q),
        )
      ]

  -- Another server in the place of one with the same port keeps an orphan.
  put-IsOrphan :
      (id j : ℕ) (a b : Server) (servers : List (ℕ × Server)) (port : ℕ)
      → get j servers ≡ some a
      → b.local_port ≡ a.local_port
      → ((server : Server) × (get id servers ≡ some server) × (server.local_port ≡ port))
      → (server : Server) × (get id (put j b servers) ≡ some server) × (server.local_port ≡ port)
  put-IsOrphan id j a b servers port e same (server, f, q) = elim (ℕ_discrete j id) [
    | no ne ↦ (server, get-put_ne id j b servers ne ∙ f, q)
    | yes here ↦ (
      b,
      subst (λ k. get k (put j b servers) ≡ some b) here (get-put_self j b servers),
      same
          ∙ ap (λ x. x.local_port)
              (some-injective a server (sym e ∙ ap (λ k. get k servers) here ∙ f))
          ∙ q,
    )
  ]

  -- A mode change and a client that connects replace a server by one on the same port.
  change-IsOrphan :
      (id j port : ℕ) (mode : WorkMode) (s : Control p)
      → IsOrphan id port s
      → IsOrphan id port (change_work_mode p j mode s).0
  unfolding server_change_work_mode mutate
  change-IsOrphan id j port mode s (lt, gone, kept) =
      elim (Option-cases (get j s.link_id_server_map)) [
        | inl e ↦ rw (change_work_mode-none p j mode s e) (lt, gone, kept)
        | inr (server, e) ↦
            let kept' =
              put-IsOrphan id j server (record server { other_channels = [] }) s.link_id_server_map
                port e refl kept in
            elim (Option-cases (select_link_by_id p j s.link_table)) [
              | inl f ↦ rw (change_work_mode-deleted p j mode server s e f) (lt, gone, kept')
              | inr (l, f) ↦ rw (change_work_mode-some p j mode server l s e f) (
                lt,
                update-none id (record l { work_mode = some mode }) s.link_table.rows gone,
                kept',
              )
            ]
      ]

  connect-IsOrphan :
      (id j port : ℕ) (s : Control p) → IsOrphan id port s → IsOrphan id port (connect p j s)
  unfolding connect add_channel
  connect-IsOrphan id j port s (lt, gone, kept) = elim (Option-cases (get j s.link_id_server_map)) [
    | inl e ↦ rw (connect, e) (lt, gone, kept)
    | inr (server, e) ↦ elim (Option-cases (s.heap server.link).work_mode) [
      | inl f ↦ rw (connect, e, f) (lt, gone, kept)
      | inr (mode, f) ↦ elim (Bool-cases (has_pipeline p mode (s.heap server.link))) [
        | inl g ↦
            rw (connect, e, f, g)
              (lt, gone, put-IsOrphan id j server _ s.link_id_server_map port e refl kept)
        | inr g ↦ rw (connect, e, f, g) (lt, gone, kept)
      ]
    ]
  ]

  delete-IsOrphan :
      (id j port : ℕ) (s : Control p)
      → IsOrphan id port s
      → IsOrphan id port (record s { link_table = delete_link j s.link_table })
  unfolding delete_link
  delete-IsOrphan id j port s (lt, gone, kept) = (lt, go, kept)
    where
      go : find_row id (delete_link j s.link_table).rows ≡ none
      go = elim (ℕ_discrete j id) [
        | yes here ↦
            subst (λ k. find_row k (delete_link j s.link_table).rows ≡ none) here
              (find_row-delete_self j s.link_table)
        | no ne ↦ find_row-delete_ne id j s.link_table ne ∙ gone
      ]

  absent-start :
      (id port : ℕ) (s : Control p) → IsOrphan id port s → start_server p id s ≡ (s, ok tt)
  absent-start id port s (lt, gone, kept) =
      start_server-none p id s (select-none id s.link_table gone)

  absent-stop : (id port : ℕ) (s : Control p) → IsOrphan id port s → stop_server p id s ≡ (s, ok tt)
  absent-stop id port s (lt, gone, kept) =
      stop_server-none p id s (select-none id s.link_table gone)

  perform-IsOrphan :
      (id port : ℕ) (r : Request) (s : Control p)
      → IsOrphan id port s
      → IsOrphan id port (perform p r s).0
  unfolding perform form_link add_link insert_link sets_column
  perform-IsOrphan id port (starts j) s h = elim (ℕ_discrete j id) [
    | yes here ↦
        subst (λ k. IsOrphan id port (start_server p k s).0) (sym here)
          (rw (absent-start id port s h) h)
    | no ne ↦ start_other id j port s ne h
  ]
  perform-IsOrphan id port (stops j) s h = elim (ℕ_discrete j id) [
    | yes here ↦
        subst (λ k. IsOrphan id port (stop_server p k s).0) (sym here)
          (rw (absent-stop id port s h) h)
    | no ne ↦ stop_other id j port s ne h
  ]
  perform-IsOrphan id port (deletes j) s h = delete-IsOrphan id j port s h
  perform-IsOrphan id port (connects j) s h = connect-IsOrphan id j port s h
  perform-IsOrphan id port (changes j mode) s h = change-IsOrphan id j port mode s h
  perform-IsOrphan id port (adds f) s (lt, gone, kept) = (
    omega (arith, lt),
    find_row-append id s.link_table.rows (form_row s.link_table.auto_increment f)
          (λ q. omega (arith, q, lt))
        ∙ gone,
    kept,
  )
  perform-IsOrphan id port (updates j f) s (lt, gone, kept) =
      rw (modify_link-ok p (form_link p (some j) f) s refl)
        (lt, update-none id (form_link p (some j) f) s.link_table.rows gone, kept)

  run-IsOrphan :
      (id port : ℕ) (rs : List Request) (s : Control p)
      → IsOrphan id port s
      → IsOrphan id port (run p rs s)
  unfolding run
  run-IsOrphan id port [] s h = h
  run-IsOrphan id port (r ∷ rs) s h =
      run-IsOrphan id port rs (perform p r s).0 (perform-IsOrphan id port r s h)

  -- A link whose number was given out and which has a server is deleted: after any further requests
  -- it has a server that listens on the same port.
  pub deletes-run :
      (id : ℕ) (server : Server) (rs : List Request) (s : Control p)
      → id < s.link_table.auto_increment
      → get id s.link_id_server_map ≡ some server
      → Listens id server.local_port (run p (deletes id ∷ rs) s)
  unfolding run perform delete_link
  deletes-run id server rs s lt e =
      (run-IsOrphan id server.local_port rs _
        (lt, find_row-delete_self id s.link_table, (server, e, refl))).2
