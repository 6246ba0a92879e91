-- ===== src/Links/Control/Shown.antt =====
-- What the other readers of a link see after its mode was changed: `getLink` of the service, the table
-- and the channels of the server.
use terminator.Links.Table.{
  Platform, Link, Table, Row, find_row, update_at, update_row, WorkMode, select_link_by_id,
  link_map,
}
use terminator.Links.Table.Rows.{find_row-id, find_row-update}
use terminator.Links.Maps.{get, get-put_self, get-put_ne}
use terminator.Links.Control.{
  Control, Server, change_work_mode, server_change_work_mode, mutate, get_link,
}
use terminator.Links.Control.Steps.{
  eq_refl, eq_false, modified, select_link_by_id-some, change_work_mode-some,
}
use terminator.Links.Control.Coherent.{ServerAgrees, IsServed, find_row-update_ne}
use terminator.Links.Control.Modes.{served_server, links_differ}
use terminator.Base.{ℕ, [], map, some, ok, ◌≡◌, ◌≢◌, refl, ap, Option-cases, inl, inr, arith}
use mathlib.Core.Option as Options
use mathlib.Core.Path.{subst}

module _ (p : Platform) where
  update_at-work_mode :
      (id : ℕ) (mode : WorkMode) (l : Link p) (r : Row)
      → l.id ≡ some id
      → r.id ≡ id
      → (update_at p (record l { work_mode = some mode }) r).work_mode ≡ mode
  unfolding update_at update_row
  update_at-work_mode id mode l r e f = ground arith

  -- The link that is selected after its row was given a mode.
  selected_mode :
      (id : ℕ) (mode : WorkMode) (l : Link p) (r : Row) (s : Control p)
      → l.id ≡ some id
      → find_row id s.link_table.rows ≡ some r
      → Options.map
          (λ k. k.work_mode)
          (select_link_by_id p id (modified p (record l { work_mode = some mode }) s).link_table)
        ≡ some (some mode)
  unfolding select_link_by_id link_map
  selected_mode id mode l r s e row =
      rw (find_row-update p id (record l { work_mode = some mode }) s.link_table.rows, row)
        (ap (λ m. some (some m))
          (update_at-work_mode id mode l r e (find_row-id id s.link_table.rows r row)))

  select-other :
      (id j : ℕ) (l : Link p) (t : Table)
      → l.id ≡ some id
      → id ≢ j
      → select_link_by_id p j (record t { rows = map (update_at p l) t.rows })
        ≡ select_link_by_id p j t
  unfolding select_link_by_id
  select-other id j l t e ne =
      ap (Options.map (link_map p)) (find_row-update_ne p id j l t.rows e ne)

  -- Changing the object of one link leaves what `getLink` returns of another.
  pub get_link-mutate_ne :
      (id j : ℕ) (server : Server) (f : Link p → Link p) (s : Control p)
      → get id s.link_id_server_map ≡ some server
      → IsServed p s
      → id ≢ j
      → get_link p j (mutate p server.link f s) ≡ get_link p j s
  unfolding get_link mutate
  get_link-mutate_ne id j server f s e served ne =
      elim (Option-cases (get j s.link_id_server_map)) [
        | inl g ↦
            rw
              (
                get_link,
                subst (λ o. ServerAgrees p s.heap s.next_ref j o (get j s.link_id_link_map)) g
                    (served j),
              )
              refl
        | inr (other, g) ↦
            rw
              (
                get_link,
                (served_server p j other s g served).0,
                eq_false p other.link server.link
                    (links_differ p id j server other s served e g ne),
              )
              refl
      ]

  -- The service, the table and the server show the mode, and the link `j` shows what it did.
  abbrev pub Shows : ℕ → ℕ → WorkMode → Server → Control p → Control p → Type 0
  Shows id j mode server s s' =
      (get_link p id s' ≡ some (record (s.heap server.link) { work_mode = some mode }))
      × (Options.map (λ k. k.work_mode) (select_link_by_id p id s'.link_table) ≡ some (some mode))
      × (get id s'.link_id_server_map ≡ some (record server { other_channels = [] }))
      × (get_link p j s' ≡ get_link p j s)
      × (select_link_by_id p j s'.link_table ≡ select_link_by_id p j s.link_table)
      × (get j s'.link_id_server_map ≡ get j s.link_id_server_map)

  -- Where links with servers share their objects with the map of links, changing the mode of a link
  -- that has a server and a row returns. `getLink` then returns the object with the new mode, the row
  -- shows it, the server has no open channel, and the object, row and server of any other link are
  -- as before.
  pub change_work_mode-Shows :
      (id j : ℕ) (mode : WorkMode) (server : Server) (l : Link p) (s : Control p)
      → IsServed p s
      → get id s.link_id_server_map ≡ some server
      → select_link_by_id p id s.link_table ≡ some l
      → id ≢ j
      → (s' : Control p) × (change_work_mode p id mode s ≡ (s', ok tt))
        × Shows id j mode server s s'
  unfolding get_link server_change_work_mode mutate
  change_work_mode-Shows id j mode server l s served e f ne =
      let (r, row, same, named) = select_link_by_id-some p id s.link_table l f in
      let l' = record l { work_mode = some mode } in
      (
        _,
        change_work_mode-some p id mode server l s e f,
        (
          rw (get_link, (served_server p id server s e served).0, eq_refl p server.link) refl,
          selected_mode id mode l r s named row,
          get-put_self id (record server { other_channels = [] }) s.link_id_server_map,
          get_link-mutate_ne id j server (λ o. record o { work_mode = some mode }) s e served ne,
          select-other id j l' s.link_table named ne,
          get-put_ne j id (record server { other_channels = [] }) s.link_id_server_map ne,
        ),
      )
