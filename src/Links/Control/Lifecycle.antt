-- ===== src/Links/Control/Lifecycle.antt =====
-- A server that is started and stopped again.
use terminator.Links.Table.{
  Platform, Link, running, stopped, update_at, find_row, link_map, select_link_by_id,
}
use terminator.Links.Table.Rows.{find_row-update, find_row-id, update_at-id}
use terminator.Links.Maps.{get, get-put_self, remove-put}
use terminator.Links.Control.{
  Control, new_server, prepare, start_server, stop_server, get_link, register, mutate,
}
use terminator.Links.Control.Steps.{
  eq_refl, started, removed, select_link_by_id-some, start_server-start_new, start_new-ok,
  start_new-err, stop_server-some,
}
use terminator.Links.Control.Coherent.{StatusAgrees, StatusAgrees-set}
use terminator.Base.{ℕ, none, some, ok, err, ◌≡◌, refl, ◌∙◌, ap}
use mathlib.Core.Option as Options

module _ (p : Platform) where
  -- A start that throws changes nothing.
  pub start_server-throws :
      (id : ℕ) (l : Link p) (x : _) (s : Control p)
      → select_link_by_id p id s.link_table ≡ some l
      → get id s.link_id_server_map ≡ none
      → prepare p l s ≡ err x
      → start_server p id s ≡ (s, err x)
  start_server-throws id l x s e f g =
      start_server-start_new p id l s e f ∙ start_new-err p id l x s g

  -- The row of a link that was just started is selected still.
  select-started :
      (id : ℕ) (l c : Link p) (port : ℕ) (s : Control p)
      → select_link_by_id p id s.link_table ≡ some l
      → (k : Link p) × (select_link_by_id p id (started p id c port s).link_table ≡ some k)
        × (k.id ≡ some id)
  unfolding register mutate select_link_by_id link_map
  select-started id l c port s e =
      let (r, row, same, named) = select_link_by_id-some p id s.link_table l e in
      let c' = record c { status = some running } in
      (
        link_map p (update_at p c' r),
        ap (Options.map (link_map p))
            (find_row-update p id c' s.link_table.rows ∙ ap (Options.map (update_at p c')) row),
        ap some (update_at-id p c' r ∙ find_row-id id s.link_table.rows r row),
      )

  -- The link object is configured and running, and its server listens on the port.
  abbrev pub IsUp : ℕ → Link p → ℕ → Control p → Control p → Type 0
  IsUp id c port s mid =
      (get_link p id mid ≡ some (record c { status = some running }))
      × (get id mid.link_id_server_map ≡ some (new_server s.next_ref port))

  -- Both maps are what they were, and the table shows that the link is stopped.
  abbrev pub IsDownAgain : ℕ → Control p → Control p → Type 0
  IsDownAgain id s s' =
      (s'.link_id_server_map ≡ s.link_id_server_map)
      × (s'.link_id_link_map ≡ s.link_id_link_map)
      × StatusAgrees none (find_row id s'.link_table.rows)

  -- A link that has a row and no server, and that can be configured and bound, is started: `getLink`
  -- returns the configured object as running and the server listens on the port. Stopping it then
  -- returns too, both maps are what they were before the start, and the row, if there is one, shows
  -- `stopped`.
  pub start_server-stop_server :
      (id port : ℕ) (l c : Link p) (s : Control p)
      → select_link_by_id p id s.link_table ≡ some l
      → get id s.link_id_server_map ≡ none
      → get id s.link_id_link_map ≡ none
      → prepare p l s ≡ ok (c, port)
      → (mid s' : Control p) × (start_server p id s ≡ (mid, ok tt))
        × IsUp id c port s mid
        × (stop_server p id mid ≡ (s', ok tt))
        × IsDownAgain id s s'
  unfolding register mutate get_link
  start_server-stop_server id port l c s e f g h =
      let (k, again, named) = select-started id l c port s e in
      (
        started p id c port s,
        removed p id k (started p id c port s),
        start_server-start_new p id l s e f ∙ start_new-ok p id l c port s h,
        (
          rw (get_link, get-put_self id s.next_ref s.link_id_link_map, eq_refl p s.next_ref) refl,
          get-put_self id (new_server s.next_ref port) s.link_id_server_map,
        ),
        stop_server-some p id k (started p id c port s) again,
        (
          remove-put id (new_server s.next_ref port) s.link_id_server_map f,
          remove-put id s.next_ref s.link_id_link_map g,
          StatusAgrees-set p id (record k { status = some stopped }) _ none named refl,
        ),
      )
