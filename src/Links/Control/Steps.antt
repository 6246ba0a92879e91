-- ===== src/Links/Control/Steps.antt =====
-- What the calls on links do to the state once their tests are decided.
use terminator.Links.Table.{
  Platform, Link, Table, Row, Platform, ServerStatus, running, stopped, update_link, update_at,
  update_row, sets_column, select_link_by_id, link_map, find_row, set_column, WorkMode,
}
use terminator.Links.Table.Rows.{find_row-id}
use terminator.Links.Maps.{get, remove}
use terminator.Links.Control.{
  Control, Server, modify_link, prepare, config_link, start_new, start_server, register, mutate,
  stop_server, change_work_mode, server_change_work_mode,
}
use terminator.Base.{
  ℕ, true, false, map, Option, none, some, ok, err, link_status, null_pointer, ◌==◌, ◌≡◌, ◌≢◌, refl,
  sym, ◌∙◌, ap, arith,
}
use mathlib.Core.Option as Options
use mathlib.Core.Option.{some-injective}

module _ (p : Platform) where
  sets_column-status : (l : Link p) (x : ServerStatus) → l.status ≡ some x → sets_column p l ≡ true
  unfolding sets_column
  sets_column-status l x e = ground arith

  -- The state with the rows of a link's id overwritten.
  abbrev pub modified : Link p → Control p → Control p
  modified l s = record s {
    link_table = record s.link_table { rows = map (update_at p l) s.link_table.rows };
  }

  pub modify_link-ok :
      (l : Link p) (s : Control p)
      → sets_column p l ≡ true
      → modify_link p l s ≡ (modified l s, ok tt)
  unfolding modify_link update_link
  modify_link-ok l s e = rw (modify_link, e) refl

  pub modify_link-status :
      (l : Link p) (x : ServerStatus) (s : Control p)
      → l.status ≡ some x
      → modify_link p l s ≡ (modified l s, ok tt)
  modify_link-status l x s e = modify_link-ok l s (sets_column-status l x e)

  pub update_at-work_status :
      (id : ℕ) (l : Link p) (r : Row)
      → l.id ≡ some id
      → r.id ≡ id
      → (update_at p l r).work_status ≡ set_column l.status r.work_status
  unfolding update_at update_row
  update_at-work_status id l r e f = ground arith

  pub update_at-work_status_none :
      (l : Link p) (r : Row) → l.status ≡ none → (update_at p l r).work_status ≡ r.work_status
  unfolding update_at update_row
  update_at-work_status_none l r e = ground arith

  pub select_link_by_id-some :
      (id : ℕ) (t : Table) (l : Link p)
      → select_link_by_id p id t ≡ some l
      → (r : Row) × (find_row id t.rows ≡ some r) × (l ≡ link_map p r) × (l.id ≡ some id)
  unfolding select_link_by_id link_map
  select_link_by_id-some id t l h = go (find_row id t.rows) refl h
    where
      go :
          (o : Option Row)
          → find_row id t.rows ≡ o
          → Options.map (link_map p) o ≡ some l
          → (r : Row) × (find_row id t.rows ≡ some r) × (l ≡ link_map p r) × (l.id ≡ some id)
      go none e f = cc
      go (some r) e f = (
        r,
        e,
        sym (some-injective _ _ f),
        sym (ap (λ k. k.id) (some-injective _ _ f)) ∙ ap some (find_row-id id t.rows r e),
      )

  pub select_link_by_id-none :
      (id : ℕ) (t : Table) → select_link_by_id p id t ≡ none → find_row id t.rows ≡ none
  unfolding select_link_by_id
  select_link_by_id-none id t h = go (find_row id t.rows) h
    where
      go : (o : Option Row) → Options.map (link_map p) o ≡ none → o ≡ none
      go none f = refl
      go (some r) f = cc

  pub eq_refl : (n : ℕ) → (n == n) ≡ true
  eq_refl n = ground arith

  pub eq_false : (m n : ℕ) → m ≢ n → (m == n) ≡ false
  eq_false m n ne = ground arith

  -- The state after a new server was started.
  abbrev pub started : ℕ → Link p → ℕ → Control p → Control p
  started id c port s =
      modified (record c { status = some running })
        (mutate p s.next_ref (λ o. record o { status = some running }) (register p id c port s))

  pub start_new-ok :
      (id : ℕ) (l c : Link p) (port : ℕ) (s : Control p)
      → prepare p l s ≡ ok (c, port)
      → start_new p id l s ≡ (started id c port s, ok tt)
  unfolding start_new register mutate
  start_new-ok id l c port s e =
      rw (start_new, e, eq_refl s.next_ref)
        (modify_link-status (record c { status = some running }) running _ refl)

  pub start_new-err :
      (id : ℕ) (l : Link p) (x : _) (s : Control p)
      → prepare p l s ≡ err x
      → start_new p id l s ≡ (s, err x)
  unfolding start_new
  start_new-err id l x s e = rw (start_new, e) refl

  -- What `startServer` does when the link has no row, has a server, or needs one.
  pub start_server-none :
      (id : ℕ) (s : Control p)
      → select_link_by_id p id s.link_table ≡ none
      → start_server p id s ≡ (s, ok tt)
  unfolding start_server
  start_server-none id s e = rw (start_server, e) refl

  pub start_server-some :
      (id : ℕ) (l : Link p) (server : Server) (s : Control p)
      → select_link_by_id p id s.link_table ≡ some l
      → get id s.link_id_server_map ≡ some server
      → start_server p id s ≡ (modified (record l { status = some running }) s, ok tt)
  unfolding start_server
  start_server-some id l server s e f =
      rw (start_server, e, f)
        (modify_link-status (record l { status = some running }) running s refl)

  pub start_server-start_new :
      (id : ℕ) (l : Link p) (s : Control p)
      → select_link_by_id p id s.link_table ≡ some l
      → get id s.link_id_server_map ≡ none
      → start_server p id s ≡ start_new p id l s
  unfolding start_server
  start_server-start_new id l s e f = rw (start_server, e, f) refl

  -- The state after a server was stopped.
  abbrev pub removed : ℕ → Link p → Control p → Control p
  removed id l s =
      modified (record l { status = some stopped })
        (record s {
          link_id_server_map = remove id s.link_id_server_map;
          link_id_link_map = remove id s.link_id_link_map;
        })

  pub stop_server-none :
      (id : ℕ) (s : Control p)
      → select_link_by_id p id s.link_table ≡ none
      → stop_server p id s ≡ (s, ok tt)
  unfolding stop_server
  stop_server-none id s e = rw (stop_server, e) refl

  pub stop_server-some :
      (id : ℕ) (l : Link p) (s : Control p)
      → select_link_by_id p id s.link_table ≡ some l
      → stop_server p id s ≡ (removed id l s, ok tt)
  unfolding stop_server
  stop_server-some id l s e =
      rw (stop_server, e) (modify_link-status (record l { status = some stopped }) stopped _ refl)

  -- What `changeWorkMode` does without a server, without a row, and with both.
  pub change_work_mode-none :
      (id : ℕ) (mode : WorkMode) (s : Control p)
      → get id s.link_id_server_map ≡ none
      → change_work_mode p id mode s ≡ (s, err link_status)
  unfolding change_work_mode
  change_work_mode-none id mode s e = rw (change_work_mode, e) refl

  pub change_work_mode-deleted :
      (id : ℕ) (mode : WorkMode) (server : Server) (s : Control p)
      → get id s.link_id_server_map ≡ some server
      → select_link_by_id p id s.link_table ≡ none
      → change_work_mode p id mode s
        ≡ (server_change_work_mode p id server mode s, err null_pointer)
  unfolding change_work_mode
  change_work_mode-deleted id mode server s e f = rw (change_work_mode, e, f) refl

  sets_column-work_mode :
      (l : Link p) (mode : WorkMode) → l.work_mode ≡ some mode → sets_column p l ≡ true
  unfolding sets_column
  sets_column-work_mode l mode e = ground arith

  pub change_work_mode-some :
      (id : ℕ) (mode : WorkMode) (server : Server) (l : Link p) (s : Control p)
      → get id s.link_id_server_map ≡ some server
      → select_link_by_id p id s.link_table ≡ some l
      → change_work_mode p id mode s ≡ (
        modified (record l { work_mode = some mode }) (server_change_work_mode p id server mode s),
        ok tt,
      )
  unfolding change_work_mode
  change_work_mode-some id mode server l s e f =
      rw (change_work_mode, e, f)
        (modify_link-ok (record l { work_mode = some mode }) _
          (sets_column-work_mode (record l { work_mode = some mode }) mode refl))

  -- Configuring a link sets its plugins and its storage alone.
  pub config_link-keeps :
      (l c : Link p)
      → config_link p l ≡ ok c
      → (c.id ≡ l.id) × (c.status ≡ l.status) × (c.work_mode ≡ l.work_mode)
  unfolding config_link
  config_link-keeps l c h = ground arith
