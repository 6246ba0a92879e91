-- ===== src/Links/Requests/Restarted.antt =====
-- A process that starts anew recovers the servers of the links that the table shows as running.
pub mod Blocked
use terminator.Links.Requests.Restarted.Blocked.{
  select_rows-kept, select_rows-deleted, IsBlocked, recover-Ends,
}
use terminator.Links.Control.{prepare, start_new, start_server, recover, recover_one, and_then}
use terminator.Links.Control.Steps.{
  start_new-ok, start_new-err, start_server-none, start_server-some, start_server-start_new,
}
use terminator.Base.{Exception, Result, err, Option-cases}
use terminator.Links.Table.{Link, select_link_by_id}
use terminator.Links.Table.{
  Platform, Table, Row, ServerStatus, running, stopped, find_row, link_map, select_rows,
  select_all_link,
}
use terminator.Links.Table.Rows.{find_row-cases}
use terminator.Links.Maps.{get}
use terminator.Links.Control.{Control, Server, recovery_link}
use terminator.Links.Control.Coherent.{StatusAgrees, IsCoherent}
use terminator.Links.Control.Recovered.{shown_status, IsRecovering}
use terminator.Links.Control.Recovered.Loop.{AllShown, AllServed, recover-Recovers}
use terminator.Links.Requests.{restart}
use terminator.Base.{
  ℕ, true, false, List, [], ◌∷◌, Option, none, some, ok, ◌≡◌, refl, sym, ◌∙◌, ap, All, Bool-cases,
  ◌⊎◌, inl, inr, ◌↔◌,
}
use mathlib.Core.Option as Options
use mathlib.Core.Option.{some-injective, none-ne-some}
use mathlib.Core.Path.{subst}

-- The primary key of the table: a row that can be selected is the one that its id selects.
abbrev pub IsKeyed : List Row → Type 0
IsKeyed rs = All (λ r. r.is_delete ≡ false → find_row r.id rs ≡ some r) rs

module _ (p : Platform) where
  selected-AllShown :
      (t : Table) (rs : List Row)
      → All (λ r. r.is_delete ≡ false → find_row r.id t.rows ≡ some r) rs
      → AllShown p t (select_rows p rs)
  unfolding select_rows link_map
  selected-AllShown t [] h = tt
  selected-AllShown t (r ∷ rs) (found, h) = elim (Bool-cases r.is_delete) [
    | inl e ↦ rw (select_rows, e) (selected-AllShown t rs h)
    | inr e ↦
        rw (select_rows, e)
          (
            (λ id f g.
                rw⁻¹ (some-injective _ _ f) (ap (Options.map (λ x. x.work_status)) (found e) ∙ g)),
            selected-AllShown t rs h,
          )
  ]

  -- A row that is found is among the links that the loop takes.
  AllServed-found :
      (id : ℕ) (rs : List Row) (r : Row) (s : Control p)
      → AllServed p s (select_rows p rs)
      → find_row id rs ≡ some r
      → r.work_status ≡ running
      → (server : Server) × (get id s.link_id_server_map ≡ some server)
  unfolding select_rows link_map find_row
  AllServed-found id [] r s h e f = absurd (none-ne-some r e)
  AllServed-found id (x ∷ rs) r s h e f = elim (find_row-cases id x rs r e) [
    | inl (same, kept, named) ↦
        (first kept).0 id (ap some named) (ap (λ y. some y.work_status) same ∙ ap some f)
    | inr later ↦ AllServed-found id rs r s (rest (Bool-cases x.is_delete)) later f
  ]
    where
      first : x.is_delete ≡ false → AllServed p s (link_map p x ∷ select_rows p rs)
      first d = subst (AllServed p s) (select_rows-kept p x rs d) h

      rest : (x.is_delete ≡ true) ⊎ (x.is_delete ≡ false) → AllServed p s (select_rows p rs)
      rest (inl d) = subst (AllServed p s) (select_rows-deleted p x rs d) h
      rest (inr d) = (first d).1

  -- The state of a new process starts the loop.
  restart-IsRecovering :
      (s : Control p) → IsCoherent p s → IsRecovering p s.link_table (restart p s)
  unfolding restart get
  restart-IsRecovering s (served, shown, (below, fresh)) =
      ((λ id. refl), (below, λ id le. refl), (λ id sv e. cc), (λ id. refl))

  running-served :
      (id : ℕ) (t : Table) (s : Control p)
      → AllServed p s (select_rows p t.rows)
      → shown_status id t.rows ≡ some running
      → (server : Server) × (get id s.link_id_server_map ≡ some server)
  running-served id t s served = go (find_row id t.rows) refl
    where
      go :
          (o : Option Row)
          → find_row id t.rows ≡ o
          → Options.map (λ x. x.work_status) o ≡ some running
          → (server : Server) × (get id s.link_id_server_map ≡ some server)
      go none e f = absurd (none-ne-some running f)
      go (some r) e f = AllServed-found id t.rows r s served e (some-injective _ _ f)

  -- A link whose row says `running` is served, so one without a server is stopped.
  StatusAgrees-recovered :
      (id : ℕ) (t : Table) (s : Control p)
      → IsRecovering p t s
      → AllServed p s (select_rows p t.rows)
      → StatusAgrees (get id s.link_id_server_map) (find_row id s.link_table.rows)
  StatusAgrees-recovered id t s h served =
      go (get id s.link_id_server_map) refl (find_row id s.link_table.rows) refl
    where
      row_status :
          (r : Row)
          → find_row id s.link_table.rows ≡ some r
          → shown_status id t.rows ≡ some r.work_status
      row_status r e = sym (h.3 id) ∙ ap (Options.map (λ x. x.work_status)) e

      idle :
          (x : ServerStatus)
          → shown_status id t.rows ≡ some x
          → get id s.link_id_server_map ≡ none
          → x ≡ stopped
      idle stopped e f = refl
      idle running e f =
          let (server, g) = running-served id t s served e in
          absurd (none-ne-some server (sym f ∙ g))

      go :
          (server : Option Server)
          → get id s.link_id_server_map ≡ server
          → (o : Option Row) → find_row id s.link_table.rows ≡ o
          → StatusAgrees server o
      go server e none f = tt
      go none e (some r) f = idle r.work_status (row_status r f) e
      go (some server) e (some r) f = some-injective _ _ (sym (row_status r f) ∙ h.2 id server e)

  -- The invariant holds again, the table shows of every link what it showed before, and the links that
  -- have a server are those that it showed as running.
  abbrev pub IsRecovered : Control p → Control p → Type 0
  IsRecovered s s' =
      IsCoherent p s'
      × ((id : ℕ) → shown_status id s'.link_table.rows ≡ shown_status id s.link_table.rows)
      × ((id : ℕ)
          → ((server : Server) × (get id s'.link_id_server_map ≡ some server))
            ↔ (shown_status id s.link_table.rows ≡ some running))

  recovery_link-IsRecovered :
      (s s' : Control p)
      → IsCoherent p s
      → IsKeyed s.link_table.rows
      → recovery_link p (restart p s) ≡ (s', ok tt)
      → IsRecovered s s'
  unfolding recovery_link select_all_link restart
  recovery_link-IsRecovered s s' h keyed e =
      let (recovering, kept, served) =
        recover-Recovers p (select_rows p s.link_table.rows) s.link_table (restart p s) s'
          (selected-AllShown s.link_table s.link_table.rows keyed) (restart-IsRecovering s h) e in
      (
        (
          recovering.0,
          (λ id. StatusAgrees-recovered id s.link_table s' recovering served),
          recovering.1,
        ),
        recovering.3,
        (λ id. (
          (λ (server, found). recovering.2 id server found),
          running-served id s.link_table s' served,
        )),
      )

  -- In a new process, after one that kept the invariant and over a table in which each selectable row
  -- is the one that its id selects, `recoveryLink` returns, and then the invariant holds again, the
  -- table shows of every link what it showed before, and a link has a server exactly when its row,
  -- which is not deleted, shows `running`; or it throws in a state in which a link without
  -- a server cannot be configured or bound, for the reason that is thrown.
  pub restart-recovery_link :
      (s : Control p)
      → IsCoherent p s
      → IsKeyed s.link_table.rows
      → ((s' : Control p) × (recovery_link p (restart p s) ≡ (s', ok tt)) × IsRecovered s s')
        ⊎ ((s' : Control p) × (x : Exception) × (recovery_link p (restart p s) ≡ (s', err x))
            × IsBlocked p s' x)
  unfolding recovery_link select_all_link restart
  restart-recovery_link s h keyed = elim (recover-Ends p s.link_table.rows (restart p s)) [
    | inl (s', e) ↦ inl (s', e, recovery_link-IsRecovered s s' h keyed e)
    | inr (s', x, e, blocked) ↦ inr (s', x, e, blocked)
  ]
