-- ===== src/Links/Control/Recovered.antt =====
-- `recoveryLink` in a new process, whose maps are empty and whose table is that of the process before.
pub mod Loop
use terminator.Links.Table.{
  Platform, Link, Table, Row, ServerStatus, running, stopped, update_at, find_row, link_map,
  select_rows, select_all_link, select_link_by_id, set_column,
}
use terminator.Links.Table.Rows.{find_row-id, find_row-update}
use terminator.Links.Maps.{get, put, get-put_self, get-put_ne, each_key}
use terminator.Links.Control.{
  Control, Server, new_server, prepare, start_new, start_server, recover, recover_one,
  recovery_link, register, mutate, and_then,
}
use terminator.Links.Control.Steps.{
  update_at-work_status, select_link_by_id-some, select_link_by_id-none, started, start_new-ok,
  start_new-err, config_link-keeps, start_server-none, start_server-some, start_server-start_new,
}
use terminator.Links.Control.Coherent.{
  StatusAgrees, IsServed, IsShown, IsNumbered, IsCoherent, find_row-update_ne, All-update,
}
use terminator.Links.Control.Kept.{started-IsServed, prepare-keeps, row-IsFresh}
use terminator.Base.{
  ℕ, Bool, true, false, not, List, [], ◌∷◌, map, Option, none, some, Result, ok, err, null_pointer,
  ◌≡◌, ◌≢◌, refl, sym, ◌∙◌, ap, All, ◌==◌, if◌then◌else◌, Option-cases, Bool-cases, inl, inr, arith,
}
use mathlib.Core.Option as Options
use mathlib.Core.Option.{some-injective, none-ne-some}
use mathlib.Core.Path.{subst}
use native.Mathlib.Decide.{ℕ_discrete}

-- The status that the table shows of a link, if it has a row.
abbrev pub shown_status : ℕ → List Row → Option ServerStatus
shown_status id rs = Options.map (λ r. r.work_status) (find_row id rs)

module _ (p : Platform) where
  -- Writing `running` where the table already says so changes no status.
  shown_status-running :
      (id : ℕ) (l : Link p) (rs : List Row)
      → l.id ≡ some id
      → l.status ≡ some running
      → shown_status id rs ≡ some running
      → (j : ℕ) → shown_status j (map (update_at p l) rs) ≡ shown_status j rs
  shown_status-running id l rs e f h =
      each_key _ id (rw (find_row-update p id l rs) (go (find_row id rs) refl h))
        (λ j ne. ap (Options.map (λ r. r.work_status)) (find_row-update_ne p id j l rs e ne))
    where
      go :
          (o : Option Row)
          → find_row id rs ≡ o
          → Options.map (λ r. r.work_status) o ≡ some running
          → Options.map (λ r. r.work_status) (Options.map (update_at p l) o)
            ≡ Options.map (λ r. r.work_status) o
      go none g k = refl
      go (some r) g k = ap some (
          update_at-work_status p id l r e (find_row-id id rs r g)
          ∙ ap (λ x. set_column x r.work_status) f
          ∙ sym (some-injective _ _ k))

  -- The state of the loop over the table `t`: only links that `t` shows as running have servers, and
  -- the statuses are those of `t`.
  abbrev pub IsRecovering : Table → Control p → Type 0
  IsRecovering t s =
      IsServed p s
      × IsNumbered p s
      × ((id : ℕ) (server : Server)
          → get id s.link_id_server_map ≡ some server
          → shown_status id t.rows ≡ some running)
      × ((id : ℕ) → shown_status id s.link_table.rows ≡ shown_status id t.rows)

  -- No server that runs is lost.
  abbrev pub Extends : Control p → Control p → Type 0
  Extends s s' =
      (id : ℕ) (server : Server)
      → get id s.link_id_server_map ≡ some server
      → (kept : Server) × (get id s'.link_id_server_map ≡ some kept)

  started-IsRecovering :
      (id : ℕ) (r : Row) (l c : Link p) (port : ℕ) (t : Table) (s : Control p)
      → find_row id s.link_table.rows ≡ some r
      → c.id ≡ some id
      → shown_status id t.rows ≡ some running
      → IsRecovering t s
      → IsRecovering t (started p id c port s)
  unfolding register mutate
  started-IsRecovering id r l c port t s row e shown (served, numbered, only, same) =
      let c' = record c { status = some running } in
      let server = new_server s.next_ref port in
      let others : (j : ℕ)
          → id ≢ j
          → get j (put id server s.link_id_server_map) ≡ get j s.link_id_server_map =
        λ j. get-put_ne j id server s.link_id_server_map in
      (
        started-IsServed p id c port s e served,
        (
          All-update p _ c' s.link_table.rows numbered.0,
          row-IsFresh p _ id s.link_table.rows _ _ r row others numbered.0 numbered.1,
        ),
        each_key _ id (λ sv f. shown) (λ j ne sv f. only j sv (sym (others j ne) ∙ f)),
        λ j. shown_status-running id c' s.link_table.rows e refl (same id ∙ shown) j ∙ same j,
      )

  put-Extends :
      (id : ℕ) (server : Server) (s s' : Control p)
      → s'.link_id_server_map ≡ put id server s.link_id_server_map
      → Extends s s'
  put-Extends id server s s' e j sv f = elim (ℕ_discrete id j) [
    | yes here ↦ (
      server,
      ap (get j) e
          ∙ subst (λ k. get k (put id server s.link_id_server_map) ≡ some server) here
              (get-put_self id server s.link_id_server_map),
    )
    | no ne ↦ (sv, ap (get j) e ∙ get-put_ne j id server s.link_id_server_map ne ∙ f)
  ]

  -- What one turn of the loop leaves.
  abbrev pub Recovers : ℕ → Table → Control p → Control p → Type 0
  Recovers id t s s' =
      IsRecovering t s'
      × Extends s s'
      × ((server : Server) × (get id s'.link_id_server_map ≡ some server))

  start_new-Recovers :
      (id : ℕ) (r : Row) (l : Link p) (t : Table) (s s' : Control p)
      → find_row id s.link_table.rows ≡ some r
      → l.id ≡ some id
      → shown_status id t.rows ≡ some running
      → IsRecovering t s
      → start_new p id l s ≡ (s', ok tt)
      → Recovers id t s s'
  unfolding register mutate
  start_new-Recovers id r l t s s' row named shown h e = go (prepare p l s) refl
    where
      go : (o : Result (Link p × ℕ)) → prepare p l s ≡ o → Recovers id t s s'
      go (err x) g = cc (sym (start_new-err p id l x s g) ∙ e)
      go (ok (c, port)) g =
          let named' = (config_link-keeps p l c (prepare-keeps p l c port s g)).0 ∙ named in
          let server = new_server s.next_ref port in
          subst (Recovers id t s) (ap (λ o. o.0) (sym (start_new-ok p id l c port s g) ∙ e)) (
            started-IsRecovering id r l c port t s row named' shown h,
            put-Extends id server s (started p id c port s) refl,
            (server, get-put_self id server s.link_id_server_map),
          )

  pub start_server-Recovers :
      (id : ℕ) (t : Table) (s s' : Control p)
      → shown_status id t.rows ≡ some running
      → IsRecovering t s
      → start_server p id s ≡ (s', ok tt)
      → Recovers id t s s'
  start_server-Recovers id t s s' shown h e =
      elim (Option-cases (select_link_by_id p id s.link_table)) [
        | inl f ↦ absurd (
            none-ne-some running (
              ap (Options.map (λ r. r.work_status))
                (sym (select_link_by_id-none p id s.link_table f))
              ∙ h.3 id
              ∙ shown))
        | inr (l, f) ↦
            let (r, row, same, named) = select_link_by_id-some p id s.link_table l f in
            elim (Option-cases (get id s.link_id_server_map)) [
              | inl g ↦
                  start_new-Recovers id r l t s s' row named shown h
                    (sym (start_server-start_new p id l s f g) ∙ e)
              | inr (server, g) ↦
                  subst (Recovers id t s)
                    (ap (λ o. o.0) (sym (start_server-some p id l server s f g) ∙ e))
                    (
                      (
                        h.0,
                        (
                          All-update p _ (record l { status = some running }) s.link_table.rows
                              h.1.0,
                          h.1.1,
                        ),
                        h.2,
                        λ j.
                            shown_status-running id (record l { status = some running })
                              s.link_table.rows named refl (h.3 id ∙ shown) j
                            ∙ h.3 j,
                      ),
                      (λ j sv k. (sv, k)),
                      (server, g),
                    )
            ]
      ]
