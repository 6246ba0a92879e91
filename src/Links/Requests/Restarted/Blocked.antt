-- ===== src/Links/Requests/Restarted/Blocked.antt =====
-- `recoveryLink` returns, or a link is blocked.
use terminator.Links.Control.{prepare, start_new, start_server, recover, recover_one, and_then}
use terminator.Links.Control.Steps.{
  start_new-ok, start_new-err, start_server-none, start_server-some, start_server-start_new,
}
use terminator.Base.{Exception, Result, err, Option-cases}
use terminator.Links.Table.{Link, select_link_by_id}
use terminator.Links.Table.{Platform, Row, ServerStatus, running, stopped, link_map, select_rows}
use terminator.Links.Maps.{get}
use terminator.Links.Control.{Control}
use terminator.Base.{
  ℕ, true, false, List, [], ◌∷◌, none, some, ok, ◌≡◌, refl, Bool-cases, ◌⊎◌, inl, inr,
}

module _ (p : Platform) where
  pub select_rows-kept :
      (x : Row) (rs : List Row)
      → x.is_delete ≡ false
      → select_rows p (x ∷ rs) ≡ link_map p x ∷ select_rows p rs
  unfolding select_rows
  select_rows-kept x rs e = rw (select_rows, e) refl

  pub select_rows-deleted :
      (x : Row) (rs : List Row) → x.is_delete ≡ true → select_rows p (x ∷ rs) ≡ select_rows p rs
  unfolding select_rows
  select_rows-deleted x rs e = rw (select_rows, e) refl

  -- A link without a server cannot be configured or bound in this state, for this reason.
  abbrev pub IsBlocked : Control p → Exception → Type 0
  IsBlocked s x =
      (id : ℕ) × (l : Link p) × (select_link_by_id p id s.link_table ≡ some l)
      × (get id s.link_id_server_map ≡ none)
      × (prepare p l s ≡ err x)

  -- A call ends by returning, or throws where a link is blocked.
  abbrev pub Ends : Control p × Result {0} Unit → Type 0
  Ends o =
      ((s' : Control p) × (o ≡ (s', ok tt)))
      ⊎ ((s' : Control p) × (x : Exception) × (o ≡ (s', err x)) × IsBlocked s' x)

  start_server-Ends : (id : ℕ) (s : Control p) → Ends (start_server p id s)
  start_server-Ends id s = elim (Option-cases (select_link_by_id p id s.link_table)) [
    | inl e ↦ inl (s, start_server-none p id s e)
    | inr (l, e) ↦ elim (Option-cases (get id s.link_id_server_map)) [
      | inl f ↦ rw (start_server-start_new p id l s e f) (go l e f (prepare p l s) refl)
      | inr (server, f) ↦ inl (_, start_server-some p id l server s e f)
    ]
  ]
    where
      go :
          (l : Link p)
          → select_link_by_id p id s.link_table ≡ some l
          → get id s.link_id_server_map ≡ none
          → (o : Result (Link p × ℕ)) → prepare p l s ≡ o
          → Ends (start_new p id l s)
      go l e f (err x) g = inr (s, x, start_new-err p id l x s g, (id, l, e, f, g))
      go l e f (ok (c, port)) g = inl (_, start_new-ok p id l c port s g)

  recover_one-Ends : (r : Row) (s : Control p) → Ends (recover_one p (link_map p r) s)
  unfolding recover_one link_map
  recover_one-Ends r s = go r.work_status refl
    where
      go : (x : ServerStatus) → r.work_status ≡ x → Ends (recover_one p (link_map p r) s)
      go running e = rw (recover_one, e) (start_server-Ends r.id s)
      go stopped e = inl (s, rw (recover_one, e) refl)

  and_then-Ends :
      (o : Control p × Result {0} Unit) (next : Control p → Control p × Result {0} Unit)
      → Ends o
      → ((s : Control p) → Ends (next s))
      → Ends (and_then o next)
  and_then-Ends o next (inl (s, e)) h = rw e (h s)
  and_then-Ends o next (inr (s, x, e, blocked)) h = inr (s, x, rw e refl, blocked)

  pub recover-Ends : (rs : List Row) (s : Control p) → Ends (recover p (select_rows p rs) s)
  unfolding recover select_rows
  recover-Ends [] s = inl (s, refl)
  recover-Ends (r ∷ rs) s = elim (Bool-cases r.is_delete) [
    | inl e ↦ rw (select_rows-deleted r rs e) (recover-Ends rs s)
    | inr e ↦ rw (select_rows-kept r rs e) (
        and_then-Ends (recover_one p (link_map p r) s) (λ s'. recover p (select_rows p rs) s')
          (recover_one-Ends r s) (λ s'. recover-Ends rs s'))
  ]
