-- ===== src/Links/Control/Kept.antt =====
-- Every call of `LinkControlServiceImpl` keeps the invariant, whether it returns or throws.
use terminator.Links.Table.{
  Platform, Link, Row, running, stopped, update_at, find_row, select_link_by_id,
}
use terminator.Links.Maps.{
  get, put, remove, get-put_self, get-put_ne, get-remove_self, get-remove_ne, each_key,
}
use terminator.Links.Control.{
  Control, Server, new_server, config_link, prepare, start_new, start_server, stop_server, mutate,
  register,
}
use terminator.Links.Control.Steps.{
  eq_refl, eq_false, modified, select_link_by_id-some, started, start_new-ok, start_new-err,
  config_link-keeps, start_server-none, start_server-some, start_server-start_new, removed,
  stop_server-none, stop_server-some,
}
use terminator.Links.Control.Coherent.{
  StatusAgrees, IsServed, IsCoherent, ServerAgrees-frame, find_row-update_ne, StatusAgrees-set,
  All-update, find_row-below, expected,
}
use terminator.Base.{
  ℕ, ◌<◌, ◌≤◌, List, map, none, some, Result, ok, err, ◌≡◌, ◌≢◌, refl, sym, ◌∙◌, ap, arith, All,
  Option-cases, inl, inr,
}

module _ (p : Platform) where
  -- The status of one link is written as its server demands, and the other links' servers stay.
  pub status-IsShown :
      (id : ℕ) (l : Link p) (rs : List Row) (servers servers' : List (ℕ × Server))
      → l.id ≡ some id
      → l.status ≡ some (expected (get id servers'))
      → ((j : ℕ) → id ≢ j → get j servers' ≡ get j servers)
      → ((j : ℕ) → StatusAgrees (get j servers) (find_row j rs))
      → (j : ℕ) → StatusAgrees (get j servers') (find_row j (map (update_at p l) rs))
  status-IsShown id l rs servers servers' e f others shown =
      each_key _ id (StatusAgrees-set p id l rs _ e f)
        (λ j ne. rw (others j ne, find_row-update_ne p id j l rs e ne) (shown j))

  -- A link that has a row has a number that was given out.
  pub row-IsFresh :
      (n id : ℕ) (rs : List Row) (servers servers' : List (ℕ × Server)) (r : Row)
      → find_row id rs ≡ some r
      → ((j : ℕ) → id ≢ j → get j servers' ≡ get j servers)
      → All (λ x. x.id < n) rs
      → ((j : ℕ) → n ≤ j → get j servers ≡ none)
      → (j : ℕ) → n ≤ j
      → get j servers' ≡ none
  row-IsFresh n id rs servers servers' r found others below fresh j le =
      others j (λ e. omega (arith, le, e, find_row-below p n id rs r below found)) ∙ fresh j le

  -- Writing to a row what its server demands keeps the invariant.
  pub modified-IsCoherent :
      (id : ℕ) (l : Link p) (s : Control p)
      → l.id ≡ some id
      → l.status ≡ some (expected (get id s.link_id_server_map))
      → IsCoherent p s
      → IsCoherent p (modified p l s)
  modified-IsCoherent id l s e f (served, shown, numbered) = (
    served,
    status-IsShown id l s.link_table.rows _ _ e f (λ j ne. refl) shown,
    (All-update p _ l s.link_table.rows numbered.0, numbered.1),
  )

  pub started-IsServed :
      (id : ℕ) (c : Link p) (port : ℕ) (s : Control p)
      → c.id ≡ some id
      → IsServed p s
      → IsServed p (started p id c port s)
  unfolding register mutate
  started-IsServed id c port s e served =
      each_key _ id
        (rw
          (
            get-put_self id (new_server s.next_ref port) s.link_id_server_map,
            get-put_self id s.next_ref s.link_id_link_map,
            eq_refl p s.next_ref,
          )
          (refl, omega arith, (e, tt)))
        (λ j ne.
          rw
            (
              get-put_ne j id (new_server s.next_ref port) s.link_id_server_map ne,
              get-put_ne j id s.next_ref s.link_id_link_map ne,
            )
            (ServerAgrees-frame p s.heap (started p id c port s).heap s.next_ref _ j _ _
              (omega arith) (λ sv f lt. rw (eq_false p sv.link s.next_ref (omega (arith, lt))) refl)
              (served j)))

  pub prepare-keeps :
      (l c : Link p) (port : ℕ) (s : Control p)
      → prepare p l s ≡ ok (c, port)
      → config_link p l ≡ ok c
  unfolding prepare
  prepare-keeps l c port s h = ground arith

  start_new-IsCoherent :
      (id : ℕ) (r : Row) (l : Link p) (s : Control p)
      → find_row id s.link_table.rows ≡ some r
      → l.id ≡ some id
      → IsCoherent p s
      → IsCoherent p (start_new p id l s).0
  unfolding register mutate
  start_new-IsCoherent id r l s found e (served, shown, numbered) = go (prepare p l s) refl
    where
      go : (o : Result (Link p × ℕ)) → prepare p l s ≡ o → IsCoherent p (start_new p id l s).0
      go (err x) h = rw (start_new-err p id l x s h) (served, shown, numbered)
      go (ok (c, port)) h =
          let named = (config_link-keeps p l c (prepare-keeps l c port s h)).0 ∙ e in
          let server = new_server s.next_ref port in
          let others : (j : ℕ)
              → id ≢ j
              → get j (put id server s.link_id_server_map) ≡ get j s.link_id_server_map =
            λ j. get-put_ne j id server s.link_id_server_map in
          rw (start_new-ok p id l c port s h) (
            started-IsServed id c port s named served,
            status-IsShown id (record c { status = some running }) s.link_table.rows _ _ named
                (ap (λ o. some (expected o)) (sym (get-put_self id server s.link_id_server_map)))
                others shown,
            (
              All-update p _ (record c { status = some running }) s.link_table.rows numbered.0,
              row-IsFresh _ id s.link_table.rows _ _ r found others numbered.0 numbered.1,
            ),
          )

  pub start_server-IsCoherent :
      (id : ℕ) (s : Control p) → IsCoherent p s → IsCoherent p (start_server p id s).0
  start_server-IsCoherent id s h = elim (Option-cases (select_link_by_id p id s.link_table)) [
    | inl e ↦ rw (start_server-none p id s e) h
    | inr (l, e) ↦
        let (r, row, same, named) = select_link_by_id-some p id s.link_table l e in
        elim (Option-cases (get id s.link_id_server_map)) [
          | inl f ↦
              rw (start_server-start_new p id l s e f) (start_new-IsCoherent id r l s row named h)
          | inr (server, f) ↦ rw (start_server-some p id l server s e f) (
              modified-IsCoherent id (record l { status = some running }) s named
                (ap (λ o. some (expected o)) (sym f)) h)
        ]
  ]

  removed-IsServed :
      (id : ℕ) (l : Link p) (s : Control p) → IsServed p s → IsServed p (removed p id l s)
  removed-IsServed id l s served =
      each_key _ id
        (rw (get-remove_self id s.link_id_server_map) (get-remove_self id s.link_id_link_map))
        (λ j ne.
          rw (get-remove_ne j id s.link_id_server_map ne, get-remove_ne j id s.link_id_link_map ne)
            (served j))

  pub stop_server-IsCoherent :
      (id : ℕ) (s : Control p) → IsCoherent p s → IsCoherent p (stop_server p id s).0
  stop_server-IsCoherent id s h = elim (Option-cases (select_link_by_id p id s.link_table)) [
    | inl e ↦ rw (stop_server-none p id s e) h
    | inr (l, e) ↦
        let (r, row, same, named) = select_link_by_id-some p id s.link_table l e in
        let l' = record l { status = some stopped } in
        let others : (j : ℕ)
            → id ≢ j
            → get j (remove id s.link_id_server_map) ≡ get j s.link_id_server_map =
          λ j. get-remove_ne j id s.link_id_server_map in
        rw (stop_server-some p id l s e) (
          removed-IsServed id l s h.0,
          status-IsShown id l' s.link_table.rows _ _ named
              (ap (λ o. some (expected o)) (sym (get-remove_self id s.link_id_server_map))) others
              h.1,
          (
            All-update p _ l' s.link_table.rows h.2.0,
            row-IsFresh _ id s.link_table.rows _ _ r row others h.2.0 h.2.1,
          ),
        )
  ]
