-- ===== src/Links/Control/Modes.antt =====
-- `changeWorkMode` keeps the invariant, though the server and the map of links share their object, and
-- so does a client that connects.
use terminator.Links.Table.{Platform, Link, Row, find_row, WorkMode, select_link_by_id, link_map}
use terminator.Links.Maps.{get, put, get-put_self, get-put_ne, each_key}
use terminator.Links.Control.{Control, Server, change_work_mode, server_change_work_mode, mutate}
use terminator.Links.Control.Steps.{
  eq_refl, eq_false, select_link_by_id-some, change_work_mode-none, change_work_mode-deleted,
  change_work_mode-some,
}
use terminator.Links.Control.Coherent.{
  Serves, ServerAgrees, StatusAgrees, IsServed, IsShown, IsNumbered, IsCoherent, ServerAgrees-frame,
  expected,
}
use terminator.Links.Control.Kept.{modified-IsCoherent}
use terminator.Base.{
  ℕ, ◌≤◌, List, [], Option, none, some, ◌≡◌, ◌≢◌, refl, sym, ◌∙◌, ap, arith, Option-cases, inl, inr,
}
use mathlib.Core.Path.{subst}
use mathlib.Core.Option.{some-injective, none-ne-some}

module _ (p : Platform) where
  -- What the invariant says of a link that has a server.
  pub served_server :
      (id : ℕ) (server : Server) (s : Control p)
      → get id s.link_id_server_map ≡ some server
      → IsServed p s
      → ServerAgrees p s.heap s.next_ref id (some server) (get id s.link_id_link_map)
  served_server id server s e served =
      subst (λ o. ServerAgrees p s.heap s.next_ref id o (get id s.link_id_link_map)) e (served id)

  -- Two links with servers have two objects.
  pub links_differ :
      (id j : ℕ) (a b : Server) (s : Control p)
      → IsServed p s
      → get id s.link_id_server_map ≡ some a
      → get j s.link_id_server_map ≡ some b
      → id ≢ j
      → b.link ≢ a.link
  links_differ id j a b s served e f ne q = ne (
      some-injective _ _ (
        sym (served_server id a s e served).2.0
        ∙ ap (λ r. (s.heap r).id) (sym q)
        ∙ (served_server j b s f served).2.0))

  -- A server gets other channels and its link object another content; the others are not affected.
  pub replaced-IsServed :
      (id : ℕ) (server : Server) (channels : List WorkMode) (heap' : ℕ → Link p) (s : Control p)
      → get id s.link_id_server_map ≡ some server
      → IsServed p s
      → Serves p id channels (heap' server.link)
      → ((ref : ℕ) → ref ≢ server.link → heap' ref ≡ s.heap ref)
      → (j : ℕ)
      → ServerAgrees p heap' s.next_ref j
          (get j (put id (record server { other_channels = channels }) s.link_id_server_map))
          (get j s.link_id_link_map)
  replaced-IsServed id server channels heap' s e served serves same =
      each_key _ id
        (rw (get-put_self id (record server { other_channels = channels }) s.link_id_server_map)
          ((served_server id server s e served).0, (served_server id server s e served).1, serves))
        (λ j ne.
          rw (get-put_ne j id (record server { other_channels = channels }) s.link_id_server_map ne)
            (ServerAgrees-frame p s.heap heap' s.next_ref s.next_ref j _ _ (omega arith)
              (λ sv f lt. same sv.link (links_differ id j server sv s served e f ne)) (served j)))

  put-others :
      (id : ℕ) (server : Server) (s : Control p) (j : ℕ)
      → id ≢ j
      → get j (put id server s.link_id_server_map) ≡ get j s.link_id_server_map
  put-others id server s j = get-put_ne j id server s.link_id_server_map

  -- Replacing a server by another keeps what the table shows.
  pub replaced-IsShown :
      (id : ℕ) (server server' : Server) (s : Control p)
      → get id s.link_id_server_map ≡ some server
      → IsShown p s
      → (j : ℕ)
      → StatusAgrees (get j (put id server' s.link_id_server_map)) (find_row j s.link_table.rows)
  replaced-IsShown id server server' s e shown =
      each_key _ id
        (rw (get-put_self id server' s.link_id_server_map) (
          go (find_row id s.link_table.rows)
            (subst (λ o. StatusAgrees o (find_row id s.link_table.rows)) e (shown id))))
        (λ j ne. rw (put-others id server' s j ne) (shown j))
    where
      go : (o : Option Row) → StatusAgrees (some server) o → StatusAgrees (some server') o
      go none h = tt
      go (some r) h = h

  pub replaced-IsFresh :
      (id : ℕ) (server server' : Server) (s : Control p)
      → get id s.link_id_server_map ≡ some server
      → IsNumbered p s
      → (j : ℕ) → s.link_table.auto_increment ≤ j
      → get j (put id server' s.link_id_server_map) ≡ none
  replaced-IsFresh id server server' s e (below, fresh) j le =
      put-others id server' s j (λ q.
        none-ne-some server
          (sym (fresh id (subst (λ k. s.link_table.auto_increment ≤ k) (sym q) le)) ∙ e))
      ∙ fresh j le

  server_change_work_mode-IsServed :
      (id : ℕ) (server : Server) (mode : WorkMode) (s : Control p)
      → get id s.link_id_server_map ≡ some server
      → IsServed p s
      → IsServed p (server_change_work_mode p id server mode s)
  unfolding server_change_work_mode mutate
  server_change_work_mode-IsServed id server mode s e served =
      replaced-IsServed id server [] (server_change_work_mode p id server mode s).heap s e served
        (rw (eq_refl p server.link) ((served_server id server s e served).2.0, tt))
        (λ ref ne. rw (eq_false p ref server.link ne) refl)

  server_change_work_mode-IsCoherent :
      (id : ℕ) (server : Server) (mode : WorkMode) (s : Control p)
      → get id s.link_id_server_map ≡ some server
      → IsCoherent p s
      → IsCoherent p (server_change_work_mode p id server mode s)
  unfolding server_change_work_mode mutate
  server_change_work_mode-IsCoherent id server mode s e (served, shown, numbered) = (
    server_change_work_mode-IsServed id server mode s e served,
    replaced-IsShown id server _ s e shown,
    (numbered.0, replaced-IsFresh id server _ s e numbered),
  )

  shown_status :
      (id : ℕ) (l : Link p) (r : Row) (s : Control p)
      → find_row id s.link_table.rows ≡ some r
      → l ≡ link_map p r
      → IsCoherent p s
      → l.status ≡ some (expected (get id s.link_id_server_map))
  unfolding link_map
  shown_status id l r s row same (_, shown, _) =
      ap (λ k. k.status) same
      ∙ ap some (subst (StatusAgrees (get id s.link_id_server_map)) row (shown id))

  pub change_work_mode-IsCoherent :
      (id : ℕ) (mode : WorkMode) (s : Control p)
      → IsCoherent p s
      → IsCoherent p (change_work_mode p id mode s).0
  unfolding server_change_work_mode mutate
  change_work_mode-IsCoherent id mode s h = elim (Option-cases (get id s.link_id_server_map)) [
    | inl e ↦ rw (change_work_mode-none p id mode s e) h
    | inr (server, e) ↦
        let h' = server_change_work_mode-IsCoherent id server mode s e h in
        elim (Option-cases (select_link_by_id p id s.link_table)) [
          | inl f ↦ rw (change_work_mode-deleted p id mode server s e f) h'
          | inr (l, f) ↦
              let (r, row, same, named) = select_link_by_id-some p id s.link_table l f in
              rw (change_work_mode-some p id mode server l s e f) (
                modified-IsCoherent p id (record l { work_mode = some mode })
                  (server_change_work_mode p id server mode s) named
                  (shown_status id l r (server_change_work_mode p id server mode s) row same h') h')
        ]
  ]
