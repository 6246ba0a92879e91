-- ===== src/Links/Control/Coherent.antt =====
-- An invariant of `LinkControlServiceImpl` and the table `link`, and the steps that keep it.
use terminator.Links.Table.{
  Platform, Link, Row, ServerStatus, running, stopped, update_at, find_row, set_column, WorkMode,
}
use terminator.Links.Table.Rows.{find_row-id, find_row-update, update_at-id}
use terminator.Links.Control.{Control, Server}
use terminator.Links.Control.Steps.{update_at-work_status, update_at-work_status_none}
use terminator.Links.Maps.{get}
use terminator.Base.{
  ℕ, ◌<◌, ◌≤◌, List, [], ◌∷◌, map, Option, none, some, ◌≡◌, ◌≢◌, refl, sym, ◌∙◌, ap, arith, All,
}
use mathlib.Core.Path.{subst}
use mathlib.Core.Option as Options

-- The status that the table shows of a link.
abbrev pub expected : Option Server → ServerStatus
expected none = stopped
expected (some _) = running

abbrev pub StatusAgrees : Option Server → Option Row → Type 0
StatusAgrees server none = Unit
StatusAgrees server (some r) = r.work_status ≡ expected server

module _ (p : Platform) where
  -- The object is that of the link `id`, and every open channel has the handler of its work mode.
  abbrev pub Serves : ℕ → List WorkMode → Link p → Type 0
  Serves id channels l = (l.id ≡ some id) × All (λ mode. l.work_mode ≡ some mode) channels

  -- A link has a server exactly when it has an object in the map of links, the server's.
  abbrev pub ServerAgrees : (ℕ → Link p) → ℕ → ℕ → Option Server → Option ℕ → Type 0
  ServerAgrees heap next id none link = link ≡ none
  ServerAgrees heap next id (some server) link =
      (link ≡ some server.link)
      × (server.link < next)
      × Serves id server.other_channels (heap server.link)

  abbrev pub IsServed : Control p → Type 0
  IsServed s =
      (id : ℕ)
      → ServerAgrees s.heap s.next_ref id (get id s.link_id_server_map) (get id s.link_id_link_map)

  abbrev pub IsShown : Control p → Type 0
  IsShown s = (id : ℕ) → StatusAgrees (get id s.link_id_server_map) (find_row id s.link_table.rows)

  -- Numbers that the table has not given out have no row and no server.
  abbrev pub IsNumbered : Control p → Type 0
  IsNumbered s =
      All (λ r. r.id < s.link_table.auto_increment) s.link_table.rows
      × ((id : ℕ) → s.link_table.auto_increment ≤ id → get id s.link_id_server_map ≡ none)

  abbrev pub IsCoherent : Control p → Type 0
  IsCoherent s = IsServed s × IsShown s × IsNumbered s

  pub ServerAgrees-frame :
      (heap heap' : ℕ → Link p) (next next' id : ℕ) (server : Option Server) (link : Option ℕ)
      → next ≤ next'
      → ((sv : Server) → server ≡ some sv → sv.link < next → heap' sv.link ≡ heap sv.link)
      → ServerAgrees heap next id server link
      → ServerAgrees heap' next' id server link
  ServerAgrees-frame heap heap' next next' id none link le same h = h
  ServerAgrees-frame heap heap' next next' id (some sv) link le same (e, lt, serves) =
      (e, omega (arith, le, lt), subst (Serves id sv.other_channels) (sym (same sv refl lt)) serves)

  pub update_at-other :
      (id : ℕ) (l : Link p) (r : Row) → l.id ≡ some id → id ≢ r.id → update_at p l r ≡ r
  unfolding update_at
  update_at-other id l r e ne = ground (arith, e, ne)

  pub find_row-update_ne :
      (id j : ℕ) (l : Link p) (rs : List Row)
      → l.id ≡ some id
      → id ≢ j
      → find_row j (map (update_at p l) rs) ≡ find_row j rs
  find_row-update_ne id j l rs e ne = find_row-update p j l rs ∙ go (find_row j rs) refl
    where
      go : (o : Option Row) → find_row j rs ≡ o → Options.map (update_at p l) o ≡ o
      go none f = refl
      go (some r) f = ap some (update_at-other id l r e (λ q. ne (q ∙ find_row-id j rs r f)))

  -- Writing the status that is expected of the link's server.
  pub StatusAgrees-set :
      (id : ℕ) (l : Link p) (rs : List Row) (server : Option Server)
      → l.id ≡ some id
      → l.status ≡ some (expected server)
      → StatusAgrees server (find_row id (map (update_at p l) rs))
  StatusAgrees-set id l rs server e f = rw (find_row-update p id l rs) (go (find_row id rs) refl)
    where
      go :
          (o : Option Row)
          → find_row id rs ≡ o
          → StatusAgrees server (Options.map (update_at p l) o)
      go none g = tt
      go (some r) g =
          update_at-work_status p id l r e (find_row-id id rs r g)
          ∙ ap (λ x. set_column x r.work_status) f

  -- A link without a status leaves that of every row.
  pub StatusAgrees-keep :
      (j : ℕ) (l : Link p) (rs : List Row) (server : Option Server)
      → l.status ≡ none
      → StatusAgrees server (find_row j rs)
      → StatusAgrees server (find_row j (map (update_at p l) rs))
  StatusAgrees-keep j l rs server f h = rw (find_row-update p j l rs) (go (find_row j rs) h)
    where
      go :
          (o : Option Row)
          → StatusAgrees server o
          → StatusAgrees server (Options.map (update_at p l) o)
      go none k = tt
      go (some r) k = update_at-work_status_none p l r f ∙ k

  pub All-update :
      (n : ℕ) (l : Link p) (rs : List Row)
      → All (λ r. r.id < n) rs
      → All (λ r. r.id < n) (map (update_at p l) rs)
  All-update n l [] h = tt
  All-update n l (r ∷ rs) (lt, h) = (omega (arith, lt, update_at-id p l r), All-update n l rs h)

  pub find_row-below :
      (n id : ℕ) (rs : List Row) (r : Row)
      → All (λ r. r.id < n) rs
      → find_row id rs ≡ some r
      → id < n
  unfolding find_row
  find_row-below n id [] r h e = cc
  find_row-below n id (x ∷ rs) r (lt, h) e = ground (arith, find_row-below n id rs r h)
