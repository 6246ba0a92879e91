-- ===== src/Links/Table/Rows.antt =====
-- What the statements on the table `link` do to the row that a selection by id finds.
use terminator.Base.{
  ℕ, ◌<◌, true, false, not, ◌&&◌, List, [], ◌∷◌, ◌++◌, map, none, some, ◌==◌, if◌then◌else◌, ◌≡◌,
  ◌≢◌, refl, sym, ◌∙◌, arith, All, Bool-cases, inl, inr, ◌⊎◌,
}
use mathlib.Core.Option as Options
use mathlib.Core.Option.{some-injective}
use terminator.Links.Table.{
  Row, Table, Platform, Link, find_row, update_at, delete_link, update_row,
}

pub find_row-id : (id : ℕ) (rs : List Row) (r : Row) → find_row id rs ≡ some r → r.id ≡ id
unfolding find_row
find_row-id id [] r h = cc
find_row-id id (x ∷ rs) r h = ground (arith, find_row-id id rs r)

-- A row that is found is the first one or is found further down.
pub find_row-cases :
    (id : ℕ) (x : Row) (rs : List Row) (r : Row)
    → find_row id (x ∷ rs) ≡ some r
    → ((x ≡ r) × (x.is_delete ≡ false) × (x.id ≡ id)) ⊎ (find_row id rs ≡ some r)
unfolding find_row
find_row-cases id x rs r h = elim (Bool-cases (not x.is_delete && x.id == id)) [
  | inl e ↦
      inl
        (some-injective _ _ (sym (rw (find_row, e) refl) ∙ h), ground (arith, e), ground (arith, e))
  | inr e ↦ inr (sym (rw (find_row, e) refl) ∙ h)
]

pub find_row-append :
    (id : ℕ) (rs : List Row) (new : Row)
    → new.id ≢ id
    → find_row id (rs ++ (new ∷ [])) ≡ find_row id rs
unfolding find_row
find_row-append id [] new ne = ground arith
find_row-append id (r ∷ rs) new ne = rw (find_row-append id rs new ne) refl

pub find_row-append_new :
    (rs : List Row) (new : Row)
    → All (λ r. r.id < new.id) rs
    → new.is_delete ≡ false
    → find_row new.id (rs ++ (new ∷ [])) ≡ some new
unfolding find_row
find_row-append_new [] new below kept = ground arith
find_row-append_new (r ∷ rs) new (lt, below) kept =
    ground (arith, find_row-append_new rs new below kept)

pub find_row-fresh : (id : ℕ) (rs : List Row) → All (λ r. r.id < id) rs → find_row id rs ≡ none
unfolding find_row
find_row-fresh id [] below = refl
find_row-fresh id (r ∷ rs) (lt, below) = ground (arith, find_row-fresh id rs below)

pub find_row-delete_self : (id : ℕ) (t : Table) → find_row id (delete_link id t).rows ≡ none
unfolding delete_link find_row
find_row-delete_self id t = go t.rows
  where
    go :
        (rs : List Row)
        → find_row id (map (λ r. if r.id == id then record r { is_delete = true } else r) rs) ≡ none
    go [] = refl
    go (r ∷ rs) = ground (arith, go rs)

pub find_row-delete_ne :
    (j id : ℕ) (t : Table) → id ≢ j → find_row j (delete_link id t).rows ≡ find_row j t.rows
unfolding delete_link find_row
find_row-delete_ne j id t ne = go t.rows
  where
    go :
        (rs : List Row)
        → find_row j (map (λ r. if r.id == id then record r { is_delete = true } else r) rs)
          ≡ find_row j rs
    go [] = refl
    go (r ∷ rs) = ground (arith, go rs)

find_row-map :
    (j : ℕ) (f : Row → Row)
    → ((r : Row) → (f r).id ≡ r.id)
    → ((r : Row) → (f r).is_delete ≡ r.is_delete)
    → (rs : List Row) → find_row j (map f rs) ≡ Options.map f (find_row j rs)
unfolding find_row
find_row-map j f same_id same_delete [] = refl
find_row-map j f same_id same_delete (r ∷ rs) =
    ground (arith, same_id r, same_delete r, find_row-map j f same_id same_delete rs)

module _ (p : Platform) where
  pub update_at-id : (l : Link p) (r : Row) → (update_at p l r).id ≡ r.id
  unfolding update_at update_row
  update_at-id l r = ground arith

  update_at-is_delete : (l : Link p) (r : Row) → (update_at p l r).is_delete ≡ r.is_delete
  unfolding update_at update_row
  update_at-is_delete l r = ground arith

  pub find_row-update :
      (j : ℕ) (l : Link p) (rs : List Row)
      → find_row j (map (update_at p l) rs) ≡ Options.map (update_at p l) (find_row j rs)
  find_row-update j l rs =
      find_row-map j (update_at p l) (update_at-id l) (update_at-is_delete l) rs
