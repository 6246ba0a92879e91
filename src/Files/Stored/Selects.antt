-- ===== src/Files/Stored/Selects.antt =====
-- What `selectDataIndex` finds after an insert and after a delete.
use terminator.Record.Store.{RequestResponseBundle}
use terminator.Files.Store.{Streams, DataIndex, delete_data_index, later_row, select_data_index}
use terminator.Base.{
  ℕ, ◌<◌, Text, true, false, ◌&&◌, List, [], ◌∷◌, ◌++◌, none, some, ◌==◌, All, Bool-cases, ◌≡◌,
  refl, inl, inr, arith,
}

module _ {Request Response : Type 0} (o : Streams (RequestResponseBundle Request Response)) where
  pub select-append :
      (link : ℕ) (key : Text) (ds : List DataIndex) (d : DataIndex)
      → (d.link_id == link && o.same_signature d.signature key) ≡ false
      → select_data_index o link key (ds ++ (d ∷ [])) ≡ select_data_index o link key ds
  unfolding select_data_index
  select-append link key [] d e = rw e refl
  select-append link key (x ∷ ds) d e = rw (select-append link key ds d e) refl

  pub select-append_match :
      (link : ℕ) (key : Text) (ds : List DataIndex) (d : DataIndex)
      → (d.link_id == link && o.same_signature d.signature key) ≡ true
      → All (λ x. x.id < d.id) ds
      → select_data_index o link key (ds ++ (d ∷ [])) ≡ some d
  unfolding select_data_index later_row
  select-append_match link key [] d e h = rw e refl
  select-append_match link key (x ∷ ds) d e (lt, h) =
      rw (select-append_match link key ds d e h) (ground (arith, lt))

  pub select-delete_self :
      (link : ℕ) (key : Text) (ds : List DataIndex)
      → select_data_index o link key (delete_data_index link ds) ≡ none
  unfolding select_data_index delete_data_index
  select-delete_self link key [] = refl
  select-delete_self link key (x ∷ ds) = ground (arith, select-delete_self link key ds)

  pub select-delete_ne :
      (j link : ℕ) (key : Text) (ds : List DataIndex)
      → (link == j) ≡ false
      → select_data_index o j key (delete_data_index link ds) ≡ select_data_index o j key ds
  unfolding select_data_index delete_data_index
  select-delete_ne j link key [] ne = refl
  select-delete_ne j link key (x ∷ ds) ne = elim (Bool-cases (x.link_id == link)) [
    | inl e ↦
        let other : (x.link_id == j) ≡ false = ground (arith, e, ne) in
        rw (e, other) (select-delete_ne j link key ds ne)
    | inr e ↦ rw (e, select_data_index) (rw (select-delete_ne j link key ds ne) refl)
  ]
