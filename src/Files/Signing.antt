-- ===== src/Files/Signing.antt =====
-- `FileStorage.signerChanged`.
use terminator.Record.Store.{RequestResponseBundle}
use terminator.Files.Store.{
  Streams, DataIndex, Disk, as_long, select_data_index_ids, sign_rows, signer_changed,
}
use terminator.Base.{
  ℕ, Text, Bool, false, List, [], ◌∷◌, Option, ok, err, class_cast, ◌==◌, if◌then◌else◌, Bool-cases,
  ◌||◌, ◌≡◌, refl, inl, inr,
}

-- Whether a link has rows.
unfoldable pub has_row : ℕ → List DataIndex → Bool
has_row link [] = false
has_row link (d ∷ ds) = d.link_id == link || has_row link ds

module _ {Request Response : Type 0} (o : Streams (RequestResponseBundle Request Response)) where
  -- The loop over the rows of a link stops at the first.
  sign_rows-select :
      (sign : Option Request → Text) (link : ℕ) (ds : List DataIndex) (s : Disk)
      → sign_rows o sign link (select_data_index_ids link ds) s
        ≡ (s, if has_row link ds then err class_cast else ok tt)
  unfolding sign_rows select_data_index_ids has_row as_long
  sign_rows-select sign link [] s = refl
  sign_rows-select sign link (d ∷ ds) s = elim (Bool-cases (d.link_id == link)) [
    | inl e ↦ rw e refl
    | inr e ↦ rw e (sign_rows-select sign link ds s)
  ]

  -- `signerChanged` throws a ClassCastException when the link has a row in the table, returns when it
  -- has none, and changes nothing in either case.
  pub signer_changed_lem :
      (sign : Option Request → Text) (link : ℕ) (s : Disk)
      → signer_changed o sign link s
        ≡ (s, if has_row link s.data_index then err class_cast else ok tt)
  unfolding signer_changed
  signer_changed_lem sign link s = sign_rows-select sign link s.data_index s
