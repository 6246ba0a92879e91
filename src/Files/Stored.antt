-- ===== src/Files/Stored.antt =====
-- What is read from the files, against a description that knows neither offsets nor rows.
pub mod Bytes
pub mod Selects
pub mod Kept
use terminator.Record.Store.{RequestResponseBundle}
use terminator.Files.Store.{
  Streams, DataIndex, Disk, file_length, appended, delete_data_index, delete_record_data,
  empty_bundle, later_row, select_data_index, read_at, get_record_data, put_record_data,
}
use mathlib.Core.List.{append-nil, append_assoc}
use mathlib.Core.Path.{subst}
use native.Mathlib.Decide.{ℕ_discrete}
use terminator.Base.{
  ℕ, zero, suc, ◌+◌, ◌<◌, ◌≤◌, Text, Bool, true, false, ◌&&◌, List, [], ◌∷◌, ◌++◌, Option, none,
  some, ◌==◌, ltb, leb, if◌then◌else◌, length, take, drop, length-append, All, All-append, All-map,
  Bool-cases, ◌≡◌, refl, sym, ◌∙◌, ap, inl, inr, arith,
}

-- A step of the storage of a link: the second argument of `puts` is the signature, the last one the
-- number of bytes that reach the file; that of `deletes` is whether the file could be deleted.
pub data Step (B : Type 0) : Type 0 where
  puts : ℕ → Text → B → ℕ → Step B
  deletes : ℕ → Bool → Step B

-- What is known of a signature of a link: nothing after a write that failed.
pub data Known (B : Type 0) : Type 0 where
  unknown : Known B
  known : Option B → Known B

module _ {Request Response : Type 0} (o : Streams (RequestResponseBundle Request Response)) where
  abbrev Bundle : Type 0
  Bundle = RequestResponseBundle Request Response

  unfoldable pub step : Step Bundle → Disk → Disk
  unfolding put_record_data delete_record_data
  step (puts link key b written) s = put_record_data o link key b written s
  step (deletes link deleted) s = delete_record_data link deleted s

  unfoldable pub run : List (Step Bundle) → Disk → Disk
  unfolding step
  run [] s = s
  run (e ∷ es) s = run es (step e s)

  -- What a step leaves known of a signature: the bundle that was put last, whole, since the last delete.
  unfoldable pub remember : ℕ → Text → Step Bundle → Known Bundle → Known Bundle
  remember link key (puts l k b written) before =
      if l == link && o.same_signature k key
      then (if leb (length (o.write_object b)) written then known (some b) else unknown)
      else before
  remember link key (deletes l deleted) before = if l == link then known none else before

  unfoldable pub remember_all : ℕ → Text → List (Step Bundle) → Known Bundle → Known Bundle
  unfolding remember
  remember_all link key [] before = before
  remember_all link key (e ∷ es) before = remember_all link key es (remember link key e before)

  abbrev pub Returns : Known Bundle → Bundle → Type 0
  Returns unknown b = Unit
  Returns (known none) b = b ≡ empty_bundle o
  Returns (known (some a)) b = b ≡ a
