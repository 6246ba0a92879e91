-- ===== src/Files/Stored/Kept.antt =====
-- The files and the table hold what is known of every signature.
use terminator.Record.Store.{RequestResponseBundle}
use terminator.Files.Store.{
  Streams, DataIndex, Disk, file_length, appended, delete_data_index, delete_record_data,
  empty_bundle, select_data_index, read_at, get_record_data, put_record_data,
}
use mathlib.Core.List.{append-nil, append_assoc}
use mathlib.Core.Path.{subst}
use native.Mathlib.Decide.{ℕ_discrete}
use terminator.Base.{
  ℕ, suc, ◌<◌, ◌≤◌, Text, Bool, true, false, List, [], ◌∷◌, ◌++◌, Option, none, some, ◌==◌, leb,
  if◌then◌else◌, length, take, drop, length-append, All, All-append, All-map, Bool-cases, ◌≡◌, refl,
  sym, ◌∙◌, ap, inl, inr, arith,
}
use terminator.Files.Stored.{
  Step, puts, deletes, Known, unknown, known, step, run, remember, remember_all, Returns,
}
use terminator.Files.Stored.Bytes.{drop-append, drop_all, take_all}
use terminator.Files.Stored.Selects.{
  select-append, select-append_match, select-delete_self, select-delete_ne,
}

module _ {Request Response : Type 0} (o : Streams (RequestResponseBundle Request Response)) where
  abbrev Bundle : Type 0
  Bundle = RequestResponseBundle Request Response

  -- The object stands in the file at the offset.
  abbrev Holds : ℕ → Bundle → Option (List ℕ) → Type 0
  Holds offset b none = ⊥
  Holds offset b (some bytes) =
      (offset ≤ length bytes) × ((rest : List ℕ) × (drop offset bytes ≡ o.write_object b ++ rest))

  abbrev Stored : Known Bundle → Option DataIndex → Option (List ℕ) → Type 0
  Stored unknown row file = Unit
  Stored (known none) row file = row ≡ none
  Stored (known (some b)) none file = ⊥
  Stored (known (some b)) (some d) file = Holds d.offset b file

  Returns-Stored :
      (link : ℕ) (key : Text) (k : Known Bundle) (s : Disk)
      → Stored k (select_data_index o link key s.data_index) (s.files link)
      → Returns o k (get_record_data o link key s)
  unfolding get_record_data read_at
  Returns-Stored link key unknown s h = tt
  Returns-Stored link key (known none) s h = rw (get_record_data, h) refl
  Returns-Stored link key (known (some b)) s h =
      go (select_data_index o link key s.data_index) (s.files link) h
    where
      go :
          (row : Option DataIndex) (file : Option (List ℕ))
          → Stored (known (some b)) row file
          → (elim row [ none ↦ empty_bundle o | some d ↦ read_at o d.offset file ]) ≡ b
      go (some d) (some bytes) (le, (rest, e)) =
          rw (read_at, e, o.read_object-write_object b rest) refl
      go none file h = absurd h
      go (some d) none h = absurd h

  -- More bytes at the end of a file leave what stands in it.
  Holds-appended :
      (offset : ℕ) (b : Bundle) (file : Option (List ℕ)) (more : List ℕ)
      → Holds offset b file
      → Holds offset b (some (appended file more))
  unfolding appended
  Holds-appended offset b none more h = absurd h
  Holds-appended offset b (some bytes) more (le, (rest, e)) = (
    omega (arith, le, length-append bytes more),
    (
      rest ++ more,
      drop-append offset bytes more le
          ∙ ap (λ t. t ++ more) e
          ∙ append_assoc (o.write_object b) rest more,
    ),
  )

  -- A write that completes leaves its object at the old end of the file.
  Holds-written :
      (b : Bundle) (written : ℕ) (file : Option (List ℕ))
      → length (o.write_object b) ≤ written
      → Holds (file_length file) b (some (appended file (take written (o.write_object b))))
  unfolding appended file_length
  Holds-written b written none le = (
    omega arith,
    ([], take_all written (o.write_object b) le ∙ sym (append-nil (o.write_object b))),
  )
  Holds-written b written (some bytes) le = (
    omega (arith, length-append bytes (take written (o.write_object b))),
    (
      [],
      drop_all bytes (take written (o.write_object b))
          ∙ take_all written (o.write_object b) le
          ∙ sym (append-nil (o.write_object b)),
    ),
  )

  abbrev IsNumbered : Disk → Type 0
  IsNumbered s = All (λ d. d.id < s.auto_increment) s.data_index

  abbrev IsStored : ℕ → Text → Known Bundle → Disk → Type 0
  IsStored link key k s = Stored k (select_data_index o link key s.data_index) (s.files link)

  eq_refl : (n : ℕ) → (n == n) ≡ true
  eq_refl n = ground arith

  abbrev new_row : ℕ → Text → Disk → DataIndex
  new_row link key s = record {
    id = s.auto_increment;
    link_id = link;
    offset = file_length (s.files link);
    signature = key;
  }

  -- A put under the same signature makes its bundle known when all of it was written.
  put-same :
      (link : ℕ) (key k : Text) (b : Bundle) (written : ℕ) (s : Disk)
      → o.same_signature k key ≡ true
      → IsNumbered s
      → IsStored link key
          (if leb (length (o.write_object b)) written then known (some b) else unknown)
          (put_record_data o link k b written s)
  unfolding put_record_data
  put-same link key k b written s e numbered =
      elim (Bool-cases (leb (length (o.write_object b)) written)) [
        | inr f ↦ rw f tt
        | inl f ↦
            rw
              (
                f,
                select-append_match o link key s.data_index (new_row link k s)
                    (rw (eq_refl link, e) refl) numbered,
                eq_refl link,
              )
              (Holds-written b written (s.files link) (ground (arith, f)))
      ]

  -- What stands in a file stays when something is put under another signature.
  Stored-appended :
      (k : Known Bundle) (row : Option DataIndex) (file : Option (List ℕ)) (more : List ℕ)
      → Stored k row file
      → Stored k row (some (appended file more))
  Stored-appended unknown row file more h = tt
  Stored-appended (known none) row file more h = h
  Stored-appended (known (some b)) none file more h = absurd h
  Stored-appended (known (some b)) (some d) file more h = Holds-appended d.offset b file more h

  put-miss :
      (link : ℕ) (key k : Text) (b : Bundle) (written : ℕ) (before : Known Bundle) (s : Disk)
      → o.same_signature k key ≡ false
      → IsStored link key before s
      → IsStored link key before (put_record_data o link k b written s)
  unfolding put_record_data
  put-miss link key k b written before s e h =
      rw
        (
          select-append o link key s.data_index (new_row link k s) (rw (eq_refl link, e) refl),
          eq_refl link,
        )
        (Stored-appended before _ (s.files link) (take written (o.write_object b)) h)

  put-elsewhere :
      (link l : ℕ) (key k : Text) (b : Bundle) (written : ℕ) (before : Known Bundle) (s : Disk)
      → (l == link) ≡ false
      → IsStored link key before s
      → IsStored link key before (put_record_data o l k b written s)
  unfolding put_record_data
  put-elsewhere link l key k b written before s ne h =
      let ne' : (link == l) ≡ false = ground (arith, ne) in
      rw (select-append o link key s.data_index (new_row l k s) (rw ne refl), ne') h

  put-here :
      (link : ℕ) (key k : Text) (b : Bundle) (written : ℕ) (before : Known Bundle) (s : Disk)
      → IsNumbered s
      → IsStored link key before s
      → IsStored link key
          (remember o link key (puts link k b written) before)
          (put_record_data o link k b written s)
  unfolding remember
  put-here link key k b written before s numbered h = elim (Bool-cases (o.same_signature k key)) [
    | inl f ↦ rw (remember, eq_refl link, f) (put-same link key k b written s f numbered)
    | inr f ↦ rw (remember, eq_refl link, f) (put-miss link key k b written before s f h)
  ]

  delete-here :
      (link : ℕ) (key : Text) (deleted : Bool) (before : Known Bundle) (s : Disk)
      → IsStored link key
          (remember o link key (deletes link deleted) before)
          (delete_record_data link deleted s)
  unfolding remember delete_record_data
  delete-here link key deleted before s =
      rw (remember, eq_refl link) (select-delete_self o link key s.data_index)

  step-IsStored :
      (link : ℕ) (key : Text) (e : Step Bundle) (before : Known Bundle) (s : Disk)
      → IsNumbered s
      → IsStored link key before s
      → IsStored link key (remember o link key e before) (step o e s)
  unfolding remember step delete_record_data
  step-IsStored link key (puts l k b written) before s numbered h = elim (ℕ_discrete l link) [
    | yes q ↦
        subst
          (λ i.
            IsStored link key (remember o link key (puts i k b written) before)
              (put_record_data o i k b written s))
          (sym q) (put-here link key k b written before s numbered h)
    | no ne ↦
        let off : (l == link) ≡ false = ground (arith, ne) in
        rw (remember, off) (put-elsewhere link l key k b written before s off h)
  ]
  step-IsStored link key (deletes l deleted) before s numbered h = elim (ℕ_discrete l link) [
    | yes q ↦
        subst
          (λ i.
            IsStored link key (remember o link key (deletes i deleted) before)
              (delete_record_data i deleted s))
          (sym q) (delete-here link key deleted before s)
    | no ne ↦
        let off : (l == link) ≡ false = ground (arith, ne) in
        let off' : (link == l) ≡ false = ground (arith, ne) in
        rw (remember, off, off', select-delete_ne o link l key s.data_index off) h
  ]

  All-delete :
      (n link : ℕ) (ds : List DataIndex)
      → All (λ d. d.id < n) ds
      → All (λ d. d.id < n) (delete_data_index link ds)
  unfolding delete_data_index
  All-delete n link [] h = tt
  All-delete n link (d ∷ ds) (lt, h) = elim (Bool-cases (d.link_id == link)) [
    | inl e ↦ rw e (All-delete n link ds h)
    | inr e ↦ rw e (lt, All-delete n link ds h)
  ]

  step-IsNumbered : (e : Step Bundle) (s : Disk) → IsNumbered s → IsNumbered (step o e s)
  unfolding step put_record_data delete_record_data
  step-IsNumbered (puts l k b written) s h =
      All-append (λ d. d.id < suc s.auto_increment) s.data_index (new_row l k s ∷ [])
        (All-map (λ d lt. omega (arith, lt)) s.data_index h) (omega arith, tt)
  step-IsNumbered (deletes l deleted) s h = All-delete s.auto_increment l s.data_index h

  run-IsStored :
      (link : ℕ) (key : Text) (es : List (Step Bundle)) (before : Known Bundle) (s : Disk)
      → IsNumbered s
      → IsStored link key before s
      → IsStored link key (remember_all o link key es before) (run o es s)
  unfolding remember_all run
  run-IsStored link key [] before s numbered h = h
  run-IsStored link key (e ∷ es) before s numbered h =
      run-IsStored link key es (remember o link key e before) (step o e s)
        (step-IsNumbered e s numbered) (step-IsStored link key e before s numbered h)

  -- From an empty table, after any sequence of writes and deletions of any links, some writes cut
  -- short: reading a signature of a link returns the bundle whose write was the last one of that
  -- signature and link since the last deletion of the link, if that write was whole, and the empty
  -- bundle if there was no such write. Of a signature whose last write was cut short nothing is said.
  pub get_record_data-run :
      (link : ℕ) (key : Text) (es : List (Step Bundle)) (s : Disk)
      → s.data_index ≡ []
      → Returns o
          (remember_all o link key es (known none))
          (get_record_data o link key (run o es s))
  unfolding select_data_index
  get_record_data-run link key es s empty =
      Returns-Stored link key (remember_all o link key es (known none)) (run o es s)
        (run-IsStored link key es (known none) s (rw empty tt) (rw empty refl))
