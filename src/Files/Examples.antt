-- ===== src/Files/Examples.antt =====
-- The file storage at concrete inputs: objects are framed by their length.
use terminator.Record.Store.{RequestResponseBundle}
use terminator.Files.Store.{Streams, Disk, put_record_data, get_record_data, signer_changed}
use terminator.Files.Stored.{Step, puts, deletes, known, run, remember, remember_all, Returns}
use terminator.Files.Stored.Kept.{get_record_data-run}
use terminator.Files.Signing.{signer_changed_lem, has_row}
use terminator.Base.{
  ℕ, zero, suc, codes, true, text_eq, List, [], ◌∷◌, Option, none, some, err, class_cast, ◌≡◌, refl,
}

abbrev Bundle : Type 0
Bundle = RequestResponseBundle ℕ ℕ

-- A field that may be null is written as 0, or as one more than the number.
abbrev write_field : Option ℕ → ℕ
write_field none = 0
write_field (some n) = suc n

abbrev read_field : ℕ → Option ℕ
read_field zero = none
read_field (suc n) = some n

read_field-write_field : (f : Option ℕ) → read_field (write_field f) ≡ f
read_field-write_field none = refl
read_field-write_field (some n) = refl

abbrev read : List ℕ → Option Bundle
read (q ∷ a ∷ rest) = some (record { request = read_field q; response = read_field a })
read _ = none

abbrev streams : Streams Bundle
streams = record {
  write_object = λ b. write_field b.request ∷ write_field b.response ∷ [];
  read_object = read;
  same_signature = text_eq;
  read_object-write_object =
      λ b rest. rw (read_field-write_field b.request, read_field-write_field b.response) refl;
}

abbrev bundle : ℕ → Bundle
bundle n = record { request = some n; response = some n }

abbrev empty_disk : Disk
empty_disk = record { data_index = []; auto_increment = 1; files = λ _. none }

-- The second write under the signature `a` stops after a byte.
abbrev steps : List (Step Bundle)
steps =
    puts 1 (codes "a") (bundle 5) 2
    ∷ puts 1 (codes "a") (bundle 6) 1
    ∷ puts 1 (codes "b") (bundle 7) 2
    ∷ puts 2 (codes "b") (bundle 8) 2
    ∷ deletes 2 true
    ∷ []

get_record_data-run_example :
    Returns streams
      (remember_all streams 1 (codes "b") steps (known none))
      (get_record_data streams 1 (codes "b") (run streams steps empty_disk))
get_record_data-run_example = get_record_data-run streams 1 (codes "b") steps empty_disk refl

-- What the example says, computed.
known_b : remember_all streams 1 (codes "b") steps (known none) ≡ known (some (bundle 7))
unfolding remember_all remember text_eq
known_b = refl

signer_changed_lem_example :
    signer_changed streams
      (λ _. codes "k")
      1
      (put_record_data streams 1 (codes "a") (bundle 5) 2 empty_disk)
    ≡ (put_record_data streams 1 (codes "a") (bundle 5) 2 empty_disk, err class_cast)
unfolding has_row put_record_data
signer_changed_lem_example =
    signer_changed_lem streams (λ _. codes "k") 1
      (put_record_data streams 1 (codes "a") (bundle 5) 2 empty_disk)
