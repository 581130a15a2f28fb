-- ===== src/Storage/Tests.antt =====
-- A packed slot of two numbers, and a queue of two diffs.
use vulcanize_db.Prelude.{ℕ, ◌≡◌, refl, true, ◌↔◌, Option, some, String, List, [], ◌∷◌, map}
use vulcanize_db.Go.{ok, err}
use vulcanize_db.Storage.{
  uint48, Printers, decode_packed_slot, decode_individual_item, get_number_of_bytes, PersistedDiff,
  Transformers, process_queue,
}
use vulcanize_db.Storage.Packed.{Item, packed, decode_packed_slot-packed}
use vulcanize_db.Storage.Queue.{queued, Finishes, process_queue-queued}

abbrev printers : Printers
printers = record {
  decode_integer = λ bytes. "number";
  decode_address = λ bytes. "address";
  hex = λ bytes. "hex";
}

abbrev item : Item printers
unfolding get_number_of_bytes decode_individual_item
item = record {
  type = uint48;
  bytes = 1 ∷ 2 ∷ 3 ∷ 4 ∷ 5 ∷ 6 ∷ [];
  text = "number";
  sized = refl;
  prints = refl;
}

decode_packed_slot-packed_example :
    decode_packed_slot printers
      (packed (9 ∷ []) (item ∷ item ∷ []))
      (map (λ i. i.type) (item ∷ item ∷ []))
    ≡ ok (map (λ i. i.text) (item ∷ item ∷ []))
decode_packed_slot-packed_example = decode_packed_slot-packed printers (9 ∷ []) (item ∷ item ∷ [])

abbrev diff : ℕ → ℕ → PersistedDiff
diff id hashed = record { id = id; hashed_address = hashed; diff = [] }

-- Contract 7 is watched, and its storage keys are not known yet.
abbrev transformers : Transformers
transformers = (7, λ d. err "key not found") ∷ []

abbrev queue : List PersistedDiff
queue = diff 1 7 ∷ diff 2 8 ∷ []

-- GetAll returns both diffs, and an error.
abbrev fetched : List PersistedDiff × Option String
fetched = (queue, some "connection lost")

processed : process_queue transformers (λ _. true) fetched queue ≡ ok (diff 1 7 ∷ [])
unfolding process_queue
processed = refl

process_queue-queued_example :
    (queued 2 (diff 1 7 ∷ []) ≡ true)
    ↔ ((queued 2 queue ≡ true) × (Finishes transformers 2 fetched.0 → ⊥))
process_queue-queued_example =
    process_queue-queued transformers 2 fetched queue (diff 1 7 ∷ []) processed
