-- ===== src/Storage.antt =====
-- libraries/shared/storage/utils/decoder.go and value.go: the value of a storage slot, and
-- libraries/shared/watcher/storage_watcher.go: the queue of storage diffs that could not be
-- transformed. Decimal and hexadecimal printing, the transformers and the database are parameters.
-- The map PackedTypes has the keys 0 to n - 1 and is a list.
pub mod Packed
pub mod Queue
pub mod Tests
use vulcanize_db.Prelude.{
  ℕ, ◌+◌, ◌-◌, Bool, true, false, not, List, [], ◌∷◌, ◌++◌, Option, none, some, ◌==◌, nat_eq,
  length, drop, take, ltb, if◌then◌else◌, String,
}
use vulcanize_db.Prelude.Assoc.{find}
use vulcanize_db.Go.{Bytes, Result, ok, err, panic, ◌>>=◌}

pub data ValueType : Type 0 where
  uint256 uint48 uint128 bytes32 address packed_slot : ValueType

-- getNumberOfBytes
pub get_number_of_bytes : ValueType → Result ℕ
get_number_of_bytes uint48 = ok 6
get_number_of_bytes uint128 = ok 16
get_number_of_bytes address = ok 20
get_number_of_bytes _ = panic

-- The two printers of decoded values.
pub record Printers : Type 0 where
  pub decode_integer : Bytes → String
  pub decode_address : Bytes → String
  pub hex : Bytes → String

-- What Decode returns.
pub data Decoded : Type 0 where
  one : String → Decoded
  many : List String → Decoded

module _ (printers : Printers) where
  open printers use {decode_integer, decode_address, hex}

  pub decode_individual_item : Bytes → ValueType → Result String
  decode_individual_item item uint48 = ok (decode_integer item)
  decode_individual_item item uint128 = ok (decode_integer item)
  decode_individual_item item address = ok (decode_address item)
  decode_individual_item item _ = panic

  -- The items from the last byte backwards; a slice with a negative index panics.
  pub decode_packed_slot : Bytes → List ValueType → Result (List String)
  unfolding get_number_of_bytes decode_individual_item
  decode_packed_slot raw [] = ok []
  decode_packed_slot raw (item_type ∷ rest) = do
    length_of_item ← get_number_of_bytes item_type
    let start = length raw - length_of_item
    value ←
        if ltb (length raw) length_of_item
        then panic
        else decode_individual_item (drop start raw) item_type
    later ← decode_packed_slot (take start raw) rest
    ok (value ∷ later)

  pub decode : Bytes → ValueType → List ValueType → Result Decoded
  unfolding decode_packed_slot
  decode value uint256 packed = ok (one (decode_integer value))
  decode value uint48 packed = ok (one (decode_integer value))
  decode value uint128 packed = ok (one (decode_integer value))
  decode value address packed = ok (one (decode_address value))
  decode value bytes32 packed = ok (one (hex value))
  decode value packed_slot packed = do items ← decode_packed_slot value packed; ok (many items)

pub record PersistedDiff : Type 0 where
  pub id : ℕ
  pub hashed_address : ℕ
  pub diff : Bytes

-- CreateStorageDiff: the new row's id, or a duplicate, or another error, with id 0.
pub data Creation : Type 0 where
  created : ℕ → Creation
  duplicate : Creation
  failed : Creation

abbrev pub Transformers : Type 0
Transformers = List (ℕ × (PersistedDiff → Result (Unit {0})))

-- Queue.Delete
abbrev pub delete_diff : ℕ → List PersistedDiff → List PersistedDiff
delete_diff id [] = []
delete_diff id (d ∷ queue) =
    let rest = delete_diff id queue in if d.id == id then rest else d ∷ rest

module _ (transformers : Transformers) where
  -- The diff is not queued, or Queue.Add may fail, which is logged.
  pub execute_or_queue : Bool → PersistedDiff → List PersistedDiff → Result (List PersistedDiff)
  execute_or_queue add_works d queue = elim (find d.hashed_address transformers) [
    | none ↦ ok queue
    | some execute ↦ elim (execute d) [
      | panic ↦ panic
      | err e ↦ ok (if add_works then queue ++ d ∷ [] else queue)
      | ok _ ↦ ok queue
    ]
  ]

  pub process_row : Creation → Bool → ℕ → Bytes → List PersistedDiff → Result (List PersistedDiff)
  unfolding execute_or_queue
  process_row duplicate add_works hashed_address diff queue = ok queue
  process_row (created id) add_works hashed_address diff queue =
      execute_or_queue add_works (record { id = id; hashed_address = hashed_address; diff = diff })
        queue
  process_row failed add_works hashed_address diff queue =
      execute_or_queue add_works (record { id = 0; hashed_address = hashed_address; diff = diff })
        queue

  -- Whether a queued diff is done with: its contract is not watched any more, or its transformer
  -- runs. The diff stays queued after an error.
  pub finished : Option (PersistedDiff → Result (Unit {0})) → PersistedDiff → Result Bool
  finished none d = ok true
  finished (some execute) d = elim (execute d) [ panic ↦ panic | err e ↦ ok false | ok _ ↦ ok true ]

  -- `deletes` tells which calls of Queue.Delete work.
  pub process_queue_loop :
      (ℕ → Bool) → List PersistedDiff → List PersistedDiff → Result (List PersistedDiff)
  unfolding finished
  process_queue_loop deletes [] queue = ok queue
  process_queue_loop deletes (d ∷ rest) queue = do
    over ← finished (find d.hashed_address transformers) d
    process_queue_loop deletes rest
        (if over then (if deletes d.id then delete_diff d.id queue else queue) else queue)

  -- What Queue.GetAll returns is processed, also beside an error, which is logged.
  pub process_queue :
      (ℕ → Bool)
      → List PersistedDiff × Option String
      → List PersistedDiff
      → Result (List PersistedDiff)
  unfolding process_queue_loop
  process_queue deletes fetched queue = process_queue_loop deletes fetched.0 queue
