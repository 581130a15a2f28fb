-- ===== src/Eth/Cleaner/Tests.antt =====
-- Cleaning the heights 5 and 6 of a small database.
use vulcanize_db.Prelude.{ℕ, ◌≡◌, ◌≢◌, refl, ◌⊎◌, String, [], ◌∷◌, Option, some, none}
use vulcanize_db.Prelude.Int.{ℤ, pos}
use vulcanize_db.Go.{ok, err}
use vulcanize_db.Chain.{full, state}
use vulcanize_db.Sql.{Range, HeaderCid, ChildCid, without_keys}
use vulcanize_db.Eth.Cleaner.{
  Tables, Statement, state_meta_data, Refusals, clean_range, clean, vacuum_analyze,
}
use vulcanize_db.Eth.Cleaner.Cleaning.{doomed, outside, clean_range-doomed}
use vulcanize_db.Eth.Cleaner.Ranges.{all_cleaned, clean-all_cleaned}

abbrev header : ℤ → ℕ → String → HeaderCid
header id number cid = record { id = id; block_number = number; cid = cid; times_validated = pos 3 }

abbrev child : ℤ → ℤ → String → ChildCid
child id parent cid = record { id = id; parent_id = parent; cid = cid }

-- Two headers at height 5 and 7; the state node of both has one CID.
abbrev db : Tables
db = record {
  header_rows = header (pos 1) 5 "h5" ∷ header (pos 2) 7 "h7" ∷ [];
  uncle_rows = [];
  transaction_rows = child (pos 1) (pos 1) "t5" ∷ [];
  receipt_rows = child (pos 1) (pos 1) "r5" ∷ [];
  state_rows = child (pos 1) (pos 1) "s" ∷ child (pos 2) (pos 2) "s" ∷ [];
  storage_rows = child (pos 1) (pos 1) "x5" ∷ [];
  account_rows = pos 1 ∷ [];
  blocks = "h5" ∷ "h7" ∷ "t5" ∷ "r5" ∷ "s" ∷ "x5" ∷ [];
}

abbrev rng : Range
rng = record { lower = 5; upper = 6 }

abbrev no_refusals : Refusals
no_refusals = record {
  on_begin = none;
  on_delete = λ _ _. none;
  on_reset = λ _. none;
  on_commit = none;
  on_vacuum = λ _. none;
}

abbrev refusing : Statement → Range → Option String
refusing state_meta_data r = some "refused"
refusing _ r = none

-- The block of the state node at height 7 is gone, and its row is left.
abbrev without_state_of_five : Tables
without_state_of_five = record db {
  state_rows = child (pos 2) (pos 2) "s" ∷ [];
  storage_rows = [];
  account_rows = [];
  blocks = "h5" ∷ "h7" ∷ "t5" ∷ "r5" ∷ [];
}

state_cleaned : clean_range no_refusals rng state db ≡ ok without_state_of_five
unfolding clean_range
state_cleaned = refl

clean_range-doomed_example :
    (without_state_of_five.blocks ≡ without_keys (doomed state rng db) db.blocks)
    × (doomed state rng without_state_of_five ≡ [])
    × (outside rng db without_state_of_five ≡ outside rng db db)
clean_range-doomed_example =
    clean_range-doomed no_refusals rng state db without_state_of_five state_cleaned

-- The rows cannot be deleted, so that the blocks deleted before are there again.
rolled_back :
    clean (record no_refusals { on_delete = refusing }) (rng ∷ []) state db ≡ (db, err "refused")
unfolding clean
rolled_back = refl

clean-all_cleaned_example :
    (((clean no_refusals (rng ∷ rng ∷ []) full db).0 ≡ db)
      × ((clean no_refusals (rng ∷ rng ∷ []) full db).1 ≢ ok tt))
    ⊎ (clean no_refusals (rng ∷ rng ∷ []) full db
        ≡ (all_cleaned (rng ∷ rng ∷ []) full db, vacuum_analyze no_refusals full))
clean-all_cleaned_example = clean-all_cleaned no_refusals (rng ∷ rng ∷ []) full db
