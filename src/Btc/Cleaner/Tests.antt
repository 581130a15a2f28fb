-- ===== src/Btc/Cleaner/Tests.antt =====
-- Cleaning a range of a small database in full.
use vulcanize_db.Prelude.{ℕ, ◌≡◌, refl, ◌⊎◌, String, [], ◌∷◌, ◌++◌, none}
use vulcanize_db.Prelude.Int.{ℤ, pos}
use vulcanize_db.Go.{ok}
use vulcanize_db.Chain.{full, headers, transactions}
use vulcanize_db.Sql.{Range, HeaderCid, cids_of, header_cids, without_keys}
use vulcanize_db.Btc.Cleaner.{Tables, in_header, Refusals, clean_range, without_transactions}
use vulcanize_db.Btc.Cleaner.Cleaning.{emptied, clean_range-left}

abbrev header : ℤ → ℕ → String → HeaderCid
header id number cid = record { id = id; block_number = number; cid = cid; times_validated = pos 1 }

abbrev db : Tables
db = record {
  header_rows = header (pos 1) 5 "h5" ∷ header (pos 2) 7 "h7" ∷ [];
  transaction_rows =
      record { id = pos 1; parent_id = pos 1; cid = "t5" }
      ∷ record { id = pos 2; parent_id = pos 2; cid = "t7" }
      ∷ [];
  input_rows = pos 1 ∷ pos 2 ∷ [];
  output_rows = pos 1 ∷ pos 1 ∷ pos 2 ∷ [];
  blocks = "h5" ∷ "h7" ∷ "t5" ∷ "t7" ∷ [];
}

abbrev rng : Range
rng = record { lower = 5; upper = 6 }

abbrev no_refusals : Refusals
no_refusals = record {
  on_begin = none;
  on_delete = λ _ _. none;
  on_reset = λ _. none;
  on_commit = none;
  on_vacuum = λ _. none;
}

abbrev seven : Tables
seven = record {
  header_rows = header (pos 2) 7 "h7" ∷ [];
  transaction_rows = record { id = pos 2; parent_id = pos 2; cid = "t7" } ∷ [];
  input_rows = pos 2 ∷ [];
  output_rows = pos 2 ∷ [];
  blocks = "h7" ∷ "t7" ∷ [];
}

five_cleaned : clean_range no_refusals rng full db ≡ ok seven
unfolding clean_range
five_cleaned = refl

clean_range-left_example :
    ((full ≡ transactions)
      × (seven ≡ record (without_transactions rng db) {
        blocks = without_keys (cids_of (in_header rng db) db.transaction_rows) db.blocks;
      })
      × (cids_of (in_header rng seven) seven.transaction_rows ≡ []))
    ⊎ (((full ≡ full) ⊎ (full ≡ headers))
        × (seven ≡ emptied no_refusals rng db)
        × (cids_of (in_header rng seven) seven.transaction_rows ++ header_cids rng seven.header_rows
            ≡ []))
clean_range-left_example = clean_range-left no_refusals rng db full seven five_cleaned
