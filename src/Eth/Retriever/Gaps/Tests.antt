-- ===== src/Eth/Retriever/Gaps/Tests.antt =====
-- The retriever's gaps on a table with two holes and a height validated too rarely.
use vulcanize_db.Prelude.{ℕ, ◌≡◌, refl, ◌↔◌, List, [], ◌∷◌, ◌++◌, none}
use vulcanize_db.Prelude.Int.{pos}
use vulcanize_db.Go.{ok}
use vulcanize_db.Heights.{Gap, gap, missing_heights_to_gaps}
use vulcanize_db.Eth.Retriever.Gaps.{HeaderRow, retrieve_gaps_in_data, heights_of, under_validated}
use vulcanize_db.Eth.Retriever.Gaps.Missing.{Named, Missing, retrieve_gaps_in_data-Missing}

abbrev table : List HeaderRow
table =
    record { block_number = 5; times_validated = pos 1 }
    ∷ record { block_number = 2; times_validated = pos 3 }
    ∷ record { block_number = 5; times_validated = pos 1 }
    ∷ record { block_number = 3; times_validated = pos 0 }
    ∷ []

retrieved : retrieve_gaps_in_data table none none (pos 1) ≡ ok (gap 0 1 ∷ gap 4 4 ∷ [])
unfolding retrieve_gaps_in_data missing_heights_to_gaps
retrieved = refl

retrieve_gaps_in_data-Missing_example :
    (missing : List Gap) × (gap 0 1 ∷ gap 4 4 ∷ []
      ≡ missing ++ missing_heights_to_gaps (under_validated (pos 1) table))
    × ((h : ℕ) → Named h missing ↔ Missing h (heights_of table))
retrieve_gaps_in_data-Missing_example =
    retrieve_gaps_in_data-Missing table none none (pos 1) (gap 0 1 ∷ gap 4 4 ∷ []) retrieved
