-- ===== src/Headers/Tests.antt =====
-- A small table of two nodes.
use vulcanize_db.Prelude.{
  ℕ, ◌≡◌, refl, ◌⊎◌, String, true, List, [], ◌∷◌, map, any_of, ◌==◌, All, arith, some,
}
use vulcanize_db.Prelude.Int.{ℤ, pos, negsuc, ◌+ℤ◌, ◌-ℤ◌, int_eq}
use vulcanize_db.Go.{ok, err}
use vulcanize_db.History.{err_valid_header_exists}
use vulcanize_db.Headers.{
  Header, HeaderRow, HeaderRepository, Refusals, create_or_update_header, missing_block_numbers,
  populate, unchecked_headers,
}
use vulcanize_db.Headers.Canonical.{AtMostOne, create_or_update_header-AtMostOne}
use vulcanize_db.Headers.Filling.{Holds, no_refusals, create_or_update_header-Holds}
use vulcanize_db.Headers.Populating.{populate_complete}
use vulcanize_db.Headers.Rounds.{check_rounds, unchecked_headers-check_rounds}

abbrev row : ℕ → ℤ → String → String → ℤ → HeaderRow
row id number hash node count = record {
  id = id;
  block_number = number;
  hash = hash;
  eth_node_fingerprint = node;
  check_count = count;
}

abbrev rep : HeaderRepository
rep = record {
  rows =
      row 1 (pos 5) "a" "geth" (pos 0)
      ∷ row 2 (pos 5) "b" "parity" (pos 0)
      ∷ row 3 (pos 7) "c" "geth" (pos 1)
      ∷ [];
  next_id = 4;
  node = "geth";
}

abbrev header : ℤ → String → Header
header number hash = record { block_number = number; hash = hash }

-- The insertion after the deletion is refused: the block number has no header left.
abbrev failing : Refusals
failing = record no_refusals { on_insert = some "disk full" }

header_lost : create_or_update_header failing (header (pos 5) "d") rep ≡ (
  record rep { rows = row 2 (pos 5) "b" "parity" (pos 0) ∷ row 3 (pos 7) "c" "geth" (pos 1) ∷ [] },
  err "disk full",
)
unfolding create_or_update_header
header_lost = refl

create_or_update_header-AtMostOne_example :
    AtMostOne (create_or_update_header failing (header (pos 5) "d") rep).0.rows
create_or_update_header-AtMostOne_example =
    create_or_update_header-AtMostOne failing (header (pos 5) "d") rep (refl, (refl, (refl, tt)))

create_or_update_header-Holds_example :
    Holds (header (pos 5) "d") rep (create_or_update_header no_refusals (header (pos 5) "d") rep).0
    × (((create_or_update_header no_refusals (header (pos 5) "d") rep).1 ≡ ok 4)
        ⊎ ((create_or_update_header no_refusals (header (pos 5) "d") rep).1
            ≡ err err_valid_header_exists))
create_or_update_header-Holds_example = create_or_update_header-Holds (header (pos 5) "d") rep

-- A node that has every block.
abbrev archive : List ℤ → List Header
archive numbers = map (λ number. header number "n") numbers

served :
    let numbers = missing_block_numbers (pos 4) (pos 8) rep.node rep.rows in
    All (λ number. any_of (λ h. h.block_number == number) (archive numbers) ≡ true) numbers
unfolding missing_block_numbers ◌+ℤ◌ ◌-ℤ◌
served = (refl, (refl, (refl, tt)))

populate_complete_example :
    let after = populate no_refusals "geth" (pos 4) (pos 8) archive rep in
    (after.1 ≡ ok tt) × (missing_block_numbers (pos 4) (pos 8) "geth" after.0.rows ≡ [])
populate_complete_example = populate_complete (pos 4) (pos 8) archive rep served

unchecked_headers-check_rounds_example :
    unchecked_headers
      (pos 0)
      (negsuc 0)
      (pos 3)
      "geth"
      (check_rounds (pos 0) (negsuc 0) "geth" 3 3 rep.rows)
    ≡ []
unchecked_headers-check_rounds_example =
    unchecked_headers-check_rounds (pos 0) (negsuc 0) "geth" 3 rep.rows
      (omega arith, (omega arith, (omega arith, tt)))
