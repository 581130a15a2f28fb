-- ===== src/History.antt =====
-- pkg/eth/history/populate_headers.go and validation_window.go: filling the gaps in the header
-- table, and the window of headers that are checked again. The node and the header repository are
-- parameters. A Go call that returns a value and an error returns both.
pub mod Headers
pub mod Window
pub mod Tests
use vulcanize_db.Prelude.{
  ℕ, zero, suc, String, Bool, true, false, List, [], ◌∷◌, length, Option, none, some, ◌==◌,
  string_eq, is_empty, if◌then◌else◌,
}
use vulcanize_db.Prelude.Int.{ℤ, pos, negsuc, ◌+ℤ◌, ◌-ℤ◌}
use vulcanize_db.Go.{Result, ok, err, panic, ◌>>=◌}

abbrev pub err_valid_header_exists : String
err_valid_header_exists = "valid header already exists"

module _ {Header : Type 0} where
  -- The loop over the headers; CreateOrUpdateHeader is a parameter.
  pub update_headers : (Header → Result (Unit {0})) → List Header → ℕ → Result ℕ
  update_headers create_or_update_header [] total = ok total
  update_headers create_or_update_header (header ∷ rest) total =
      let later = update_headers create_or_update_header rest total in
      elim (create_or_update_header header) [
        | panic ↦ panic
        | err e ↦ if e == err_valid_header_exists then later else err e
        | ok _ ↦ later
      ]

  -- GetHeadersByNumbers returns the headers and an error; the code drops the error.
  pub retrieve_and_update_headers :
      (List ℤ → List Header × Option String) → (Header → Result (Unit {0})) → List ℤ → Result ℕ
  unfolding update_headers
  retrieve_and_update_headers get_headers_by_numbers create_or_update_header block_numbers =
      let answer = get_headers_by_numbers block_numbers in
      update_headers create_or_update_header answer.0 (length block_numbers)

  pub populate_missing_headers :
      Result ℤ
      → (ℤ → ℤ → Result (List ℤ))
      → (List ℤ → List Header × Option String)
      → (Header → Result (Unit {0}))
      → ℤ
      → Result ℕ
  unfolding retrieve_and_update_headers
  populate_missing_headers last_block missing_block_numbers get_headers_by_numbers
        create_or_update_header start =
      do
        last ← last_block
        block_numbers ← missing_block_numbers start last
        if is_empty block_numbers then ok 0 else (do
          updated ←
              retrieve_and_update_headers get_headers_by_numbers create_or_update_header
                block_numbers
          ok (length block_numbers))

pub record ValidationWindow : Type 0 where
  pub lower_bound : ℤ
  pub upper_bound : ℤ

pub size : ValidationWindow → ℤ
size window = window.upper_bound -ℤ window.lower_bound

pub make_validation_window : Result ℤ → ℤ → Result ValidationWindow
make_validation_window last_block window_size = do
  upper ← last_block
  ok (record { lower_bound = upper -ℤ window_size; upper_bound = upper })

pub fill_range : ℤ → ℕ → List ℤ
fill_range min zero = []
fill_range min (suc n) = min ∷ fill_range (min +ℤ pos 1) n

-- `make` panics on a negative length.
pub make_range : ℤ → ℤ → Result (List ℤ)
unfolding fill_range
make_range min max = elim (max -ℤ min +ℤ pos 1) [ pos n ↦ ok (fill_range min n) | negsuc _ ↦ panic ]
