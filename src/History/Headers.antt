-- ===== src/History/Headers.antt =====
-- PopulateMissingHeaders of pkg/eth/history/populate_headers.go: the count that it reports.
use vulcanize_db.Prelude.{◌≡◌, refl, String, false, List, [], length, Option, some, is_empty}
use vulcanize_db.Prelude.Int.{ℤ}
use vulcanize_db.Go.{Result, ok}
use vulcanize_db.History.{populate_missing_headers, retrieve_and_update_headers, update_headers}

module _ {Header : Type 0} where
  -- When the node returns no headers and an error, the missing headers are reported as filled.
  populate_missing_headers-lost_error :
      (last start : ℤ) (missing : ℤ → ℤ → Result (List ℤ)) (numbers : List ℤ)
      (get : List ℤ → List Header × Option String) (message : String)
      (create : Header → Result (Unit {0}))
      → missing start last ≡ ok numbers
      → is_empty numbers ≡ false
      → get numbers ≡ ([], some message)
      → populate_missing_headers (ok last) missing get create start ≡ ok (length numbers)
  unfolding populate_missing_headers retrieve_and_update_headers update_headers
  populate_missing_headers-lost_error last start missing numbers get message create m some_left g =
      rw (m, some_left, g) refl
