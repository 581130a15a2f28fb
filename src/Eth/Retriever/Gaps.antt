-- ===== src/Eth/Retriever/Gaps.antt =====
-- RetrieveGapsInData of pkg/super_node/eth/cid_retriever.go. The table header_cids is a list of
-- heights with the times they were validated, in any order and with several rows to a height; the
-- outcomes of the last two queries are parameters.
pub mod Rows
pub mod Missing
pub mod Tests
use vulcanize_db.Prelude.{
  keep, Any-map, ℕ, zero, suc, ◌+◌, ◌-◌, ◌≤◌, ◌<◌, ◌≡◌, ◌≢◌, refl, sym, subst, ap, ◌∙◌, ◌↔◌, ◌⊎◌,
  inl, inr, String, Bool, true, false, ◌&&◌, ◌||◌, not, List, [], ◌∷◌, ◌++◌, map, Option, none,
  some, Option-cases, Bool-cases, if◌then◌else◌, ltb, lt→ltb, ltb→lt, leb, ◌==◌, nat_eq,
  nat_beq_iff, any_of, any_of_iff, Any, All, arith,
}
use vulcanize_db.Prelude.Int.{ℤ, ltb_ℤ}
use vulcanize_db.Go.{Result, ok, err, panic, ◌>>=◌}
use vulcanize_db.Heights.{Gap, gap, missing_heights_to_gaps}

pub record HeaderRow : Type 0 where
  pub block_number : ℕ
  pub times_validated : ℤ

abbrev pub lesser : ℕ → Option ℕ → ℕ
lesser x none = x
lesser x (some m) = if ltb x m then x else m

pub min_of : List ℕ → Option ℕ
min_of [] = none
min_of (x ∷ xs) = some (lesser x (min_of xs))

abbrev pub stored : ℕ → List ℕ → Bool
stored h heights = any_of (λ x. x == h) heights

-- db.Get of a query with at most one row
abbrev pub only_row : Option ℕ → Result ℕ
only_row none = err "sql: no rows in result set"
only_row (some first) = ok first

-- `ORDER BY block_number ASC LIMIT 1`
pub retrieve_first_block_number : List ℕ → Result ℕ
unfolding min_of
retrieve_first_block_number heights = only_row (min_of heights)

abbrev pub initial_gap : ℕ → List Gap
initial_gap first = if first == 0 then [] else gap 0 (first - 1) ∷ []

abbrev pub with_row : ℕ → Option ℕ → List Gap → List Gap
with_row b none later = later
with_row b (some next) later = gap (b + 1) (next - 1) ∷ later

-- The query for gaps, one row for each group of equal heights: the height has no successor in the
-- table (r is null), and the least of those above it (fr) is there.
pub gap_rows : List ℕ → List ℕ → List Gap
unfolding min_of
gap_rows all [] = []
gap_rows all (b ∷ rest) =
    let later = gap_rows all rest in
    if stored b rest || stored (b + 1) all
    then later
    else with_row b (min_of (keep (λ h. ltb b h) all)) later

-- `ORDER BY block_number`
pub insert_sorted : ℕ → List ℕ → List ℕ
insert_sorted x [] = x ∷ []
insert_sorted x (y ∷ ys) = let rest = insert_sorted x ys in if leb x y then x ∷ y ∷ ys else y ∷ rest

pub under_validated : ℤ → List HeaderRow → List ℕ
unfolding insert_sorted
under_validated level [] = []
under_validated level (row ∷ rows) =
    let rest = under_validated level rows in
    if ltb_ℤ row.times_validated level then insert_sorted row.block_number rest else rest

abbrev pub heights_of : List HeaderRow → List ℕ
heights_of rows = map (λ row. row.block_number) rows

-- A query's error, if it has one that is not sql.ErrNoRows.
abbrev pub unless_error : {A : Type 0} → Option String → Result A → Result A
unless_error none next = next
unless_error (some e) next = err e

unfoldable pub retrieve_gaps_in_data :
    List HeaderRow → Option String → Option String → ℤ → Result (List Gap)
unfolding retrieve_first_block_number gap_rows under_validated
retrieve_gaps_in_data rows gaps_error heights_error level = do
  first ← retrieve_first_block_number (heights_of rows)
  unless_error gaps_error (
      unless_error heights_error (
        ok (
          initial_gap first
          ++ gap_rows (heights_of rows) (heights_of rows)
          ++ missing_heights_to_gaps (under_validated level rows))))
