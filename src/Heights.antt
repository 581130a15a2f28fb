-- ===== src/Heights.antt =====
-- libraries/shared/utilities/utils.go: the splitting of a range of block heights into bins, and
-- the gaps that a list of missing heights stands for. A height is a uint64: every sum is reduced
-- modulo 2 ^ 64 as Go does. The loops that fill the bins take fuel; `height_range` is called with
-- the distance that its variable still has to go, and `bins_from` with the number of bins.
pub mod Bins
pub mod Gaps
pub mod Tests
use vulcanize_db.Prelude.{
  ℕ, zero, suc, ◌+◌, ◌-◌, ◌/◌, ◌%◌, ◌^◌, Bool, true, false, ◌&&◌, not, List, [], ◌∷◌, ◌++◌, ltb,
  leb, ◌==◌, nat_eq, length, if◌then◌else◌,
}

abbrev pub u64 : ℕ
u64 = 2 ^ 64

pub data BinError : Type 0 where
  ending_before_starting zero_batch_size : BinError

pub data BinResult : Type 0 where
  ok : List (List ℕ) → BinResult
  err : BinError → BinResult

-- `for j := startingBlock; j < nextBinStart && j <= endingBlock; j++`
pub height_range : ℕ → ℕ → ℕ → ℕ → List ℕ
height_range zero j next ending = []
height_range (suc fuel) j next ending =
    let rest = height_range fuel ((j + 1) % u64) next ending in
    if ltb j next && leb j ending then j ∷ rest else []

-- `for i := range blockRangeBins`
pub bins_from : ℕ → ℕ → ℕ → ℕ → List (List ℕ)
unfolding height_range
bins_from zero starting ending batch = []
bins_from (suc n) starting ending batch =
    let next = (starting + batch) % u64 in
    height_range (next - starting) starting next ending ∷ bins_from n next ending batch

pub number_of_bins : ℕ → ℕ → ℕ
number_of_bins len batch = if len % batch == 0 then len / batch else (len / batch + 1) % u64

pub get_block_height_bins : ℕ → ℕ → ℕ → BinResult
unfolding bins_from number_of_bins
get_block_height_bins starting ending batch =
    if ltb ending starting
    then err ending_before_starting
    else if batch == 0
    then err zero_batch_size
    else ok (bins_from (number_of_bins ((ending - starting + 1) % u64) batch) starting ending batch)

-- shared.Gap of pkg/super_node/shared/types.go
pub record Gap : Type 0 where
  pub start : ℕ
  pub stop : ℕ

abbrev pub gap : ℕ → ℕ → Gap
gap a b = record { start = a; stop = b }

-- `for i, height := range heights[1:]`: `i + 2 == len(heights)` finds the last round.
pub gaps_loop : ℕ → ℕ → ℕ → ℕ → List ℕ → List Gap
gaps_loop total i start last_height [] = []
gaps_loop total i start last_height (height ∷ rest) =
    let broken = not (height == (last_height + 1) % u64) in
    let start' = if broken then height else start in
    let closed = if broken then gap start last_height ∷ [] else [] in
    let final = if i + 2 == total then gap start' height ∷ [] else [] in
    closed ++ (final ++ gaps_loop total (i + 1) start' height rest)

unfoldable pub missing_heights_to_gaps : List ℕ → List Gap
unfolding gaps_loop
missing_heights_to_gaps [] = []
missing_heights_to_gaps (start ∷ rest) = gaps_loop (length (start ∷ rest)) 0 start start rest
