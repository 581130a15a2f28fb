-- ===== src/Heights/Tests.antt =====
-- GetBlockHeightBins and MissingHeightsToGaps at concrete inputs.
use vulcanize_db.Prelude.{
  ℕ, ◌≡◌, refl, ◌≤◌, ◌<◌, ◌-◌, ◌+◌, List, [], ◌∷◌, arith, length, All, interval, concat,
}
use vulcanize_db.Heights.{
  ok, err, zero_batch_size, get_block_height_bins, missing_heights_to_gaps, gap,
}
use vulcanize_db.Heights.Bins.{get_block_height_bins-covers}
use vulcanize_db.Heights.Gaps.{expand, expand-missing_heights_to_gaps}

bins_of_seven :
    get_block_height_bins 3 9 3 ≡ ok ((3 ∷ 4 ∷ 5 ∷ []) ∷ (6 ∷ 7 ∷ 8 ∷ []) ∷ (9 ∷ []) ∷ [])
unfolding get_block_height_bins
bins_of_seven = refl

bins_of_no_size : get_block_height_bins 3 9 0 ≡ err zero_batch_size
unfolding get_block_height_bins
bins_of_no_size = refl

get_block_height_bins-covers_example :
    (bins : List (List ℕ)) × (get_block_height_bins 3 9 3 ≡ ok bins)
    × (concat bins ≡ interval 3 (9 + 1 - 3))
    × All (λ bin. (0 < length bin) × (length bin ≤ 3)) bins
get_block_height_bins-covers_example =
    get_block_height_bins-covers 3 9 3 (omega arith) (omega arith) (omega arith)

abbrev top : ℕ
top = 18446744073709551615

gaps_of_six :
    missing_heights_to_gaps (4 ∷ 5 ∷ 7 ∷ 8 ∷ 9 ∷ 12 ∷ []) ≡ gap 4 5 ∷ gap 7 9 ∷ gap 12 12 ∷ []
unfolding missing_heights_to_gaps
gaps_of_six = refl

expand-missing_heights_to_gaps_example :
    expand (missing_heights_to_gaps (4 ∷ 5 ∷ 7 ∷ 12 ∷ [])) ≡ 4 ∷ 5 ∷ 7 ∷ 12 ∷ []
expand-missing_heights_to_gaps_example =
    expand-missing_heights_to_gaps 4 5 (7 ∷ 12 ∷ []) (omega arith) (omega arith)
