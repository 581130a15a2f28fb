-- ===== src/Headers/Checking.antt =====
-- The check counts: which headers are given out to be checked.
use vulcanize_db.Prelude.{
  ◌≡◌, refl, String, ◌&&◌, List, [], ◌∷◌, map, keep, ◌==◌, nat_eq, string_eq, arith,
}
use vulcanize_db.Prelude.Int.{ℤ, pos, negsuc, leb_ℤ, int_eq, ◌<ℤ◌}
use vulcanize_db.Headers.{HeaderRow, mark_headers_unchecked, unchecked_headers}

abbrev pub reset_count : HeaderRow → HeaderRow
reset_count row = record row { check_count = pos 0 }

-- After MarkHeadersUnchecked from a block on, UncheckedHeaders from that block without an ending
-- block gives out all headers of the node from it on, for every check count above 0.
pub unchecked_headers-mark_headers_unchecked :
    (start count : ℤ) (node : String) (rows : List HeaderRow)
    → pos 0 <ℤ count
    → unchecked_headers start (negsuc 0) count node (mark_headers_unchecked start rows)
      ≡ map reset_count
          (keep (λ row. leb_ℤ start row.block_number && (row.eth_node_fingerprint == node)) rows)
unfolding unchecked_headers mark_headers_unchecked
unchecked_headers-mark_headers_unchecked start count node [] positive = refl
unchecked_headers-mark_headers_unchecked start count node (row ∷ rows) positive =
    ground (arith, unchecked_headers-mark_headers_unchecked start count node rows positive)
