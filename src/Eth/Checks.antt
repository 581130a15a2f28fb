-- ===== src/Eth/Checks.antt =====
-- The tests of pkg/super_node/eth/filterer.go: which block heights, transactions, receipts and trie
-- nodes a subscription wants. A loop that returns at the first match is `any_of`.
pub mod Meaning
use vulcanize_db.Prelude.{
  ℕ, ◌+◌, String, Bool, true, false, ◌&&◌, ◌||◌, List, [], ◌∷◌, ◌==◌, nat_eq, string_eq, any_of,
  is_empty, if◌then◌else◌,
}
use vulcanize_db.Prelude.Int.{ℤ, pos, leb_ℤ}
use vulcanize_db.Eth.{Receipt, NodeType, leaf}

unfoldable pub check_range : ℤ → ℤ → ℤ → Bool
check_range start end actual = (leb_ℤ end (pos 0) || leb_ℤ actual end) && leb_ℤ start actual

unfoldable pub check_transaction_addrs : List String → List String → String → String → Bool
check_transaction_addrs wanted_src wanted_dst actual_src actual_dst =
    (is_empty wanted_dst && is_empty wanted_src)
    || (any_of (λ src. src == actual_src) wanted_src
        || any_of (λ dst. dst == actual_dst) wanted_dst)

unfoldable pub slices_share_string : List String → List String → ℕ
slices_share_string slice1 slice2 =
    if any_of (λ str1. any_of (λ str2. str1 == str2) slice2) slice1 then 1 else 0

-- The loop of filterMatch: a slot with nothing wanted counts as a match.
unfoldable pub matches : List (List String) → List (List String) → ℕ
unfolding slices_share_string
matches wanted [] = 0
matches [] (actual ∷ rest) = 1 + matches [] rest
matches (wanted ∷ more) (actual ∷ rest) =
    (if is_empty wanted then 1 else slices_share_string actual wanted) + matches more rest

unfoldable pub filter_match : List (List String) → List (List String) → Bool
unfolding matches
filter_match wanted actual = matches wanted actual == 4

unfoldable pub check_receipts :
    Receipt → List (List String) → List (List String) → List String → List String → List ℕ → Bool
unfolding filter_match
check_receipts rct wanted_topics actual_topics wanted_addresses actual_addresses wanted_tx_hashes =
    (is_empty wanted_topics && (is_empty wanted_addresses && is_empty wanted_tx_hashes))
    || (any_of (λ wanted. wanted == rct.tx_hash) wanted_tx_hashes
        || ((is_empty wanted_addresses && filter_match wanted_topics actual_topics)
            || any_of
                (λ wanted.
                  any_of (λ actual. wanted == actual && filter_match wanted_topics actual_topics)
                    actual_addresses)
                wanted_addresses))

unfoldable pub check_node_keys : List ℕ → ℕ → Bool
check_node_keys wanted_keys actual_key =
    is_empty wanted_keys || any_of (λ key. key == actual_key) wanted_keys

unfoldable pub is_leaf : NodeType → Bool
is_leaf leaf = true
is_leaf _ = false
