-- ===== src/Eth/Retriever/Transactions.antt =====
-- The clause of RetrieveTxCIDs against checkTransactionAddrs of pkg/super_node/eth/filterer.go: what
-- a client is sent of old blocks against what it is sent of new ones.
use vulcanize_db.Prelude.{
  ◌≡◌, refl, String, Bool, true, false, ◌&&◌, ◌||◌, List, [], ◌∷◌, any_of, is_empty, ◌==◌, ◌⊎◌, inl,
  inr, string_eq, arith,
}
use vulcanize_db.Eth.{TxFilter, TxModel}
use vulcanize_db.Eth.Checks.{check_transaction_addrs}
use vulcanize_db.Eth.Retriever.{tx_condition}

abbrev pub from_wanted : TxFilter → TxModel → Bool
from_wanted f row = any_of (λ src. src == row.src) f.src

abbrev pub to_wanted : TxFilter → TxModel → Bool
to_wanted f row = any_of (λ dst. dst == row.dst) f.dst

-- When a client asks for sources or for destinations, or for neither, the query and the filterer
-- want the same transactions. When it asks for both, the query wants those with a wanted source
-- and a wanted destination, and the filterer those with either.
pub tx_condition-check_transaction_addrs :
    (f : TxFilter) (row : TxModel)
    → ((is_empty f.src ≡ true) ⊎ (is_empty f.dst ≡ true)
        → tx_condition f row ≡ check_transaction_addrs f.src f.dst row.src row.dst)
      × (is_empty f.src ≡ false
          → is_empty f.dst ≡ false
          → (tx_condition f row ≡ from_wanted f row && to_wanted f row)
            × (check_transaction_addrs f.src f.dst row.src row.dst
                ≡ from_wanted f row || to_wanted f row))
unfolding tx_condition check_transaction_addrs
tx_condition-check_transaction_addrs f row =
    (one_list f.src f.dst, λ s d. rw (s, d) (both_lists (from_wanted f row) (to_wanted f row)))
  where
    one_list :
        (src dst : List String)
        → (is_empty src ≡ true) ⊎ (is_empty dst ≡ true)
        → (is_empty dst || any_of (λ d. d == row.dst) dst)
            && (is_empty src || any_of (λ s. s == row.src) src)
          ≡ check_transaction_addrs src dst row.src row.dst
    one_list [] [] h = refl
    one_list [] (d ∷ dst) h = ground arith
    one_list (s ∷ src) [] h = ground arith
    one_list (s ∷ src) (d ∷ dst) (inl h) = cc
    one_list (s ∷ src) (d ∷ dst) (inr h) = cc

    both_lists : (a b : Bool) → (b && a ≡ a && b) × (a || b ≡ a || b)
    both_lists a b = (ground arith, refl)
