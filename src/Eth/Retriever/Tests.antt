-- ===== src/Eth/Retriever/Tests.antt =====
-- The ethereum retriever on a transaction and on a receipt.
use vulcanize_db.Prelude.{
  ◌≡◌, refl, ◌↔◌, ◌⊎◌, Bool, true, false, ◌&&◌, ◌||◌, [], ◌∷◌, some, none, is_empty, string_eq,
  nat_eq, arith,
}
use vulcanize_db.Prelude.Int.{pos, int_eq}
use vulcanize_db.Go.{ok}
use vulcanize_db.Eth.{TxFilter, ReceiptFilter, TxModel, ReceiptModel, Receipt}
use vulcanize_db.Eth.Checks.{check_transaction_addrs, check_receipts}
use vulcanize_db.Eth.Retriever.{tx_condition, rct_condition}
use vulcanize_db.Eth.Retriever.Transactions.{
  tx_condition-check_transaction_addrs, from_wanted, to_wanted,
}
use vulcanize_db.Eth.Retriever.Receipts.{columns, rct_condition-check_receipts}

abbrev tx_filter : TxFilter
tx_filter = record { off = false; src = "a" ∷ []; dst = "b" ∷ [] }

-- From a to c.
abbrev tx : TxModel
tx = record {
  id = pos 1;
  header_id = pos 1;
  index = pos 0;
  tx_hash = "t";
  cid = "c";
  dst = "c";
  src = "a";
}

tx_condition-check_transaction_addrs_example :
    ((is_empty tx_filter.src ≡ true) ⊎ (is_empty tx_filter.dst ≡ true)
      → tx_condition tx_filter tx ≡ check_transaction_addrs ("a" ∷ []) ("b" ∷ []) "a" "c")
    × (is_empty tx_filter.src ≡ false
        → is_empty tx_filter.dst ≡ false
        → (tx_condition tx_filter tx ≡ from_wanted tx_filter tx && to_wanted tx_filter tx)
          × (check_transaction_addrs ("a" ∷ []) ("b" ∷ []) "a" "c"
              ≡ from_wanted tx_filter tx || to_wanted tx_filter tx))
tx_condition-check_transaction_addrs_example = tx_condition-check_transaction_addrs tx_filter tx

-- The two disagree on this transaction.
disagree :
    (tx_condition tx_filter tx ≡ false)
    × (check_transaction_addrs ("a" ∷ []) ("b" ∷ []) "a" "c" ≡ true)
unfolding tx_condition check_transaction_addrs
disagree = (refl, refl)

abbrev row : ReceiptModel
row = record {
  id = pos 1;
  tx_id = pos 4;
  cid = "c";
  contract = "";
  contract_hash = "";
  log_contracts = "x" ∷ [];
  topic0s = "t" ∷ "u" ∷ [];
  topic1s = "v" ∷ [];
  topic2s = [];
  topic3s = [];
}

abbrev receipt : Receipt
receipt = record { tx_hash = 21; encode_rlp = ok [] }

abbrev by_topics : ReceiptFilter
by_topics = record {
  off = false;
  match_txs = true;
  log_addresses = "x" ∷ [];
  topics = [] ∷ ("v" ∷ []) ∷ [];
}

rct_condition-check_receipts_example :
    (test : ReceiptModel → Bool) × (rct_condition by_topics (pos 4 ∷ []) ≡ some test)
    × ((test row ≡ true) ↔ (
        check_receipts receipt by_topics.topics
          (columns row)
          by_topics.log_addresses
          row.log_contracts
          (21 ∷ [])
        ≡ true))
rct_condition-check_receipts_example =
    rct_condition-check_receipts by_topics (pos 4 ∷ []) row receipt (21 ∷ []) (omega arith) refl
      refl

abbrev by_txs : ReceiptFilter
by_txs = record { off = false; match_txs = true; log_addresses = []; topics = [] }

-- A fifth topic set that is not empty makes a text that Postgres rejects.
fifth_topic :
    rct_condition (record by_topics { topics = [] ∷ [] ∷ [] ∷ [] ∷ ("t" ∷ []) ∷ [] }) [] ≡ none
unfolding rct_condition
fifth_topic = refl
