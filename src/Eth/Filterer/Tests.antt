-- ===== src/Eth/Filterer/Tests.antt =====
-- The ethereum filterer on a block of two transactions.
use vulcanize_db.Prelude.{String, ◌≡◌, ◌↔◌, ◌⊎◌, refl, true, false, List, [], ◌∷◌, some, Any}
use vulcanize_db.Prelude.Int.{ℤ, pos}
use vulcanize_db.Go.{Bytes, ok}
use vulcanize_db.Ipfs.{BlockModel, pack}
use vulcanize_db.Eth.{Receipt, TxModel, ReceiptModel, ConvertedPayload, Iplds, SubscriptionSettings}
use vulcanize_db.Eth.Checks.{check_range, check_receipts}
use vulcanize_db.Eth.Checks.Meaning.{check_receipts_iff, Conforms, Shares}
use vulcanize_db.Eth.Filterer.{Library, filter_transactions, filter, no_iplds, no_block}
use vulcanize_db.Eth.Filterer.Transactions.{Selects, filter_transactions_iff}

abbrev pub library : Library
library = record {
  raw_data_to_cid = λ codec bytes. ok "cid";
  address_key = λ a. 0;
  hex_to_hash = λ h. 0;
  bytes_to_hex = λ b. "";
}

abbrev tx_model : String → String → TxModel
tx_model src dst = record {
  id = pos 0;
  header_id = pos 0;
  index = pos 0;
  tx_hash = "";
  cid = "";
  dst = dst;
  src = src;
}

abbrev receipt_model : ReceiptModel
receipt_model = record {
  id = pos 0;
  tx_id = pos 0;
  cid = "";
  contract = "";
  contract_hash = "";
  log_contracts = "c" ∷ [];
  topic0s = "t" ∷ [];
  topic1s = [];
  topic2s = [];
  topic3s = [];
}

abbrev pub payload : ConvertedPayload
payload = record {
  total_difficulty = some (pos 1000);
  block = record {
    number = pos 7;
    header = record { header_rlp = ok (1 ∷ []) };
    uncles = [];
    transactions =
        record { hash = 21; encode_rlp = ok (2 ∷ []) }
        ∷ record { hash = 22; encode_rlp = ok (3 ∷ []) }
        ∷ [];
  };
  tx_meta_data = tx_model "x" "y" ∷ tx_model "y" "z" ∷ [];
  receipts =
      record { tx_hash = 21; encode_rlp = ok (4 ∷ []) }
      ∷ record { tx_hash = 22; encode_rlp = ok (5 ∷ []) }
      ∷ [];
  receipt_meta_data = receipt_model ∷ receipt_model ∷ [];
  state_nodes = [];
  storage_nodes = λ path. [];
}

abbrev pub settings : ℤ → String → SubscriptionSettings
settings start src = record {
  back_fill = false;
  back_fill_only = false;
  start = start;
  end = pos 0;
  header_filter = record { off = true; uncles = false };
  tx_filter = record { off = false; src = src ∷ []; dst = [] };
  receipt_filter = record { off = false; match_txs = true; log_addresses = []; topics = [] };
  state_filter = record { off = true; addresses = []; intermediate_nodes = false };
  storage_filter = record {
    off = true;
    addresses = [];
    storage_keys = [];
    intermediate_nodes = false;
  };
}

abbrev block : Bytes → BlockModel
block bytes = record { cid = "cid"; content = bytes }

abbrev response : List BlockModel → List BlockModel → Iplds
response transactions receipts = record {
  block_number = some (pos 7);
  total_difficulty = some (pos 1000);
  header = no_block;
  uncles = [];
  transactions = transactions;
  receipts = receipts;
  state_nodes = [];
  storage_nodes = [];
}

-- One transaction is from y; both receipts are served.
matched :
    filter library (settings (pos 0) "y") payload
    ≡ ok (response (block (3 ∷ []) ∷ []) (block (4 ∷ []) ∷ block (5 ∷ []) ∷ []))
unfolding filter check_range pack
matched = refl

-- No transaction is from w, and both receipts are served.
unmatched :
    filter library (settings (pos 0) "w") payload
    ≡ ok (response [] (block (4 ∷ []) ∷ block (5 ∷ []) ∷ []))
unfolding filter check_range pack
unmatched = refl

filter_transactions_iff_example :
    (filter_transactions library (settings (pos 0) "y").tx_filter no_iplds payload
      ≡ ok (record no_iplds { transactions = block (3 ∷ []) ∷ [] }, 22 ∷ []))
    ↔ Selects library
        (settings (pos 0) "y").tx_filter
        payload.block.transactions
        payload.tx_meta_data
        (block (3 ∷ []) ∷ [])
        (22 ∷ [])
filter_transactions_iff_example =
    filter_transactions_iff library (settings (pos 0) "y").tx_filter no_iplds payload
      (block (3 ∷ []) ∷ []) (22 ∷ []) refl

abbrev receipt : Receipt
receipt = record { tx_hash = 21; encode_rlp = ok (4 ∷ []) }

check_receipts_iff_example :
    (check_receipts receipt
        (("t" ∷ []) ∷ [])
        (("t" ∷ []) ∷ [] ∷ [] ∷ [] ∷ [])
        ("c" ∷ [])
        ("c" ∷ [])
        []
      ≡ true)
    ↔ (Any (λ hash. hash ≡ receipt.tx_hash) []
        ⊎ Conforms (("t" ∷ []) ∷ []) (("t" ∷ []) ∷ [] ∷ [] ∷ [] ∷ [])
          × ((◌≡◌ {A = List String} ("c" ∷ []) []) ⊎ Shares ("c" ∷ []) ("c" ∷ [])))
check_receipts_iff_example =
    check_receipts_iff receipt (("t" ∷ []) ∷ []) ("t" ∷ []) [] [] [] ("c" ∷ []) ("c" ∷ []) []
