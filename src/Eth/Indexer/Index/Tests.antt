-- ===== src/Eth/Indexer/Index/Tests.antt =====
-- A block with an uncle, a transaction with its receipt and a state leaf.
use vulcanize_db.Prelude.{ℕ, ◌≡◌, ◌≢◌, ◌↔◌, refl, inl, inr, [], ◌∷◌, map, some, arith}
use vulcanize_db.Prelude.Int.{pos}
use vulcanize_db.Go.{ok}
use vulcanize_db.Eth.{TxModel, ReceiptModel}
use vulcanize_db.Eth.Indexer.{HeaderModel, CidPayload, Hex, Store, Table, Refusals}
use vulcanize_db.Eth.Indexer.Index.{index}
use vulcanize_db.Eth.Indexer.Index.Linked.{IsLinked}
use vulcanize_db.Eth.Indexer.Index.Preserved.{index-IsLinked}
use vulcanize_db.Eth.Indexer.Index.Validated.{accepting, heights, validated, index-Missing}
use vulcanize_db.Eth.Indexer.Index.Again.{index-index}
use vulcanize_db.Eth.Indexer.Index.Complete.{index-Stored}
use vulcanize_db.Eth.Indexer.Index.Stored.{Stored}
use vulcanize_db.Eth.Retriever.Gaps.Missing.{Missing}

abbrev no_rows : {Columns : Type 0} → Table Columns
no_rows = record { rows = []; next_id = 1 }

abbrev header : ℕ → HeaderModel
header number = record {
  block_number = number;
  block_hash = "h";
  parent_hash = "p";
  cid = "c";
  total_difficulty = "1";
  reward = "2";
  state_root = "s";
  uncle_root = "u";
  tx_root = "t";
  rct_root = "r";
  bloom = [];
  timestamp = 9;
}

-- Blocks 2 and 5 are stored.
abbrev pub store : Store
store = record {
  header_rows =
      record { id = 1; columns = header 2; times_validated = pos 1 }
      ∷ record { id = 2; columns = header 5; times_validated = pos 1 }
      ∷ [];
  next_header_id = 3;
  uncles = no_rows;
  transactions = no_rows;
  receipts = no_rows;
  states = no_rows;
  storages = no_rows;
  accounts = no_rows;
}

abbrev tx : TxModel
tx = record {
  id = pos 0;
  header_id = pos 0;
  index = pos 0;
  tx_hash = "t";
  cid = "tc";
  dst = "b";
  src = "a";
}

abbrev receipt : ReceiptModel
receipt = record {
  id = pos 0;
  tx_id = pos 0;
  cid = "rc";
  contract = "";
  contract_hash = "";
  log_contracts = [];
  topic0s = [];
  topic1s = [];
  topic2s = [];
  topic3s = [];
}

abbrev payload : ℕ → CidPayload
payload number = record {
  header_cid = header number;
  uncle_cids = record { block_hash = "u"; parent_hash = "p"; cid = "uc"; reward = "1" } ∷ [];
  transaction_cids = tx ∷ [];
  receipt_cids = (7, receipt) ∷ [];
  state_node_cids = record { path = 6 ∷ []; state_key = "k"; node_type = pos 2; cid = "sc" } ∷ [];
  state_accounts =
      ("06", record { balance = "9"; nonce = 1; code_hash = 5 ∷ []; storage_root = "r" }) ∷ [];
  storage_node_cids =
      ("06", record { path = 1 ∷ []; storage_key = "s"; node_type = pos 2; cid = "stc" } ∷ []) ∷ [];
}

abbrev pub hex : Hex
hex = record { hex_to_hash = λ text. 7; bytes_to_hex = λ bytes. "06" }

abbrev pub full_disk : Refusals
full_disk = record accepting { on_commit = some "disk full" }

index_parents :
    let s = (index hex accepting (payload 4) store).0 in
    (map (λ row. row.parent_id) s.transactions.rows ≡ 3 ∷ [])
    × (map (λ row. row.parent_id) s.receipts.rows ≡ 1 ∷ [])
    × (map (λ row. row.parent_id) s.storages.rows ≡ 1 ∷ [])
    × (map (λ row. row.parent_id) s.accounts.rows ≡ 1 ∷ [])
unfolding index
index_parents = (refl, refl, refl, refl)

pub store-IsLinked : IsLinked store
store-IsLinked = record {
  uncles_linked = tt;
  transactions_linked = tt;
  receipts_linked = tt;
  states_linked = tt;
  storages_linked = tt;
  accounts_linked = tt;
}

index-IsLinked_example : IsLinked (index hex accepting (payload 4) store).0
index-IsLinked_example = index-IsLinked hex accepting (payload 4) store store-IsLinked

four-Missing : Missing 4 (heights store)
four-Missing = (refl, (5, inr (inl refl), omega arith))

index-Missing_example :
    Missing 3 (heights (index hex accepting (payload 4) store).0)
    ↔ (Missing 3 (heights store) × ◌≢◌ {A = ℕ} 3 4)
index-Missing_example = index-Missing hex (payload 4) store four-Missing 3

index-index_example :
    let once = (index hex accepting (payload 4) store).0 in
    (index hex accepting (payload 4) once).0.header_rows
    ≡ map (validated (header 4)) once.header_rows
index-index_example = index-index hex (payload 4) store

-- The commit is refused: the tables are as before, and the answer is a success.
lost_commit : index hex full_disk (payload 4) store ≡ (store, ok tt)
unfolding index
lost_commit = refl

index-Stored_example :
    Stored hex (payload 4) (index hex accepting (payload 4) store).0
    × ((index hex accepting (payload 4) store).1 ≡ ok tt)
index-Stored_example = index-Stored hex (payload 4) store
