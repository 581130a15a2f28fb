-- ===== src/Eth/Publisher/Publish/Tests.antt =====
-- A block with an uncle, two transactions, their receipts and a state leaf with a storage node.
use vulcanize_db.Prelude.{ℕ, ◌≡◌, refl, String, List, [], ◌∷◌, some}
use vulcanize_db.Prelude.Int.{ℤ, pos, ◌+ℤ◌, ◌*ℤ◌}
use vulcanize_db.Go.{Bytes, ok, panic}
use vulcanize_db.Rewards.{calc_eth_block_reward}
use vulcanize_db.Eth.{TxModel, ReceiptModel, TrieNode, leaf}
use vulcanize_db.Eth.Indexer.{StateNodeModel, StorageNodeModel, StateAccountModel, CidPayload}
use vulcanize_db.Eth.Publisher.{
  BlockHeader, ConvertedPayload, Library, BlockNodes, from_block_and_receipts,
}
use vulcanize_db.Eth.Publisher.Publish.{
  block_reward, publish_state_nodes, publish_storage_nodes, publish,
}
use vulcanize_db.Eth.Publisher.Publish.Payloads.{accepting, Publishes, publish-Publishes}

abbrev header : ℕ → String → BlockHeader
header number hash = record {
  encoded = ok (number ∷ []);
  number = number;
  hash = hash;
  parent_hash = "0xp";
  root = "0xs";
  tx_hash = "0xt";
  receipt_hash = "0xr";
  uncle_hash = "0xu";
  bloom = [];
  time = 3;
}

abbrev tx_meta : String → ℤ → TxModel
tx_meta hash index = record {
  id = pos 0;
  header_id = pos 0;
  index = index;
  tx_hash = hash;
  cid = "";
  dst = "0xb";
  src = "0xa";
}

abbrev receipt_meta : ReceiptModel
receipt_meta = record {
  id = pos 0;
  tx_id = pos 0;
  cid = "";
  contract = "";
  contract_hash = "";
  log_contracts = [];
  topic0s = [];
  topic1s = [];
  topic2s = [];
  topic3s = [];
}

abbrev node_at : Bytes → TrieNode
node_at path = record { path = path; leaf_key = 4; value = 1 ∷ []; node_type = leaf }

abbrev pub payload : ConvertedPayload
payload = record {
  total_difficulty = pos 100;
  block = record {
    header = header 7 "0xh";
    uncles = header 6 "0xg" ∷ [];
    transactions =
        record { encoded = ok (8 ∷ []); gas_price = pos 2 }
        ∷ record { encoded = ok (9 ∷ []); gas_price = pos 1 }
        ∷ [];
  };
  tx_meta_data = tx_meta "0x1" (pos 0) ∷ tx_meta "0x2" (pos 1) ∷ [];
  receipts =
      record { encoded = ok (5 ∷ []); tx_hash = 1; gas_used = pos 21 }
      ∷ record { encoded = ok (6 ∷ []); tx_hash = 2; gas_used = pos 30 }
      ∷ [];
  receipt_meta_data = receipt_meta ∷ receipt_meta ∷ [];
  state_nodes = node_at (6 ∷ []) ∷ [];
  storage_nodes = ("06", node_at (1 ∷ []) ∷ []) ∷ [];
}

abbrev account : StateAccountModel
account = record { balance = "9"; nonce = 1; code_hash = 5 ∷ []; storage_root = "0xr" }

abbrev pub lib : Library
lib = record {
  tx_trie = λ nodes. ("0xt", (11 ∷ []) ∷ []);
  receipt_trie = λ nodes. ("0xr", (12 ∷ []) ∷ []);
  from_state_trie_rlp = λ bytes. ok bytes;
  from_storage_trie_rlp = λ bytes. ok bytes;
  decode_elements = λ bytes. ok (some (2 ∷ []) ∷ some (3 ∷ []) ∷ []);
  decode_account = λ bytes. ok account;
  hash_text = λ hash. "0x4";
  big_text = λ n. "1";
  bytes_to_hex = λ bytes. "06";
}

abbrev pub cid_of : Bytes → String
cid_of bytes = "cid"

abbrev nodes : BlockNodes
nodes = record {
  header_node = 7 ∷ [];
  uncle_nodes = (header 6 "0xg", 6 ∷ []) ∷ [];
  tx_nodes =
      (record { encoded = ok (8 ∷ []); gas_price = pos 2 }, 8 ∷ [])
      ∷ (record { encoded = ok (9 ∷ []); gas_price = pos 1 }, 9 ∷ [])
      ∷ [];
  tx_trie_nodes = (11 ∷ []) ∷ [];
  rct_nodes =
      (record { encoded = ok (5 ∷ []); tx_hash = 1; gas_used = pos 21 }, 5 ∷ [])
      ∷ (record { encoded = ok (6 ∷ []); tx_hash = 2; gas_used = pos 30 }, 6 ∷ [])
      ∷ [];
  rct_trie_nodes = (12 ∷ []) ∷ [];
}

made : from_block_and_receipts lib payload.block payload.receipts ≡ ok nodes
unfolding from_block_and_receipts
made = refl

-- A receipt without metadata makes Publish panic.
no_metadata : publish lib (accepting cid_of) (record payload { receipt_meta_data = [] }) ≡ panic
unfolding publish from_block_and_receipts calc_eth_block_reward
no_metadata = refl

abbrev states : List StateNodeModel × List (String × StateAccountModel)
states = (
  record { path = 6 ∷ []; state_key = "0x4"; node_type = pos 2; cid = "cid" } ∷ [],
  ("06", account) ∷ [],
)

abbrev storages : List (String × List StorageNodeModel)
storages =
    ("06", record { path = 1 ∷ []; storage_key = "0x4"; node_type = pos 2; cid = "cid" } ∷ []) ∷ []

paid : block_reward lib payload ≡ ok (pos 5156250000000000072)
unfolding calc_eth_block_reward ◌+ℤ◌ ◌*ℤ◌
paid = refl

stated : publish_state_nodes lib (accepting cid_of) payload.state_nodes [] ≡ ok states
unfolding publish_state_nodes
stated = refl

stored : publish_storage_nodes lib (accepting cid_of) payload.storage_nodes ≡ ok storages
unfolding publish_storage_nodes
stored = refl

publish-Publishes_example :
    (cids : CidPayload) × (publish lib (accepting cid_of) payload ≡ ok cids)
    × Publishes cid_of payload nodes cids
publish-Publishes_example =
    publish-Publishes lib cid_of payload nodes (pos 5156250000000000072) states storages made paid
      refl refl (refl, (refl, tt)) stated stored
