-- ===== src/Eth/Converter.antt =====
-- Convert of pkg/super_node/eth/converter.go. Decoding RLP, recovering a sender, deriving the fields
-- of receipts and hashing are go-ethereum's and are parameters (Library); a transaction, a log and a
-- receipt are what the code reads of them. Go visits a map's keys in any order; here it is that of
-- their insertion.
pub mod Logs
pub mod Paths
pub mod Payloads
pub mod Tests
use vulcanize_db.Prelude.{
  ℕ, zero, suc, ◌+◌, String, Bool, true, false, List, [], ◌∷◌, ◌++◌, map, any_of, Option, none,
  some, ◌==◌, string_eq, if◌then◌else◌,
}
use vulcanize_db.Prelude.Int.{ℤ, pos}
use vulcanize_db.Prelude.Assoc.{find}
use vulcanize_db.Go.{Bytes, Result, ok, err, panic, ◌>>=◌}
use vulcanize_db.Eth.{TxModel, ReceiptModel, NodeType, TrieNode}

-- An address is its hexadecimal text.
pub record BlockTransaction : Type 0 where
  pub to : Option String
  pub hash : String

pub record Log : Type 0 where
  pub address : String
  pub topics : List String

pub record BlockReceipt : Type 0 where
  pub logs : List Log
  pub contract_address : String

pub record StorageDiff : Type 0 where
  pub path : Bytes
  pub node_value : Bytes
  pub node_type : NodeType
  pub leaf_key : Bytes

pub record StateDiff : Type 0 where
  pub path : Bytes
  pub node_value : Bytes
  pub node_type : NodeType
  pub leaf_key : Bytes
  pub storage_nodes : List StorageDiff

-- statediff.Payload
pub record Payload : Type 0 where
  pub block_rlp : Bytes
  pub receipts_rlp : Bytes
  pub state_object_rlp : Bytes

pub record Library : Type 0 where
  pub decode_block : Bytes → Result (List BlockTransaction)
  pub decode_receipts : Bytes → Result (List BlockReceipt)
  pub derive_fields : List BlockTransaction → List BlockReceipt → Result (List BlockReceipt)
  pub decode_state_object : Bytes → Result (List StateDiff)
  pub sender : BlockTransaction → Result String
  pub keccak256_of_address : String → String
  pub bytes_to_hash : Bytes → ℕ
  pub bytes_to_hex : Bytes → String

abbrev pub null_address : String
null_address = "0x0000000000000000000000000000000000000000"

pub handle_null_addr : String → String
handle_null_addr to = if to == null_address then "" else to

abbrev pub handle_null_addr_pointer : Option String → String
handle_null_addr_pointer none = ""
handle_null_addr_pointer (some to) = to

-- `topicSets[i] = append(topicSets[i], topic.Hex())`, which panics past the sets
pub add_topics : List String → List (List String) → Result (List (List String))
add_topics [] sets = ok sets
add_topics (topic ∷ topics) [] = panic
add_topics (topic ∷ topics) (set ∷ sets) =
    add_topics topics sets >>= λ rest. ok ((set ++ topic ∷ []) ∷ rest)

-- `mappedContracts[addr] = true`
pub add_contract : String → List String → List String
add_contract address contracts =
    if any_of (λ c. c == address) contracts then contracts else contracts ++ address ∷ []

pub logs_loop :
    List Log → List (List String) → List String → Result (List (List String) × List String)
unfolding add_topics add_contract
logs_loop [] sets contracts = ok (sets, contracts)
logs_loop (log ∷ logs) sets contracts =
    add_topics log.topics sets >>= λ more. logs_loop logs more (add_contract log.address contracts)

-- topicSets[0] to topicSets[3]
abbrev pub topic_set : List (List String) → ℕ → List String
topic_set [] i = []
topic_set (set ∷ sets) zero = set
topic_set (set ∷ sets) (suc i) = topic_set sets i

-- `convertedPayload.StorageNodes[statePath] = append(...)`
pub append_at : String → TrieNode → List (String × List TrieNode) → List (String × List TrieNode)
append_at path node [] = (path, node ∷ []) ∷ []
append_at path node ((key, nodes) ∷ rest) =
    let later = append_at path node rest in
    if key == path then (key, nodes ++ node ∷ []) ∷ rest else (key, nodes) ∷ later

-- A ConvertedPayload, without the block and the total difficulty, which are those of the payload
pub record Converted : Type 0 where
  pub tx_meta_data : List TxModel
  pub receipts : List BlockReceipt
  pub receipt_meta_data : List ReceiptModel
  pub state_nodes : List TrieNode
  pub storage_nodes : List (String × List TrieNode)

module _ (lib : Library) where
  open lib use {
    decode_block, decode_receipts, derive_fields, decode_state_object, sender, keccak256_of_address,
    bytes_to_hash, bytes_to_hex,
  }

  pub tx_meta : BlockTransaction → ℕ → String → TxModel
  unfolding handle_null_addr
  tx_meta trx i from = record {
    id = pos 0;
    header_id = pos 0;
    index = pos i;
    tx_hash = trx.hash;
    cid = "";
    dst = handle_null_addr_pointer trx.to;
    src = handle_null_addr from;
  }

  pub transactions_loop : List BlockTransaction → ℕ → Result (List TxModel)
  unfolding tx_meta
  transactions_loop [] i = ok []
  transactions_loop (trx ∷ trxs) i = do
    from ← sender trx
    rest ← transactions_loop trxs (i + 1)
    ok (tx_meta trx i from ∷ rest)

  -- A contract's hash is that of its address, and empty without a contract.
  abbrev pub contract_hash_of : String → String
  contract_hash_of contract = if contract == "" then "" else keccak256_of_address contract

  abbrev pub receipt_model : BlockReceipt → List (List String) × List String → ReceiptModel
  receipt_model receipt found = record {
    id = pos 0;
    tx_id = pos 0;
    cid = "";
    contract = handle_null_addr receipt.contract_address;
    contract_hash = contract_hash_of (handle_null_addr receipt.contract_address);
    log_contracts = found.1;
    topic0s = topic_set found.0 0;
    topic1s = topic_set found.0 1;
    topic2s = topic_set found.0 2;
    topic3s = topic_set found.0 3;
  }

  pub receipt_meta : BlockReceipt → Result ReceiptModel
  unfolding logs_loop handle_null_addr
  receipt_meta receipt = logs_loop receipt.logs ([] ∷ [] ∷ [] ∷ [] ∷ []) [] >>= λ found.
      ok (receipt_model receipt found)

  pub receipts_loop : List BlockReceipt → Result (List ReceiptModel)
  unfolding receipt_meta
  receipts_loop [] = ok []
  receipts_loop (receipt ∷ receipts) = do
    first ← receipt_meta receipt
    rest ← receipts_loop receipts
    ok (first ∷ rest)

  abbrev pub storage_trie_node : StorageDiff → TrieNode
  storage_trie_node node = record {
    path = node.path;
    leaf_key = bytes_to_hash node.leaf_key;
    value = node.node_value;
    node_type = node.node_type;
  }

  abbrev pub state_trie_node : StateDiff → TrieNode
  state_trie_node node = record {
    path = node.path;
    leaf_key = bytes_to_hash node.leaf_key;
    value = node.node_value;
    node_type = node.node_type;
  }

  pub storage_loop :
      String → List StorageDiff → List (String × List TrieNode) → List (String × List TrieNode)
  unfolding append_at
  storage_loop path [] found = found
  storage_loop path (node ∷ nodes) found =
      storage_loop path nodes (append_at path (storage_trie_node node) found)

  pub state_loop :
      List StateDiff → List (String × List TrieNode) → List TrieNode × List (String × List TrieNode)
  unfolding storage_loop
  state_loop [] found = ([], found)
  state_loop (node ∷ nodes) found =
      let rest =
        state_loop nodes (storage_loop (bytes_to_hex node.path) node.storage_nodes found) in
      (state_trie_node node ∷ rest.0, rest.1)

  pub convert : Payload → Result Converted
  unfolding transactions_loop receipts_loop state_loop
  convert payload = do
    transactions ← decode_block payload.block_rlp
    tx_meta_data ← transactions_loop transactions 0
    decoded ← decode_receipts payload.receipts_rlp
    receipts ← derive_fields transactions decoded
    receipt_meta_data ← receipts_loop receipts
    nodes ← decode_state_object payload.state_object_rlp
    let states = state_loop nodes []
    ok (record {
      tx_meta_data = tx_meta_data;
      receipts = receipts;
      receipt_meta_data = receipt_meta_data;
      state_nodes = states.0;
      storage_nodes = states.1;
    })
