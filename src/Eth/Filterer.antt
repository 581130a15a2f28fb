-- ===== src/Eth/Filterer.antt =====
-- pkg/super_node/eth/filterer.go. What the file calls of go-ethereum and go-cid is the record
-- Library, a parameter: `raw_data_to_cid` is ipld.RawdataToCid of pkg/ipfs/ipld/shared.go followed
-- by String(), and `address_key` is crypto.Keccak256Hash(common.HexToAddress(addr).Bytes()).
-- Parallel slices are read in step, and reading past the end of the second one panics.
pub mod Tests
pub mod Transactions
pub mod Response
pub mod Unmatched
use vulcanize_db.Prelude.{
  ℕ, zero, suc, ◌+◌, String, Bool, true, false, ◌&&◌, ◌||◌, not, List, [], ◌∷◌, ◌++◌, map, Option,
  none, some, ◌==◌, nat_eq, string_eq, any_of, is_empty, if◌then◌else◌,
}
use vulcanize_db.Prelude.Int.{ℤ, pos, leb_ℤ}
use vulcanize_db.Go.{Bytes, Result, ok, err, panic, ◌>>=◌}
use vulcanize_db.Ipfs.{BlockModel, pack}
use vulcanize_db.Eth.{
  HeaderFilter, TxFilter, ReceiptFilter, StateFilter, StorageFilter, SubscriptionSettings, Header,
  Transaction, Receipt, TxModel, ReceiptModel, NodeType, leaf, TrieNode, ConvertedPayload,
  StateNode, StorageNode, Iplds,
}
use vulcanize_db.Eth.Checks.{
  check_range, check_transaction_addrs, check_receipts, check_node_keys, is_leaf,
}

-- The codecs ipld.MEthHeader, MEthTx, MEthTxReceipt, MEthStateTrie and MEthStorageTrie
pub data Codec : Type 0 where
  eth_header eth_tx eth_tx_receipt eth_state_trie eth_storage_trie : Codec

pub record Library : Type 0 where
  pub raw_data_to_cid : Codec → Bytes → Result String
  pub address_key : String → ℕ
  pub hex_to_hash : String → ℕ
  pub bytes_to_hex : Bytes → String

abbrev pub no_block : BlockModel
no_block = record { cid = ""; content = [] }

abbrev pub no_iplds : Iplds
no_iplds = record {
  block_number = none;
  total_difficulty = none;
  header = no_block;
  uncles = [];
  transactions = [];
  receipts = [];
  state_nodes = [];
  storage_nodes = [];
}

module _ (lib : Library) where
  open lib use {raw_data_to_cid, address_key, hex_to_hash, bytes_to_hex}

  pub uncles_loop : List Header → Result (List BlockModel)
  uncles_loop [] = ok []
  uncles_loop (uncle ∷ rest) = do
    block ← pack (raw_data_to_cid eth_header) uncle.header_rlp
    blocks ← uncles_loop rest
    ok (block ∷ blocks)

  pub filter_headers : HeaderFilter → Iplds → ConvertedPayload → Result Iplds
  unfolding uncles_loop
  filter_headers f response payload = if f.off then ok response else do
    block ← pack (raw_data_to_cid eth_header) payload.block.header.header_rlp
    blocks ← if f.uncles then uncles_loop payload.block.uncles else ok response.uncles
    ok (record response { header = block; uncles = blocks })

  -- The blocks and the hashes of the wanted transactions.
  pub transactions_loop :
      TxFilter → List Transaction → List TxModel → Result (List BlockModel × List ℕ)
  unfolding check_transaction_addrs
  transactions_loop f [] metas = ok ([], [])
  transactions_loop f (trx ∷ rest) [] = panic
  transactions_loop f (trx ∷ rest) (meta ∷ metas) =
      let later = transactions_loop f rest metas in
      if check_transaction_addrs f.src f.dst meta.src meta.dst
      then (do
        block ← pack (raw_data_to_cid eth_tx) trx.encode_rlp
        found ← later
        ok (block ∷ found.0, trx.hash ∷ found.1))
      else later

  pub filter_transactions : TxFilter → Iplds → ConvertedPayload → Result (Iplds × List ℕ)
  unfolding transactions_loop
  filter_transactions f response payload = if f.off then ok (response, []) else do
    found ← transactions_loop f payload.block.transactions payload.tx_meta_data
    ok (record response { transactions = found.0 }, found.1)

  pub receipts_loop :
      ReceiptFilter → List ℕ → List Receipt → List ReceiptModel → Result (List BlockModel)
  unfolding check_receipts
  receipts_loop f trx_hashes [] metas = ok []
  receipts_loop f trx_hashes (receipt ∷ rest) [] = panic
  receipts_loop f trx_hashes (receipt ∷ rest) (meta ∷ metas) =
      let topics = meta.topic0s ∷ meta.topic1s ∷ meta.topic2s ∷ meta.topic3s ∷ [] in
      let later = receipts_loop f trx_hashes rest metas in
      if check_receipts receipt f.topics topics f.log_addresses meta.log_contracts trx_hashes
      then (do
        block ← pack (raw_data_to_cid eth_tx_receipt) receipt.encode_rlp
        blocks ← later
        ok (block ∷ blocks))
      else later

  pub filer_receipts : ReceiptFilter → Iplds → ConvertedPayload → List ℕ → Result Iplds
  unfolding receipts_loop
  filer_receipts f response payload trx_hashes = if f.off then ok response else do
    blocks ← receipts_loop f trx_hashes payload.receipts payload.receipt_meta_data
    ok (record response { receipts = blocks })

  pub storage_loop : List ℕ → TrieNode → List TrieNode → Result (List StorageNode)
  unfolding check_node_keys
  storage_loop storage_keys state_node [] = ok []
  storage_loop storage_keys state_node (node ∷ rest) =
      let later = storage_loop storage_keys state_node rest in
      if check_node_keys storage_keys node.leaf_key
      then (do
        block ← pack (raw_data_to_cid eth_storage_trie) (ok node.value)
        nodes ← later
        ok (
            record {
              node_type = node.node_type;
              state_leaf_key = state_node.leaf_key;
              storage_leaf_key = node.leaf_key;
              path = node.path;
              ipld = block;
            }
            ∷ nodes))
      else later

  -- The state node's own entry, if it is wanted.
  pub state_entry : StateFilter → List ℕ → TrieNode → Result (List StateNode)
  unfolding check_node_keys is_leaf
  state_entry f address_keys node =
      if (not f.off && check_node_keys address_keys node.leaf_key)
        && (is_leaf node.node_type || f.intermediate_nodes)
      then (do
        block ← pack (raw_data_to_cid eth_state_trie) (ok node.value)
        ok (
            record {
              node_type = node.node_type;
              state_leaf_key = node.leaf_key;
              path = node.path;
              ipld = block;
            }
            ∷ []))
      else ok []

  pub storage_entries :
      StorageFilter → List ℕ → List ℕ → TrieNode → List TrieNode → Result (List StorageNode)
  unfolding storage_loop
  storage_entries f address_keys storage_keys node nodes =
      if not f.off && check_node_keys address_keys node.leaf_key
      then storage_loop storage_keys node nodes
      else ok []

  pub state_loop :
      StateFilter
      → StorageFilter
      → ConvertedPayload
      → List TrieNode
      → Result (List StateNode × List StorageNode)
  unfolding state_entry storage_entries
  state_loop state_filter storage_filter payload [] = ok ([], [])
  state_loop state_filter storage_filter payload (node ∷ rest) = do
    state ← state_entry state_filter (map address_key state_filter.addresses) node
    storage ←
        storage_entries storage_filter (map address_key storage_filter.addresses)
          (map hex_to_hash storage_filter.storage_keys) node
          (payload.storage_nodes (bytes_to_hex node.path))
    later ← state_loop state_filter storage_filter payload rest
    ok (state ++ later.0, storage ++ later.1)

  pub filter_state_and_storage :
      StateFilter → StorageFilter → Iplds → ConvertedPayload → Result Iplds
  unfolding state_loop
  filter_state_and_storage state_filter storage_filter response payload = do
    found ← state_loop state_filter storage_filter payload payload.state_nodes
    ok (record response { state_nodes = found.0; storage_nodes = found.1 })

  pub filter : SubscriptionSettings → ConvertedPayload → Result Iplds
  unfolding filter_headers filter_transactions filer_receipts filter_state_and_storage
  filter f payload =
      if not (check_range f.start f.end payload.block.number) then ok no_iplds else do
        headed ←
            filter_headers f.header_filter
              (record no_iplds { total_difficulty = payload.total_difficulty }) payload
        found ← filter_transactions f.tx_filter headed payload
        receipted ←
            filer_receipts f.receipt_filter found.0 payload
              (if f.receipt_filter.match_txs then found.1 else [])
        stated ← filter_state_and_storage f.state_filter f.storage_filter receipted payload
        ok (record stated { block_number = some payload.block.number })
