-- ===== src/Eth/Publisher/Publish.antt =====
-- The functions of pkg/super_node/eth/publisher.go, which put nodes and collect their CIDs.
pub mod Maps
pub mod Payloads
pub mod Tests
use vulcanize_db.Prelude.{ℕ, String, List, [], ◌∷◌, map, Option, none, some, nat_eq, string_eq}
use vulcanize_db.Prelude.Int.{ℤ, pos}
use vulcanize_db.Prelude.Assoc.{insert}
use vulcanize_db.Go.{Bytes, Result, ok, err, panic, ◌>>=◌}
use vulcanize_db.Rewards.{calc_eth_block_reward, calc_uncle_miner_reward}
use vulcanize_db.Eth.{
  TxModel, ReceiptModel, NodeType, branch, extension, leaf, removed, unknown, TrieNode,
}
use vulcanize_db.Eth.Indexer.{
  HeaderModel, UncleModel, StateNodeModel, StorageNodeModel, StateAccountModel, CidPayload,
}
use vulcanize_db.Eth.Publisher.{
  BlockHeader, Transaction, Receipt, ConvertedPayload, Library, Putters, BlockNodes,
  resolve_from_node_type, from_block_and_receipts,
}

-- The models that the publishers write
module _ (lib : Library) where
  open lib use {decode_account, hash_text, big_text}

  abbrev pub uncle_model : ℕ → BlockHeader → String → UncleModel
  uncle_model number uncle cid = record {
    block_hash = uncle.hash;
    parent_hash = uncle.parent_hash;
    cid = cid;
    reward = big_text (calc_uncle_miner_reward (pos number) (pos uncle.number));
  }

  -- The account of a leaf that decodes into two elements; `i[1].([]byte)` panics on another type.
  abbrev pub account_of : String → List (Option Bytes) → Result StateAccountModel
  account_of message (key ∷ none ∷ []) = panic
  account_of message (key ∷ some value ∷ []) = decode_account value
  account_of message elements = err message

  abbrev pub state_model : TrieNode → String → StateNodeModel
  state_model state cid = record {
    path = state.path;
    state_key = hash_text state.leaf_key;
    node_type = resolve_from_node_type state.node_type;
    cid = cid;
  }

  abbrev pub storage_model : TrieNode → String → StorageNodeModel
  storage_model storage cid = record {
    path = storage.path;
    storage_key = hash_text storage.leaf_key;
    node_type = resolve_from_node_type storage.node_type;
    cid = cid;
  }

  abbrev pub header_model : ConvertedPayload → String → ℤ → HeaderModel
  header_model payload cid reward =
      let header = payload.block.header in
      record {
        block_number = header.number;
        block_hash = header.hash;
        parent_hash = header.parent_hash;
        cid = cid;
        total_difficulty = big_text payload.total_difficulty;
        reward = big_text reward;
        state_root = header.root;
        uncle_root = header.uncle_hash;
        tx_root = header.tx_hash;
        rct_root = header.receipt_hash;
        bloom = header.bloom;
        timestamp = header.time;
      }

  abbrev pub block_reward : ConvertedPayload → Result ℤ
  block_reward payload =
      calc_eth_block_reward (pos payload.block.header.number) payload.block.uncles
        (map (λ tx. tx.gas_price) payload.block.transactions)
        (map (λ rct. rct.gas_used) payload.receipts)

module _ (lib : Library) (putters : Putters) where
  open lib use {
    from_state_trie_rlp, from_storage_trie_rlp, decode_elements, decode_account, hash_text,
    big_text, bytes_to_hex,
  }
  open putters use {
    header_putter, transaction_putter, transaction_trie_putter, receipt_putter, receipt_trie_putter,
    state_putter, storage_putter,
  }

  -- The nodes of a trie are put for their effect only.
  pub put_all : (Bytes → Result String) → List Bytes → Result (Unit {0})
  put_all put [] = ok tt
  put_all put (node ∷ nodes) = put node >>= λ cid. put_all put nodes

  pub publish_uncles : ℕ → List (BlockHeader × Bytes) → Result (List UncleModel)
  publish_uncles number [] = ok []
  publish_uncles number ((uncle, node) ∷ nodes) = do
    cid ← header_putter node
    rest ← publish_uncles number nodes
    ok (uncle_model lib number uncle cid ∷ rest)

  abbrev pub tx_with_cid : String → TxModel → TxModel
  tx_with_cid cid meta = record {
    id = pos 0;
    header_id = pos 0;
    index = meta.index;
    tx_hash = meta.tx_hash;
    cid = cid;
    dst = meta.dst;
    src = meta.src;
  }

  -- `trxMeta[i]` panics past the end of the metadata.
  pub put_transactions : List (Transaction × Bytes) → List TxModel → Result (List TxModel)
  put_transactions [] metas = ok []
  put_transactions ((tx, node) ∷ nodes) [] = transaction_putter node >>= λ cid. panic
  put_transactions ((tx, node) ∷ nodes) (meta ∷ metas) = do
    cid ← transaction_putter node
    rest ← put_transactions nodes metas
    ok (tx_with_cid cid meta ∷ rest)

  pub publish_transactions :
      List (Transaction × Bytes) → List Bytes → List TxModel → Result (List TxModel)
  unfolding put_transactions put_all
  publish_transactions nodes trie_nodes metas = do
    cids ← put_transactions nodes metas
    done ← put_all transaction_trie_putter trie_nodes
    ok cids

  abbrev pub receipt_with_cid : String → ReceiptModel → ReceiptModel
  receipt_with_cid cid meta = record meta { id = pos 0; tx_id = pos 0; cid = cid }

  pub put_receipts :
      List (Receipt × Bytes)
      → List ReceiptModel
      → List (ℕ × ReceiptModel)
      → Result (List (ℕ × ReceiptModel))
  put_receipts [] metas cids = ok cids
  put_receipts ((rct, node) ∷ nodes) [] cids = receipt_putter node >>= λ cid. panic
  put_receipts ((rct, node) ∷ nodes) (meta ∷ metas) cids = receipt_putter node >>= λ cid.
      put_receipts nodes metas (insert rct.tx_hash (receipt_with_cid cid meta) cids)

  pub publish_receipts :
      List (Receipt × Bytes) → List Bytes → List ReceiptModel → Result (List (ℕ × ReceiptModel))
  unfolding put_receipts put_all
  publish_receipts nodes trie_nodes metas = do
    cids ← put_receipts nodes metas []
    done ← put_all receipt_trie_putter trie_nodes
    ok cids

  abbrev pub account_if :
      NodeType
      → TrieNode
      → List (String × StateAccountModel)
      → Result (List (String × StateAccountModel))
  account_if leaf node accounts = do
    elements ← decode_elements node.value
    account ←
        account_of lib "IPLDPublisher expected state leaf node rlp to decode into two elements"
          elements
    ok (insert (bytes_to_hex node.path) account accounts)
  account_if other node accounts = ok accounts

  pub publish_state_nodes :
      List TrieNode
      → List (String × StateAccountModel)
      → Result (List StateNodeModel × List (String × StateAccountModel))
  unfolding resolve_from_node_type
  publish_state_nodes [] accounts = ok ([], accounts)
  publish_state_nodes (state ∷ states) accounts = do
    node ← from_state_trie_rlp state.value
    cid ← state_putter node
    more ← account_if state.node_type state accounts
    rest ← publish_state_nodes states more
    ok (state_model lib state cid ∷ rest.0, rest.1)

  pub put_storage_nodes : List TrieNode → Result (List StorageNodeModel)
  unfolding resolve_from_node_type
  put_storage_nodes [] = ok []
  put_storage_nodes (storage ∷ storages) = do
    node ← from_storage_trie_rlp storage.value
    cid ← storage_putter node
    rest ← put_storage_nodes storages
    ok (storage_model lib storage cid ∷ rest)

  pub publish_storage_nodes :
      List (String × List TrieNode) → Result (List (String × List StorageNodeModel))
  unfolding put_storage_nodes
  publish_storage_nodes [] = ok []
  publish_storage_nodes ((path, storages) ∷ tries) = do
    cids ← put_storage_nodes storages
    rest ← publish_storage_nodes tries
    ok ((path, cids) ∷ rest)

  pub publish : ConvertedPayload → Result CidPayload
  unfolding from_block_and_receipts publish_uncles publish_transactions publish_receipts
      publish_state_nodes publish_storage_nodes
  publish payload = do
    nodes ← from_block_and_receipts lib payload.block payload.receipts
    header_cid ← header_putter nodes.header_node
    reward ← block_reward lib payload
    uncle_cids ← publish_uncles payload.block.header.number nodes.uncle_nodes
    transaction_cids ← publish_transactions nodes.tx_nodes nodes.tx_trie_nodes payload.tx_meta_data
    receipt_cids ← publish_receipts nodes.rct_nodes nodes.rct_trie_nodes payload.receipt_meta_data
    states ← publish_state_nodes payload.state_nodes []
    storage_node_cids ← publish_storage_nodes payload.storage_nodes
    ok (record {
      header_cid = header_model lib payload header_cid reward;
      uncle_cids = uncle_cids;
      transaction_cids = transaction_cids;
      receipt_cids = receipt_cids;
      state_node_cids = states.0;
      state_accounts = states.1;
      storage_node_cids = storage_node_cids;
    })
