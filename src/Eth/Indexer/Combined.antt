-- ===== src/Eth/Indexer/Combined.antt =====
-- pkg/super_node/eth/publish_and_indexer.go: Publish, which writes the blocks of IPFS and the indexer's
-- tables in one database transaction, and PublishIPLD and PublishRaw of pkg/super_node/shared. The
-- names of nodes and the keys of public.blocks are the IPLD libraries' (Naming).
pub mod Links
pub mod Invariant
pub mod Whole
pub mod Tests
use vulcanize_db.Prelude.{
  ℕ, String, Bool, true, false, List, [], ◌∷◌, ◌++◌, Option, none, some, ◌==◌, string_eq,
  if◌then◌else◌,
}
use vulcanize_db.Prelude.Int.{ℤ}
use vulcanize_db.Prelude.Assoc.{has, find}
use vulcanize_db.Go.{Bytes, Result, ok, err, panic, ◌>>=◌}
use vulcanize_db.Eth.{TxModel, ReceiptModel, NodeType, leaf, TrieNode}
use vulcanize_db.Eth.Indexer.{HeaderModel, Hex, Store, Refusals, unless_refused}
use vulcanize_db.Eth.Indexer.Index.{
  index_header_cid, index_uncle_cid, index_transaction_cid, index_receipt_cid, index_state_cid,
  index_state_account, index_storage_cid, deferred,
}
use vulcanize_db.Eth.Publisher.{
  BlockHeader, Transaction, Receipt, ConvertedPayload, Library, BlockNodes, from_block_and_receipts,
}
use vulcanize_db.Eth.Publisher.Publish.{
  uncle_model, state_model, storage_model, header_model, block_reward, account_of,
}

-- public.blocks and the tables of schema eth
pub record Database : Type 0 where
  pub blocks : List (String × Bytes)
  pub tables : Store

pub record Naming : Type 0 where
  pub cid_of : Bytes → String
  pub state_cid : Bytes → Result String
  pub storage_cid : Bytes → Result String
  pub key_of : String → String
  pub on_block : Bytes → Option String

-- `ON CONFLICT (key) DO NOTHING`
abbrev pub insert_block : String → Bytes → List (String × Bytes) → List (String × Bytes)
insert_block key raw blocks = if has key blocks then blocks else blocks ++ (key, raw) ∷ []

-- A statement of the indexer, on the tables
abbrev pub on_tables : Database → Result Store → Result Database
on_tables db written = written >>= λ tables. ok (record db { tables = tables })

abbrev pub on_tables_row : Database → Result (Store × ℕ) → Result (Database × ℕ)
on_tables_row db written = written >>= λ done. ok (record db { tables = done.0 }, done.1)

abbrev pub nodes_under : Option (List TrieNode) → List TrieNode
nodes_under none = []
nodes_under (some nodes) = nodes

module _ (lib : Library) (naming : Naming) (hex : Hex) (refusals : Refusals) where
  open naming use {cid_of, state_cid, storage_cid, key_of, on_block}

  pub publish_ipld : Bytes → Database → Result Database
  publish_ipld node db =
      unless_refused (on_block node)
        (record db { blocks = insert_block (key_of (cid_of node)) node db.blocks })

  pub publish_raw : (Bytes → Result String) → Bytes → Database → Result (Database × String)
  publish_raw raw_data_to_cid raw db = do
    cid ← raw_data_to_cid raw
    unless_refused (on_block raw)
        (record db { blocks = insert_block (key_of cid) raw db.blocks }, cid)

  pub publish_trie : List Bytes → Database → Result Database
  unfolding publish_ipld
  publish_trie [] db = ok db
  publish_trie (node ∷ nodes) db = publish_ipld node db >>= λ next. publish_trie nodes next

  pub publish_and_index_uncles : ℕ → List (BlockHeader × Bytes) → ℕ → Database → Result Database
  unfolding publish_ipld
  publish_and_index_uncles number [] header_id db = ok db
  publish_and_index_uncles number ((uncle, node) ∷ nodes) header_id db = do
    published ← publish_ipld node db
    next ← on_tables published (
        index_uncle_cid hex refusals (uncle_model lib number uncle (cid_of node)) header_id
          published.tables)
    publish_and_index_uncles number nodes header_id next

  -- `rctNodes[i]`, `TxMetaData[i]` and `ReceiptMetaData[i]` panic past their ends.
  pub publish_and_index_transactions :
      List (Transaction × Bytes)
      → List (Receipt × Bytes)
      → List TxModel
      → List ReceiptModel
      → ℕ
      → Database
      → Result Database
  unfolding publish_ipld
  publish_and_index_transactions [] rcts metas rct_metas header_id db = ok db
  publish_and_index_transactions (tx ∷ txs) [] metas rct_metas header_id db =
      publish_ipld tx.1 db >>= λ published. panic
  publish_and_index_transactions (tx ∷ txs) (rct ∷ rcts) [] rct_metas header_id db = do
    published ← publish_ipld tx.1 db
    both ← publish_ipld rct.1 published
    panic
  publish_and_index_transactions (tx ∷ txs) (rct ∷ rcts) (meta ∷ metas) [] header_id db = do
    published ← publish_ipld tx.1 db
    both ← publish_ipld rct.1 published
    done ← on_tables_row both (
        index_transaction_cid hex refusals (record meta { cid = cid_of tx.1 }) header_id
          both.tables)
    panic
  publish_and_index_transactions (tx ∷ txs) (rct ∷ rcts) (meta ∷ metas) (rct_meta ∷ rct_metas)
        header_id db =
      do
        published ← publish_ipld tx.1 db
        both ← publish_ipld rct.1 published
        done ← on_tables_row both (
            index_transaction_cid hex refusals (record meta { cid = cid_of tx.1 }) header_id
              both.tables)
        next ← on_tables done.0 (
            index_receipt_cid hex refusals (record rct_meta { cid = cid_of rct.1 }) done.1
              done.0.tables)
        publish_and_index_transactions txs rcts metas rct_metas header_id next

  pub publish_and_index_storages : List TrieNode → ℕ → Database → Result Database
  unfolding publish_raw
  publish_and_index_storages [] state_id db = ok db
  publish_and_index_storages (storage ∷ storages) state_id db = do
    named ← publish_raw storage_cid storage.value db
    next ←
        on_tables named.0 (
          index_storage_cid hex refusals (storage_model lib storage named.1) state_id
            named.0.tables)
    publish_and_index_storages storages state_id next

  -- A leaf has an account and storage nodes.
  abbrev pub publish_and_index_leaf :
      NodeType → TrieNode → List (String × List TrieNode) → ℕ → Database → Result Database
  publish_and_index_leaf leaf state storage_nodes state_id db = do
    elements ← lib.decode_elements state.value
    account ←
        account_of lib
          "eth IPLDPublisherAndIndexer expected state leaf node rlp to decode into two elements"
          elements
    next ← on_tables db (index_state_account hex refusals account state_id db.tables)
    publish_and_index_storages (nodes_under (find (lib.bytes_to_hex state.path) storage_nodes))
        state_id next
  publish_and_index_leaf other state storage_nodes state_id db = ok db

  pub publish_and_index_state_and_storage :
      List TrieNode → List (String × List TrieNode) → ℕ → Database → Result Database
  unfolding publish_raw publish_and_index_storages
  publish_and_index_state_and_storage [] storage_nodes header_id db = ok db
  publish_and_index_state_and_storage (state ∷ states) storage_nodes header_id db = do
    named ← publish_raw state_cid state.value db
    done ←
        on_tables_row named.0
          (index_state_cid hex refusals (state_model lib state named.1) header_id named.0.tables)
    next ← publish_and_index_leaf state.node_type state storage_nodes done.1 done.0
    publish_and_index_state_and_storage states storage_nodes header_id next

  -- The statements of Publish after the header's
  pub publish_and_index_under : ConvertedPayload → BlockNodes → ℕ → Database → Result Database
  unfolding publish_and_index_uncles publish_and_index_transactions
      publish_and_index_state_and_storage
  publish_and_index_under payload nodes header_id db = do
    with_uncles ←
        publish_and_index_uncles payload.block.header.number nodes.uncle_nodes header_id db
    with_txs ←
        publish_and_index_transactions nodes.tx_nodes nodes.rct_nodes payload.tx_meta_data
          payload.receipt_meta_data header_id with_uncles
    publish_and_index_state_and_storage payload.state_nodes payload.storage_nodes header_id with_txs

  pub publish_and_index_all : ConvertedPayload → BlockNodes → Database → Result Database
  unfolding publish_trie publish_ipld publish_and_index_under
  publish_and_index_all payload nodes db = do
    with_txs ← publish_trie nodes.tx_trie_nodes db
    with_rcts ← publish_trie nodes.rct_trie_nodes with_txs
    with_header ← publish_ipld nodes.header_node with_rcts
    reward ← block_reward lib payload
    done ← on_tables_row with_header (
        index_header_cid hex refusals (header_model lib payload (cid_of nodes.header_node) reward)
          with_header.tables)
    publish_and_index_under payload nodes done.1 done.0

  -- Nodes that cannot be made are an error before the database transaction begins.
  abbrev pub in_database_transaction :
      ConvertedPayload → Database → Result BlockNodes → Database × Result (Unit {0})
  in_database_transaction payload db panic = (db, panic)
  in_database_transaction payload db (err e) = (db, err e)
  in_database_transaction payload db (ok nodes) =
      deferred db
        (unless_refused refusals.on_begin db >>= λ begun. publish_and_index_all payload nodes begun)
        refusals.on_commit

  pub publish_and_index : ConvertedPayload → Database → Database × Result (Unit {0})
  unfolding publish_and_index_all
  publish_and_index payload db =
      in_database_transaction payload db
        (from_block_and_receipts lib payload.block payload.receipts)
