-- ===== src/Eth/Indexer/Index/Stored.antt =====
-- What Index is to leave in the tables for a payload, and that it stays there while they gain keys.
use vulcanize_db.Prelude.{
  ℕ, ◌≡◌, Bool, true, false, String, List, Any, All, All-imp, Option, none, some, ◌==◌, nat_eq,
  bytes_eq, string_eq,
}
use vulcanize_db.Prelude.Int.{pos, int_eq}
use vulcanize_db.Prelude.Assoc.{find}
use vulcanize_db.Eth.{TxModel, ReceiptModel}
use vulcanize_db.Eth.Indexer.{
  UncleModel, StateNodeModel, StorageNodeModel, StateAccountModel, CidPayload, Hex, Store, Table,
}
use vulcanize_db.Eth.Indexer.Index.{nodes_or_none}
use vulcanize_db.Eth.Indexer.Index.Growing.{
  uncle_key, tx_key, receipt_key, state_path, storage_path, account_key, Grows,
}
use vulcanize_db.Eth.Indexer.Index.Keys.{HasKey, Kept}

-- Some row under the parent has the key.
abbrev pub Has : {Columns K : Type 0} → (Columns → K) → Table Columns → ℕ → K → Type 0
Has key table parent k = (id : ℕ) × HasKey key table.rows id parent k

-- A uncle of the block is under its header.
abbrev pub UncleStored : ℕ → UncleModel → Store → Type 0
UncleStored header_id uncle t = Has uncle_key t.uncles header_id uncle.block_hash

-- The receipt of a transaction, if it has one, is under it.
abbrev pub ReceiptStored : Option ReceiptModel → ℕ → Store → Type 0
ReceiptStored none tx_id t = Unit {0}
ReceiptStored (some receipt) tx_id t = Has receipt_key t.receipts tx_id tt

-- The account of a state node, if it has one, is under it.
abbrev pub AccountStored : Option StateAccountModel → ℕ → Store → Type 0
AccountStored none state_id t = Unit {0}
AccountStored (some account) state_id t = Has account_key t.accounts state_id tt

module _ (hex : Hex) where
  -- A transaction is under the header, and its receipt under it.
  abbrev pub TransactionStored : List (ℕ × ReceiptModel) → ℕ → TxModel → Store → Type 0
  TransactionStored receipts header_id tx t =
      (id : ℕ) × HasKey tx_key t.transactions.rows id header_id tx.tx_hash
      × ReceiptStored (find (hex.hex_to_hash tx.tx_hash) receipts) id t

  -- Under a leaf are its storage nodes and its account.
  abbrev pub LeafStored : Bool → CidPayload → String → ℕ → Store → Type 0
  LeafStored false payload path id t = Unit {0}
  LeafStored true payload path id t =
      All (λ node. Has storage_path t.storages id node.path)
        (nodes_or_none (find path payload.storage_node_cids))
      × AccountStored (find path payload.state_accounts) id t

  -- A state node is under the header, and what belongs to it under it.
  abbrev pub StateStored : CidPayload → ℕ → StateNodeModel → Store → Type 0
  StateStored payload header_id state t =
      (id : ℕ) × HasKey state_path t.states.rows id header_id state.path
      × LeafStored (state.node_type == pos 2) payload (hex.bytes_to_hex state.path) id t

  -- What is under a header
  abbrev pub UnderStored : CidPayload → ℕ → Store → Type 0
  UnderStored payload header_id t =
      All (λ uncle. UncleStored header_id uncle t) payload.uncle_cids
      × All (λ tx. TransactionStored payload.receipt_cids header_id tx t) payload.transaction_cids
      × All (λ state. StateStored payload header_id state t) payload.state_node_cids

  -- The header is there with its columns, and all of the payload under it.
  abbrev pub Stored : CidPayload → Store → Type 0
  Stored payload t =
      (header_id : ℕ) × Any (λ row. (row.id ≡ header_id) × (row.columns ≡ payload.header_cid))
        t.header_rows
      × UnderStored payload header_id t

pub row_stays :
    {Columns K : Type 0} (key : Columns → K) (before after : Table Columns) (parent : ℕ) (k : K)
    → Kept key before after
    → Has key before parent k
    → Has key after parent k
row_stays key before after parent k kept (id, h) = (id, kept id parent k h)

pub receipt_stays :
    (receipt : Option ReceiptModel) (id : ℕ) (s t : Store)
    → Grows s t
    → ReceiptStored receipt id s
    → ReceiptStored receipt id t
receipt_stays none id s t g h = tt
receipt_stays (some receipt) id s t g h =
    row_stays receipt_key s.receipts t.receipts id tt g.receipts_kept h

pub account_stays :
    (account : Option StateAccountModel) (id : ℕ) (s t : Store)
    → Grows s t
    → AccountStored account id s
    → AccountStored account id t
account_stays none id s t g h = tt
account_stays (some account) id s t g h =
    row_stays account_key s.accounts t.accounts id tt g.accounts_kept h

module _ (hex : Hex) where
  pub transaction_stays :
      (receipts : List (ℕ × ReceiptModel)) (header_id : ℕ) (tx : TxModel) (s t : Store)
      → Grows s t
      → TransactionStored hex receipts header_id tx s
      → TransactionStored hex receipts header_id tx t
  transaction_stays receipts header_id tx s t g (id, here, receipt) = (
    id,
    g.transactions_kept id header_id tx.tx_hash here,
    receipt_stays (find (hex.hex_to_hash tx.tx_hash) receipts) id s t g receipt,
  )

  pub storages_stay :
      (nodes : List StorageNodeModel) (state_id : ℕ) (s t : Store)
      → Grows s t
      → All (λ node. Has storage_path s.storages state_id node.path) nodes
      → All (λ node. Has storage_path t.storages state_id node.path) nodes
  storages_stay nodes state_id s t g h =
      All-imp (λ node. Has storage_path s.storages state_id node.path)
        (λ node. Has storage_path t.storages state_id node.path) nodes
        (λ node there.
          row_stays storage_path s.storages t.storages state_id node.path g.storages_kept there)
        h

  pub leaf_stays :
      (leaf : Bool) (payload : CidPayload) (path : String) (id : ℕ) (s t : Store)
      → Grows s t
      → LeafStored hex leaf payload path id s
      → LeafStored hex leaf payload path id t
  leaf_stays false payload path id s t g h = tt
  leaf_stays true payload path id s t g h = (
    storages_stay (nodes_or_none (find path payload.storage_node_cids)) id s t g h.0,
    account_stays (find path payload.state_accounts) id s t g h.1,
  )

  pub state_stays :
      (payload : CidPayload) (header_id : ℕ) (state : StateNodeModel) (s t : Store)
      → Grows s t
      → StateStored hex payload header_id state s
      → StateStored hex payload header_id state t
  state_stays payload header_id state s t g (id, here, leaf) = (
    id,
    g.states_kept id header_id state.path here,
    leaf_stays (state.node_type == pos 2) payload (hex.bytes_to_hex state.path) id s t g leaf,
  )
