-- ===== src/Eth/Indexer/Index.antt =====
-- Index of pkg/super_node/eth/indexer.go: the statements for a block in one database transaction.
pub mod Linked
pub mod Steps
pub mod Statements
pub mod Preserved
pub mod Growing
pub mod Keys
pub mod Returning
pub mod Validated
pub mod Again
pub mod Stored
pub mod Ending
pub mod Complete
pub mod Tests
use vulcanize_db.Prelude.{
  ℕ, String, Bool, true, List, [], ◌∷◌, Option, none, some, ◌==◌, string_eq, nat_eq, bytes_eq,
  if◌then◌else◌,
}
use vulcanize_db.Prelude.Int.{ℤ, pos, int_eq}
use vulcanize_db.Prelude.Assoc.{find}
use vulcanize_db.Go.{Result, ok, err, panic, ◌>>=◌}
use vulcanize_db.Eth.{TxModel, ReceiptModel}
use vulcanize_db.Eth.Indexer.{
  HeaderModel, UncleModel, StateNodeModel, StorageNodeModel, StateAccountModel, CidPayload, Hex,
  Store, Statement, insert_header, insert_uncle, insert_transaction, insert_receipt, insert_state,
  insert_account, insert_storage, Refusals, unless_refused, upsert, header_conflict,
  insert_or_validate,
}

abbrev pub null_hash : String
null_hash = "0x0000000000000000000000000000000000000000000000000000000000000000"

-- A leaf key that is the null hash is stored as the empty text.
abbrev pub leaf_key : String → String
leaf_key key = if key == null_hash then "" else key

-- A map's missing key reads as nil, over which `range` makes no round.
abbrev pub nodes_or_none : Option (List StorageNodeModel) → List StorageNodeModel
nodes_or_none none = []
nodes_or_none (some nodes) = nodes

-- The deferred function: what failed is not committed. (After an error of the uncles or the
-- transactions, whose variable shadows the one that is tested here, Commit is called instead of
-- Rollback; the database rolls back a transaction in which a statement has failed.) The error of Commit
-- is assigned to a variable whose value Index has returned already: the caller is told of a success.
abbrev pub deferred : {A : Type 0} → A → Result A → Option String → A × Result (Unit {0})
deferred before panic commit = (before, panic)
deferred before (err e) commit = (before, err e)
deferred before (ok after) (some e) = (before, ok tt)
deferred before (ok after) none = (after, ok tt)

module _ (hex : Hex) (refusals : Refusals) where
  open hex use {hex_to_hash, bytes_to_hex}
  open refusals use {on_begin, on_statement, on_commit}

  pub index_header_cid : HeaderModel → Store → Result (Store × ℕ)
  unfolding header_conflict
  index_header_cid header s =
      unless_refused (on_statement (insert_header header))
        (insert_or_validate header s (header_conflict header s.header_rows))

  pub index_uncle_cid : UncleModel → ℕ → Store → Result Store
  unfolding upsert
  index_uncle_cid uncle header_id s = unless_refused (on_statement (insert_uncle uncle)) (record s {
    uncles = (upsert (λ c. c.block_hash == uncle.block_hash) header_id uncle s.uncles).0;
  })

  pub index_uncles : List UncleModel → ℕ → Store → Result Store
  unfolding index_uncle_cid
  index_uncles [] header_id s = ok s
  index_uncles (uncle ∷ uncles) header_id s =
      index_uncle_cid uncle header_id s >>= λ next. index_uncles uncles header_id next

  pub index_transaction_cid : TxModel → ℕ → Store → Result (Store × ℕ)
  unfolding upsert
  index_transaction_cid transaction header_id s =
      let done =
        upsert (λ c. c.tx_hash == transaction.tx_hash) header_id transaction s.transactions in
      unless_refused (on_statement (insert_transaction transaction))
        (record s { transactions = done.0 }, done.1)

  -- A receipt is unique for its transaction.
  pub index_receipt_cid : ReceiptModel → ℕ → Store → Result Store
  unfolding upsert
  index_receipt_cid receipt tx_id s =
      unless_refused (on_statement (insert_receipt receipt))
        (record s { receipts = (upsert (λ c. true) tx_id receipt s.receipts).0 })

  abbrev pub index_receipt_if : Option ReceiptModel → ℕ → Store → Result Store
  index_receipt_if none tx_id s = ok s
  index_receipt_if (some receipt) tx_id s = index_receipt_cid receipt tx_id s

  pub index_transaction_and_receipt_cids :
      List (ℕ × ReceiptModel) → List TxModel → ℕ → Store → Result Store
  unfolding index_transaction_cid index_receipt_cid
  index_transaction_and_receipt_cids receipts [] header_id s = ok s
  index_transaction_and_receipt_cids receipts (tx ∷ txs) header_id s = do
    done ← index_transaction_cid tx header_id s
    next ← index_receipt_if (find (hex_to_hash tx.tx_hash) receipts) done.1 done.0
    index_transaction_and_receipt_cids receipts txs header_id next

  pub index_state_cid : StateNodeModel → ℕ → Store → Result (Store × ℕ)
  unfolding upsert
  index_state_cid state header_id s =
      let columns = record state { state_key = leaf_key state.state_key } in
      let done = upsert (λ c. c.path == state.path) header_id columns s.states in
      unless_refused (on_statement (insert_state state)) (record s { states = done.0 }, done.1)

  pub index_state_account : StateAccountModel → ℕ → Store → Result Store
  unfolding upsert
  index_state_account account state_id s =
      unless_refused (on_statement (insert_account account))
        (record s { accounts = (upsert (λ c. true) state_id account s.accounts).0 })

  abbrev pub index_account_if : Option StateAccountModel → ℕ → Store → Result Store
  index_account_if none state_id s = ok s
  index_account_if (some account) state_id s = index_state_account account state_id s

  pub index_storage_cid : StorageNodeModel → ℕ → Store → Result Store
  unfolding upsert
  index_storage_cid storage state_id s =
      let columns = record storage { storage_key = leaf_key storage.storage_key } in
      unless_refused (on_statement (insert_storage storage)) (record s {
        storages = (upsert (λ c. c.path == storage.path) state_id columns s.storages).0;
      })

  pub index_storages : List StorageNodeModel → ℕ → Store → Result Store
  unfolding index_storage_cid
  index_storages [] state_id s = ok s
  index_storages (storage ∷ storages) state_id s =
      index_storage_cid storage state_id s >>= λ next. index_storages storages state_id next

  -- `if stateCID.NodeType == 2`: a leaf has storage nodes and an account.
  pub index_leaf : CidPayload → StateNodeModel → ℕ → Store → Result Store
  unfolding index_storages index_state_account
  index_leaf payload state state_id s =
      if state.node_type == pos 2
      then (index_storages
            (nodes_or_none (find (bytes_to_hex state.path) payload.storage_node_cids)) state_id s
          >>= λ next.
              index_account_if (find (bytes_to_hex state.path) payload.state_accounts) state_id
                next)
      else ok s

  pub index_state_and_storage_cids : CidPayload → List StateNodeModel → ℕ → Store → Result Store
  unfolding index_state_cid index_leaf
  index_state_and_storage_cids payload [] header_id s = ok s
  index_state_and_storage_cids payload (state ∷ states) header_id s = do
    done ← index_state_cid state header_id s
    next ← index_leaf payload state done.1 done.0
    index_state_and_storage_cids payload states header_id next

  -- The statements of Index after the header's
  pub index_under : CidPayload → ℕ → Store → Result Store
  unfolding index_uncles index_transaction_and_receipt_cids index_state_and_storage_cids
  index_under payload header_id s = do
    with_uncles ← index_uncles payload.uncle_cids header_id s
    with_txs ←
        index_transaction_and_receipt_cids payload.receipt_cids payload.transaction_cids header_id
          with_uncles
    index_state_and_storage_cids payload payload.state_node_cids header_id with_txs

  pub index_all : CidPayload → Store → Result Store
  unfolding index_header_cid index_under
  index_all payload s =
      index_header_cid payload.header_cid s >>= λ done. index_under payload done.1 done.0

  pub index : CidPayload → Store → Store × Result (Unit {0})
  unfolding index_all
  index payload s =
      deferred s (unless_refused on_begin s >>= λ begun. index_all payload begun) on_commit
