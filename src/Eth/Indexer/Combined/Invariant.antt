-- ===== src/Eth/Indexer/Combined/Invariant.antt =====
-- The loops of the combined publisher and indexer leave the tables linked.
use vulcanize_db.Prelude.{ℕ, ◌≡◌, String, true, List, [], ◌∷◌, string_eq}
use vulcanize_db.Prelude.Assoc.{find}
use vulcanize_db.Go.{Bytes, Result, ok, err, panic, ◌>>=◌, OnOk}
use vulcanize_db.Eth.{
  TxModel, ReceiptModel, TrieNode, NodeType, branch, extension, leaf, removed, unknown,
}
use vulcanize_db.Eth.Indexer.{Hex, Refusals}
use vulcanize_db.Eth.Indexer.Index.{
  index_transaction_cid, index_receipt_cid, index_state_cid, index_state_account, index_storage_cid,
}
use vulcanize_db.Eth.Indexer.Index.Linked.{has_header}
use vulcanize_db.Eth.Indexer.Index.Steps.{Step-refl}
use vulcanize_db.Eth.Indexer.Index.Statements.{
  HasTransaction, HasState, index_transaction_cid-RowStep, index_receipt_cid-Step,
  index_state_cid-RowStep, index_state_account-Step, index_storage_cid-Step,
}
use vulcanize_db.Eth.Indexer.Combined.{
  Database, Naming, on_tables, on_tables_row, nodes_under, publish_ipld, publish_raw,
  publish_and_index_transactions, publish_and_index_storages, publish_and_index_leaf,
  publish_and_index_state_and_storage, publish_and_index_under,
}
use vulcanize_db.Eth.Publisher.{Transaction, Receipt, ConvertedPayload, Library, BlockNodes}
use vulcanize_db.Eth.Publisher.Publish.{state_model, storage_model}
use vulcanize_db.Eth.Indexer.Combined.Links.{
  Moves, Moves-chain, on_tables-Moves, on_tables_row-MovesRow, MovesRow-chain, named-chain,
  publish_ipld-Moves, publish_raw-Moves, publish_and_index_uncles-Moves,
}

module _ (lib : Library) (naming : Naming) (hex : Hex) (refusals : Refusals) where
  -- A chain whose outcome is a panic
  panics : {A : Type 0} (db : Database) (call : Result A) → OnOk (Moves db) (call >>= λ t. panic)
  panics db panic = tt
  panics db (err e) = tt
  panics db (ok t) = tt

  publish_and_index_transactions-Moves :
      (txs : List (Transaction × Bytes)) (rcts : List (Receipt × Bytes)) (metas : List TxModel)
      (rct_metas : List ReceiptModel) (header_id : ℕ) (db : Database)
      → has_header db.tables.header_rows header_id ≡ true
      → OnOk (Moves db) (
          publish_and_index_transactions lib naming hex refusals txs rcts metas rct_metas header_id
            db)
  unfolding publish_and_index_transactions
  publish_and_index_transactions-Moves [] rcts metas rct_metas header_id db there =
      Step-refl db.tables
  publish_and_index_transactions-Moves (tx ∷ txs) [] metas rct_metas header_id db there =
      panics db (publish_ipld lib naming hex refusals tx.1 db)
  publish_and_index_transactions-Moves (tx ∷ txs) (rct ∷ rcts) [] rct_metas header_id db there =
      Moves-chain db (publish_ipld lib naming hex refusals tx.1 db) _
        (publish_ipld-Moves lib naming hex refusals tx.1 db)
        (λ t step. panics t (publish_ipld lib naming hex refusals rct.1 t))
  publish_and_index_transactions-Moves (tx ∷ txs) (rct ∷ rcts) (meta ∷ metas) [] header_id db
        there =
      Moves-chain db (publish_ipld lib naming hex refusals tx.1 db) _
        (publish_ipld-Moves lib naming hex refusals tx.1 db)
        (λ t step.
          Moves-chain t (publish_ipld lib naming hex refusals rct.1 t) _
            (publish_ipld-Moves lib naming hex refusals rct.1 t) (λ u next. panics u _))
  publish_and_index_transactions-Moves (tx ∷ txs) (rct ∷ rcts) (meta ∷ metas) (rct_meta ∷ rct_metas)
        header_id db there =
      Moves-chain db (publish_ipld lib naming hex refusals tx.1 db) _
        (publish_ipld-Moves lib naming hex refusals tx.1 db)
        (λ published first.
          Moves-chain published (publish_ipld lib naming hex refusals rct.1 published) _
            (publish_ipld-Moves lib naming hex refusals rct.1 published)
            (λ both second.
              let model = record meta { cid = naming.cid_of tx.1 } in
              let here : has_header both.tables.header_rows header_id ≡ true =
                rw (second.headers_same, first.headers_same) there in
              MovesRow-chain HasTransaction both
                (on_tables_row both
                  (index_transaction_cid hex refusals model header_id both.tables))
                _
                (on_tables_row-MovesRow HasTransaction both _
                  (index_transaction_cid-RowStep hex refusals model header_id both.tables here))
                (λ done third found.
                  let rct_model = record rct_meta { cid = naming.cid_of rct.1 } in
                  Moves-chain done.0
                    (on_tables done.0
                      (index_receipt_cid hex refusals rct_model done.1 done.0.tables))
                    _
                    (on_tables-Moves done.0 _
                      (index_receipt_cid-Step hex refusals rct_model done.1 done.0.tables found))
                    (λ next fourth.
                      publish_and_index_transactions-Moves txs rcts metas rct_metas header_id next
                        (rw (fourth.headers_same, third.headers_same) here)))))

  publish_and_index_storages-Moves :
      (storages : List TrieNode) (state_id : ℕ) (db : Database)
      → HasState db.tables state_id
      → OnOk (Moves db) (publish_and_index_storages lib naming hex refusals storages state_id db)
  unfolding publish_and_index_storages
  publish_and_index_storages-Moves [] state_id db there = Step-refl db.tables
  publish_and_index_storages-Moves (storage ∷ storages) state_id db there =
      named-chain db (publish_raw lib naming hex refusals naming.storage_cid storage.value db) _
        (publish_raw-Moves lib naming hex refusals naming.storage_cid storage.value db)
        (λ named step.
          let model = storage_model lib storage named.1 in
          let here = step.states_kept state_id there in
          Moves-chain named.0
            (on_tables named.0 (index_storage_cid hex refusals model state_id named.0.tables)) _
            (on_tables-Moves named.0 _
              (index_storage_cid-Step hex refusals model state_id named.0.tables here))
            (λ next later.
              publish_and_index_storages-Moves storages state_id next
                (later.states_kept state_id here)))

  -- What precedes a chain without a step of its own
  pub OnOk-after_value :
      {A : Type 0} (db : Database) (call : Result A) (next : A → Result Database)
      → ((value : A) → OnOk (Moves db) (next value))
      → OnOk (Moves db) (call >>= next)
  OnOk-after_value db panic next each = tt
  OnOk-after_value db (err e) next each = tt
  OnOk-after_value db (ok value) next each = each value

  publish_and_index_leaf-Moves :
      (kind : NodeType) (state : TrieNode) (storage_nodes : List (String × List TrieNode))
      (state_id : ℕ) (db : Database)
      → HasState db.tables state_id
      → OnOk
          (Moves db)
          (publish_and_index_leaf lib naming hex refusals kind state storage_nodes state_id db)
  publish_and_index_leaf-Moves leaf state storage_nodes state_id db there =
      OnOk-after_value db (lib.decode_elements state.value) _ (λ elements.
        OnOk-after_value db _ _ (λ account.
          Moves-chain db
            (on_tables db (index_state_account hex refusals account state_id db.tables)) _
            (on_tables-Moves db _
              (index_state_account-Step hex refusals account state_id db.tables there))
            (λ next step.
              publish_and_index_storages-Moves
                (nodes_under (find (lib.bytes_to_hex state.path) storage_nodes)) state_id next
                (step.states_kept state_id there))))
  publish_and_index_leaf-Moves branch state storage_nodes state_id db there = Step-refl db.tables
  publish_and_index_leaf-Moves extension state storage_nodes state_id db there = Step-refl db.tables
  publish_and_index_leaf-Moves removed state storage_nodes state_id db there = Step-refl db.tables
  publish_and_index_leaf-Moves unknown state storage_nodes state_id db there = Step-refl db.tables

  publish_and_index_state_and_storage-Moves :
      (states : List TrieNode) (storage_nodes : List (String × List TrieNode)) (header_id : ℕ)
      (db : Database)
      → has_header db.tables.header_rows header_id ≡ true
      → OnOk (Moves db) (
          publish_and_index_state_and_storage lib naming hex refusals states storage_nodes header_id
            db)
  unfolding publish_and_index_state_and_storage
  publish_and_index_state_and_storage-Moves [] storage_nodes header_id db there =
      Step-refl db.tables
  publish_and_index_state_and_storage-Moves (state ∷ states) storage_nodes header_id db there =
      named-chain db (publish_raw lib naming hex refusals naming.state_cid state.value db) _
        (publish_raw-Moves lib naming hex refusals naming.state_cid state.value db)
        (λ named first.
          let model = state_model lib state named.1 in
          let here : has_header named.0.tables.header_rows header_id ≡ true =
            rw (first.headers_same) there in
          MovesRow-chain HasState named.0
            (on_tables_row named.0 (index_state_cid hex refusals model header_id named.0.tables)) _
            (on_tables_row-MovesRow HasState named.0 _
              (index_state_cid-RowStep hex refusals model header_id named.0.tables here))
            (λ done second found.
              Moves-chain done.0 _ _
                (publish_and_index_leaf-Moves state.node_type state storage_nodes done.1 done.0
                  found)
                (λ next third.
                  publish_and_index_state_and_storage-Moves states storage_nodes header_id next
                    (rw (third.headers_same, second.headers_same) here))))

  pub publish_and_index_under-Moves :
      (payload : ConvertedPayload) (nodes : BlockNodes) (header_id : ℕ) (db : Database)
      → has_header db.tables.header_rows header_id ≡ true
      → OnOk (Moves db) (publish_and_index_under lib naming hex refusals payload nodes header_id db)
  unfolding publish_and_index_under
  publish_and_index_under-Moves payload nodes header_id db there =
      Moves-chain db _ _
        (publish_and_index_uncles-Moves lib naming hex refusals payload.block.header.number
          nodes.uncle_nodes header_id db there)
        (λ t first.
          let here : has_header t.tables.header_rows header_id ≡ true =
            rw (first.headers_same) there in
          Moves-chain t _ _
            (publish_and_index_transactions-Moves nodes.tx_nodes nodes.rct_nodes
              payload.tx_meta_data payload.receipt_meta_data header_id t here)
            (λ u second.
              publish_and_index_state_and_storage-Moves payload.state_nodes payload.storage_nodes
                header_id u (rw (second.headers_same) here)))
