-- ===== src/Eth/Indexer/Index/Preserved.antt =====
-- Every function of the indexer leaves the tables linked, whichever statement is refused.
use vulcanize_db.Prelude.{
  ℕ, ◌≡◌, inl, inr, String, true, List, [], ◌∷◌, Option, none, some, ◌==◌, nat_eq, bytes_eq,
  string_eq, Bool-cases,
}
use vulcanize_db.Prelude.Int.{pos, int_eq}
use vulcanize_db.Prelude.Assoc.{find}
use vulcanize_db.Go.{Result, ok, err, panic, OnOk, OnOk->>=, OnOk-imp}
use vulcanize_db.Eth.{TxModel, ReceiptModel}
use vulcanize_db.Eth.Indexer.{
  UncleModel, StateNodeModel, StorageNodeModel, StateAccountModel, CidPayload, Hex, Store, Refusals,
  unless_refused,
}
use vulcanize_db.Eth.Indexer.Index.{
  index_transaction_cid, index_header_cid, index_uncle_cid, index_uncles, index_receipt_if,
  index_transaction_and_receipt_cids, index_state_cid, index_account_if, index_storage_cid,
  index_storages, index_leaf, index_state_and_storage_cids, index_under, index_all, index, deferred,
  nodes_or_none,
}
use vulcanize_db.Eth.Indexer.Index.Linked.{has_header, has_row, IsLinked}
use vulcanize_db.Eth.Indexer.Index.Steps.{
  Step, Step-refl, OnOk-unless_refused, OnOk-chain, OnOk-row,
}
use vulcanize_db.Eth.Indexer.Index.Statements.{
  HasTransaction, HasState, index_uncle_cid-Step, index_transaction_cid-RowStep,
  index_receipt_cid-Step, index_state_cid-RowStep, index_state_account-Step, index_storage_cid-Step,
  HeaderWritten, index_header_cid-HeaderWritten,
}

module _ (hex : Hex) (refusals : Refusals) where
  index_uncles-Step :
      (uncles : List UncleModel) (header_id : ℕ) (s : Store)
      → has_header s.header_rows header_id ≡ true
      → OnOk (Step s) (index_uncles hex refusals uncles header_id s)
  unfolding index_uncles
  index_uncles-Step [] header_id s there = Step-refl s
  index_uncles-Step (uncle ∷ uncles) header_id s there =
      OnOk-chain s (index_uncle_cid hex refusals uncle header_id s) _
        (index_uncle_cid-Step hex refusals uncle header_id s there)
        (λ t step. index_uncles-Step uncles header_id t (rw (step.headers_same) there))

  index_receipt_if-Step :
      (receipt : Option ReceiptModel) (tx_id : ℕ) (s : Store)
      → has_row s.transactions.rows tx_id ≡ true
      → OnOk (Step s) (index_receipt_if hex refusals receipt tx_id s)
  index_receipt_if-Step none tx_id s there = Step-refl s
  index_receipt_if-Step (some receipt) tx_id s there =
      index_receipt_cid-Step hex refusals receipt tx_id s there

  index_transaction_and_receipt_cids-Step :
      (receipts : List (ℕ × ReceiptModel)) (txs : List TxModel) (header_id : ℕ) (s : Store)
      → has_header s.header_rows header_id ≡ true
      → OnOk (Step s) (index_transaction_and_receipt_cids hex refusals receipts txs header_id s)
  unfolding index_transaction_and_receipt_cids
  index_transaction_and_receipt_cids-Step receipts [] header_id s there = Step-refl s
  index_transaction_and_receipt_cids-Step receipts (tx ∷ txs) header_id s there =
      OnOk-row HasTransaction s (index_transaction_cid hex refusals tx header_id s) _
        (index_transaction_cid-RowStep hex refusals tx header_id s there)
        (λ done step found.
          OnOk-chain done.0 _ _
            (index_receipt_if-Step (find (hex.hex_to_hash tx.tx_hash) receipts) done.1 done.0 found)
            (λ t next.
              index_transaction_and_receipt_cids-Step receipts txs header_id t
                (rw (next.headers_same, step.headers_same) there)))

  index_account_if-Step :
      (account : Option StateAccountModel) (state_id : ℕ) (s : Store)
      → has_row s.states.rows state_id ≡ true
      → OnOk (Step s) (index_account_if hex refusals account state_id s)
  index_account_if-Step none state_id s there = Step-refl s
  index_account_if-Step (some account) state_id s there =
      index_state_account-Step hex refusals account state_id s there

  index_storages-Step :
      (storages : List StorageNodeModel) (state_id : ℕ) (s : Store)
      → has_row s.states.rows state_id ≡ true
      → OnOk (Step s) (index_storages hex refusals storages state_id s)
  unfolding index_storages
  index_storages-Step [] state_id s there = Step-refl s
  index_storages-Step (storage ∷ storages) state_id s there =
      OnOk-chain s (index_storage_cid hex refusals storage state_id s) _
        (index_storage_cid-Step hex refusals storage state_id s there)
        (λ t step. index_storages-Step storages state_id t (step.states_kept state_id there))

  index_leaf-Step :
      (payload : CidPayload) (state : StateNodeModel) (state_id : ℕ) (s : Store)
      → has_row s.states.rows state_id ≡ true
      → OnOk (Step s) (index_leaf hex refusals payload state state_id s)
  unfolding index_leaf
  index_leaf-Step payload state state_id s there = elim (Bool-cases (state.node_type == pos 2)) [
    | inl on ↦ rw (on) (
        OnOk-chain s _ _
          (index_storages-Step
            (nodes_or_none (find (hex.bytes_to_hex state.path) payload.storage_node_cids)) state_id
            s there)
          (λ t step.
            index_account_if-Step (find (hex.bytes_to_hex state.path) payload.state_accounts)
              state_id t (step.states_kept state_id there)))
    | inr off ↦ rw (off) (Step-refl s)
  ]

  index_state_and_storage_cids-Step :
      (payload : CidPayload) (states : List StateNodeModel) (header_id : ℕ) (s : Store)
      → has_header s.header_rows header_id ≡ true
      → OnOk (Step s) (index_state_and_storage_cids hex refusals payload states header_id s)
  unfolding index_state_and_storage_cids
  index_state_and_storage_cids-Step payload [] header_id s there = Step-refl s
  index_state_and_storage_cids-Step payload (state ∷ states) header_id s there =
      OnOk-row HasState s (index_state_cid hex refusals state header_id s) _
        (index_state_cid-RowStep hex refusals state header_id s there)
        (λ done step found.
          OnOk-chain done.0 _ _ (index_leaf-Step payload state done.1 done.0 found) (λ t next.
            index_state_and_storage_cids-Step payload states header_id t
              (rw (next.headers_same, step.headers_same) there)))

module _ (hex : Hex) (refusals : Refusals) where
  pub index_under-Step :
      (payload : CidPayload) (header_id : ℕ) (s : Store)
      → has_header s.header_rows header_id ≡ true
      → OnOk (Step s) (index_under hex refusals payload header_id s)
  unfolding index_under
  index_under-Step payload header_id s there =
      OnOk-chain s (index_uncles hex refusals payload.uncle_cids header_id s) _
        (index_uncles-Step hex refusals payload.uncle_cids header_id s there)
        (λ t uncled.
          let there_too : has_header t.header_rows header_id ≡ true =
            rw (uncled.headers_same) there in
          OnOk-chain t
            (index_transaction_and_receipt_cids hex refusals payload.receipt_cids
              payload.transaction_cids header_id t)
            _
            (index_transaction_and_receipt_cids-Step hex refusals payload.receipt_cids
              payload.transaction_cids header_id t there_too)
            (λ u sent.
              index_state_and_storage_cids-Step hex refusals payload payload.state_node_cids
                header_id u (rw (sent.headers_same) there_too)))

  index_all-IsLinked :
      (payload : CidPayload) (s : Store)
      → IsLinked s
      → OnOk IsLinked (index_all hex refusals payload s)
  unfolding index_all
  index_all-IsLinked payload s h =
      OnOk->>= (HeaderWritten s) IsLinked (index_header_cid hex refusals payload.header_cid s) _
        (index_header_cid-HeaderWritten hex refusals payload.header_cid s)
        (λ done w.
          OnOk-imp (Step done.0) IsLinked (index_under hex refusals payload done.1 done.0)
            (λ v step. step.linked (w.linked h))
            (index_under-Step payload done.1 done.0 w.returned))

  deferred-IsLinked :
      (s : Store) (run : Result Store) (commit : Option String)
      → IsLinked s
      → OnOk IsLinked run
      → IsLinked (deferred s run commit).0
  deferred-IsLinked s panic commit h done = h
  deferred-IsLinked s (err e) commit h done = h
  deferred-IsLinked s (ok after) (some e) h done = h
  deferred-IsLinked s (ok after) none h done = done

  -- Index keeps the tables linked: when the parent of each uncle, transaction, receipt, state node,
  -- storage node and account row is in its parent's table, it still is after Index of any payload,
  -- whichever statement or commit the database refuses.
  pub index-IsLinked :
      (payload : CidPayload) (s : Store) → IsLinked s → IsLinked (index hex refusals payload s).0
  unfolding index
  index-IsLinked payload s h = deferred-IsLinked s _ refusals.on_commit h (
      OnOk->>= IsLinked IsLinked (unless_refused refusals.on_begin s) _
        (OnOk-unless_refused IsLinked refusals.on_begin s h)
        (λ begun g. index_all-IsLinked payload begun g))
