-- ===== src/Eth/Indexer/Index/Returning.antt =====
-- Index with no statement refused: it goes through all of the payload.
use vulcanize_db.Prelude.{
  ℕ, ◌≡◌, refl, inl, inr, String, List, [], ◌∷◌, Option, none, some, ◌==◌, nat_eq, bytes_eq,
  string_eq, Bool-cases,
}
use vulcanize_db.Prelude.Int.{pos, int_eq}
use vulcanize_db.Prelude.Assoc.{find}
use vulcanize_db.Go.{Result, ok, ◌>>=◌}
use vulcanize_db.Eth.{TxModel, ReceiptModel}
use vulcanize_db.Eth.Indexer.{
  UncleModel, StateNodeModel, StorageNodeModel, StateAccountModel, CidPayload, Hex, Store,
  Statement, insert_header, insert_uncle, insert_transaction, insert_receipt, insert_state,
  insert_account, insert_storage, Refusals, unless_refused,
}
use vulcanize_db.Eth.Indexer.Index.{
  index_header_cid, index_uncle_cid, index_uncles, index_transaction_cid, index_receipt_cid,
  index_receipt_if, index_transaction_and_receipt_cids, index_state_cid, index_state_account,
  index_account_if, index_storage_cid, index_storages, index_leaf, index_state_and_storage_cids,
  index_under, index_all, nodes_or_none,
}

abbrev pub Returns : {A : Type 0} → Result A → Type 0
Returns {A = A} call = (value : A) × (call ≡ ok value)

Returns->>= :
    {A B : Type 0} (call : Result A) (next : A → Result B)
    → Returns call
    → ((value : A) → Returns (next value))
    → Returns (call >>= next)
Returns->>= call next (value, e) each = let rest = each value in (rest.0, rw (e) rest.1)

Returns-unless_refused :
    {A : Type 0} (refused : Option String) (done : A)
    → refused ≡ none
    → Returns (unless_refused refused done)
Returns-unless_refused refused done e = (done, rw (e) refl)

module _ (hex : Hex) (refusals : Refusals)
    (accepted : (statement : Statement) → refusals.on_statement statement ≡ none) where
  index_uncles-Returns :
      (uncles : List UncleModel) (header_id : ℕ) (s : Store)
      → Returns (index_uncles hex refusals uncles header_id s)
  unfolding index_uncles index_uncle_cid
  index_uncles-Returns [] header_id s = (s, refl)
  index_uncles-Returns (uncle ∷ uncles) header_id s =
      Returns->>= _ _ (Returns-unless_refused _ _ (accepted (insert_uncle uncle)))
        (λ t. index_uncles-Returns uncles header_id t)

  index_receipt_if-Returns :
      (receipt : Option ReceiptModel) (tx_id : ℕ) (s : Store)
      → Returns (index_receipt_if hex refusals receipt tx_id s)
  unfolding index_receipt_cid
  index_receipt_if-Returns none tx_id s = (s, refl)
  index_receipt_if-Returns (some receipt) tx_id s =
      Returns-unless_refused _ _ (accepted (insert_receipt receipt))

  index_transaction_and_receipt_cids-Returns :
      (receipts : List (ℕ × ReceiptModel)) (txs : List TxModel) (header_id : ℕ) (s : Store)
      → Returns (index_transaction_and_receipt_cids hex refusals receipts txs header_id s)
  unfolding index_transaction_and_receipt_cids index_transaction_cid
  index_transaction_and_receipt_cids-Returns receipts [] header_id s = (s, refl)
  index_transaction_and_receipt_cids-Returns receipts (tx ∷ txs) header_id s =
      Returns->>= _ _ (Returns-unless_refused _ _ (accepted (insert_transaction tx))) (λ done.
        Returns->>= _ _
          (index_receipt_if-Returns (find (hex.hex_to_hash tx.tx_hash) receipts) done.1 done.0)
          (λ t. index_transaction_and_receipt_cids-Returns receipts txs header_id t))

  index_account_if-Returns :
      (account : Option StateAccountModel) (state_id : ℕ) (s : Store)
      → Returns (index_account_if hex refusals account state_id s)
  unfolding index_state_account
  index_account_if-Returns none state_id s = (s, refl)
  index_account_if-Returns (some account) state_id s =
      Returns-unless_refused _ _ (accepted (insert_account account))

  index_storages-Returns :
      (storages : List StorageNodeModel) (state_id : ℕ) (s : Store)
      → Returns (index_storages hex refusals storages state_id s)
  unfolding index_storages index_storage_cid
  index_storages-Returns [] state_id s = (s, refl)
  index_storages-Returns (storage ∷ storages) state_id s =
      Returns->>= _ _ (Returns-unless_refused _ _ (accepted (insert_storage storage)))
        (λ t. index_storages-Returns storages state_id t)

  index_leaf-Returns :
      (payload : CidPayload) (state : StateNodeModel) (state_id : ℕ) (s : Store)
      → Returns (index_leaf hex refusals payload state state_id s)
  unfolding index_leaf
  index_leaf-Returns payload state state_id s = elim (Bool-cases (state.node_type == pos 2)) [
    | inl on ↦ rw (on) (
        Returns->>= _ _
          (index_storages-Returns
            (nodes_or_none (find (hex.bytes_to_hex state.path) payload.storage_node_cids)) state_id
            s)
          (λ t.
            index_account_if-Returns (find (hex.bytes_to_hex state.path) payload.state_accounts)
              state_id t))
    | inr off ↦ rw (off) (s, refl)
  ]

  index_state_and_storage_cids-Returns :
      (payload : CidPayload) (states : List StateNodeModel) (header_id : ℕ) (s : Store)
      → Returns (index_state_and_storage_cids hex refusals payload states header_id s)
  unfolding index_state_and_storage_cids index_state_cid
  index_state_and_storage_cids-Returns payload [] header_id s = (s, refl)
  index_state_and_storage_cids-Returns payload (state ∷ states) header_id s =
      Returns->>= _ _ (Returns-unless_refused _ _ (accepted (insert_state state))) (λ done.
        Returns->>= _ _ (index_leaf-Returns payload state done.1 done.0)
          (λ t. index_state_and_storage_cids-Returns payload states header_id t))

  pub index_all-Returns :
      (payload : CidPayload) (s : Store) → Returns (index_all hex refusals payload s)
  unfolding index_all index_header_cid index_under
  index_all-Returns payload s =
      Returns->>= _ _ (Returns-unless_refused _ _ (accepted (insert_header payload.header_cid)))
        (λ done. Returns->>= _ _ (index_uncles-Returns payload.uncle_cids done.1 done.0) (λ t.
          Returns->>= _ _
            (index_transaction_and_receipt_cids-Returns payload.receipt_cids
              payload.transaction_cids done.1 t)
            (λ u. index_state_and_storage_cids-Returns payload payload.state_node_cids done.1 u)))
