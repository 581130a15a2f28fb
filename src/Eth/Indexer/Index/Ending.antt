-- ===== src/Eth/Indexer/Index/Ending.antt =====
-- Index and the functions under it, with nothing refused: they return, and what they are to leave is there.
use vulcanize_db.Prelude.{
  ℕ, ◌≡◌, refl, inl, inr, true, List, [], ◌∷◌, All, All-imp, Option, none, some, ◌==◌, nat_eq,
  bytes_eq, string_eq, Bool-cases,
}
use vulcanize_db.Prelude.Int.{pos, int_eq}
use vulcanize_db.Prelude.Assoc.{find}
use vulcanize_db.Go.{Result, ok}
use vulcanize_db.Eth.{TxModel, ReceiptModel}
use vulcanize_db.Eth.Indexer.{
  UncleModel, StateNodeModel, StorageNodeModel, StateAccountModel, CidPayload, Hex, Store, upsert,
}
use vulcanize_db.Eth.Indexer.Index.{
  index_uncle_cid, index_transaction_cid, index_receipt_cid, index_state_cid, index_state_account,
  index_storage_cid, index_uncles, index_receipt_if, index_transaction_and_receipt_cids,
  index_account_if, index_storages, index_leaf, index_state_and_storage_cids, index_under,
  nodes_or_none, leaf_key,
}
use vulcanize_db.Eth.Indexer.Index.Growing.{
  uncle_key, tx_key, receipt_key, state_path, storage_path, account_key, Grows, Grows-refl,
  Grows-trans, uncles_Grows, transactions_Grows, receipts_Grows, states_Grows, storages_Grows,
  accounts_Grows,
}
use vulcanize_db.Eth.Indexer.Index.Keys.{upsert-HasKey}
use vulcanize_db.Eth.Indexer.Index.Validated.{accepting}
use vulcanize_db.Eth.Indexer.Index.Stored.{
  Has, UncleStored, ReceiptStored, AccountStored, TransactionStored, LeafStored, StateStored,
  UnderStored, row_stays, transaction_stays, storages_stay, state_stays,
}

-- A call returns a store that has grown and of which the predicate holds.
abbrev pub Ends : Store → (Store → Type 0) → Result Store → Type 0
Ends s P call = (t : Store) × (call ≡ ok t) × Grows s t × P t

module _ (hex : Hex) where
  index_uncles-Ends :
      (uncles : List UncleModel) (header_id : ℕ) (s : Store)
      → Ends s
          (λ t. All (λ uncle. UncleStored header_id uncle t) uncles)
          (index_uncles hex accepting uncles header_id s)
  unfolding index_uncles index_uncle_cid
  index_uncles-Ends [] header_id s = (s, refl, Grows-refl s, tt)
  index_uncles-Ends (uncle ∷ uncles) header_id s =
      let (kept, here) =
        upsert-HasKey uncle_key (λ c. c.block_hash == uncle.block_hash) header_id uncle s.uncles
          (λ c e. (string_eq.equal_iff c.block_hash uncle.block_hash).0 e) in
      let next = record s {
        uncles = (upsert (λ c. c.block_hash == uncle.block_hash) header_id uncle s.uncles).0;
      } in
      let (t, ends, grows, rest) = index_uncles-Ends uncles header_id next in
      (
        t,
        ends,
        Grows-trans (uncles_Grows s _ kept) grows,
        (
          row_stays uncle_key next.uncles t.uncles header_id uncle.block_hash grows.uncles_kept
              (_, here),
          rest,
        ),
      )

  -- A receipt that is there or is not
  index_receipt_if-Ends :
      (receipt : Option ReceiptModel) (tx_id : ℕ) (s : Store)
      → Ends s (ReceiptStored receipt tx_id) (index_receipt_if hex accepting receipt tx_id s)
  unfolding index_receipt_cid
  index_receipt_if-Ends none tx_id s = (s, refl, Grows-refl s, tt)
  index_receipt_if-Ends (some receipt) tx_id s =
      let (kept, here) =
        upsert-HasKey receipt_key (λ c. true) tx_id receipt s.receipts (λ c e. refl) in
      (_, refl, receipts_Grows s _ kept, (_, here))

  index_transaction_and_receipt_cids-Ends :
      (receipts : List (ℕ × ReceiptModel)) (txs : List TxModel) (header_id : ℕ) (s : Store)
      → Ends s
          (λ t. All (λ tx. TransactionStored hex receipts header_id tx t) txs)
          (index_transaction_and_receipt_cids hex accepting receipts txs header_id s)
  unfolding index_transaction_and_receipt_cids index_transaction_cid
  index_transaction_and_receipt_cids-Ends receipts [] header_id s = (s, refl, Grows-refl s, tt)
  index_transaction_and_receipt_cids-Ends receipts (tx ∷ txs) header_id s =
      let done = upsert (λ c. c.tx_hash == tx.tx_hash) header_id tx s.transactions in
      let (kept, here) =
        upsert-HasKey tx_key (λ c. c.tx_hash == tx.tx_hash) header_id tx s.transactions
          (λ c e. (string_eq.equal_iff c.tx_hash tx.tx_hash).0 e) in
      let put = record s { transactions = done.0 } in
      let (next, found, more, receipt) =
        index_receipt_if-Ends (find (hex.hex_to_hash tx.tx_hash) receipts) done.1 put in
      let (t, ends, grows, rest) =
        index_transaction_and_receipt_cids-Ends receipts txs header_id next in
      (
        t,
        rw (found) ends,
        Grows-trans (transactions_Grows s done.0 kept) (Grows-trans more grows),
        (
          transaction_stays hex receipts header_id tx next t grows
              (done.1, more.transactions_kept done.1 header_id tx.tx_hash here, receipt),
          rest,
        ),
      )

  index_account_if-Ends :
      (account : Option StateAccountModel) (state_id : ℕ) (s : Store)
      → Ends s (AccountStored account state_id) (index_account_if hex accepting account state_id s)
  unfolding index_state_account
  index_account_if-Ends none state_id s = (s, refl, Grows-refl s, tt)
  index_account_if-Ends (some account) state_id s =
      let (kept, here) =
        upsert-HasKey account_key (λ c. true) state_id account s.accounts (λ c e. refl) in
      (_, refl, accounts_Grows s _ kept, (_, here))

  index_storages-Ends :
      (nodes : List StorageNodeModel) (state_id : ℕ) (s : Store)
      → Ends s
          (λ t. All (λ node. Has storage_path t.storages state_id node.path) nodes)
          (index_storages hex accepting nodes state_id s)
  unfolding index_storages index_storage_cid
  index_storages-Ends [] state_id s = (s, refl, Grows-refl s, tt)
  index_storages-Ends (node ∷ nodes) state_id s =
      let columns = record node { storage_key = leaf_key node.storage_key } in
      let done = upsert (λ c. c.path == node.path) state_id columns s.storages in
      let (kept, here) =
        upsert-HasKey storage_path (λ c. c.path == node.path) state_id columns s.storages
          (λ c e. (bytes_eq.equal_iff c.path node.path).0 e) in
      let next = record s { storages = done.0 } in
      let (t, ends, grows, rest) = index_storages-Ends nodes state_id next in
      (
        t,
        ends,
        Grows-trans (storages_Grows s done.0 kept) grows,
        (
          row_stays storage_path next.storages t.storages state_id node.path grows.storages_kept
              (done.1, here),
          rest,
        ),
      )

  index_leaf-Ends :
      (payload : CidPayload) (state : StateNodeModel) (id : ℕ) (s : Store)
      → Ends s
          (LeafStored hex (state.node_type == pos 2) payload (hex.bytes_to_hex state.path) id)
          (index_leaf hex accepting payload state id s)
  unfolding index_leaf
  index_leaf-Ends payload state id s = elim (Bool-cases (state.node_type == pos 2)) [
    | inl on ↦
        let path = hex.bytes_to_hex state.path in
        let nodes = nodes_or_none (find path payload.storage_node_cids) in
        let (next, found, more, stored) = index_storages-Ends nodes id s in
        let (t, ends, grows, account) =
          index_account_if-Ends (find path payload.state_accounts) id next in
        rw (on) (
          t,
          rw (found) ends,
          Grows-trans more grows,
          (storages_stay hex nodes id next t grows stored, account),
        )
    | inr off ↦ rw (off) (s, refl, Grows-refl s, tt)
  ]

  index_state_and_storage_cids-Ends :
      (payload : CidPayload) (states : List StateNodeModel) (header_id : ℕ) (s : Store)
      → Ends s
          (λ t. All (λ state. StateStored hex payload header_id state t) states)
          (index_state_and_storage_cids hex accepting payload states header_id s)
  unfolding index_state_and_storage_cids index_state_cid
  index_state_and_storage_cids-Ends payload [] header_id s = (s, refl, Grows-refl s, tt)
  index_state_and_storage_cids-Ends payload (state ∷ states) header_id s =
      let columns = record state { state_key = leaf_key state.state_key } in
      let done = upsert (λ c. c.path == state.path) header_id columns s.states in
      let (kept, here) =
        upsert-HasKey state_path (λ c. c.path == state.path) header_id columns s.states
          (λ c e. (bytes_eq.equal_iff c.path state.path).0 e) in
      let put = record s { states = done.0 } in
      let (next, found, more, leaf) = index_leaf-Ends payload state done.1 put in
      let (t, ends, grows, rest) =
        index_state_and_storage_cids-Ends payload states header_id next in
      (
        t,
        rw (found) ends,
        Grows-trans (states_Grows s done.0 kept) (Grows-trans more grows),
        (
          state_stays hex payload header_id state next t grows
              (done.1, more.states_kept done.1 header_id state.path here, leaf),
          rest,
        ),
      )

  pub index_under-Ends :
      (payload : CidPayload) (header_id : ℕ) (s : Store)
      → Ends s (UnderStored hex payload header_id) (index_under hex accepting payload header_id s)
  unfolding index_under
  index_under-Ends payload header_id s =
      let (t, uncled, first, uncles) = index_uncles-Ends payload.uncle_cids header_id s in
      let (u, traded, second, txs) =
        index_transaction_and_receipt_cids-Ends payload.receipt_cids payload.transaction_cids
          header_id t in
      let (v, stated, third, states) =
        index_state_and_storage_cids-Ends payload payload.state_node_cids header_id u in
      let later = Grows-trans second third in
      (
        v,
        rw (uncled, traded) stated,
        Grows-trans first later,
        (
          All-imp (λ uncle. UncleStored header_id uncle t) (λ uncle. UncleStored header_id uncle v)
              payload.uncle_cids
              (λ uncle there.
                row_stays uncle_key t.uncles v.uncles header_id uncle.block_hash later.uncles_kept
                  there)
              uncles,
          All-imp (λ tx. TransactionStored hex payload.receipt_cids header_id tx u)
              (λ tx. TransactionStored hex payload.receipt_cids header_id tx v)
              payload.transaction_cids
              (λ tx there. transaction_stays hex payload.receipt_cids header_id tx u v third there)
              txs,
          states,
        ),
      )
