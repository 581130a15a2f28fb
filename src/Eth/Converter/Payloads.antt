-- ===== src/Eth/Converter/Payloads.antt =====
-- Convert on a payload that go-ethereum can decode.
use vulcanize_db.Prelude.{
  ℕ, ◌+◌, ◌≤◌, ◌≡◌, refl, ap, String, List, [], ◌∷◌, map, length, interval, All,
}
use vulcanize_db.Prelude.Int.{pos}
use vulcanize_db.Go.{ok}
use vulcanize_db.Eth.{TxModel, ReceiptModel}
use vulcanize_db.Eth.Converter.{
  BlockTransaction, BlockReceipt, StateDiff, Payload, Library, Converted, tx_meta,
  transactions_loop, receipts_loop, state_trie_node, state_loop, convert,
}
use vulcanize_db.Eth.Converter.Logs.{Describes, receipt_meta-Describes}
use vulcanize_db.Eth.Converter.Paths.{nodes_at, storage_at, state_loop-groups}

-- Each model describes the receipt at its position.
abbrev pub AllDescribe : List BlockReceipt → List ReceiptModel → Type 0
AllDescribe [] [] = Unit
AllDescribe [] (model ∷ models) = ⊥
AllDescribe (receipt ∷ receipts) [] = ⊥
AllDescribe (receipt ∷ receipts) (model ∷ models) =
    Describes receipt model × AllDescribe receipts models

-- What Convert makes of a block's transactions, receipts and state nodes
pub record Converts (lib : Library) (transactions : List BlockTransaction)
    (receipts : List BlockReceipt) (nodes : List StateDiff) (done : Converted) : Type 0 where
  pub hashes : map (λ tx. tx.tx_hash) done.tx_meta_data ≡ map (λ trx. trx.hash) transactions
  pub indexes : map (λ tx. tx.index) done.tx_meta_data ≡ map pos (interval 0 (length transactions))
  pub receipts_kept : done.receipts ≡ receipts
  pub receipts_described : AllDescribe receipts done.receipt_meta_data
  pub states_kept : done.state_nodes ≡ map (state_trie_node lib) nodes
  pub storage_grouped :
      (path : String) → nodes_at path done.storage_nodes ≡ storage_at lib path nodes

abbrev pub HasSender : Library → BlockTransaction → Type 0
HasSender lib trx = (from : String) × (lib.sender trx ≡ ok from)

abbrev pub HasFewTopics : BlockReceipt → Type 0
HasFewTopics receipt = All (λ log. length log.topics ≤ 4) receipt.logs

module _ (lib : Library) where
  transactions_loop-returns :
      (transactions : List BlockTransaction) (i : ℕ)
      → All (HasSender lib) transactions
      → (metas : List TxModel) × (transactions_loop lib transactions i ≡ ok metas)
        × (map (λ tx. tx.tx_hash) metas ≡ map (λ trx. trx.hash) transactions)
        × (map (λ tx. tx.index) metas ≡ map pos (interval i (length transactions)))
  unfolding transactions_loop tx_meta
  transactions_loop-returns [] i h = ([], refl, refl, refl)
  transactions_loop-returns (trx ∷ transactions) i ((from, known), h) =
      let (metas, e, hashes, indexes) = transactions_loop-returns transactions (i + 1) h in
      (
        tx_meta lib trx i from ∷ metas,
        rw (known, e) refl,
        ap (λ rest. trx.hash ∷ rest) hashes,
        ap (λ rest. pos i ∷ rest) indexes,
      )

  receipts_loop-returns :
      (receipts : List BlockReceipt)
      → All HasFewTopics receipts
      → (models : List ReceiptModel) × (receipts_loop lib receipts ≡ ok models)
        × AllDescribe receipts models
  unfolding receipts_loop
  receipts_loop-returns [] h = ([], refl, tt)
  receipts_loop-returns (receipt ∷ receipts) h =
      let (model, e, described) = receipt_meta-Describes lib receipt h.0 in
      let (models, f, rest) = receipts_loop-returns receipts h.1 in
      (model ∷ models, rw (e, f) refl, (described, rest))

  -- When go-ethereum decodes the block, the receipts and the state object and derives the receipts'
  -- fields, every transaction has a sender and no log has more than four topics, Convert returns:
  -- the metadata of the transactions in their order, each with its hash and position; the receipts
  -- with their topics by position and the addresses of their logs once each; every state node in its
  -- order; and under each path the storage nodes of the state nodes at that path.
  pub convert-Converts :
      (payload : Payload) (transactions : List BlockTransaction)
      (decoded receipts : List BlockReceipt) (nodes : List StateDiff)
      → lib.decode_block payload.block_rlp ≡ ok transactions
      → lib.decode_receipts payload.receipts_rlp ≡ ok decoded
      → lib.derive_fields transactions decoded ≡ ok receipts
      → lib.decode_state_object payload.state_object_rlp ≡ ok nodes
      → All (HasSender lib) transactions
      → All HasFewTopics receipts
      → (done : Converted) × (convert lib payload ≡ ok done)
        × Converts lib transactions receipts nodes done
  unfolding convert
  convert-Converts payload transactions decoded receipts nodes b r d s senders few =
      let (metas, e, hashes, indexes) = transactions_loop-returns transactions 0 senders in
      let (models, f, described) = receipts_loop-returns receipts few in
      let groups = state_loop-groups lib nodes in
      (
        record {
          tx_meta_data = metas;
          receipts = receipts;
          receipt_meta_data = models;
          state_nodes = (state_loop lib nodes []).0;
          storage_nodes = (state_loop lib nodes []).1;
        },
        rw (b, e, r, d, f, s) refl,
        record {
          hashes = hashes;
          indexes = indexes;
          receipts_kept = refl;
          receipts_described = described;
          states_kept = groups.0;
          storage_grouped = groups.1;
        },
      )
