-- ===== src/Btc/Filterer/Selects.antt =====
-- The transactions loop of pkg/super_node/btc/filterer.go against a relation that says what is
-- selected.
use vulcanize_db.Prelude.{String, ◌≡◌, refl, ◌↔◌, inl, inr, true, false, List, [], ◌∷◌, Bool-cases}
use vulcanize_db.Go.{Bytes, Result, ok, >>=-eq-ok}
use vulcanize_db.Ipfs.{BlockModel, IsBlockOf, pack, pack-IsBlockOf, IsBlockOf-pack}
use vulcanize_db.Btc.{
  TxFilter, TxModelWithInsAndOuts, Serializable, ConvertedPayload, BlockModel, Iplds,
}
use vulcanize_db.Btc.Filterer.{check_transaction, pack, transactions_loop, filter_transactions}
use vulcanize_db.Btc.Filterer.Wanted.{IsWanted, check_transaction_iff}

module _ (raw_data_to_cid : Bytes → Result String) (f : TxFilter) where
  -- The blocks of the wanted transactions, in order, each under its CID. What is not wanted may
  -- lack a transaction.
  pub data Selects : List TxModelWithInsAndOuts → List Serializable → List BlockModel → Type 0 where
    done : {txs : List Serializable} → Selects [] txs []
    take :
        {m : TxModelWithInsAndOuts} {ms : List TxModelWithInsAndOuts} {tx : Serializable}
        {txs : List Serializable} {block : BlockModel} {blocks : List BlockModel}
        → IsWanted f m
        → IsBlockOf raw_data_to_cid tx.serialize block
        → Selects ms txs blocks
        → Selects (m ∷ ms) (tx ∷ txs) (block ∷ blocks)
    leave :
        {m : TxModelWithInsAndOuts} {ms : List TxModelWithInsAndOuts} {tx : Serializable}
        {txs : List Serializable} {blocks : List BlockModel}
        → ¬ IsWanted f m
        → Selects ms txs blocks
        → Selects (m ∷ ms) (tx ∷ txs) blocks
    leave_unpaired :
        {m : TxModelWithInsAndOuts} {ms : List TxModelWithInsAndOuts} {blocks : List BlockModel}
        → ¬ IsWanted f m
        → Selects ms [] blocks
        → Selects (m ∷ ms) [] blocks

  unwanted : (m : TxModelWithInsAndOuts) → check_transaction m f ≡ false → ¬ IsWanted f m
  unwanted m e w = cc (e, (check_transaction_iff m f).1 w)

  rejected : (m : TxModelWithInsAndOuts) → ¬ IsWanted f m → check_transaction m f ≡ false
  rejected m w = elim (Bool-cases (check_transaction m f)) [
    | inl wanted ↦ absurd (w ((check_transaction_iff m f).0 wanted))
    | inr other ↦ other
  ]

  transactions_loop-Selects :
      (ms : List TxModelWithInsAndOuts) (txs : List Serializable) (blocks : List BlockModel)
      → transactions_loop raw_data_to_cid f ms txs ≡ ok blocks
      → Selects ms txs blocks
  unfolding transactions_loop
  transactions_loop-Selects [] txs blocks h = let e : blocks ≡ [] = cc in rw e done
  transactions_loop-Selects (m ∷ ms) [] blocks h = elim (Bool-cases (check_transaction m f)) [
    | inl wanted ↦ absurd (cc (rw wanted at h))
    | inr other ↦
        leave_unpaired (unwanted m other) (transactions_loop-Selects ms [] blocks (rw other at h))
  ]
  transactions_loop-Selects (m ∷ ms) (tx ∷ txs) blocks h =
      elim (Bool-cases (check_transaction m f)) [
        | inl wanted ↦
            let (block, packed, h') =
              >>=-eq-ok (pack raw_data_to_cid tx.serialize) _ (rw wanted at h) in
            let (rest, looped, h'') = >>=-eq-ok (transactions_loop raw_data_to_cid f ms txs) _ h' in
            let e : blocks ≡ block ∷ rest = cc in
            rw e (
              take ((check_transaction_iff m f).0 wanted)
                (pack-IsBlockOf raw_data_to_cid tx.serialize block packed)
                (transactions_loop-Selects ms txs rest looped))
        | inr other ↦
            leave (unwanted m other) (transactions_loop-Selects ms txs blocks (rw other at h))
      ]

  Selects-transactions_loop :
      {ms : List TxModelWithInsAndOuts} {txs : List Serializable} {blocks : List BlockModel}
      → Selects ms txs blocks
      → transactions_loop raw_data_to_cid f ms txs ≡ ok blocks
  unfolding transactions_loop
  Selects-transactions_loop done = refl
  Selects-transactions_loop (take {m} {ms} {tx} {txs} {block} w b rest) = rw (
    (check_transaction_iff m f).1 w,
    IsBlockOf-pack raw_data_to_cid tx.serialize block b,
    Selects-transactions_loop rest,
  )
  Selects-transactions_loop (leave {m} w rest) = rw (rejected m w) (Selects-transactions_loop rest)
  Selects-transactions_loop (leave_unpaired {m} w rest) =
      rw (rejected m w) (Selects-transactions_loop rest)

  -- With the transaction filter on, the response holds the blocks of the wanted transactions and
  -- is otherwise unchanged; with it off nothing changes. Either way this is the only outcome that
  -- is not an error.
  pub filter_transactions-Selects :
      (response : Iplds) (payload : ConvertedPayload) (blocks : List BlockModel)
      → (f.off ≡ false
          → (filter_transactions raw_data_to_cid f response payload
              ≡ ok (record response { transactions = blocks }))
            ↔ Selects payload.tx_meta_data payload.txs blocks)
        × (f.off ≡ true → filter_transactions raw_data_to_cid f response payload ≡ ok response)
  unfolding filter_transactions
  filter_transactions-Selects response payload blocks = (
    λ on. (
      λ h.
          let (found, looped, h') =
            >>=-eq-ok (transactions_loop raw_data_to_cid f payload.tx_meta_data payload.txs) _
              (simp on at h) in
          let e : blocks ≡ found = cc in
          rw e (transactions_loop-Selects payload.tx_meta_data payload.txs found looped),
      λ s. simp on (rw (Selects-transactions_loop s)),
    ),
    λ off. simp off,
  )
