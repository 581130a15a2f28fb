-- ===== src/Eth/Filterer/Transactions.antt =====
-- Which transactions the ethereum filterer puts into a response.
use vulcanize_db.Prelude.{
  ℕ, ◌≡◌, refl, ◌↔◌, ◌⊎◌, inl, inr, Bool, false, List, [], ◌∷◌, arith, Bool-cases, Any,
}
use vulcanize_db.Go.{ok, >>=-eq-ok}
use vulcanize_db.Ipfs.{BlockModel, IsBlockOf, pack, pack-IsBlockOf, IsBlockOf-pack}
use vulcanize_db.Eth.{TxFilter, Transaction, TxModel, ConvertedPayload, Iplds}
use vulcanize_db.Eth.Checks.{check_transaction_addrs}
use vulcanize_db.Eth.Checks.Meaning.{check_transaction_addrs_iff}
use vulcanize_db.Eth.Filterer.{Library, eth_tx, transactions_loop, filter_transactions}

-- What a subscriber asks of a transaction by its addresses.
abbrev pub IsWanted : TxFilter → TxModel → Type 0
IsWanted f m =
    ((f.dst ≡ []) × (f.src ≡ [])) ⊎ Any (λ s. s ≡ m.src) f.src ⊎ Any (λ d. d ≡ m.dst) f.dst

module _ (lib : Library) (f : TxFilter) where
  -- The blocks and hashes of the wanted transactions, in the block's order.
  pub data Selects : List Transaction → List TxModel → List BlockModel → List ℕ → Type 0 where
    done : {metas : List TxModel} → Selects [] metas [] []
    take :
        {tx : Transaction} {txs : List Transaction} {m : TxModel} {ms : List TxModel}
        {block : BlockModel} {blocks : List BlockModel} {hashes : List ℕ}
        → IsWanted f m
        → IsBlockOf (lib.raw_data_to_cid eth_tx) tx.encode_rlp block
        → Selects txs ms blocks hashes
        → Selects (tx ∷ txs) (m ∷ ms) (block ∷ blocks) (tx.hash ∷ hashes)
    leave :
        {tx : Transaction} {txs : List Transaction} {m : TxModel} {ms : List TxModel}
        {blocks : List BlockModel} {hashes : List ℕ}
        → ¬ IsWanted f m
        → Selects txs ms blocks hashes
        → Selects (tx ∷ txs) (m ∷ ms) blocks hashes

  abbrev accepts : TxModel → Bool
  accepts m = check_transaction_addrs f.src f.dst m.src m.dst

  rejected : (m : TxModel) → ¬ IsWanted f m → accepts m ≡ false
  rejected m w = elim (Bool-cases (accepts m)) [
    | inl wanted ↦ absurd (w ((check_transaction_addrs_iff f.src f.dst m.src m.dst).0 wanted))
    | inr other ↦ other
  ]

  transactions_loop-Selects :
      (txs : List Transaction) (ms : List TxModel) (blocks : List BlockModel) (hashes : List ℕ)
      → transactions_loop lib f txs ms ≡ ok (blocks, hashes)
      → Selects txs ms blocks hashes
  unfolding transactions_loop
  transactions_loop-Selects [] ms blocks hashes h =
      let e : blocks ≡ [] = ground arith in let g : hashes ≡ [] = ground arith in rw (e, g) done
  transactions_loop-Selects (tx ∷ txs) [] blocks hashes h = cc
  transactions_loop-Selects (tx ∷ txs) (m ∷ ms) blocks hashes h = elim (Bool-cases (accepts m)) [
    | inl wanted ↦
        let (block, packed, h') =
          >>=-eq-ok (pack (lib.raw_data_to_cid eth_tx) tx.encode_rlp) _ (rw wanted at h) in
        let (found, looped, h'') = >>=-eq-ok (transactions_loop lib f txs ms) _ h' in
        let e : blocks ≡ block ∷ found.0 = ground arith in
        let g : hashes ≡ tx.hash ∷ found.1 = ground arith in
        rw (e, g)
          (take ((check_transaction_addrs_iff f.src f.dst m.src m.dst).0 wanted)
            (pack-IsBlockOf (lib.raw_data_to_cid eth_tx) tx.encode_rlp block packed)
            (transactions_loop-Selects txs ms found.0 found.1 looped))
    | inr other ↦
        leave (λ w. cc (other, (check_transaction_addrs_iff f.src f.dst m.src m.dst).1 w))
          (transactions_loop-Selects txs ms blocks hashes (rw other at h))
  ]

  Selects-transactions_loop :
      {txs : List Transaction} {ms : List TxModel} {blocks : List BlockModel} {hashes : List ℕ}
      → Selects txs ms blocks hashes
      → transactions_loop lib f txs ms ≡ ok (blocks, hashes)
  unfolding transactions_loop
  Selects-transactions_loop done = refl
  Selects-transactions_loop (take {tx} {txs} {m} {ms} {block} w b rest) = rw (
    (check_transaction_addrs_iff f.src f.dst m.src m.dst).1 w,
    IsBlockOf-pack (lib.raw_data_to_cid eth_tx) tx.encode_rlp block b,
    Selects-transactions_loop rest,
  )
  Selects-transactions_loop (leave {m = m} w rest) =
      rw (rejected m w) (Selects-transactions_loop rest)

  -- With the transaction filter on, the response holds the blocks of the wanted transactions, and
  -- the hashes returned are those of the same transactions; nothing else of the response changes.
  pub filter_transactions_iff :
      (response : Iplds) (payload : ConvertedPayload) (blocks : List BlockModel) (hashes : List ℕ)
      → f.off ≡ false
      → (filter_transactions lib f response payload
          ≡ ok (record response { transactions = blocks }, hashes))
        ↔ Selects payload.block.transactions payload.tx_meta_data blocks hashes
  unfolding filter_transactions
  filter_transactions_iff response payload blocks hashes on = (
    λ h.
        let (found, looped, h') =
          >>=-eq-ok (transactions_loop lib f payload.block.transactions payload.tx_meta_data) _
            (simp on at h) in
        let e : blocks ≡ found.0 = ground arith in
        let g : hashes ≡ found.1 = ground arith in
        rw (e, g)
          (transactions_loop-Selects payload.block.transactions payload.tx_meta_data found.0 found.1
            looped),
    λ s. simp on (rw (Selects-transactions_loop s)),
  )
