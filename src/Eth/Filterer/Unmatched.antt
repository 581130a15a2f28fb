-- ===== src/Eth/Filterer/Unmatched.antt =====
-- What MatchTxs does when neither topics nor addresses are named.
use vulcanize_db.Prelude.{
  ℕ, ◌≤◌, ◌≡◌, refl, true, false, List, [], ◌∷◌, arith, length, ap, ◌∙◌, sym, inl, inr,
}
use vulcanize_db.Go.{Result, ok, ◌>>=◌, >>=-eq-ok}
use vulcanize_db.Ipfs.{BlockModel, pack}
use vulcanize_db.Eth.{
  SubscriptionSettings, ReceiptFilter, Receipt, ReceiptModel, ConvertedPayload, Iplds,
}
use vulcanize_db.Eth.Checks.{check_range}
use vulcanize_db.Eth.Checks.Meaning.{check_receipts_iff, Conforms-nil}
use vulcanize_db.Eth.Filterer.{
  Library, eth_tx_receipt, receipts_loop, filer_receipts, filter_state_and_storage, filter,
}
use vulcanize_db.Eth.Filterer.Response.{filter-Stages}

module _ (lib : Library) where
  -- Every receipt's block, in order.
  pub pack_all : List Receipt → Result (List BlockModel)
  pack_all [] = ok []
  pack_all (receipt ∷ rest) = do
    block ← pack (lib.raw_data_to_cid eth_tx_receipt) receipt.encode_rlp
    blocks ← pack_all rest
    ok (block ∷ blocks)

  receipts_loop-unfiltered :
      (f : ReceiptFilter) (hashes : List ℕ) (receipts : List Receipt) (metas : List ReceiptModel)
      → f.topics ≡ []
      → f.log_addresses ≡ []
      → length receipts ≤ length metas
      → receipts_loop lib f hashes receipts metas ≡ pack_all receipts
  unfolding receipts_loop pack_all
  receipts_loop-unfiltered f hashes [] metas t a l = refl
  receipts_loop-unfiltered f hashes (receipt ∷ rest) [] t a l = absurd (omega arith)
  receipts_loop-unfiltered f hashes (receipt ∷ rest) (m ∷ metas) t a l =
      let accepted =
        (check_receipts_iff receipt f.topics m.topic0s m.topic1s m.topic2s m.topic3s f.log_addresses
            m.log_contracts hashes).1
          (inr
            (simp t (Conforms-nil (m.topic0s ∷ m.topic1s ∷ m.topic2s ∷ m.topic3s ∷ [])), inl a)) in
      rw (accepted, receipts_loop-unfiltered f hashes rest metas t a (omega arith))

  receipts_of :
      (f : ReceiptFilter) (hashes : List ℕ) (payload : ConvertedPayload)
      (response receipted : Iplds)
      → f.off ≡ false
      → f.topics ≡ []
      → f.log_addresses ≡ []
      → length payload.receipts ≤ length payload.receipt_meta_data
      → filer_receipts lib f response payload hashes ≡ ok receipted
      → pack_all payload.receipts ≡ ok receipted.receipts
  unfolding filer_receipts
  receipts_of f hashes payload response receipted on t a l h =
      let all =
        receipts_loop-unfiltered f hashes payload.receipts payload.receipt_meta_data t a l in
      let (blocks, looped, h') =
        >>=-eq-ok (receipts_loop lib f hashes payload.receipts payload.receipt_meta_data) _
          (simp on at h) in
      let e : receipted.receipts ≡ blocks = ground arith in sym all ∙ looped ∙ ap ok (sym e)

  kept_receipts :
      (f : SubscriptionSettings) (receipted : Iplds) (payload : ConvertedPayload) (stated : Iplds)
      → filter_state_and_storage lib f.state_filter f.storage_filter receipted payload ≡ ok stated
      → stated.receipts ≡ receipted.receipts
  unfolding filter_state_and_storage
  kept_receipts f receipted payload stated h = ground arith

  -- A receipt filter that names neither topics nor addresses serves every receipt of the block,
  -- in order, whether or not it asks to match transactions and whichever transactions matched.
  filter-unmatched :
      (f : SubscriptionSettings) (payload : ConvertedPayload) (r : Iplds)
      → check_range f.start f.end payload.block.number ≡ true
      → f.receipt_filter.off ≡ false
      → f.receipt_filter.topics ≡ []
      → f.receipt_filter.log_addresses ≡ []
      → length payload.receipts ≤ length payload.receipt_meta_data
      → filter lib f payload ≡ ok r
      → pack_all payload.receipts ≡ ok r.receipts
  filter-unmatched f payload r inside on t a l h =
      let s = filter-Stages lib f payload r inside h in
      let packed =
        receipts_of f.receipt_filter _ payload s.found.0 s.receipted on t a l s.receipts in
      let kept : r.receipts ≡ s.receipted.receipts =
        ap (λ i. i.receipts) s.result ∙ kept_receipts f s.receipted payload s.stated s.states in
      packed ∙ ap ok (sym kept)
