-- ===== src/Btc/Filterer.antt =====
-- pkg/super_node/btc/filterer.go. `raw_data_to_cid` is ipld.RawdataToCid of pkg/ipfs/ipld/shared.go
-- followed by String(), for the codec and hash that the file passes: it computes a multihash by the
-- go-cid library, and so is a parameter.
pub mod Tests
pub mod Wanted
pub mod Selects
use vulcanize_db.Prelude.{
  ℕ, String, Bool, true, false, ◌&&◌, ◌||◌, not, List, [], ◌∷◌, Option, none, some, ◌==◌, nat_eq,
  string_eq, any_of, is_empty, if◌then◌else◌,
}
use vulcanize_db.Prelude.Int.{ℤ, pos, leb_ℤ, ltb_ℤ, int_eq}
use vulcanize_db.Go.{Bytes, Result, ok, err, panic, ◌>>=◌}
use vulcanize_db.Ipfs.{BlockModel, pack}
use vulcanize_db.Btc.{
  HeaderFilter, TxFilter, SubscriptionSettings, TxModelWithInsAndOuts, Serializable,
  ConvertedPayload, Iplds,
}

pub check_range : ℤ → ℤ → ℤ → Bool
check_range start end actual = (leb_ℤ end (pos 0) || leb_ℤ actual end) && leb_ℤ start actual

unfoldable pub passes_addresses : TxFilter → TxModelWithInsAndOuts → Bool
passes_addresses f m =
    is_empty f.addresses
    || any_of
        (λ wanted. any_of (λ out. any_of (λ actual. wanted == actual) out.addresses) m.tx_outputs)
        f.addresses

unfoldable pub passes_pk_script_classes : TxFilter → TxModelWithInsAndOuts → Bool
passes_pk_script_classes f m =
    is_empty f.pk_script_classes
    || any_of (λ wanted. any_of (λ out. out.script_class == wanted) m.tx_outputs)
        f.pk_script_classes

-- checkTransaction: every flag starts at its first test and is set by its loop.
unfoldable pub check_transaction : TxModelWithInsAndOuts → TxFilter → Bool
check_transaction m f =
    (not f.segwit || (f.segwit && m.seg_wit))
    && ((not f.multi_sig
          || (f.multi_sig && any_of (λ out. ltb_ℤ (pos 1) out.required_sigs) m.tx_outputs))
        && ((is_empty f.witness_hashes
              || any_of (λ wanted. wanted == m.witness_hash) f.witness_hashes)
            && (passes_addresses f m
                && ((is_empty f.indexes || any_of (λ wanted. wanted == m.index) f.indexes)
                    && passes_pk_script_classes f m))))

abbrev pub no_iplds : Iplds
no_iplds = record {
  block_number = none;
  header = record { cid = ""; content = [] };
  transactions = [];
}

module _ (raw_data_to_cid : Bytes → Result String) where
  pub filter_headers : HeaderFilter → Iplds → ConvertedPayload → Result Iplds
  unfolding pack
  filter_headers f response payload = if f.off then ok response else do
    block ← pack raw_data_to_cid payload.header.serialize
    ok (record response { header = block })

  -- The loop over TxMetaData: `payload.Txs[i]` is read only for a transaction that is wanted, and
  -- panics where Txs is shorter.
  pub transactions_loop :
      TxFilter → List TxModelWithInsAndOuts → List Serializable → Result (List BlockModel)
  unfolding pack check_transaction
  transactions_loop f [] txs = ok []
  transactions_loop f (m ∷ ms) [] =
      if check_transaction m f then panic else transactions_loop f ms []
  transactions_loop f (m ∷ ms) (tx ∷ txs) =
      let rest = transactions_loop f ms txs in
      if check_transaction m f
      then (do block ← pack raw_data_to_cid tx.serialize; blocks ← rest; ok (block ∷ blocks))
      else rest

  pub filter_transactions : TxFilter → Iplds → ConvertedPayload → Result Iplds
  unfolding transactions_loop
  filter_transactions f response payload = if f.off then ok response else do
    blocks ← transactions_loop f payload.tx_meta_data payload.txs
    ok (record response { transactions = blocks })

  pub filter : SubscriptionSettings → ConvertedPayload → Result Iplds
  unfolding check_range filter_headers filter_transactions
  filter f payload =
      if not (check_range f.start f.end payload.block_height) then ok no_iplds else do
        with_header ← filter_headers f.header_filter no_iplds payload
        with_txs ← filter_transactions f.tx_filter with_header payload
        ok (record with_txs { block_number = some payload.block_height })
