-- ===== src/Btc/Filterer/Tests.antt =====
-- The bitcoin filterer on a block of two transactions.
use vulcanize_db.Prelude.{String, ◌≡◌, ◌↔◌, refl, true, false, List, [], ◌∷◌}
use vulcanize_db.Prelude.Int.{ℤ, pos}
use vulcanize_db.Go.{Bytes, Result, ok, err}
use vulcanize_db.Ipfs.{BlockModel}
use vulcanize_db.Btc.{TxFilter, TxOutput, TxModelWithInsAndOuts, ConvertedPayload}
use vulcanize_db.Btc.Filterer.{
  check_transaction, passes_addresses, passes_pk_script_classes, filter_transactions, no_iplds,
}
use vulcanize_db.Btc.Filterer.Wanted.{IsWanted, check_transaction_iff}
use vulcanize_db.Btc.Filterer.Selects.{Selects, filter_transactions-Selects}

abbrev output : ℤ → TxOutput
output sigs = record {
  id = pos 0;
  tx_id = pos 0;
  index = pos 0;
  value = pos 50;
  pk_script = [];
  script_class = 2;
  required_sigs = sigs;
  addresses = "a" ∷ [];
}

abbrev model : ℤ → ℤ → TxModelWithInsAndOuts
model index sigs = record {
  id = pos 0;
  header_id = pos 0;
  index = index;
  tx_hash = "";
  cid = "";
  seg_wit = false;
  witness_hash = "";
  tx_inputs = [];
  tx_outputs = output sigs ∷ [];
}

abbrev multi_sig_filter : TxFilter
multi_sig_filter = record {
  off = false;
  segwit = false;
  witness_hashes = [];
  indexes = pos 0 ∷ pos 1 ∷ [];
  pk_script_classes = [];
  multi_sig = true;
  addresses = "a" ∷ [];
}

abbrev payload : ConvertedPayload
payload = record {
  block_height = pos 7;
  header = record { serialize = ok (1 ∷ []) };
  txs = record { serialize = err "lost" } ∷ record { serialize = ok (9 ∷ []) } ∷ [];
  tx_meta_data = model (pos 0) (pos 1) ∷ model (pos 1) (pos 2) ∷ [];
}

abbrev cid_of : Bytes → Result String
cid_of bytes = ok "cid"

abbrev blocks : List BlockModel
blocks = record { cid = "cid"; content = 9 ∷ [] } ∷ []

first_is_refused : check_transaction (model (pos 0) (pos 1)) multi_sig_filter ≡ false
unfolding check_transaction
first_is_refused = refl

check_transaction_iff_example :
    (check_transaction (model (pos 1) (pos 2)) multi_sig_filter ≡ true)
    ↔ IsWanted multi_sig_filter (model (pos 1) (pos 2))
check_transaction_iff_example = check_transaction_iff (model (pos 1) (pos 2)) multi_sig_filter

-- The transaction that is not wanted is not encoded, so its error does not show.
second_is_served :
    filter_transactions cid_of multi_sig_filter no_iplds payload
    ≡ ok (record no_iplds { transactions = blocks })
unfolding filter_transactions passes_addresses passes_pk_script_classes
second_is_served = refl

filter_transactions-Selects_example :
    (multi_sig_filter.off ≡ false
      → (filter_transactions cid_of multi_sig_filter no_iplds payload
          ≡ ok (record no_iplds { transactions = blocks }))
        ↔ Selects cid_of multi_sig_filter payload.tx_meta_data payload.txs blocks)
    × (multi_sig_filter.off ≡ true
        → filter_transactions cid_of multi_sig_filter no_iplds payload ≡ ok no_iplds)
filter_transactions-Selects_example =
    filter_transactions-Selects cid_of multi_sig_filter no_iplds payload blocks
