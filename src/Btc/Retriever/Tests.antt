-- ===== src/Btc/Retriever/Tests.antt =====
-- A transaction with two inputs and three outputs.
use vulcanize_db.Prelude.{ℕ, ◌≡◌, refl, true, false, [], ◌∷◌}
use vulcanize_db.Prelude.Int.{ℤ, pos}
use vulcanize_db.Btc.{TxFilter, TxInput, TxOutput, TxModelWithInsAndOuts}
use vulcanize_db.Btc.Filterer.{check_transaction, passes_addresses, passes_pk_script_classes}
use vulcanize_db.Btc.Retriever.{retrieve_tx_cids}

abbrev f : TxFilter
f = record {
  off = false;
  segwit = false;
  witness_hashes = [];
  indexes = [];
  pk_script_classes = 2 ∷ [];
  multi_sig = false;
  addresses = [];
}

abbrev input : ℤ → TxInput
input i = record {
  id = i;
  tx_id = pos 1;
  index = i;
  tx_witness = [];
  signature_script = [];
  previous_out_point_index = 0;
  previous_out_point_hash = "";
}

abbrev output : ℕ → TxOutput
output class = record {
  id = pos 1;
  tx_id = pos 1;
  index = pos 0;
  value = pos 0;
  pk_script = [];
  script_class = class;
  required_sigs = pos 1;
  addresses = [];
}

abbrev tx : TxModelWithInsAndOuts
tx = record {
  id = pos 1;
  header_id = pos 1;
  index = pos 0;
  tx_hash = "t";
  cid = "c";
  seg_wit = false;
  witness_hash = "";
  tx_inputs = input (pos 0) ∷ input (pos 1) ∷ [];
  tx_outputs = output 2 ∷ output 3 ∷ output 2 ∷ [];
}

four_copies : retrieve_tx_cids f (tx ∷ []) ≡ tx ∷ tx ∷ tx ∷ tx ∷ []
unfolding retrieve_tx_cids
four_copies = refl

-- The filterer finds the class in one output and the address in another; the query finds neither.
abbrev apart : TxModelWithInsAndOuts
apart = record tx {
  tx_outputs =
      record (output 2) { addresses = [] } ∷ record (output 3) { addresses = "a" ∷ [] } ∷ [];
}

apart_lost :
    (retrieve_tx_cids (record f { addresses = "a" ∷ [] }) (apart ∷ []) ≡ [])
    × (check_transaction apart (record f { addresses = "a" ∷ [] }) ≡ true)
unfolding retrieve_tx_cids check_transaction passes_addresses passes_pk_script_classes
apart_lost = (refl, refl)
