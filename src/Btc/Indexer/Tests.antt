-- ===== src/Btc/Indexer/Tests.antt =====
-- A transaction that is indexed under two blocks of one height.
use vulcanize_db.Prelude.{ℕ, ◌≡◌, refl, [], ◌∷◌, String, false, map}
use vulcanize_db.Prelude.Int.{pos}
use vulcanize_db.Go.{ok}
use vulcanize_db.Btc.{TxModelWithInsAndOuts}
use vulcanize_db.Eth.Indexer.{conflicting}
use vulcanize_db.Btc.Indexer.{HeaderModel, CidPayload, Store, index_header_cid, index}
use vulcanize_db.Btc.Indexer.Claiming.{accepting, Claimed, index-Claimed}

abbrev header : String → HeaderModel
header hash = record {
  block_number = 9;
  block_hash = hash;
  parent_hash = "p";
  cid = "c";
  timestamp = pos 1;
  bits = 2;
}

abbrev tx : TxModelWithInsAndOuts
tx = record {
  id = pos 0;
  header_id = pos 0;
  index = pos 0;
  tx_hash = "t";
  cid = "tc";
  seg_wit = false;
  witness_hash = "";
  tx_inputs = [];
  tx_outputs = [];
}

-- The transaction stands under the first header.
abbrev store : Store
store = record {
  header_rows = record { id = 1; columns = header "a"; times_validated = pos 1 } ∷ [];
  next_header_id = 2;
  transactions = record { rows = record { id = 4; parent_id = 1; columns = tx } ∷ []; next_id = 5 };
  inputs = record { rows = []; next_id = 1 };
  outputs = record { rows = []; next_id = 1 };
}

abbrev payload : CidPayload
payload = record { header_cid = header "b"; transaction_cids = tx ∷ [] }

-- The first block has no transaction left.
first_block_loses :
    map (λ row. row.parent_id) (index accepting payload store).0.transactions.rows ≡ 2 ∷ []
unfolding index conflicting
first_block_loses = refl

index-Claimed_example :
    (done : Store × ℕ) × (index_header_cid accepting payload.header_cid store ≡ ok done)
    × ((index accepting payload store).1 ≡ ok tt)
    × Claimed done.1 payload.transaction_cids store (index accepting payload store).0
index-Claimed_example = index-Claimed payload store
