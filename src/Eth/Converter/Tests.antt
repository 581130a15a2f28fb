-- ===== src/Eth/Converter/Tests.antt =====
-- A block with two transactions, a receipt with two logs and two state nodes.
use vulcanize_db.Prelude.{◌≡◌, refl, String, List, [], ◌∷◌, none, some, arith}
use vulcanize_db.Go.{ok, panic}
use vulcanize_db.Eth.{branch, leaf}
use vulcanize_db.Eth.Converter.{
  BlockTransaction, BlockReceipt, Log, StateDiff, Payload, Library, Converted, null_address,
  convert, receipt_meta,
}
use vulcanize_db.Eth.Converter.Payloads.{Converts, convert-Converts}

abbrev transactions : List BlockTransaction
transactions = record { to = some "0xb"; hash = "0x1" } ∷ record { to = none; hash = "0x2" } ∷ []

abbrev log : String → List String → Log
log address topics = record { address = address; topics = topics }

abbrev receipts : List BlockReceipt
receipts =
    record {
      logs = log "0xc" ("t" ∷ "u" ∷ []) ∷ log "0xc" ("v" ∷ []) ∷ [];
      contract_address = null_address;
    }
    ∷ []

abbrev nodes : List StateDiff
nodes =
    record {
      path = 6 ∷ [];
      node_value = 1 ∷ [];
      node_type = leaf;
      leaf_key = 3 ∷ [];
      storage_nodes =
          record { path = 0 ∷ []; node_value = 4 ∷ []; node_type = leaf; leaf_key = 5 ∷ [] } ∷ [];
    }
    ∷ record {
      path = [];
      node_value = 2 ∷ [];
      node_type = branch;
      leaf_key = [];
      storage_nodes = [];
    }
    ∷ []

abbrev lib : Library
lib = record {
  decode_block = λ bytes. ok transactions;
  decode_receipts = λ bytes. ok receipts;
  derive_fields = λ trxs found. ok found;
  decode_state_object = λ bytes. ok nodes;
  sender = λ trx. ok "0xa";
  keccak256_of_address = λ address. "0xhash";
  bytes_to_hash = λ bytes. 7;
  bytes_to_hex = λ bytes. "06";
}

abbrev payload : Payload
payload = record { block_rlp = 1 ∷ []; receipts_rlp = 2 ∷ []; state_object_rlp = 3 ∷ [] }

-- A log with five topics writes past the four sets.
five_topics :
    receipt_meta lib (record {
      logs = log "0xc" ("t" ∷ "u" ∷ "v" ∷ "w" ∷ "x" ∷ []) ∷ [];
      contract_address = null_address;
    })
    ≡ panic
unfolding receipt_meta
five_topics = refl

convert-Converts_example :
    (done : Converted) × (convert lib payload ≡ ok done)
    × Converts lib transactions receipts nodes done
convert-Converts_example =
    convert-Converts lib payload transactions receipts receipts nodes refl refl refl refl
      (("0xa", refl), (("0xa", refl), tt)) ((omega arith, (omega arith, tt)), tt)
