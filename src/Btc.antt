-- ===== src/Btc.antt =====
-- The data of pkg/super_node/btc: subscription_config.go, models.go and types.go. A btcd header or
-- transaction is what the code reads of it, the outcome of its Serialize method.
pub mod Filterer
pub mod Retriever
pub mod Cleaner
pub mod Indexer
use vulcanize_db.Prelude.{ℕ, String, Bool, List, Option}
use vulcanize_db.Prelude.Int.{ℤ}
use vulcanize_db.Go.{Bytes, Result}
use vulcanize_db.Ipfs.{BlockModel}
use vulcanize_db.Chain.{ChainType, bitcoin}

pub record HeaderFilter : Type 0 where
  pub off : Bool

pub record TxFilter : Type 0 where
  pub off : Bool
  pub segwit : Bool
  pub witness_hashes : List String
  pub indexes : List ℤ
  pub pk_script_classes : List ℕ
  pub multi_sig : Bool
  pub addresses : List String

pub record SubscriptionSettings : Type 0 where
  pub back_fill : Bool
  pub back_fill_only : Bool
  pub start : ℤ
  pub end : ℤ
  pub header_filter : HeaderFilter
  pub tx_filter : TxFilter

abbrev pub starting_block : SubscriptionSettings → ℤ
starting_block sc = sc.start

abbrev pub ending_block : SubscriptionSettings → ℤ
ending_block sc = sc.end

abbrev pub historical_data : SubscriptionSettings → Bool
historical_data sc = sc.back_fill

abbrev pub historical_data_only : SubscriptionSettings → Bool
historical_data_only sc = sc.back_fill_only

abbrev pub chain_type : SubscriptionSettings → ChainType
chain_type sc = bitcoin

pub record TxInput : Type 0 where
  pub id : ℤ
  pub tx_id : ℤ
  pub index : ℤ
  pub tx_witness : List String
  pub signature_script : Bytes
  pub previous_out_point_index : ℕ
  pub previous_out_point_hash : String

pub record TxOutput : Type 0 where
  pub id : ℤ
  pub tx_id : ℤ
  pub index : ℤ
  pub value : ℤ
  pub pk_script : Bytes
  pub script_class : ℕ
  pub required_sigs : ℤ
  pub addresses : List String

pub record TxModelWithInsAndOuts : Type 0 where
  pub id : ℤ
  pub header_id : ℤ
  pub index : ℤ
  pub tx_hash : String
  pub cid : String
  pub seg_wit : Bool
  pub witness_hash : String
  pub tx_inputs : List TxInput
  pub tx_outputs : List TxOutput

-- A btcd object that can be serialized.
pub record Serializable : Type 0 where
  pub serialize : Result Bytes

pub record ConvertedPayload : Type 0 where
  pub block_height : ℤ
  pub header : Serializable
  pub txs : List Serializable
  pub tx_meta_data : List TxModelWithInsAndOuts

abbrev pub height : ConvertedPayload → ℤ
height cp = cp.block_height

-- A *big.Int that may be nil is an Option.
pub record Iplds : Type 0 where
  pub block_number : Option ℤ
  pub header : BlockModel
  pub transactions : List BlockModel
