-- ===== src/Eth.antt =====
-- The data of pkg/super_node/eth: subscription_config.go, models.go and types.go. A go-ethereum
-- header, transaction or receipt is what the code reads of it: its hash, and the outcome of its RLP
-- encoding. A common.Hash is the number that its 32 bytes write.
pub mod Checks
pub mod Filterer
pub mod Retriever
pub mod Cleaner
pub mod Indexer
pub mod Converter
pub mod Publisher
use vulcanize_db.Prelude.{ℕ, String, Bool, List, Option}
use vulcanize_db.Prelude.Int.{ℤ}
use vulcanize_db.Go.{Bytes, Result}
use vulcanize_db.Ipfs.{BlockModel}
use vulcanize_db.Chain.{ChainType, ethereum}

pub record HeaderFilter : Type 0 where
  pub off : Bool
  pub uncles : Bool

pub record TxFilter : Type 0 where
  pub off : Bool
  pub src : List String
  pub dst : List String

pub record ReceiptFilter : Type 0 where
  pub off : Bool
  pub match_txs : Bool
  pub log_addresses : List String
  pub topics : List (List String)

pub record StateFilter : Type 0 where
  pub off : Bool
  pub addresses : List String
  pub intermediate_nodes : Bool

pub record StorageFilter : Type 0 where
  pub off : Bool
  pub addresses : List String
  pub storage_keys : List String
  pub intermediate_nodes : Bool

pub record SubscriptionSettings : Type 0 where
  pub back_fill : Bool
  pub back_fill_only : Bool
  pub start : ℤ
  pub end : ℤ
  pub header_filter : HeaderFilter
  pub tx_filter : TxFilter
  pub receipt_filter : ReceiptFilter
  pub state_filter : StateFilter
  pub storage_filter : StorageFilter

abbrev pub starting_block : SubscriptionSettings → ℤ
starting_block sc = sc.start

abbrev pub ending_block : SubscriptionSettings → ℤ
ending_block sc = sc.end

abbrev pub historical_data : SubscriptionSettings → Bool
historical_data sc = sc.back_fill

abbrev pub historical_data_only : SubscriptionSettings → Bool
historical_data_only sc = sc.back_fill_only

abbrev pub chain_type : SubscriptionSettings → ChainType
chain_type sc = ethereum

pub record Header : Type 0 where
  pub header_rlp : Result Bytes

pub record Transaction : Type 0 where
  pub hash : ℕ
  pub encode_rlp : Result Bytes

pub record Receipt : Type 0 where
  pub tx_hash : ℕ
  pub encode_rlp : Result Bytes

pub record Block : Type 0 where
  pub number : ℤ
  pub header : Header
  pub uncles : List Header
  pub transactions : List Transaction

pub record TxModel : Type 0 where
  pub id : ℤ
  pub header_id : ℤ
  pub index : ℤ
  pub tx_hash : String
  pub cid : String
  pub dst : String
  pub src : String

pub record ReceiptModel : Type 0 where
  pub id : ℤ
  pub tx_id : ℤ
  pub cid : String
  pub contract : String
  pub contract_hash : String
  pub log_contracts : List String
  pub topic0s : List String
  pub topic1s : List String
  pub topic2s : List String
  pub topic3s : List String

-- statediff.NodeType, as helpers.go lists its values
pub data NodeType : Type 0 where
  branch extension leaf removed unknown : NodeType

pub record TrieNode : Type 0 where
  pub path : Bytes
  pub leaf_key : ℕ
  pub value : Bytes
  pub node_type : NodeType

-- `storage_nodes` is a map from the hex of a state path; a missing key reads as no nodes.
pub record ConvertedPayload : Type 0 where
  pub total_difficulty : Option ℤ
  pub block : Block
  pub tx_meta_data : List TxModel
  pub receipts : List Receipt
  pub receipt_meta_data : List ReceiptModel
  pub state_nodes : List TrieNode
  pub storage_nodes : String → List TrieNode

abbrev pub height : ConvertedPayload → ℤ
height i = i.block.number

pub record StateNode : Type 0 where
  pub node_type : NodeType
  pub state_leaf_key : ℕ
  pub path : Bytes
  pub ipld : BlockModel

pub record StorageNode : Type 0 where
  pub node_type : NodeType
  pub state_leaf_key : ℕ
  pub storage_leaf_key : ℕ
  pub path : Bytes
  pub ipld : BlockModel

-- A *big.Int that may be nil is an Option.
pub record Iplds : Type 0 where
  pub block_number : Option ℤ
  pub total_difficulty : Option ℤ
  pub header : BlockModel
  pub uncles : List BlockModel
  pub transactions : List BlockModel
  pub receipts : List BlockModel
  pub state_nodes : List StateNode
  pub storage_nodes : List StorageNode
