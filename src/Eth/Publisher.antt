-- ===== src/Eth/Publisher.antt =====
-- Publish of pkg/super_node/eth/publisher.go, with FromBlockAndReceipts of pkg/ipfs/ipld/eth_parser.go
-- and ResolveFromNodeType of helpers.go. An IPLD node is its raw data, and a hash is its hexadecimal
-- text except where it is the key of a map. Encoding, the tries, the decoding of RLP and IPFS are
-- parameters (Library, Putters).
pub mod Publish
use vulcanize_db.Prelude.{
  ℕ, String, Bool, true, false, List, [], ◌∷◌, ◌++◌, map, Option, none, some, ◌==◌, string_eq,
  nat_eq, if◌then◌else◌,
}
use vulcanize_db.Prelude.Int.{ℤ, pos, negsuc}
use vulcanize_db.Go.{Bytes, Result, ok, err, panic, ◌>>=◌}
use vulcanize_db.Eth.{
  TxModel, ReceiptModel, NodeType, branch, extension, leaf, removed, unknown, TrieNode,
}
use vulcanize_db.Eth.Indexer.{StateAccountModel}

pub record BlockHeader : Type 0 where
  pub encoded : Result Bytes
  pub number : ℕ
  pub hash : String
  pub parent_hash : String
  pub root : String
  pub tx_hash : String
  pub receipt_hash : String
  pub uncle_hash : String
  pub bloom : Bytes
  pub time : ℕ

pub record Transaction : Type 0 where
  pub encoded : Result Bytes
  pub gas_price : ℤ

pub record Receipt : Type 0 where
  pub encoded : Result Bytes
  pub tx_hash : ℕ
  pub gas_used : ℤ

pub record Block : Type 0 where
  pub header : BlockHeader
  pub uncles : List BlockHeader
  pub transactions : List Transaction

pub record ConvertedPayload : Type 0 where
  pub total_difficulty : ℤ
  pub block : Block
  pub tx_meta_data : List TxModel
  pub receipts : List Receipt
  pub receipt_meta_data : List ReceiptModel
  pub state_nodes : List TrieNode
  pub storage_nodes : List (String × List TrieNode)

-- A trie's root and its nodes; the elements of a decoded leaf, none for one that is not bytes
pub record Library : Type 0 where
  pub tx_trie : List Bytes → String × List Bytes
  pub receipt_trie : List Bytes → String × List Bytes
  pub from_state_trie_rlp : Bytes → Result Bytes
  pub from_storage_trie_rlp : Bytes → Result Bytes
  pub decode_elements : Bytes → Result (List (Option Bytes))
  pub decode_account : Bytes → Result StateAccountModel
  pub hash_text : ℕ → String
  pub big_text : ℤ → String
  pub bytes_to_hex : Bytes → String

-- DagPut of each putter
pub record Putters : Type 0 where
  pub header_putter : Bytes → Result String
  pub transaction_putter : Bytes → Result String
  pub transaction_trie_putter : Bytes → Result String
  pub receipt_putter : Bytes → Result String
  pub receipt_trie_putter : Bytes → Result String
  pub state_putter : Bytes → Result String
  pub storage_putter : Bytes → Result String

pub record BlockNodes : Type 0 where
  pub header_node : Bytes
  pub uncle_nodes : List (BlockHeader × Bytes)
  pub tx_nodes : List (Transaction × Bytes)
  pub tx_trie_nodes : List Bytes
  pub rct_nodes : List (Receipt × Bytes)
  pub rct_trie_nodes : List Bytes

pub resolve_from_node_type : NodeType → ℤ
resolve_from_node_type branch = pos 0
resolve_from_node_type extension = pos 1
resolve_from_node_type leaf = pos 2
resolve_from_node_type removed = pos 3
resolve_from_node_type unknown = negsuc 0

-- The loops of eth_parser.go: a node holds the object that it encodes.
pub encode_all : {A : Type 0} → (A → Result Bytes) → List A → Result (List (A × Bytes))
encode_all encoded [] = ok []
encode_all encoded (x ∷ xs) = do
  bytes ← encoded x
  later ← encode_all encoded xs
  ok ((x, bytes) ∷ later)

abbrev pub raw_data : {A : Type 0} → List (A × Bytes) → List Bytes
raw_data nodes = map (λ node. node.1) nodes

-- processTransactions and processReceipts, once their trie has been made
abbrev pub with_root :
    {A : Type 0}
    → String
    → String
    → List (A × Bytes)
    → String × List Bytes
    → Result (List (A × Bytes) × List Bytes)
with_root message expected nodes trie =
    if trie.0 == expected then ok (nodes, trie.1) else err message

module _ (lib : Library) where
  open lib use {tx_trie, receipt_trie}

  pub process_transactions :
      List Transaction → String → Result (List (Transaction × Bytes) × List Bytes)
  unfolding encode_all
  process_transactions txs expected = encode_all (λ tx. tx.encoded) txs >>= λ nodes.
      with_root "wrong transaction hash computed" expected nodes (tx_trie (raw_data nodes))

  pub process_receipts : List Receipt → String → Result (List (Receipt × Bytes) × List Bytes)
  unfolding encode_all
  process_receipts rcts expected = encode_all (λ rct. rct.encoded) rcts >>= λ nodes.
      with_root "wrong receipt hash computed" expected nodes (receipt_trie (raw_data nodes))

  pub from_block_and_receipts : Block → List Receipt → Result BlockNodes
  unfolding encode_all process_transactions process_receipts
  from_block_and_receipts block receipts = do
    header_node ← block.header.encoded
    uncle_nodes ← encode_all (λ uncle. uncle.encoded) block.uncles
    txs ← process_transactions block.transactions block.header.tx_hash
    rcts ← process_receipts receipts block.header.receipt_hash
    ok (record {
      header_node = header_node;
      uncle_nodes = uncle_nodes;
      tx_nodes = txs.0;
      tx_trie_nodes = txs.1;
      rct_nodes = rcts.0;
      rct_trie_nodes = rcts.1;
    })
