-- ===== src/Eth/Publisher/Publish/Payloads.antt =====
-- Publish when IPFS takes every node.
use vulcanize_db.Prelude.{ℕ, ◌≡◌, refl, ap, String, List, [], ◌∷◌, map, length, arith}
use vulcanize_db.Prelude.Int.{ℤ}
use vulcanize_db.Go.{Bytes, ok}
use vulcanize_db.Eth.{TxModel}
use vulcanize_db.Eth.Indexer.{
  UncleModel, StateNodeModel, StorageNodeModel, StateAccountModel, CidPayload,
}
use vulcanize_db.Eth.Publisher.{
  BlockHeader, Transaction, ConvertedPayload, Library, Putters, BlockNodes, from_block_and_receipts,
}
use vulcanize_db.Eth.Publisher.Publish.{
  publish_uncles, uncle_model, put_transactions, publish_transactions, tx_with_cid,
  publish_receipts, publish_state_nodes, publish_storage_nodes, header_model, block_reward, publish,
}
use vulcanize_db.Eth.Publisher.Publish.Maps.{AllApart, AllFound, put_all-ok, put_receipts-ok}

-- IPFS names each node by its bytes.
abbrev pub accepting : (Bytes → String) → Putters
accepting cid_of =
    let put = λ (node : Bytes). ok (cid_of node) in
    record {
      header_putter = put;
      transaction_putter = put;
      transaction_trie_putter = put;
      receipt_putter = put;
      receipt_trie_putter = put;
      state_putter = put;
      storage_putter = put;
    }

-- What the payload of CIDs says of the block's nodes
pub record Publishes (cid_of : Bytes → String) (payload : ConvertedPayload) (nodes : BlockNodes)
    (cids : CidPayload) : Type 0 where
  pub header_named : cids.header_cid.cid ≡ cid_of nodes.header_node
  pub header_at : cids.header_cid.block_number ≡ payload.block.header.number
  pub uncles_named :
      map (λ uncle. uncle.cid) cids.uncle_cids ≡ map (λ node. cid_of node.1) nodes.uncle_nodes
  pub transactions_named :
      map (λ tx. tx.cid) cids.transaction_cids ≡ map (λ node. cid_of node.1) nodes.tx_nodes
  pub transaction_hashes :
      map (λ tx. tx.tx_hash) cids.transaction_cids ≡ map (λ tx. tx.tx_hash) payload.tx_meta_data
  pub transaction_indexes :
      map (λ tx. tx.index) cids.transaction_cids ≡ map (λ tx. tx.index) payload.tx_meta_data
  pub receipts_found : AllFound cid_of nodes.rct_nodes payload.receipt_meta_data cids.receipt_cids

module _ (lib : Library) (cid_of : Bytes → String) where
  publish_uncles-ok :
      (number : ℕ) (nodes : List (BlockHeader × Bytes))
      → (uncles : List UncleModel) × (publish_uncles lib (accepting cid_of) number nodes
          ≡ ok uncles)
        × (map (λ uncle. uncle.cid) uncles ≡ map (λ node. cid_of node.1) nodes)
  unfolding publish_uncles
  publish_uncles-ok number [] = ([], refl, refl)
  publish_uncles-ok number ((uncle, node) ∷ nodes) =
      let (uncles, e, named) = publish_uncles-ok number nodes in
      (
        uncle_model lib number uncle (cid_of node) ∷ uncles,
        rw (e) refl,
        ap (λ rest. cid_of node ∷ rest) named,
      )

  put_transactions-ok :
      (nodes : List (Transaction × Bytes)) (metas : List TxModel)
      → length nodes ≡ length metas
      → (cids : List TxModel) × (put_transactions lib (accepting cid_of) nodes metas ≡ ok cids)
        × (map (λ tx. tx.cid) cids ≡ map (λ node. cid_of node.1) nodes)
        × (map (λ tx. tx.tx_hash) cids ≡ map (λ tx. tx.tx_hash) metas)
        × (map (λ tx. tx.index) cids ≡ map (λ tx. tx.index) metas)
  unfolding put_transactions
  put_transactions-ok [] [] h = ([], refl, refl, refl, refl)
  put_transactions-ok [] (meta ∷ metas) h = absurd (omega (arith, h))
  put_transactions-ok (node ∷ nodes) [] h = absurd (omega (arith, h))
  put_transactions-ok ((tx, node) ∷ nodes) (meta ∷ metas) h =
      let (cids, e, named, hashes, indexes) = put_transactions-ok nodes metas (omega (arith, h)) in
      (
        tx_with_cid lib (accepting cid_of) (cid_of node) meta ∷ cids,
        rw (e) refl,
        ap (λ rest. cid_of node ∷ rest) named,
        ap (λ rest. meta.tx_hash ∷ rest) hashes,
        ap (λ rest. meta.index ∷ rest) indexes,
      )

  -- When IPFS takes every node, the block's nodes can be made, its reward can be computed, there are
  -- as many transactions and receipts as metadata of each, no two receipts are for one transaction,
  -- and the state and storage nodes can be published, Publish returns: the header's, the uncles' and
  -- the transactions' CIDs are those of their nodes in the block's order, each transaction has the
  -- hash and index of its metadata, and each receipt is found under its transaction's hash with its own
  -- metadata and CID.
  pub publish-Publishes :
      (payload : ConvertedPayload) (nodes : BlockNodes) (reward : ℤ)
      (states : List StateNodeModel × List (String × StateAccountModel))
      (storages : List (String × List StorageNodeModel))
      → from_block_and_receipts lib payload.block payload.receipts ≡ ok nodes
      → block_reward lib payload ≡ ok reward
      → length nodes.tx_nodes ≡ length payload.tx_meta_data
      → length nodes.rct_nodes ≡ length payload.receipt_meta_data
      → AllApart nodes.rct_nodes
      → publish_state_nodes lib (accepting cid_of) payload.state_nodes [] ≡ ok states
      → publish_storage_nodes lib (accepting cid_of) payload.storage_nodes ≡ ok storages
      → (cids : CidPayload) × (publish lib (accepting cid_of) payload ≡ ok cids)
        × Publishes cid_of payload nodes cids
  unfolding publish publish_transactions publish_receipts
  publish-Publishes payload nodes reward states storages made paid txs rcts apart stated stored =
      let (uncles, u, uncles_named) =
        publish_uncles-ok payload.block.header.number nodes.uncle_nodes in
      let (transactions, t, named, hashes, indexes) =
        put_transactions-ok nodes.tx_nodes payload.tx_meta_data txs in
      let (receipts, r, found, others) =
        put_receipts-ok lib (accepting cid_of) cid_of (λ node. refl) nodes.rct_nodes
          payload.receipt_meta_data [] rcts apart in
      let tx_trie =
        put_all-ok lib (accepting cid_of) cid_of (λ node. ok (cid_of node)) nodes.tx_trie_nodes
          (λ node. refl) in
      let rct_trie =
        put_all-ok lib (accepting cid_of) cid_of (λ node. ok (cid_of node)) nodes.rct_trie_nodes
          (λ node. refl) in
      (
        record {
          header_cid = header_model lib payload (cid_of nodes.header_node) reward;
          uncle_cids = uncles;
          transaction_cids = transactions;
          receipt_cids = receipts;
          state_node_cids = states.0;
          state_accounts = states.1;
          storage_node_cids = storages;
        },
        rw (made, paid, u, t, tx_trie, r, rct_trie, stated, stored) refl,
        record {
          header_named = refl;
          header_at = refl;
          uncles_named = uncles_named;
          transactions_named = named;
          transaction_hashes = hashes;
          transaction_indexes = indexes;
          receipts_found = found;
        },
      )
