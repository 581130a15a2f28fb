-- ===== src/Btc/Retriever.antt =====
-- pkg/super_node/btc/cid_retriever.go: Retrieve and the query of RetrieveTxCIDs, which joins a
-- transaction with its inputs and its outputs. A transaction row carries the rows that it is joined
-- with. The rows of a header are a parameter (Database). RetrieveGapsInData is that of package eth
-- on another table.
pub mod Copies
pub mod Tests
use vulcanize_db.Prelude.{
  ℕ, String, Bool, true, false, ◌&&◌, ◌||◌, not, List, [], ◌∷◌, ◌++◌, Option, none, some, ◌==◌,
  nat_eq, string_eq, any_of, is_empty, if◌then◌else◌,
}
use vulcanize_db.Prelude.Int.{ℤ, pos, ltb_ℤ, int_eq}
use vulcanize_db.Go.{Result, ok, ◌>>=◌}
use vulcanize_db.Btc.{TxFilter, SubscriptionSettings, TxInput, TxOutput, TxModelWithInsAndOuts}

pub record HeaderModel : Type 0 where
  pub id : ℤ
  pub block_number : ℕ

pub record CidWrapper : Type 0 where
  pub block_number : ℤ
  pub header : Option HeaderModel
  pub transactions : List TxModelWithInsAndOuts

-- The clause on one joined row.
pub row_condition : TxFilter → TxModelWithInsAndOuts → TxOutput → Bool
row_condition f tx out =
    (not f.segwit || tx.seg_wit)
    && ((not f.multi_sig || ltb_ℤ (pos 1) out.required_sigs)
        && ((is_empty f.witness_hashes || any_of (λ w. w == tx.witness_hash) f.witness_hashes)
            && ((is_empty f.addresses
                  || any_of (λ w. any_of (λ a. w == a) out.addresses) f.addresses)
                && ((is_empty f.indexes || any_of (λ w. w == tx.index) f.indexes)
                    && (is_empty f.pk_script_classes
                        || any_of (λ w. out.script_class == w) f.pk_script_classes)))))

pub join_outputs : TxFilter → TxModelWithInsAndOuts → List TxOutput → List TxModelWithInsAndOuts
unfolding row_condition
join_outputs f tx [] = []
join_outputs f tx (out ∷ outs) =
    let rest = join_outputs f tx outs in if row_condition f tx out then tx ∷ rest else rest

pub join_inputs : TxFilter → TxModelWithInsAndOuts → List TxInput → List TxModelWithInsAndOuts
unfolding join_outputs
join_inputs f tx [] = []
join_inputs f tx (input ∷ inputs) = join_outputs f tx tx.tx_outputs ++ join_inputs f tx inputs

-- RetrieveTxCIDs on the transactions of a header.
pub retrieve_tx_cids : TxFilter → List TxModelWithInsAndOuts → List TxModelWithInsAndOuts
unfolding join_inputs
retrieve_tx_cids f [] = []
retrieve_tx_cids f (tx ∷ txs) = join_inputs f tx tx.tx_inputs ++ retrieve_tx_cids f txs

pub record Database : Type 0 where
  pub headers_at : ℤ → Result (List HeaderModel)
  pub transactions_of : ℤ → Result (List TxModelWithInsAndOuts)

module _ (db : Database) where
  open db use {headers_at, transactions_of}

  pub retrieve_header : SubscriptionSettings → ℤ → HeaderModel → Result CidWrapper
  unfolding retrieve_tx_cids
  retrieve_header f number header = do
    txs ←
        if f.tx_filter.off
        then ok []
        else transactions_of header.id >>= λ rows. ok (retrieve_tx_cids f.tx_filter rows)
    ok (record {
      block_number = number;
      header = if f.header_filter.off then none else some header;
      transactions = txs;
    })

  pub retrieve_loop :
      SubscriptionSettings → ℤ → List HeaderModel → Bool → Result (List CidWrapper × Bool)
  unfolding retrieve_header
  retrieve_loop f number [] empty = ok ([], empty)
  retrieve_loop f number (header ∷ rest) empty = do
    cw ← retrieve_header f number header
    let bare = f.header_filter.off && is_empty cw.transactions
    later ← retrieve_loop f number rest (if bare then empty else false)
    ok (cw ∷ later.0, later.1)

  pub retrieve : SubscriptionSettings → ℤ → Result (List CidWrapper × Bool)
  unfolding retrieve_loop
  retrieve f number = do headers ← headers_at number; retrieve_loop f number headers true
