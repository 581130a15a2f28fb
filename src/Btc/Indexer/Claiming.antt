-- ===== src/Btc/Indexer/Claiming.antt =====
-- Index of a block, no statement refused: the block's transactions are the header's.
use vulcanize_db.Prelude.{
  ℕ, ◌≡◌, refl, sym, ap, ◌∙◌, subst, inl, inr, String, Bool, true, false, ◌||◌, arith, List, [],
  ◌∷◌, any_of, Option, none, some, ◌==◌, string_eq, Bool-cases,
}
use vulcanize_db.Go.{ok}
use vulcanize_db.Btc.{TxInput, TxOutput, TxModelWithInsAndOuts}
use vulcanize_db.Eth.Indexer.{conflicting}
use vulcanize_db.Btc.Indexer.{
  CidPayload, Store, Refusals, has_hash, insert_or_move, header_conflict, insert_or_validate,
  index_header_cid, index_tx_input, index_tx_output, index_inputs, index_outputs,
  index_transaction_cids, index_all, index,
}
use vulcanize_db.Btc.Indexer.Moving.{rows_of, IsUnder, Moved, insert_or_move-Moved}

abbrev pub accepting : Refusals
accepting = record { on_begin = none; on_statement = λ statement. none; on_commit = none }

abbrev pub Among : List TxModelWithInsAndOuts → String → Type 0
Among txs hash = any_of (λ tx. tx.tx_hash == hash) txs ≡ true

-- The rows of the listed transactions are under the header, all others stay.
pub record Claimed (header_id : ℕ) (txs : List TxModelWithInsAndOuts) (before after : Store)
    : Type 0 where
  pub own :
      (hash : String) → Among txs hash → IsUnder header_id (rows_of hash after.transactions.rows)
  pub others :
      (hash : String)
      → any_of (λ tx. tx.tx_hash == hash) txs ≡ false
      → rows_of hash after.transactions.rows ≡ rows_of hash before.transactions.rows

index_inputs-ok :
    (inputs : List TxInput) (tx_id : ℕ) (s : Store)
    → (t : Store) × (index_inputs accepting inputs tx_id s ≡ ok t)
      × (t.transactions ≡ s.transactions)
unfolding index_inputs index_tx_input
index_inputs-ok [] tx_id s = (s, refl, refl)
index_inputs-ok (input ∷ inputs) tx_id s = index_inputs-ok inputs tx_id _

index_outputs-ok :
    (outputs : List TxOutput) (tx_id : ℕ) (s : Store)
    → (t : Store) × (index_outputs accepting outputs tx_id s ≡ ok t)
      × (t.transactions ≡ s.transactions)
unfolding index_outputs index_tx_output
index_outputs-ok [] tx_id s = (s, refl, refl)
index_outputs-ok (output ∷ outputs) tx_id s = index_outputs-ok outputs tx_id _

Claimed-cons :
    (header_id : ℕ) (tx : TxModelWithInsAndOuts) (txs : List TxModelWithInsAndOuts)
    (before mid after : Store)
    → Moved tx header_id before mid
    → Claimed header_id txs mid after
    → Claimed header_id (tx ∷ txs) before after
Claimed-cons header_id tx txs before mid after m c = record {
  own = λ hash listed. elim (Bool-cases (any_of (λ other. other.tx_hash == hash) txs)) [
    | inl later ↦ c.own hash later
    | inr never ↦
        let same : (tx.tx_hash == hash) ≡ true = or_left (tx.tx_hash == hash) _ never listed in
        let e : tx.tx_hash ≡ hash = (string_eq.equal_iff tx.tx_hash hash).0 same in
        subst (λ rows. IsUnder header_id rows)
          (ap (λ h. rows_of h mid.transactions.rows) e ∙ sym (c.others hash never)) m.own
  ];
  others = λ hash never.
      let parts =
        or_false (tx.tx_hash == hash) (any_of (λ other. other.tx_hash == hash) txs) never in
      c.others hash parts.1 ∙ m.others hash parts.0;
}
  where
    or_left : (a b : Bool) → b ≡ false → a || b ≡ true → a ≡ true
    or_left a b h g = ground arith

    or_false : (a b : Bool) → a || b ≡ false → (a ≡ false) × (b ≡ false)
    or_false a b h = ground arith

index_transaction_cids-ok :
    (txs : List TxModelWithInsAndOuts) (header_id : ℕ) (s : Store)
    → (t : Store) × (index_transaction_cids accepting txs header_id s ≡ ok t)
      × Claimed header_id txs s t
unfolding index_transaction_cids
index_transaction_cids-ok [] header_id s =
    (s, refl, record { own = λ hash listed. cc; others = λ hash never. refl })
index_transaction_cids-ok (tx ∷ txs) header_id s =
    let found = conflicting (has_hash tx.tx_hash) s.transactions.rows in
    let moving = insert_or_move tx header_id s.transactions found in
    let done : Store × ℕ = (record s { transactions = moving.0 }, moving.1) in
    let m = insert_or_move-Moved tx header_id s found refl in
    let (with_inputs, f, same) = index_inputs-ok tx.tx_inputs done.1 done.0 in
    let (with_outputs, g, still) = index_outputs-ok tx.tx_outputs done.1 with_inputs in
    let (after, h, c) = index_transaction_cids-ok txs header_id with_outputs in
    let kept : with_outputs.transactions ≡ done.0.transactions = still ∙ same in
    let n : Moved tx header_id s with_outputs = record {
      own = subst (λ table. IsUnder header_id (rows_of tx.tx_hash table.rows)) (sym kept) m.own;
      others = λ hash away. ap (λ table. rows_of hash table.rows) kept ∙ m.others hash away;
    } in
    (after, rw (f, g) h, Claimed-cons header_id tx txs s with_outputs after n c)

-- Index of a block, no statement refused, succeeds: every row of each of the block's transactions is
-- under the id that the header's statement returns, also a row that another block had, and each of
-- the transactions has a row; the rows of all other transactions stay.
pub index-Claimed :
    (payload : CidPayload) (s : Store)
    → (done : Store × ℕ) × (index_header_cid accepting payload.header_cid s ≡ ok done)
      × ((index accepting payload s).1 ≡ ok tt)
      × Claimed done.1 payload.transaction_cids s (index accepting payload s).0
unfolding index index_all index_header_cid
index-Claimed payload s =
    let header = payload.header_cid in
    let done = insert_or_validate header s (header_conflict header s.header_rows) in
    let (t, e, c) = index_transaction_cids-ok payload.transaction_cids done.1 done.0 in
    let same : done.0.transactions ≡ s.transactions =
      insert_or_validate-same payload s (header_conflict header s.header_rows) in
    (
      done,
      refl,
      rw (e) refl,
      rw (e) (record {
        own = c.own;
        others = λ hash never. c.others hash never ∙ ap (λ table. rows_of hash table.rows) same;
      }),
    )
  where
    insert_or_validate-same :
        (payload : CidPayload) (s : Store) (found : Option ℕ)
        → (insert_or_validate payload.header_cid s found).0.transactions ≡ s.transactions
    insert_or_validate-same payload s none = refl
    insert_or_validate-same payload s (some id) = refl
