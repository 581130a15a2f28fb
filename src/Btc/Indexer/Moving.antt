-- ===== src/Btc/Indexer/Moving.antt =====
-- Under which header a transaction's row is after the transactions of a block are indexed.
use mathlib.Core.List.{append-nil}
use vulcanize_db.Prelude.{
  ℕ, ◌≡◌, refl, ap, ◌∙◌, inl, inr, String, false, not, List, [], ◌∷◌, ◌++◌, map, keep, any_of,
  is_empty, Option, none, some, ◌==◌, ==_refl, string_eq, nat_eq, if◌then◌else◌, Bool-cases,
}
use vulcanize_db.Btc.{TxModelWithInsAndOuts}
use vulcanize_db.Eth.Indexer.{Row, conflicting}
use vulcanize_db.Btc.Indexer.{Store, has_hash, insert_or_move}

-- The rows of a transaction
abbrev pub rows_of : String → List (Row TxModelWithInsAndOuts) → List (Row TxModelWithInsAndOuts)
rows_of hash rows = keep (has_hash hash) rows

-- There is a row, and all of them are under the header.
abbrev pub IsUnder : ℕ → List (Row TxModelWithInsAndOuts) → Type 0
IsUnder header_id rows =
    (is_empty rows ≡ false) × (any_of (λ row. not (row.parent_id == header_id)) rows ≡ false)

abbrev moved : TxModelWithInsAndOuts → ℕ → Row TxModelWithInsAndOuts → Row TxModelWithInsAndOuts
moved tx header_id row =
    if has_hash tx.tx_hash row then record row { parent_id = header_id; columns = tx } else row

module _ (tx : TxModelWithInsAndOuts) (header_id : ℕ) where
  conflicting-none :
      (rows : List (Row TxModelWithInsAndOuts))
      → conflicting (has_hash tx.tx_hash) rows ≡ none
      → rows_of tx.tx_hash rows ≡ []
  unfolding conflicting
  conflicting-none [] h = refl
  conflicting-none (row ∷ rows) h = elim (Bool-cases (has_hash tx.tx_hash row)) [
    | inl on ↦ cc (rw (on) at h)
    | inr off ↦ rw (off) (conflicting-none rows (rw (off) at h))
  ]

  moved-is_empty :
      (rows : List (Row TxModelWithInsAndOuts)) (id : ℕ)
      → conflicting (has_hash tx.tx_hash) rows ≡ some id
      → is_empty (rows_of tx.tx_hash (map (moved tx header_id) rows)) ≡ false
  unfolding conflicting
  moved-is_empty [] id h = cc
  moved-is_empty (row ∷ rows) id h = elim (Bool-cases (has_hash tx.tx_hash row)) [
    | inl on ↦ rw (on, ==_refl tx.tx_hash) refl
    | inr off ↦ rw (off, off) (moved-is_empty rows id (rw (off) at h))
  ]

  keep-snoc :
      (hash : String) (rows : List (Row TxModelWithInsAndOuts)) (row : Row TxModelWithInsAndOuts)
      → rows_of hash (rows ++ row ∷ []) ≡ rows_of hash rows ++ rows_of hash (row ∷ [])
  keep-snoc hash [] row = refl
  keep-snoc hash (first ∷ rows) row = elim (Bool-cases (has_hash hash first)) [
    | inl on ↦ rw (on) (ap (λ rest. first ∷ rest) (keep-snoc hash rows row))
    | inr off ↦ rw (off) (keep-snoc hash rows row)
  ]

  moved-own :
      (rows : List (Row TxModelWithInsAndOuts))
      → any_of
          (λ row. not (row.parent_id == header_id))
          (rows_of tx.tx_hash (map (moved tx header_id) rows))
        ≡ false
  moved-own [] = refl
  moved-own (row ∷ rows) = elim (Bool-cases (has_hash tx.tx_hash row)) [
    | inl on ↦ rw (on, ==_refl tx.tx_hash, ==_refl header_id) (moved-own rows)
    | inr off ↦ rw (off, off) (moved-own rows)
  ]

  moved-other :
      (hash : String) (rows : List (Row TxModelWithInsAndOuts))
      → (tx.tx_hash == hash) ≡ false
      → rows_of hash (map (moved tx header_id) rows) ≡ rows_of hash rows
  moved-other hash [] h = refl
  moved-other hash (row ∷ rows) h = elim (Bool-cases (has_hash tx.tx_hash row)) [
    | inl on ↦
        let e : row.columns.tx_hash ≡ tx.tx_hash =
          (string_eq.equal_iff row.columns.tx_hash tx.tx_hash).0 on in
        let away : has_hash hash row ≡ false = ap (λ t. t == hash) e ∙ h in
        rw (on, h, away) (moved-other hash rows h)
    | inr off ↦ elim (Bool-cases (has_hash hash row)) [
      | inl here ↦ rw (off, here) (ap (λ rest. row ∷ rest) (moved-other hash rows h))
      | inr away ↦ rw (off, away) (moved-other hash rows h)
    ]
  ]

  -- What the statement for a transaction does to the rows of every transaction
  pub record Moved (before : Store) (after : Store) : Type 0 where
    pub own : IsUnder header_id (rows_of tx.tx_hash after.transactions.rows)
    pub others :
        (hash : String)
        → (tx.tx_hash == hash) ≡ false
        → rows_of hash after.transactions.rows ≡ rows_of hash before.transactions.rows

  pub insert_or_move-Moved :
      (s : Store) (found : Option ℕ)
      → conflicting (has_hash tx.tx_hash) s.transactions.rows ≡ found
      → Moved s (record s { transactions = (insert_or_move tx header_id s.transactions found).0 })
  insert_or_move-Moved s none e =
      let row : Row TxModelWithInsAndOuts = record {
        id = s.transactions.next_id;
        parent_id = header_id;
        columns = tx;
      } in
      record {
        own =
            rw
              (
                keep-snoc tx.tx_hash s.transactions.rows row,
                conflicting-none s.transactions.rows e,
                ==_refl tx.tx_hash,
                ==_refl header_id,
              )
              (refl, refl);
        others = λ hash away.
            keep-snoc hash s.transactions.rows row
            ∙ rw (away) (append-nil (rows_of hash s.transactions.rows));
      }
  insert_or_move-Moved s (some id) e = record {
    own = (moved-is_empty s.transactions.rows id e, moved-own s.transactions.rows);
    others = λ hash away. moved-other hash s.transactions.rows away;
  }
