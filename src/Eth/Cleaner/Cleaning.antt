-- ===== src/Eth/Cleaner/Cleaning.antt =====
-- What cleaning a range deletes: the blocks that it names, and all rows of the type in the range.
use vulcanize_db.Prelude.{
  keep, not, Bool-cases, inl, inr, ◌≡◌, refl, sym, ap, ◌∙◌, String, Bool, List, [], ◌∷◌, ◌++◌,
}
use vulcanize_db.Go.{ok, ◌>>=◌, >>=-eq-ok}
use vulcanize_db.Chain.{
  DataType, unknown_data_type, full, headers, uncles, transactions, receipts, state, storage,
}
use vulcanize_db.Sql.{
  Range, cids_of, header_cids, without_keys, without_headers, without_parents, between,
}
use vulcanize_db.Sql.Outcome.{rejected-eq-ok}
use vulcanize_db.Sql.Deleting.{
  header_in-without_headers, header_cids-without_headers, child_in-without_parents,
  cids_of-without_parents, child_in-none, cids_of-none, without_keys-append, without_keys-none,
}
use vulcanize_db.Eth.Cleaner.{
  Tables, in_header, in_transaction, in_state, Statement, storage_iplds, storage_meta_data,
  state_iplds, state_meta_data, receipt_iplds, receipt_meta_data, transaction_iplds,
  transaction_meta_data, uncle_iplds, uncle_meta_data, header_iplds, header_meta_data, delete,
  Refusals, exec, clean_full, clean_range,
}

-- The CIDs of the rows of a type, and of those below them, in a range.
pub doomed : DataType → Range → Tables → List String
doomed storage rng db = cids_of (in_state rng db) db.storage_rows
doomed state rng db =
    cids_of (in_state rng db) db.storage_rows ++ cids_of (in_header rng db) db.state_rows
doomed receipts rng db = cids_of (in_transaction rng db) db.receipt_rows
doomed transactions rng db =
    cids_of (in_transaction rng db) db.receipt_rows
    ++ cids_of (in_header rng db) db.transaction_rows
doomed uncles rng db = cids_of (in_header rng db) db.uncle_rows
doomed unknown_data_type rng db = []
doomed _ rng db =
    cids_of (in_state rng db) db.storage_rows
    ++ cids_of (in_header rng db) db.state_rows
    ++ cids_of (in_transaction rng db) db.receipt_rows
    ++ cids_of (in_header rng db) db.transaction_rows
    ++ cids_of (in_header rng db) db.uncle_rows
    ++ header_cids rng db.header_rows

module _ (refusals : Refusals) (rng : Range) where
  exec-eq-ok :
      (statement : Statement) (db : Tables) {after : Tables}
      → exec refusals statement rng db ≡ ok after
      → after ≡ delete statement rng db
  unfolding exec
  exec-eq-ok statement db h = sym (rejected-eq-ok (refusals.on_delete statement rng) _ h)

  two :
      (first second : Statement) (db : Tables) {after : Tables}
      → (exec refusals first rng db >>= λ db1. exec refusals second rng db1) ≡ ok after
      → after ≡ delete second rng (delete first rng db)
  two first second db h =
      let (db1, h1, h2) = >>=-eq-ok (exec refusals first rng db) _ h in
      rw (← exec-eq-ok first db h1) (exec-eq-ok second db1 h2)

  three :
      (first second third : Statement) (db : Tables) {after : Tables}
      → (exec refusals first rng db >>= λ db1.
          exec refusals second rng db1 >>= λ db2. exec refusals third rng db2)
        ≡ ok after
      → after ≡ delete third rng (delete second rng (delete first rng db))
  three first second third db h =
      let (db1, h1, h2) = >>=-eq-ok (exec refusals first rng db) _ h in
      rw (← exec-eq-ok first db h1) (two second third db1 h2)

  full_chain :
      (db : Tables)
      → clean_full refusals rng db ≡ (
          exec refusals storage_iplds rng db >>= λ db1. exec refusals state_iplds rng db1 >>= λ db2.
          exec refusals receipt_iplds rng db2 >>= λ db3.
          exec refusals transaction_iplds rng db3 >>= λ db4.
          exec refusals uncle_iplds rng db4 >>= λ db5.
          exec refusals header_iplds rng db5 >>= λ db6. exec refusals header_meta_data rng db6)
  unfolding clean_full
  full_chain db = refl

  full_range :
      (db : Tables) {after : Tables}
      → clean_full refusals rng db ≡ ok after
      → after
        ≡ delete header_meta_data rng (
            delete header_iplds rng (
              delete uncle_iplds rng (
                delete transaction_iplds rng (
                  delete receipt_iplds rng
                    (delete state_iplds rng (delete storage_iplds rng db))))))
  full_range db h =
      let (db1, h1, g1) =
        >>=-eq-ok (exec refusals storage_iplds rng db) _ (sym (full_chain db) ∙ h) in
      let (db2, h2, g2) = >>=-eq-ok (exec refusals state_iplds rng db1) _ g1 in
      let (db3, h3, g3) = >>=-eq-ok (exec refusals receipt_iplds rng db2) _ g2 in
      let (db4, h4, g4) = >>=-eq-ok (exec refusals transaction_iplds rng db3) _ g3 in
      rw (← exec-eq-ok storage_iplds db h1) (
        rw (← exec-eq-ok state_iplds db1 h2) (
          rw (← exec-eq-ok receipt_iplds db2 h3) (
            rw (← exec-eq-ok transaction_iplds db3 h4)
              (three uncle_iplds header_iplds header_meta_data db4 g4))))

-- What the statements of a type leave, written out.
unfoldable pub cleaned : DataType → Range → Tables → Tables
unfolding delete
cleaned full rng db = delete header_meta_data rng (
    delete header_iplds rng (
      delete uncle_iplds rng (
        delete transaction_iplds rng
          (delete receipt_iplds rng (delete state_iplds rng (delete storage_iplds rng db))))))
cleaned headers rng db = delete header_meta_data rng (
    delete header_iplds rng (
      delete uncle_iplds rng (
        delete transaction_iplds rng
          (delete receipt_iplds rng (delete state_iplds rng (delete storage_iplds rng db))))))
cleaned uncles rng db = delete uncle_meta_data rng (delete uncle_iplds rng db)
cleaned transactions rng db =
    delete transaction_meta_data rng (delete transaction_iplds rng (delete receipt_iplds rng db))
cleaned receipts rng db = delete receipt_meta_data rng (delete receipt_iplds rng db)
cleaned state rng db =
    delete state_meta_data rng (delete state_iplds rng (delete storage_iplds rng db))
cleaned storage rng db = delete storage_meta_data rng (delete storage_iplds rng db)
cleaned unknown_data_type rng db = db

-- Cleaning a range runs all statements of the type, in order.
pub clean_range-cleaned :
    (refusals : Refusals) (rng : Range) (t : DataType) (db after : Tables)
    → clean_range refusals rng t db ≡ ok after
    → after ≡ cleaned t rng db
unfolding clean_range cleaned
clean_range-cleaned refusals rng full db after h = full_range refusals rng db h
clean_range-cleaned refusals rng headers db after h = full_range refusals rng db h
clean_range-cleaned refusals rng uncles db after h =
    two refusals rng uncle_iplds uncle_meta_data db h
clean_range-cleaned refusals rng transactions db after h =
    three refusals rng receipt_iplds transaction_iplds transaction_meta_data db h
clean_range-cleaned refusals rng receipts db after h =
    two refusals rng receipt_iplds receipt_meta_data db h
clean_range-cleaned refusals rng state db after h =
    three refusals rng storage_iplds state_iplds state_meta_data db h
clean_range-cleaned refusals rng storage db after h =
    two refusals rng storage_iplds storage_meta_data db h
clean_range-cleaned refusals rng unknown_data_type db after h = cc

both_empty : {xs ys : List String} → xs ≡ [] → ys ≡ [] → xs ++ ys ≡ []
both_empty x y = rw (x) y

full-doomed : (rng : Range) (db : Tables) → doomed full rng (cleaned full rng db) ≡ []
unfolding cleaned doomed
full-doomed rng db =
    let gone = header_in-without_headers rng db.header_rows in
    let after = cleaned full rng db in
    both_empty
      (both_empty
        (both_empty
          (both_empty
            (both_empty (cids_of-none _ (child_in-none _ gone after.state_rows) after.storage_rows)
              (cids_of-none _ gone after.state_rows))
            (cids_of-none _ (child_in-none _ gone after.transaction_rows) after.receipt_rows))
          (cids_of-none _ gone after.transaction_rows))
        (cids_of-none _ gone after.uncle_rows))
      (header_cids-without_headers rng db.header_rows)

-- No row of the type is left in the range.
cleaned-doomed : (t : DataType) (rng : Range) (db : Tables) → doomed t rng (cleaned t rng db) ≡ []
unfolding cleaned doomed
cleaned-doomed storage rng db = cids_of-without_parents (in_state rng db) db.storage_rows
cleaned-doomed receipts rng db = cids_of-without_parents (in_transaction rng db) db.receipt_rows
cleaned-doomed uncles rng db = cids_of-without_parents (in_header rng db) db.uncle_rows
cleaned-doomed state rng db =
    rw (cids_of-none _ (child_in-without_parents (in_header rng db) db.state_rows) _)
      (cids_of-without_parents (in_header rng db) db.state_rows)
cleaned-doomed transactions rng db =
    rw (cids_of-none _ (child_in-without_parents (in_header rng db) db.transaction_rows) _)
      (cids_of-without_parents (in_header rng db) db.transaction_rows)
cleaned-doomed unknown_data_type rng db = refl
cleaned-doomed full rng db = full-doomed rng db
cleaned-doomed headers rng db = full-doomed rng db

six_keys :
    (a b c d e f keys : List String)
    → without_keys f
        (without_keys e (without_keys d (without_keys c (without_keys b (without_keys a keys)))))
      ≡ without_keys (a ++ b ++ c ++ d ++ e ++ f) keys
six_keys a b c d e f keys = rw (without_keys-append a b keys) (
    rw (without_keys-append (a ++ b) c keys) (
      rw (without_keys-append (a ++ b ++ c) d keys) (
        rw (without_keys-append (a ++ b ++ c ++ d) e keys)
          (without_keys-append (a ++ b ++ c ++ d ++ e) f keys))))

full_blocks :
    (rng : Range) (db : Tables)
    → (cleaned full rng db).blocks ≡ without_keys (doomed full rng db) db.blocks
unfolding cleaned doomed
full_blocks rng db =
    six_keys (cids_of (in_state rng db) db.storage_rows) (cids_of (in_header rng db) db.state_rows)
      (cids_of (in_transaction rng db) db.receipt_rows)
      (cids_of (in_header rng db) db.transaction_rows) (cids_of (in_header rng db) db.uncle_rows)
      (header_cids rng db.header_rows) db.blocks

cleaned-blocks :
    (t : DataType) (rng : Range) (db : Tables)
    → (cleaned t rng db).blocks ≡ without_keys (doomed t rng db) db.blocks
unfolding cleaned doomed
cleaned-blocks storage rng db = refl
cleaned-blocks receipts rng db = refl
cleaned-blocks uncles rng db = refl
cleaned-blocks state rng db = without_keys-append _ _ db.blocks
cleaned-blocks transactions rng db = without_keys-append _ _ db.blocks
cleaned-blocks unknown_data_type rng db = sym (without_keys-none db.blocks)
cleaned-blocks full rng db = full_blocks rng db
cleaned-blocks headers rng db = full_blocks rng db

-- The rows that belong to no header of the range, by the joins of the first tables.
pub outside : Range → Tables → Tables → Tables
outside rng db after = record {
  header_rows = without_headers rng after.header_rows;
  uncle_rows = without_parents (in_header rng db) after.uncle_rows;
  transaction_rows = without_parents (in_header rng db) after.transaction_rows;
  receipt_rows = without_parents (in_transaction rng db) after.receipt_rows;
  state_rows = without_parents (in_header rng db) after.state_rows;
  storage_rows = without_parents (in_state rng db) after.storage_rows;
  account_rows = keep (λ id. not (in_state rng db id)) after.account_rows;
  blocks = [];
}

keep_twice : {A : Type 0} (p : A → Bool) (xs : List A) → keep p (keep p xs) ≡ keep p xs
keep_twice p [] = refl
keep_twice p (x ∷ xs) = elim (Bool-cases (p x)) [
  | inl on ↦ rw (on) rw (on) (ap (λ rest. x ∷ rest) (keep_twice p xs))
  | inr off ↦ rw (off) (keep_twice p xs)
]

full-outside :
    (rng : Range) (db : Tables) → outside rng db (cleaned full rng db) ≡ outside rng db db
unfolding cleaned outside delete
full-outside rng db = rw (keep_twice (λ row. not (between rng row.block_number)) db.header_rows) (
    rw (keep_twice (λ row. not (in_header rng db row.parent_id)) db.uncle_rows) (
      rw (keep_twice (λ row. not (in_header rng db row.parent_id)) db.transaction_rows) (
        rw (keep_twice (λ row. not (in_transaction rng db row.parent_id)) db.receipt_rows) (
          rw (keep_twice (λ row. not (in_header rng db row.parent_id)) db.state_rows) (
            rw (keep_twice (λ row. not (in_state rng db row.parent_id)) db.storage_rows)
              (rw (keep_twice (λ id. not (in_state rng db id)) db.account_rows) refl))))))

cleaned-outside :
    (t : DataType) (rng : Range) (db : Tables)
    → outside rng db (cleaned t rng db) ≡ outside rng db db
unfolding cleaned outside delete
cleaned-outside full rng db = full-outside rng db
cleaned-outside headers rng db = full-outside rng db
cleaned-outside uncles rng db =
    rw (keep_twice (λ row. not (in_header rng db row.parent_id)) db.uncle_rows) refl
cleaned-outside transactions rng db =
    rw (keep_twice (λ row. not (in_header rng db row.parent_id)) db.transaction_rows)
      (rw (keep_twice (λ row. not (in_transaction rng db row.parent_id)) db.receipt_rows) refl)
cleaned-outside receipts rng db =
    rw (keep_twice (λ row. not (in_transaction rng db row.parent_id)) db.receipt_rows) refl
cleaned-outside state rng db =
    rw (keep_twice (λ row. not (in_header rng db row.parent_id)) db.state_rows) (
      rw (keep_twice (λ row. not (in_state rng db row.parent_id)) db.storage_rows)
        (rw (keep_twice (λ id. not (in_state rng db id)) db.account_rows) refl))
cleaned-outside storage rng db =
    rw (keep_twice (λ row. not (in_state rng db row.parent_id)) db.storage_rows) refl
cleaned-outside unknown_data_type rng db = refl

-- When the cleaning of a range succeeds, exactly the blocks are gone whose keys are CIDs of the
-- type's rows in the range, or of the rows below them; no such row is left; and the rows that belong
-- to no header of the range are as before.
pub clean_range-doomed :
    (refusals : Refusals) (rng : Range) (t : DataType) (db after : Tables)
    → clean_range refusals rng t db ≡ ok after
    → (after.blocks ≡ without_keys (doomed t rng db) db.blocks)
      × (doomed t rng after ≡ [])
      × (outside rng db after ≡ outside rng db db)
clean_range-doomed refusals rng t db after h =
    rw (clean_range-cleaned refusals rng t db after h)
      (cleaned-blocks t rng db, cleaned-doomed t rng db, cleaned-outside t rng db)
