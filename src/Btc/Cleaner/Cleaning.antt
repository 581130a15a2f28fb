-- ===== src/Btc/Cleaner/Cleaning.antt =====
-- The bitcoin cleaner on one range, by the type of data.
use vulcanize_db.Prelude.{subst, ◌≡◌, refl, sym, ap, ◌⊎◌, inl, inr, String, List, [], ◌++◌}
use vulcanize_db.Go.{ok, >>=-eq-ok}
use vulcanize_db.Chain.{
  DataType, unknown_data_type, full, headers, uncles, transactions, receipts, state, storage,
}
use vulcanize_db.Sql.{Range, cids_of, header_cids, without_keys, without_headers, without_parents}
use vulcanize_db.Sql.Outcome.{rejected-eq-ok}
use vulcanize_db.Sql.Deleting.{
  header_in-without_headers, header_cids-without_headers, cids_of-without_parents, cids_of-none,
  without_keys-append,
}
use vulcanize_db.Btc.Cleaner.{
  Tables, in_header, Statement, transaction_iplds, transaction_meta_data, header_iplds,
  header_meta_data, delete, without_transactions, Refusals, exec, clean_full, clean_range,
}

module _ (refusals : Refusals) (rng : Range) (db : Tables) where
  exec-eq-ok :
      (statement : Statement) (before after : Tables)
      → exec refusals statement rng before ≡ ok after
      → delete statement rng before ≡ after
  unfolding exec
  exec-eq-ok statement before after h = rejected-eq-ok (refusals.on_delete statement rng) _ h

  transactions_range :
      (after : Tables)
      → clean_range refusals rng transactions db ≡ ok after
      → delete transaction_meta_data rng (delete transaction_iplds rng db) ≡ after
  unfolding clean_range
  transactions_range after h =
      let (db1, h1, g1) = >>=-eq-ok (exec refusals transaction_iplds rng db) _ h in
      subst (λ d. delete transaction_meta_data rng d ≡ after)
        (sym (exec-eq-ok transaction_iplds db db1 h1))
        (exec-eq-ok transaction_meta_data db1 after g1)

  full_range :
      (after : Tables)
      → clean_full refusals rng db ≡ ok after
      → delete header_meta_data rng (delete header_iplds rng (delete transaction_iplds rng db))
        ≡ after
  unfolding clean_full
  full_range after h =
      let (db1, h1, g1) = >>=-eq-ok (exec refusals transaction_iplds rng db) _ h in
      let (db2, h2, g2) = >>=-eq-ok (exec refusals header_iplds rng db1) _ g1 in
      subst (λ d. delete header_meta_data rng (delete header_iplds rng d) ≡ after)
        (sym (exec-eq-ok transaction_iplds db db1 h1))
        (subst (λ d. delete header_meta_data rng d ≡ after)
          (sym (exec-eq-ok header_iplds db1 db2 h2)) (exec-eq-ok header_meta_data db2 after g2))

  both_empty : {xs ys : List String} → xs ≡ [] → ys ≡ [] → xs ++ ys ≡ []
  both_empty x y = rw (x) y

  -- What a full cleaning leaves.
  abbrev pub emptied : Tables
  emptied = record (without_transactions rng db) {
    header_rows = without_headers rng db.header_rows;
    blocks =
        without_keys
          (cids_of (in_header rng db) db.transaction_rows ++ header_cids rng db.header_rows)
          db.blocks;
  }

  full_left :
      (after : Tables)
      → clean_full refusals rng db ≡ ok after
      → (after ≡ emptied)
        × (cids_of (in_header rng after) after.transaction_rows ++ header_cids rng after.header_rows
            ≡ [])
  unfolding delete
  full_left after h = rw (← full_range after h) (
    ap (λ keys. record emptied { blocks = keys })
        (without_keys-append (cids_of (in_header rng db) db.transaction_rows)
          (header_cids rng db.header_rows) db.blocks),
    both_empty
        (cids_of-none _ (header_in-without_headers rng db.header_rows)
          (without_parents (in_header rng db) db.transaction_rows))
        (header_cids-without_headers rng db.header_rows),
  )

  -- Cleaning transactions succeeds with their blocks and rows gone, and those of their inputs and
  -- outputs; cleaning everything or the headers also with the blocks and rows of the headers gone.
  -- Then no row of the type is left in the range. Other types are refused.
  pub clean_range-left :
      (t : DataType) (after : Tables)
      → clean_range refusals rng t db ≡ ok after
      → ((t ≡ transactions)
          × (after ≡ record (without_transactions rng db) {
            blocks = without_keys (cids_of (in_header rng db) db.transaction_rows) db.blocks;
          })
          × (cids_of (in_header rng after) after.transaction_rows ≡ []))
        ⊎ (((t ≡ full) ⊎ (t ≡ headers))
            × (after ≡ emptied)
            × (cids_of (in_header rng after) after.transaction_rows
                  ++ header_cids rng after.header_rows
                ≡ []))
  unfolding clean_range delete
  clean_range-left full after h = let left = full_left after h in inr (inl refl, left.0, left.1)
  clean_range-left headers after h = let left = full_left after h in inr (inr refl, left.0, left.1)
  clean_range-left transactions after h =
      rw (← transactions_range after h)
        (inl (refl, refl, cids_of-without_parents (in_header rng db) db.transaction_rows))
  clean_range-left uncles after h = cc
  clean_range-left receipts after h = cc
  clean_range-left state after h = cc
  clean_range-left storage after h = cc
  clean_range-left unknown_data_type after h = cc
