-- ===== src/Eth/Cleaner.antt =====
-- pkg/super_node/eth/cleaner.go. A table is a list of rows; a DELETE with USING keeps the rows that
-- its join does not select, and the foreign keys of db/migrations delete the rows below a deleted
-- one (ON DELETE CASCADE). Which statements the database refuses is a parameter (Refusals).
pub mod Cleaning
pub mod Ranges
pub mod Tests
use vulcanize_db.Prelude.{ℕ, String, Bool, not, List, [], ◌∷◌, map, Option, none, some, keep}
use vulcanize_db.Prelude.Int.{ℤ, pos}
use vulcanize_db.Go.{Result, ok, err, panic, ◌>>=◌}
use vulcanize_db.Chain.{
  DataType, unknown_data_type, full, headers, uncles, transactions, receipts, state, storage,
}
use vulcanize_db.Sql.{
  Range, HeaderCid, ChildCid, header_in, child_in, without_parents, cids_of, header_cids,
  without_headers, without_keys, reset_header, rejected, committed,
}

-- The tables of schema eth, and the keys of public.blocks. An account is its state_id.
pub record Tables : Type 0 where
  pub header_rows : List HeaderCid
  pub uncle_rows : List ChildCid
  pub transaction_rows : List ChildCid
  pub receipt_rows : List ChildCid
  pub state_rows : List ChildCid
  pub storage_rows : List ChildCid
  pub account_rows : List ℤ
  pub blocks : List String

abbrev pub in_header : Range → Tables → ℤ → Bool
in_header rng db = header_in rng db.header_rows

abbrev pub in_transaction : Range → Tables → ℤ → Bool
in_transaction rng db = child_in (in_header rng db) db.transaction_rows

abbrev pub in_state : Range → Tables → ℤ → Bool
in_state rng db = child_in (in_header rng db) db.state_rows

abbrev pub delete_blocks : List String → Tables → Tables
delete_blocks cids db = record db { blocks = without_keys cids db.blocks }

-- The rows below the state rows of the range go with them.
abbrev pub without_state : Range → Tables → Tables
without_state rng db = record db {
  state_rows = without_parents (in_header rng db) db.state_rows;
  storage_rows = without_parents (in_state rng db) db.storage_rows;
  account_rows = keep (λ id. not (in_state rng db id)) db.account_rows;
}

abbrev pub without_transactions : Range → Tables → Tables
without_transactions rng db = record db {
  transaction_rows = without_parents (in_header rng db) db.transaction_rows;
  receipt_rows = without_parents (in_transaction rng db) db.receipt_rows;
}

abbrev pub without_uncles : Range → Tables → Tables
without_uncles rng db = record db { uncle_rows = without_parents (in_header rng db) db.uncle_rows }

-- The methods that clean one kind of data, cleanStorageIPLDs and so on
pub data Statement : Type 0 where
  storage_iplds storage_meta_data state_iplds state_meta_data receipt_iplds receipt_meta_data
        transaction_iplds transaction_meta_data uncle_iplds uncle_meta_data header_iplds
        header_meta_data :
      Statement

pub delete : Statement → Range → Tables → Tables
delete storage_iplds rng db = delete_blocks (cids_of (in_state rng db) db.storage_rows) db
delete storage_meta_data rng db = record db {
  storage_rows = without_parents (in_state rng db) db.storage_rows;
}
delete state_iplds rng db = delete_blocks (cids_of (in_header rng db) db.state_rows) db
delete state_meta_data rng db = without_state rng db
delete receipt_iplds rng db = delete_blocks (cids_of (in_transaction rng db) db.receipt_rows) db
delete receipt_meta_data rng db = record db {
  receipt_rows = without_parents (in_transaction rng db) db.receipt_rows;
}
delete transaction_iplds rng db = delete_blocks (cids_of (in_header rng db) db.transaction_rows) db
delete transaction_meta_data rng db = without_transactions rng db
delete uncle_iplds rng db = delete_blocks (cids_of (in_header rng db) db.uncle_rows) db
delete uncle_meta_data rng db = without_uncles rng db
delete header_iplds rng db = delete_blocks (header_cids rng db.header_rows) db
delete header_meta_data rng db =
    let below = without_state rng (without_transactions rng (without_uncles rng db)) in
    record below { header_rows = without_headers rng db.header_rows }

-- The tables that VACUUM ANALYZE runs on
pub data Table : Type 0 where
  header_table uncle_table transaction_table receipt_table state_table account_table storage_table
        ipld_table :
      Table

-- What the methods vacuumFull and vacuumAnalyze visit
abbrev pub vacuumed_full : List Table
vacuumed_full =
    header_table ∷ uncle_table ∷ transaction_table ∷ receipt_table ∷ state_table ∷ account_table
    ∷ storage_table ∷ []

pub vacuumed : DataType → List Table
vacuumed full = vacuumed_full
vacuumed headers = vacuumed_full
vacuumed uncles = uncle_table ∷ ipld_table ∷ []
vacuumed transactions = transaction_table ∷ receipt_table ∷ ipld_table ∷ []
vacuumed receipts = receipt_table ∷ ipld_table ∷ []
vacuumed state = state_table ∷ account_table ∷ storage_table ∷ ipld_table ∷ []
vacuumed storage = storage_table ∷ ipld_table ∷ []
vacuumed unknown_data_type = []

pub record Refusals : Type 0 where
  pub on_begin : Option String
  pub on_delete : Statement → Range → Option String
  pub on_reset : Range → Option String
  pub on_commit : Option String
  pub on_vacuum : Table → Option String

module _ (refusals : Refusals) where
  open refusals use {on_begin, on_delete, on_reset, on_commit, on_vacuum}

  -- tx.Exec of a method's statement
  pub exec : Statement → Range → Tables → Result Tables
  unfolding delete
  exec statement rng db = rejected (on_delete statement rng) (delete statement rng db)

  pub clean_full : Range → Tables → Result Tables
  unfolding exec
  clean_full rng db = do
    db1 ← exec storage_iplds rng db
    db2 ← exec state_iplds rng db1
    db3 ← exec receipt_iplds rng db2
    db4 ← exec transaction_iplds rng db3
    db5 ← exec uncle_iplds rng db4
    db6 ← exec header_iplds rng db5
    exec header_meta_data rng db6

  -- The method clean
  pub clean_range : Range → DataType → Tables → Result Tables
  unfolding exec clean_full
  clean_range rng full db = clean_full rng db
  clean_range rng headers db = clean_full rng db
  clean_range rng uncles db = exec uncle_iplds rng db >>= λ db1. exec uncle_meta_data rng db1
  clean_range rng transactions db = do
    db1 ← exec receipt_iplds rng db
    db2 ← exec transaction_iplds rng db1
    exec transaction_meta_data rng db2
  clean_range rng receipts db = exec receipt_iplds rng db >>= λ db1. exec receipt_meta_data rng db1
  clean_range rng state db = do
    db1 ← exec storage_iplds rng db
    db2 ← exec state_iplds rng db1
    exec state_meta_data rng db2
  clean_range rng storage db = exec storage_iplds rng db >>= λ db1. exec storage_meta_data rng db1
  clean_range rng unknown_data_type db = err "eth cleaner unrecognized type"

  pub clean_loop : List Range → DataType → Tables → Result Tables
  unfolding clean_range
  clean_loop [] t db = ok db
  clean_loop (rng ∷ rngs) t db = clean_range rng t db >>= λ next. clean_loop rngs t next

  -- The tables are vacuumed in order, up to the first that the database refuses.
  pub vacuum : List Table → Result (Unit {0})
  vacuum [] = ok tt
  vacuum (table ∷ rest) = rejected (on_vacuum table) tt >>= λ _. vacuum rest

  pub vacuum_analyze : DataType → Result (Unit {0})
  unfolding vacuum vacuumed
  vacuum_analyze unknown_data_type = err "eth cleaner unrecognized type"
  vacuum_analyze t = vacuum (vacuumed t)

  -- The method Clean
  pub clean : List Range → DataType → Tables → Tables × Result (Unit {0})
  unfolding clean_loop vacuum_analyze
  clean rngs t db =
      committed db (rejected on_begin db >>= λ begun. clean_loop rngs t begun) on_commit
        (λ _. vacuum_analyze t)

  pub reset_loop : List Range → Tables → Result Tables
  reset_loop [] db = ok db
  reset_loop (rng ∷ rngs) db =
      rejected (on_reset rng) (record db { header_rows = map (reset_header rng) db.header_rows })
      >>= λ next. reset_loop rngs next

  pub reset_validation : List Range → Tables → Tables × Result (Unit {0})
  unfolding reset_loop
  reset_validation rngs db =
      committed db (rejected on_begin db >>= λ begun. reset_loop rngs begun) on_commit (λ _. ok tt)
