-- ===== src/Btc/Cleaner.antt =====
-- pkg/super_node/btc/cleaner.go, on tables as those of the ethereum cleaner: a DELETE keeps the rows
-- that its join does not select, and the foreign keys delete the rows below a deleted one.
pub mod Cleaning
pub mod Tests
use vulcanize_db.Prelude.{ℕ, String, Bool, not, List, [], ◌∷◌, map, Option, none, some, keep}
use vulcanize_db.Prelude.Int.{ℤ, pos}
use vulcanize_db.Go.{Result, ok, err, panic, ◌>>=◌}
use vulcanize_db.Chain.{DataType, full, headers, transactions}
use vulcanize_db.Sql.{
  Range, HeaderCid, ChildCid, header_in, child_in, without_parents, cids_of, header_cids,
  without_headers, without_keys, reset_header, rejected, committed,
}

-- The tables of schema btc, and the keys of public.blocks. An input or output is its tx_id.
pub record Tables : Type 0 where
  pub header_rows : List HeaderCid
  pub transaction_rows : List ChildCid
  pub input_rows : List ℤ
  pub output_rows : List ℤ
  pub blocks : List String

abbrev pub in_header : Range → Tables → ℤ → Bool
in_header rng db = header_in rng db.header_rows

abbrev pub in_transaction : Range → Tables → ℤ → Bool
in_transaction rng db = child_in (in_header rng db) db.transaction_rows

abbrev pub delete_blocks : List String → Tables → Tables
delete_blocks cids db = record db { blocks = without_keys cids db.blocks }

abbrev pub without_transactions : Range → Tables → Tables
without_transactions rng db = record db {
  transaction_rows = without_parents (in_header rng db) db.transaction_rows;
  input_rows = keep (λ id. not (in_transaction rng db id)) db.input_rows;
  output_rows = keep (λ id. not (in_transaction rng db id)) db.output_rows;
}

-- cleanTransactionIPLDs, cleanTransactionMetaData, cleanHeaderIPLDs, cleanHeaderMetaData
pub data Statement : Type 0 where
  transaction_iplds transaction_meta_data header_iplds header_meta_data : Statement

pub delete : Statement → Range → Tables → Tables
delete transaction_iplds rng db = delete_blocks (cids_of (in_header rng db) db.transaction_rows) db
delete transaction_meta_data rng db = without_transactions rng db
delete header_iplds rng db = delete_blocks (header_cids rng db.header_rows) db
delete header_meta_data rng db = record (without_transactions rng db) {
  header_rows = without_headers rng db.header_rows;
}

pub data Table : Type 0 where
  header_table transaction_table input_table output_table ipld_table : Table

abbrev pub vacuumed : DataType → List Table
vacuumed full = header_table ∷ transaction_table ∷ input_table ∷ output_table ∷ ipld_table ∷ []
vacuumed headers = header_table ∷ transaction_table ∷ input_table ∷ output_table ∷ ipld_table ∷ []
vacuumed transactions = transaction_table ∷ input_table ∷ output_table ∷ ipld_table ∷ []
vacuumed _ = []

pub record Refusals : Type 0 where
  pub on_begin : Option String
  pub on_delete : Statement → Range → Option String
  pub on_reset : Range → Option String
  pub on_commit : Option String
  pub on_vacuum : Table → Option String

module _ (refusals : Refusals) where
  open refusals use {on_begin, on_delete, on_reset, on_commit, on_vacuum}

  pub exec : Statement → Range → Tables → Result Tables
  unfolding delete
  exec statement rng db = rejected (on_delete statement rng) (delete statement rng db)

  pub clean_full : Range → Tables → Result Tables
  unfolding exec
  clean_full rng db = do
    db1 ← exec transaction_iplds rng db
    db2 ← exec header_iplds rng db1
    exec header_meta_data rng db2

  -- The method clean
  pub clean_range : Range → DataType → Tables → Result Tables
  unfolding exec clean_full
  clean_range rng full db = clean_full rng db
  clean_range rng headers db = clean_full rng db
  clean_range rng transactions db =
      exec transaction_iplds rng db >>= λ db1. exec transaction_meta_data rng db1
  clean_range rng _ db = err "btc cleaner unrecognized type"

  pub clean_loop : List Range → DataType → Tables → Result Tables
  unfolding clean_range
  clean_loop [] t db = ok db
  clean_loop (rng ∷ rngs) t db = clean_range rng t db >>= λ next. clean_loop rngs t next

  pub vacuum : List Table → Result (Unit {0})
  vacuum [] = ok tt
  vacuum (table ∷ rest) = rejected (on_vacuum table) tt >>= λ _. vacuum rest

  pub vacuum_analyze : DataType → Result (Unit {0})
  unfolding vacuum
  vacuum_analyze full = vacuum (vacuumed full)
  vacuum_analyze headers = vacuum (vacuumed headers)
  vacuum_analyze transactions = vacuum (vacuumed transactions)
  vacuum_analyze _ = err "btc cleaner unrecognized type"

  -- The method Clean
  pub clean : List Range → DataType → Tables → Tables × Result (Unit {0})
  unfolding clean_loop vacuum_analyze
  clean rngs t db =
      committed db (rejected on_begin db >>= λ begun. clean_loop rngs t begun) on_commit
        (λ _. vacuum_analyze t)

  pub reset_loop : List Range → Tables → Result Tables
  reset_loop [] db = ok db
  reset_loop (rng ∷ rngs) db =
      rejected (on_reset rng) (record db { header_rows = map (reset_header rng) db.header_rows })
      >>= λ next. reset_loop rngs next

  pub reset_validation : List Range → Tables → Tables × Result (Unit {0})
  unfolding reset_loop
  reset_validation rngs db =
      committed db (rejected on_begin db >>= λ begun. reset_loop rngs begun) on_commit (λ _. ok tt)
