-- ===== src/Eth/Indexer.antt =====
-- pkg/super_node/eth/indexer.go: the tables that Index writes to, and its INSERT statements. A table is a list of
-- rows with their serial ids and parents' ids; `ON CONFLICT ... DO UPDATE` writes the columns of
-- the row that has the key already. The database may refuse a statement or the commit.
pub mod Index
pub mod Combined
use vulcanize_db.Prelude.{
  ℕ, ◌+◌, String, Bool, true, false, ◌&&◌, List, [], ◌∷◌, ◌++◌, map, any_of, Option, none, some,
  ◌==◌, string_eq, nat_eq, if◌then◌else◌,
}
use vulcanize_db.Prelude.Int.{ℤ, pos, ◌+ℤ◌}
use vulcanize_db.Prelude.Assoc.{find}
use vulcanize_db.Go.{Bytes, Result, ok, err, panic, ◌>>=◌}
use vulcanize_db.Eth.{TxModel, ReceiptModel}

-- The structs of models.go, without their ids and the node's; a decimal text that is stored as a number
-- is that number.
pub record HeaderModel : Type 0 where
  pub block_number : ℕ
  pub block_hash : String
  pub parent_hash : String
  pub cid : String
  pub total_difficulty : String
  pub reward : String
  pub state_root : String
  pub uncle_root : String
  pub tx_root : String
  pub rct_root : String
  pub bloom : Bytes
  pub timestamp : ℕ

pub record UncleModel : Type 0 where
  pub block_hash : String
  pub parent_hash : String
  pub cid : String
  pub reward : String

pub record StateNodeModel : Type 0 where
  pub path : Bytes
  pub state_key : String
  pub node_type : ℤ
  pub cid : String

pub record StorageNodeModel : Type 0 where
  pub path : Bytes
  pub storage_key : String
  pub node_type : ℤ
  pub cid : String

pub record StateAccountModel : Type 0 where
  pub balance : String
  pub nonce : ℕ
  pub code_hash : Bytes
  pub storage_root : String

-- common.HexToHash and common.Bytes2Hex of go-ethereum
pub record Hex : Type 0 where
  pub hex_to_hash : String → ℕ
  pub bytes_to_hex : Bytes → String

-- The maps of the payload: receipts by transaction hash, storage nodes and accounts by the hex of
-- their state node's path
pub record CidPayload : Type 0 where
  pub header_cid : HeaderModel
  pub uncle_cids : List UncleModel
  pub transaction_cids : List TxModel
  pub receipt_cids : List (ℕ × ReceiptModel)
  pub state_node_cids : List StateNodeModel
  pub state_accounts : List (String × StateAccountModel)
  pub storage_node_cids : List (String × List StorageNodeModel)

pub record HeaderRow : Type 0 where
  pub id : ℕ
  pub columns : HeaderModel
  pub times_validated : ℤ

pub record Row (Columns : Type 0) : Type 0 where
  pub id : ℕ
  pub parent_id : ℕ
  pub columns : Columns

pub record Table (Columns : Type 0) : Type 0 where
  pub rows : List (Row Columns)
  pub next_id : ℕ

pub record Store : Type 0 where
  pub header_rows : List HeaderRow
  pub next_header_id : ℕ
  pub uncles : Table UncleModel
  pub transactions : Table TxModel
  pub receipts : Table ReceiptModel
  pub states : Table StateNodeModel
  pub storages : Table StorageNodeModel
  pub accounts : Table StateAccountModel

module _ {Columns : Type 0} where
  unfoldable pub conflicting : (Row Columns → Bool) → List (Row Columns) → Option ℕ
  conflicting same [] = none
  conflicting same (row ∷ rows) =
      let later = conflicting same rows in if same row then some row.id else later

  abbrev pub written : (Row Columns → Bool) → Columns → List (Row Columns) → List (Row Columns)
  written same columns rows =
      map (λ row. if same row then record row { columns = columns } else row) rows

  abbrev pub insert_or_update :
      (Row Columns → Bool) → ℕ → Columns → Table Columns → Option ℕ → Table Columns × ℕ
  insert_or_update same parent columns table none = (
    record {
      rows =
          table.rows ++ record { id = table.next_id; parent_id = parent; columns = columns } ∷ [];
      next_id = table.next_id + 1;
    },
    table.next_id,
  )
  insert_or_update same parent columns table (some id) =
      (record { rows = written same columns table.rows; next_id = table.next_id + 1 }, id)

  -- INSERT ... ON CONFLICT DO UPDATE ... RETURNING id, where a key beside the parent's id is unique
  pub upsert : (Columns → Bool) → ℕ → Columns → Table Columns → Table Columns × ℕ
  unfolding conflicting
  upsert same_key parent columns table =
      let same = λ (row : Row Columns). (row.parent_id == parent) && same_key row.columns in
      insert_or_update same parent columns table (conflicting same table.rows)

pub header_conflict : HeaderModel → List HeaderRow → Option ℕ
header_conflict header [] = none
header_conflict header (row ∷ rows) =
    let later = header_conflict header rows in
    if (row.columns.block_number == header.block_number)
      && (row.columns.block_hash == header.block_hash)
    then some row.id
    else later

-- `times_validated = eth.header_cids.times_validated + 1` for a header that is there
abbrev pub insert_or_validate : HeaderModel → Store → Option ℕ → Store × ℕ
insert_or_validate header s none = (
  record s {
    header_rows =
        s.header_rows
        ++ record { id = s.next_header_id; columns = header; times_validated = pos 1 } ∷ [];
    next_header_id = s.next_header_id + 1;
  },
  s.next_header_id,
)
insert_or_validate header s (some id) = (
  record s {
    header_rows =
        map
          (λ row.
            if (row.columns.block_number == header.block_number)
              && (row.columns.block_hash == header.block_hash)
            then record row { columns = header; times_validated = row.times_validated +ℤ pos 1 }
            else row)
          s.header_rows;
    next_header_id = s.next_header_id + 1;
  },
  id,
)

pub data Statement : Type 0 where
  insert_header : HeaderModel → Statement
  insert_uncle : UncleModel → Statement
  insert_transaction : TxModel → Statement
  insert_receipt : ReceiptModel → Statement
  insert_state : StateNodeModel → Statement
  insert_account : StateAccountModel → Statement
  insert_storage : StorageNodeModel → Statement

pub record Refusals : Type 0 where
  pub on_begin : Option String
  pub on_statement : Statement → Option String
  pub on_commit : Option String

abbrev pub unless_refused : {A : Type 0} → Option String → A → Result A
unless_refused none done = ok done
unless_refused (some e) done = err e
