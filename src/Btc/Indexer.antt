-- ===== src/Btc/Indexer.antt =====
-- pkg/super_node/btc/indexer.go: Index in one database transaction, on tables like those of the
-- ethereum indexer (Eth/Indexer). A transaction is unique by its hash alone, so that its row moves
-- to the header under which it is indexed last.
pub mod Moving
pub mod Claiming
pub mod Tests
use vulcanize_db.Prelude.{
  ℕ, ◌+◌, String, Bool, true, false, ◌&&◌, List, [], ◌∷◌, ◌++◌, map, Option, none, some, ◌==◌,
  string_eq, nat_eq, if◌then◌else◌,
}
use vulcanize_db.Prelude.Int.{ℤ, pos, ◌+ℤ◌, int_eq}
use vulcanize_db.Go.{Result, ok, err, panic, ◌>>=◌}
use vulcanize_db.Btc.{TxInput, TxOutput, TxModelWithInsAndOuts}
use vulcanize_db.Eth.Indexer.{Row, Table, conflicting, upsert, unless_refused}
use vulcanize_db.Eth.Indexer.Index.{deferred}

-- The columns of btc.header_cids but the node's id; a decimal text that is stored as a number is that
-- number.
pub record HeaderModel : Type 0 where
  pub block_number : ℕ
  pub block_hash : String
  pub parent_hash : String
  pub cid : String
  pub timestamp : ℤ
  pub bits : ℕ

pub record CidPayload : Type 0 where
  pub header_cid : HeaderModel
  pub transaction_cids : List TxModelWithInsAndOuts

pub record HeaderRow : Type 0 where
  pub id : ℕ
  pub columns : HeaderModel
  pub times_validated : ℤ

pub record Store : Type 0 where
  pub header_rows : List HeaderRow
  pub next_header_id : ℕ
  pub transactions : Table TxModelWithInsAndOuts
  pub inputs : Table TxInput
  pub outputs : Table TxOutput

pub data Statement : Type 0 where
  insert_header : HeaderModel → Statement
  insert_transaction : TxModelWithInsAndOuts → Statement
  insert_input : TxInput → Statement
  insert_output : TxOutput → Statement

pub record Refusals : Type 0 where
  pub on_begin : Option String
  pub on_statement : Statement → Option String
  pub on_commit : Option String

abbrev pub same_block : HeaderModel → HeaderRow → Bool
same_block header row =
    (row.columns.block_number == header.block_number)
    && (row.columns.block_hash == header.block_hash)

pub header_conflict : HeaderModel → List HeaderRow → Option ℕ
header_conflict header [] = none
header_conflict header (row ∷ rows) =
    let later = header_conflict header rows in if same_block header row then some row.id else later

abbrev pub insert_or_validate : HeaderModel → Store → Option ℕ → Store × ℕ
insert_or_validate header s none = (
  record s {
    header_rows =
        s.header_rows
        ++ record { id = s.next_header_id; columns = header; times_validated = pos 1 } ∷ [];
    next_header_id = s.next_header_id + 1;
  },
  s.next_header_id,
)
insert_or_validate header s (some id) = (
  record s {
    header_rows =
        map
          (λ row.
            if same_block header row
            then record row { columns = header; times_validated = row.times_validated +ℤ pos 1 }
            else row)
          s.header_rows;
    next_header_id = s.next_header_id + 1;
  },
  id,
)

abbrev pub has_hash : String → Row TxModelWithInsAndOuts → Bool
has_hash hash row = row.columns.tx_hash == hash

-- `ON CONFLICT (tx_hash) DO UPDATE SET (header_id, ...)`
abbrev pub insert_or_move :
    TxModelWithInsAndOuts
    → ℕ
    → Table TxModelWithInsAndOuts
    → Option ℕ
    → Table TxModelWithInsAndOuts × ℕ
insert_or_move tx header_id table none = (
  record {
    rows = table.rows ++ record { id = table.next_id; parent_id = header_id; columns = tx } ∷ [];
    next_id = table.next_id + 1;
  },
  table.next_id,
)
insert_or_move tx header_id table (some id) = (
  record {
    rows =
        map
          (λ row.
            if has_hash tx.tx_hash row
            then record row { parent_id = header_id; columns = tx }
            else row)
          table.rows;
    next_id = table.next_id + 1;
  },
  id,
)

module _ (refusals : Refusals) where
  open refusals use {on_begin, on_statement, on_commit}

  pub index_header_cid : HeaderModel → Store → Result (Store × ℕ)
  unfolding header_conflict
  index_header_cid header s =
      unless_refused (on_statement (insert_header header))
        (insert_or_validate header s (header_conflict header s.header_rows))

  pub index_transaction_cid : TxModelWithInsAndOuts → ℕ → Store → Result (Store × ℕ)
  index_transaction_cid tx header_id s =
      let done =
        insert_or_move tx header_id s.transactions
          (conflicting (has_hash tx.tx_hash) s.transactions.rows) in
      unless_refused (on_statement (insert_transaction tx))
        (record s { transactions = done.0 }, done.1)

  pub index_tx_input : TxInput → ℕ → Store → Result Store
  index_tx_input input tx_id s =
      unless_refused (on_statement (insert_input input))
        (record s { inputs = (upsert (λ c. c.index == input.index) tx_id input s.inputs).0 })

  pub index_tx_output : TxOutput → ℕ → Store → Result Store
  index_tx_output output tx_id s =
      unless_refused (on_statement (insert_output output))
        (record s { outputs = (upsert (λ c. c.index == output.index) tx_id output s.outputs).0 })

  pub index_inputs : List TxInput → ℕ → Store → Result Store
  unfolding index_tx_input
  index_inputs [] tx_id s = ok s
  index_inputs (input ∷ inputs) tx_id s =
      index_tx_input input tx_id s >>= λ next. index_inputs inputs tx_id next

  pub index_outputs : List TxOutput → ℕ → Store → Result Store
  unfolding index_tx_output
  index_outputs [] tx_id s = ok s
  index_outputs (output ∷ outputs) tx_id s =
      index_tx_output output tx_id s >>= λ next. index_outputs outputs tx_id next

  pub index_transaction_cids : List TxModelWithInsAndOuts → ℕ → Store → Result Store
  unfolding index_transaction_cid index_inputs index_outputs
  index_transaction_cids [] header_id s = ok s
  index_transaction_cids (tx ∷ txs) header_id s = do
    done ← index_transaction_cid tx header_id s
    with_inputs ← index_inputs tx.tx_inputs done.1 done.0
    with_outputs ← index_outputs tx.tx_outputs done.1 with_inputs
    index_transaction_cids txs header_id with_outputs

  pub index_all : CidPayload → Store → Result Store
  unfolding index_header_cid index_transaction_cids
  index_all payload s = index_header_cid payload.header_cid s >>= λ done.
      index_transaction_cids payload.transaction_cids done.1 done.0

  pub index : CidPayload → Store → Store × Result (Unit {0})
  unfolding index_all
  index payload s =
      deferred s (unless_refused on_begin s >>= λ begun. index_all payload begun) on_commit
