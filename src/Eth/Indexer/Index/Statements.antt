-- ===== src/Eth/Indexer/Index/Statements.antt =====
-- What each statement of the indexer does to the tables.
use vulcanize_db.Prelude.{
  ℕ, ◌≡◌, refl, ◌∙◌, Bool, true, ◌&&◌, List, [], ◌∷◌, map, any_of_append, Option, none, some, ◌==◌,
  nat_eq, bytes_eq, nat_beq_iff, string_eq, if◌then◌else◌, arith,
}
use vulcanize_db.Prelude.Int.{pos, ◌+ℤ◌, int_eq}
use vulcanize_db.Go.{OnOk}
use vulcanize_db.Eth.{TxModel, ReceiptModel}
use vulcanize_db.Eth.Indexer.{
  HeaderModel, UncleModel, StateNodeModel, StorageNodeModel, StateAccountModel, Hex, Store,
  insert_header, insert_transaction, insert_state, HeaderRow, Refusals, header_conflict,
  insert_or_validate,
}
use vulcanize_db.Eth.Indexer.Index.{
  index_transaction_cid, index_header_cid, index_uncle_cid, index_receipt_cid, index_state_cid,
  index_state_account, index_storage_cid, leaf_key,
}
use vulcanize_db.Eth.Indexer.Index.Linked.{
  has_header, has_row, IsLinked, Under-imp, upsert-Written, or_true,
}
use vulcanize_db.Eth.Indexer.Index.Steps.{
  Step, uncles_Step, transactions_Step, receipts_Step, states_Step, storages_Step, accounts_Step,
  OnOk-unless_refused, RowStep,
}

abbrev pub HasTransaction : Store → ℕ → Type 0
HasTransaction s id = has_row s.transactions.rows id ≡ true

abbrev pub HasState : Store → ℕ → Type 0
HasState s id = has_row s.states.rows id ≡ true

module _ (hex : Hex) (refusals : Refusals) where
  pub index_uncle_cid-Step :
      (uncle : UncleModel) (header_id : ℕ) (s : Store)
      → has_header s.header_rows header_id ≡ true
      → OnOk (Step s) (index_uncle_cid hex refusals uncle header_id s)
  unfolding index_uncle_cid
  index_uncle_cid-Step uncle header_id s there =
      OnOk-unless_refused (Step s) _ _ (
        uncles_Step s _
          (upsert-Written (has_header s.header_rows) _ header_id uncle s.uncles there))

  pub index_transaction_cid-RowStep :
      (tx : TxModel) (header_id : ℕ) (s : Store)
      → has_header s.header_rows header_id ≡ true
      → OnOk (RowStep HasTransaction s) (index_transaction_cid hex refusals tx header_id s)
  unfolding index_transaction_cid
  index_transaction_cid-RowStep tx header_id s there =
      let w =
        upsert-Written (has_header s.header_rows) (λ c. c.tx_hash == tx.tx_hash) header_id tx
          s.transactions there in
      OnOk-unless_refused (RowStep HasTransaction s) (refusals.on_statement (insert_transaction tx))
        _ (transactions_Step s _ w, w.returned)

  pub index_receipt_cid-Step :
      (receipt : ReceiptModel) (tx_id : ℕ) (s : Store)
      → HasTransaction s tx_id
      → OnOk (Step s) (index_receipt_cid hex refusals receipt tx_id s)
  unfolding index_receipt_cid
  index_receipt_cid-Step receipt tx_id s there = OnOk-unless_refused (Step s) _ _ (
      receipts_Step s _
        (upsert-Written (has_row s.transactions.rows) _ tx_id receipt s.receipts there))

  pub index_state_cid-RowStep :
      (state : StateNodeModel) (header_id : ℕ) (s : Store)
      → has_header s.header_rows header_id ≡ true
      → OnOk (RowStep HasState s) (index_state_cid hex refusals state header_id s)
  unfolding index_state_cid
  index_state_cid-RowStep state header_id s there =
      let columns = record state { state_key = leaf_key state.state_key } in
      let w =
        upsert-Written (has_header s.header_rows) (λ c. c.path == state.path) header_id columns
          s.states there in
      OnOk-unless_refused (RowStep HasState s) (refusals.on_statement (insert_state state)) _
        (states_Step s _ w, w.returned)

  pub index_state_account-Step :
      (account : StateAccountModel) (state_id : ℕ) (s : Store)
      → HasState s state_id
      → OnOk (Step s) (index_state_account hex refusals account state_id s)
  unfolding index_state_account
  index_state_account-Step account state_id s there = OnOk-unless_refused (Step s) _ _ (
      accounts_Step s _
        (upsert-Written (has_row s.states.rows) _ state_id account s.accounts there))

  pub index_storage_cid-Step :
      (storage : StorageNodeModel) (state_id : ℕ) (s : Store)
      → HasState s state_id
      → OnOk (Step s) (index_storage_cid hex refusals storage state_id s)
  unfolding index_storage_cid
  index_storage_cid-Step storage state_id s there =
      OnOk-unless_refused (Step s) _ _
        (storages_Step s _ (upsert-Written (has_row s.states.rows) _ state_id _ s.storages there))

abbrev pub same_header : HeaderModel → HeaderRow → Bool
same_header header row =
    (row.columns.block_number == header.block_number)
    && (row.columns.block_hash == header.block_hash)

header_conflict-has_header :
    (header : HeaderModel) (rows : List HeaderRow) (id : ℕ)
    → header_conflict header rows ≡ some id
    → has_header rows id ≡ true
unfolding header_conflict
header_conflict-has_header header [] id h = cc
header_conflict-has_header header (row ∷ rows) id h =
    ground (arith, header_conflict-has_header header rows id, nat_beq_iff row.id id)

has_header-validated :
    (header : HeaderModel) (rows : List HeaderRow) (id : ℕ)
    → has_header
        (map
          (λ row.
            if same_header header row
            then record row { columns = header; times_validated = row.times_validated +ℤ pos 1 }
            else row)
          rows)
        id
      ≡ has_header rows id
has_header-validated header [] id = refl
has_header-validated header (row ∷ rows) id = ground (arith, has_header-validated header rows id)

-- What the header's statement does: all ids stay, and the id that it returns is there.
pub record HeaderWritten (s : Store) (done : Store × ℕ) : Type 0 where
  pub linked : IsLinked s → IsLinked done.0
  pub returned : has_header done.0.header_rows done.1 ≡ true

more_headers :
    (s : Store) (rows : List HeaderRow) (next : ℕ)
    → ((id : ℕ) → has_header s.header_rows id ≡ true → has_header rows id ≡ true)
    → IsLinked s
    → IsLinked (record s { header_rows = rows; next_header_id = next })
more_headers s rows next kept h = record {
  uncles_linked = Under-imp _ _ s.uncles.rows kept h.uncles_linked;
  transactions_linked = Under-imp _ _ s.transactions.rows kept h.transactions_linked;
  receipts_linked = h.receipts_linked;
  states_linked = Under-imp _ _ s.states.rows kept h.states_linked;
  storages_linked = h.storages_linked;
  accounts_linked = h.accounts_linked;
}

pub insert_or_validate-HeaderWritten :
    (header : HeaderModel) (s : Store) (found : Option ℕ)
    → header_conflict header s.header_rows ≡ found
    → HeaderWritten s (insert_or_validate header s found)
insert_or_validate-HeaderWritten header s none e =
    let row : HeaderRow = record {
      id = s.next_header_id;
      columns = header;
      times_validated = pos 1;
    } in
    record {
      linked =
          more_headers s _ _
            (λ id h. any_of_append (λ r. r.id == id) s.header_rows (row ∷ []) ∙ rw (h) refl);
      returned =
          any_of_append (λ r. r.id == s.next_header_id) s.header_rows (row ∷ [])
          ∙ (rw ((nat_beq_iff s.next_header_id s.next_header_id).1 refl)
              (or_true (has_header s.header_rows s.next_header_id)));
    }
insert_or_validate-HeaderWritten header s (some id) e = record {
  linked = more_headers s _ _ (λ j h. has_header-validated header s.header_rows j ∙ h);
  returned =
      has_header-validated header s.header_rows id
      ∙ header_conflict-has_header header s.header_rows id e;
}

module _ (hex : Hex) (refusals : Refusals) where
  pub index_header_cid-HeaderWritten :
      (header : HeaderModel) (s : Store)
      → OnOk (HeaderWritten s) (index_header_cid hex refusals header s)
  unfolding index_header_cid
  index_header_cid-HeaderWritten header s =
      OnOk-unless_refused (HeaderWritten s) (refusals.on_statement (insert_header header)) _
        (insert_or_validate-HeaderWritten header s _ refl)
