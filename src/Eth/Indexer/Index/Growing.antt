-- ===== src/Eth/Indexer/Index/Growing.antt =====
-- Stores whose tables only gain keys.
use vulcanize_db.Prelude.{ℕ, ◌≡◌, refl, ◌∙◌, String, List}
use vulcanize_db.Eth.{TxModel, ReceiptModel}
use vulcanize_db.Eth.Indexer.{
  UncleModel, StateNodeModel, StorageNodeModel, StateAccountModel, Store, Table,
}
use vulcanize_db.Eth.Indexer.Index.Keys.{Kept}

-- The keys of the tables, beside the parent's id; a receipt and an account have no other.
abbrev pub uncle_key : UncleModel → String
uncle_key c = c.block_hash

abbrev pub tx_key : TxModel → String
tx_key c = c.tx_hash

abbrev pub receipt_key : ReceiptModel → Unit {0}
receipt_key c = tt

abbrev pub state_path : StateNodeModel → List ℕ
state_path c = c.path

abbrev pub storage_path : StorageNodeModel → List ℕ
storage_path c = c.path

abbrev pub account_key : StateAccountModel → Unit {0}
account_key c = tt

-- From one store to the other no key is lost.
pub record Grows (s t : Store) : Type 0 where
  pub headers_same : t.header_rows ≡ s.header_rows
  pub uncles_kept : Kept uncle_key s.uncles t.uncles
  pub transactions_kept : Kept tx_key s.transactions t.transactions
  pub receipts_kept : Kept receipt_key s.receipts t.receipts
  pub states_kept : Kept state_path s.states t.states
  pub storages_kept : Kept storage_path s.storages t.storages
  pub accounts_kept : Kept account_key s.accounts t.accounts

pub Grows-refl : (s : Store) → Grows s s
Grows-refl s = record {
  headers_same = refl;
  uncles_kept = λ id p k h. h;
  transactions_kept = λ id p k h. h;
  receipts_kept = λ id p k h. h;
  states_kept = λ id p k h. h;
  storages_kept = λ id p k h. h;
  accounts_kept = λ id p k h. h;
}

pub uncles_Grows :
    (s : Store) (after : Table UncleModel)
    → Kept uncle_key s.uncles after
    → Grows s (record s { uncles = after })
uncles_Grows s after kept = record {
  headers_same = refl;
  uncles_kept = kept;
  transactions_kept = λ id p k h. h;
  receipts_kept = λ id p k h. h;
  states_kept = λ id p k h. h;
  storages_kept = λ id p k h. h;
  accounts_kept = λ id p k h. h;
}

pub transactions_Grows :
    (s : Store) (after : Table TxModel)
    → Kept tx_key s.transactions after
    → Grows s (record s { transactions = after })
transactions_Grows s after kept = record {
  headers_same = refl;
  uncles_kept = λ id p k h. h;
  transactions_kept = kept;
  receipts_kept = λ id p k h. h;
  states_kept = λ id p k h. h;
  storages_kept = λ id p k h. h;
  accounts_kept = λ id p k h. h;
}

pub receipts_Grows :
    (s : Store) (after : Table ReceiptModel)
    → Kept receipt_key s.receipts after
    → Grows s (record s { receipts = after })
receipts_Grows s after kept = record {
  headers_same = refl;
  uncles_kept = λ id p k h. h;
  transactions_kept = λ id p k h. h;
  receipts_kept = kept;
  states_kept = λ id p k h. h;
  storages_kept = λ id p k h. h;
  accounts_kept = λ id p k h. h;
}

pub states_Grows :
    (s : Store) (after : Table StateNodeModel)
    → Kept state_path s.states after
    → Grows s (record s { states = after })
states_Grows s after kept = record {
  headers_same = refl;
  uncles_kept = λ id p k h. h;
  transactions_kept = λ id p k h. h;
  receipts_kept = λ id p k h. h;
  states_kept = kept;
  storages_kept = λ id p k h. h;
  accounts_kept = λ id p k h. h;
}

pub storages_Grows :
    (s : Store) (after : Table StorageNodeModel)
    → Kept storage_path s.storages after
    → Grows s (record s { storages = after })
storages_Grows s after kept = record {
  headers_same = refl;
  uncles_kept = λ id p k h. h;
  transactions_kept = λ id p k h. h;
  receipts_kept = λ id p k h. h;
  states_kept = λ id p k h. h;
  storages_kept = kept;
  accounts_kept = λ id p k h. h;
}

pub accounts_Grows :
    (s : Store) (after : Table StateAccountModel)
    → Kept account_key s.accounts after
    → Grows s (record s { accounts = after })
accounts_Grows s after kept = record {
  headers_same = refl;
  uncles_kept = λ id p k h. h;
  transactions_kept = λ id p k h. h;
  receipts_kept = λ id p k h. h;
  states_kept = λ id p k h. h;
  storages_kept = λ id p k h. h;
  accounts_kept = kept;
}

pub Grows-trans : {s t u : Store} → Grows s t → Grows t u → Grows s u
Grows-trans a b = record {
  headers_same = b.headers_same ∙ a.headers_same;
  uncles_kept = λ id p k h. b.uncles_kept id p k (a.uncles_kept id p k h);
  transactions_kept = λ id p k h. b.transactions_kept id p k (a.transactions_kept id p k h);
  receipts_kept = λ id p k h. b.receipts_kept id p k (a.receipts_kept id p k h);
  states_kept = λ id p k h. b.states_kept id p k (a.states_kept id p k h);
  storages_kept = λ id p k h. b.storages_kept id p k (a.storages_kept id p k h);
  accounts_kept = λ id p k h. b.accounts_kept id p k (a.accounts_kept id p k h);
}
