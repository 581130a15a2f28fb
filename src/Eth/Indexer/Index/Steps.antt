-- ===== src/Eth/Indexer/Index/Steps.antt =====
-- What the functions of the indexer after the header's do to the tables, and chains of their calls.
use vulcanize_db.Prelude.{
  ℕ, ◌≡◌, refl, ◌∙◌, String, true, Option, none, some, nat_eq, bytes_eq, string_eq,
}
use vulcanize_db.Prelude.Int.{int_eq}
use vulcanize_db.Go.{Result, ok, err, panic, ◌>>=◌, OnOk, OnOk->>=}
use vulcanize_db.Eth.{TxModel, ReceiptModel}
use vulcanize_db.Eth.Indexer.{
  UncleModel, StateNodeModel, StorageNodeModel, StateAccountModel, Store, Table, unless_refused,
}
use vulcanize_db.Eth.Indexer.Index.Linked.{has_header, has_row, IsLinked, Written, Under-imp}

-- What a function after the header's does to the store.
pub record Step (s next : Store) : Type 0 where
  pub linked : IsLinked s → IsLinked next
  pub headers_same : next.header_rows ≡ s.header_rows
  pub transactions_kept :
      (id : ℕ) → has_row s.transactions.rows id ≡ true → has_row next.transactions.rows id ≡ true
  pub states_kept : (id : ℕ) → has_row s.states.rows id ≡ true → has_row next.states.rows id ≡ true

pub Step-refl : (s : Store) → Step s s
Step-refl s = record {
  linked = λ h. h;
  headers_same = refl;
  transactions_kept = λ id h. h;
  states_kept = λ id h. h;
}

pub Step-trans : {s t u : Store} → Step s t → Step t u → Step s u
Step-trans first second = record {
  linked = λ h. second.linked (first.linked h);
  headers_same = second.headers_same ∙ first.headers_same;
  transactions_kept = λ id h. second.transactions_kept id (first.transactions_kept id h);
  states_kept = λ id h. second.states_kept id (first.states_kept id h);
}

pub uncles_Step :
    (s : Store) (done : Table UncleModel × ℕ)
    → Written (has_header s.header_rows) s.uncles done
    → Step s (record s { uncles = done.0 })
uncles_Step s done w = record {
  linked = λ h. record {
    uncles_linked = w.under h.uncles_linked;
    transactions_linked = h.transactions_linked;
    receipts_linked = h.receipts_linked;
    states_linked = h.states_linked;
    storages_linked = h.storages_linked;
    accounts_linked = h.accounts_linked;
  };
  headers_same = refl;
  transactions_kept = λ id h. h;
  states_kept = λ id h. h;
}

pub transactions_Step :
    (s : Store) (done : Table TxModel × ℕ)
    → Written (has_header s.header_rows) s.transactions done
    → Step s (record s { transactions = done.0 })
transactions_Step s done w = record {
  linked = λ h. record {
    uncles_linked = h.uncles_linked;
    transactions_linked = w.under h.transactions_linked;
    receipts_linked = Under-imp _ _ s.receipts.rows w.kept h.receipts_linked;
    states_linked = h.states_linked;
    storages_linked = h.storages_linked;
    accounts_linked = h.accounts_linked;
  };
  headers_same = refl;
  transactions_kept = w.kept;
  states_kept = λ id h. h;
}

pub receipts_Step :
    (s : Store) (done : Table ReceiptModel × ℕ)
    → Written (has_row s.transactions.rows) s.receipts done
    → Step s (record s { receipts = done.0 })
receipts_Step s done w = record {
  linked = λ h. record {
    uncles_linked = h.uncles_linked;
    transactions_linked = h.transactions_linked;
    receipts_linked = w.under h.receipts_linked;
    states_linked = h.states_linked;
    storages_linked = h.storages_linked;
    accounts_linked = h.accounts_linked;
  };
  headers_same = refl;
  transactions_kept = λ id h. h;
  states_kept = λ id h. h;
}

pub states_Step :
    (s : Store) (done : Table StateNodeModel × ℕ)
    → Written (has_header s.header_rows) s.states done
    → Step s (record s { states = done.0 })
states_Step s done w = record {
  linked = λ h. record {
    uncles_linked = h.uncles_linked;
    transactions_linked = h.transactions_linked;
    receipts_linked = h.receipts_linked;
    states_linked = w.under h.states_linked;
    storages_linked = Under-imp _ _ s.storages.rows w.kept h.storages_linked;
    accounts_linked = Under-imp _ _ s.accounts.rows w.kept h.accounts_linked;
  };
  headers_same = refl;
  transactions_kept = λ id h. h;
  states_kept = w.kept;
}

pub storages_Step :
    (s : Store) (done : Table StorageNodeModel × ℕ)
    → Written (has_row s.states.rows) s.storages done
    → Step s (record s { storages = done.0 })
storages_Step s done w = record {
  linked = λ h. record {
    uncles_linked = h.uncles_linked;
    transactions_linked = h.transactions_linked;
    receipts_linked = h.receipts_linked;
    states_linked = h.states_linked;
    storages_linked = w.under h.storages_linked;
    accounts_linked = h.accounts_linked;
  };
  headers_same = refl;
  transactions_kept = λ id h. h;
  states_kept = λ id h. h;
}

pub accounts_Step :
    (s : Store) (done : Table StateAccountModel × ℕ)
    → Written (has_row s.states.rows) s.accounts done
    → Step s (record s { accounts = done.0 })
accounts_Step s done w = record {
  linked = λ h. record {
    uncles_linked = h.uncles_linked;
    transactions_linked = h.transactions_linked;
    receipts_linked = h.receipts_linked;
    states_linked = h.states_linked;
    storages_linked = h.storages_linked;
    accounts_linked = w.under h.accounts_linked;
  };
  headers_same = refl;
  transactions_kept = λ id h. h;
  states_kept = λ id h. h;
}

pub OnOk-unless_refused :
    {A : Type 0} (P : A → Type 0) (refused : Option String) (done : A)
    → P done
    → OnOk P (unless_refused refused done)
OnOk-unless_refused P none done h = h
OnOk-unless_refused P (some e) done h = tt

OnOk-after :
    {s t : Store} → Step s t → (call : Result Store) → OnOk (Step t) call → OnOk (Step s) call
OnOk-after first panic second = tt
OnOk-after first (err e) second = tt
OnOk-after first (ok u) second = Step-trans first second

-- Two calls in a row, where the second one's preconditions are drawn from the first one's step.
pub OnOk-chain :
    (s : Store) (call : Result Store) (next : Store → Result Store)
    → OnOk (Step s) call
    → ((t : Store) → Step s t → OnOk (Step t) (next t))
    → OnOk (Step s) (call >>= next)
OnOk-chain s call next h each =
    OnOk->>= (Step s) (Step s) call next h (λ t step. OnOk-after step (next t) (each t step))

-- What a call does that returns the id of a row of the table it writes
abbrev pub RowStep : (Store → ℕ → Type 0) → Store → Store × ℕ → Type 0
RowStep There s done = Step s done.0 × There done.0 done.1

pub OnOk-row :
    (There : Store → ℕ → Type 0) (s : Store) (call : Result (Store × ℕ))
    (next : Store × ℕ → Result Store)
    → OnOk (RowStep There s) call
    → ((done : Store × ℕ) → Step s done.0 → There done.0 done.1 → OnOk (Step done.0) (next done))
    → OnOk (Step s) (call >>= next)
OnOk-row There s call next h each =
    OnOk->>= (RowStep There s) (Step s) call next h
      (λ done step. OnOk-after step.0 (next done) (each done step.0 step.1))
