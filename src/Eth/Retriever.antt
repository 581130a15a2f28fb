-- ===== src/Eth/Retriever.antt =====
-- pkg/super_node/eth/cid_retriever.go: the CIDs of one block height that conform to a client's
-- settings. The code writes the WHERE clause of a query; the model keeps what the clause says of a
-- row, and `none` where the text is one that Postgres rejects. The rows of a header in a query's
-- order are a parameter (Database), and so is the key of an address. `= ANY` and `&&` are `any_of`.
pub mod Transactions
pub mod Receipts
pub mod Emptiness
pub mod Gaps
pub mod Tests
use vulcanize_db.Prelude.{
  ℕ, ◌+◌, ◌-◌, String, Bool, true, false, ◌&&◌, ◌||◌, not, List, [], ◌∷◌, ◌++◌, map, Option, none,
  some, ◌==◌, nat_eq, string_eq, any_of, is_empty, keep, if◌then◌else◌, ltb, ◌%◌,
}
use vulcanize_db.Prelude.Int.{ℤ, pos, int_eq}
use vulcanize_db.Go.{Result, ok, err, panic, ◌>>=◌}
use vulcanize_db.Heights.{Gap, gap, missing_heights_to_gaps}
use vulcanize_db.Eth.{
  TxFilter, ReceiptFilter, StateFilter, StorageFilter, SubscriptionSettings, TxModel, ReceiptModel,
}

pub record HeaderModel : Type 0 where
  pub id : ℤ
  pub block_number : ℕ

pub record StateNodeModel : Type 0 where
  pub id : ℤ
  pub state_key : ℕ
  pub node_type : ℕ

pub record StorageNodeWithStateKeyModel : Type 0 where
  pub id : ℤ
  pub state_key : ℕ
  pub storage_key : String
  pub node_type : ℕ

pub record CidWrapper : Type 0 where
  pub block_number : ℤ
  pub header : Option HeaderModel
  pub uncles : List ℤ
  pub transactions : List TxModel
  pub receipts : List ReceiptModel
  pub state_nodes : List StateNodeModel
  pub storage_nodes : List StorageNodeWithStateKeyModel

-- The clause of RetrieveTxCIDs.
pub tx_condition : TxFilter → TxModel → Bool
tx_condition f row =
    (is_empty f.dst || any_of (λ dst. dst == row.dst) f.dst)
    && (is_empty f.src || any_of (λ src. src == row.src) f.src)

pub has_topics : List (List String) → Bool
has_topics [] = false
has_topics (set ∷ rest) = not (is_empty set) || has_topics rest

abbrev pub overlap : List String → List String → Bool
overlap xs ys = any_of (λ x. any_of (λ y. x == y) ys) xs

-- The column receipt_cids.topic<i>s.
abbrev pub topics_column : ℕ → ReceiptModel → List String
topics_column i row =
    if i == 0
    then row.topic0s
    else if i == 1
    then row.topic1s
    else if i == 2
    then row.topic2s
    else row.topic3s

-- The tests that the loop over the topic sets writes, to be joined by AND.
pub topic_tests : ℕ → List (List String) → List (ReceiptModel → Bool)
topic_tests i [] = []
topic_tests i (set ∷ rest) =
    let later = topic_tests (i + 1) rest in
    if ltb i 4 && not (is_empty set)
    then (λ row. overlap (topics_column i row) set) ∷ later
    else later

-- The tests in parentheses; `()` is no condition.
pub conjunction : {A : Type 0} → List (A → Bool) → Option (A → Bool)
conjunction [] = none
conjunction (test ∷ []) = some test
conjunction (test ∷ next ∷ rest) = elim (conjunction (next ∷ rest)) [
  | none ↦ none
  | some others ↦ some (λ row. test row && others row)
]

pub or_tx_ids : Bool → List ℤ → Option (ReceiptModel → Bool) → Option (ReceiptModel → Bool)
or_tx_ids match_txs tx_ids none = none
or_tx_ids match_txs tx_ids (some test) =
    if match_txs && not (is_empty tx_ids)
    then some (λ row. test row || any_of (λ id. id == row.tx_id) tx_ids)
    else some test

pub and_logs : List String → Option (ReceiptModel → Bool) → Option (ReceiptModel → Bool)
and_logs addresses none = none
and_logs addresses (some test) = some (λ row. overlap addresses row.log_contracts && test row)

-- The clause of RetrieveRctCIDsByHeaderID and of RetrieveRctCIDs.
pub rct_condition : ReceiptFilter → List ℤ → Option (ReceiptModel → Bool)
unfolding has_topics topic_tests conjunction or_tx_ids and_logs
rct_condition f tx_ids =
    let topics = conjunction (topic_tests 0 f.topics) in
    if not (is_empty f.log_addresses)
    then or_tx_ids f.match_txs tx_ids (
        if has_topics f.topics
        then and_logs f.log_addresses topics
        else some (λ row. overlap f.log_addresses row.log_contracts))
    else if has_topics f.topics
    then or_tx_ids f.match_txs tx_ids topics
    else if f.match_txs && not (is_empty tx_ids)
    then some (λ row. any_of (λ id. id == row.tx_id) tx_ids)
    else some (λ row. true)

-- `node_type = 2` is a leaf.
pub state_condition : (String → ℕ) → StateFilter → StateNodeModel → Bool
state_condition address_key f row =
    (is_empty f.addresses || any_of (λ key. key == row.state_key) (map address_key f.addresses))
    && (f.intermediate_nodes || (row.node_type == 2))

pub storage_condition : (String → ℕ) → StorageFilter → StorageNodeWithStateKeyModel → Bool
storage_condition address_key f row =
    (is_empty f.addresses || any_of (λ key. key == row.state_key) (map address_key f.addresses))
    && ((is_empty f.storage_keys || any_of (λ key. key == row.storage_key) f.storage_keys)
        && (f.intermediate_nodes || (row.node_type == 2)))

-- The rows that the queries start from: headers by height, the others by header id.
pub record Database : Type 0 where
  pub headers_at : ℤ → Result (List HeaderModel)
  pub uncles_of : ℤ → Result (List ℤ)
  pub transactions_of : ℤ → Result (List TxModel)
  pub receipts_of : ℤ → Result (List ReceiptModel)
  pub state_nodes_of : ℤ → Result (List StateNodeModel)
  pub storage_nodes_of : ℤ → Result (List StorageNodeWithStateKeyModel)

abbrev pub selecting : {A : Type 0} → Option (A → Bool) → Result (List A) → Result (List A)
selecting none rows = err "syntax error"
selecting (some test) rows = rows >>= λ found. ok (keep test found)

-- `if !Off` around a query; what is off reads as nothing.
abbrev pub unless_off : {A : Type 0} → Bool → Result (List A) → Result (List A)
unless_off true rows = ok []
unless_off false rows = rows

-- What `empty = false` is set by, for one header.
abbrev pub is_bare : CidWrapper → Bool
is_bare cw =
    elim cw.header [ none ↦ true | some _ ↦ false ]
    && (is_empty cw.transactions
        && (is_empty cw.receipts && (is_empty cw.state_nodes && is_empty cw.storage_nodes)))

module _ (address_key : String → ℕ) (db : Database) where
  open db use {
    headers_at, uncles_of, transactions_of, receipts_of, state_nodes_of, storage_nodes_of,
  }

  -- The body of Retrieve's loop over the headers of a height.
  pub retrieve_header : SubscriptionSettings → ℤ → HeaderModel → Result CidWrapper
  unfolding tx_condition rct_condition state_condition storage_condition
  retrieve_header f number header = do
    let hf = f.header_filter
    uncles ← unless_off (hf.off || not hf.uncles) (uncles_of header.id)
    txs ←
        unless_off f.tx_filter.off
          (selecting (some (tx_condition f.tx_filter)) (transactions_of header.id))
    rcts ←
        unless_off f.receipt_filter.off (
          selecting (rct_condition f.receipt_filter (map (λ tx. tx.id) txs))
            (receipts_of header.id))
    states ←
        unless_off f.state_filter.off
          (selecting (some (state_condition address_key f.state_filter)) (state_nodes_of header.id))
    storages ← unless_off f.storage_filter.off (
        selecting (some (storage_condition address_key f.storage_filter))
          (storage_nodes_of header.id))
    ok (record {
      block_number = number;
      header = if hf.off then none else some header;
      uncles = uncles;
      transactions = txs;
      receipts = rcts;
      state_nodes = states;
      storage_nodes = storages;
    })

  pub retrieve_loop :
      SubscriptionSettings → ℤ → List HeaderModel → Bool → Result (List CidWrapper × Bool)
  unfolding retrieve_header
  retrieve_loop f number [] empty = ok ([], empty)
  retrieve_loop f number (header ∷ rest) empty = do
    cw ← retrieve_header f number header
    later ← retrieve_loop f number rest (if is_bare cw then empty else false)
    ok (cw ∷ later.0, later.1)

  pub retrieve : SubscriptionSettings → ℤ → Result (List CidWrapper × Bool)
  unfolding retrieve_loop
  retrieve f number = do headers ← headers_at number; retrieve_loop f number headers true
