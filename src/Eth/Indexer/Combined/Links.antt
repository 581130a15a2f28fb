-- ===== src/Eth/Indexer/Combined/Links.antt =====
-- What the parts of the combined publisher and indexer do to the tables.
use vulcanize_db.Prelude.{ℕ, ◌≡◌, String, true, List, [], ◌∷◌}
use vulcanize_db.Go.{Bytes, Result, ok, err, panic, ◌>>=◌, OnOk, OnOk->>=, OnOk-imp}
use vulcanize_db.Eth.Indexer.{Hex, Store, Refusals}
use vulcanize_db.Eth.Indexer.Index.{index_uncle_cid}
use vulcanize_db.Eth.Indexer.Index.Linked.{has_header}
use vulcanize_db.Eth.Indexer.Index.Steps.{Step, Step-refl, Step-trans, RowStep, OnOk-unless_refused}
use vulcanize_db.Eth.Indexer.Index.Statements.{index_uncle_cid-Step}
use vulcanize_db.Eth.Indexer.Combined.{
  Database, Naming, on_tables, on_tables_row, publish_ipld, publish_raw, publish_trie,
  publish_and_index_uncles,
}
use vulcanize_db.Eth.Publisher.{BlockHeader, Library}
use vulcanize_db.Eth.Publisher.Publish.{uncle_model}

-- A step of the tables
abbrev pub Moves : Database → Database → Type 0
Moves db next = Step db.tables next.tables

abbrev pub MovesRow : (Store → ℕ → Type 0) → Database → Database × ℕ → Type 0
MovesRow There db done = Moves db done.0 × There done.0.tables done.1

pub Moves-chain :
    (db : Database) (call : Result Database) (next : Database → Result Database)
    → OnOk (Moves db) call
    → ((t : Database) → Moves db t → OnOk (Moves t) (next t))
    → OnOk (Moves db) (call >>= next)
Moves-chain db call next h each = OnOk->>= (Moves db) (Moves db) call next h (λ t step.
    OnOk-imp (Moves t) (Moves db) (next t) (λ u more. Step-trans step more) (each t step))

-- A statement of the indexer after another step
pub on_tables-Moves :
    (db : Database) (written : Result Store)
    → OnOk (Step db.tables) written
    → OnOk (Moves db) (on_tables db written)
on_tables-Moves db panic h = tt
on_tables-Moves db (err e) h = tt
on_tables-Moves db (ok tables) h = h

pub on_tables_row-MovesRow :
    (There : Store → ℕ → Type 0) (db : Database) (written : Result (Store × ℕ))
    → OnOk (RowStep There db.tables) written
    → OnOk (MovesRow There db) (on_tables_row db written)
on_tables_row-MovesRow There db panic h = tt
on_tables_row-MovesRow There db (err e) h = tt
on_tables_row-MovesRow There db (ok done) h = h

pub MovesRow-chain :
    (There : Store → ℕ → Type 0) (db : Database) (call : Result (Database × ℕ))
    (next : Database × ℕ → Result Database)
    → OnOk (MovesRow There db) call
    → ((done : Database × ℕ)
        → Moves db done.0
        → There done.0.tables done.1
        → OnOk (Moves done.0) (next done))
    → OnOk (Moves db) (call >>= next)
MovesRow-chain There db call next h each =
    OnOk->>= (MovesRow There db) (Moves db) call next h (λ done step.
      OnOk-imp (Moves done.0) (Moves db) (next done) (λ u more. Step-trans step.0 more)
        (each done step.0 step.1))

module _ (lib : Library) (naming : Naming) (hex : Hex) (refusals : Refusals) where
  pub publish_ipld-Moves :
      (node : Bytes) (db : Database)
      → OnOk (Moves db) (publish_ipld lib naming hex refusals node db)
  unfolding publish_ipld
  publish_ipld-Moves node db =
      OnOk-unless_refused (Moves db) (naming.on_block node) _ (Step-refl db.tables)

  pub publish_trie-Moves :
      (nodes : List Bytes) (db : Database)
      → OnOk (Moves db) (publish_trie lib naming hex refusals nodes db)
  unfolding publish_trie
  publish_trie-Moves [] db = Step-refl db.tables
  publish_trie-Moves (node ∷ nodes) db =
      Moves-chain db (publish_ipld lib naming hex refusals node db) _ (publish_ipld-Moves node db)
        (λ t step. publish_trie-Moves nodes t)

  pub publish_raw-Moves :
      (cid : Bytes → Result String) (raw : Bytes) (db : Database)
      → OnOk (λ named. Moves db named.0) (publish_raw lib naming hex refusals cid raw db)
  unfolding publish_raw
  publish_raw-Moves cid raw db =
      OnOk->>= (λ name. Unit {0}) (λ named. Moves db named.0) (cid raw) _ (any (cid raw))
        (λ name u.
          OnOk-unless_refused (λ named. Moves db named.0) (naming.on_block raw) _
            (Step-refl db.tables))
    where
      any : (call : Result String) → OnOk (λ name. Unit {0}) call
      any panic = tt
      any (err e) = tt
      any (ok name) = tt

  pub publish_and_index_uncles-Moves :
      (number : ℕ) (nodes : List (BlockHeader × Bytes)) (header_id : ℕ) (db : Database)
      → has_header db.tables.header_rows header_id ≡ true
      → OnOk (Moves db) (publish_and_index_uncles lib naming hex refusals number nodes header_id db)
  unfolding publish_and_index_uncles
  publish_and_index_uncles-Moves number [] header_id db there = Step-refl db.tables
  publish_and_index_uncles-Moves number ((uncle, node) ∷ nodes) header_id db there =
      Moves-chain db (publish_ipld lib naming hex refusals node db) _ (publish_ipld-Moves node db)
        (λ published step.
          Moves-chain published _ _
            (on_tables-Moves published
              (index_uncle_cid hex refusals (uncle_model lib number uncle (naming.cid_of node))
                header_id published.tables)
              (index_uncle_cid-Step hex refusals (uncle_model lib number uncle (naming.cid_of node))
                header_id published.tables (rw (step.headers_same) there)))
            (λ t next.
              publish_and_index_uncles-Moves number nodes header_id t
                (rw (next.headers_same, step.headers_same) there)))

-- The same after a call that returns a CID
pub named-chain :
    (db : Database) (call : Result (Database × String)) (next : Database × String → Result Database)
    → OnOk (λ named. Moves db named.0) call
    → ((named : Database × String) → Moves db named.0 → OnOk (Moves named.0) (next named))
    → OnOk (Moves db) (call >>= next)
named-chain db call next h each =
    OnOk->>= (λ named. Moves db named.0) (Moves db) call next h
      (λ named step.
        OnOk-imp (Moves named.0) (Moves db) (next named) (λ u more. Step-trans step more)
          (each named step))
