-- ===== src/Eth/Indexer/Combined/Whole.antt =====
-- Publish of the combined publisher and indexer leaves the tables linked, as Index does.
use vulcanize_db.Prelude.{ℕ, String, Option, none, some, string_eq}
use vulcanize_db.Go.{Result, ok, err, panic, ◌>>=◌, OnOk, OnOk->>=, OnOk-imp}
use vulcanize_db.Eth.Indexer.{Hex, Store, Refusals, unless_refused}
use vulcanize_db.Eth.Indexer.Index.{index_header_cid, deferred}
use vulcanize_db.Eth.Indexer.Index.Linked.{IsLinked}
use vulcanize_db.Eth.Indexer.Index.Steps.{OnOk-unless_refused}
use vulcanize_db.Eth.Indexer.Index.Statements.{HeaderWritten, index_header_cid-HeaderWritten}
use vulcanize_db.Eth.Indexer.Combined.{
  Database, Naming, on_tables_row, publish_ipld, publish_trie, publish_and_index_under,
  publish_and_index_all, in_database_transaction, publish_and_index,
}
use vulcanize_db.Eth.Publisher.{ConvertedPayload, Library, BlockNodes, from_block_and_receipts}
use vulcanize_db.Eth.Publisher.Publish.{header_model, block_reward}
use vulcanize_db.Eth.Indexer.Combined.Links.{Moves, publish_ipld-Moves, publish_trie-Moves}
use vulcanize_db.Eth.Indexer.Combined.Invariant.{publish_and_index_under-Moves}

on_tables_row-HeaderWritten :
    (db : Database) (written : Result (Store × ℕ))
    → OnOk (HeaderWritten db.tables) written
    → OnOk (λ done. HeaderWritten db.tables (done.0.tables, done.1)) (on_tables_row db written)
on_tables_row-HeaderWritten db panic h = tt
on_tables_row-HeaderWritten db (err e) h = tt
on_tables_row-HeaderWritten db (ok done) h = h

-- A step before a chain that keeps the tables linked
IsLinked-chain :
    (db : Database) (call : Result Database) (next : Database → Result Database)
    → IsLinked db.tables
    → OnOk (Moves db) call
    → ((t : Database) → IsLinked t.tables → OnOk (λ u. IsLinked u.tables) (next t))
    → OnOk (λ u. IsLinked u.tables) (call >>= next)
IsLinked-chain db call next linked h each =
    OnOk->>= (Moves db) (λ u. IsLinked u.tables) call next h (λ t step. each t (step.linked linked))

after_value :
    {A : Type 0} (P : Database → Type 0) (call : Result A) (next : A → Result Database)
    → ((value : A) → OnOk P (next value))
    → OnOk P (call >>= next)
after_value P panic next each = tt
after_value P (err e) next each = tt
after_value P (ok value) next each = each value

module _ (lib : Library) (naming : Naming) (hex : Hex) (refusals : Refusals) where
  publish_and_index_all-IsLinked :
      (payload : ConvertedPayload) (nodes : BlockNodes) (db : Database)
      → IsLinked db.tables
      → OnOk
          (λ u. IsLinked u.tables)
          (publish_and_index_all lib naming hex refusals payload nodes db)
  unfolding publish_and_index_all
  publish_and_index_all-IsLinked payload nodes db linked =
      IsLinked-chain db (publish_trie lib naming hex refusals nodes.tx_trie_nodes db) _ linked
        (publish_trie-Moves lib naming hex refusals nodes.tx_trie_nodes db)
        (λ t first.
          IsLinked-chain t (publish_trie lib naming hex refusals nodes.rct_trie_nodes t) _ first
            (publish_trie-Moves lib naming hex refusals nodes.rct_trie_nodes t)
            (λ u second.
              IsLinked-chain u (publish_ipld lib naming hex refusals nodes.header_node u) _ second
                (publish_ipld-Moves lib naming hex refusals nodes.header_node u)
                (λ v third.
                  after_value (λ w. IsLinked w.tables) (block_reward lib payload) _
                    (λ reward.
                      let header =
                        header_model lib payload (naming.cid_of nodes.header_node) reward in
                      OnOk->>= (λ done. HeaderWritten v.tables (done.0.tables, done.1))
                        (λ w. IsLinked w.tables)
                        (on_tables_row v (index_header_cid hex refusals header v.tables)) _
                        (on_tables_row-HeaderWritten v _
                          (index_header_cid-HeaderWritten hex refusals header v.tables))
                        (λ done w.
                          OnOk-imp (Moves done.0) (λ x. IsLinked x.tables)
                            (publish_and_index_under lib naming hex refusals payload nodes done.1
                              done.0)
                            (λ x step. step.linked (w.linked third))
                            (publish_and_index_under-Moves lib naming hex refusals payload nodes
                              done.1 done.0 w.returned))))))

  deferred-IsLinked :
      (db : Database) (run : Result Database) (commit : Option String)
      → IsLinked db.tables
      → OnOk (λ u. IsLinked u.tables) run
      → IsLinked (deferred db run commit).0.tables
  deferred-IsLinked db panic commit h done = h
  deferred-IsLinked db (err e) commit h done = h
  deferred-IsLinked db (ok after) (some e) h done = h
  deferred-IsLinked db (ok after) none h done = done

  in_database_transaction-IsLinked :
      (payload : ConvertedPayload) (db : Database) (made : Result BlockNodes)
      → IsLinked db.tables
      → IsLinked (in_database_transaction lib naming hex refusals payload db made).0.tables
  in_database_transaction-IsLinked payload db panic linked = linked
  in_database_transaction-IsLinked payload db (err e) linked = linked
  in_database_transaction-IsLinked payload db (ok nodes) linked =
      deferred-IsLinked db _ refusals.on_commit linked (
        OnOk->>= (λ u. IsLinked u.tables) (λ u. IsLinked u.tables)
          (unless_refused refusals.on_begin db) _
          (OnOk-unless_refused (λ u. IsLinked u.tables) refusals.on_begin db linked)
          (λ begun g. publish_and_index_all-IsLinked payload nodes begun g))

  -- Publish of the combined publisher and indexer keeps the tables linked: when every row's parent is
  -- in its parent's table, it still is after Publish of any payload, whichever block, statement or
  -- commit the database refuses and whatever fails or panics on the way.
  pub publish_and_index-IsLinked :
      (payload : ConvertedPayload) (db : Database)
      → IsLinked db.tables
      → IsLinked (publish_and_index lib naming hex refusals payload db).0.tables
  unfolding publish_and_index
  publish_and_index-IsLinked payload db linked =
      in_database_transaction-IsLinked payload db
        (from_block_and_receipts lib payload.block payload.receipts) linked
