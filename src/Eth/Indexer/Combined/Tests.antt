-- ===== src/Eth/Indexer/Combined/Tests.antt =====
-- The block of the publisher's tests, written to the tables of the indexer's.
use vulcanize_db.Prelude.{[], none}
use vulcanize_db.Go.{ok}
use vulcanize_db.Eth.Indexer.Index.Linked.{IsLinked}
use vulcanize_db.Eth.Indexer.Index.Validated.{accepting}
use vulcanize_db.Eth.Indexer.Index.Tests.{store, store-IsLinked, hex}
use vulcanize_db.Eth.Indexer.Combined.{Database, Naming, publish_and_index}
use vulcanize_db.Eth.Indexer.Combined.Whole.{publish_and_index-IsLinked}
use vulcanize_db.Eth.Publisher.Publish.Tests.{lib, payload, cid_of}

abbrev naming : Naming
naming = record {
  cid_of = cid_of;
  state_cid = λ bytes. ok "state";
  storage_cid = λ bytes. ok "storage";
  key_of = λ cid. cid;
  on_block = λ bytes. none;
}

abbrev database : Database
database = record { blocks = []; tables = store }

publish_and_index-IsLinked_example :
    IsLinked (publish_and_index lib naming hex accepting payload database).0.tables
publish_and_index-IsLinked_example =
    publish_and_index-IsLinked lib naming hex accepting payload database store-IsLinked
