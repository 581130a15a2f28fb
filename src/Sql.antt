-- ===== src/Sql.antt =====
-- What the cleaners of the two chains share: ranges of heights, rows that name a parent row, the
-- joins of their DELETE statements, and the outcome of a database transaction.
pub mod Deleting
pub mod Outcome
use vulcanize_db.Prelude.{
  ℕ, ◌≡◌, String, Bool, true, false, ◌&&◌, not, List, [], ◌∷◌, map, Option, none, some, any_of,
  keep, ◌==◌, string_eq, leb, if◌then◌else◌,
}
use vulcanize_db.Prelude.Int.{ℤ, pos, int_eq}
use vulcanize_db.Go.{Result, ok, err, panic}

-- Both ends belong to it.
pub record Range : Type 0 where
  pub lower : ℕ
  pub upper : ℕ

abbrev pub between : Range → ℕ → Bool
between rng number = leb rng.lower number && leb number rng.upper

-- A row of header_cids
pub record HeaderCid : Type 0 where
  pub id : ℤ
  pub block_number : ℕ
  pub cid : String
  pub times_validated : ℤ

-- A row of a table that refers to another: parent_id is header_id, tx_id or state_id.
pub record ChildCid : Type 0 where
  pub id : ℤ
  pub parent_id : ℤ
  pub cid : String

abbrev pub has_header : List HeaderCid → ℤ → Bool
has_header rows id = any_of (λ row. row.id == id) rows

abbrev pub has_child : List ChildCid → ℤ → Bool
has_child rows id = any_of (λ row. row.id == id) rows

-- The join with the headers of a range
abbrev pub header_in : Range → List HeaderCid → ℤ → Bool
header_in rng rows id = any_of (λ row. (row.id == id) && between rng row.block_number) rows

-- The join with a table whose rows' parents are selected
abbrev pub child_in : (ℤ → Bool) → List ChildCid → ℤ → Bool
child_in parent rows id = any_of (λ row. (row.id == id) && parent row.parent_id) rows

-- The rows that such a join selects, those that a DELETE leaves, and the CIDs of the selected
abbrev pub without_parents : (ℤ → Bool) → List ChildCid → List ChildCid
without_parents parent rows = keep (λ row. not (parent row.parent_id)) rows

abbrev pub cids_of : (ℤ → Bool) → List ChildCid → List String
cids_of parent rows = map (λ row. row.cid) (keep (λ row. parent row.parent_id) rows)

abbrev pub header_cids : Range → List HeaderCid → List String
header_cids rng rows = map (λ row. row.cid) (keep (λ row. between rng row.block_number) rows)

abbrev pub without_headers : Range → List HeaderCid → List HeaderCid
without_headers rng rows = keep (λ row. not (between rng row.block_number)) rows

-- public.blocks without the given keys
abbrev pub without_keys : List String → List String → List String
without_keys gone keys = keep (λ key. not (any_of (λ cid. cid == key) gone)) keys

-- SET times_validated = 0
abbrev pub reset_header : Range → HeaderCid → HeaderCid
reset_header rng row =
    if between rng row.block_number then record row { times_validated = pos 0 } else row

abbrev pub rejected : {A : Type 0} → Option String → A → Result A
rejected none value = ok value
rejected (some e) value = err e

-- What is in the database, and what the caller is told, after a transaction: an error rolls back
-- to the tables before it, as do a failure to begin and to commit.
abbrev pub committed :
    {A : Type 0} → A → Result A → Option String → (A → Result (Unit {0})) → A × Result (Unit {0})
committed before panic commit next = (before, panic)
committed before (err e) commit next = (before, err e)
committed before (ok after) (some e) next = (before, err e)
committed before (ok after) none next = (after, next after)
