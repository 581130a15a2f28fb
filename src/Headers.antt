-- ===== src/Headers.antt =====
-- pkg/eth/datastore/postgres/repositories: header_repository.go and checked_headers_repository.go on
-- the table public.headers, which is a list of rows with unique ids. The database may refuse a
-- statement (Refusals). Block numbers are int64; generate_series is written out as series.
pub mod Canonical
pub mod Filling
pub mod Populating
pub mod Checking
pub mod Rounds
pub mod Tests
use vulcanize_db.Prelude.{
  ℕ, zero, suc, ◌+◌, String, Bool, true, false, ◌&&◌, ◌||◌, not, List, [], ◌∷◌, ◌++◌, map, keep,
  any_of, is_empty, length, Option, none, some, ◌==◌, string_eq, nat_eq, if◌then◌else◌,
}
use vulcanize_db.Prelude.Int.{ℤ, pos, negsuc, pos_part, ◌+ℤ◌, ◌-ℤ◌, ltb_ℤ, leb_ℤ, int_eq}
use vulcanize_db.Go.{Result, ok, err, panic, ◌>>=◌}
use vulcanize_db.History.{err_valid_header_exists}

-- core.Header, without its raw encoding and time, which the queries only store
pub record Header : Type 0 where
  pub block_number : ℤ
  pub hash : String

pub record HeaderRow : Type 0 where
  pub id : ℕ
  pub block_number : ℤ
  pub hash : String
  pub eth_node_fingerprint : String
  pub check_count : ℤ

-- The table, the next value of its serial id, and database.Node.ID
pub record HeaderRepository : Type 0 where
  pub rows : List HeaderRow
  pub next_id : ℕ
  pub node : String

pub record Refusals : Type 0 where
  pub on_select : Option String
  pub on_insert : Option String
  pub on_delete : Option String

-- `WHERE block_number = $1 AND eth_node_fingerprint = $2`
abbrev pub is_at : String → ℤ → HeaderRow → Bool
is_at node number row = (row.block_number == number) && (row.eth_node_fingerprint == node)

abbrev pub stored : String → ℤ → List HeaderRow → Bool
stored node number rows = any_of (is_at node number) rows

-- The first row of the query, if it has one
pub get_header_hash : String → ℤ → List HeaderRow → Option String
get_header_hash node number [] = none
get_header_hash node number (row ∷ rows) =
    let later = get_header_hash node number rows in
    if is_at node number row then some row.hash else later

-- `ON CONFLICT DO NOTHING RETURNING id`; a value of the serial id is used up in any case.
pub insert_row : Header → HeaderRepository → HeaderRepository × Result ℕ
insert_row header rep =
    if any_of (λ row. is_at rep.node header.block_number row && (row.hash == header.hash)) rep.rows
    then (record rep { next_id = rep.next_id + 1 }, err err_valid_header_exists)
    else (
      record rep {
        rows =
            rep.rows
            ++ record {
              id = rep.next_id;
              block_number = header.block_number;
              hash = header.hash;
              eth_node_fingerprint = rep.node;
              check_count = pos 0;
            }
              ∷ [];
        next_id = rep.next_id + 1;
      },
      ok rep.next_id,
    )

abbrev pub unless_refused :
    {A : Type 0}
    → Option String
    → HeaderRepository
    → HeaderRepository × Result A
    → HeaderRepository × Result A
unless_refused none rep done = done
unless_refused (some e) rep done = (rep, err e)

-- A header that is there already is passed over.
abbrev pub next_header :
    HeaderRepository × Result ℕ
    → (HeaderRepository → HeaderRepository × Result (Unit {0}))
    → HeaderRepository × Result (Unit {0})
next_header (rep, panic) rest = (rep, panic)
next_header (rep, ok id) rest = rest rep
next_header (rep, err e) rest = if e == err_valid_header_exists then rest rep else (rep, err e)

module _ (refusals : Refusals) where
  pub internal_insert_header : Header → HeaderRepository → HeaderRepository × Result ℕ
  unfolding insert_row
  internal_insert_header header rep = unless_refused refusals.on_insert rep (insert_row header rep)

  pub replace_header : Header → HeaderRepository → HeaderRepository × Result ℕ
  unfolding internal_insert_header
  replace_header header rep = unless_refused refusals.on_delete rep (
      internal_insert_header header
        (record rep { rows = keep (λ row. not (is_at rep.node header.block_number row)) rep.rows }))

  abbrev pub by_hash : Header → HeaderRepository → Option String → HeaderRepository × Result ℕ
  by_hash header rep none = internal_insert_header header rep
  by_hash header rep (some hash) =
      if hash == header.hash then (rep, err err_valid_header_exists) else replace_header header rep

  pub create_or_update_header : Header → HeaderRepository → HeaderRepository × Result ℕ
  unfolding get_header_hash internal_insert_header replace_header
  create_or_update_header header rep =
      unless_refused refusals.on_select rep
        (by_hash header rep (get_header_hash rep.node header.block_number rep.rows))

  -- The loop of RetrieveAndUpdateHeaders, over the repository's state
  pub update_headers : List Header → HeaderRepository → HeaderRepository × Result (Unit {0})
  unfolding create_or_update_header
  update_headers [] rep = (rep, ok tt)
  update_headers (header ∷ headers) rep =
      next_header (create_or_update_header header rep) (update_headers headers)

pub series : ℤ → ℕ → List ℤ
series start zero = []
series start (suc n) = start ∷ series (start +ℤ pos 1) n

-- The query of MissingBlockNumbers, for a node id
pub missing_block_numbers : ℤ → ℤ → String → List HeaderRow → List ℤ
unfolding series
missing_block_numbers start end node rows =
    keep (λ number. not (stored node number rows)) (series start (pos_part (end -ℤ start +ℤ pos 1)))

-- PopulateMissingHeaders, once the last block is known: the headers that the node returns for the
-- missing numbers are created or updated.
pub populate :
    Refusals
    → String
    → ℤ
    → ℤ
    → (List ℤ → List Header)
    → HeaderRepository
    → HeaderRepository × Result (Unit {0})
unfolding update_headers missing_block_numbers
populate refusals node start last get_headers rep =
    let numbers = missing_block_numbers start last node rep.rows in
    if is_empty numbers then (rep, ok tt) else update_headers refusals (get_headers numbers) rep

-- MarkHeaderChecked
pub mark_header_checked : ℕ → List HeaderRow → List HeaderRow
mark_header_checked id rows =
    map (λ row. if row.id == id then record row { check_count = row.check_count +ℤ pos 1 } else row)
      rows

-- MarkHeadersUnchecked
pub mark_headers_unchecked : ℤ → List HeaderRow → List HeaderRow
mark_headers_unchecked start rows =
    map (λ row. if leb_ℤ start row.block_number then record row { check_count = pos 0 } else row)
      rows

-- UncheckedHeaders; the ending block -1 is no bound.
pub unchecked_headers : ℤ → ℤ → ℤ → String → List HeaderRow → List HeaderRow
unchecked_headers start end count node rows =
    if end == negsuc 0
    then keep
        (λ row.
          ltb_ℤ row.check_count count
          && (leb_ℤ start row.block_number && (row.eth_node_fingerprint == node)))
        rows
    else keep
        (λ row.
          ltb_ℤ row.check_count count
          && (leb_ℤ start row.block_number
              && (leb_ℤ row.block_number end && (row.eth_node_fingerprint == node))))
        rows
