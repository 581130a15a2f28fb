-- ===== src/Headers/Filling.antt =====
-- Which header is stored after CreateOrUpdateHeader, and the filling of missing block numbers.
use vulcanize_db.Prelude.{
  ◌≡◌, refl, ap, ◌∙◌, inl, inr, ◌⊎◌, String, Bool, true, false, ◌&&◌, not, List, [], ◌∷◌, ◌++◌,
  keep, any_of, any_of-keep-not, Option, none, some, ◌==◌, ==_refl, string_eq, Bool-cases, arith,
}
use vulcanize_db.Prelude.Int.{ℤ, pos, int_eq}
use vulcanize_db.Go.{ok, err}
use vulcanize_db.History.{err_valid_header_exists}
use vulcanize_db.Headers.Canonical.{get_header_hash-none}
use vulcanize_db.Headers.{
  Header, HeaderRow, HeaderRepository, Refusals, is_at, stored, get_header_hash, insert_row,
  internal_insert_header, replace_header, by_hash, create_or_update_header,
}

-- The rows of other block numbers and of other nodes
abbrev pub others : String → ℤ → List HeaderRow → List HeaderRow
others node number rows = keep (λ row. not (is_at node number row)) rows

-- No statement is refused.
abbrev pub no_refusals : Refusals
no_refusals = record { on_select = none; on_insert = none; on_delete = none }

-- What CreateOrUpdateHeader leaves: the header's hash at its number, and all else as before.
pub record Holds (header : Header) (before after : HeaderRepository) : Type 0 where
  pub same_node : after.node ≡ before.node
  pub hash_stored : get_header_hash before.node header.block_number after.rows ≡ some header.hash
  pub others_kept :
      others before.node header.block_number after.rows
      ≡ others before.node header.block_number before.rows

get_header_hash-snoc :
    (node : String) (number : ℤ) (rows : List HeaderRow) (row : HeaderRow)
    → stored node number rows ≡ false
    → is_at node number row ≡ true
    → get_header_hash node number (rows ++ row ∷ []) ≡ some row.hash
unfolding get_header_hash
get_header_hash-snoc node number [] row new here = rw (here) refl
get_header_hash-snoc node number (first ∷ rows) row new here =
    ground (arith, get_header_hash-snoc node number rows row)

others-snoc :
    (node : String) (number : ℤ) (rows : List HeaderRow) (row : HeaderRow)
    → is_at node number row ≡ true
    → others node number (rows ++ row ∷ []) ≡ others node number rows
others-snoc node number [] row here = rw (here) refl
others-snoc node number (first ∷ rows) row here = ground (arith, others-snoc node number rows row)

no_conflict :
    (node : String) (number : ℤ) (hash : String) (rows : List HeaderRow)
    → stored node number rows ≡ false
    → any_of (λ row. is_at node number row && (row.hash == hash)) rows ≡ false
no_conflict node number hash [] h = refl
no_conflict node number hash (row ∷ rows) h = ground (arith, no_conflict node number hash rows)

keep_kept : {A : Type 0} (p : A → Bool) (xs : List A) → keep p (keep p xs) ≡ keep p xs
keep_kept p [] = refl
keep_kept p (x ∷ xs) = ground (arith, keep_kept p xs)

insert_row-Holds :
    (header : Header) (rep : HeaderRepository)
    → stored rep.node header.block_number rep.rows ≡ false
    → Holds header rep (insert_row header rep).0 × ((insert_row header rep).1 ≡ ok rep.next_id)
unfolding insert_row
insert_row-Holds header rep new =
    let row : HeaderRow = record {
      id = rep.next_id;
      block_number = header.block_number;
      hash = header.hash;
      eth_node_fingerprint = rep.node;
      check_count = pos 0;
    } in
    let here : is_at rep.node header.block_number row ≡ true =
      ground (arith, ==_refl header.block_number, ==_refl rep.node) in
    rw (no_conflict rep.node header.block_number header.hash rep.rows new) (
      record {
        same_node = refl;
        hash_stored = get_header_hash-snoc rep.node header.block_number rep.rows row new here;
        others_kept = others-snoc rep.node header.block_number rep.rows row here;
      },
      refl,
    )

module _ (header : Header) (rep : HeaderRepository) where
  by_hash-Holds :
      (found : Option String)
      → get_header_hash rep.node header.block_number rep.rows ≡ found
      → Holds header rep (by_hash no_refusals header rep found).0
        × (((by_hash no_refusals header rep found).1 ≡ ok rep.next_id)
            ⊎ ((by_hash no_refusals header rep found).1 ≡ err err_valid_header_exists))
  unfolding internal_insert_header replace_header
  by_hash-Holds none e =
      let done =
        insert_row-Holds header rep
          (get_header_hash-none rep.node header.block_number rep.rows e) in
      (done.0, inl done.1)
  by_hash-Holds (some hash) e = elim (Bool-cases (hash == header.hash)) [
    | inl same ↦
        let equal : hash ≡ header.hash = (string_eq.equal_iff hash header.hash).0 same in
        rw (same) (
          record { same_node = refl; hash_stored = e ∙ ap some equal; others_kept = refl },
          inr refl,
        )
    | inr other ↦
        let rest = others rep.node header.block_number rep.rows in
        let (held, answer) =
          insert_row-Holds header (record rep { rows = rest })
            (any_of-keep-not (is_at rep.node header.block_number) rep.rows) in
        rw (other) (
          record {
            same_node = held.same_node;
            hash_stored = held.hash_stored;
            others_kept = held.others_kept ∙ keep_kept _ rep.rows;
          },
          inl answer,
        )
  ]

  -- When the database refuses nothing, CreateOrUpdateHeader leaves the header's hash as the one of
  -- its block number and every row of another number or node as it was. It answers with the id of a
  -- new row, or that the header is there already.
  pub create_or_update_header-Holds :
      Holds header rep (create_or_update_header no_refusals header rep).0
      × (((create_or_update_header no_refusals header rep).1 ≡ ok rep.next_id)
          ⊎ ((create_or_update_header no_refusals header rep).1 ≡ err err_valid_header_exists))
  unfolding create_or_update_header
  create_or_update_header-Holds =
      by_hash-Holds (get_header_hash rep.node header.block_number rep.rows) refl
