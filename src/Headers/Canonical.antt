-- ===== src/Headers/Canonical.antt =====
-- One row for each block number of a node.
use vulcanize_db.Prelude.{
  ◌≡◌, refl, inl, inr, String, Bool, false, ◌&&◌, List, [], ◌∷◌, ◌++◌, keep, any_of, any_of_append,
  any_of-keep_absent, any_of-keep-not, Option, none, some, ◌==◌, ==_sym, string_eq, Bool-cases,
  Option-cases, arith,
}
use vulcanize_db.Prelude.Int.{ℤ, int_eq}
use vulcanize_db.Headers.{
  Header, HeaderRow, HeaderRepository, Refusals, is_at, stored, get_header_hash, insert_row,
  internal_insert_header, replace_header, by_hash, create_or_update_header,
}

-- No two rows of a node have one block number.
abbrev pub AtMostOne : List HeaderRow → Type 0
AtMostOne [] = Unit {0}
AtMostOne (row ∷ rows) =
    (stored row.eth_node_fingerprint row.block_number rows ≡ false) × AtMostOne rows

AtMostOne-keep :
    (p : HeaderRow → Bool) (rows : List HeaderRow) → AtMostOne rows → AtMostOne (keep p rows)
AtMostOne-keep p [] h = h
AtMostOne-keep p (row ∷ rows) h = elim (Bool-cases (p row)) [
  | inl on ↦ rw (on) (
    any_of-keep_absent (is_at row.eth_node_fingerprint row.block_number) p rows h.0,
    AtMostOne-keep p rows h.1,
  )
  | inr off ↦ rw (off) (AtMostOne-keep p rows h.1)
]

AtMostOne-snoc :
    (rows : List HeaderRow) (row : HeaderRow)
    → AtMostOne rows
    → stored row.eth_node_fingerprint row.block_number rows ≡ false
    → AtMostOne (rows ++ row ∷ [])
AtMostOne-snoc [] row h new = (refl, tt)
AtMostOne-snoc (first ∷ rows) row h new =
    let same_number = ==_sym row.block_number first.block_number in
    let same_node = ==_sym row.eth_node_fingerprint first.eth_node_fingerprint in
    let parts =
      any_of_append (is_at first.eth_node_fingerprint first.block_number) rows (row ∷ []) in
    (ground (arith, parts, same_number, same_node, h.0), AtMostOne-snoc rows row h.1 (ground arith))

insert_row-AtMostOne :
    (header : Header) (rep : HeaderRepository)
    → AtMostOne rep.rows
    → stored rep.node header.block_number rep.rows ≡ false
    → AtMostOne (insert_row header rep).0.rows
unfolding insert_row
insert_row-AtMostOne header rep h new =
    elim (Bool-cases (
      any_of (λ row. is_at rep.node header.block_number row && (row.hash == header.hash))
        rep.rows)) [
          | inl conflict ↦ rw (conflict) h
          | inr free ↦ rw (free) (AtMostOne-snoc rep.rows _ h new)
        ]

pub get_header_hash-none :
    (node : String) (number : ℤ) (rows : List HeaderRow)
    → get_header_hash node number rows ≡ none
    → stored node number rows ≡ false
unfolding get_header_hash
get_header_hash-none node number [] h = refl
get_header_hash-none node number (row ∷ rows) h =
    ground (arith, get_header_hash-none node number rows)

module _ (refusals : Refusals) (header : Header) (rep : HeaderRepository) where
  internal_insert_header-AtMostOne :
      (r : HeaderRepository)
      → AtMostOne r.rows
      → stored r.node header.block_number r.rows ≡ false
      → AtMostOne (internal_insert_header refusals header r).0.rows
  unfolding internal_insert_header
  internal_insert_header-AtMostOne r h new = elim (Option-cases refusals.on_insert) [
    | inl fine ↦ rw (fine) (insert_row-AtMostOne header r h new)
    | inr (e, refused) ↦ rw (refused) h
  ]

  replace_header-AtMostOne :
      AtMostOne rep.rows → AtMostOne (replace_header refusals header rep).0.rows
  unfolding replace_header
  replace_header-AtMostOne h = elim (Option-cases refusals.on_delete) [
    | inl fine ↦ rw (fine) (
        internal_insert_header-AtMostOne _ (AtMostOne-keep _ rep.rows h)
          (any_of-keep-not (is_at rep.node header.block_number) rep.rows))
    | inr (e, refused) ↦ rw (refused) h
  ]

  by_hash-AtMostOne :
      (found : Option String)
      → get_header_hash rep.node header.block_number rep.rows ≡ found
      → AtMostOne rep.rows
      → AtMostOne (by_hash refusals header rep found).0.rows
  by_hash-AtMostOne none e h =
      internal_insert_header-AtMostOne rep h
        (get_header_hash-none rep.node header.block_number rep.rows e)
  by_hash-AtMostOne (some hash) e h = elim (Bool-cases (hash == header.hash)) [
    | inl same ↦ rw (same) h
    | inr other ↦ rw (other) (replace_header-AtMostOne h)
  ]

  -- CreateOrUpdateHeader keeps one row at most for each block number of a node, whichever statements
  -- the database refuses.
  pub create_or_update_header-AtMostOne :
      AtMostOne rep.rows → AtMostOne (create_or_update_header refusals header rep).0.rows
  unfolding create_or_update_header
  create_or_update_header-AtMostOne h = elim (Option-cases refusals.on_select) [
    | inl fine ↦ rw (fine) (by_hash-AtMostOne _ refl h)
    | inr (e, refused) ↦ rw (refused) h
  ]
