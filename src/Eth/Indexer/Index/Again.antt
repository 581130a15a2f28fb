-- ===== src/Eth/Indexer/Index/Again.antt =====
-- Index of a block that is there already.
use vulcanize_db.Prelude.{
  ==_refl, ℕ, ◌≡◌, refl, ap, ◌∙◌, inl, inr, true, List, [], ◌∷◌, ◌++◌, map, Option, none, some,
  nat_eq, bytes_eq, string_eq, Bool-cases,
}
use vulcanize_db.Prelude.Int.{int_eq}
use vulcanize_db.Eth.Indexer.{
  HeaderModel, CidPayload, Hex, Store, HeaderRow, header_conflict, insert_or_validate,
}
use vulcanize_db.Eth.Indexer.Index.{index}
use vulcanize_db.Eth.Indexer.Index.Statements.{same_header}
use vulcanize_db.Eth.Indexer.Index.Validated.{accepting, index-header_rows, validated}

header_conflict-snoc :
    (header : HeaderModel) (rows : List HeaderRow) (row : HeaderRow)
    → same_header header row ≡ true
    → (id : ℕ) × (header_conflict header (rows ++ row ∷ []) ≡ some id)
unfolding header_conflict
header_conflict-snoc header [] row e = (row.id, rw (e) refl)
header_conflict-snoc header (first ∷ rows) row e =
    let later = header_conflict-snoc header rows row e in
    elim (Bool-cases (same_header header first)) [
      | inl on ↦ (first.id, rw (on) refl)
      | inr off ↦ (later.0, rw (off) later.1)
    ]

header_conflict-validated :
    (header : HeaderModel) (rows : List HeaderRow) (id : ℕ)
    → header_conflict header rows ≡ some id
    → header_conflict header (map (validated header) rows) ≡ some id
unfolding header_conflict
header_conflict-validated header [] id h = cc
header_conflict-validated header (row ∷ rows) id h = elim (Bool-cases (same_header header row)) [
  | inl on ↦ rw (on, ==_refl header.block_number, ==_refl header.block_hash) (rw (on) at h)
  | inr off ↦ rw (off, off) (header_conflict-validated header rows id (rw (off) at h))
]

-- A header that has been inserted or validated is found.
insert_or_validate-found :
    (header : HeaderModel) (s : Store) (found : Option ℕ)
    → header_conflict header s.header_rows ≡ found
    → (id : ℕ) × (header_conflict header (insert_or_validate header s found).0.header_rows
        ≡ some id)
insert_or_validate-found header s none e =
    header_conflict-snoc header s.header_rows _
      (rw (==_refl header.block_number, ==_refl header.block_hash) refl)
insert_or_validate-found header s (some id) e =
    (id, header_conflict-validated header s.header_rows id e)

-- Index of a payload a second time, no statement refused, adds no header row: each row of the
-- payload's block number and hash has its columns and is validated once more, the others stay.
pub index-index :
    (hex : Hex) (payload : CidPayload) (s : Store)
    → let once = (index hex accepting payload s).0 in
      (index hex accepting payload once).0.header_rows
      ≡ map (validated payload.header_cid) once.header_rows
index-index hex payload s =
    let header = payload.header_cid in
    let once = (index hex accepting payload s).0 in
    let found = insert_or_validate-found header s _ refl in
    let here : header_conflict header once.header_rows ≡ some found.0 =
      ap (header_conflict header) (index-header_rows hex payload s) ∙ found.1 in
    index-header_rows hex payload once
    ∙ ap (λ o. (insert_or_validate header once o).0.header_rows) here
