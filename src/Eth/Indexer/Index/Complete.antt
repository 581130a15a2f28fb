-- ===== src/Eth/Indexer/Index/Complete.antt =====
-- Index of a block that the database accepts.
use vulcanize_db.Prelude.{
  ℕ, ◌≡◌, refl, sym, subst, inl, inr, List, [], ◌∷◌, ◌++◌, map, Any, Option, none, some, nat_eq,
  string_eq, Bool-cases,
}
use vulcanize_db.Go.{ok}
use vulcanize_db.Eth.Indexer.{
  HeaderModel, CidPayload, Hex, Store, HeaderRow, header_conflict, insert_or_validate,
}
use vulcanize_db.Eth.Indexer.Index.{index_header_cid, index_all, index}
use vulcanize_db.Eth.Indexer.Index.Statements.{same_header}
use vulcanize_db.Eth.Indexer.Index.Stored.{Stored}
use vulcanize_db.Eth.Indexer.Index.Ending.{index_under-Ends}
use vulcanize_db.Eth.Indexer.Index.Validated.{accepting, validated}

-- The header is there under the id.
abbrev HasHeader : HeaderModel → List HeaderRow → ℕ → Type 0
HasHeader header rows id = Any (λ row. (row.id ≡ id) × (row.columns ≡ header)) rows

HasHeader-snoc :
    (header : HeaderModel) (rows : List HeaderRow) (row : HeaderRow)
    → row.columns ≡ header
    → HasHeader header (rows ++ row ∷ []) row.id
HasHeader-snoc header [] row e = inl (refl, e)
HasHeader-snoc header (first ∷ rows) row e = inr (HasHeader-snoc header rows row e)

HasHeader-validated :
    (header : HeaderModel) (rows : List HeaderRow) (id : ℕ)
    → header_conflict header rows ≡ some id
    → HasHeader header (map (validated header) rows) id
unfolding header_conflict
HasHeader-validated header [] id h = cc
HasHeader-validated header (row ∷ rows) id h = elim (Bool-cases (same_header header row)) [
  | inl on ↦
      let first : some row.id ≡ some id = rw (on) at h in
      let is : row.id ≡ id = cc in rw (on) (inl (is, refl))
  | inr off ↦
      let later : header_conflict header rows ≡ some id = rw (off) at h in
      inr (HasHeader-validated header rows id later)
]

insert_or_validate-HasHeader :
    (header : HeaderModel) (s : Store) (found : Option ℕ)
    → header_conflict header s.header_rows ≡ found
    → let done = insert_or_validate header s found in HasHeader header done.0.header_rows done.1
insert_or_validate-HasHeader header s none h = HasHeader-snoc header s.header_rows _ refl
insert_or_validate-HasHeader header s (some id) h = HasHeader-validated header s.header_rows id h

module _ (hex : Hex) where
  pub index-Stored :
      (payload : CidPayload) (s : Store)
      → let done = index hex accepting payload s in Stored hex payload done.0 × (done.1 ≡ ok tt)
  unfolding index index_all index_header_cid
  index-Stored payload s =
      let header = payload.header_cid in
      let found = header_conflict header s.header_rows in
      let put = insert_or_validate header s found in
      let there = insert_or_validate-HasHeader header s found refl in
      let (t, ends, grows, under) = index_under-Ends hex payload put.1 put.0 in
      rw (ends) (
        (put.1, subst (λ rows. HasHeader header rows put.1) (sym grows.headers_same) there, under),
        refl,
      )
