-- ===== src/Eth/Indexer/Index/Validated.antt =====
-- The table of headers after Index, and what RetrieveGapsInData finds in it.
use vulcanize_db.Prelude.{
  ◌↔◌, ◌≢◌, ℕ, ◌≡◌, refl, sym, ap, ◌∙◌, subst, inl, inr, true, false, ◌||◌, List, [], ◌∷◌, ◌++◌,
  map, Option, none, some, ◌==◌, nat_eq, bytes_eq, nat_beq_iff, string_eq, if◌then◌else◌,
  Bool-cases, arith,
}
use vulcanize_db.Prelude.Int.{pos, ◌+ℤ◌, int_eq}
use vulcanize_db.Go.{OnOk, OnOk->>=, OnOk-imp}
use vulcanize_db.Eth.Indexer.{
  HeaderModel, CidPayload, Hex, Store, insert_header, HeaderRow, Refusals, header_conflict,
  insert_or_validate,
}
use vulcanize_db.Eth.Indexer.Index.{index_header_cid, index_under, index_all, index}
use vulcanize_db.Eth.Indexer.Index.Linked.{has_header}
use vulcanize_db.Eth.Indexer.Index.Steps.{Step, OnOk-unless_refused}
use vulcanize_db.Eth.Indexer.Index.Statements.{same_header, insert_or_validate-HeaderWritten}
use vulcanize_db.Eth.Indexer.Index.Preserved.{index_under-Step}
use vulcanize_db.Eth.Indexer.Index.Returning.{index_all-Returns}
use vulcanize_db.Eth.Retriever.Gaps
use vulcanize_db.Eth.Retriever.Gaps.{heights_of, stored}
use vulcanize_db.Eth.Retriever.Gaps.Rows.{stored_iff}
use vulcanize_db.Eth.Retriever.Gaps.Missing.{Missing}

abbrev pub accepting : Refusals
accepting = record { on_begin = none; on_statement = λ statement. none; on_commit = none }

-- The rows of a header's statement
abbrev pub header_rows_with : HeaderModel → Store → List HeaderRow
header_rows_with header s =
    (insert_or_validate header s (header_conflict header s.header_rows)).0.header_rows

index_all-header_rows :
    (hex : Hex) (refusals : Refusals) (payload : CidPayload) (s : Store)
    → OnOk
        (λ t. t.header_rows ≡ header_rows_with payload.header_cid s)
        (index_all hex refusals payload s)
unfolding index_all index_header_cid
index_all-header_rows hex refusals payload s =
    let Done : Store × ℕ → Type 0 = λ done.
      (done.0.header_rows ≡ header_rows_with payload.header_cid s)
      × (has_header done.0.header_rows done.1 ≡ true) in
    OnOk->>= Done (λ t. t.header_rows ≡ header_rows_with payload.header_cid s)
      (index_header_cid hex refusals payload.header_cid s) _
      (OnOk-unless_refused Done (refusals.on_statement (insert_header payload.header_cid)) _
        (refl, (insert_or_validate-HeaderWritten payload.header_cid s _ refl).returned))
      (λ done same.
        OnOk-imp (Step done.0) (λ t. t.header_rows ≡ header_rows_with payload.header_cid s)
          (index_under hex refusals payload done.1 done.0) (λ t step. step.headers_same ∙ same.0)
          (index_under-Step hex refusals payload done.1 done.0 same.1))

pub index-header_rows :
    (hex : Hex) (payload : CidPayload) (s : Store)
    → (index hex accepting payload s).0.header_rows ≡ header_rows_with payload.header_cid s
unfolding index
index-header_rows hex payload s =
    let done = index_all-Returns hex accepting (λ statement. refl) payload s in
    let rows =
      subst (OnOk (λ t. t.header_rows ≡ header_rows_with payload.header_cid s)) done.1
        (index_all-header_rows hex accepting payload s) in
    rw (done.1) rows

abbrev pub validated : HeaderModel → HeaderRow → HeaderRow
validated header row =
    if same_header header row
    then record row { columns = header; times_validated = row.times_validated +ℤ pos 1 }
    else row

-- The rows that RetrieveGapsInData reads.
abbrev pub gap_table : List HeaderRow → List Gaps.HeaderRow
gap_table rows =
    map
      (λ row. record {
        block_number = row.columns.block_number;
        times_validated = row.times_validated;
      })
      rows

stored-snoc :
    (h : ℕ) (rows : List HeaderRow) (row : HeaderRow)
    → stored h (heights_of (gap_table (rows ++ row ∷ [])))
      ≡ stored h (heights_of (gap_table rows)) || (row.columns.block_number == h)
stored-snoc h [] row = ground arith
stored-snoc h (first ∷ rows) row = ground (arith, stored-snoc h rows row)

stored-validated :
    (header : HeaderModel) (h : ℕ) (rows : List HeaderRow)
    → stored h (heights_of (gap_table (map (validated header) rows)))
      ≡ stored h (heights_of (gap_table rows))
stored-validated header h [] = refl
stored-validated header h (row ∷ rows) = ground (
  arith,
  stored-validated header h rows,
  nat_beq_iff row.columns.block_number header.block_number,
)

header_conflict-stored :
    (header : HeaderModel) (rows : List HeaderRow) (id : ℕ)
    → header_conflict header rows ≡ some id
    → stored header.block_number (heights_of (gap_table rows)) ≡ true
unfolding header_conflict
header_conflict-stored header [] id h = cc
header_conflict-stored header (row ∷ rows) id h =
    ground (arith, header_conflict-stored header rows id)

insert_or_validate-stored :
    (header : HeaderModel) (s : Store) (h : ℕ) (found : Option ℕ)
    → header_conflict header s.header_rows ≡ found
    → stored h (heights_of (gap_table (insert_or_validate header s found).0.header_rows))
      ≡ stored h (heights_of (gap_table s.header_rows)) || (header.block_number == h)
insert_or_validate-stored header s h none e = stored-snoc h s.header_rows _
insert_or_validate-stored header s h (some id) e =
    stored-validated header h s.header_rows
    ∙ ground
        (arith, header_conflict-stored header s.header_rows id e, nat_beq_iff header.block_number h)

-- The heights that the table has
abbrev pub heights : Store → List ℕ
heights s = heights_of (gap_table s.header_rows)

index-stored :
    (hex : Hex) (payload : CidPayload) (s : Store) (h : ℕ)
    → stored h (heights (index hex accepting payload s).0)
      ≡ stored h (heights s) || (payload.header_cid.block_number == h)
index-stored hex payload s h =
    ap (λ rows. stored h (heights_of (gap_table rows))) (index-header_rows hex payload s)
    ∙ insert_or_validate-stored payload.header_cid s h _ refl

-- Index of a block whose height RetrieveGapsInData finds missing (it is not stored and lies below a
-- stored one), no statement refused, fills that height and no other: what is missing afterwards is
-- what was missing before, less that height.
pub index-Missing :
    (hex : Hex) (payload : CidPayload) (s : Store)
    → Missing payload.header_cid.block_number (heights s)
    → (h : ℕ)
    → Missing h (heights (index hex accepting payload s).0)
      ↔ (Missing h (heights s) × (h ≢ payload.header_cid.block_number))
index-Missing hex payload s (free, (y, above, less)) h =
    let n = payload.header_cid.block_number in
    let after = index-stored hex payload s in
    (
      λ (off, (x, there, below)).
          let apart : (stored h (heights s) ≡ false) × (h ≢ n) =
            ground (arith, after h, nat_beq_iff n h) in
          let on : stored x (heights s) || (n == x) ≡ true =
            sym (after x) ∙ (stored_iff x _).1 there in
          (
            (
              apart.0,
              elim (Bool-cases (stored x (heights s))) [
                | inl known ↦ (x, (stored_iff x (heights s)).0 known, below)
                | inr fresh ↦
                    let same : n ≡ x = ground (arith, nat_beq_iff n x) in (y, above, omega arith)
              ],
            ),
            apart.1,
          ),
      λ ((off, (x, there, below)), other).
          let known = (stored_iff x (heights s)).1 there in
          (
            after h ∙ ground (arith, nat_beq_iff n h),
            (x, (stored_iff x _).0 (after x ∙ rw (known) refl), below),
          ),
    )
