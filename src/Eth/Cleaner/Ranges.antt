-- ===== src/Eth/Cleaner/Ranges.antt =====
-- Clean and ResetValidation over all ranges: one transaction, with its errors.
use vulcanize_db.Prelude.{
  subst, ◌≡◌, ◌≢◌, refl, sym, ap, ◌∙◌, ◌⊎◌, inl, inr, List, [], ◌∷◌, map, any_of, Bool-cases,
  if◌then◌else◌,
}
use vulcanize_db.Prelude.Int.{pos}
use vulcanize_db.Go.{ok, ◌>>=◌, >>=-eq-ok}
use vulcanize_db.Chain.{DataType}
use vulcanize_db.Sql.{Range, HeaderCid, between, reset_header, rejected}
use vulcanize_db.Sql.Outcome.{committed-cases, rejected-eq-ok}
use vulcanize_db.Eth.Cleaner.{
  Tables, Refusals, clean_range, clean_loop, clean, vacuum_analyze, reset_loop, reset_validation,
}
use vulcanize_db.Eth.Cleaner.Cleaning.{cleaned, clean_range-cleaned}

pub all_cleaned : List Range → DataType → Tables → Tables
all_cleaned [] t db = db
all_cleaned (rng ∷ rngs) t db = all_cleaned rngs t (cleaned t rng db)

-- The header rows of all ranges reset at once.
abbrev pub reset_any : List Range → HeaderCid → HeaderCid
reset_any rngs row =
    if any_of (λ rng. between rng row.block_number) rngs
    then record row { times_validated = pos 0 }
    else row

reset_any-reset_header :
    (rng : Range) (rngs : List Range) (rows : List HeaderCid)
    → map (reset_any rngs) (map (reset_header rng) rows) ≡ map (reset_any (rng ∷ rngs)) rows
reset_any-reset_header rng rngs [] = refl
reset_any-reset_header rng rngs (row ∷ rows) =
    let later = reset_any-reset_header rng rngs rows in
    elim (Bool-cases (between rng row.block_number)) [
      | inl on ↦ elim (Bool-cases (any_of (λ r. between r row.block_number) rngs)) [
        | inl again ↦
            rw (on) rw (again) (ap (λ rest. record row { times_validated = pos 0 } ∷ rest) later)
        | inr once ↦
            rw (on) rw (once) (ap (λ rest. record row { times_validated = pos 0 } ∷ rest) later)
      ]
      | inr off ↦ rw (off) (ap (λ rest. reset_any rngs row ∷ rest) later)
    ]

map_same : (rows : List HeaderCid) → map (reset_any []) rows ≡ rows
map_same [] = refl
map_same (row ∷ rows) = ap (λ rest. row ∷ rest) (map_same rows)

module _ (refusals : Refusals) where
  clean_loop-all_cleaned :
      (rngs : List Range) (t : DataType) (db after : Tables)
      → clean_loop refusals rngs t db ≡ ok after
      → after ≡ all_cleaned rngs t db
  unfolding clean_loop all_cleaned
  clean_loop-all_cleaned [] t db after h = cc
  clean_loop-all_cleaned (rng ∷ rngs) t db after h =
      let (next, h1, h2) = >>=-eq-ok (clean_range refusals rng t db) _ h in
      rw (← clean_range-cleaned refusals rng t db next h1)
        (clean_loop-all_cleaned rngs t next after h2)

  -- Clean reports an error and changes nothing, or it cleans every range and reports what vacuuming
  -- the tables does.
  pub clean-all_cleaned :
      (rngs : List Range) (t : DataType) (db : Tables)
      → (((clean refusals rngs t db).0 ≡ db) × ((clean refusals rngs t db).1 ≢ ok tt))
        ⊎ (clean refusals rngs t db ≡ (all_cleaned rngs t db, vacuum_analyze refusals t))
  unfolding clean
  clean-all_cleaned rngs t db =
      let begun = rejected refusals.on_begin db >>= λ now. clean_loop refusals rngs t now in
      elim (committed-cases db begun refusals.on_commit (λ _. vacuum_analyze refusals t)) [
        | inl failed ↦ inl failed
        | inr (after, h, done) ↦
            let (now, h1, h2) = >>=-eq-ok (rejected refusals.on_begin db) _ h in
            let same = rejected-eq-ok refusals.on_begin db h1 in
            inr (
              done
              ∙ ap (λ x. (x, vacuum_analyze refusals t))
                  (rw (same) (clean_loop-all_cleaned rngs t now after h2)))
      ]

  reset_loop-reset_any :
      (rngs : List Range) (db after : Tables)
      → reset_loop refusals rngs db ≡ ok after
      → after ≡ record db { header_rows = map (reset_any rngs) db.header_rows }
  unfolding reset_loop
  reset_loop-reset_any [] db after h = rw (map_same db.header_rows) cc
  reset_loop-reset_any (rng ∷ rngs) db after h =
      let reset = record db { header_rows = map (reset_header rng) db.header_rows } in
      let (next, h1, h2) = >>=-eq-ok (rejected (refusals.on_reset rng) reset) _ h in
      let same = rejected-eq-ok (refusals.on_reset rng) reset h1 in
      rw (← reset_any-reset_header rng rngs db.header_rows) (
        subst (λ d. after ≡ record d { header_rows = map (reset_any rngs) d.header_rows })
          (sym same) (reset_loop-reset_any rngs next after h2))

  -- ResetValidation reports an error and changes nothing, or it sets times_validated to 0 in exactly
  -- the headers whose height lies in one of the ranges, and changes nothing else.
  reset_validation-reset_any :
      (rngs : List Range) (db : Tables)
      → (((reset_validation refusals rngs db).0 ≡ db)
          × ((reset_validation refusals rngs db).1 ≢ ok tt))
        ⊎ (reset_validation refusals rngs db
            ≡ (record db { header_rows = map (reset_any rngs) db.header_rows }, ok tt))
  unfolding reset_validation
  reset_validation-reset_any rngs db =
      let begun = rejected refusals.on_begin db >>= λ now. reset_loop refusals rngs now in
      elim (committed-cases db begun refusals.on_commit (λ _. ok tt)) [
        | inl failed ↦ inl failed
        | inr (after, h, done) ↦
            let (now, h1, h2) = >>=-eq-ok (rejected refusals.on_begin db) _ h in
            let same = rejected-eq-ok refusals.on_begin db h1 in
            inr (done ∙ ap (λ x. (x, ok tt)) (rw (same) (reset_loop-reset_any rngs now after h2)))
      ]
