-- ===== src/Sql/Outcome.antt =====
-- The outcomes of a database transaction.
use vulcanize_db.Prelude.{◌≡◌, ◌≢◌, refl, ◌⊎◌, inl, inr, String, Option, none, some}
use vulcanize_db.Go.{Result, ok, err, panic}
use vulcanize_db.Sql.{committed, rejected}

-- A transaction fails and changes nothing, or it is committed and what follows decides.
pub committed-cases :
    {A : Type 0} (before : A) (result : Result A) (commit : Option String)
    (next : A → Result (Unit {0}))
    → (((committed before result commit next).0 ≡ before)
        × ((committed before result commit next).1 ≢ ok tt))
      ⊎ ((after : A) × (result ≡ ok after)
          × (committed before result commit next ≡ (after, next after)))
committed-cases before panic commit next = inl (refl, λ e. cc)
committed-cases before (err e) commit next = inl (refl, λ e. cc)
committed-cases before (ok after) (some e) next = inl (refl, λ e. cc)
committed-cases before (ok after) none next = inr (after, refl, refl)

pub rejected-eq-ok :
    {A : Type 0} (refusal : Option String) (value : A) {result : A}
    → rejected refusal value ≡ ok result
    → value ≡ result
rejected-eq-ok none value h = cc
rejected-eq-ok (some e) value h = cc
