-- ===== src/Watcher/Queue.antt =====
-- The queued data of the watcher, by height.
use vulcanize_db.Prelude.{
  ◌≡◌, refl, sym, Bool, true, false, ◌||◌, List, [], ◌∷◌, Option, none, some, ◌==◌, any_of,
  Bool-cases, inl, inr, arith,
}
use vulcanize_db.Prelude.Int.{ℤ, int_eq, beq_ℤ_iff}
use vulcanize_db.Watcher.{Payload, take_height, taken, put_height}

abbrev pub has_height : ℤ → Payload → Bool
has_height height payload = payload.height == height

or_again : (a b : Bool) → a || b ≡ a || (a || b)
or_again a b = ground arith

pub or_false : (a : Bool) → a ≡ a || false
or_false a = ground arith

pub or_assoc : (a b c : Bool) → (a || b) || c ≡ a || (b || c)
or_assoc a b c = ground arith

pub or_swap : (a b c : Bool) → a || (b || c) ≡ b || (a || c)
or_swap a b c = ground arith

pub any_of-put_height :
    (height : ℤ) (payload : Payload) (rows : List Payload)
    → any_of (has_height height) (put_height payload rows)
      ≡ has_height height payload || any_of (has_height height) rows
unfolding put_height
any_of-put_height height payload [] = refl
any_of-put_height height payload (row ∷ rows) =
    let later = any_of-put_height height payload rows in
    elim (Bool-cases (row.height == payload.height)) [
      | inl same ↦
          let equal : row.height ≡ payload.height = (beq_ℤ_iff row.height payload.height).0 same in
          rw (same, equal) (or_again (has_height height payload) (any_of (has_height height) rows))
      | inr other ↦
          rw (other, later)
            (or_swap (has_height height row) (has_height height payload)
              (any_of (has_height height) rows))
    ]

taken-held :
    (height : ℤ) (row : Payload) (rows : List Payload) (same : Bool)
    (later : Option (Payload × List Payload)) (found : Payload × List Payload)
    → ((other : Payload × List Payload)
        → later ≡ some other
        → any_of (has_height height) rows
          ≡ has_height height other.0 || any_of (has_height height) other.1)
    → taken row rows same later ≡ some found
    → any_of (has_height height) (row ∷ rows)
      ≡ has_height height found.0 || any_of (has_height height) found.1
taken-held height row rows true later found there h =
    let is : (row, rows) ≡ found = cc in rw (sym is) refl
taken-held height row rows false none found there h = cc
taken-held height row rows false (some (other, rest)) found there h =
    let is : (other, row ∷ rest) ≡ found = cc in
    let split = there (other, rest) refl in
    rw (sym is, split)
      (or_swap (has_height height row) (has_height height other) (any_of (has_height height) rest))

-- What GetQueueData takes and what it leaves are what was queued.
pub take_height-held :
    (index height : ℤ) (rows : List Payload) (found : Payload × List Payload)
    → take_height index rows ≡ some found
    → any_of (has_height height) rows
      ≡ has_height height found.0 || any_of (has_height height) found.1
unfolding take_height
take_height-held index height [] found h = cc
take_height-held index height (row ∷ rows) found h =
    taken-held height row rows (row.height == index) (take_height index rows) found
      (take_height-held index height rows) h
