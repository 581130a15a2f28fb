-- ===== src/Sql/Deleting.antt =====
-- Deletions and joins: what a join finds after a deletion, and two deletions of keys in a row.
use vulcanize_db.Prelude.{
  ◌≡◌, refl, ap, inl, inr, String, Bool, true, false, ◌||◌, List, [], ◌∷◌, ◌++◌, any_of,
  any_of_append, ◌==◌, string_eq, Bool-cases, arith,
}
use vulcanize_db.Prelude.Int.{ℤ, int_eq}
use vulcanize_db.Sql.{
  Range, between, HeaderCid, ChildCid, header_in, child_in, without_parents, cids_of, header_cids,
  without_headers, without_keys, has_header, has_child,
}

or_false : (a b : Bool) → a || b ≡ false → (a ≡ false) × (b ≡ false)
or_false a b h = ground arith

-- No header of the range is found once they are deleted.
pub header_in-without_headers :
    (rng : Range) (rows : List HeaderCid) (id : ℤ)
    → header_in rng (without_headers rng rows) id ≡ false
header_in-without_headers rng [] id = refl
header_in-without_headers rng (row ∷ rows) id = elim (Bool-cases (between rng row.block_number)) [
  | inl on ↦ rw (on) (header_in-without_headers rng rows id)
  | inr off ↦ rw (off) rw (off) rw (header_in-without_headers rng rows id) (ground arith)
]

pub header_cids-without_headers :
    (rng : Range) (rows : List HeaderCid) → header_cids rng (without_headers rng rows) ≡ []
header_cids-without_headers rng [] = refl
header_cids-without_headers rng (row ∷ rows) = elim (Bool-cases (between rng row.block_number)) [
  | inl on ↦ rw (on) (header_cids-without_headers rng rows)
  | inr off ↦ rw (off) rw (off) (header_cids-without_headers rng rows)
]

-- A header that is found, and not in the range, is found after the deletion.
pub has_header-without_headers :
    (rng : Range) (rows : List HeaderCid) (id : ℤ)
    → has_header rows id ≡ true
    → header_in rng rows id ≡ false
    → has_header (without_headers rng rows) id ≡ true
has_header-without_headers rng [] id h out = h
has_header-without_headers rng (row ∷ rows) id h out = elim (Bool-cases (row.id == id)) [
  | inl same ↦
      let (off, rest) = or_false (between rng row.block_number) _ (rw same at out) in
      rw (off) rw (same) refl
  | inr other ↦
      let later = has_header-without_headers rng rows id (rw other at h) (rw other at out) in
      elim (Bool-cases (between rng row.block_number)) [
        | inl on ↦ rw (on) later
        | inr off ↦ rw (off) rw (other) later
      ]
]

module _ (parent : ℤ → Bool) where
  pub child_in-without_parents :
      (rows : List ChildCid) (id : ℤ) → child_in parent (without_parents parent rows) id ≡ false
  child_in-without_parents [] id = refl
  child_in-without_parents (row ∷ rows) id = elim (Bool-cases (parent row.parent_id)) [
    | inl on ↦ rw (on) (child_in-without_parents rows id)
    | inr off ↦ rw (off) rw (off) rw (child_in-without_parents rows id) (ground arith)
  ]

  pub cids_of-without_parents :
      (rows : List ChildCid) → cids_of parent (without_parents parent rows) ≡ []
  cids_of-without_parents [] = refl
  cids_of-without_parents (row ∷ rows) = elim (Bool-cases (parent row.parent_id)) [
    | inl on ↦ rw (on) (cids_of-without_parents rows)
    | inr off ↦ rw (off) rw (off) (cids_of-without_parents rows)
  ]

  pub has_child-without_parents :
      (rows : List ChildCid) (id : ℤ)
      → has_child rows id ≡ true
      → child_in parent rows id ≡ false
      → has_child (without_parents parent rows) id ≡ true
  has_child-without_parents [] id h out = h
  has_child-without_parents (row ∷ rows) id h out = elim (Bool-cases (row.id == id)) [
    | inl same ↦
        let (off, rest) = or_false (parent row.parent_id) _ (rw same at out) in
        rw (off) rw (same) refl
    | inr other ↦
        let later = has_child-without_parents rows id (rw other at h) (rw other at out) in
        elim (Bool-cases (parent row.parent_id)) [
          | inl on ↦ rw (on) later
          | inr off ↦ rw (off) rw (other) later
        ]
  ]

  -- Where no parent is selected, no row is.
  module _ (none_selected : (id : ℤ) → parent id ≡ false) where
    pub child_in-none : (rows : List ChildCid) (id : ℤ) → child_in parent rows id ≡ false
    child_in-none [] id = refl
    child_in-none (row ∷ rows) id =
        rw (none_selected row.parent_id) rw (child_in-none rows id) (ground arith)

    pub cids_of-none : (rows : List ChildCid) → cids_of parent rows ≡ []
    cids_of-none [] = refl
    cids_of-none (row ∷ rows) = rw (none_selected row.parent_id) (cids_of-none rows)

pub without_keys-none : (keys : List String) → without_keys [] keys ≡ keys
without_keys-none [] = refl
without_keys-none (key ∷ keys) = ap (λ rest. key ∷ rest) (without_keys-none keys)

-- Two deletions of keys delete the keys of both.
pub without_keys-append :
    (first second keys : List String)
    → without_keys second (without_keys first keys) ≡ without_keys (first ++ second) keys
without_keys-append first second [] = refl
without_keys-append first second (key ∷ keys) =
    let later = without_keys-append first second keys in
    rw (any_of_append (λ cid. cid == key) first second)
      (elim (Bool-cases (any_of (λ cid. cid == key) first)) [
        | inl gone ↦ rw (gone) later
        | inr there ↦ elim (Bool-cases (any_of (λ cid. cid == key) second)) [
          | inl gone ↦ rw (there) rw (gone) later
          | inr still ↦ rw (there) rw (still) (ap (λ rest. key ∷ rest) later)
        ]
      ])
