-- ===== src/Eth/Indexer/Index/Keys.antt =====
-- What an INSERT of the indexer does to the keys of its table.
use vulcanize_db.Prelude.{
  ℕ, ◌≡◌, refl, ◌∙◌, sym, inl, inr, Bool, true, ◌&&◌, List, [], ◌∷◌, ◌++◌, Any, Option, none, some,
  ◌==◌, nat_eq, nat_beq_iff, Bool-cases, arith,
}
use vulcanize_db.Eth.Indexer.{Row, Table, upsert, conflicting, written, insert_or_update}

module _ {Columns K : Type 0} (key : Columns → K) where
  -- A row with the id, under the parent, with the key
  abbrev pub HasKey : List (Row Columns) → ℕ → ℕ → K → Type 0
  HasKey rows id parent k =
      Any (λ row. (row.id ≡ id) × (row.parent_id ≡ parent) × (key row.columns ≡ k)) rows

  -- No key is lost.
  abbrev pub Kept : Table Columns → Table Columns → Type 0
  Kept before after =
      (id parent : ℕ) (k : K) → HasKey before.rows id parent k → HasKey after.rows id parent k

  HasKey-append :
      (rows more : List (Row Columns)) (id parent : ℕ) (k : K)
      → HasKey rows id parent k
      → HasKey (rows ++ more) id parent k
  HasKey-append [] more id parent k h = elim h [ ]
  HasKey-append (row ∷ rows) more id parent k (inl here) = inl here
  HasKey-append (row ∷ rows) more id parent k (inr later) =
      inr (HasKey-append rows more id parent k later)

  HasKey-snoc :
      (rows : List (Row Columns)) (row : Row Columns)
      → HasKey (rows ++ row ∷ []) row.id row.parent_id (key row.columns)
  HasKey-snoc [] row = inl (refl, refl, refl)
  HasKey-snoc (first ∷ rows) row = inr (HasKey-snoc rows row)

  module _ (same : Row Columns → Bool) (columns : Columns)
      (correct : (row : Row Columns) → same row ≡ true → key row.columns ≡ key columns) where
    HasKey-written :
        (rows : List (Row Columns)) (id parent : ℕ) (k : K)
        → HasKey rows id parent k
        → HasKey (written same columns rows) id parent k
    HasKey-written [] id parent k h = h
    HasKey-written (row ∷ rows) id parent k (inl (i, p, e)) = elim (Bool-cases (same row)) [
      | inl on ↦ rw (on) (inl (i, p, sym (correct row on) ∙ e))
      | inr off ↦ rw (off) (inl (i, p, e))
    ]
    HasKey-written (row ∷ rows) id parent k (inr later) =
        inr (HasKey-written rows id parent k later)

    HasKey-conflicting :
        (parent : ℕ) (rows : List (Row Columns)) (id : ℕ)
        → ((row : Row Columns) → same row ≡ true → row.parent_id ≡ parent)
        → conflicting same rows ≡ some id
        → HasKey rows id parent (key columns)
    unfolding conflicting
    HasKey-conflicting parent [] id under h = cc
    HasKey-conflicting parent (row ∷ rows) id under h = elim (Bool-cases (same row)) [
      | inl on ↦
          let first : some row.id ≡ some id = rw (on) at h in
          let is : row.id ≡ id = cc in inl (is, under row on, correct row on)
      | inr off ↦
          let later : conflicting same rows ≡ some id = rw (off) at h in
          inr (HasKey-conflicting parent rows id under later)
    ]

    insert_or_update-HasKey :
        (parent : ℕ) (table : Table Columns) (found : Option ℕ)
        → ((row : Row Columns) → same row ≡ true → row.parent_id ≡ parent)
        → conflicting same table.rows ≡ found
        → let done = insert_or_update same parent columns table found in
          Kept table done.0 × HasKey done.0.rows done.1 parent (key columns)
    insert_or_update-HasKey parent table none under h =
        let row : Row Columns = record {
          id = table.next_id;
          parent_id = parent;
          columns = columns;
        } in
        (λ id p k has. HasKey-append table.rows (row ∷ []) id p k has, HasKey-snoc table.rows row)
    insert_or_update-HasKey parent table (some id) under h = (
      λ i p k has. HasKey-written table.rows i p k has,
      HasKey-written table.rows id parent (key columns)
          (HasKey-conflicting parent table.rows id under h),
    )

  -- An INSERT loses no key, and its row is there under the id that it returns.
  pub upsert-HasKey :
      (same_key : Columns → Bool) (parent : ℕ) (columns : Columns) (table : Table Columns)
      → ((c : Columns) → same_key c ≡ true → key c ≡ key columns)
      → let done = upsert same_key parent columns table in
        Kept table done.0 × HasKey done.0.rows done.1 parent (key columns)
  unfolding upsert
  upsert-HasKey same_key parent columns table equal =
      insert_or_update-HasKey (λ row. (row.parent_id == parent) && same_key row.columns) columns
        (λ row on.
          equal row.columns (and_right (row.parent_id == parent) (same_key row.columns) on))
        parent table _
        (λ row on.
          (nat_beq_iff row.parent_id parent).0
            (and_left (row.parent_id == parent) (same_key row.columns) on))
        refl
    where
      and_left : (a b : Bool) → a && b ≡ true → a ≡ true
      and_left a b e = ground arith

      and_right : (a b : Bool) → a && b ≡ true → b ≡ true
      and_right a b e = ground arith
