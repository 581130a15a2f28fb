-- ===== src/Eth/Indexer/Index/Linked.antt =====
-- Every row that Index writes has its parent.
use vulcanize_db.Prelude.{
  ℕ, ◌≡◌, refl, ◌∙◌, inl, inr, Bool, true, false, ◌||◌, List, [], ◌∷◌, ◌++◌, any_of, any_of_append,
  Option, none, some, ◌==◌, nat_eq, bytes_eq, nat_beq_iff, string_eq, All, All-imp, Bool-cases,
  arith,
}
use vulcanize_db.Prelude.Int.{int_eq}
use vulcanize_db.Eth.Indexer.{
  Store, HeaderRow, Row, Table, upsert, conflicting, written, insert_or_update,
}

abbrev pub has_header : List HeaderRow → ℕ → Bool
has_header rows id = any_of (λ row. row.id == id) rows

abbrev pub has_row : {Columns : Type 0} → List (Row Columns) → ℕ → Bool
has_row rows id = any_of (λ row. row.id == id) rows

-- The parents of a table's rows are there.
abbrev pub Under : {Columns : Type 0} → (ℕ → Bool) → List (Row Columns) → Type 0
Under there rows = All (λ row. there row.parent_id ≡ true) rows

pub record IsLinked (s : Store) : Type 0 where
  pub uncles_linked : Under (has_header s.header_rows) s.uncles.rows
  pub transactions_linked : Under (has_header s.header_rows) s.transactions.rows
  pub receipts_linked : Under (has_row s.transactions.rows) s.receipts.rows
  pub states_linked : Under (has_header s.header_rows) s.states.rows
  pub storages_linked : Under (has_row s.states.rows) s.storages.rows
  pub accounts_linked : Under (has_row s.states.rows) s.accounts.rows

pub or_true : (b : Bool) → b || true ≡ true
or_true true = refl
or_true false = refl

module _ {Columns : Type 0} where
  Under-snoc :
      (there : ℕ → Bool) (rows : List (Row Columns)) (row : Row Columns)
      → Under there rows
      → there row.parent_id ≡ true
      → Under there (rows ++ row ∷ [])
  Under-snoc there [] row h new = (new, tt)
  Under-snoc there (first ∷ rows) row h new = (h.0, Under-snoc there rows row h.1 new)

  pub Under-imp :
      (there there_too : ℕ → Bool) (rows : List (Row Columns))
      → ((id : ℕ) → there id ≡ true → there_too id ≡ true)
      → Under there rows
      → Under there_too rows
  Under-imp there there_too rows each h =
      All-imp (λ (row : Row Columns). there row.parent_id ≡ true)
        (λ row. there_too row.parent_id ≡ true) rows (λ row. each row.parent_id) h

  Under-written :
      (there : ℕ → Bool) (same : Row Columns → Bool) (columns : Columns) (rows : List (Row Columns))
      → Under there rows
      → Under there (written same columns rows)
  Under-written there same columns [] h = h
  Under-written there same columns (row ∷ rows) h = elim (Bool-cases (same row)) [
    | inl on ↦ rw (on) (h.0, Under-written there same columns rows h.1)
    | inr off ↦ rw (off) (h.0, Under-written there same columns rows h.1)
  ]

  has_row-written :
      (same : Row Columns → Bool) (columns : Columns) (rows : List (Row Columns)) (id : ℕ)
      → has_row (written same columns rows) id ≡ has_row rows id
  has_row-written same columns [] id = refl
  has_row-written same columns (row ∷ rows) id =
      ground (arith, has_row-written same columns rows id)

  conflicting-has_row :
      (same : Row Columns → Bool) (rows : List (Row Columns)) (id : ℕ)
      → conflicting same rows ≡ some id
      → has_row rows id ≡ true
  unfolding conflicting
  conflicting-has_row same [] id h = cc
  conflicting-has_row same (row ∷ rows) id h =
      ground (arith, conflicting-has_row same rows id, nat_beq_iff row.id id)

  -- What a statement does to its table: the rows' parents are there, all ids stay, and the id that it
  -- returns is there.
  pub record Written (there : ℕ → Bool) (before : Table Columns) (after : Table Columns × ℕ)
      : Type 0 where
    pub under : Under there before.rows → Under there after.0.rows
    pub kept : (id : ℕ) → has_row before.rows id ≡ true → has_row after.0.rows id ≡ true
    pub returned : has_row after.0.rows after.1 ≡ true

  insert_or_update-Written :
      (there : ℕ → Bool) (same : Row Columns → Bool) (parent : ℕ) (columns : Columns)
      (table : Table Columns) (found : Option ℕ)
      → conflicting same table.rows ≡ found
      → there parent ≡ true
      → Written there table (insert_or_update same parent columns table found)
  insert_or_update-Written there same parent columns table none e new =
      let row : Row Columns = record {
        id = table.next_id;
        parent_id = parent;
        columns = columns;
      } in
      record {
        under = λ h. Under-snoc there table.rows row h new;
        kept = λ id h. any_of_append (λ r. r.id == id) table.rows (row ∷ []) ∙ rw (h) refl;
        returned =
            any_of_append (λ r. r.id == table.next_id) table.rows (row ∷ [])
            ∙ (rw ((nat_beq_iff table.next_id table.next_id).1 refl)
                (or_true (has_row table.rows table.next_id)));
      }
  insert_or_update-Written there same parent columns table (some id) e new = record {
    under = λ h. Under-written there same columns table.rows h;
    kept = λ j h. has_row-written same columns table.rows j ∙ h;
    returned =
        has_row-written same columns table.rows id ∙ conflicting-has_row same table.rows id e;
  }

  pub upsert-Written :
      (there : ℕ → Bool) (same_key : Columns → Bool) (parent : ℕ) (columns : Columns)
      (table : Table Columns)
      → there parent ≡ true
      → Written there table (upsert same_key parent columns table)
  unfolding upsert
  upsert-Written there same_key parent columns table new =
      insert_or_update-Written there _ parent columns table _ refl new
