-- ===== src/Headers/Rounds.antt =====
-- Rounds of checking: every header that UncheckedHeaders gives out is marked, again and again.
use vulcanize_db.Prelude.{
  ℕ, zero, suc, ◌+◌, ◌≡◌, refl, sym, ap, ◌∙◌, ◌≤◌, inl, inr, String, Bool, true, false, ◌&&◌, List,
  [], ◌∷◌, map, keep, ◌==◌, nat_eq, nat_beq_iff, string_eq, if◌then◌else◌, Bool-cases, arith, All,
  All-imp, any_of, ◌||◌,
}
use vulcanize_db.Prelude.Int.{ℤ, pos, negsuc, ◌+ℤ◌, int_laws, ltb_ℤ, leb_ℤ, int_eq, ◌≤ℤ◌}
use vulcanize_db.Headers.{HeaderRow, mark_header_checked, unchecked_headers}

abbrev pub bumped : HeaderRow → HeaderRow
bumped row = record row { check_count = row.check_count +ℤ pos 1 }

-- What the callers of UncheckedHeaders do with its headers.
pub mark_all : List HeaderRow → List HeaderRow → List HeaderRow
mark_all [] rows = rows
mark_all (header ∷ headers) rows = mark_all headers (mark_header_checked header.id rows)

-- The same for one row.
bump : List HeaderRow → HeaderRow → HeaderRow
bump [] row = row
bump (header ∷ headers) row = bump headers (if row.id == header.id then bumped row else row)

map-map : {A : Type 0} (f g : A → A) (xs : List A) → map f (map g xs) ≡ map (λ x. f (g x)) xs
map-map f g [] = refl
map-map f g (x ∷ xs) = ap (λ rest. f (g x) ∷ rest) (map-map f g xs)

map_same : (rows : List HeaderRow) → map (λ row. row) rows ≡ rows
map_same [] = refl
map_same (row ∷ rows) = ap (λ rest. row ∷ rest) (map_same rows)

mark_all-bump : (headers rows : List HeaderRow) → mark_all headers rows ≡ map (bump headers) rows
unfolding mark_all bump mark_header_checked
mark_all-bump [] rows = sym (map_same rows)
mark_all-bump (header ∷ headers) rows =
    mark_all-bump headers (mark_header_checked header.id rows)
    ∙ map-map (bump headers) (λ row. if row.id == header.id then bumped row else row) rows

-- A row's id, block number and node stay, its count does not fall.
record Bumped (before after : HeaderRow) : Type 0 where
  same_id : after.id ≡ before.id
  same_number : after.block_number ≡ before.block_number
  same_node : after.eth_node_fingerprint ≡ before.eth_node_fingerprint
  grown : before.check_count ≤ℤ after.check_count

bump-Bumped : (headers : List HeaderRow) (row : HeaderRow) → Bumped row (bump headers row)
unfolding bump
bump-Bumped [] row = record {
  same_id = refl;
  same_number = refl;
  same_node = refl;
  grown = omega arith;
}
bump-Bumped (header ∷ headers) row = elim (Bool-cases (row.id == header.id)) [
  | inl same ↦
      let rest = bump-Bumped headers (bumped row) in
      rw (same) (record {
        same_id = rest.same_id;
        same_number = rest.same_number;
        same_node = rest.same_node;
        grown = omega (int_laws, rest.grown);
      })
  | inr other ↦ rw (other) (bump-Bumped headers row)
]

-- A header among those given out gains one at least.
bump-found :
    (headers : List HeaderRow) (row : HeaderRow)
    → any_of (λ header. header.id == row.id) headers ≡ true
    → row.check_count +ℤ pos 1 ≤ℤ (bump headers row).check_count
unfolding bump
bump-found [] row h = cc
bump-found (header ∷ headers) row h = elim (Bool-cases (row.id == header.id)) [
  | inl same ↦
      let step : bump (header ∷ headers) row ≡ bump headers (bumped row) = rw (same) refl in
      rw (step) (Bumped.grown (bump-Bumped headers (bumped row)))
  | inr other ↦
      let step : bump (header ∷ headers) row ≡ bump headers row = rw (other) refl in
      rw (step) (
        bump-found headers row
          (ground (arith, nat_beq_iff row.id header.id, nat_beq_iff header.id row.id)))
]

All-map :
    {A B : Type 0} (P Q : A → Type 0) (R : B → Type 0) (f : A → B) (xs : List A)
    → ((x : A) → P x → Q x → R (f x))
    → All P xs
    → All Q xs
    → All R (map f xs)
All-map P Q R f [] step p q = tt
All-map P Q R f (x ∷ xs) step p q = (step x p.0 q.0, All-map P Q R f xs step p.1 q.1)

-- What UncheckedHeaders asks of a row beside its count
abbrev pub in_scope : ℤ → ℤ → String → HeaderRow → Bool
in_scope start end node row =
    if end == negsuc 0
    then leb_ℤ start row.block_number && (row.eth_node_fingerprint == node)
    else leb_ℤ start row.block_number
      && (leb_ℤ row.block_number end && (row.eth_node_fingerprint == node))

module _ (start end : ℤ) (node : String) (limit : ℕ) where
  abbrev given_out : HeaderRow → Bool
  given_out row = ltb_ℤ row.check_count (pos limit) && in_scope start end node row

  unchecked_headers-keep :
      (rows : List HeaderRow)
      → unchecked_headers start end (pos limit) node rows ≡ keep given_out rows
  unfolding unchecked_headers
  unchecked_headers-keep rows = either_query (end == negsuc 0)
    where
      either_query :
          (unbounded : Bool)
          → (if unbounded
              then keep
                  (λ row.
                    ltb_ℤ row.check_count (pos limit)
                    && (leb_ℤ start row.block_number && (row.eth_node_fingerprint == node)))
                  rows
              else keep
                  (λ row.
                    ltb_ℤ row.check_count (pos limit)
                    && (leb_ℤ start row.block_number
                        && (leb_ℤ row.block_number end && (row.eth_node_fingerprint == node))))
                  rows)
            ≡ keep
                (λ row.
                  ltb_ℤ row.check_count (pos limit)
                  && (if unbounded
                      then leb_ℤ start row.block_number && (row.eth_node_fingerprint == node)
                      else leb_ℤ start row.block_number
                        && (leb_ℤ row.block_number end && (row.eth_node_fingerprint == node))))
                rows
      either_query true = refl
      either_query false = refl

  pub check_round : List HeaderRow → List HeaderRow
  check_round rows = mark_all (unchecked_headers start end (pos limit) node rows) rows

  pub check_rounds : ℕ → List HeaderRow → List HeaderRow
  unfolding check_round
  check_rounds zero rows = rows
  check_rounds (suc n) rows = check_rounds n (check_round rows)

  -- A header that is in scope has been checked so often.
  abbrev Checked : ℕ → HeaderRow → Type 0
  Checked k row = in_scope start end node row ≡ true → pos k ≤ℤ row.check_count

  found_out :
      (rows : List HeaderRow)
      → All
          (λ row.
            given_out row ≡ true
            → any_of (λ header. header.id == row.id) (keep given_out rows) ≡ true)
          rows
  found_out [] = tt
  found_out (row ∷ rows) = (
    λ given. rw (given) rw ((nat_beq_iff row.id row.id).1 refl) refl,
    All-imp _ _ rows
        (λ other found given. elim (Bool-cases (given_out row)) [
          | inl on ↦ rw (on) (or_right (row.id == other.id) (found given))
          | inr off ↦ rw (off) (found given)
        ])
        (found_out rows),
  )
    where
      or_right : (b : Bool) {c : Bool} → c ≡ true → b || c ≡ true
      or_right true h = refl
      or_right false h = h

  in_scope-Bumped :
      (before after : HeaderRow)
      → Bumped before after
      → in_scope start end node after ≡ in_scope start end node before
  in_scope-Bumped before after b = rw (b.same_number) rw (b.same_node) refl

  bump-Checked :
      (k : ℕ) (headers : List HeaderRow) (row : HeaderRow)
      → suc k ≤ limit
      → Checked k row
      → (given_out row ≡ true → any_of (λ header. header.id == row.id) headers ≡ true)
      → Checked (suc k) (bump headers row)
  bump-Checked k headers row fits checked found scoped =
      let b = bump-Bumped headers row in
      let was : in_scope start end node row ≡ true =
        sym (in_scope-Bumped row (bump headers row) b) ∙ scoped in
      let enough = checked was in
      elim (Bool-cases (ltb_ℤ row.check_count (pos limit))) [
        | inl short ↦
            let more = bump-found headers row (found (rw (short) was)) in
            omega (int_laws, more, enough)
        | inr full ↦
            let reached : pos limit ≤ℤ row.check_count = ground arith in
            omega (int_laws, b.grown, reached)
      ]

  -- A round checks every header that is in scope and below the limit once more.
  check_round-Checked :
      (k : ℕ) (rows : List HeaderRow)
      → suc k ≤ limit
      → All (Checked k) rows
      → All (Checked (suc k)) (check_round rows)
  unfolding check_round
  check_round-Checked k rows fits h =
      rw (unchecked_headers-keep rows) rw (mark_all-bump (keep given_out rows) rows) (
        All-map _ _ _ (bump (keep given_out rows)) rows
          (λ row. bump-Checked k (keep given_out rows) row fits) h (found_out rows))

  check_rounds-Checked :
      (n k : ℕ) (rows : List HeaderRow)
      → n + k ≤ limit
      → All (Checked k) rows
      → All (Checked (n + k)) (check_rounds n rows)
  unfolding check_rounds
  check_rounds-Checked zero k rows fits h = let same : 0 + k ≡ k = omega arith in rw (same) h
  check_rounds-Checked (suc n) k rows fits h =
      let same : suc n + k ≡ n + suc k = omega arith in
      rw (same) (
        check_rounds-Checked n (suc k) (check_round rows) (omega arith)
          (check_round-Checked k rows (omega arith) h))

  none_given : (rows : List HeaderRow) → All (Checked limit) rows → keep given_out rows ≡ []
  none_given [] h = refl
  none_given (row ∷ rows) h = elim (Bool-cases (given_out row)) [
    | inl given ↦
        let parts : (ltb_ℤ row.check_count (pos limit) ≡ true)
            × (in_scope start end node row ≡ true) =
          both (ltb_ℤ row.check_count (pos limit)) (in_scope start end node row) given in
        let reached = h.0 parts.1 in let short = parts.0 in absurd (ground arith)
    | inr other ↦ rw (other) (none_given rows h.1)
  ]
    where
      both : (a b : Bool) → a && b ≡ true → (a ≡ true) × (b ≡ true)
      both a b e = ground arith

  -- No header has a negative check count. Then after as many rounds as the check count, in each of
  -- which every header given out is marked as checked, no header is given out any more.
  pub unchecked_headers-check_rounds :
      (rows : List HeaderRow)
      → All (λ row. pos 0 ≤ℤ row.check_count) rows
      → unchecked_headers start end (pos limit) node (check_rounds limit rows) ≡ []
  unchecked_headers-check_rounds rows natural =
      let same : limit + 0 ≡ limit = omega arith in
      unchecked_headers-keep (check_rounds limit rows)
      ∙ none_given (check_rounds limit rows) (
          rw same at (
            check_rounds-Checked limit 0 rows (omega arith)
              (All-imp _ (Checked 0) rows (λ row n scoped. n) natural)))
