-- ===== src/Eth/Retriever/Gaps/Missing.antt =====
-- What RetrieveGapsInData of pkg/super_node/eth/cid_retriever.go reports.
use vulcanize_db.Prelude.{
  keep, Any-map, ℕ, zero, suc, ◌+◌, ◌-◌, ◌≤◌, ◌<◌, ◌≡◌, ◌≢◌, refl, sym, ◌↔◌, ◌⊎◌, inl, inr, String,
  false, List, [], ◌∷◌, ◌++◌, Option, none, some, Option-cases, Bool-cases, ltb, lt→ltb, ltb→lt,
  ◌==◌, nat_eq, Any, All, arith,
}
use vulcanize_db.Prelude.Int.{ℤ}
use vulcanize_db.Go.{ok}
use vulcanize_db.Heights.{Gap, gap, missing_heights_to_gaps}
use vulcanize_db.Eth.Retriever.Gaps.{
  HeaderRow, min_of, stored, retrieve_first_block_number, initial_gap, gap_rows, under_validated,
  heights_of, retrieve_gaps_in_data,
}
use vulcanize_db.Eth.Retriever.Gaps.Rows.{
  Stored, stored_iff, min_of-none, absent, min_of-some, nearest, gap_rows-has, gap_rows-only,
  Stored-keep,
}

-- The height is in one of the gaps.
abbrev pub Named : ℕ → List Gap → Type 0
Named h gaps = Any (λ g. (g.start ≤ h) × (h ≤ g.stop)) gaps

-- Nothing is stored at the height, and something is stored above it.
abbrev pub Missing : ℕ → List ℕ → Type 0
Missing h heights = (stored h heights ≡ false) × ((x : ℕ) × Stored x heights × (h < x))

module _ (heights : List ℕ) where
  above-next :
      (b next : ℕ)
      → min_of (keep (λ h. ltb b h) heights) ≡ some next
      → Stored next heights × (b < next) × ((x : ℕ) → Stored x heights → b < x → next ≤ x)
  above-next b next e =
      let (s, least) = min_of-some (keep (λ h. ltb b h) heights) next e in
      let (t, up) = (Stored-keep (λ h. ltb b h) next heights).0 s in
      (
        t,
        ltb→lt b next up,
        λ x u less. least x ((Stored-keep (λ h. ltb b h) x heights).1 (u, lt→ltb b x less)),
      )

  Named-Missing :
      (h : ℕ) (gaps : List Gap)
      → All (λ g. (g.start ≤ h) × (h ≤ g.stop) → Missing h heights) gaps
      → Named h gaps
      → Missing h heights
  Named-Missing h [] each n = absurd n
  Named-Missing h (g ∷ gaps) each (inl here) = each.0 here
  Named-Missing h (g ∷ gaps) each (inr later) = Named-Missing h gaps each.1 later

  not_stored : (h : ℕ) → ((x : ℕ) → Stored x heights → x ≢ h) → stored h heights ≡ false
  not_stored h never = elim (Bool-cases (stored h heights)) [
    | inl on ↦ absurd (never h ((stored_iff h heights).0 on) refl)
    | inr off ↦ off
  ]

  row-Missing :
      (h b next : ℕ)
      → Stored b heights
      → stored (b + 1) heights ≡ false
      → min_of (keep (λ k. ltb b k) heights) ≡ some next
      → ((gap (b + 1) (next - 1)).start ≤ h) × (h ≤ (gap (b + 1) (next - 1)).stop)
      → Missing h heights
  row-Missing h b next s free e inside =
      let (t, up, least) = above-next b next e in
      (
        not_stored h (λ x u same. absurd (omega (arith, least x u (omega arith)))),
        (next, t, omega arith),
      )

  -- The nearest stored height below a missing one has a row, and the row's gap holds it.
  gap_rows-Missing :
      (h x : ℕ) → Missing h heights → Stored x heights → x < h → Named h (gap_rows heights heights)
  gap_rows-Missing h x (off, (y, t, above)) s below =
      let (b, u, lower, last) = nearest heights h x s below in
      let free : stored (b + 1) heights ≡ false = not_stored (b + 1) (λ k v same.
        elim (Bool-cases (ltb k h)) [
          | inl l ↦ absurd (omega (arith, last k v (ltb→lt k h l)))
          | inr g ↦ absent h k heights off v (ground arith)
        ]) in
      elim (Option-cases (min_of (keep (λ k. ltb b k) heights))) [
        | inl e ↦ absurd (
            min_of-none (keep (λ k. ltb b k) heights) e y
              ((Stored-keep (λ k. ltb b k) y heights).1 (t, lt→ltb b y (omega arith))))
        | inr (next, e) ↦
            let (v, up, least) = above-next b next e in
            let past : h < next = elim (Bool-cases (ltb next h)) [
              | inl l ↦ absurd (omega (arith, last next v (ltb→lt next h l)))
              | inr g ↦ ground (arith, absent h next heights off v)
            ] in
            Any-map (λ g same. inside g next same past lower) (gap_rows heights heights)
              (gap_rows-has heights heights b next u free e)
      ]
    where
      inside :
          {b : ℕ} (g : Gap) (next : ℕ)
          → g ≡ gap (b + 1) (next - 1)
          → h < next
          → b < h
          → (g.start ≤ h) × (h ≤ g.stop)
      inside g next same past lower = rw (same) (omega arith, omega arith)

  Named-append : (h : ℕ) (gs hs : List Gap) → Named h (gs ++ hs) ↔ (Named h gs ⊎ Named h hs)
  Named-append h [] hs = (λ n. inr n, elim [ inl e ↦ absurd e | inr n ↦ n ])
  Named-append h (g ∷ gs) hs =
      let rest = Named-append h gs hs in
      (
        elim [
          | inl here ↦ inl (inl here)
          | inr later ↦ elim (rest.0 later) [ inl n ↦ inl (inr n) | inr n ↦ inr n ]
        ],
        elim [
          | inl (inl here) ↦ inl here
          | inl (inr n) ↦ inr (rest.1 (inl n))
          | inr n ↦ inr (rest.1 (inr n))
        ],
      )

  Named-initial : (h first : ℕ) → Named h (initial_gap first) ↔ (h < first)
  Named-initial h zero = (λ n. absurd n, λ l. absurd (omega arith))
  Named-initial h (suc n) =
      let positive : (suc n == 0) ≡ false = ground arith in
      rw (positive)
        (elim [ inl p ↦ omega arith | inr e ↦ absurd e ], λ l. inl (omega arith, omega arith))

  -- The gaps before and between the stored heights are the missing heights below the last one.
  gaps-Missing :
      (h first : ℕ)
      → min_of heights ≡ some first
      → Named h (initial_gap first ++ gap_rows heights heights) ↔ Missing h heights
  gaps-Missing h first e =
      let (s, least) = min_of-some heights first e in
      let parts = Named-append h (initial_gap first) (gap_rows heights heights) in
      let start = Named-initial h first in
      (
        λ n. elim (parts.0 n) [
          | inl before ↦
              let below = start.0 before in
              (not_stored h (λ x u same. absurd (omega (arith, least x u))), (first, s, below))
          | inr row ↦
              Named-Missing h (gap_rows heights heights)
                (gap_rows-only heights heights
                  (λ g. (g.start ≤ h) × (h ≤ g.stop) → Missing h heights)
                  (λ b next u free f inside. row-Missing h b next u free f inside))
                row
        ],
        λ m. parts.1 (elim (Bool-cases (ltb h first)) [
          | inl before ↦ inl (start.1 (ltb→lt h first before))
          | inr after ↦
              inr (gap_rows-Missing h first m s (ground (arith, absent h first heights m.0 s)))
        ]),
      )

-- The gaps to backfill are those of the missing heights, then those that MissingHeightsToGaps makes
-- of the heights below the validation level; the first ones name exactly the heights that are not
-- stored and lie below a stored one.
pub retrieve_gaps_in_data-Missing :
    (rows : List HeaderRow) (gaps_error heights_error : Option String) (level : ℤ) (gaps : List Gap)
    → retrieve_gaps_in_data rows gaps_error heights_error level ≡ ok gaps
    → (missing : List Gap) × (gaps
        ≡ missing ++ missing_heights_to_gaps (under_validated level rows))
      × ((h : ℕ) → Named h missing ↔ Missing h (heights_of rows))
unfolding retrieve_gaps_in_data retrieve_first_block_number
retrieve_gaps_in_data-Missing rows (some e) heights_error level gaps h =
    elim (Option-cases (min_of (heights_of rows))) [
      | inl none_there ↦ cc (rw none_there at h)
      | inr (first, there) ↦ cc (rw there at h)
    ]
retrieve_gaps_in_data-Missing rows none (some e) level gaps h =
    elim (Option-cases (min_of (heights_of rows))) [
      | inl none_there ↦ cc (rw none_there at h)
      | inr (first, there) ↦ cc (rw there at h)
    ]
retrieve_gaps_in_data-Missing rows none none level gaps h =
    elim (Option-cases (min_of (heights_of rows))) [
      | inl none_there ↦ cc (rw none_there at h)
      | inr (first, there) ↦
          let heights = heights_of rows in
          let missing = initial_gap first ++ gap_rows heights heights in
          let same : missing ++ missing_heights_to_gaps (under_validated level rows) ≡ gaps =
            cc (rw there at h) in
          (missing, sym same, λ k. gaps-Missing heights k first there)
    ]
