-- ===== src/Eth/Retriever/Gaps/Rows.antt =====
-- The rows of the query for gaps of pkg/super_node/eth/cid_retriever.go.
use vulcanize_db.Prelude.{
  keep, ℕ, zero, suc, ◌+◌, ◌-◌, ◌≤◌, ◌<◌, ◌≡◌, ◌≢◌, refl, sym, subst, ◌↔◌, inl, inr, Bool, true,
  false, ◌||◌, List, [], ◌∷◌, Option, none, some, Option-cases, Bool-cases, if◌then◌else◌, ltb,
  ltb→lt, nat_eq, nat_beq_iff, any_of_iff, Any, All, arith,
}
use vulcanize_db.Heights.{Gap, gap}
use vulcanize_db.Eth.Retriever.Gaps.{min_of, stored, with_row, gap_rows}

-- The height is in the list.
abbrev pub Stored : ℕ → List ℕ → Type 0
Stored h heights = Any (λ x. x ≡ h) heights

pub stored_iff : (h : ℕ) (heights : List ℕ) → (stored h heights ≡ true) ↔ Stored h heights
stored_iff h heights = any_of_iff _ (λ x. nat_beq_iff x h) heights

module _ (p : ℕ → Bool) where
  pub Stored-keep :
      (h : ℕ) (heights : List ℕ) → Stored h (keep p heights) ↔ (Stored h heights × (p h ≡ true))
  Stored-keep h [] = (λ e. absurd e, λ e. absurd e.0)
  Stored-keep h (x ∷ xs) =
      let rest = Stored-keep h xs in
      elim (Bool-cases (p x)) [
        | inl yes_p ↦ rw (yes_p) (
          elim [ inl e ↦ (inl e, rw (← e) yes_p) | inr s ↦ (inr (rest.0 s).0, (rest.0 s).1) ],
          λ s. elim s.0 [ inl e ↦ inl e | inr later ↦ inr (rest.1 (later, s.1)) ],
        )
        | inr not_p ↦ rw (not_p) (
          λ s. (inr (rest.0 s).0, (rest.0 s).1),
          λ s. elim s.0 [
            | inl e ↦ let off : p h ≡ false = rw (← e) not_p in let on = s.1 in cc
            | inr later ↦ rest.1 (later, s.1)
          ],
        )
      ]

pub min_of-none : (heights : List ℕ) → min_of heights ≡ none → (x : ℕ) → Stored x heights → ⊥
unfolding min_of
min_of-none [] h x s = s
min_of-none (y ∷ ys) h x s = cc

pub absent : (h x : ℕ) (heights : List ℕ) → stored h heights ≡ false → Stored x heights → x ≢ h
absent h x heights off s e = let on = (stored_iff h heights).1 (rw (← e) s) in cc

pub min_of-some :
    (heights : List ℕ) (m : ℕ)
    → min_of heights ≡ some m
    → Stored m heights × ((x : ℕ) → Stored x heights → m ≤ x)
unfolding min_of
min_of-some [] m h = cc
min_of-some (x ∷ xs) m h = elim (Option-cases (min_of xs)) [
  | inl e ↦
      let same : x ≡ m = cc (rw e at h) in
      (
        inl same,
        λ y. elim [ inl first ↦ omega arith | inr later ↦ absurd (min_of-none xs e y later) ],
      )
  | inr (n, e) ↦
      let rest = min_of-some xs n e in
      let same : (if ltb x n then x else n) ≡ m = cc (rw e at h) in
      elim (Bool-cases (ltb x n)) [
        | inl less ↦
            let m_is : x ≡ m = rw (less) at same in
            let small = ltb→lt x n less in
            (
              inl m_is,
              λ y. elim [ inl first ↦ omega arith | inr later ↦ omega (arith, rest.1 y later) ],
            )
        | inr more ↦
            let m_is : n ≡ m = rw (more) at same in
            let large : n ≤ x = ground arith in
            (
              inr (subst (λ k. Stored k xs) m_is rest.0),
              λ y. elim [ inl first ↦ omega arith | inr later ↦ omega (arith, rest.1 y later) ],
            )
      ]
]

-- The nearest stored height below `h`.
pub nearest :
    (heights : List ℕ) (h : ℕ) (x : ℕ)
    → Stored x heights
    → x < h
    → (b : ℕ) × Stored b heights × (b < h) × ((y : ℕ) → Stored y heights → y < h → y ≤ b)
nearest heights zero x s lt = absurd (omega arith)
nearest heights (suc k) x s lt = elim (Bool-cases (stored k heights)) [
  | inl here ↦ (k, (stored_iff k heights).0 here, omega arith, λ y t below. omega arith)
  | inr not_here ↦
      let ne = λ (y : ℕ) (t : Stored y heights). absent k y heights not_here t in
      let (b, t, below, last) = nearest heights k x s (omega (arith, ne x s)) in
      (b, t, omega arith, λ y u l. last y u (omega (arith, ne y u)))
]

pub Any-later :
    (P : Gap → Type 0) (skip : Bool) (b : ℕ) (next : Option ℕ) (later : List Gap)
    → Any P later
    → Any P (if skip then later else with_row b next later)
Any-later P true b next later h = h
Any-later P false b none later h = h
Any-later P false b (some next) later h = inr h

-- The query's row for a stored height without a successor.
pub gap_rows-has :
    (all heights : List ℕ) (b next : ℕ)
    → Stored b heights
    → stored (b + 1) all ≡ false
    → min_of (keep (λ h. ltb b h) all) ≡ some next
    → Any (λ g. g ≡ gap (b + 1) (next - 1)) (gap_rows all heights)
unfolding gap_rows
gap_rows-has all [] b next s free e = absurd s
gap_rows-has all (x ∷ rest) b next s free e = elim (Bool-cases (stored b rest)) [
  | inl again ↦
      Any-later (λ g. g ≡ gap (b + 1) (next - 1)) (stored x rest || stored (x + 1) all) x
        (min_of (keep (λ h. ltb x h) all)) (gap_rows all rest)
        (gap_rows-has all rest b next ((stored_iff b rest).0 again) free e)
  | inr last ↦ elim s [
    | inl same ↦
        subst (λ k. Any (λ g. g ≡ gap (k + 1) (next - 1)) (gap_rows all (x ∷ rest))) same
          (own (subst (λ k. stored k rest ≡ false) (sym same) last)
            (subst (λ k. stored (k + 1) all ≡ false) (sym same) free)
            (subst (λ k. min_of (keep (λ h. ltb k h) all) ≡ some next) (sym same) e))
    | inr more ↦ let on = (stored_iff b rest).1 more in cc
  ]
]
  where
    own :
        stored x rest ≡ false
        → stored (x + 1) all ≡ false
        → min_of (keep (λ h. ltb x h) all) ≡ some next
        → Any (λ g. g ≡ gap (x + 1) (next - 1)) (gap_rows all (x ∷ rest))
    own last free e = rw (last, free, e) (inl refl)

-- Each row of the query is one for a stored height.
pub gap_rows-only :
    (all heights : List ℕ) (P : Gap → Type 0)
    → ((b next : ℕ)
        → Stored b heights
        → stored (b + 1) all ≡ false
        → min_of (keep (λ h. ltb b h) all) ≡ some next
        → P (gap (b + 1) (next - 1)))
    → All P (gap_rows all heights)
unfolding gap_rows
gap_rows-only all [] P each = tt
gap_rows-only all (x ∷ rest) P each =
    let later = gap_rows-only all rest P (λ b next s. each b next (inr s)) in
    elim (Bool-cases (stored x rest || stored (x + 1) all)) [
      | inl skip ↦ rw (skip) later
      | inr one ↦ elim (Option-cases (min_of (keep (λ h. ltb x h) all))) [
        | inl e ↦ rw (one, e) later
        | inr (next, e) ↦ rw (one, e) (each x next (inl refl) (ground arith) e, later)
      ]
    ]
