-- ===== src/Heights/Gaps.antt =====
-- MissingHeightsToGaps
use vulcanize_db.Prelude.{
  ℕ, ◌+◌, ◌-◌, ◌%◌, ◌≤◌, ◌<◌, ◌≡◌, ◌≢◌, refl, List, [], ◌∷◌, ◌++◌, arith, length, interval, nat_beq,
  Bool-cases, inl, inr, true, false, ap, ◌∙◌, interval-append,
}
use mathlib.Core.List.{append_assoc}
use native.Mathlib.Nat.{le_refl}
use vulcanize_db.Heights.{u64, Gap, gap, gaps_loop, missing_heights_to_gaps}

-- The heights that a list of gaps names.
abbrev pub expand : List Gap → List ℕ
expand [] = []
expand (g ∷ gs) = interval g.start (g.stop + 1 - g.start) ++ expand gs

-- Each height is above the one before it and below 2 ^ 64.
abbrev pub Ascends : ℕ → List ℕ → Type 0
Ascends low [] = Unit
Ascends low (h ∷ hs) = (low < h) × (h < u64) × Ascends h hs

gaps_loop-run :
    (total i start last height : ℕ) (rest : List ℕ)
    → nat_beq height ((last + 1) % u64) ≡ true
    → nat_beq (i + 2) total ≡ false
    → gaps_loop total i start last (height ∷ rest) ≡ gaps_loop total (i + 1) start height rest
unfolding gaps_loop
gaps_loop-run total i start last height rest same more = rw (same, more)

gaps_loop-break :
    (total i start last height : ℕ) (rest : List ℕ)
    → nat_beq height ((last + 1) % u64) ≡ false
    → nat_beq (i + 2) total ≡ false
    → gaps_loop total i start last (height ∷ rest)
      ≡ gap start last ∷ gaps_loop total (i + 1) height height rest
unfolding gaps_loop
gaps_loop-break total i start last height rest jump more = rw (jump, more)

interval-one : (h : ℕ) → interval h (h + 1 - h) ≡ h ∷ []
interval-one h = let e : h + 1 - h ≡ 1 = omega arith in rw e refl

-- A run grows by the height after its last one.
interval-grow :
    (start last h : ℕ) (ys : List ℕ)
    → start ≤ last
    → h ≡ last + 1
    → interval start (h + 1 - start) ++ ys ≡ interval start (last + 1 - start) ++ h ∷ ys
interval-grow start last h ys le e =
    let n : h + 1 - start ≡ last + 1 - start + 1 = omega arith in
    let m : start + (last + 1 - start) ≡ h = omega arith in
    rw (n, ← interval-append start (last + 1 - start) 1, m) (append_assoc _ (h ∷ []) ys)

-- What the loop still has to report: the open run, and the heights that are left.
gaps_loop-expand :
    (total i start last height : ℕ) (rest : List ℕ)
    → start ≤ last
    → last < u64
    → Ascends last (height ∷ rest)
    → i + 2 + length rest ≡ total
    → expand (gaps_loop total i start last (height ∷ rest))
      ≡ interval start (last + 1 - start) ++ height ∷ rest
unfolding gaps_loop
gaps_loop-expand total i start last height [] h l a e =
    let done : nat_beq (i + 2) total ≡ true = ground arith in
    elim (Bool-cases (nat_beq height ((last + 1) % u64))) [
      | inl same ↦ rw (same, done) (interval-grow start last height [] h (ground arith))
      | inr jump ↦ rw (jump, done) (rw interval-one refl)
    ]
gaps_loop-expand total i start last height (next ∷ rest) h l a e =
    let more : nat_beq (i + 2) total ≡ false = ground arith in
    elim (Bool-cases (nat_beq height ((last + 1) % u64))) [
      | inl same ↦
          let up : height ≡ last + 1 = ground arith in
          ap expand (gaps_loop-run total i start last height (next ∷ rest) same more)
          ∙ gaps_loop-expand total (i + 1) start height next rest (omega arith) a.1 a.2
              (omega arith)
          ∙ interval-grow start last height (next ∷ rest) h up
      | inr jump ↦
          ap expand (gaps_loop-break total i start last height (next ∷ rest) jump more)
          ∙ ap (◌++◌ (interval start (last + 1 - start))) (
              gaps_loop-expand total (i + 1) height height next rest (le_refl height) a.1 a.2
                (omega arith)
              ∙ rw interval-one refl)
    ]

-- The gaps of two or more ascending heights name exactly those heights, in order.
pub expand-missing_heights_to_gaps :
    (first second : ℕ) (rest : List ℕ)
    → first < u64
    → Ascends first (second ∷ rest)
    → expand (missing_heights_to_gaps (first ∷ second ∷ rest)) ≡ first ∷ second ∷ rest
unfolding missing_heights_to_gaps
expand-missing_heights_to_gaps first second rest l a =
    gaps_loop-expand (length (first ∷ second ∷ rest)) 0 first first second rest (le_refl first) l a
      (omega arith)
    ∙ rw interval-one refl

-- A single missing height is lost: it yields no gap at all.
missing_heights_to_gaps-single :
    (height : ℕ) → expand (missing_heights_to_gaps (height ∷ [])) ≢ height ∷ []
unfolding missing_heights_to_gaps gaps_loop
missing_heights_to_gaps-single height e = cc
