-- ===== src/Backfill/Heights.antt =====
-- Which heights a round of the backfiller sends to the workers.
use vulcanize_db.Prelude.{
  ℕ, zero, suc, ◌+◌, ◌-◌, ◌≤◌, ◌<◌, ◌≡◌, refl, sym, subst, ◌⊎◌, inl, inr, List, [], ◌∷◌, ◌++◌, Any,
  All, concat, interval, length, Option, ◌==◌, nat_eq, Bool-cases, arith, String,
}
use mathlib.Core.List.{append_assoc}
use vulcanize_db.Prelude.Int.{ℤ}
use vulcanize_db.Go.{ok}
use vulcanize_db.Heights.{Gap, get_block_height_bins, u64}
use vulcanize_db.Heights.Bins.{get_block_height_bins-covers, get_block_height_bins-refuses}
use vulcanize_db.Eth.Retriever.Gaps.{HeaderRow, retrieve_gaps_in_data, heights_of}
use vulcanize_db.Eth.Retriever.Gaps.Missing.{Named, Missing, retrieve_gaps_in_data-Missing}
use vulcanize_db.Backfill.{batch_size_or_default, send_gaps, backfill_round, bins_or_none}

-- A height of a list.
abbrev pub Among : ℕ → List ℕ → Type 0
Among h heights = Any (λ x. x ≡ h) heights

-- A batch that the workers accept.
abbrev pub IsBatch : ℕ → List ℕ → Type 0
IsBatch batch bin = (0 < length bin) × (length bin ≤ batch)

Any-append : {A : Type 0} (P : A → Type 0) (xs ys : List A) → Any P xs ⊎ Any P ys → Any P (xs ++ ys)
Any-append P [] ys = elim [ inl a ↦ absurd a | inr b ↦ b ]
Any-append P (x ∷ xs) ys = elim [
  | inl a ↦ elim a [ inl here ↦ inl here | inr there ↦ inr (Any-append P xs ys (inl there)) ]
  | inr b ↦ inr (Any-append P xs ys (inr b))
]

pub All-append :
    {A : Type 0} (P : A → Type 0) (xs ys : List A) → All P xs → All P ys → All P (xs ++ ys)
All-append P [] ys a b = b
All-append P (x ∷ xs) ys a b = (a.0, All-append P xs ys a.1 b)

pub concat_append :
    {A : Type 0} (xss yss : List (List A)) → concat (xss ++ yss) ≡ concat xss ++ concat yss
concat_append [] yss = refl
concat_append (xs ∷ xss) yss =
    rw (concat_append xss yss) (sym (append_assoc xs (concat xss) (concat yss)))

Among-interval : (h a n : ℕ) → a ≤ h → h < a + n → Among h (interval a n)
Among-interval h a zero from below = absurd (omega (arith, from, below))
Among-interval h a (suc n) from below = elim (Bool-cases (a == h)) [
  | inl same ↦ inl (ground arith)
  | inr other ↦
      let next : a + 1 ≤ h = ground arith in inr (Among-interval h (a + 1) n next (omega arith))
]

pub batch_size_or_default-positive : (size : ℕ) → 0 < batch_size_or_default size
unfolding batch_size_or_default
batch_size_or_default-positive size = ground arith

module _ (batch : ℕ) (positive : 0 < batch) where
  -- The batches of a gap that is not empty.
  gap_bins :
      (g : Gap)
      → g.start ≤ g.stop
      → g.stop + batch + 1 < u64
      → (concat (bins_or_none (get_block_height_bins g.start g.stop batch))
          ≡ interval g.start (g.stop + 1 - g.start))
        × All (IsBatch batch) (bins_or_none (get_block_height_bins g.start g.stop batch))
  gap_bins g order fits =
      let (bins, e, covers, sizes) =
        get_block_height_bins-covers g.start g.stop batch order positive fits in
      rw (e) (covers, sizes)

  send_gaps-Named :
      (h : ℕ) (gaps : List Gap)
      → All (λ g. g.stop + batch + 1 < u64) gaps
      → Named h gaps
      → Among h (concat (send_gaps batch gaps))
  unfolding send_gaps
  send_gaps-Named h [] fits named = absurd named
  send_gaps-Named h (g ∷ gaps) fits named =
      rw
        (concat_append (bins_or_none (get_block_height_bins g.start g.stop batch))
          (send_gaps batch gaps))
        (Any-append (λ x. x ≡ h)
          (concat (bins_or_none (get_block_height_bins g.start g.stop batch)))
          (concat (send_gaps batch gaps))
          (elim named [
            | inl here ↦
                let order : g.start ≤ g.stop = omega (arith, here.0, here.1) in
                inl (
                  rw ((gap_bins g order fits.0).0) (
                    Among-interval h g.start (g.stop + 1 - g.start) here.0
                      (omega (arith, here.0, here.1))))
            | inr there ↦ inr (send_gaps-Named h gaps fits.1 there)
          ]))

  bins_IsBatch :
      (g : Gap)
      → g.stop + batch + 1 < u64
      → (g.start ≤ g.stop) ⊎ (g.stop < g.start)
      → All (IsBatch batch) (bins_or_none (get_block_height_bins g.start g.stop batch))
  bins_IsBatch g fits (inl order) = (gap_bins g order fits).1
  bins_IsBatch g fits (inr less) =
      rw ((get_block_height_bins-refuses g.start g.stop batch).0 less) tt

  send_gaps-IsBatch :
      (gaps : List Gap)
      → All (λ g. g.stop + batch + 1 < u64) gaps
      → All (IsBatch batch) (send_gaps batch gaps)
  unfolding send_gaps
  send_gaps-IsBatch [] fits = tt
  send_gaps-IsBatch (g ∷ gaps) fits =
      All-append (IsBatch batch) _ (send_gaps batch gaps)
        (bins_IsBatch g fits.0 (ordered g.start g.stop)) (send_gaps-IsBatch gaps fits.1)
    where
      ordered : (a b : ℕ) → (a ≤ b) ⊎ (b < a)
      ordered a b = omega arith

-- When the gaps are retrieved, and none ends within a batch of 2 ^ 64, a round of BackFill sends the
-- workers every height that is missing below the last stored one, in batches that are neither
-- empty nor larger than the batch size.
pub backfill_round-Missing :
    (rows : List HeaderRow) (gaps_error heights_error : Option String) (level : ℤ) (size : ℕ)
    (gaps : List Gap)
    → retrieve_gaps_in_data rows gaps_error heights_error level ≡ ok gaps
    → All (λ g. g.stop + batch_size_or_default size + 1 < u64) gaps
    → (bins : List (List ℕ)) × (backfill_round size
          (retrieve_gaps_in_data rows gaps_error heights_error level)
        ≡ ok bins)
      × ((h : ℕ) → Missing h (heights_of rows) → Among h (concat bins))
      × All (IsBatch (batch_size_or_default size)) bins
unfolding backfill_round
backfill_round-Missing rows gaps_error heights_error level size gaps found fits =
    let (missing, parts, named) =
      retrieve_gaps_in_data-Missing rows gaps_error heights_error level gaps found in
    let batch = batch_size_or_default size in
    let positive = batch_size_or_default-positive size in
    (
      send_gaps batch gaps,
      rw (found) refl,
      λ h lost.
          send_gaps-Named batch positive h gaps fits
            (subst (Named h) (sym parts) (Any-append _ missing _ (inl ((named h).1 lost)))),
      send_gaps-IsBatch batch positive gaps fits,
    )
