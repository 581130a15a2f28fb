-- ===== src/Heights/Bins.antt =====
-- GetBlockHeightBins
use vulcanize_db.Prelude.{
  ℕ, zero, suc, ◌+◌, ◌-◌, ◌*◌, ◌%◌, ◌≤◌, ◌<◌, ◌≡◌, refl, List, [], ◌∷◌, ◌++◌, arith, length, All,
  interval, concat, interval-append, length-interval, Bool-cases, inl, inr, leb, ltb, true, ap, ◌∙◌,
  nat_beq, false,
}
use Prim.Native.Nat.{min}
use mathlib.Core.List.{append-nil}
use vulcanize_db.Heights.{
  u64, ok, err, ending_before_starting, zero_batch_size, height_range, bins_from, number_of_bins,
  get_block_height_bins,
}

height_range-eq-interval :
    (fuel j ending : ℕ)
    → j + fuel < u64
    → ending < u64
    → height_range fuel j (j + fuel) ending ≡ interval j (min fuel (ending + 1 - j))
unfolding height_range
height_range-eq-interval zero j ending h k = ground arith
height_range-eq-interval (suc fuel) j ending h k = elim (Bool-cases (leb j ending)) [
  | inl within ↦
      let n : min (suc fuel) (ending + 1 - j) ≡ suc (min fuel (ending + 1 - (j + 1))) =
        ground arith in
      let w : (j + 1) % u64 ≡ j + 1 = omega arith in
      let t : ltb j (j + suc fuel) ≡ true = ground arith in
      let s : j + suc fuel ≡ j + 1 + fuel = omega arith in
      rw (n, t, within, w, s)
        (ap (◌∷◌ j) (height_range-eq-interval fuel (j + 1) ending (omega arith) k))
  | inr past ↦
      let n : min (suc fuel) (ending + 1 - j) ≡ 0 = ground arith in
      let t : ltb j (j + suc fuel) ≡ true = ground arith in rw (n, t, past) refl
]

number_of_bins_bounds :
    (len batch : ℕ)
    → 0 < len
    → 0 < batch
    → len + batch < u64
    → (len ≤ number_of_bins len batch * batch) × (number_of_bins len batch * batch < len + batch)
unfolding number_of_bins
number_of_bins_bounds len batch h k l = grind arith

-- Two neighbouring pieces of a clipped interval.
join_intervals :
    (n starting ending batch : ℕ)
    → interval starting (min batch (ending + 1 - starting))
        ++ interval (starting + batch) (min (n * batch) (ending + 1 - (starting + batch)))
      ≡ interval starting (min (suc n * batch) (ending + 1 - starting))
join_intervals n starting ending batch = elim (Bool-cases (leb batch (ending + 1 - starting))) [
  | inl fits ↦
      let e : min batch (ending + 1 - starting) ≡ batch = ground arith in
      let f : batch + min (n * batch) (ending + 1 - (starting + batch))
          ≡ min (suc n * batch) (ending + 1 - starting) =
        ground arith in
      rw e (interval-append starting batch _ ∙ ap (interval starting) f)
  | inr short ↦
      let e : min (n * batch) (ending + 1 - (starting + batch)) ≡ 0 = ground arith in
      let f : min batch (ending + 1 - starting) ≡ min (suc n * batch) (ending + 1 - starting) =
        ground arith in
      rw (e, f) (append-nil _)
]

bins_from-concat :
    (n starting ending batch : ℕ)
    → starting + n * batch < u64
    → ending < u64
    → concat (bins_from n starting ending batch)
      ≡ interval starting (min (n * batch) (ending + 1 - starting))
unfolding bins_from
bins_from-concat zero starting ending batch h k =
    let e : min (0 * batch) (ending + 1 - starting) ≡ 0 = omega arith in rw e refl
bins_from-concat (suc n) starting ending batch h k =
    let w : (starting + batch) % u64 ≡ starting + batch = grind arith in
    let d : starting + batch - starting ≡ batch = omega arith in
    rw (w, d)
      (rw
        (
          height_range-eq-interval batch starting ending (grind arith) k,
          bins_from-concat n (starting + batch) ending batch (grind arith) k,
        )
        (join_intervals n starting ending batch))

bins_from-sizes :
    (n starting ending batch : ℕ)
    → 0 < batch
    → starting + n * batch < u64
    → ending < u64
    → starting + n * batch < ending + 1 + batch
    → All (λ bin. (0 < length bin) × (length bin ≤ batch)) (bins_from n starting ending batch)
unfolding bins_from
bins_from-sizes zero starting ending batch p h k l = tt
bins_from-sizes (suc n) starting ending batch p h k l =
    let w : (starting + batch) % u64 ≡ starting + batch = grind arith in
    let d : starting + batch - starting ≡ batch = omega arith in
    rw (w, d)
      (rw
        (
          height_range-eq-interval batch starting ending (grind arith) k,
          length-interval starting (min batch (ending + 1 - starting)),
        )
        (
          (grind arith, omega arith),
          bins_from-sizes n (starting + batch) ending batch p (grind arith) k (grind arith),
        ))

-- A range that ends within a batch of 2 ^ 64 is split without loss: the bins are the heights from
-- starting to ending in order, each bin holds a height and none holds more than the batch size.
pub get_block_height_bins-covers :
    (starting ending batch : ℕ)
    → starting ≤ ending
    → 0 < batch
    → ending + batch + 1 < u64
    → (bins : List (List ℕ)) × (get_block_height_bins starting ending batch ≡ ok bins)
      × (concat bins ≡ interval starting (ending + 1 - starting))
      × All (λ bin. (0 < length bin) × (length bin ≤ batch)) bins
unfolding get_block_height_bins
get_block_height_bins-covers starting ending batch h p l =
    let len : ℕ = ending - starting + 1 in
    let n = number_of_bins len batch in
    let b = number_of_bins_bounds len batch (omega arith) p (omega arith) in
    let e : min (n * batch) (ending + 1 - starting) ≡ ending + 1 - starting = omega arith in
    let w : (ending - starting + 1) % u64 ≡ len = omega arith in
    (
      bins_from n starting ending batch,
      rw w (ground arith),
      bins_from-concat n starting ending batch (omega arith) (omega arith)
          ∙ ap (interval starting) e,
      bins_from-sizes n starting ending batch p (omega arith) (omega arith) (omega arith),
    )

-- The two refusals: an ending block below the starting one, then a batch size of zero.
pub get_block_height_bins-refuses :
    (starting ending batch : ℕ)
    → ((ending < starting)
        → get_block_height_bins starting ending batch ≡ err ending_before_starting)
      × ((starting ≤ ending)
          → (batch ≡ 0)
          → get_block_height_bins starting ending batch ≡ err zero_batch_size)
unfolding get_block_height_bins
get_block_height_bins-refuses starting ending batch = (λ h. ground arith, λ h e. ground arith)

number_of_bins-one : (len batch : ℕ) → 0 < len → len ≤ batch → number_of_bins len batch ≡ 1
unfolding number_of_bins
number_of_bins-one len batch h k = grind arith

-- At the top of the range the sum wraps: a last bin that would cross 2 ^ 64 is left empty.
get_block_height_bins-wraps :
    (starting ending batch : ℕ)
    → starting ≤ ending
    → ending < u64
    → 0 < starting
    → ending - starting < batch
    → batch < u64
    → u64 ≤ starting + batch
    → get_block_height_bins starting ending batch ≡ ok ([] ∷ [])
unfolding get_block_height_bins
get_block_height_bins-wraps starting ending batch h k z l m o =
    let n : number_of_bins ((ending - starting + 1) % u64) batch ≡ 1 =
      number_of_bins-one _ batch (omega arith) (omega arith) in
    let d : (starting + batch) % u64 - starting ≡ 0 = omega arith in
    let t : ltb ending starting ≡ false = ground arith in
    let b : nat_beq batch 0 ≡ false = ground arith in
    rw (t, b, n) (unfold height_range in rw d refl)
