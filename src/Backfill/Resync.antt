-- ===== src/Backfill/Resync.antt =====
-- Resync: what happens before a height is sent, and which heights are sent.
use vulcanize_db.Prelude.{
  ℕ, ◌+◌, ◌-◌, ◌<◌, ◌≡◌, ◌≢◌, refl, sym, ap, ◌∙◌, subst, ◌⊎◌, inl, inr, List, [], ◌∷◌, ◌++◌, All,
  concat, interval, if◌then◌else◌, ltb, Bool-cases, arith,
}
use vulcanize_db.Go.{Result, ok, err, panic}
use vulcanize_db.Heights.{u64}
use vulcanize_db.Heights.Bins.{get_block_height_bins-covers}
use vulcanize_db.Sql.{Range}
use vulcanize_db.Backfill.{
  Cleaner, Settings, Outcome, send_ranges, resync, reset_if_asked, clean_if_asked, unless_failed,
  batch_size_or_default,
}
use vulcanize_db.Backfill.Heights.{
  IsBatch, All-append, concat_append, batch_size_or_default-positive,
}

-- The heights of the ranges, range by range; a range that ends before it starts has none.
abbrev pub heights_in : List Range → List ℕ
heights_in [] = []
heights_in (rng ∷ rngs) =
    (if ltb rng.upper rng.lower then [] else interval rng.lower (rng.upper + 1 - rng.lower))
    ++ heights_in rngs

module _ (batch : ℕ) (positive : 0 < batch) where
  send_ranges-heights_in :
      (rngs : List Range)
      → All (λ rng. rng.upper + batch + 1 < u64) rngs
      → ((send_ranges batch rngs).1 ≡ ok tt)
        × (concat (send_ranges batch rngs).0 ≡ heights_in rngs)
        × All (IsBatch batch) (send_ranges batch rngs).0
  unfolding send_ranges
  send_ranges-heights_in [] fits = (refl, refl, tt)
  send_ranges-heights_in (rng ∷ rngs) fits =
      let (done, covers, batches) = send_ranges-heights_in rngs fits.1 in
      elim (Bool-cases (ltb rng.upper rng.lower)) [
        | inl bad ↦ rw (bad) (done, covers, batches)
        | inr good ↦
            let (bins, e, whole, sizes) =
              get_block_height_bins-covers rng.lower rng.upper batch (ground arith) positive
                fits.0 in
            rw (good) rw (e) (
              done,
              concat_append bins (send_ranges batch rngs).0 ∙ rw (whole, covers) refl,
              All-append (IsBatch batch) bins (send_ranges batch rngs).0 sizes batches,
            )
      ]

unless_failed-cases :
    {Tables : Type 0} (db : Tables) (done : Result (Unit {0})) (next : Outcome Tables)
    → ((done ≡ ok tt) × (unless_failed db done next ≡ next))
      ⊎ ((done ≢ ok tt)
          × ((unless_failed db done next).result ≢ ok tt)
          × ((unless_failed db done next).sent ≡ []))
unless_failed-cases db panic next = inr (λ e. cc, λ e. cc, refl)
unless_failed-cases db (err e) next = inr (λ e. cc, λ e. cc, refl)
unless_failed-cases db (ok tt) next = inl (refl, refl)

-- When no range ends within a batch of 2 ^ 64: if the resetting and the cleaning that Resync was
-- asked for succeed, it sends exactly the heights of the ranges, in order, in batches that are
-- neither empty nor larger than the batch size, and succeeds; otherwise it fails and sends nothing.
pub resync-heights_in :
    {Tables : Type 0} (cleaner : Cleaner Tables) (settings : Settings) (db : Tables)
    → All (λ rng. rng.upper + batch_size_or_default settings.batch_size + 1 < u64) settings.ranges
    → let reset = reset_if_asked cleaner settings db in
      let cleaned = clean_if_asked cleaner settings reset.0 in
      let outcome = resync cleaner settings db in
      ((reset.1 ≡ ok tt)
        × (cleaned.1 ≡ ok tt)
        × (outcome.tables ≡ cleaned.0)
        × (outcome.result ≡ ok tt)
        × (concat outcome.sent ≡ heights_in settings.ranges)
        × All (IsBatch (batch_size_or_default settings.batch_size)) outcome.sent)
      ⊎ (((reset.1 ≢ ok tt) ⊎ (cleaned.1 ≢ ok tt)) × (outcome.result ≢ ok tt) × (outcome.sent ≡ []))
unfolding resync
resync-heights_in {Tables} cleaner settings db fits =
    let reset = reset_if_asked cleaner settings db in
    let cleaned = clean_if_asked cleaner settings reset.0 in
    let batch = batch_size_or_default settings.batch_size in
    let sending = send_ranges batch settings.ranges in
    let sent : Outcome Tables = record {
      tables = cleaned.0;
      sent = sending.0;
      result = sending.1;
    } in
    let (done, covers, batches) =
      send_ranges-heights_in batch (batch_size_or_default-positive settings.batch_size)
        settings.ranges fits in
    elim (unless_failed-cases reset.0 reset.1 (unless_failed cleaned.0 cleaned.1 sent)) [
      | inr (bad, failed, nothing) ↦ inr (inl bad, failed, nothing)
      | inl (good, same) ↦ elim (unless_failed-cases cleaned.0 cleaned.1 sent) [
        | inr (bad, failed, nothing) ↦ inr (
          inr bad,
          subst (λ o. o.result ≢ ok tt) (sym same) failed,
          subst (λ o. o.sent ≡ []) (sym same) nothing,
        )
        | inl (fine, next) ↦
            let all = same ∙ next in
            inl (
              good,
              fine,
              ap (λ o. o.tables) all,
              ap (λ o. o.result) all ∙ done,
              ap (λ o. concat o.sent) all ∙ covers,
              subst (λ o. All (IsBatch batch) o.sent) (sym all) batches,
            )
      ]
    ]
