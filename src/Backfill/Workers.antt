-- ===== src/Backfill/Workers.antt =====
-- What the workers of the backfiller and of the resync publish and index.
use vulcanize_db.Prelude.{
  ℕ, ◌≡◌, refl, ap, ◌∙◌, Bool, true, false, List, [], ◌∷◌, ◌++◌, map, keep, Option, none, some,
  if◌then◌else◌,
}
use vulcanize_db.Go.{ok}
use vulcanize_db.Backfill.{
  Pipeline, Event, forwarded, published, indexed, index_published, backfill_payload,
  backfill_payloads, backfill_section, resync_payload, resync_payloads, resync_section,
}

abbrev pub is_present : {A : Type 0} → Option A → Bool
is_present none = false
is_present (some a) = true

-- What the events forward, publish and index.
module _ {Payload Cids : Type 0} where
  abbrev pub forwards : List (Event Payload Cids) → List (Option Payload)
  forwards [] = []
  forwards (forwarded payload ∷ rest) = payload ∷ forwards rest
  forwards (published payload ∷ rest) = forwards rest
  forwards (indexed cids ∷ rest) = forwards rest

  abbrev pub publications : List (Event Payload Cids) → List (Option Payload)
  publications [] = []
  publications (forwarded payload ∷ rest) = publications rest
  publications (published payload ∷ rest) = payload ∷ publications rest
  publications (indexed cids ∷ rest) = publications rest

  abbrev pub indexings : List (Event Payload Cids) → List (Option Cids)
  indexings [] = []
  indexings (forwarded payload ∷ rest) = indexings rest
  indexings (published payload ∷ rest) = indexings rest
  indexings (indexed cids ∷ rest) = cids ∷ indexings rest

module _ {Raw Payload Cids : Type 0} (pipeline : Pipeline Raw Payload Cids) where
  abbrev pub publishing : Raw → Option Cids
  publishing raw = pipeline.publish (pipeline.convert raw)

  indexed_after :
      (cids : Option Cids) (rest : List (Event Payload Cids))
      → (forwards (index_published pipeline cids ++ rest) ≡ forwards rest)
        × (publications (index_published pipeline cids ++ rest) ≡ publications rest)
        × (indexings (index_published pipeline cids ++ rest)
            ≡ (if is_present cids then cids ∷ indexings rest else indexings rest))
  indexed_after none rest = (refl, refl, refl)
  indexed_after (some cids) rest = (refl, refl, refl)

  backfilled :
      (raws : List Raw)
      → (forwards (backfill_payloads pipeline raws) ≡ map pipeline.convert raws)
        × (publications (backfill_payloads pipeline raws) ≡ map pipeline.convert raws)
        × (indexings (backfill_payloads pipeline raws) ≡ keep is_present (map publishing raws))
  unfolding backfill_payloads backfill_payload
  backfilled [] = (refl, refl, refl)
  backfilled (raw ∷ rest) =
      let (f, p, i) = backfilled rest in
      let (f1, p1, i1) = indexed_after (publishing raw) (backfill_payloads pipeline rest) in
      (
        ap (λ xs. pipeline.convert raw ∷ xs) (f1 ∙ f),
        ap (λ xs. pipeline.convert raw ∷ xs) (p1 ∙ p),
        i1 ∙ ap (λ xs. if is_present (publishing raw) then publishing raw ∷ xs else xs) i,
      )

  resynced :
      (raws : List Raw)
      → (forwards (resync_payloads pipeline raws) ≡ [])
        × (publications (resync_payloads pipeline raws) ≡ map pipeline.convert raws)
        × (indexings (resync_payloads pipeline raws) ≡ map publishing raws)
  unfolding resync_payloads resync_payload
  resynced [] = (refl, refl, refl)
  resynced (raw ∷ rest) =
      let (f, p, i) = resynced rest in
      (f, ap (λ xs. pipeline.convert raw ∷ xs) p, ap (λ xs. publishing raw ∷ xs) i)

  pub backfill_section-resync_section :
      (height : ℕ) (heights : List ℕ)
      → let raws = pipeline.fetch_at (height ∷ heights) in
        (filled resynced : List (Event Payload Cids)) × (backfill_section pipeline
            (height ∷ heights)
          ≡ ok filled)
        × (resync_section pipeline (height ∷ heights) ≡ ok resynced)
        × (forwards filled ≡ map pipeline.convert raws)
        × (publications filled ≡ map pipeline.convert raws)
        × (publications resynced ≡ map pipeline.convert raws)
        × (indexings filled ≡ keep is_present (map publishing raws))
        × (indexings resynced ≡ map publishing raws)
  unfolding backfill_section resync_section
  backfill_section-resync_section height heights =
      let raws = pipeline.fetch_at (height ∷ heights) in
      let (f, p, i) = backfilled raws in
      let (f1, p1, i1) = resynced raws in
      (backfill_payloads pipeline raws, resync_payloads pipeline raws, refl, refl, f, p, p1, i, i1)
