-- ===== src/Backfill/Tests.antt =====
-- A round that fills the hole at height 3, a section whose publication fails, and a resync of two
-- ranges with the ethereum cleaner.
use vulcanize_db.Prelude.{
  ℕ, ◌+◌, ◌<◌, ◌≡◌, ◌≢◌, refl, ◌⊎◌, true, List, [], ◌∷◌, map, keep, All, Option, none, some, concat,
  arith, ◌==◌, nat_eq, if◌then◌else◌,
}
use vulcanize_db.Prelude.Int.{pos}
use vulcanize_db.Go.{ok}
use vulcanize_db.Chain.{full}
use vulcanize_db.Heights.{gap, u64, missing_heights_to_gaps}
use vulcanize_db.Eth.Retriever.Gaps.{HeaderRow, retrieve_gaps_in_data, heights_of}
use vulcanize_db.Eth.Retriever.Gaps.Missing.{Missing}
use vulcanize_db.Eth.Cleaner.{Tables, Refusals, clean, reset_validation}
use vulcanize_db.Backfill.{
  backfill_round, batch_size_or_default, Pipeline, Event, forwarded, published, indexed,
  backfill_section, resync_section, Cleaner, Settings, resync, reset_if_asked, clean_if_asked,
}
use vulcanize_db.Backfill.Heights.{Among, IsBatch, backfill_round-Missing}
use vulcanize_db.Backfill.Workers.{
  is_present, forwards, publications, indexings, publishing, backfill_section-resync_section,
}
use vulcanize_db.Backfill.Resync.{heights_in, resync-heights_in}

abbrev table : List HeaderRow
table =
    record { block_number = 4; times_validated = pos 1 }
    ∷ record { block_number = 2; times_validated = pos 1 }
    ∷ []

retrieved_three : retrieve_gaps_in_data table none none (pos 1) ≡ ok (gap 0 1 ∷ gap 3 3 ∷ [])
unfolding retrieve_gaps_in_data missing_heights_to_gaps
retrieved_three = refl

small_gaps : All (λ g. g.stop + batch_size_or_default 2 + 1 < u64) (gap 0 1 ∷ gap 3 3 ∷ [])
unfolding batch_size_or_default
small_gaps = (omega arith, (omega arith, tt))

backfill_round-Missing_example :
    (bins : List (List ℕ)) × (backfill_round 2 (retrieve_gaps_in_data table none none (pos 1))
      ≡ ok bins)
    × ((h : ℕ) → Missing h (heights_of table) → Among h (concat bins))
    × All (IsBatch (batch_size_or_default 2)) bins
backfill_round-Missing_example =
    backfill_round-Missing table none none (pos 1) 2 (gap 0 1 ∷ gap 3 3 ∷ []) retrieved_three
      small_gaps

-- Even numbers cannot be published.
abbrev odd_only : Option ℕ → Option ℕ
odd_only none = none
odd_only (some n) = if n == 4 then none else some (n + 100)

abbrev pipeline : Pipeline ℕ ℕ ℕ
pipeline = record { fetch_at = λ heights. heights; convert = λ n. some (n + 1); publish = odd_only }

-- The resync indexes nil for the payload that is not published.
nil_indexed :
    (backfill_section pipeline (3 ∷ 6 ∷ [])
      ≡ ok (
          forwarded (some 4)
          ∷ published (some 4)
          ∷ forwarded (some 7)
          ∷ published (some 7)
          ∷ indexed (some 107)
          ∷ []))
    × (resync_section pipeline (3 ∷ 6 ∷ [])
        ≡ ok (published (some 4) ∷ indexed none ∷ published (some 7) ∷ indexed (some 107) ∷ []))
unfolding backfill_section resync_section
nil_indexed = (refl, refl)

backfill_section-resync_section_example :
    (filled resynced : List (Event ℕ ℕ)) × (backfill_section pipeline (3 ∷ 6 ∷ []) ≡ ok filled)
    × (resync_section pipeline (3 ∷ 6 ∷ []) ≡ ok resynced)
    × (forwards filled ≡ map pipeline.convert (3 ∷ 6 ∷ []))
    × (publications filled ≡ map pipeline.convert (3 ∷ 6 ∷ []))
    × (publications resynced ≡ map pipeline.convert (3 ∷ 6 ∷ []))
    × (indexings filled ≡ keep is_present (map (publishing pipeline) (3 ∷ 6 ∷ [])))
    × (indexings resynced ≡ map (publishing pipeline) (3 ∷ 6 ∷ []))
backfill_section-resync_section_example = backfill_section-resync_section pipeline 3 (6 ∷ [])

abbrev db : Tables
db = record {
  header_rows = record { id = pos 1; block_number = 5; cid = "h"; times_validated = pos 1 } ∷ [];
  uncle_rows = [];
  transaction_rows = [];
  receipt_rows = [];
  state_rows = [];
  storage_rows = [];
  account_rows = [];
  blocks = "h" ∷ [];
}

abbrev no_refusals : Refusals
no_refusals = record {
  on_begin = none;
  on_delete = λ _ _. none;
  on_reset = λ _. none;
  on_commit = none;
  on_vacuum = λ _. none;
}

abbrev cleaner : Cleaner Tables
cleaner = record { reset_validation = reset_validation no_refusals; clean = clean no_refusals }

abbrev settings : Settings
settings = record {
  batch_size = 2;
  ranges = record { lower = 5; upper = 7 } ∷ record { lower = 3; upper = 2 } ∷ [];
  resync_type = full;
  clear_old_cache = true;
  reset_validation_level = true;
}

small_ranges :
    All (λ rng. rng.upper + batch_size_or_default settings.batch_size + 1 < u64) settings.ranges
unfolding batch_size_or_default
small_ranges = (omega arith, (omega arith, tt))

resync-heights_in_example :
    let reset = reset_if_asked cleaner settings db in
    let cleaned = clean_if_asked cleaner settings reset.0 in
    let outcome = resync cleaner settings db in
    ((reset.1 ≡ ok tt)
      × (cleaned.1 ≡ ok tt)
      × (outcome.tables ≡ cleaned.0)
      × (outcome.result ≡ ok tt)
      × (concat outcome.sent ≡ heights_in settings.ranges)
      × All (IsBatch (batch_size_or_default settings.batch_size)) outcome.sent)
    ⊎ (((reset.1 ≢ ok tt) ⊎ (cleaned.1 ≢ ok tt)) × (outcome.result ≢ ok tt) × (outcome.sent ≡ []))
resync-heights_in_example = resync-heights_in cleaner settings db small_ranges
