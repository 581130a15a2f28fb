-- ===== src/Backfill.antt =====
-- pkg/super_node/backfiller.go and pkg/super_node/resync/service.go: which heights are sent to the
-- workers, and what a worker does with one message. The channel has no buffer and several readers, so
-- each batch is taken by one worker; the model has the batches in the order in which they are sent,
-- for a round that no quit signal ends. The fetcher, converter, publisher and indexer are a parameter;
-- what a call returns beside an error is there, since the code goes on with it.
pub mod Heights
pub mod Resync
pub mod Workers
pub mod Tests
use vulcanize_db.Prelude.{
  ℕ, ◌+◌, ◌-◌, String, Bool, true, false, List, [], ◌∷◌, ◌++◌, Option, none, some, ◌==◌, nat_eq,
  if◌then◌else◌, ltb, concat,
}
use vulcanize_db.Go.{Result, ok, err, panic, ◌>>=◌}
use vulcanize_db.Chain.{DataType}
use vulcanize_db.Heights.{Gap, BinError, BinResult, get_block_height_bins}
use vulcanize_db.Sql.{Range}

-- NewBackFillService and NewResyncService
abbrev pub default_max_batch_size : ℕ
default_max_batch_size = 100

pub batch_size_or_default : ℕ → ℕ
batch_size_or_default size = if size == 0 then default_max_batch_size else size

-- The batches of one gap; an error is logged.
abbrev pub bins_or_none : BinResult → List (List ℕ)
bins_or_none (BinResult.ok bins) = bins
bins_or_none (BinResult.err e) = []

pub send_gaps : ℕ → List Gap → List (List ℕ)
send_gaps batch [] = []
send_gaps batch (g ∷ gaps) =
    bins_or_none (get_block_height_bins g.start g.stop batch) ++ send_gaps batch gaps

-- One tick of BackFill: what is sent over heightsChan.
pub backfill_round : ℕ → Result (List Gap) → Result (List (List ℕ))
unfolding send_gaps batch_size_or_default
backfill_round size panic = panic
backfill_round size (err e) = ok []
backfill_round size (ok gaps) = ok (send_gaps (batch_size_or_default size) gaps)

-- A nil value is `none`, and so is what comes with an error.
pub record Pipeline (Raw Payload Cids : Type 0) : Type 0 where
  pub fetch_at : List ℕ → List Raw
  pub convert : Raw → Option Payload
  pub publish : Option Payload → Option Cids

pub data Event (Payload Cids : Type 0) : Type 0 where
  forwarded : Option Payload → Event Payload Cids
  published : Option Payload → Event Payload Cids
  indexed : Option Cids → Event Payload Cids

module _ {Raw Payload Cids : Type 0} (pipeline : Pipeline Raw Payload Cids) where
  open pipeline use {fetch_at, convert, publish}

  -- `continue` after an error of the publisher
  abbrev pub index_published : Option Cids → List (Event Payload Cids)
  index_published none = []
  index_published (some cids) = indexed (some cids) ∷ []

  pub backfill_payload : Raw → List (Event Payload Cids)
  backfill_payload raw =
      let payload = convert raw in
      forwarded payload ∷ published payload ∷ index_published (publish payload)

  pub backfill_payloads : List Raw → List (Event Payload Cids)
  unfolding backfill_payload
  backfill_payloads [] = []
  backfill_payloads (raw ∷ rest) = backfill_payload raw ++ backfill_payloads rest

  -- One message to the method backFill; `heights[0]` panics on an empty batch.
  pub backfill_section : List ℕ → Result (List (Event Payload Cids))
  unfolding backfill_payloads
  backfill_section [] = panic
  backfill_section (height ∷ rest) = ok (backfill_payloads (fetch_at (height ∷ rest)))

  pub resync_payload : Raw → List (Event Payload Cids)
  resync_payload raw =
      let payload = convert raw in published payload ∷ indexed (publish payload) ∷ []

  pub resync_payloads : List Raw → List (Event Payload Cids)
  unfolding resync_payload
  resync_payloads [] = []
  resync_payloads (raw ∷ rest) = resync_payload raw ++ resync_payloads rest

  -- One message to the method resync
  pub resync_section : List ℕ → Result (List (Event Payload Cids))
  unfolding resync_payloads
  resync_section [] = panic
  resync_section (height ∷ rest) = ok (resync_payloads (fetch_at (height ∷ rest)))

-- shared.Cleaner
pub record Cleaner (Tables : Type 0) : Type 0 where
  pub reset_validation : List Range → Tables → Tables × Result (Unit {0})
  pub clean : List Range → DataType → Tables → Tables × Result (Unit {0})

pub record Settings : Type 0 where
  pub batch_size : ℕ
  pub ranges : List Range
  pub resync_type : DataType
  pub clear_old_cache : Bool
  pub reset_validation_level : Bool

-- What is in the database, what is sent to the workers, and what Resync returns.
pub record Outcome (Tables : Type 0) : Type 0 where
  pub tables : Tables
  pub sent : List (List ℕ)
  pub result : Result (Unit {0})

abbrev pub bin_error : BinError → String
bin_error BinError.ending_before_starting =
    "backfill: ending block number needs to be greater than starting block number"
bin_error BinError.zero_batch_size = "backfill: batchsize needs to be greater than zero"

abbrev pub after_bins :
    BinResult → List (List ℕ) × Result (Unit {0}) → List (List ℕ) × Result (Unit {0})
after_bins (BinResult.ok bins) later = (bins ++ later.0, later.1)
after_bins (BinResult.err e) later = ([], err (bin_error e))

-- The loop over the ranges
pub send_ranges : ℕ → List Range → List (List ℕ) × Result (Unit {0})
send_ranges batch [] = ([], ok tt)
send_ranges batch (rng ∷ rngs) =
    let later = send_ranges batch rngs in
    if ltb rng.upper rng.lower
    then later
    else after_bins (get_block_height_bins rng.lower rng.upper batch) later

-- `if err := call; err != nil { return }`
abbrev pub unless_failed :
    {Tables : Type 0} → Tables → Result (Unit {0}) → Outcome Tables → Outcome Tables
unless_failed db panic next = record { tables = db; sent = []; result = panic }
unless_failed db (err e) next = record { tables = db; sent = []; result = err e }
unless_failed db (ok done) next = next

module _ {Tables : Type 0} (cleaner : Cleaner Tables) where
  abbrev pub reset_if_asked : Settings → Tables → Tables × Result (Unit {0})
  reset_if_asked settings db =
      if settings.reset_validation_level
      then cleaner.reset_validation settings.ranges db
      else (db, ok tt)

  abbrev pub clean_if_asked : Settings → Tables → Tables × Result (Unit {0})
  clean_if_asked settings db =
      if settings.clear_old_cache
      then cleaner.clean settings.ranges settings.resync_type db
      else (db, ok tt)

  pub resync : Settings → Tables → Outcome Tables
  unfolding send_ranges batch_size_or_default
  resync settings db =
      let reset = reset_if_asked settings db in
      let cleaned = clean_if_asked settings reset.0 in
      let sent = send_ranges (batch_size_or_default settings.batch_size) settings.ranges in
      unless_failed reset.0 reset.1 (
        unless_failed cleaned.0 cleaned.1
          (record { tables = cleaned.0; sent = sent.0; result = sent.1 }))
