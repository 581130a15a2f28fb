-- ===== src/Logs.antt =====
-- libraries/shared/chunker/log_chunker.go, logs/extractor.go, logs/delegator.go and
-- watcher/event_watcher.go: watched event logs on their way from the node, through the database,
-- to the transformers. The repositories, the fetcher, the syncer and the transformers are records
-- of calls, parameters; what a call has changed when it succeeds is an entry of a trace, so that
-- the trace of a run that fails tells what had been done by then. `to_lower` is strings.ToLower,
-- `hex_to_hash` and `hex_to_address` are common.HexToHash and common.HexToAddress.
pub mod Chunks
pub mod Extraction
pub mod Starting
pub mod Delegation
pub mod Tests
use vulcanize_db.Prelude.{
  ℕ, String, Bool, true, false, not, List, [], ◌∷◌, ◌++◌, map, Option, none, some, ◌==◌, nat_eq,
  string_eq, is_empty, if◌then◌else◌,
}
use vulcanize_db.Prelude.Int.{ℤ, pos, negsuc, ltb_ℤ}
use vulcanize_db.Prelude.Assoc.{find, insert}
use vulcanize_db.Go.{Result, ok, err, panic, ◌>>=◌}

pub record EventTransformerConfig : Type 0 where
  pub transformer_name : String
  pub contract_addresses : List String
  pub topic : String
  pub starting_block_number : ℤ

pub record HeaderSyncLog : Type 0 where
  pub id : ℕ
  pub address_hex : String
  pub topics : List ℕ

pub record LogChunker : Type 0 where
  pub address_to_names : List (String × List String)
  pub name_to_topic0 : List (String × ℕ)

abbrev pub Chunks : Type 0
Chunks = List (String × List HeaderSyncLog)

-- A missing key reads as Go's zero value.
abbrev pub list_or_nil {ℓ} : {A : Type ℓ} → Option (List A) → List A
list_or_nil none = []
list_or_nil (some xs) = xs

abbrev pub hash_or_zero : Option ℕ → ℕ
hash_or_zero none = 0
hash_or_zero (some h) = h

module _ (to_lower : String → String) (hex_to_hash : String → ℕ) where
  pub add_addresses : String → String → List String → LogChunker → LogChunker
  add_addresses name topic [] chunker = chunker
  add_addresses name topic (address ∷ rest) chunker =
      let lower = to_lower address in
      add_addresses name topic rest (record {
        address_to_names =
            insert lower (list_or_nil (find lower chunker.address_to_names) ++ name ∷ [])
              chunker.address_to_names;
        name_to_topic0 = insert name (hex_to_hash topic) chunker.name_to_topic0;
      })

  -- AddConfig
  pub add_config : LogChunker → EventTransformerConfig → LogChunker
  unfolding add_addresses
  add_config chunker config =
      add_addresses config.transformer_name config.topic config.contract_addresses chunker

-- `log.Log.Topics[0]` panics on a log without topics.
abbrev pub topic0 : List ℕ → Result ℕ
topic0 [] = panic
topic0 (first ∷ rest) = ok first

pub chunk_names : LogChunker → HeaderSyncLog → List String → Chunks → Result Chunks
chunk_names chunker log [] chunks = ok chunks
chunk_names chunker log (t ∷ rest) chunks = do
  topic ← topic0 log.topics
  chunk_names chunker log rest (
      if hash_or_zero (find t chunker.name_to_topic0) == topic
      then insert t (list_or_nil (find t chunks) ++ log ∷ []) chunks
      else chunks)

pub relevant : (String → String) → LogChunker → HeaderSyncLog → List String
relevant to_lower chunker log =
    list_or_nil (find (to_lower log.address_hex) chunker.address_to_names)

pub chunk_loop : (String → String) → LogChunker → List HeaderSyncLog → Chunks → Result Chunks
unfolding chunk_names relevant
chunk_loop to_lower chunker [] chunks = ok chunks
chunk_loop to_lower chunker (log ∷ rest) chunks = do
  more ← chunk_names chunker log (relevant to_lower chunker log) chunks
  chunk_loop to_lower chunker rest more

pub chunk_logs : (String → String) → LogChunker → List HeaderSyncLog → Result Chunks
unfolding chunk_loop
chunk_logs to_lower chunker logs = chunk_loop to_lower chunker logs []

pub record LogExtractor : Type 0 where
  pub addresses : List ℕ
  pub starting_block : Option ℤ
  pub topics : List ℕ

pub record CoreHeader : Type 0 where
  pub id : ℕ
  pub block_number : ℤ

-- What a successful call has changed in the database.
pub data Write : Type 0 where
  headers_unchecked : ℤ → Write
  log_watched : List String → String → Write
  transactions_synced : ℕ → List HeaderSyncLog → Write
  logs_created : ℕ → List HeaderSyncLog → Write
  header_checked : ℕ → Write

pub record Repositories : Type 0 where
  pub already_watching_log : List String → String → Result Bool
  pub mark_headers_unchecked : ℤ → Result (Unit {0})
  pub mark_log_watched : List String → String → Result (Unit {0})
  -- From a first to a last block, by check count.
  pub unchecked_headers : ℤ → ℤ → ℤ → Result (List CoreHeader)
  pub fetch_logs : List ℕ → List ℕ → CoreHeader → Result (List HeaderSyncLog)
  pub sync_transactions : ℕ → List HeaderSyncLog → Result (Unit {0})
  pub create_header_sync_logs : ℕ → List HeaderSyncLog → Result (Unit {0})
  pub mark_header_checked : ℕ → Result (Unit {0})

-- A run: the writes that were done, and how it ended.
pub record Run (A : Type 0) : Type 0 where
  pub writes : List Write
  pub result : Result A

abbrev pub run : {A : Type 0} → List Write → Result A → Run A
run ws r = record { writes = ws; result = r }

infixl 5 ◌then_run◌
-- Go on only after a success; the writes add up.
abbrev pub ◌then_run◌ : {A B : Type 0} → Run A → (A → Run B) → Run B
first then_run next = elim first.result [
  | panic ↦ run first.writes panic
  | err e ↦ run first.writes (err e)
  | ok a ↦ run (first.writes ++ (next a).writes) (next a).result
]

-- A call that writes if it succeeds.
abbrev pub writing : {A : Type 0} → Result A → Write → Run A
writing panic w = run [] panic
writing (err e) w = run [] (err e)
writing (ok a) w = run (w ∷ []) (ok a)

abbrev pub reading : {A : Type 0} → Result A → Run A
reading call = run [] call

abbrev pub err_no_unchecked_headers : String
err_no_unchecked_headers = "no unchecked headers available for log fetching"

abbrev pub err_no_watched_addresses : String
err_no_watched_addresses = "no watched addresses configured in the log extractor"

abbrev pub err_no_logs : String
err_no_logs = "no logs available for transforming"

abbrev pub err_no_transformers : String
err_no_transformers = "no event transformers configured in the log delegator"

pub earlier_starting_block_number : ℤ → ℤ → Bool
earlier_starting_block_number transformer_block watcher_block =
    ltb_ℤ transformer_block watcher_block

-- `true` is HeaderRecheck, with RecheckHeaderCap.
pub get_check_count : Bool → ℤ
get_check_count recheck_headers = if not recheck_headers then pos 1 else pos 5

pub earliest : ℤ → Option ℤ → ℤ
unfolding earlier_starting_block_number
earliest block none = block
earliest block (some watched) =
    if earlier_starting_block_number block watched then block else watched

module _ (db : Repositories) where
  open db use {
    already_watching_log, mark_headers_unchecked, mark_log_watched, unchecked_headers, fetch_logs,
    sync_transactions, create_header_sync_logs, mark_header_checked,
  }

  pub update_checked_headers : EventTransformerConfig → Run (Unit {0})
  update_checked_headers config =
      reading (already_watching_log config.contract_addresses config.topic) then_run λ already.
      if not already
      then writing (mark_headers_unchecked config.starting_block_number)
          (headers_unchecked config.starting_block_number)
        then_run (λ _.
            writing (mark_log_watched config.contract_addresses config.topic)
              (log_watched config.contract_addresses config.topic))
      else run [] (ok tt)

  pub add_transformer_config :
      (String → ℕ) → (String → ℕ) → LogExtractor → EventTransformerConfig → Run LogExtractor
  unfolding update_checked_headers earliest
  add_transformer_config hex_to_hash hex_to_address extractor config =
      update_checked_headers config then_run λ _. run [] (
        ok (record {
          addresses = extractor.addresses ++ map hex_to_address config.contract_addresses;
          starting_block = some (earliest config.starting_block_number extractor.starting_block);
          topics = extractor.topics ++ hex_to_hash config.topic ∷ [];
        }))

  -- One header: the transactions and the logs first, the mark last.
  pub extract_header : LogExtractor → CoreHeader → Run (Unit {0})
  extract_header extractor header =
      reading (fetch_logs extractor.addresses extractor.topics header) then_run λ logs.
      (if is_empty logs
        then run [] (ok tt)
        else writing (sync_transactions header.id logs) (transactions_synced header.id logs)
          then_run (λ _.
              writing (create_header_sync_logs header.id logs) (logs_created header.id logs)))
      then_run (λ _. writing (mark_header_checked header.id) (header_checked header.id))

  pub extract_loop : LogExtractor → List CoreHeader → Run (Unit {0})
  unfolding extract_header
  extract_loop extractor [] = run [] (ok tt)
  extract_loop extractor (header ∷ rest) =
      let later = extract_loop extractor rest in extract_header extractor header then_run λ _. later

  pub extract_logs : LogExtractor → Bool → Run (Unit {0})
  unfolding extract_loop get_check_count
  extract_logs extractor recheck_headers =
      if is_empty extractor.addresses
      then run [] (err err_no_watched_addresses)
      else elim extractor.starting_block [
        | none ↦ run [] panic
        | some start ↦
            reading (unchecked_headers start (negsuc 0) (get_check_count recheck_headers))
            then_run λ headers.
                if is_empty headers
                then run [] (err err_no_unchecked_headers)
                else extract_loop extractor headers
      ]
