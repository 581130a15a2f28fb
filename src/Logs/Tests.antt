-- ===== src/Logs/Tests.antt =====
-- Two transformers on a contract, and three logs.
use vulcanize_db.Prelude.{ℕ, zero, suc, ◌≡◌, refl, String, false, List, [], ◌∷◌, some}
use vulcanize_db.Prelude.Int.{ℤ, pos}
use vulcanize_db.Go.{ok, err}
use vulcanize_db.Logs.{
  EventTransformerConfig, HeaderSyncLog, LogChunker, LogExtractor, Repositories, CoreHeader, Chunks,
  add_config, chunk_logs, extract_loop,
}
use vulcanize_db.Logs.Chunks.{chunk_of, all_picks, chunk_logs-picks}
use vulcanize_db.Logs.Extraction.{Extraction, extract_loop-Extraction}
use vulcanize_db.Logs.Delegation.{EventTransformer, Executes, delegate_logs, delegate_logs-Executes}

abbrev to_lower : String → String
to_lower s = s

abbrev hex_to_hash : String → ℕ
hex_to_hash s = 3

abbrev config : String → ℤ → EventTransformerConfig
config name start = record {
  transformer_name = name;
  contract_addresses = "0xa" ∷ [];
  topic = "0x3";
  starting_block_number = start;
}

abbrev chunker : LogChunker
unfolding add_config
chunker =
    add_config to_lower hex_to_hash (record { address_to_names = []; name_to_topic0 = [] })
      (config "flip" (pos 5))

abbrev log : ℕ → ℕ → HeaderSyncLog
log id topic = record { id = id; address_hex = "0xa"; topics = topic ∷ [] }

abbrev logs : List HeaderSyncLog
logs = log 1 3 ∷ log 2 4 ∷ log 3 3 ∷ []

abbrev chunks : Chunks
chunks = ("flip", log 1 3 ∷ log 3 3 ∷ []) ∷ []

chunked : chunk_logs to_lower chunker logs ≡ ok chunks
unfolding chunk_logs chunker
chunked = refl

chunk_logs-picks_example : chunk_of "flip" chunks ≡ all_picks to_lower chunker "flip" logs
chunk_logs-picks_example = chunk_logs-picks to_lower chunker "flip" logs chunks chunked

-- The logs of the second header cannot be stored.
abbrev repositories : Repositories
repositories = record {
  already_watching_log = λ addresses topic. ok false;
  mark_headers_unchecked = λ start. ok tt;
  mark_log_watched = λ addresses topic. ok tt;
  unchecked_headers = λ from to count. ok [];
  fetch_logs = λ addresses topics header. ok logs;
  sync_transactions = λ id found. ok tt;
  create_header_sync_logs = λ id found. elim id [ zero ↦ ok tt | suc _ ↦ err "no connection" ];
  mark_header_checked = λ id. ok tt;
}

abbrev extractor : LogExtractor
extractor = record { addresses = 1 ∷ []; starting_block = some (pos 5); topics = 3 ∷ [] }

abbrev headers : List CoreHeader
headers = record { id = 0; block_number = pos 5 } ∷ record { id = 1; block_number = pos 6 } ∷ []

extract_loop-Extraction_example :
    Extraction repositories extractor headers
      (extract_loop repositories extractor headers).writes
      (extract_loop repositories extractor headers).result
extract_loop-Extraction_example = extract_loop-Extraction repositories extractor headers

abbrev transformer : EventTransformer
transformer = record { config = config "flip" (pos 5); execute = λ found. ok tt }

delegate_logs-Executes_example :
    let delegated =
      delegate_logs to_lower
        (ok logs)
        (record { chunker = chunker; transformers = transformer ∷ [] }) in
    Executes to_lower chunker logs (transformer ∷ []) delegated.0 delegated.1
delegate_logs-Executes_example =
    delegate_logs-Executes to_lower chunker logs transformer [] chunks refl chunked
