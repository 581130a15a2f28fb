-- ===== src/Logs/Delegation.antt =====
-- libraries/shared/logs/delegator.go: DelegateLogs, and the loops of
-- libraries/shared/watcher/event_watcher.go.
use vulcanize_db.Prelude.{
  ℕ, ◌≡◌, ◌≢◌, refl, sym, subst, String, false, List, [], ◌∷◌, ◌++◌, is_empty, if◌then◌else◌, ◌==◌,
  string_eq,
}
use vulcanize_db.Prelude.Assoc.{find}
use vulcanize_db.Go.{Result, ok, err, panic}
use vulcanize_db.Logs.{
  EventTransformerConfig, HeaderSyncLog, LogChunker, Chunks, list_or_nil, chunk_logs, add_config,
  err_no_logs, err_no_transformers, err_no_unchecked_headers,
}
use vulcanize_db.Logs.Chunks.{all_picks, chunk_logs-picks}

pub record EventTransformer : Type 0 where
  pub config : EventTransformerConfig
  pub execute : List HeaderSyncLog → Result (Unit {0})

pub record LogDelegator : Type 0 where
  pub chunker : LogChunker
  pub transformers : List EventTransformer

-- AddTransformer
pub add_transformer :
    (String → String) → (String → ℕ) → LogDelegator → EventTransformer → LogDelegator
add_transformer to_lower hex_to_hash delegator t = record {
  transformers = delegator.transformers ++ t ∷ [];
  chunker = add_config to_lower hex_to_hash delegator.chunker t.config;
}

-- A transformer's name and the logs that it was run on.
abbrev pub Executions : Type 0
Executions = List (String × List HeaderSyncLog)

-- Go on to the later executions only after a success.
abbrev pub execute_next :
    String
    → List HeaderSyncLog
    → Result (Unit {0})
    → Executions × Result (Unit {0})
    → Executions × Result (Unit {0})
execute_next name chunk panic later = ((name, chunk) ∷ [], panic)
execute_next name chunk (err e) later = ((name, chunk) ∷ [], err e)
execute_next name chunk (ok _) later = ((name, chunk) ∷ later.0, later.1)

-- The executions that were started, and how the loop ended.
pub execute_loop : Chunks → List EventTransformer → Executions × Result (Unit {0})
execute_loop chunks [] = ([], ok tt)
execute_loop chunks (t ∷ rest) =
    let later = execute_loop chunks rest in
    let chunk = list_or_nil (find t.config.transformer_name chunks) in
    execute_next t.config.transformer_name chunk (t.execute chunk) later

abbrev pub execute_chunks : List EventTransformer → Result Chunks → Executions × Result (Unit {0})
unfolding execute_loop
execute_chunks ts panic = ([], panic)
execute_chunks ts (err e) = ([], err e)
execute_chunks ts (ok chunks) = execute_loop chunks ts

module _ (to_lower : String → String) (untransformed : Result (List HeaderSyncLog)) where
  pub delegate_chunks : LogDelegator → List HeaderSyncLog → Executions × Result (Unit {0})
  delegate_chunks delegator logs =
      execute_chunks delegator.transformers (chunk_logs to_lower delegator.chunker logs)

  -- `untransformed` is GetUntransformedHeaderSyncLogs.
  pub delegate_logs : LogDelegator → Executions × Result (Unit {0})
  unfolding delegate_chunks
  delegate_logs delegator =
      if is_empty delegator.transformers
      then ([], err err_no_transformers)
      else elim untransformed [
        | panic ↦ ([], panic)
        | err e ↦ ([], err e)
        | ok logs ↦ if is_empty logs then ([], err err_no_logs) else delegate_chunks delegator logs
      ]

-- What a loop of the watcher does after a round: it reports the error, or goes on, at once or
-- after NoNewDataPause.
pub data Next : Type 0 where
  reports : String → Next
  again again_after_pause : Next
  crashes : Next

pub next_round : String → Result (Unit {0}) → Next
next_round no_data panic = crashes
next_round no_data (err e) = if e == no_data then again_after_pause else reports e
next_round no_data (ok _) = again

-- EventWatcher.extractLogs and delegateLogs
pub next_extraction : Result (Unit {0}) → Next
unfolding next_round
next_extraction = next_round err_no_unchecked_headers

pub next_delegation : Result (Unit {0}) → Next
unfolding next_round
next_delegation = next_round err_no_logs

-- Each transformer in order, on exactly the logs that are its own.
pub data Executes (to_lower : String → String) (chunker : LogChunker) (logs : List HeaderSyncLog)
    : List EventTransformer → Executions → Result (Unit {0}) → Type 0 where
  done : Executes to_lower chunker logs [] [] (ok tt)
  next :
      (t : EventTransformer) (ts : List EventTransformer) (es : Executions)
      (end : Result (Unit {0}))
      → t.execute (all_picks to_lower chunker t.config.transformer_name logs) ≡ ok tt
      → Executes to_lower chunker logs ts es end
      → Executes to_lower chunker logs
          (t ∷ ts)
          ((t.config.transformer_name, all_picks to_lower chunker t.config.transformer_name logs)
            ∷ es)
          end
  stops :
      (t : EventTransformer) (ts : List EventTransformer) (end : Result (Unit {0}))
      → t.execute (all_picks to_lower chunker t.config.transformer_name logs) ≡ end
      → end ≢ ok tt
      → Executes to_lower chunker logs
          (t ∷ ts)
          ((t.config.transformer_name, all_picks to_lower chunker t.config.transformer_name logs)
            ∷ [])
          end

module _ (to_lower : String → String) (chunker : LogChunker) (logs : List HeaderSyncLog) where
  execute_next-Executes :
      (t : EventTransformer) (ts : List EventTransformer) (end : Result (Unit {0}))
      (later : Executions × Result (Unit {0}))
      → t.execute (all_picks to_lower chunker t.config.transformer_name logs) ≡ end
      → Executes to_lower chunker logs ts later.0 later.1
      → let all =
          execute_next t.config.transformer_name
            (all_picks to_lower chunker t.config.transformer_name logs)
            end
            later in
        Executes to_lower chunker logs (t ∷ ts) all.0 all.1
  execute_next-Executes t ts panic later e rest = stops t ts panic e (λ p. cc)
  execute_next-Executes t ts (err m) later e rest = stops t ts (err m) e (λ p. cc)
  execute_next-Executes t ts (ok _) later e rest = next t ts later.0 later.1 e rest

  execute_loop-Executes :
      (chunks : Chunks) (ts : List EventTransformer)
      → chunk_logs to_lower chunker logs ≡ ok chunks
      → Executes to_lower chunker logs ts (execute_loop chunks ts).0 (execute_loop chunks ts).1
  unfolding execute_loop
  execute_loop-Executes chunks [] h = done
  execute_loop-Executes chunks (t ∷ ts) h =
      let name = t.config.transformer_name in
      let later = execute_loop chunks ts in
      subst
        (λ c.
          let all = execute_next name c (t.execute c) later in
          Executes to_lower chunker logs (t ∷ ts) all.0 all.1)
        (sym (chunk_logs-picks to_lower chunker name logs chunks h))
        (execute_next-Executes t ts (t.execute (all_picks to_lower chunker name logs)) later refl
          (execute_loop-Executes chunks ts h))

  -- When there are logs and a transformer, and no log that could concern one lacks topics, the
  -- transformers run in order, each on exactly the logs that are its own; at the first one that
  -- fails the run stops and has its failure.
  pub delegate_logs-Executes :
      (t : EventTransformer) (ts : List EventTransformer) (chunks : Chunks)
      → is_empty logs ≡ false
      → chunk_logs to_lower chunker logs ≡ ok chunks
      → let delegated =
          delegate_logs to_lower (ok logs) (record { chunker = chunker; transformers = t ∷ ts }) in
        Executes to_lower chunker logs (t ∷ ts) delegated.0 delegated.1
  unfolding delegate_logs delegate_chunks execute_chunks execute_loop
  delegate_logs-Executes t ts chunks loaded h = rw (loaded) (
      subst
        (λ r.
          let all = execute_chunks (t ∷ ts) r in
          Executes to_lower chunker logs (t ∷ ts) all.0 all.1)
        (sym h) (execute_loop-Executes chunks (t ∷ ts) h))
