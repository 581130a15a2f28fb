-- ===== src/Logs/Extraction.antt =====
-- ExtractLogs of libraries/shared/logs/extractor.go: which headers are marked checked, and what
-- was stored before.
use vulcanize_db.Prelude.{
  ℕ, ◌≡◌, ◌≢◌, ◌⊎◌, refl, List, [], ◌∷◌, ◌++◌, is_empty, if◌then◌else◌, inl, inr,
}
use vulcanize_db.Go.{Result, ok, err, panic}
use vulcanize_db.Logs.{
  HeaderSyncLog, LogExtractor, CoreHeader, Write, headers_unchecked, log_watched,
  transactions_synced, logs_created, header_checked, Repositories, Run, run, ◌then_run◌, writing,
  reading, extract_header, extract_loop,
}

-- The headers marked checked, in order.
abbrev pub marks : List Write → List ℕ
marks [] = []
marks (header_checked id ∷ ws) = id ∷ marks ws
marks (headers_unchecked _ ∷ ws) = marks ws
marks (log_watched _ _ ∷ ws) = marks ws
marks (transactions_synced _ _ ∷ ws) = marks ws
marks (logs_created _ _ ∷ ws) = marks ws

module _ (db : Repositories) (extractor : LogExtractor) where
  -- All writes for one header that is extracted: nothing to store, or the transactions and the
  -- logs before the mark.
  pub data Extracts (header : CoreHeader) : List Write → Type 0 where
    without_logs :
        db.fetch_logs extractor.addresses extractor.topics header ≡ ok []
        → Extracts header (header_checked header.id ∷ [])
    with_logs :
        (log : HeaderSyncLog) (logs : List HeaderSyncLog)
        → db.fetch_logs extractor.addresses extractor.topics header ≡ ok (log ∷ logs)
        → Extracts header (
            transactions_synced header.id (log ∷ logs)
            ∷ logs_created header.id (log ∷ logs)
            ∷ header_checked header.id
            ∷ [])

  -- The writes of headers that are extracted one after the other, then those of one that fails,
  -- which is not marked.
  pub data Extraction : List CoreHeader → List Write → Result (Unit {0}) → Type 0 where
    finished : Extraction [] [] (ok tt)
    extracted :
        (header : CoreHeader) (ws : List Write) (headers : List CoreHeader) (later : List Write)
        (end : Result (Unit {0}))
        → Extracts header ws
        → Extraction headers later end
        → Extraction (header ∷ headers) (ws ++ later) end
    failed :
        (header : CoreHeader) (headers : List CoreHeader) (ws : List Write)
        (end : Result (Unit {0}))
        → marks ws ≡ []
        → end ≢ ok tt
        → Extraction (header ∷ headers) ws end

  -- One header is extracted, or fails before its mark.
  abbrev Outcome : CoreHeader → Run (Unit {0}) → Type 0
  Outcome header r =
      (Extracts header r.writes × (r.result ≡ ok tt)) ⊎ ((marks r.writes ≡ []) × (r.result ≢ ok tt))

  abbrev store : CoreHeader → List HeaderSyncLog → Run (Unit {0})
  store header logs =
      (if is_empty logs
        then run [] (ok tt)
        else writing (db.sync_transactions header.id logs) (transactions_synced header.id logs)
          then_run (λ _.
              writing (db.create_header_sync_logs header.id logs) (logs_created header.id logs)))
      then_run (λ _. writing (db.mark_header_checked header.id) (header_checked header.id))

  store-Outcome :
      (header : CoreHeader) (logs : List HeaderSyncLog)
      → db.fetch_logs extractor.addresses extractor.topics header ≡ ok logs
      → Outcome header (store header logs)
  store-Outcome header [] fetched = none_stored (db.mark_header_checked header.id)
    where
      none_stored :
          (marked : Result (Unit {0}))
          → Outcome header
              (run [] (ok tt) then_run (λ _. writing marked (header_checked header.id)))
      none_stored panic = inr (refl, λ e. cc)
      none_stored (err m) = inr (refl, λ e. cc)
      none_stored (ok _) = inl (without_logs fetched, refl)
  store-Outcome header (log ∷ logs) fetched =
      stored (db.sync_transactions header.id (log ∷ logs))
        (db.create_header_sync_logs header.id (log ∷ logs)) (db.mark_header_checked header.id)
    where
      stored :
          (synced created marked : Result (Unit {0}))
          → Outcome header (
              writing synced (transactions_synced header.id (log ∷ logs))
              then_run (λ _. writing created (logs_created header.id (log ∷ logs)))
              then_run (λ _. writing marked (header_checked header.id)))
      stored panic created marked = inr (refl, λ e. cc)
      stored (err m) created marked = inr (refl, λ e. cc)
      stored (ok _) panic marked = inr (refl, λ e. cc)
      stored (ok _) (err m) marked = inr (refl, λ e. cc)
      stored (ok _) (ok _) panic = inr (refl, λ e. cc)
      stored (ok _) (ok _) (err m) = inr (refl, λ e. cc)
      stored (ok _) (ok _) (ok _) = inl (with_logs log logs fetched, refl)

  extract_header-Outcome :
      (header : CoreHeader) → Outcome header (extract_header db extractor header)
  unfolding extract_header
  extract_header-Outcome header =
      fetched (db.fetch_logs extractor.addresses extractor.topics header) refl
    where
      fetched :
          (logs : Result (List HeaderSyncLog))
          → db.fetch_logs extractor.addresses extractor.topics header ≡ logs
          → Outcome header (reading logs then_run λ found. store header found)
      fetched panic e = inr (refl, λ e. cc)
      fetched (err m) e = inr (refl, λ e. cc)
      fetched (ok logs) e = store-Outcome header logs e

  Extraction-step :
      (header : CoreHeader) (headers : List CoreHeader) (r later : Run (Unit {0}))
      → Outcome header r
      → Extraction headers later.writes later.result
      → Extraction (header ∷ headers) (r then_run λ _. later).writes (r then_run λ _. later).result
  Extraction-step header headers r later outcome rest = by_result r.writes r.result outcome
    where
      by_result :
          (ws : List Write) (end : Result (Unit {0}))
          → Outcome header (run ws end)
          → Extraction
              (header ∷ headers)
              (run ws end then_run λ _. later).writes
              (run ws end then_run λ _. later).result
      by_result ws panic (inl x) = cc
      by_result ws (err m) (inl x) = cc
      by_result ws (ok _) (inl x) = extracted header ws headers later.writes later.result x.0 rest
      by_result ws panic (inr x) = failed header headers ws panic x.0 x.1
      by_result ws (err m) (inr x) = failed header headers ws (err m) x.0 x.1
      by_result ws (ok _) (inr x) = absurd (x.1 refl)

  -- ExtractLogs stores the transactions and logs of each header before it marks the header, goes
  -- through the headers in order, and at the first call that fails it stops with that header not
  -- marked, and reports an error.
  pub extract_loop-Extraction :
      (headers : List CoreHeader)
      → Extraction headers
          (extract_loop db extractor headers).writes
          (extract_loop db extractor headers).result
  unfolding extract_loop
  extract_loop-Extraction [] = finished
  extract_loop-Extraction (header ∷ headers) =
      Extraction-step header headers (extract_header db extractor header)
        (extract_loop db extractor headers) (extract_header-Outcome header)
        (extract_loop-Extraction headers)
