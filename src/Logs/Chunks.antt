-- ===== src/Logs/Chunks.antt =====
-- ChunkLogs of libraries/shared/chunker/log_chunker.go, by what it gives one transformer.
use vulcanize_db.Prelude.{
  ℕ, ◌≡◌, refl, sym, ap, ◌∙◌, String, Bool, false, ◌&&◌, List, [], ◌∷◌, ◌++◌, ◌==◌, nat_eq,
  string_eq, if◌then◌else◌, Bool-cases, inl, inr,
}
use mathlib.Core.List.{append_assoc, append-nil}
use vulcanize_db.Prelude.Assoc.{find, insert, find-delete}
use vulcanize_db.Go.{ok, >>=-eq-ok}
use vulcanize_db.Logs.{
  HeaderSyncLog, LogChunker, Chunks, list_or_nil, hash_or_zero, topic0, relevant, chunk_names,
  chunk_loop, chunk_logs,
}

abbrev pub chunk_of : String → Chunks → List HeaderSyncLog
chunk_of name chunks = list_or_nil (find name chunks)

chunk_of-insert :
    (name t : String) (logs : List HeaderSyncLog) (chunks : Chunks)
    → chunk_of name (insert t logs chunks) ≡ (if name == t then logs else chunk_of name chunks)
chunk_of-insert name t logs chunks = elim (Bool-cases (name == t)) [
  | inl same ↦ rw (same) refl
  | inr other ↦ rw (other, find-delete name t chunks other) refl
]

-- The first topic is the given one.
abbrev pub starts_with : ℕ → List ℕ → Bool
starts_with h [] = false
starts_with h (first ∷ rest) = h == first

abbrev pub has_topic : LogChunker → String → HeaderSyncLog → Bool
has_topic chunker name log =
    starts_with (hash_or_zero (find name chunker.name_to_topic0)) log.topics

-- The log, once for each time that `names` has the transformer, if it has its topic.
abbrev pub picks : LogChunker → String → HeaderSyncLog → List String → List HeaderSyncLog
picks chunker name log [] = []
picks chunker name log (t ∷ rest) =
    let later = picks chunker name log rest in
    if (name == t) && has_topic chunker name log then log ∷ later else later

abbrev pub all_picks :
    (String → String) → LogChunker → String → List HeaderSyncLog → List HeaderSyncLog
unfolding relevant
all_picks to_lower chunker name [] = []
all_picks to_lower chunker name (log ∷ logs) =
    picks chunker name log (relevant to_lower chunker log) ++ all_picks to_lower chunker name logs

starts_with-topic0 :
    (h topic : ℕ) (topics : List ℕ) → topic0 topics ≡ ok topic → starts_with h topics ≡ (h == topic)
starts_with-topic0 h topic [] e = cc
starts_with-topic0 h topic (first ∷ rest) e = let same : first ≡ topic = cc in rw (same) refl

-- What one transformer's name adds to the chunk.
added :
    (name t : String) (log : HeaderSyncLog) (later : List HeaderSyncLog) (chunks : Chunks)
    (matches wanted : Bool)
    → (name ≡ t → wanted ≡ matches)
    → chunk_of name (if matches then insert t (chunk_of t chunks ++ log ∷ []) chunks else chunks)
        ++ later
      ≡ chunk_of name chunks ++ (if (name == t) && wanted then log ∷ later else later)
added name t log later chunks matches wanted agree = elim (Bool-cases (name == t)) [
  | inl same ↦
      let e : name ≡ t = (string_eq.equal_iff name t).0 same in
      let m = agree e in
      elim (Bool-cases matches) [
        | inl on ↦
            rw (m, same, on)
              (ap (λ c. c ++ later)
                  (chunk_of-insert name t (chunk_of t chunks ++ log ∷ []) chunks ∙ rw (same) refl)
                ∙ append_assoc (chunk_of t chunks) (log ∷ []) later
                ∙ ap (λ n. chunk_of n chunks ++ log ∷ later) (sym e))
        | inr off ↦ rw (m, same, off) refl
      ]
  | inr other ↦ elim (Bool-cases matches) [
    | inl on ↦
        rw (other, on)
          (ap (λ c. c ++ later)
            (chunk_of-insert name t (chunk_of t chunks ++ log ∷ []) chunks ∙ rw (other) refl))
    | inr off ↦ rw (other, off) refl
  ]
]

picks-first :
    (chunker : LogChunker) (name t : String) (log : HeaderSyncLog) (rest : List String)
    (chunks : Chunks) (topic : ℕ)
    → topic0 log.topics ≡ ok topic
    → chunk_of name (
          if hash_or_zero (find t chunker.name_to_topic0) == topic
          then insert t (chunk_of t chunks ++ log ∷ []) chunks
          else chunks)
        ++ picks chunker name log rest
      ≡ chunk_of name chunks ++ picks chunker name log (t ∷ rest)
picks-first chunker name t log rest chunks topic e =
    added name t log (picks chunker name log rest) chunks
      (hash_or_zero (find t chunker.name_to_topic0) == topic) (has_topic chunker name log)
      (λ same.
        starts_with-topic0 (hash_or_zero (find name chunker.name_to_topic0)) topic log.topics e
        ∙ ap (λ n. hash_or_zero (find n chunker.name_to_topic0) == topic) same)

chunk_names-picks :
    (chunker : LogChunker) (name : String) (log : HeaderSyncLog) (names : List String)
    (chunks r : Chunks)
    → chunk_names chunker log names chunks ≡ ok r
    → chunk_of name r ≡ chunk_of name chunks ++ picks chunker name log names
unfolding chunk_names
chunk_names-picks chunker name log [] chunks r h =
    let same : chunks ≡ r = cc in rw (← same) (sym (append-nil (chunk_of name chunks)))
chunk_names-picks chunker name log (t ∷ rest) chunks r h =
    let (topic, e, h1) = >>=-eq-ok (topic0 log.topics) _ h in
    chunk_names-picks chunker name log rest _ r h1
    ∙ picks-first chunker name t log rest chunks topic e

chunk_loop-picks :
    (to_lower : String → String) (chunker : LogChunker) (name : String) (logs : List HeaderSyncLog)
    (chunks r : Chunks)
    → chunk_loop to_lower chunker logs chunks ≡ ok r
    → chunk_of name r ≡ chunk_of name chunks ++ all_picks to_lower chunker name logs
unfolding chunk_loop
chunk_loop-picks to_lower chunker name [] chunks r h =
    let same : chunks ≡ r = cc in rw (← same) (sym (append-nil (chunk_of name chunks)))
chunk_loop-picks to_lower chunker name (log ∷ logs) chunks r h =
    let names = relevant to_lower chunker log in
    let (more, h1, h2) = >>=-eq-ok (chunk_names chunker log names chunks) _ h in
    chunk_loop-picks to_lower chunker name logs more r h2
    ∙ ap (λ c. c ++ all_picks to_lower chunker name logs)
        (chunk_names-picks chunker name log names chunks more h1)
    ∙ append_assoc (chunk_of name chunks) (picks chunker name log names)
        (all_picks to_lower chunker name logs)

pub chunk_logs-picks :
    (to_lower : String → String) (chunker : LogChunker) (name : String) (logs : List HeaderSyncLog)
    (r : Chunks)
    → chunk_logs to_lower chunker logs ≡ ok r
    → chunk_of name r ≡ all_picks to_lower chunker name logs
unfolding chunk_logs
chunk_logs-picks to_lower chunker name logs r h = chunk_loop-picks to_lower chunker name logs [] r h
