-- ===== src/Storage/Queue.antt =====
-- processQueue of libraries/shared/watcher/storage_watcher.go: what is still queued afterwards.
use vulcanize_db.Prelude.{
  ℕ, ◌≡◌, refl, ◌∙◌, Bool, true, false, ◌&&◌, ◌||◌, not, List, [], ◌∷◌, ◌==◌, nat_eq, any_of,
  Bool-cases, inl, inr, arith, sym, ap, String, ◌↔◌, ◌⊎◌, Any, none, some, if◌then◌else◌, Option,
}
use vulcanize_db.Prelude.Assoc.{find}
use mathlib.Core.Option.{some-injective}
use vulcanize_db.Go.{Result, ok, err, panic, >>=-eq-ok}
use vulcanize_db.Storage.{
  PersistedDiff, Transformers, delete_diff, finished, process_queue_loop, process_queue,
}

-- The diff is in the queue.
abbrev pub queued : ℕ → List PersistedDiff → Bool
queued id queue = any_of (λ d. d.id == id) queue

queued-delete_diff :
    (j id : ℕ) (queue : List PersistedDiff)
    → queued j (delete_diff id queue) ≡ queued j queue && not (id == j)
queued-delete_diff j id [] = refl
queued-delete_diff j id (d ∷ queue) =
    let rest = queued-delete_diff j id queue in
    elim (Bool-cases (d.id == id)) [
      | inl same ↦
          let e : d.id ≡ id = (nat_eq.equal_iff d.id id).0 same in
          rw (same, rest, e) (absorb (id == j) (queued j queue))
      | inr other ↦
          rw (other, rest)
            (elim (Bool-cases (d.id == j)) [
              | inl at ↦
                  let e : d.id ≡ j = (nat_eq.equal_iff d.id j).0 at in
                  let off : (id == j) ≡ false = ground arith in rw (at, off) refl
              | inr off ↦ rw (off) refl
            ])
    ]
  where
    absorb : (a b : Bool) → b && not a ≡ (a || b) && not a
    absorb a b = ground arith

module _ (transformers : Transformers) where
  -- The diff is done with: its contract is not watched any more, or its transformer runs on it.
  abbrev pub IsDone : PersistedDiff → Type 0
  IsDone d =
      (find d.hashed_address transformers ≡ none)
      ⊎ ((execute : PersistedDiff → Result (Unit {0})) × (find d.hashed_address transformers
            ≡ some execute)
          × (execute d ≡ ok tt))

  -- Some diff of the list has the id and is done with.
  abbrev pub Finishes : ℕ → List PersistedDiff → Type 0
  Finishes id ds = Any (λ d. (d.id ≡ id) × IsDone d) ds

  -- A transformer that has run.
  ran-IsDone :
      (d : PersistedDiff) (execute : PersistedDiff → Result (Unit {0})) (over : Bool)
      (ran : Result (Unit {0}))
      → find d.hashed_address transformers ≡ some execute
      → execute d ≡ ran
      → elim ran as (λ _. Result Bool) [ panic ↦ panic | err e ↦ ok false | ok _ ↦ ok true ]
        ≡ ok over
      → (over ≡ true) ↔ IsDone d
  ran-IsDone d execute over panic watched e h = cc
  ran-IsDone d execute over (err message) watched e h = (
    λ yes. cc,
    λ done. elim done [
      | inl unwatched ↦ cc
      | inr (other, same, runs) ↦
          let at : execute ≡ other = some-injective execute other (sym watched ∙ same) in
          let two : execute d ≡ ok tt = ap (λ f. f d) at ∙ runs in cc
    ],
  )
  ran-IsDone d execute over (ok tt) watched e h = (λ yes. inr (execute, watched, e), λ done. cc)

  -- A diff that is over is done with, and another is not.
  finished-IsDone :
      (d : PersistedDiff) (found : Option (PersistedDiff → Result (Unit {0}))) (over : Bool)
      → find d.hashed_address transformers ≡ found
      → finished transformers found d ≡ ok over
      → (over ≡ true) ↔ IsDone d
  unfolding finished
  finished-IsDone d none over unwatched h = (λ yes. inl unwatched, λ done. cc)
  finished-IsDone d (some execute) over watched h =
      ran-IsDone d execute over (execute d) watched refl h

  -- One diff with the id, and the others.
  still :
      (id : ℕ) (d : PersistedDiff) (rest queue r : List PersistedDiff) (over : Bool)
      → ((over ≡ true) ↔ IsDone d)
      → ((queued id r ≡ true) ↔ (
          (queued id (if over then delete_diff d.id queue else queue) ≡ true)
          × (Finishes id rest → ⊥)))
      → (queued id r ≡ true) ↔ ((queued id queue ≡ true) × (Finishes id (d ∷ rest) → ⊥))
  still id d rest queue r true h later =
      let deleted = queued-delete_diff id d.id queue in
      (
        λ stays.
            let left = later.0 stays in
            let kept : queued id queue && not (d.id == id) ≡ true = sym deleted ∙ left.0 in
            (
              and-left (queued id queue) (d.id == id) kept,
              λ finishes. elim finishes [
                | inl (same, done) ↦ and-right (queued id queue) d.id id kept same
                | inr others ↦ left.1 others
              ],
            ),
        λ (at, unfinished). later.1 (
          deleted ∙ rw (at, off d.id id (λ same. unfinished (inl (same, h.0 refl)))) refl,
          λ others. unfinished (inr others),
        ),
      )
    where
      and-left : (a b : Bool) → a && not b ≡ true → a ≡ true
      and-left a b e = ground arith

      and-right : (a : Bool) (i j : ℕ) → a && not (i == j) ≡ true → i ≡ j → ⊥
      and-right a i j e same =
          let equal : (i == j) ≡ true = (nat_eq.equal_iff i j).1 same in ground arith

      off : (i j : ℕ) → (i ≡ j → ⊥) → (i == j) ≡ false
      off i j differ = ground arith
  still id d rest queue r false h later = (
    λ stays.
        let left = later.0 stays in
        (
          left.0,
          λ finishes. elim finishes [
            | inl (same, done) ↦ let yes : false ≡ true = h.1 done in cc
            | inr others ↦ left.1 others
          ],
        ),
    λ (at, unfinished). later.1 (at, λ others. unfinished (inr others)),
  )

  process_queue_loop-queued :
      (id : ℕ) (ds queue r : List PersistedDiff)
      → process_queue_loop transformers (λ _. true) ds queue ≡ ok r
      → (queued id r ≡ true) ↔ ((queued id queue ≡ true) × (Finishes id ds → ⊥))
  unfolding process_queue_loop
  process_queue_loop-queued id [] queue r h =
      let same : queue ≡ r = cc in
      (λ stays. (rw (same) stays, λ never. never), λ (at, _). rw (sym same) at)
  process_queue_loop-queued id (d ∷ rest) queue r h =
      let (over, decided, looped) =
        >>=-eq-ok (finished transformers (find d.hashed_address transformers) d) _ h in
      still id d rest queue r over
        (finished-IsDone d (find d.hashed_address transformers) over refl decided)
        (process_queue_loop-queued id rest (if over then delete_diff d.id queue else queue) r
          looped)

  -- When every call of Queue.Delete works and no transformer panics: a diff of a queue stays in it
  -- exactly when it was there and, among the diffs that Queue.GetAll returned, none with its id is
  -- done with: its contract is not watched, or its transformer runs on it without an error. It does
  -- not matter whether GetAll also returned an error.
  pub process_queue-queued :
      (id : ℕ) (fetched : List PersistedDiff × Option String) (queue r : List PersistedDiff)
      → process_queue transformers (λ _. true) fetched queue ≡ ok r
      → (queued id r ≡ true) ↔ ((queued id queue ≡ true) × (Finishes id fetched.0 → ⊥))
  unfolding process_queue
  process_queue-queued id fetched queue r h = process_queue_loop-queued id fetched.0 queue r h
