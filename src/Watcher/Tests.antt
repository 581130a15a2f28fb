-- ===== src/Watcher/Tests.antt =====
-- The watcher at height 5, with payloads that arrive in the middle of a tick.
use vulcanize_db.Prelude.{◌≡◌, refl, Bool, true, false, ◌||◌, List, [], ◌∷◌, any_of, ◌==◌}
use vulcanize_db.Prelude.Int.{ℤ, pos, ◌+ℤ◌, int_eq}
use vulcanize_db.Go.{panic}
use vulcanize_db.Watcher.{
  Payload, Watcher, receiving, forwarding, waiting, quitting, new_payload_index, watch, Event,
  arrives, receives, ticks, steps, quits, interrupts, forwards, run,
}
use vulcanize_db.Watcher.Queue.{has_height}
use vulcanize_db.Watcher.Kept.{holds, taken_in, run-holds}
use vulcanize_db.Watcher.Deadlock.{run-deadlock}

abbrev payload : ℤ → Payload
payload height = record { height = height; has_error = false }

-- A database that queues everything but height 9.
abbrev refuses : Payload → Bool
refuses row = row.height == pos 9

abbrev at_five : ℤ → Watcher
at_five last = record {
  payload_index = pos 5;
  ending_index = last;
  queued_data = payload (pos 5) ∷ [];
  readied = [];
  receiver = receiving;
  ticker = waiting;
}

-- A tick begins, 5 arrives and is readied, the tick readies 5 from the queue, and 9 is refused.
abbrev events : List Event
events =
    ticks
    ∷ steps
    ∷ arrives (payload (pos 5))
    ∷ receives
    ∷ receives
    ∷ steps
    ∷ steps
    ∷ steps
    ∷ arrives (payload (pos 9))
    ∷ receives
    ∷ arrives (payload (pos 7))
    ∷ receives
    ∷ interrupts
    ∷ forwards
    ∷ []

run-holds_example :
    holds refuses (pos 7) (run refuses events (at_five (pos 100)))
    ≡ holds refuses (pos 7) (at_five (pos 100))
      || any_of (has_height (pos 7)) (taken_in refuses events (at_five (pos 100)))
run-holds_example = run-holds refuses (pos 7) events (at_five (pos 100))

-- Only 7 and 5 are taken in, and 7 is there afterwards.
seven_is_kept :
    (taken_in refuses events (at_five (pos 100)) ≡ payload (pos 5) ∷ payload (pos 7) ∷ [])
    × (holds refuses (pos 7) (run refuses events (at_five (pos 100))) ≡ true)
    × (holds refuses (pos 9) (run refuses events (at_five (pos 100))) ≡ false)
unfolding run ◌+ℤ◌
seven_is_kept = (refl, refl, refl)

-- The queued payload 5 is loaded, 5 and 6 arrive, and the tick then stores the index 6 again: 5 is
-- readied twice, and 7 waits in the queue for a second payload at height 6.
abbrev interrupted : Watcher
interrupted =
    run refuses
      (ticks
        ∷ steps
        ∷ arrives (payload (pos 5))
        ∷ receives
        ∷ receives
        ∷ arrives (payload (pos 6))
        ∷ receives
        ∷ receives
        ∷ steps
        ∷ steps
        ∷ steps
        ∷ arrives (payload (pos 7))
        ∷ receives
        ∷ ticks
        ∷ steps
        ∷ [])
      (at_five (pos 100))

index_goes_back :
    (interrupted.payload_index ≡ pos 6)
    × (interrupted.readied ≡ payload (pos 5) ∷ payload (pos 6) ∷ payload (pos 5) ∷ [])
    × (interrupted.queued_data ≡ payload (pos 7) ∷ [])
unfolding run ◌+ℤ◌
index_goes_back = (refl, refl, refl)

-- The tick takes 5 from the queue, 5 arrives too, and 5 is the last height.
abbrev last_height : Watcher
last_height =
    run refuses
      (ticks ∷ steps ∷ arrives (payload (pos 5)) ∷ receives ∷ receives ∷ steps ∷ steps ∷ [])
      (at_five (pos 5))

both_wait : (last_height.receiver ≡ forwarding) × (last_height.ticker ≡ quitting (payload (pos 5)))
unfolding run ◌+ℤ◌
both_wait = (refl, refl)

run-deadlock_example :
    run refuses (quits ∷ forwards ∷ ticks ∷ interrupts ∷ []) last_height ≡ last_height
run-deadlock_example =
    run-deadlock refuses (quits ∷ forwards ∷ ticks ∷ interrupts ∷ []) last_height (payload (pos 5))
      both_wait.0 both_wait.1

-- The pointer of a new watcher is nil.
watch-new : watch new_payload_index (pos 5) (pos 100) [] ≡ panic
unfolding watch
watch-new = refl
