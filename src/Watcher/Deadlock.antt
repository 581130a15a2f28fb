-- ===== src/Watcher/Deadlock.antt =====
-- The shutdown of the watcher in which each goroutine waits for the other.
use vulcanize_db.Prelude.{◌≡◌, refl, Bool, List, [], ◌∷◌}
use vulcanize_db.Watcher.{
  Payload, Watcher, forwarding, quitting, on_payload, receive, on_tick, tick, tick_fails, quit,
  interrupt, forward_quit, Event, arrives, receives, ticks, steps, fails, quits, interrupts,
  forwards, step, run,
}

module _ (refuses : Payload → Bool) where
  step-deadlock :
      (event : Event) (w : Watcher) (payload : Payload)
      → w.receiver ≡ forwarding
      → w.ticker ≡ quitting payload
      → step refuses event w ≡ w
  unfolding step on_payload receive on_tick tick tick_fails quit interrupt forward_quit
  step-deadlock (arrives p) w payload h e = rw (h) refl
  step-deadlock receives w payload h e = rw (h) refl
  step-deadlock ticks w payload h e = rw (e) refl
  step-deadlock steps w payload h e = rw (e) refl
  step-deadlock fails w payload h e = rw (e) refl
  step-deadlock quits w payload h e = rw (h, e) refl
  step-deadlock interrupts w payload h e = rw (h) refl
  step-deadlock forwards w payload h e = rw (h, e) refl

  pub run-deadlock :
      (events : List Event) (w : Watcher) (payload : Payload)
      → w.receiver ≡ forwarding
      → w.ticker ≡ quitting payload
      → run refuses events w ≡ w
  unfolding run
  run-deadlock [] w payload h e = refl
  run-deadlock (event ∷ events) w payload h e =
      let stuck = step-deadlock event w payload h e in
      rw (stuck) (run-deadlock events w payload h e)
