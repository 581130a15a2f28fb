-- ===== src/Watcher/Kept.antt =====
-- What the watcher keeps, over all interleavings of its goroutines.
use vulcanize_db.Prelude.{
  ◌≡◌, refl, ◌∙◌, Bool, false, ◌&&◌, ◌||◌, not, List, [], ◌∷◌, ◌++◌, Option, none, some, ◌==◌,
  if◌then◌else◌, any_of, Bool-cases, inl, inr, any_of_append, arith,
}
use vulcanize_db.Prelude.Int.{ℤ, pos, ◌+ℤ◌, ltb_ℤ, int_eq}
use vulcanize_db.Watcher.{
  Payload, Watcher, Receiver, receiving, matched, unmatched, advancing, forwarding, returned,
  Ticker, waiting, fetching, loaded, stored, quitting, readying, finished, take_height, on_payload,
  receive, on_tick, with_loaded, tick, tick_fails, quit, interrupt, forward_quit, Event, arrives,
  receives, ticks, steps, fails, quits, interrupts, forwards, step, run,
}
use vulcanize_db.Watcher.Queue.{has_height, or_false, or_assoc, any_of-put_height, take_height-held}

-- A tick that is under way holds the payload with the height.
abbrev pub in_ticker : ℤ → Ticker → Bool
in_ticker height waiting = false
in_ticker height (fetching index) = false
in_ticker height (loaded payload index) = has_height height payload
in_ticker height (stored payload) = has_height height payload
in_ticker height (quitting payload) = has_height height payload
in_ticker height (readying payload) = has_height height payload
in_ticker height finished = false

module _ (refuses : Payload → Bool) where
  -- The goroutine that takes payloads is about to ready or to queue one with the height.
  abbrev pub in_receiver : ℤ → Receiver → Bool
  in_receiver height receiving = false
  in_receiver height (matched payload) = has_height height payload
  in_receiver height (unmatched payload) = has_height height payload && not (refuses payload)
  in_receiver height advancing = false
  in_receiver height forwarding = false
  in_receiver height returned = false

  -- A payload with the height has been readied, is on its way, or is queued.
  abbrev pub holds : ℤ → Watcher → Bool
  holds height w =
      (any_of (has_height height) w.readied || in_receiver height w.receiver)
      || (in_ticker height w.ticker || any_of (has_height height) w.queued_data)

  abbrev pub accepted : Payload → Receiver → Watcher → List Payload
  accepted payload receiving w =
      if not payload.has_error && (payload.height == w.payload_index || not (refuses payload))
      then payload ∷ []
      else []
  accepted payload other w = []

  -- The payload that the event brings to the select of the goroutine, unless it carries an error, or
  -- it is not at the index and the database refuses to queue it
  abbrev pub accepts : Event → Watcher → List Payload
  accepts (arrives payload) w = accepted payload w.receiver w
  accepts event w = []

  -- All payloads that a run accepts
  abbrev pub taken_in : List Event → Watcher → List Payload
  taken_in [] w = []
  taken_in (event ∷ events) w = accepts event w ++ taken_in events (step refuses event w)

  on_payload-holds :
      (height : ℤ) (payload : Payload) (phase : Receiver) (w : Watcher)
      → w.receiver ≡ phase
      → holds height (on_payload payload phase w)
        ≡ holds height w || any_of (has_height height) (accepted payload phase w)
  unfolding on_payload
  on_payload-holds height payload receiving w h =
      let free : holds height w
          ≡ (any_of (has_height height) w.readied || false)
            || (in_ticker height w.ticker || any_of (has_height height) w.queued_data) =
        rw (h) refl in
      elim (Bool-cases payload.has_error) [
        | inl bad ↦ rw (bad) (ground arith)
        | inr good ↦ elim (Bool-cases (payload.height == w.payload_index)) [
          | inl here ↦ rw (here, good, free) (ground arith)
          | inr ahead ↦ elim (Bool-cases (refuses payload)) [
            | inl refused ↦ rw (refused, ahead, good, free) (ground arith)
            | inr put ↦ rw (put, ahead, good, free) (ground arith)
          ]
        ]
      ]
  on_payload-holds height payload (matched p) w h = ground arith
  on_payload-holds height payload (unmatched p) w h = ground arith
  on_payload-holds height payload advancing w h = ground arith
  on_payload-holds height payload forwarding w h = ground arith
  on_payload-holds height payload returned w h = ground arith

  receive-holds :
      (height : ℤ) (phase : Receiver) (w : Watcher)
      → w.receiver ≡ phase
      → holds height (receive refuses phase w) ≡ holds height w
  unfolding receive
  receive-holds height receiving w h = refl
  receive-holds height (matched payload) w h =
      rw (h, any_of_append (has_height height) w.readied (payload ∷ [])) (ground arith)
  receive-holds height (unmatched payload) w h = elim (Bool-cases (refuses payload)) [
    | inl refused ↦ rw (h, refused) (ground arith)
    | inr put ↦ rw (h, put, any_of-put_height height payload w.queued_data) (ground arith)
  ]
  receive-holds height advancing w h =
      elim (Bool-cases (ltb_ℤ w.ending_index (w.payload_index +ℤ pos 1))) [
        | inl past ↦ rw (h, past) refl
        | inr within ↦ rw (h, within) refl
      ]
  receive-holds height forwarding w h = refl
  receive-holds height returned w h = refl

  fetched :
      (height index : ℤ) (w : Watcher) (found : Option (Payload × List Payload))
      → w.ticker ≡ fetching index
      → take_height index w.queued_data ≡ found
      → holds height (with_loaded index w found) ≡ holds height w
  fetched height index w none h e = rw (h) refl
  fetched height index w (some (payload, rest)) h e =
      rw (h, take_height-held index height w.queued_data (payload, rest) e) refl

  tick-holds :
      (height : ℤ) (phase : Ticker) (w : Watcher)
      → w.ticker ≡ phase
      → holds height (tick phase w) ≡ holds height w
  unfolding tick
  tick-holds height waiting w h = refl
  tick-holds height (fetching index) w h =
      fetched height index w (take_height index w.queued_data) h refl
  tick-holds height (loaded payload index) w h = rw (h) refl
  tick-holds height (stored payload) w h =
      elim (Bool-cases (ltb_ℤ w.ending_index w.payload_index)) [
        | inl past ↦ rw (h, past) refl
        | inr within ↦ rw (h, within) refl
      ]
  tick-holds height (quitting payload) w h = refl
  tick-holds height (readying payload) w h =
      rw (h, any_of_append (has_height height) w.readied (payload ∷ [])) (ground arith)
  tick-holds height finished w h = refl

  tick_fails-holds :
      (height : ℤ) (phase : Ticker) (w : Watcher)
      → w.ticker ≡ phase
      → holds height (tick_fails phase w) ≡ holds height w
  unfolding tick_fails
  tick_fails-holds height (fetching index) w h = rw (h) refl
  tick_fails-holds height other w h = refl

  on_tick-holds :
      (height : ℤ) (phase : Ticker) (w : Watcher)
      → w.ticker ≡ phase
      → holds height (on_tick phase w) ≡ holds height w
  unfolding on_tick
  on_tick-holds height waiting w h = rw (h) refl
  on_tick-holds height other w h = refl

  interrupt-holds :
      (height : ℤ) (phase : Receiver) (w : Watcher)
      → w.receiver ≡ phase
      → holds height (interrupt phase w) ≡ holds height w
  unfolding interrupt
  interrupt-holds height receiving w h = rw (h) refl
  interrupt-holds height other w h = refl

  quit-holds :
      (height : ℤ) (at : Receiver) (phase : Ticker) (w : Watcher)
      → w.receiver ≡ at
      → w.ticker ≡ phase
      → holds height (quit at phase w) ≡ holds height w
  unfolding quit
  quit-holds height receiving (quitting payload) w h e = rw (h, e) refl
  quit-holds height at other w h e = refl

  forward_quit-holds :
      (height : ℤ) (at : Receiver) (phase : Ticker) (w : Watcher)
      → w.receiver ≡ at
      → w.ticker ≡ phase
      → holds height (forward_quit at phase w) ≡ holds height w
  unfolding forward_quit
  forward_quit-holds height forwarding waiting w h e = rw (h, e) refl
  forward_quit-holds height at other w h e = refl

  step-holds :
      (height : ℤ) (event : Event) (w : Watcher)
      → holds height (step refuses event w)
        ≡ holds height w || any_of (has_height height) (accepts event w)
  unfolding step
  step-holds height (arrives payload) w = on_payload-holds height payload w.receiver w refl
  step-holds height receives w = receive-holds height w.receiver w refl ∙ ground arith
  step-holds height ticks w = on_tick-holds height w.ticker w refl ∙ ground arith
  step-holds height steps w = tick-holds height w.ticker w refl ∙ ground arith
  step-holds height fails w = tick_fails-holds height w.ticker w refl ∙ ground arith
  step-holds height quits w = quit-holds height w.receiver w.ticker w refl refl ∙ ground arith
  step-holds height interrupts w = interrupt-holds height w.receiver w refl ∙ ground arith
  step-holds height forwards w =
      forward_quit-holds height w.receiver w.ticker w refl refl ∙ ground arith

  pub run-holds :
      (height : ℤ) (events : List Event) (w : Watcher)
      → holds height (run refuses events w)
        ≡ holds height w || any_of (has_height height) (taken_in events w)
  unfolding run
  run-holds height [] w = or_false (holds height w)
  run-holds height (event ∷ events) w =
      run-holds height events (step refuses event w)
      ∙ rw
          (
            step-holds height event w,
            any_of_append (has_height height) (accepts event w)
                (taken_in events (step refuses event w)),
          )
          (or_assoc (holds height w) (any_of (has_height height) (accepts event w))
            (any_of (has_height height) (taken_in events (step refuses event w))))
