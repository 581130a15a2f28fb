-- ===== src/Watcher.antt =====
-- combinedQueuing of pkg/watcher/service.go, with QueueData and GetQueueData of
-- pkg/watcher/eth/repository.go. The goroutine that takes payloads (Receiver) and the one that loads
-- queued data on a tick (Ticker) are steps on one state, one step for each access to the index, to
-- the database or to a channel, in any order. forwardQuit has no buffer; QuitChan, which the caller
-- makes, is taken to have none and no receiver but the service. A send waits for its receiver. A
-- payload is its height and whether it carries an error; the payloads given to
-- ReadyData are recorded, and its errors, which are logged, change nothing here. Which payloads the
-- database refuses to queue is a parameter. The errors of the subscription and VACUUM are left out.
pub mod Deadlock
pub mod Queue
pub mod Kept
pub mod Tests
use vulcanize_db.Prelude.{
  ℕ, Bool, true, false, List, [], ◌∷◌, ◌++◌, Option, none, some, ◌==◌, if◌then◌else◌,
}
use vulcanize_db.Prelude.Int.{ℤ, pos, ◌+ℤ◌, ltb_ℤ, int_eq}
use vulcanize_db.Go.{Result, ok, panic}

-- super_node.SubscriptionPayload, of which the watcher reads these
pub record Payload : Type 0 where
  pub height : ℤ
  pub has_error : Bool

-- Where the goroutine that takes payloads is: at its select, before ReadyData or QueueData of a
-- payload, before it increments the index, before its send on forwardQuit, or at its end.
pub data Receiver : Type 0 where
  receiving : Receiver
  matched unmatched : Payload → Receiver
  advancing forwarding returned : Receiver

-- Where the other goroutine is: at its select, before GetQueueData at an index, before it stores the
-- new index, before it compares the index, before its send on QuitChan, before ReadyData, or at its
-- end.
pub data Ticker : Type 0 where
  waiting : Ticker
  fetching : ℤ → Ticker
  loaded : Payload → ℤ → Ticker
  stored quitting readying : Payload → Ticker
  finished : Ticker

pub record Watcher : Type 0 where
  pub payload_index : ℤ
  pub ending_index : ℤ
  pub queued_data : List Payload
  -- the calls of ReadyData, in order
  pub readied : List Payload
  pub receiver : Receiver
  pub ticker : Ticker

-- The pointer payloadIndex that NewWatcher leaves
abbrev pub new_payload_index : Option ℤ
new_payload_index = none

-- What Watch starts with: it stores the starting block at the pointer payloadIndex.
pub watch : Option ℤ → ℤ → ℤ → List Payload → Result Watcher
watch none starting_block ending_block queue = panic
watch (some _) starting_block ending_block queue = ok (record {
  payload_index = starting_block;
  ending_index = ending_block;
  queued_data = queue;
  readied = [];
  receiver = receiving;
  ticker = waiting;
})

abbrev pub taken :
    Payload
    → List Payload
    → Bool
    → Option (Payload × List Payload)
    → Option (Payload × List Payload)
taken row rows true later = some (row, rows)
taken row rows false none = none
taken row rows false (some (found, rest)) = some (found, row ∷ rest)

-- `DELETE FROM eth.queued_data WHERE height = $1 RETURNING *`; the heights of the table are unique.
pub take_height : ℤ → List Payload → Option (Payload × List Payload)
take_height height [] = none
take_height height (row ∷ rows) = taken row rows (row.height == height) (take_height height rows)

-- `INSERT INTO eth.queued_data ... ON CONFLICT (height) DO UPDATE`
pub put_height : Payload → List Payload → List Payload
put_height payload [] = payload ∷ []
put_height payload (row ∷ rows) =
    let rest = put_height payload rows in
    if row.height == payload.height then payload ∷ rows else row ∷ rest

-- `case payload := <-s.PayloadChan` up to the comparison with the index
pub on_payload : Payload → Receiver → Watcher → Watcher
on_payload payload receiving w =
    if payload.has_error
    then w
    else if payload.height == w.payload_index
    then record w { receiver = matched payload }
    else record w { receiver = unmatched payload }
on_payload payload other w = w

module _ (refuses : Payload → Bool) where
  -- The next step of the goroutine that takes payloads, once it has one
  pub receive : Receiver → Watcher → Watcher
  unfolding put_height
  receive (matched payload) w = record w {
    readied = w.readied ++ payload ∷ [];
    receiver = advancing;
  }
  receive (unmatched payload) w =
      if refuses payload
      then record w { receiver = receiving }
      else record w { queued_data = put_height payload w.queued_data; receiver = receiving }
  receive advancing w =
      let next = w.payload_index +ℤ pos 1 in
      record w {
        payload_index = next;
        receiver = if ltb_ℤ w.ending_index next then forwarding else receiving;
      }
  receive other w = w

-- `case <-ticker.C`, with the index that GetQueueData is given
pub on_tick : Ticker → Watcher → Watcher
on_tick waiting w = record w { ticker = fetching w.payload_index }
on_tick other w = w

abbrev pub with_loaded : ℤ → Watcher → Option (Payload × List Payload) → Watcher
with_loaded height w none = record w { ticker = waiting }
with_loaded height w (some (payload, rest)) = record w {
  queued_data = rest;
  ticker = loaded payload (height +ℤ pos 1);
}

-- The next step of a tick that has begun
pub tick : Ticker → Watcher → Watcher
unfolding take_height
tick (fetching height) w = with_loaded height w (take_height height w.queued_data)
tick (loaded payload index) w = record w { payload_index = index; ticker = stored payload }
tick (stored payload) w = record w {
  ticker = if ltb_ℤ w.ending_index w.payload_index then quitting payload else readying payload;
}
tick (readying payload) w = record w { readied = w.readied ++ payload ∷ []; ticker = waiting }
tick other w = w

-- GetQueueData fails without an effect.
pub tick_fails : Ticker → Watcher → Watcher
tick_fails (fetching height) w = record w { ticker = waiting }
tick_fails other w = w

-- The send on QuitChan of a tick, received by the other goroutine
pub quit : Receiver → Ticker → Watcher → Watcher
quit receiving (quitting payload) w = record w { receiver = forwarding; ticker = readying payload }
quit at other w = w

-- A send on QuitChan from outside of the service
pub interrupt : Receiver → Watcher → Watcher
interrupt receiving w = record w { receiver = forwarding }
interrupt other w = w

-- The send on forwardQuit, received by the goroutine of the ticks
pub forward_quit : Receiver → Ticker → Watcher → Watcher
forward_quit forwarding waiting w = record w { receiver = returned; ticker = finished }
forward_quit at other w = w

pub data Event : Type 0 where
  arrives : Payload → Event
  receives ticks steps fails quits interrupts forwards : Event

module _ (refuses : Payload → Bool) where
  pub step : Event → Watcher → Watcher
  unfolding on_payload receive on_tick tick tick_fails quit interrupt forward_quit
  step (arrives payload) w = on_payload payload w.receiver w
  step receives w = receive refuses w.receiver w
  step ticks w = on_tick w.ticker w
  step steps w = tick w.ticker w
  step fails w = tick_fails w.ticker w
  step quits w = quit w.receiver w.ticker w
  step interrupts w = interrupt w.receiver w
  step forwards w = forward_quit w.receiver w.ticker w

  pub run : List Event → Watcher → Watcher
  unfolding step
  run [] w = w
  run (event ∷ events) w = run events (step event w)
