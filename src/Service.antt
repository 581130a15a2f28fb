-- ===== src/Service.antt =====
-- pkg/super_node/service.go, helpers.go and subscription.go: the subscriptions of the super node
-- and the handlers that change them. A handler takes the service's state and returns the new one
-- with the sends it attempts, in order; every send is non-blocking, so a client may miss any of
-- them and the service does not depend on it. A map is a list in some order, which is the order
-- in which `range` visits it. What varies with the chain (package eth or btc) and what is called
-- of go-ethereum, of Postgres and of IPFS is the record Components, a parameter. Logging is left
-- out. The mutex makes each handler atomic. The wait group is left out: Serve has been called. What
-- the goroutine of sendHistoricalData sends is listed with what Subscribe sends.
pub mod Invariant
pub mod Reachable
pub mod Backfill
pub mod Leaving
pub mod Serving
pub mod Sync
pub mod EthClient
pub mod Tests
use vulcanize_db.Prelude.{
  ℕ, zero, suc, ◌+◌, String, Bool, true, false, ◌&&◌, ◌||◌, not, List, [], ◌∷◌, ◌++◌, map, Option,
  none, some, ◌==◌, nat_eq, string_eq, is_empty, if◌then◌else◌,
}
use vulcanize_db.Prelude.Int.{ℤ, pos, negsuc, ltb_ℤ, ◌+ℤ◌, ◌-ℤ◌}
use vulcanize_db.Prelude.Assoc.{find, insert, delete}
use vulcanize_db.Go.{Bytes, Result, ok, err, panic, ◌>>=◌}
use vulcanize_db.Chain.{ChainType, chain_beq}

-- The texts of the errors that are sent to a client.
pub data ErrorText : Type 0 where
  wrong_chain : String → ChainType → ChainType → ErrorText
  encoding_error : String → ErrorText
  backfill_error : String → ErrorText
  retrieval_error fetching_error : ℤ → String → ErrorText

pub data Flag : Type 0 where
  empty_flag back_fill_complete_flag : Flag

pub record SubscriptionPayload : Type 0 where
  pub data_rlp : Bytes
  pub height : ℤ
  pub error : Option ErrorText
  pub flag : Flag

-- Channels are known by number.
pub record Subscription : Type 0 where
  pub id : String
  pub payload_chan : ℕ
  pub quit_chan : ℕ

pub data Attempt : Type 0 where
  send_payload : ℕ → SubscriptionPayload → Attempt
  send_quit : ℕ → Attempt

pub record Components (Settings Payload Iplds Cids : Type 0) : Type 0 where
  pub chain_type : Settings → ChainType
  pub starting_block : Settings → ℤ
  pub ending_block : Settings → ℤ
  pub historical_data : Settings → Bool
  pub historical_data_only : Settings → Bool
  pub settings_rlp : Settings → Result Bytes
  pub payload_height : Payload → ℤ
  pub filter : Settings → Payload → Result Iplds
  pub iplds_rlp : Iplds → Result Bytes
  pub iplds_height : Iplds → Result ℤ
  pub keccak256_hash : Bytes → ℕ
  pub retrieve_first_block_number : Result ℤ
  pub retrieve_last_block_number : Result ℤ
  -- The error if there is one, else the CIDs and whether there are none.
  pub retrieve : Settings → ℤ → Result (List Cids × Bool)
  pub fetch : Cids → Result Iplds

abbrev pub Subscribers : Type 0
Subscribers = List (String × Subscription)

pub record State (Settings : Type 0) : Type 0 where
  pub subscriptions : List (ℕ × Subscribers)
  pub subscription_types : List (ℕ × Settings)

-- sendNonBlockingErr and sendNonBlockingQuit
pub send_err : Subscription → ErrorText → Attempt
send_err sub text =
    send_payload sub.payload_chan
      (record { data_rlp = []; height = pos 0; error = some text; flag = empty_flag })

abbrev pub complete : Subscription → Attempt
complete sub =
    send_payload sub.payload_chan
      (record { data_rlp = []; height = pos 0; error = none; flag = back_fill_complete_flag })

abbrev pub refuse : Subscription → ErrorText → List Attempt
refuse sub text = send_err sub text ∷ send_quit sub.quit_chan ∷ []

abbrev pub quits : Subscribers → List Attempt
quits [] = []
quits (entry ∷ subs) = send_quit entry.1.quit_chan ∷ quits subs

abbrev pub found_or_none : Option Subscribers → Subscribers
found_or_none none = []
found_or_none (some subs) = subs

module _ {Settings : Type 0} where
  -- The state without a type, and a quit to each of its subscribers.
  pub close_type : ℕ → State Settings → State Settings × List Attempt
  close_type ty s = (
    record {
      subscriptions = delete ty s.subscriptions;
      subscription_types = delete ty s.subscription_types;
    },
    quits (found_or_none (find ty s.subscriptions)),
  )

  pub close_loop : List (ℕ × Subscribers) → State Settings → State Settings × List Attempt
  close_loop [] s = (s, [])
  close_loop (entry ∷ rest) s =
      let later = close_loop rest (record {
        subscriptions = delete entry.0 s.subscriptions;
        subscription_types = delete entry.0 s.subscription_types;
      }) in
      (later.0, quits entry.1 ++ later.1)

  pub close : State Settings → State Settings × List Attempt
  unfolding close_loop
  close s = close_loop s.subscriptions s

  -- The types that keep a subscriber, and their settings.
  pub unsubscribe_loop :
      String
      → List (ℕ × Subscribers)
      → List (ℕ × Settings)
      → List (ℕ × Subscribers) × List (ℕ × Settings)
  unsubscribe_loop id [] types = ([], types)
  unsubscribe_loop id (entry ∷ rest) types =
      let left = delete id entry.1 in
      let later =
        unsubscribe_loop id rest (if is_empty left then delete entry.0 types else types) in
      (if is_empty left then later.0 else (entry.0, left) ∷ later.0, later.1)

  pub unsubscribe : String → State Settings → State Settings
  unfolding unsubscribe_loop
  unsubscribe id s =
      let left = unsubscribe_loop id s.subscriptions s.subscription_types in
      record { subscriptions = left.0; subscription_types = left.1 }

  abbrev pub add_subscriber : ℕ → Subscription → Settings → State Settings → State Settings
  add_subscriber ty sub params s = record {
    subscriptions =
        insert ty (insert sub.id sub (found_or_none (find ty s.subscriptions))) s.subscriptions;
    subscription_types = insert ty params s.subscription_types;
  }

module _ {Settings Payload Iplds Cids : Type 0}
    (impl : Components Settings Payload Iplds Cids) where
  open impl use {
    chain_type, starting_block, ending_block, historical_data, historical_data_only, settings_rlp,
    payload_height, filter, iplds_rlp, iplds_height, keccak256_hash, retrieve_first_block_number,
    retrieve_last_block_number, retrieve, fetch,
  }

  -- The height of the response is computed again for each subscriber.
  pub send_loop : Bytes → Result ℤ → Subscribers → Result (List Attempt)
  send_loop rlp height [] = ok []
  send_loop rlp height (entry ∷ subs) = do
    h ← height
    later ← send_loop rlp height subs
    ok (
        send_payload entry.1.payload_chan
          (record { data_rlp = rlp; height = h; error = none; flag = empty_flag })
        ∷ later)

  -- The body of filterAndServe's loop from the encoding on, and from the filter on.
  pub serve_encoded :
      Subscribers → State Settings → Iplds → Result Bytes → Result (State Settings × List Attempt)
  unfolding send_loop
  serve_encoded subs s response panic = panic
  serve_encoded subs s response (err e) = ok (s, [])
  serve_encoded subs s response (ok rlp) = do
    sent ← send_loop rlp (iplds_height response) subs
    ok (s, sent)

  pub serve_response :
      ℕ → Subscribers → State Settings → Result Iplds → Result (State Settings × List Attempt)
  unfolding close_type serve_encoded
  serve_response ty subs s panic = panic
  serve_response ty subs s (err e) = ok (close_type ty s)
  serve_response ty subs s (ok response) = serve_encoded subs s response (iplds_rlp response)

  abbrev pub is_expired : Settings → Payload → Bool
  is_expired config payload =
      ltb_ℤ (pos 0) (ending_block config) && ltb_ℤ (ending_block config) (payload_height payload)

  -- The body of filterAndServe's loop, by the settings of the type.
  pub serve_config :
      Payload
      → ℕ
      → Subscribers
      → State Settings
      → Option Settings
      → Result (State Settings × List Attempt)
  unfolding serve_response
  serve_config payload ty subs s none = ok (close_type ty s)
  serve_config payload ty subs s (some config) =
      if is_expired config payload
      then ok (close_type ty s)
      else serve_response ty subs s (filter config payload)

  pub serve_type :
      Payload → ℕ → Subscribers → State Settings → Result (State Settings × List Attempt)
  unfolding serve_config
  serve_type payload ty subs s = serve_config payload ty subs s (find ty s.subscription_types)

  pub serve_loop :
      Payload → List (ℕ × Subscribers) → State Settings → Result (State Settings × List Attempt)
  unfolding serve_type
  serve_loop payload [] s = ok (s, [])
  serve_loop payload (entry ∷ rest) s = do
    served ← serve_type payload entry.0 entry.1 s
    later ← serve_loop payload rest served.0
    ok (later.0, served.1 ++ later.1)

  pub filter_and_serve : Payload → State Settings → Result (State Settings × List Attempt)
  unfolding serve_loop
  filter_and_serve payload s = serve_loop payload s.subscriptions s

  -- The backfill of one block: each CID wrapper is fetched, encoded and sent on its own.
  pub fetch_loop : Subscription → ℤ → List Cids → Result (List Attempt)
  unfolding send_err
  fetch_loop sub i [] = ok []
  fetch_loop sub i (cids ∷ rest) = do
    sent ← elim (fetch cids) [
      | panic ↦ panic
      | err e ↦ ok (send_err sub (fetching_error i e) ∷ [])
      | ok response ↦ elim (iplds_rlp response) [
        | panic ↦ panic
        | err e ↦ ok []
        | ok rlp ↦ do
          h ← iplds_height response
          ok (
              send_payload sub.payload_chan
                (record { data_rlp = rlp; height = h; error = none; flag = empty_flag })
              ∷ [])
      ]
    ]
    later ← fetch_loop sub i rest
    ok (sent ++ later)

  pub backfill_block : Subscription → Settings → ℤ → Result (List Attempt)
  unfolding fetch_loop
  backfill_block sub params i = elim (retrieve params i) [
    | panic ↦ panic
    | err e ↦ ok (send_err sub (retrieval_error i e) ∷ [])
    | ok found ↦ if found.1 then ok [] else fetch_loop sub i found.0
  ]

  -- The goroutine of sendHistoricalData, from block `i` on for as many blocks as are left;
  -- `closed` tells at which blocks QuitChan is found closed.
  pub backfill_loop : (ℤ → Bool) → Subscription → Settings → ℤ → ℕ → Result (List Attempt)
  unfolding backfill_block
  backfill_loop closed sub params i zero = ok (complete sub ∷ [])
  backfill_loop closed sub params i (suc n) =
      let later = backfill_loop closed sub params (i +ℤ pos 1) n in
      if closed i
      then ok []
      else (do sent ← backfill_block sub params i; rest ← later; ok (sent ++ rest))

  -- The first and last block of a backfill.
  pub historical_range : Settings → Result (ℤ × ℤ)
  historical_range params = do
    first ← retrieve_first_block_number
    let start = if ltb_ℤ first (starting_block params) then starting_block params else first
    last ← retrieve_last_block_number
    ok (
      start,
      if ltb_ℤ (ending_block params) last
            && (ltb_ℤ (pos 0) (ending_block params) && ltb_ℤ start (ending_block params))
          then ending_block params
          else last,
    )

  -- How often `for i := start; i <= stop; i++` runs.
  pub runs : ℤ → ℤ → ℕ
  runs start stop = elim (stop +ℤ pos 1 -ℤ start) [ pos n ↦ n | negsuc _ ↦ 0 ]

  -- sendHistoricalData: an error before the goroutine starts, or what the goroutine sends.
  pub send_historical_data : (ℤ → Bool) → Subscription → Settings → Result (List Attempt)
  unfolding historical_range backfill_loop runs
  send_historical_data closed sub params = do
    bounds ← historical_range params
    backfill_loop closed sub params bounds.0 (runs bounds.0 bounds.1)

  -- What Subscribe sends for a backfill that is asked for.
  pub subscribe_backfill : (ℤ → Bool) → Subscription → Settings → Result (List Attempt)
  unfolding send_historical_data
  subscribe_backfill closed sub params =
      if historical_data params || historical_data_only params
      then elim (send_historical_data closed sub params) [
        | panic ↦ panic
        | err e ↦ ok (refuse sub (backfill_error e))
        | ok sent ↦ ok sent
      ]
      else ok []

  -- Subscribe from the encoding of the settings on.
  pub subscribe_encoded :
      (ℤ → Bool)
      → Subscription
      → Settings
      → State Settings
      → Result Bytes
      → Result (State Settings × List Attempt)
  unfolding subscribe_backfill
  subscribe_encoded closed sub params s panic = panic
  subscribe_encoded closed sub params s (err e) = ok (s, refuse sub (encoding_error e))
  subscribe_encoded closed sub params s (ok rlp) = do
    let added =
        if historical_data_only params then s else add_subscriber (keccak256_hash rlp) sub params s
    sent ← subscribe_backfill closed sub params
    ok (added, sent)

  pub subscribe :
      ChainType
      → (ℤ → Bool)
      → Subscription
      → Settings
      → State Settings
      → Result (State Settings × List Attempt)
  unfolding subscribe_encoded
  subscribe chain closed sub params s =
      if not (chain_beq (chain_type params) chain)
      then ok (s, refuse sub (wrong_chain sub.id (chain_type params) chain))
      else subscribe_encoded closed sub params s (settings_rlp params)
