-- ===== src/Service/Reachable.antt =====
-- The handlers of pkg/super_node/service.go as steps of the service, and what holds in every
-- state that they reach from NewSuperNode's empty maps.
use vulcanize_db.Prelude.{
  ℕ, ◌≡◌, refl, String, Bool, List, [], ◌∷◌, Bool-cases, inl, inr, none, some, nat_eq, Option,
}
use vulcanize_db.Prelude.Int.{ℤ}
use vulcanize_db.Prelude.Assoc.{find}
use vulcanize_db.Go.{Bytes, Result, ok, err, panic, >>=-eq-ok}
use vulcanize_db.Chain.{ChainType, chain_beq}
use vulcanize_db.Service.{
  State, Subscribers, Subscription, Components, Attempt, close, unsubscribe, serve_response,
  serve_type, serve_config, serve_loop, filter_and_serve, add_subscriber, subscribe,
  subscribe_backfill, subscribe_encoded, is_expired, close_type,
}
use vulcanize_db.Service.Serving.{serve_encoded-state}
use vulcanize_db.Service.Invariant.{
  IsWellFormed, close_type-IsWellFormed, close-IsWellFormed, unsubscribe-IsWellFormed,
  add_subscriber-IsWellFormed,
}

-- NewSuperNode's maps.
abbrev pub no_subscriptions : {Settings : Type 0} → State Settings
no_subscriptions = record { subscriptions = []; subscription_types = [] }

no_subscriptions-IsWellFormed :
    {Settings : Type 0} → IsWellFormed {Settings = Settings} no_subscriptions
no_subscriptions-IsWellFormed = record { distinct = tt; matched = λ ty. refl; inhabited = tt }

module _ {Settings Payload Iplds Cids : Type 0} (impl : Components Settings Payload Iplds Cids)
    (chain : ChainType) where
  serve_response-IsWellFormed :
      (payload : Payload) (ty : ℕ) (subs : Subscribers) (s : State Settings)
      (response : Result Iplds) (r : State Settings × List Attempt)
      → serve_response impl ty subs s response ≡ ok r
      → IsWellFormed s
      → IsWellFormed r.0
  unfolding serve_response
  serve_response-IsWellFormed payload ty subs s panic r h w = cc
  serve_response-IsWellFormed payload ty subs s (err e) r h w =
      let same : r ≡ close_type ty s = cc in rw (same) (close_type-IsWellFormed ty s w)
  serve_response-IsWellFormed payload ty subs s (ok response) r h w =
      rw (serve_encoded-state impl payload subs s response (impl.iplds_rlp response) r h) w

  serve_config-IsWellFormed :
      (payload : Payload) (ty : ℕ) (subs : Subscribers) (s : State Settings) (o : Option Settings)
      (r : State Settings × List Attempt)
      → serve_config impl payload ty subs s o ≡ ok r
      → IsWellFormed s
      → IsWellFormed r.0
  unfolding serve_config
  serve_config-IsWellFormed payload ty subs s none r h w =
      let same : close_type ty s ≡ r = cc in rw (← same) (close_type-IsWellFormed ty s w)
  serve_config-IsWellFormed payload ty subs s (some config) r h w =
      elim (Bool-cases (is_expired impl config payload)) [
        | inl expired ↦
            let same : close_type ty s ≡ r = cc (rw expired at h) in
            rw (← same) (close_type-IsWellFormed ty s w)
        | inr live ↦
            serve_response-IsWellFormed payload ty subs s (impl.filter config payload) r
              (rw live at h) w
      ]

  serve_type-IsWellFormed :
      (payload : Payload) (ty : ℕ) (subs : Subscribers) (s : State Settings)
      (r : State Settings × List Attempt)
      → serve_type impl payload ty subs s ≡ ok r
      → IsWellFormed s
      → IsWellFormed r.0
  unfolding serve_type
  serve_type-IsWellFormed payload ty subs s r h w =
      serve_config-IsWellFormed payload ty subs s (find ty s.subscription_types) r h w

  serve_loop-IsWellFormed :
      (payload : Payload) (m : List (ℕ × Subscribers)) (s : State Settings)
      (r : State Settings × List Attempt)
      → serve_loop impl payload m s ≡ ok r
      → IsWellFormed s
      → IsWellFormed r.0
  unfolding serve_loop
  serve_loop-IsWellFormed payload [] s r h w = let same : r ≡ (s, []) = cc in rw (same) w
  serve_loop-IsWellFormed payload (entry ∷ m) s r h w =
      let (served, h1, h2) = >>=-eq-ok (serve_type impl payload entry.0 entry.1 s) _ h in
      let (later, h3, h4) = >>=-eq-ok (serve_loop impl payload m served.0) _ h2 in
      let same : r.0 ≡ later.0 = cc in
      rw (same) (
        serve_loop-IsWellFormed payload m served.0 later h3
          (serve_type-IsWellFormed payload entry.0 entry.1 s served h1 w))

  filter_and_serve-IsWellFormed :
      (payload : Payload) (s : State Settings) (r : State Settings × List Attempt)
      → filter_and_serve impl payload s ≡ ok r
      → IsWellFormed s
      → IsWellFormed r.0
  unfolding filter_and_serve
  filter_and_serve-IsWellFormed payload s r h w =
      serve_loop-IsWellFormed payload s.subscriptions s r h w

  subscribe_encoded-IsWellFormed :
      (closed : ℤ → Bool) (sub : Subscription) (params : Settings) (s : State Settings)
      (rlp : Result Bytes) (r : State Settings × List Attempt)
      → subscribe_encoded impl closed sub params s rlp ≡ ok r
      → IsWellFormed s
      → IsWellFormed r.0
  unfolding subscribe_encoded
  subscribe_encoded-IsWellFormed closed sub params s panic r h w = cc
  subscribe_encoded-IsWellFormed closed sub params s (err e) r h w =
      let same : s ≡ r.0 = cc in rw (← same) w
  subscribe_encoded-IsWellFormed closed sub params s (ok rlp) r h w =
      let (sent, h1, h2) = >>=-eq-ok (subscribe_backfill impl closed sub params) _ h in
      elim (Bool-cases (impl.historical_data_only params)) [
        | inl only ↦ let same : s ≡ r.0 = cc (rw only at h2) in rw (← same) w
        | inr streams ↦
            let same : add_subscriber (impl.keccak256_hash rlp) sub params s ≡ r.0 =
              cc (rw streams at h2) in
            rw (← same) (add_subscriber-IsWellFormed (impl.keccak256_hash rlp) sub params s w)
      ]

  subscribe-IsWellFormed :
      (closed : ℤ → Bool) (sub : Subscription) (params : Settings) (s : State Settings)
      (r : State Settings × List Attempt)
      → subscribe impl chain closed sub params s ≡ ok r
      → IsWellFormed s
      → IsWellFormed r.0
  unfolding subscribe
  subscribe-IsWellFormed closed sub params s r h w =
      elim (Bool-cases (chain_beq (impl.chain_type params) chain)) [
        | inr other ↦ let same : s ≡ r.0 = cc (rw other at h) in rw (← same) w
        | inl supported ↦
            subscribe_encoded-IsWellFormed closed sub params s (impl.settings_rlp params) r
              (rw supported at h) w
      ]

  -- One handler runs to its end under the mutex.
  pub data Step : State Settings → State Settings → Type 0 where
    serves :
        (payload : Payload) (s : State Settings) (r : State Settings × List Attempt)
        → filter_and_serve impl payload s ≡ ok r
        → Step s r.0
    subscribes :
        (closed : ℤ → Bool) (sub : Subscription) (params : Settings) (s : State Settings)
        (r : State Settings × List Attempt)
        → subscribe impl chain closed sub params s ≡ ok r
        → Step s r.0
    unsubscribes : (id : String) (s : State Settings) → Step s (unsubscribe id s)
    stops : (s : State Settings) → Step s (close s).0

  -- Reachable in any number of steps from a new super node.
  pub data Reachable : State Settings → Type 0 where
    starts : Reachable no_subscriptions
    steps : (s t : State Settings) → Reachable s → Step s t → Reachable t

  Step-IsWellFormed : (s t : State Settings) → Step s t → IsWellFormed s → IsWellFormed t
  Step-IsWellFormed _ _ (serves payload s r h) w = filter_and_serve-IsWellFormed payload s r h w
  Step-IsWellFormed _ _ (subscribes closed sub params s r h) w =
      subscribe-IsWellFormed closed sub params s r h w
  Step-IsWellFormed _ _ (unsubscribes id s) w = unsubscribe-IsWellFormed id s w
  Step-IsWellFormed _ _ (stops s) w = close-IsWellFormed s w

  -- In every state that the handlers reach, in any order and on any input, from a new super node,
  -- a type has settings exactly when it has subscribers, no type is listed twice, and no type is
  -- kept without a subscriber.
  pub Reachable-IsWellFormed : (s : State Settings) → Reachable s → IsWellFormed s
  Reachable-IsWellFormed _ starts = no_subscriptions-IsWellFormed
  Reachable-IsWellFormed _ (steps before s r step) =
      Step-IsWellFormed before s step (Reachable-IsWellFormed before r)
