-- ===== src/Service/Tests.antt =====
-- The service with two subscribers, on a chain whose blocks are their heights.
use vulcanize_db.Prelude.{
  ℕ, ◌≡◌, ◌⊎◌, refl, Bool, false, ◌&&◌, not, [], ◌∷◌, ◌++◌, ◌==◌, string_eq, nat_eq, arith, String,
}
use vulcanize_db.Prelude.Int.{ℤ, pos, ◌≤ℤ◌}
use vulcanize_db.Prelude.Assoc.{has, find}
use vulcanize_db.Go.{Result, ok, err}
use vulcanize_db.Chain.{ethereum}
use vulcanize_db.Service.{
  Components, State, Subscription, send_quit, filter_and_serve, subscribe, unsubscribe, complete,
  backfill_loop, historical_range, add_subscriber,
}
use vulcanize_db.Service.Invariant.{IsWellFormed}
use vulcanize_db.Service.Reachable.{
  Reachable, starts, steps, subscribes, Reachable-IsWellFormed, no_subscriptions,
}
use vulcanize_db.Service.Leaving.{among, among-unsubscribe}
use vulcanize_db.Service.Serving.{closes, filter_and_serve-closes}
use vulcanize_db.Service.Backfill.{Asked, Indexed, historical_range-bounds}
use vulcanize_db.Service.Sync.{forward_all, newest, forward_all-newest}

-- Settings are the last block and whether history is wanted.
abbrev ledger : Result ℤ → Components (ℤ × Bool) ℤ ℤ ℤ
ledger first = record {
  chain_type = λ _. ethereum;
  starting_block = λ _. pos 2;
  ending_block = λ p. p.0;
  historical_data = λ p. p.1;
  historical_data_only = λ _. false;
  settings_rlp = λ p. ok (1 ∷ []);
  payload_height = λ h. h;
  filter = λ p h. ok h;
  iplds_rlp = λ h. ok (7 ∷ []);
  iplds_height = λ h. ok h;
  keccak256_hash = λ bytes. 5;
  retrieve_first_block_number = first;
  retrieve_last_block_number = ok (pos 9);
  retrieve = λ p h. err "no row";
  fetch = λ h. ok h;
}

abbrev alice : Subscription
alice = record { id = "alice"; payload_chan = 1; quit_chan = 2 }

abbrev to_four : ℤ × Bool
to_four = (pos 4, false)

abbrev one_subscriber : State (ℤ × Bool)
one_subscriber = add_subscriber 5 alice to_four no_subscriptions

subscribed :
    subscribe (ledger (ok (pos 0))) ethereum (λ _. false) alice to_four no_subscriptions
    ≡ ok (one_subscriber, [])
unfolding subscribe
subscribed = refl

one_subscriber-Reachable : Reachable (ledger (ok (pos 0))) ethereum one_subscriber
one_subscriber-Reachable =
    steps no_subscriptions one_subscriber starts
      (subscribes (λ _. false) alice to_four no_subscriptions (one_subscriber, []) subscribed)

Reachable-IsWellFormed_example : IsWellFormed one_subscriber
Reachable-IsWellFormed_example =
    Reachable-IsWellFormed (ledger (ok (pos 0))) ethereum one_subscriber one_subscriber-Reachable

one_subscriber-IsWellFormed : IsWellFormed one_subscriber
one_subscriber-IsWellFormed = record {
  distinct = (refl, tt);
  matched = λ ty. refl;
  inhabited = (refl, tt);
}

among-unsubscribe_example :
    among "alice" 5 (unsubscribe "bob" one_subscriber).subscriptions
    ≡ among "alice" 5 one_subscriber.subscriptions && not (◌==◌ {A = String} "alice" "bob")
among-unsubscribe_example = among-unsubscribe "bob" "alice" 5 one_subscriber

-- The fifth block is past the last one asked for.
expired :
    filter_and_serve (ledger (ok (pos 0))) (pos 5) one_subscriber
    ≡ ok (no_subscriptions, send_quit 2 ∷ [])
unfolding filter_and_serve
expired = refl

filter_and_serve-closes_example :
    has 5 (no_subscriptions {Settings = ℤ × Bool}).subscriptions
    ≡ has 5 one_subscriber.subscriptions
      && not (closes (ledger (ok (pos 0))) (pos 5) (find 5 one_subscriber.subscription_types))
filter_and_serve-closes_example =
    filter_and_serve-closes (ledger (ok (pos 0))) (pos 5) one_subscriber
      (no_subscriptions, send_quit 2 ∷ []) 5 expired one_subscriber-IsWellFormed

historical_range-bounds_example :
    (pos 0 ≤ℤ pos 2)
    × (pos 2 ≤ℤ pos 2)
    × ((pos 2 ≡ pos 0) ⊎ (pos 2 ≡ pos 2))
    × (Asked (pos 4) (pos 9) (pos 2, pos 4) ⊎ Indexed (pos 4) (pos 9) (pos 2, pos 4))
unfolding historical_range
historical_range-bounds_example =
    historical_range-bounds (ledger (ok (pos 0))) to_four (pos 0) (pos 9) (pos 2, pos 4) refl refl
      refl

unfolded_backfill :
    backfill_loop (ledger (ok (pos 0))) (λ _. false) alice to_four (pos 2) 0
    ≡ ok (complete alice ∷ [])
unfolding backfill_loop
unfolded_backfill = refl

forward_all-newest_example :
    forward_all {A = ℕ} 2 (1 ∷ []) (2 ∷ 3 ∷ []) ≡ newest {A = ℕ} 2 ((1 ∷ []) ++ 2 ∷ 3 ∷ [])
forward_all-newest_example = forward_all-newest 2 (1 ∷ []) (2 ∷ 3 ∷ []) (omega arith) (omega arith)
