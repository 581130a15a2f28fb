-- ===== src/Service/Backfill.antt =====
-- sendHistoricalData and Subscribe of pkg/super_node/service.go: the range of a backfill, its last
-- message, and a backfill that fails.
use vulcanize_db.Prelude.{
  ℕ, zero, suc, ◌≡◌, ◌⊎◌, refl, sym, ap, ◌∙◌, String, Bool, true, false, ◌&&◌, List, [], ◌∷◌, ◌++◌,
  ◌==◌, nat_eq, string_eq, arith, if◌then◌else◌,
}
use mathlib.Core.List.{append_assoc}
use vulcanize_db.Prelude.Int.{ℤ, pos, ◌+ℤ◌, ◌≤ℤ◌, ◌<ℤ◌, ltb_ℤ}
use vulcanize_db.Go.{Bytes, ok, err, >>=-eq-ok}
use vulcanize_db.Service.{
  State, Subscription, Components, Attempt, complete, backfill_block, backfill_loop,
  historical_range, send_historical_data, subscribe_backfill, subscribe_encoded, add_subscriber,
  refuse, backfill_error,
}
use vulcanize_db.Service.Leaving.{among}

-- The range ends at the last block asked for.
abbrev pub Asked : ℤ → ℤ → ℤ × ℤ → Type 0
Asked ending last range =
    (range.1 ≡ ending) × (ending <ℤ last) × (pos 0 <ℤ ending) × (range.0 <ℤ ending)

-- The range ends at the last block indexed.
abbrev pub Indexed : ℤ → ℤ → ℤ × ℤ → Type 0
Indexed ending last range =
    (range.1 ≡ last) × ((last ≤ℤ ending) ⊎ ((ending ≤ℤ pos 0) ⊎ (ending ≤ℤ range.0)))

module _ {Settings Payload Iplds Cids : Type 0}
    (impl : Components Settings Payload Iplds Cids) where
  -- The backfill starts at the later of the first block indexed and the first block asked for. It
  -- ends at the last block asked for when that is positive, before the last block indexed and after the
  -- start; in every other case it ends at the last block indexed.
  pub historical_range-bounds :
      (params : Settings) (first last : ℤ) (range : ℤ × ℤ)
      → impl.retrieve_first_block_number ≡ ok first
      → impl.retrieve_last_block_number ≡ ok last
      → historical_range impl params ≡ ok range
      → (first ≤ℤ range.0)
        × (impl.starting_block params ≤ℤ range.0)
        × ((range.0 ≡ first) ⊎ (range.0 ≡ impl.starting_block params))
        × (Asked (impl.ending_block params) last range
            ⊎ Indexed (impl.ending_block params) last range)
  unfolding historical_range
  historical_range-bounds params first last range f l h =
      let same : start_and_stop (impl.starting_block params) (impl.ending_block params) ≡ range =
        cc (rw (f, l) at h) in
      rw (← same) (bounded (impl.starting_block params) (impl.ending_block params))
    where
      start_and_stop : ℤ → ℤ → ℤ × ℤ
      start_and_stop from to =
          let start = if ltb_ℤ first from then from else first in
          (start, if ltb_ℤ to last && (ltb_ℤ (pos 0) to && ltb_ℤ start to) then to else last)

      bounded :
          (from to : ℤ)
          → (first ≤ℤ (start_and_stop from to).0)
            × (from ≤ℤ (start_and_stop from to).0)
            × (((start_and_stop from to).0 ≡ first) ⊎ ((start_and_stop from to).0 ≡ from))
            × (Asked to last (start_and_stop from to) ⊎ Indexed to last (start_and_stop from to))
      bounded from to = ground arith

  -- A backfill that is not shut down ends with the notice of completion, also when blocks on the
  -- way could not be retrieved or fetched.
  backfill_loop-complete :
      (sub : Subscription) (params : Settings) (i : ℤ) (n : ℕ) (sent : List Attempt)
      → backfill_loop impl (λ _. false) sub params i n ≡ ok sent
      → (before : List Attempt) × (sent ≡ before ++ complete sub ∷ [])
  unfolding backfill_loop
  backfill_loop-complete sub params i zero sent h = ([], cc)
  backfill_loop-complete sub params i (suc n) sent h =
      let (block, h1, h2) = >>=-eq-ok (backfill_block impl sub params i) _ h in
      let (rest, h3, h4) =
        >>=-eq-ok (backfill_loop impl (λ _. false) sub params (i +ℤ pos 1) n) _ h2 in
      let (before, e) = backfill_loop-complete sub params (i +ℤ pos 1) n rest h3 in
      let joined : sent ≡ block ++ rest = cc in
      (
        block ++ before,
        joined ∙ ap (◌++◌ block) e ∙ sym (append_assoc block before (complete sub ∷ [])),
      )

  -- A subscriber to new blocks whose backfill fails is sent the error and a quit, and stays
  -- subscribed all the same.
  subscribe_encoded-failed_backfill :
      (closed : ℤ → Bool) (sub : Subscription) (params : Settings) (s : State Settings)
      (rlp : Bytes) (message : String) (r : State Settings × List Attempt)
      → impl.historical_data params ≡ true
      → impl.historical_data_only params ≡ false
      → send_historical_data impl closed sub params ≡ err message
      → subscribe_encoded impl closed sub params s (ok rlp) ≡ ok r
      → (r.1 ≡ refuse sub (backfill_error message))
        × (among sub.id (impl.keccak256_hash rlp) r.0.subscriptions ≡ true)
  unfolding subscribe_encoded subscribe_backfill
  subscribe_encoded-failed_backfill closed sub params s rlp message r history streams fails h =
      let ty = impl.keccak256_hash rlp in
      let same : (add_subscriber ty sub params s, refuse sub (backfill_error message)) ≡ r =
        cc (rw (history, streams, fails) at h) in
      let here : (ty == ty) ≡ true = (nat_eq.equal_iff ty ty).1 refl in
      let self : (sub.id == sub.id) ≡ true = (string_eq.equal_iff sub.id sub.id).1 refl in
      rw (← same) (refl, rw (here, self) refl)
