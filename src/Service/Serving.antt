-- ===== src/Service/Serving.antt =====
-- filterAndServe of pkg/super_node/service.go: which types it closes, and what a served type gets.
use vulcanize_db.Prelude.{
  ℕ, ◌≡◌, refl, ap, ◌∙◌, String, Bool, true, false, ◌&&◌, ◌||◌, not, List, [], ◌∷◌, ◌==◌, nat_eq,
  Bool-cases, inl, inr, none, some, Option, if◌then◌else◌, arith,
}
use vulcanize_db.Prelude.Assoc.{has, find, Distinct, has-delete, find-delete}
use vulcanize_db.Go.{Bytes, Result, ok, err, panic, >>=-eq-ok}
use vulcanize_db.Service.{
  State, Subscribers, Subscription, Components, Attempt, close_type, serve_response, serve_encoded,
  serve_config, serve_type, serve_loop, filter_and_serve, send_loop, is_expired,
}
use vulcanize_db.Service.Invariant.{IsWellFormed}

abbrev pub is_err : {A : Type 0} → Result A → Bool
is_err panic = false
is_err (err e) = true
is_err (ok a) = false

closed_all : (b : Bool) → b && false && true ≡ b && false
closed_all b = ground arith

tail_closed : (s m l : Bool) → s && not false && not (m && l) ≡ s && not ((false || m) && l)
tail_closed s m l = ground arith

module _ {Settings Payload Iplds Cids : Type 0} (impl : Components Settings Payload Iplds Cids)
    (payload : Payload) where
  -- A type is closed for want of settings, past its last block, or when the filter fails.
  abbrev pub closes : Option Settings → Bool
  closes none = true
  closes (some config) = is_expired impl config payload || is_err (impl.filter config payload)

  pub serve_encoded-state :
      (subs : Subscribers) (s : State Settings) (response : Iplds) (rlp : Result Bytes)
      (r : State Settings × List Attempt)
      → serve_encoded impl subs s response rlp ≡ ok r
      → r.0 ≡ s
  unfolding serve_encoded
  serve_encoded-state subs s response panic r h = cc
  serve_encoded-state subs s response (err e) r h = cc
  serve_encoded-state subs s response (ok rlp) r h =
      let (sent, run, h1) = >>=-eq-ok (send_loop impl rlp (impl.iplds_height response) subs) _ h in
      cc

  serve_response-state :
      (ty : ℕ) (subs : Subscribers) (s : State Settings) (response : Result Iplds)
      (r : State Settings × List Attempt)
      → serve_response impl ty subs s response ≡ ok r
      → r.0 ≡ (if is_err response then (close_type ty s).0 else s)
  unfolding serve_response
  serve_response-state ty subs s panic r h = cc
  serve_response-state ty subs s (err e) r h = cc
  serve_response-state ty subs s (ok response) r h =
      serve_encoded-state subs s response (impl.iplds_rlp response) r h

  serve_config-state :
      (ty : ℕ) (subs : Subscribers) (s : State Settings) (o : Option Settings)
      (r : State Settings × List Attempt)
      → serve_config impl payload ty subs s o ≡ ok r
      → r.0 ≡ (if closes o then (close_type ty s).0 else s)
  unfolding serve_config
  serve_config-state ty subs s none r h = cc
  serve_config-state ty subs s (some config) r h =
      elim (Bool-cases (is_expired impl config payload)) [
        | inl expired ↦ rw (expired) (cc (rw expired at h))
        | inr live ↦
            rw (live) (serve_response-state ty subs s (impl.filter config payload) r (rw live at h))
      ]

  -- What is left of a type after a loop over `m`.
  abbrev left_of : ℕ → List (ℕ × Subscribers) → State Settings → Bool
  left_of ty m t = has ty t.subscriptions && not (has ty m && closes (find ty t.subscription_types))

  step-closes :
      (entry : ℕ × Subscribers) (m : List (ℕ × Subscribers)) (s : State Settings) (ty : ℕ)
      → has entry.0 m ≡ false
      → left_of ty m
          (if closes (find entry.0 s.subscription_types) then (close_type entry.0 s).0 else s)
        ≡ left_of ty (entry ∷ m) s
  unfolding close_type
  step-closes entry m s ty d = elim (Bool-cases (closes (find entry.0 s.subscription_types))) [
    | inl gone ↦ elim (Bool-cases (ty == entry.0)) [
      | inl same ↦
          let e : ty ≡ entry.0 = (nat_eq.equal_iff ty entry.0).0 same in
          let self : (entry.0 == entry.0) ≡ true = (nat_eq.equal_iff entry.0 entry.0).1 refl in
          rw (e, gone, has-delete entry.0 entry.0 s.subscriptions, self, d)
            (closed_all (has entry.0 s.subscriptions))
      | inr other ↦
          rw
            (
              gone,
              has-delete ty entry.0 s.subscriptions,
              find-delete ty entry.0 s.subscription_types other,
              other,
            )
            (tail_closed (has ty s.subscriptions) (has ty m)
              (closes (find ty s.subscription_types)))
    ]
    | inr stays ↦ elim (Bool-cases (ty == entry.0)) [
      | inl same ↦
          let e : ty ≡ entry.0 = (nat_eq.equal_iff ty entry.0).0 same in
          let self : (entry.0 == entry.0) ≡ true = (nat_eq.equal_iff entry.0 entry.0).1 refl in
          rw (e, stays, self, d) refl
      | inr other ↦ rw (stays, other) refl
    ]
  ]

  serve_loop-closes :
      (m : List (ℕ × Subscribers)) (s : State Settings) (r : State Settings × List Attempt) (ty : ℕ)
      → serve_loop impl payload m s ≡ ok r
      → Distinct m
      → has ty r.0.subscriptions
        ≡ has ty s.subscriptions && not (has ty m && closes (find ty s.subscription_types))
  unfolding serve_loop serve_type close_type
  serve_loop-closes [] s r ty h d =
      let e : s ≡ r.0 = cc in rw (← e) (unchanged (has ty s.subscriptions))
    where
      unchanged : (b : Bool) → b ≡ b && true
      unchanged b = ground arith
  serve_loop-closes (entry ∷ m) s r ty h d =
      let (served, h1, h2) = >>=-eq-ok (serve_type impl payload entry.0 entry.1 s) _ h in
      let (later, h3, h4) = >>=-eq-ok (serve_loop impl payload m served.0) _ h2 in
      let same : r.0 ≡ later.0 = cc in
      let rest = serve_loop-closes m served.0 later ty h3 d.1 in
      let after =
        serve_config-state entry.0 entry.1 s (find entry.0 s.subscription_types) served h1 in
      ap (λ t. has ty t.subscriptions) same
      ∙ rest
      ∙ ap (left_of ty m) after
      ∙ step-closes entry m s ty d.0

  pub filter_and_serve-closes :
      (s : State Settings) (r : State Settings × List Attempt) (ty : ℕ)
      → filter_and_serve impl payload s ≡ ok r
      → IsWellFormed s
      → has ty r.0.subscriptions
        ≡ has ty s.subscriptions && not (closes (find ty s.subscription_types))
  unfolding filter_and_serve
  filter_and_serve-closes s r ty h w =
      serve_loop-closes s.subscriptions s r ty h w.distinct
      ∙ once (has ty s.subscriptions) (closes (find ty s.subscription_types))
    where
      once : (a l : Bool) → a && not (a && l) ≡ a && not l
      once a l = ground arith

  -- What is sent for a type that has settings, is within them, and whose response has a height.
  pub serve_config-sends :
      (ty : ℕ) (subs : Subscribers) (s : State Settings) (config : Settings) (response : Iplds)
      → is_expired impl config payload ≡ false
      → impl.filter config payload ≡ ok response
      → serve_config impl payload ty subs s (some config)
        ≡ serve_response impl ty subs s (ok response)
  unfolding serve_config
  serve_config-sends ty subs s config response live answer = rw (live, answer) refl

  pub serve_response-no_height :
      (ty : ℕ) (entry : String × Subscription) (subs : Subscribers) (s : State Settings)
      (response : Iplds) (rlp : Bytes)
      → impl.iplds_rlp response ≡ ok rlp
      → impl.iplds_height response ≡ panic
      → serve_response impl ty (entry ∷ subs) s (ok response) ≡ panic
  unfolding serve_response serve_encoded send_loop
  serve_response-no_height ty entry subs s response rlp encodes none_there =
      ap (serve_encoded impl (entry ∷ subs) s response) encodes ∙ rw (none_there) refl
