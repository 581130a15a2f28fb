-- ===== src/Service/Leaving.antt =====
-- Who is subscribed, and how the handlers of pkg/super_node/service.go change it.
use vulcanize_db.Prelude.{
  ℕ, ◌≡◌, refl, sym, ap, ◌∙◌, String, Bool, true, false, ◌&&◌, ◌||◌, not, List, [], ◌∷◌, ◌++◌, ◌==◌,
  nat_eq, string_eq, is_empty, is_empty_iff, any_of, Bool-cases, inl, inr, arith,
}
use vulcanize_db.Prelude.Assoc.{has, delete, Distinct, has-delete, delete_absent}
use vulcanize_db.Service.Invariant.{IsWellFormed}
use vulcanize_db.Service.{
  State, Subscribers, Attempt, close_loop, close, quits, unsubscribe_loop, unsubscribe,
}

-- `id` is a subscriber of the type.
abbrev pub among : String → ℕ → List (ℕ × Subscribers) → Bool
among id ty m = any_of (λ entry. (ty == entry.0) && has id entry.1) m

-- Every subscriber of every type.
abbrev pub all_subscribers : List (ℕ × Subscribers) → Subscribers
all_subscribers [] = []
all_subscribers (entry ∷ m) = entry.1 ++ all_subscribers m

quits-append : (xs ys : Subscribers) → quits (xs ++ ys) ≡ quits xs ++ quits ys
quits-append [] ys = refl
quits-append (x ∷ xs) ys = rw (quits-append xs ys) refl

with_true : (b : Bool) → b ≡ b && true
with_true b = ground arith

among_tail : (x h r k : Bool) → h && not k ≡ false → r && not k ≡ (x && h || r) && not k
among_tail x h r k e = ground arith

among_both : (x h r k : Bool) → x && (h && not k) || r && not k ≡ (x && h || r) && not k
among_both x h r k = ground arith

module _ {Settings : Type 0} where
  unsubscribe_loop-among :
      (id other : String) (ty : ℕ) (m : List (ℕ × Subscribers)) (types : List (ℕ × Settings))
      → among other ty (unsubscribe_loop id m types).0 ≡ among other ty m && not (other == id)
  unfolding unsubscribe_loop
  unsubscribe_loop-among id other ty [] types = refl
  unsubscribe_loop-among id other ty (entry ∷ m) types =
      elim (Bool-cases (is_empty (delete id entry.1))) [
        | inl gone ↦
            let bare = (is_empty_iff (delete id entry.1)).0 gone in
            let missing = sym (has-delete other id entry.1) ∙ ap (has other) bare in
            rw (gone) (
              unsubscribe_loop-among id other ty m _
              ∙ among_tail (ty == entry.0) (has other entry.1) (among other ty m) (other == id)
                  missing)
        | inr left ↦
            rw (left, unsubscribe_loop-among id other ty m types, has-delete other id entry.1)
              (among_both (ty == entry.0) (has other entry.1) (among other ty m) (other == id))
      ]

  -- Unsubscribe removes the subscriber from every type, and nobody else from any.
  pub among-unsubscribe :
      (id other : String) (ty : ℕ) (s : State Settings)
      → among other ty (unsubscribe id s).subscriptions
        ≡ among other ty s.subscriptions && not (other == id)
  unfolding unsubscribe
  among-unsubscribe id other ty s =
      unsubscribe_loop-among id other ty s.subscriptions s.subscription_types

  abbrev pub closed : List (ℕ × Subscribers) → List (ℕ × Settings) → State Settings × List Attempt
  unfolding close_loop
  closed m types = close_loop m (record { subscriptions = m; subscription_types = types })

  -- `close` deletes the types one by one, each while it is the first.
  closed-next :
      (entry : ℕ × Subscribers) (m : List (ℕ × Subscribers)) (types : List (ℕ × Settings))
      → has entry.0 m ≡ false
      → closed (entry ∷ m) types ≡ (
        (closed m (delete entry.0 types)).0,
        quits entry.1 ++ (closed m (delete entry.0 types)).1,
      )
  unfolding close_loop
  closed-next entry m types d =
      let self : (entry.0 == entry.0) ≡ true = (nat_eq.equal_iff entry.0 entry.0).1 refl in
      rw (self, delete_absent entry.0 m d) refl

  closed-subscriptions :
      (m : List (ℕ × Subscribers)) (types : List (ℕ × Settings))
      → Distinct m
      → (closed m types).0.subscriptions ≡ []
  unfolding close_loop
  closed-subscriptions [] types d = refl
  closed-subscriptions (entry ∷ m) types d =
      ap (λ r. r.0.subscriptions) (closed-next entry m types d.0)
      ∙ closed-subscriptions m (delete entry.0 types) d.1

  closed-attempts :
      (m : List (ℕ × Subscribers)) (types : List (ℕ × Settings))
      → Distinct m
      → (closed m types).1 ≡ quits (all_subscribers m)
  unfolding close_loop
  closed-attempts [] types d = refl
  closed-attempts (entry ∷ m) types d =
      ap (λ r. r.1) (closed-next entry m types d.0)
      ∙ ap (◌++◌ (quits entry.1)) (closed-attempts m (delete entry.0 types) d.1)
      ∙ sym (quits-append entry.1 (all_subscribers m))

  closed-types :
      (ty : ℕ) (m : List (ℕ × Subscribers)) (types : List (ℕ × Settings))
      → Distinct m
      → has ty (closed m types).0.subscription_types ≡ has ty types && not (has ty m)
  unfolding close_loop
  closed-types ty [] types d = with_true (has ty types)
  closed-types ty (entry ∷ m) types d =
      ap (λ r. has ty r.0.subscription_types) (closed-next entry m types d.0)
      ∙ closed-types ty m (delete entry.0 types) d.1
      ∙ rw (has-delete ty entry.0 types) (either (has ty types) (ty == entry.0) (has ty m))
    where
      either : (a x h : Bool) → a && not x && not h ≡ a && not (x || h)
      either a x h = ground arith

  -- In a well-formed state Stop's `close` leaves no subscription and no settings, and attempts
  -- exactly one quit for each subscriber of each type.
  close-all :
      (s : State Settings)
      → IsWellFormed s
      → ((close s).0.subscriptions ≡ [])
        × ((ty : ℕ) → has ty (close s).0.subscription_types ≡ false)
        × ((close s).1 ≡ quits (all_subscribers s.subscriptions))
  unfolding close
  close-all s w = (
    closed-subscriptions s.subscriptions s.subscription_types w.distinct,
    λ ty.
        closed-types ty s.subscriptions s.subscription_types w.distinct
        ∙ rw (w.matched ty) (never (has ty s.subscription_types)),
    closed-attempts s.subscriptions s.subscription_types w.distinct,
  )
    where
      never : (a : Bool) → a && not a ≡ false
      never a = ground arith
