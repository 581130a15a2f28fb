-- ===== src/Service/Invariant.antt =====
-- The invariant of the two maps of pkg/super_node/service.go, and the handlers that keep it.
use mathlib.Core.Path.{◌≡◌, refl, sym, ap, ◌∙◌}
use vulcanize_db.Prelude.{
  ℕ, String, Bool, true, false, ◌&&◌, ◌||◌, not, List, [], ◌∷◌, ◌==◌, nat_eq, string_eq, is_empty,
  any_of, Bool-cases, inl, inr, arith,
}
use vulcanize_db.Prelude.Assoc.{
  has, find, delete, insert, Distinct, has-delete, Distinct-delete, Distinct-insert,
}
use vulcanize_db.Service.{
  State, Subscribers, Subscription, close_type, close_loop, close, unsubscribe_loop, unsubscribe,
  add_subscriber, found_or_none,
}

-- No type is kept without a subscriber.
abbrev pub AllInhabited : List (ℕ × Subscribers) → Type 0
AllInhabited [] = Unit
AllInhabited (entry ∷ m) = (is_empty entry.1 ≡ false) × AllInhabited m

-- A type has subscribers exactly when it has settings.
pub record IsWellFormed {Settings : Type 0} (s : State Settings) : Type 0 where
  pub distinct : Distinct s.subscriptions
  pub matched : (ty : ℕ) → has ty s.subscriptions ≡ has ty s.subscription_types
  pub inhabited : AllInhabited s.subscriptions

AllInhabited-delete :
    (ty : ℕ) (m : List (ℕ × Subscribers)) → AllInhabited m → AllInhabited (delete ty m)
AllInhabited-delete ty [] h = h
AllInhabited-delete ty (entry ∷ m) h = elim (Bool-cases (ty == entry.0)) [
  | inl same ↦ rw (same) (AllInhabited-delete ty m h.1)
  | inr other ↦ rw (other) (h.0, AllInhabited-delete ty m h.1)
]

-- Whether the type keeps a subscriber, or loses its last one, when `id` leaves.
abbrev pub keeps : String → ℕ → List (ℕ × Subscribers) → Bool
keeps id ty m = any_of (λ entry. (ty == entry.0) && not (is_empty (delete id entry.1))) m

abbrev pub loses : String → ℕ → List (ℕ × Subscribers) → Bool
loses id ty m = any_of (λ entry. (ty == entry.0) && is_empty (delete id entry.1)) m

-- What the loop's two branches do to the tests above.
gone_keeps : (x k : Bool) → k ≡ x && not true || k
gone_keeps x k = ground arith

left_keeps : (x k : Bool) → x || k ≡ x && not false || k
left_keeps x k = ground arith

with_true : (b : Bool) → b ≡ b && true
with_true b = ground arith

gone_loses : (a x l : Bool) → a && not x && not l ≡ a && not (x && true || l)
gone_loses a x l = ground arith

left_loses : (a x l : Bool) → a && not l ≡ a && not (x && false || l)
left_loses a x l = ground arith

-- In a map without duplicates a type that is present keeps or loses, and never both.
absent_keeps :
    (id : String) (ty : ℕ) (m : List (ℕ × Subscribers))
    → has ty m ≡ false
    → (keeps id ty m ≡ false) × (loses id ty m ≡ false)
absent_keeps id ty [] h = (refl, refl)
absent_keeps id ty (entry ∷ m) h =
    let parts = or_false (ty == entry.0) (has ty m) h in
    let rest = absent_keeps id ty m parts.1 in rw (parts.0, rest.0, rest.1) (refl, refl)
  where
    or_false : (a b : Bool) → a || b ≡ false → (a ≡ false) × (b ≡ false)
    or_false a b h = ground arith

kept :
    (id : String) (ty : ℕ) (m : List (ℕ × Subscribers))
    → Distinct m
    → keeps id ty m ≡ has ty m && not (loses id ty m)
kept id ty [] d = refl
kept id ty (entry ∷ m) d = elim (Bool-cases (ty == entry.0)) [
  | inl same ↦
      let e : ty ≡ entry.0 = (nat_eq.equal_iff ty entry.0).0 same in
      let rest = absent_keeps id ty m (rw (e) d.0) in
      rw (same, rest.0, rest.1) (flip (is_empty (delete id entry.1)))
  | inr other ↦ rw (other) (kept id ty m d.1)
]
  where
    flip : (b : Bool) → not b || false ≡ not (b || false)
    flip true = refl
    flip false = refl

module _ {Settings : Type 0} where
  pub delete-IsWellFormed :
      (ty : ℕ) (s : State Settings)
      → IsWellFormed s
      → IsWellFormed (record {
        subscriptions = delete ty s.subscriptions;
        subscription_types = delete ty s.subscription_types;
      })
  delete-IsWellFormed ty s w = record {
    distinct = Distinct-delete ty s.subscriptions w.distinct;
    matched = λ t.
        has-delete t ty s.subscriptions
        ∙ ap (λ b. b && not (t == ty)) (w.matched t)
        ∙ sym (has-delete t ty s.subscription_types);
    inhabited = AllInhabited-delete ty s.subscriptions w.inhabited;
  }

  pub close_type-IsWellFormed :
      (ty : ℕ) (s : State Settings) → IsWellFormed s → IsWellFormed (close_type ty s).0
  unfolding close_type
  close_type-IsWellFormed ty s w = delete-IsWellFormed ty s w

  close_loop-IsWellFormed :
      (m : List (ℕ × Subscribers)) (s : State Settings)
      → IsWellFormed s
      → IsWellFormed (close_loop m s).0
  unfolding close_loop
  close_loop-IsWellFormed [] s w = w
  close_loop-IsWellFormed (entry ∷ m) s w =
      close_loop-IsWellFormed m _ (delete-IsWellFormed entry.0 s w)

  pub close-IsWellFormed : (s : State Settings) → IsWellFormed s → IsWellFormed (close s).0
  unfolding close
  close-IsWellFormed s w = close_loop-IsWellFormed s.subscriptions s w

  unsubscribe_loop-subscriptions :
      (id : String) (ty : ℕ) (m : List (ℕ × Subscribers)) (types : List (ℕ × Settings))
      → has ty (unsubscribe_loop id m types).0 ≡ keeps id ty m
  unfolding unsubscribe_loop
  unsubscribe_loop-subscriptions id ty [] types = refl
  unsubscribe_loop-subscriptions id ty (entry ∷ m) types =
      elim (Bool-cases (is_empty (delete id entry.1))) [
        | inl gone ↦
            rw (gone) (
              unsubscribe_loop-subscriptions id ty m _ ∙ gone_keeps (ty == entry.0) (keeps id ty m))
        | inr left ↦
            rw (left, unsubscribe_loop-subscriptions id ty m types)
              (left_keeps (ty == entry.0) (keeps id ty m))
      ]

  unsubscribe_loop-types :
      (id : String) (ty : ℕ) (m : List (ℕ × Subscribers)) (types : List (ℕ × Settings))
      → has ty (unsubscribe_loop id m types).1 ≡ has ty types && not (loses id ty m)
  unfolding unsubscribe_loop
  unsubscribe_loop-types id ty [] types = with_true (has ty types)
  unsubscribe_loop-types id ty (entry ∷ m) types =
      elim (Bool-cases (is_empty (delete id entry.1))) [
        | inl gone ↦
            rw (gone, unsubscribe_loop-types id ty m, has-delete ty entry.0 types)
              (gone_loses (has ty types) (ty == entry.0) (loses id ty m))
        | inr left ↦
            rw (left, unsubscribe_loop-types id ty m types)
              (left_loses (has ty types) (ty == entry.0) (loses id ty m))
      ]

  unsubscribe_loop-Distinct :
      (id : String) (m : List (ℕ × Subscribers)) (types : List (ℕ × Settings))
      → Distinct m
      → Distinct (unsubscribe_loop id m types).0
  unfolding unsubscribe_loop
  unsubscribe_loop-Distinct id [] types d = d
  unsubscribe_loop-Distinct id (entry ∷ m) types d =
      elim (Bool-cases (is_empty (delete id entry.1))) [
        | inl gone ↦ rw (gone) (unsubscribe_loop-Distinct id m _ d.1)
        | inr left ↦ rw (left) (
          unsubscribe_loop-subscriptions id entry.0 m types ∙ (absent_keeps id entry.0 m d.0).0,
          unsubscribe_loop-Distinct id m types d.1,
        )
      ]

  unsubscribe_loop-AllInhabited :
      (id : String) (m : List (ℕ × Subscribers)) (types : List (ℕ × Settings))
      → AllInhabited (unsubscribe_loop id m types).0
  unfolding unsubscribe_loop
  unsubscribe_loop-AllInhabited id [] types = tt
  unsubscribe_loop-AllInhabited id (entry ∷ m) types =
      elim (Bool-cases (is_empty (delete id entry.1))) [
        | inl gone ↦ rw (gone) (unsubscribe_loop-AllInhabited id m _)
        | inr left ↦ rw (left) (left, unsubscribe_loop-AllInhabited id m types)
      ]

  pub unsubscribe-IsWellFormed :
      (id : String) (s : State Settings) → IsWellFormed s → IsWellFormed (unsubscribe id s)
  unfolding unsubscribe
  unsubscribe-IsWellFormed id s w = record {
    distinct = unsubscribe_loop-Distinct id s.subscriptions s.subscription_types w.distinct;
    matched = λ ty.
        unsubscribe_loop-subscriptions id ty s.subscriptions s.subscription_types
        ∙ kept id ty s.subscriptions w.distinct
        ∙ ap (λ b. b && not (loses id ty s.subscriptions)) (w.matched ty)
        ∙ sym (unsubscribe_loop-types id ty s.subscriptions s.subscription_types);
    inhabited = unsubscribe_loop-AllInhabited id s.subscriptions s.subscription_types;
  }

  pub add_subscriber-IsWellFormed :
      (ty : ℕ) (sub : Subscription) (params : Settings) (s : State Settings)
      → IsWellFormed s
      → IsWellFormed (add_subscriber ty sub params s)
  add_subscriber-IsWellFormed ty sub params s w = record {
    distinct =
        Distinct-insert ty (insert sub.id sub (found_or_none (find ty s.subscriptions)))
          s.subscriptions w.distinct;
    matched = λ t.
        ap (λ b. (t == ty) || b)
          (has-delete t ty s.subscriptions
            ∙ ap (λ b. b && not (t == ty)) (w.matched t)
            ∙ sym (has-delete t ty s.subscription_types));
    inhabited = (refl, AllInhabited-delete ty s.subscriptions w.inhabited);
  }
