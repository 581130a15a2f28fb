-- ===== src/Prelude/Assoc.antt =====
-- Go's maps as association lists: lookup, assignment and `delete`.
use mathlib.Core.Path.{◌≡◌, refl, ◌∙◌}
use mathlib.Core.Bool.{Bool, true, false, ◌||◌, ◌&&◌, not}
use mathlib.Core.Logic.{inl, inr}
use mathlib.Core.Option.{Option, none, some}
use mathlib.Core.List.{List, [], ◌∷◌}
use native.Mathlib.Omega.{arith}
use vulcanize_db.Prelude.Tests.{Bool-cases, if◌then◌else◌}
use vulcanize_db.Prelude.Equality.{Comparable, ◌==◌}

module _ {K V : Type 0} ⦃c : Comparable K⦄ where
  abbrev pub has : K → List (K × V) → Bool
  has k [] = false
  has k (entry ∷ m) = (k == entry.0) || has k m

  abbrev pub find : K → List (K × V) → Option V
  find k [] = none
  find k (entry ∷ m) = if k == entry.0 then some entry.1 else find k m

  abbrev pub delete : K → List (K × V) → List (K × V)
  delete k [] = []
  delete k (entry ∷ m) = let rest = delete k m in if k == entry.0 then rest else entry ∷ rest

  abbrev pub insert : K → V → List (K × V) → List (K × V)
  insert k v m = (k, v) ∷ delete k m

  -- No key occurs twice.
  abbrev pub Distinct : List (K × V) → Type 0
  Distinct [] = Unit
  Distinct (entry ∷ m) = (has entry.0 m ≡ false) × Distinct m

module _ {K : Type 0} ⦃c : Comparable K⦄ where
  equal_refl : (k : K) → (k == k) ≡ true
  equal_refl k = (c.equal_iff k k).1 refl

module _ {K V : Type 0} ⦃c : Comparable K⦄ where
  pub has-delete : (j k : K) (m : List (K × V)) → has j (delete k m) ≡ has j m && not (j == k)
  has-delete j k [] = refl
  has-delete j k (entry ∷ m) =
      let rest = has-delete j k m in
      elim (Bool-cases (k == entry.0)) [
        | inl same ↦
            let e : k ≡ entry.0 = (c.equal_iff k entry.0).0 same in
            rw (same, rest, ← e) (absorb (j == k) (has j m))
        | inr other ↦
            rw (other, rest)
              (elim (Bool-cases (j == entry.0)) [
                | inl at ↦
                    let e : j ≡ entry.0 = (c.equal_iff j entry.0).0 at in
                    rw (at) (differs (rw (← e) at other))
                | inr off ↦ rw (off) refl
              ])
      ]
    where
      absorb : (a b : Bool) → b && not a ≡ (a || b) && not a
      absorb true true = refl
      absorb true false = refl
      absorb false b = ground arith

      differs : (k == j) ≡ false → true ≡ not (j == k)
      differs h = elim (Bool-cases (j == k)) [
        | inl same ↦ let e : j ≡ k = (c.equal_iff j k).0 same in cc (rw (e, equal_refl) at h)
        | inr e ↦ rw (e) refl
      ]

  pub has-delete_self : (k : K) (m : List (K × V)) → has k (delete k m) ≡ false
  has-delete_self k m = has-delete k k m ∙ rw (equal_refl k) (none_left (has k m))
    where
      none_left : (b : Bool) → b && not true ≡ false
      none_left true = refl
      none_left false = refl

  -- A key that is absent stays absent.
  pub has-delete_absent :
      (j k : K) (m : List (K × V)) → has j m ≡ false → has j (delete k m) ≡ false
  has-delete_absent j k m h = has-delete j k m ∙ rw (h) refl

  pub Distinct-delete : (k : K) (m : List (K × V)) → Distinct m → Distinct (delete k m)
  Distinct-delete k [] d = d
  Distinct-delete k (entry ∷ m) d = elim (Bool-cases (k == entry.0)) [
    | inl same ↦ rw (same) (Distinct-delete k m d.1)
    | inr other ↦ rw (other) (has-delete_absent entry.0 k m d.0, Distinct-delete k m d.1)
  ]

  pub Distinct-insert : (k : K) (v : V) (m : List (K × V)) → Distinct m → Distinct (insert k v m)
  Distinct-insert k v m d = (has-delete_self k m, Distinct-delete k m d)

  -- Deleting one key leaves what the others name.
  pub find-delete : (j k : K) (m : List (K × V)) → (j == k) ≡ false → find j (delete k m) ≡ find j m
  find-delete j k [] h = refl
  find-delete j k (entry ∷ m) h = elim (Bool-cases (k == entry.0)) [
    | inl same ↦
        let e : k ≡ entry.0 = (c.equal_iff k entry.0).0 same in
        rw (same, ← e, h) (find-delete j k m h)
    | inr other ↦ rw (other, find-delete j k m h) refl
  ]

  -- An absent key is not in the list.
  pub delete_absent : (k : K) (m : List (K × V)) → has k m ≡ false → delete k m ≡ m
  delete_absent k [] h = refl
  delete_absent k (entry ∷ m) h =
      let parts = or_false (k == entry.0) (has k m) h in
      rw (parts.0, delete_absent k m parts.1) refl
    where
      or_false : (a b : Bool) → a || b ≡ false → (a ≡ false) × (b ≡ false)
      or_false a b h = ground arith
