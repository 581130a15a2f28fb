-- ===== src/Prelude/Equality.antt =====
-- Go's `==` as an interface: one operator for numbers and strings, with what it decides.
use Prim.Native.Nat.{ℕ}
use Prim.Native.String.{String}
use text.Mathlib.Text.{◌==◌ as str_eq}
use text.Mathlib.TextEquality.{eq_iff}
use mathlib.Core.Path.{◌≡◌, refl, sym, ◌∙◌, subst}
use mathlib.Core.Logic.{◌↔◌, inl, inr}
use mathlib.Core.Bool.{Bool, true, false, ◌&&◌}
use mathlib.Core.List.{List, [], ◌∷◌}
use vulcanize_db.Prelude.Tests.{nat_beq, nat_beq_iff, Bool-cases}

-- A type that Go can compare.
pub record Comparable (A : Type 0) : Type 0 where
  pub equal : A → A → Bool
  pub equal_iff : (x y : A) → (equal x y ≡ true) ↔ (x ≡ y)

instance abbrev pub string_eq : Comparable String
string_eq = record { equal = str_eq; equal_iff = eq_iff }

instance abbrev pub nat_eq : Comparable ℕ
nat_eq = record { equal = nat_beq; equal_iff = nat_beq_iff }

-- bytes.Equal
abbrev pub bytes_equal : List ℕ → List ℕ → Bool
bytes_equal [] [] = true
bytes_equal [] (y ∷ ys) = false
bytes_equal (x ∷ xs) [] = false
bytes_equal (x ∷ xs) (y ∷ ys) = nat_beq x y && bytes_equal xs ys

bytes_equal_refl : (xs : List ℕ) → bytes_equal xs xs ≡ true
bytes_equal_refl [] = refl
bytes_equal_refl (x ∷ xs) = rw ((nat_beq_iff x x).1 refl) (bytes_equal_refl xs)

bytes_equal-same : (xs ys : List ℕ) → bytes_equal xs ys ≡ true → xs ≡ ys
bytes_equal-same [] [] h = refl
bytes_equal-same [] (y ∷ ys) h = cc
bytes_equal-same (x ∷ xs) [] h = cc
bytes_equal-same (x ∷ xs) (y ∷ ys) h = elim (Bool-cases (nat_beq x y)) [
  | inl on ↦
      let same : x ≡ y = (nat_beq_iff x y).0 on in
      let rest : xs ≡ ys = bytes_equal-same xs ys (rw (on) at h) in rw (same, rest) refl
  | inr off ↦ cc (rw (off) at h)
]

pub bytes_equal_iff : (xs ys : List ℕ) → (bytes_equal xs ys ≡ true) ↔ (xs ≡ ys)
bytes_equal_iff xs ys =
    (bytes_equal-same xs ys, λ e. subst (λ zs. bytes_equal xs zs ≡ true) e (bytes_equal_refl xs))

instance abbrev pub bytes_eq : Comparable (List ℕ)
bytes_eq = record { equal = bytes_equal; equal_iff = bytes_equal_iff }

infix 50 ◌==◌
abbrev pub ◌==◌ : {A : Type 0} ⦃c : Comparable A⦄ → A → A → Bool
◌==◌ ⦃c⦄ x y = c.equal x y

pub ==_refl : {A : Type 0} ⦃c : Comparable A⦄ (x : A) → (x == x) ≡ true
==_refl ⦃c⦄ x = (c.equal_iff x x).1 refl

pub ==_sym : {A : Type 0} ⦃c : Comparable A⦄ (x y : A) → (x == y) ≡ (y == x)
==_sym ⦃c⦄ x y = elim (Bool-cases (x == y)) [
  | inl same ↦ let e : x ≡ y = (c.equal_iff x y).0 same in rw (e) refl
  | inr other ↦ elim (Bool-cases (y == x)) [
    | inl same ↦ let e : y ≡ x = (c.equal_iff y x).0 same in rw (e) refl
    | inr different ↦ other ∙ sym different
  ]
]
