-- ===== src/Prelude/Search.antt =====
-- Loops that look for an element, and loops over two slices at once.
use mathlib.Core.Path.{◌≡◌, refl}
use mathlib.Core.Logic.{◌↔◌, ◌⊎◌, inl, inr}
use mathlib.Core.Bool.{Bool, true, false, ◌||◌, ◌&&◌, not}
use mathlib.Core.List.{List, [], ◌∷◌, ◌++◌}
use native.Mathlib.Omega.{arith}
use vulcanize_db.Prelude.Tests.{Bool-cases, if◌then◌else◌}

module _ {ℓ} {A : Type ℓ} where
  -- Some element satisfies the predicate.
  abbrev pub Any : (A → Type 0) → List A → Type 0
  Any P [] = ⊥
  Any P (x ∷ xs) = P x ⊎ Any P xs

  -- A loop that sets a flag, or returns, once an element passes the test.
  abbrev pub any_of : (A → Bool) → List A → Bool
  any_of p [] = false
  any_of p (x ∷ xs) = p x || any_of p xs

  abbrev pub is_empty : List A → Bool
  is_empty [] = true
  is_empty (x ∷ xs) = false

  -- The elements that pass.
  abbrev pub keep : (A → Bool) → List A → List A
  keep p [] = []
  keep p (x ∷ xs) = let rest = keep p xs in if p x then x ∷ rest else rest

  pub any_of_append :
      (p : A → Bool) (xs ys : List A) → any_of p (xs ++ ys) ≡ any_of p xs || any_of p ys
  any_of_append p [] ys = refl
  any_of_append p (x ∷ xs) ys = ground (arith, any_of_append p xs ys)

  -- What fails everywhere fails in what is kept, and what is dropped is not found.
  pub any_of-keep_absent :
      (p q : A → Bool) (xs : List A) → any_of p xs ≡ false → any_of p (keep q xs) ≡ false
  any_of-keep_absent p q [] h = h
  any_of-keep_absent p q (x ∷ xs) h = ground (arith, any_of-keep_absent p q xs)

  pub any_of-keep-not : (p : A → Bool) (xs : List A) → any_of p (keep (λ x. not (p x)) xs) ≡ false
  any_of-keep-not p [] = refl
  any_of-keep-not p (x ∷ xs) = ground (arith, any_of-keep-not p xs)

  pub is_empty_iff : (xs : List A) → (is_empty xs ≡ true) ↔ (xs ≡ [])
  is_empty_iff xs = ground arith

module _ {ℓ} {A : Type ℓ} {P : A → Type 0} (p : A → Bool) (h : (a : A) → (p a ≡ true) ↔ P a) where
  pub any_of_iff : (xs : List A) → (any_of p xs ≡ true) ↔ Any P xs
  any_of_iff [] = (λ e. cc, λ e. absurd e)
  any_of_iff (x ∷ xs) = (
    λ e. elim (Bool-cases (p x)) [
      | inl found ↦ inl ((h x).0 found)
      | inr other ↦ inr ((any_of_iff xs).0 (rw other at e))
    ],
    elim [ inl here ↦ rw ((h x).1 here) | inr there ↦ later (p x) ((any_of_iff xs).1 there) ],
  )
    where
      later : (b : Bool) {c : Bool} → c ≡ true → b || c ≡ true
      later true e = refl
      later false e = e

-- A list of wanted values: empty, or one of them passes.
module _ {ℓ} {A : Type ℓ} {P : A → Type 0} (p : A → Bool) (h : (a : A) → (p a ≡ true) ↔ P a) where
  pub wanted_iff : (xs : List A) → (is_empty xs || any_of p xs ≡ true) ↔ ((xs ≡ []) ⊎ Any P xs)
  wanted_iff [] = (λ e. inl refl, λ e. refl)
  wanted_iff (x ∷ xs) = (
    λ e. inr ((any_of_iff p h (x ∷ xs)).0 e),
    elim [ inl e ↦ cc | inr a ↦ (any_of_iff p h (x ∷ xs)).1 a ],
  )

-- A disjunction or conjunction of tests decides that of what they decide.
module _ {a b : Bool} {P Q : Type 0} (p : (a ≡ true) ↔ P) (q : (b ≡ true) ↔ Q) where
  pub or_iff : (a || b ≡ true) ↔ (P ⊎ Q)
  or_iff = (
    λ h. elim (Bool-cases a) [ inl e ↦ inl (p.0 e) | inr e ↦ inr (q.0 (ground arith)) ],
    elim [ inl x ↦ let e = p.1 x in ground arith | inr y ↦ let e = q.1 y in ground arith ],
  )

  pub and_iff : (a && b ≡ true) ↔ (P × Q)
  and_iff = (
    λ h. (p.0 (ground arith), q.0 (ground arith)),
    λ xy. let d = p.1 xy.0 in let e = q.1 xy.1 in ground arith,
  )

module _ {ℓ} {A : Type ℓ} {P Q : A → Type 0} (f : (a : A) → P a → Q a) where
  pub Any-map : (xs : List A) → Any P xs → Any Q xs
  Any-map [] h = absurd h
  Any-map (x ∷ xs) (inl h) = inl (f x h)
  Any-map (x ∷ xs) (inr h) = inr (Any-map xs h)

-- The same fact at every element.
pub Any-const {ℓ} : {A : Type ℓ} {Q : Type 0} (xs : List A) → Any (λ x. Q) xs → Q
Any-const [] h = absurd h
Any-const (x ∷ xs) (inl h) = h
Any-const (x ∷ xs) (inr h) = Any-const xs h
