-- ===== src/Go.antt =====
-- What the modules share about Go: a call returns a value, panics, or returns an error.
use vulcanize_db.Prelude.{ℕ, ◌≡◌, refl, String, List}

abbrev pub Bytes : Type 0
Bytes = List ℕ

pub data Result {ℓ} (A : Type ℓ) : Type ℓ where
  panic : Result A
  err : String → Result A
  ok : A → Result A

module _ {ℓ κ} {A : Type ℓ} {B : Type κ} where
  infixl 5 ◌>>=◌
  -- `if err != nil { return err }` after each call.
  abbrev pub ◌>>=◌ : Result A → (A → Result B) → Result B
  panic >>= next = panic
  err message >>= next = err message
  ok value >>= next = next value

  -- A chain that succeeds succeeded at its first call.
  pub >>=-eq-ok :
      (call : Result A) (next : A → Result B) {b : B}
      → (call >>= next) ≡ ok b
      → (value : A) × (call ≡ ok value) × (next value ≡ ok b)
  >>=-eq-ok panic next h = cc
  >>=-eq-ok (err message) next h = cc
  >>=-eq-ok (ok value) next h = (value, refl, h)

infixl 5 ◌>>◌
abbrev pub ◌>>◌ {ℓ} : {B : Type ℓ} → Result (Unit {0}) → Result B → Result B
call >> rest = call >>= λ _. rest

-- What holds of the value, if the call returns one
abbrev pub OnOk {ℓ κ} : {A : Type ℓ} → (A → Type κ) → Result A → Type κ
OnOk P panic = Unit
OnOk P (err message) = Unit
OnOk P (ok value) = P value

pub OnOk->>= {ℓ ℓ' κ ι} :
    {A : Type ℓ} {B : Type ℓ'} (P : A → Type κ) (Q : B → Type ι) (call : Result A)
    (next : A → Result B)
    → OnOk P call
    → ((value : A) → P value → OnOk Q (next value))
    → OnOk Q (call >>= next)
OnOk->>= P Q panic next h each = tt
OnOk->>= P Q (err message) next h each = tt
OnOk->>= P Q (ok value) next h each = each value h

pub OnOk-imp {ℓ κ ι} :
    {A : Type ℓ} (P : A → Type κ) (Q : A → Type ι) (call : Result A)
    → ((value : A) → P value → Q value)
    → OnOk P call
    → OnOk Q call
OnOk-imp P Q panic each h = tt
OnOk-imp P Q (err message) each h = tt
OnOk-imp P Q (ok value) each h = each value h
