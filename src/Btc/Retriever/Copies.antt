-- ===== src/Btc/Retriever/Copies.antt =====
-- How often RetrieveTxCIDs of pkg/super_node/btc/cid_retriever.go returns a transaction, and what
-- checkTransaction of pkg/super_node/btc/filterer.go says of it.
use vulcanize_db.Prelude.{
  ℕ, ◌+◌, ◌*◌, ◌≡◌, ◌≢◌, refl, sym, ap, ◌∙◌, Bool, true, false, ◌&&◌, ◌||◌, not, List, [], ◌∷◌,
  ◌==◌, nat_eq, string_eq, any_of, is_empty, if◌then◌else◌, length, length-append, Bool-cases, inl,
  inr, arith,
}
use vulcanize_db.Prelude.Int.{pos, ltb_ℤ, int_eq}
use vulcanize_db.Btc.{TxFilter, TxInput, TxOutput, TxModelWithInsAndOuts}
use vulcanize_db.Btc.Filterer.{check_transaction, passes_addresses, passes_pk_script_classes}
use vulcanize_db.Btc.Filterer.Wanted.{all_six}
use vulcanize_db.Btc.Retriever.{row_condition, join_outputs, join_inputs}

-- The outputs that the clause accepts.
abbrev pub accepted : TxFilter → TxModelWithInsAndOuts → List TxOutput → ℕ
unfolding row_condition
accepted f tx [] = 0
accepted f tx (out ∷ outs) = (if row_condition f tx out then 1 else 0) + accepted f tx outs

module _ {A : Type 0} where
  any_of_mono :
      (p q : A → Bool) (xs : List A)
      → ((x : A) → p x ≡ true → q x ≡ true)
      → any_of p xs ≡ true
      → any_of q xs ≡ true
  any_of_mono p q [] f h = cc
  any_of_mono p q (x ∷ xs) f h = elim (Bool-cases (p x)) [
    | inl on ↦ rw (f x on) refl
    | inr off ↦ later (q x) (any_of_mono p q xs f (rw off at h))
  ]
    where
      later : (b : Bool) {c : Bool} → c ≡ true → b || c ≡ true
      later true e = refl
      later false e = e

  any_of_constant : (b : Bool) (xs : List A) → any_of (λ x. b) xs ≡ true → b ≡ true
  any_of_constant b [] h = cc
  any_of_constant true (x ∷ xs) h = refl
  any_of_constant false (x ∷ xs) h = any_of_constant false xs h

or_outside :
    {A : Type 0} (b : Bool) (q : A → Bool) (xs : List A)
    → any_of (λ x. b || q x) xs ≡ true
    → b || any_of q xs ≡ true
or_outside true q xs h = refl
or_outside false q xs h = h

any_of-or :
    {A : Type 0} (p q : A → Bool) (xs : List A)
    → any_of (λ x. p x || q x) xs ≡ any_of p xs || any_of q xs
any_of-or p q [] = refl
any_of-or p q (x ∷ xs) = rw (any_of-or p q xs) (regroup (p x) (q x) (any_of p xs) (any_of q xs))
  where
    regroup : (a b c d : Bool) → a || b || (c || d) ≡ a || c || (b || d)
    regroup a b c d = ground arith

any_of-false : {A : Type 0} (xs : List A) → any_of (λ x. false) xs ≡ false
any_of-false [] = refl
any_of-false (x ∷ xs) = any_of-false xs

-- Two loops that look for a pair may change places.
any_of-swap :
    {A B : Type 0} (h : A → B → Bool) (xs : List A) (ys : List B)
    → any_of (λ x. any_of (λ y. h x y) ys) xs ≡ any_of (λ y. any_of (λ x. h x y) xs) ys
any_of-swap h [] ys = sym (any_of-false ys)
any_of-swap h (x ∷ xs) ys =
    rw (any_of-swap h xs ys) (sym (any_of-or (λ y. h x y) (λ y. any_of (λ x'. h x' y) xs) ys))

module _ (f : TxFilter) (tx : TxModelWithInsAndOuts) where
  length-join_outputs :
      (outs : List TxOutput) → length (join_outputs f tx outs) ≡ accepted f tx outs
  unfolding join_outputs accepted
  length-join_outputs [] = refl
  length-join_outputs (out ∷ outs) = elim (Bool-cases (row_condition f tx out)) [
    | inl on ↦ rw (on) (omega (arith, length-join_outputs outs))
    | inr off ↦ rw (off) (omega (arith, length-join_outputs outs))
  ]

  length-join_inputs :
      (inputs : List TxInput)
      → length (join_inputs f tx inputs) ≡ length inputs * accepted f tx tx.tx_outputs
  unfolding join_inputs
  length-join_inputs [] = omega arith
  length-join_inputs (input ∷ inputs) =
      let rest = length-join_inputs inputs in
      let first = length-join_outputs tx.tx_outputs in
      let both = length-append (join_outputs f tx tx.tx_outputs) (join_inputs f tx inputs) in
      grind arith

  accepted-any :
      (outs : List TxOutput)
      → accepted f tx outs ≢ 0
      → any_of (λ out. row_condition f tx out) outs ≡ true
  unfolding accepted
  accepted-any [] h = absurd (h refl)
  accepted-any (out ∷ outs) h = elim (Bool-cases (row_condition f tx out)) [
    | inl on ↦ rw (on) refl
    | inr off ↦ rw (off) (accepted-any outs (λ e. h (rw (off, e) refl)))
  ]

  -- An output that the clause accepts shows each of the filterer's conditions.
  any_of-check_transaction :
      any_of (λ out. row_condition f tx out) tx.tx_outputs ≡ true → check_transaction tx f ≡ true
  unfolding check_transaction passes_addresses passes_pk_script_classes row_condition
  any_of-check_transaction h =
      (all_six (not f.segwit || (f.segwit && tx.seg_wit))
          (not f.multi_sig || (f.multi_sig && any_of (λ out. ltb_ℤ (pos 1) out.required_sigs) outs))
          (is_empty f.witness_hashes || any_of (λ w. w == tx.witness_hash) f.witness_hashes)
          (passes_addresses f tx) (is_empty f.indexes || any_of (λ w. w == tx.index) f.indexes)
          (passes_pk_script_classes f tx)).1
        (
          guarded f.segwit tx.seg_wit (any_of_constant _ outs (part _ (λ o c. (parts o c).0))),
          guarded f.multi_sig _ (or_outside _ _ outs (part _ (λ o c. (parts o c).1))),
          any_of_constant _ outs (part _ (λ o c. (parts o c).2)),
          ap (λ b. is_empty f.addresses || b)
                (any_of-swap (λ w out. any_of (λ a. w == a) out.addresses) f.addresses outs)
              ∙ or_outside _ _ outs (part _ (λ o c. (parts o c).3)),
          any_of_constant _ outs (part _ (λ o c. (parts o c).4)),
          ap (λ b. is_empty f.pk_script_classes || b)
                (any_of-swap (λ w out. out.script_class == w) f.pk_script_classes outs)
              ∙ or_outside _ _ outs (part _ (λ o c. (parts o c).5)),
        )
    where
      outs : List TxOutput
      outs = tx.tx_outputs

      parts :
          (o : TxOutput)
          → row_condition f tx o ≡ true
          → (not f.segwit || tx.seg_wit ≡ true)
            × (not f.multi_sig || ltb_ℤ (pos 1) o.required_sigs ≡ true)
            × (is_empty f.witness_hashes || any_of (λ w. w == tx.witness_hash) f.witness_hashes
                ≡ true)
            × (is_empty f.addresses || any_of (λ w. any_of (λ a. w == a) o.addresses) f.addresses
                ≡ true)
            × (is_empty f.indexes || any_of (λ w. w == tx.index) f.indexes ≡ true)
            × (is_empty f.pk_script_classes || any_of (λ w. o.script_class == w) f.pk_script_classes
                ≡ true)
      parts o c = (all_six _ _ _ _ _ _).0 c

      part :
          (q : TxOutput → Bool)
          → ((o : TxOutput) → row_condition f tx o ≡ true → q o ≡ true)
          → any_of q outs ≡ true
      part q g = any_of_mono (λ o. row_condition f tx o) q outs g h

      guarded : (a b : Bool) → not a || b ≡ true → not a || (a && b) ≡ true
      guarded a b e = ground arith

  -- The query returns a transaction once for each pair of one of its inputs and one of its outputs
  -- that the whole clause accepts, so also none or several times; when it returns it at all, the
  -- filterer accepts it.
  join_inputs-copies :
      (length (join_inputs f tx tx.tx_inputs) ≡ length tx.tx_inputs * accepted f tx tx.tx_outputs)
      × (length (join_inputs f tx tx.tx_inputs) ≢ 0 → check_transaction tx f ≡ true)
  join_inputs-copies =
      let count = length-join_inputs tx.tx_inputs in
      (
        count,
        λ some_row.
            any_of-check_transaction
              (accepted-any tx.tx_outputs (λ none_left. some_row (count ∙ grind arith))),
      )
