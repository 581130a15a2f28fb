-- ===== src/Btc/Filterer/Wanted.antt =====
-- Which transactions checkTransaction of pkg/super_node/btc/filterer.go accepts.
use vulcanize_db.Prelude.{
  ◌≡◌, refl, ◌↔◌, ◌⊎◌, Bool, true, false, ◌&&◌, ◌||◌, not, [], arith, nat_eq, string_eq, any_of,
  any_of_iff, wanted_iff, Any,
}
use vulcanize_db.Prelude.Int.{ℤ, pos, ltb_ℤ, int_eq, ◌<ℤ◌}
use vulcanize_db.Btc.{TxFilter, TxModelWithInsAndOuts}
use vulcanize_db.Btc.Filterer.{passes_addresses, passes_pk_script_classes, check_transaction}

-- What a subscriber asks of a transaction: an empty list of wanted values asks nothing.
pub record IsWanted (f : TxFilter) (m : TxModelWithInsAndOuts) : Type 0 where
  pub segwit : f.segwit ≡ true → m.seg_wit ≡ true
  pub multi_sig : f.multi_sig ≡ true → Any (λ out. pos 1 <ℤ out.required_sigs) m.tx_outputs
  pub witness : (f.witness_hashes ≡ []) ⊎ Any (λ wanted. wanted ≡ m.witness_hash) f.witness_hashes
  pub address :
      (f.addresses ≡ [])
      ⊎ Any
          (λ wanted. Any (λ out. Any (λ actual. wanted ≡ actual) out.addresses) m.tx_outputs)
          f.addresses
  pub index : (f.indexes ≡ []) ⊎ Any (λ wanted. wanted ≡ m.index) f.indexes
  pub script_class :
      (f.pk_script_classes ≡ [])
      ⊎ Any (λ wanted. Any (λ out. out.script_class ≡ wanted) m.tx_outputs) f.pk_script_classes

implied_iff : (a b : Bool) → (not a || (a && b) ≡ true) ↔ (a ≡ true → b ≡ true)
implied_iff true b = (λ e _. e, λ f. f refl)
implied_iff false b = (λ e f. cc, λ f. refl)

ltb_ℤ_iff : (a b : ℤ) → (ltb_ℤ a b ≡ true) ↔ (a <ℤ b)
ltb_ℤ_iff a b = ground arith

pub all_six :
    (a b c d e g : Bool)
    → (a && (b && (c && (d && (e && g)))) ≡ true)
      ↔ ((a ≡ true) × (b ≡ true) × (c ≡ true) × (d ≡ true) × (e ≡ true) × (g ≡ true))
all_six a b c d e g = (λ h. ground arith, λ h. ground arith)

module _ (m : TxModelWithInsAndOuts) (f : TxFilter) where
  multi_sig_iff :
      (not f.multi_sig
          || (f.multi_sig && any_of (λ out. ltb_ℤ (pos 1) out.required_sigs) m.tx_outputs)
        ≡ true)
      ↔ (f.multi_sig ≡ true → Any (λ out. pos 1 <ℤ out.required_sigs) m.tx_outputs)
  multi_sig_iff = (
    λ e on. (outputs.0) ((implied_iff f.multi_sig _).0 e on),
    λ w. (implied_iff f.multi_sig _).1 (λ on. outputs.1 (w on)),
  )
    where
      outputs :
          (any_of (λ out. ltb_ℤ (pos 1) out.required_sigs) m.tx_outputs ≡ true)
          ↔ Any (λ out. pos 1 <ℤ out.required_sigs) m.tx_outputs
      outputs = any_of_iff _ (λ out. ltb_ℤ_iff (pos 1) out.required_sigs) m.tx_outputs

  address_iff : (passes_addresses f m ≡ true) ↔ (
      (f.addresses ≡ [])
      ⊎ Any
          (λ wanted. Any (λ out. Any (λ actual. wanted ≡ actual) out.addresses) m.tx_outputs)
          f.addresses)
  unfolding passes_addresses
  address_iff =
      wanted_iff _
        (λ wanted.
          any_of_iff _
            (λ out. any_of_iff _ (λ actual. string_eq.equal_iff wanted actual) out.addresses)
            m.tx_outputs)
        f.addresses

  script_class_iff : (passes_pk_script_classes f m ≡ true) ↔ (
      (f.pk_script_classes ≡ [])
      ⊎ Any (λ wanted. Any (λ out. out.script_class ≡ wanted) m.tx_outputs) f.pk_script_classes)
  unfolding passes_pk_script_classes
  script_class_iff =
      wanted_iff _
        (λ wanted. any_of_iff _ (λ out. nat_eq.equal_iff out.script_class wanted) m.tx_outputs)
        f.pk_script_classes

  -- The test accepts exactly the transactions that the filter wants.
  pub check_transaction_iff : (check_transaction m f ≡ true) ↔ IsWanted f m
  unfolding check_transaction
  check_transaction_iff = (
    λ e.
        let (a, b, c, d, i, g) = (all_six _ _ _ _ _ _).0 e in
        record {
          segwit = (implied_iff f.segwit m.seg_wit).0 a;
          multi_sig = multi_sig_iff.0 b;
          witness = (wanted_iff _ (λ w. string_eq.equal_iff w m.witness_hash) f.witness_hashes).0 c;
          address = address_iff.0 d;
          index = (wanted_iff _ (λ w. int_eq.equal_iff w m.index) f.indexes).0 i;
          script_class = script_class_iff.0 g;
        },
    λ w. (all_six _ _ _ _ _ _).1 (
      (implied_iff f.segwit m.seg_wit).1 w.segwit,
      multi_sig_iff.1 w.multi_sig,
      (wanted_iff _ (λ x. string_eq.equal_iff x m.witness_hash) f.witness_hashes).1 w.witness,
      address_iff.1 w.address,
      (wanted_iff _ (λ x. int_eq.equal_iff x m.index) f.indexes).1 w.index,
      script_class_iff.1 w.script_class,
    ),
  )
