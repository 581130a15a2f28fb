-- ===== src/Eth/Checks/Meaning.antt =====
-- What the tests of the ethereum filterer accept.
use vulcanize_db.Prelude.{
  ℕ, ◌≤◌, String, ◌≡◌, refl, ◌↔◌, ◌⊎◌, inl, inr, true, List, [], ◌∷◌, arith, nat_beq_iff, nat_eq,
  string_eq, any_of, any_of_iff, wanted_iff, or_iff, and_iff, Any-map, Any-const, Any, is_empty,
  is_empty_iff, if◌then◌else◌, length,
}
use vulcanize_db.Prelude.Int.{ℤ, pos, ◌≤ℤ◌}
use vulcanize_db.Eth.{Receipt}
use vulcanize_db.Eth.Checks.{
  check_range, check_transaction_addrs, slices_share_string, matches, filter_match, check_receipts,
  check_node_keys,
}

-- A height is in range when it is at or above the start and, unless the end is zero or negative,
-- at or below the end.
check_range_iff :
    (start end actual : ℤ)
    → (check_range start end actual ≡ true)
      ↔ ((start ≤ℤ actual) × ((end ≤ℤ pos 0) ⊎ (actual ≤ℤ end)))
unfolding check_range
check_range_iff start end actual = (λ h. ground arith, λ h. ground arith)

-- Some string of one list is in the other.
abbrev pub Shares : List String → List String → Type 0
Shares xs ys = Any (λ x. Any (λ y. x ≡ y) ys) xs

pub Shares-iff :
    (xs ys : List String)
    → (any_of (λ x. any_of (λ y. string_eq.equal x y) ys) xs ≡ true) ↔ Shares xs ys
Shares-iff xs ys = any_of_iff _ (λ x. any_of_iff _ (λ y. string_eq.equal_iff x y) ys) xs

-- A transaction is accepted when neither a source nor a destination is asked for, or when its
-- source is a wanted source or its destination a wanted destination.
pub check_transaction_addrs_iff :
    (wanted_src wanted_dst : List String) (src dst : String)
    → (check_transaction_addrs wanted_src wanted_dst src dst ≡ true) ↔ (
        ((wanted_dst ≡ []) × (wanted_src ≡ []))
        ⊎ Any (λ s. s ≡ src) wanted_src
        ⊎ Any (λ d. d ≡ dst) wanted_dst)
unfolding check_transaction_addrs
check_transaction_addrs_iff wanted_src wanted_dst src dst =
    or_iff (and_iff (is_empty_iff wanted_dst) (is_empty_iff wanted_src)) (
      or_iff (any_of_iff _ (λ x. string_eq.equal_iff x src) wanted_src)
        (any_of_iff _ (λ x. string_eq.equal_iff x dst) wanted_dst))

-- Every slot in which something is wanted has a wanted topic; slots beyond the wanted ones are free.
abbrev pub Conforms : List (List String) → List (List String) → Type 0
Conforms wanted [] = Unit
Conforms [] (actual ∷ rest) = Conforms [] rest
Conforms (wanted ∷ more) (actual ∷ rest) =
    ((wanted ≡ []) ⊎ Shares actual wanted) × Conforms more rest

abbrev slot : List String → List String → ℕ
slot wanted actual = if is_empty wanted then 1 else slices_share_string actual wanted

slot_iff :
    (wanted actual : List String)
    → (slot wanted actual ≤ 1) × ((slot wanted actual ≡ 1) ↔ ((wanted ≡ []) ⊎ Shares actual wanted))
unfolding slices_share_string
slot_iff [] actual = (omega arith, (λ e. inl refl, λ e. refl))
slot_iff (w ∷ ws) actual =
    let s = Shares-iff actual (w ∷ ws) in
    (
      ground arith,
      (λ e. inr (s.0 (ground arith)), elim [ inl e ↦ cc | inr e ↦ let t = s.1 e in rw t refl ]),
    )

matches_iff :
    (wanted actual : List (List String))
    → (matches wanted actual ≤ length actual)
      × ((matches wanted actual ≡ length actual) ↔ Conforms wanted actual)
unfolding matches
matches_iff [] [] = (omega arith, (λ e. tt, λ e. refl))
matches_iff (w ∷ ws) [] = (omega arith, (λ e. tt, λ e. refl))
matches_iff [] (a ∷ rest) =
    let (le, iff) = matches_iff [] rest in
    (omega arith, (λ e. iff.0 (omega arith), λ c. omega (arith, iff.1 c)))
matches_iff (w ∷ ws) (a ∷ rest) =
    let (le, iff) = matches_iff ws rest in
    let (le', iff') = slot_iff w a in
    (
      omega arith,
      (λ e. (iff'.0 (omega arith), iff.0 (omega arith)), λ c. omega (arith, iff'.1 c.0, iff.1 c.1)),
    )

-- With four topic slots, as every receipt's metadata has, the filter matches exactly when all of
-- them conform.
pub filter_match_iff :
    (wanted : List (List String)) (t0 t1 t2 t3 : List String)
    → (filter_match wanted (t0 ∷ t1 ∷ t2 ∷ t3 ∷ []) ≡ true)
      ↔ Conforms wanted (t0 ∷ t1 ∷ t2 ∷ t3 ∷ [])
unfolding filter_match
filter_match_iff wanted t0 t1 t2 t3 =
    let iff = (matches_iff wanted (t0 ∷ t1 ∷ t2 ∷ t3 ∷ [])).1 in
    let four = nat_beq_iff (matches wanted (t0 ∷ t1 ∷ t2 ∷ t3 ∷ [])) 4 in
    (λ h. iff.0 (four.0 h), λ c. four.1 (iff.1 c))

pub Conforms-nil : (actual : List (List String)) → Conforms [] actual
Conforms-nil [] = tt
Conforms-nil (a ∷ rest) = Conforms-nil rest

-- A pair of equal strings, and a fact that does not depend on it.
module _ (C : Type 0) (wanted actual : List String) where
  abbrev BothHold : Type 0
  BothHold = Any (λ w. Any (λ a. (w ≡ a) × C) actual) wanted

  BothHold-parts : BothHold → C × Shares wanted actual
  BothHold-parts b = (
    Any-const wanted
        (Any-map (λ w h. Any-const actual (Any-map (λ a both. both.1) actual h)) wanted b),
    Any-map (λ w h. Any-map (λ a both. both.0) actual h) wanted b,
  )

  BothHold-join : C → Shares wanted actual → BothHold
  BothHold-join c s = Any-map (λ w h. Any-map (λ a e. (e, c)) actual h) wanted s

-- A receipt is accepted when it belongs to a wanted transaction, or when its topics conform and,
-- if addresses are asked for, one of them logged. Where no topic, address or transaction is asked
-- for this accepts every receipt.
pub check_receipts_iff :
    (rct : Receipt) (wanted_topics : List (List String)) (t0 t1 t2 t3 : List String)
    (wanted_addresses actual_addresses : List String) (wanted_tx_hashes : List ℕ)
    → let topics = t0 ∷ t1 ∷ t2 ∷ t3 ∷ [] in
      (check_receipts rct wanted_topics topics wanted_addresses actual_addresses wanted_tx_hashes
        ≡ true)
      ↔ (Any (λ hash. hash ≡ rct.tx_hash) wanted_tx_hashes
          ⊎ Conforms wanted_topics topics
            × ((wanted_addresses ≡ []) ⊎ Shares wanted_addresses actual_addresses))
unfolding check_receipts
check_receipts_iff rct wanted_topics t0 t1 t2 t3 wanted_addresses actual_addresses hashes =
    let topics = t0 ∷ t1 ∷ t2 ∷ t3 ∷ [] in
    let match = filter_match_iff wanted_topics t0 t1 t2 t3 in
    let no_address = is_empty_iff wanted_addresses in
    let C : Type 0 = Conforms wanted_topics topics in
    let cases =
      or_iff (and_iff (is_empty_iff wanted_topics) (and_iff no_address (is_empty_iff hashes))) (
        or_iff (any_of_iff _ (λ hash. nat_beq_iff hash rct.tx_hash) hashes) (
          or_iff (and_iff no_address match) (
            any_of_iff _
              (λ w. any_of_iff _ (λ a. and_iff (string_eq.equal_iff w a) match) actual_addresses)
              wanted_addresses))) in
    (
      λ h. elim (cases.0 h) [
        | inl none_asked ↦ inr (rw (none_asked.0) (Conforms-nil topics), inl (none_asked.1).0)
        | inr (inl hash) ↦ inl hash
        | inr (inr (inl free)) ↦ inr (free.1, inl free.0)
        | inr (inr (inr both)) ↦ inr (
          (BothHold-parts C wanted_addresses actual_addresses both).0,
          inr (BothHold-parts C wanted_addresses actual_addresses both).1,
        )
      ],
      elim [
        | inl hash ↦ cases.1 (inr (inl hash))
        | inr (conform, inl free) ↦ cases.1 (inr (inr (inl (free, conform))))
        | inr (conform, inr shared) ↦
            cases.1
              (inr (inr (inr (BothHold-join C wanted_addresses actual_addresses conform shared))))
      ],
    )

-- A trie node is accepted when no key is asked for, or when its key is a wanted one.
pub check_node_keys_iff :
    (wanted_keys : List ℕ) (actual_key : ℕ)
    → (check_node_keys wanted_keys actual_key ≡ true)
      ↔ ((wanted_keys ≡ []) ⊎ Any (λ key. key ≡ actual_key) wanted_keys)
unfolding check_node_keys
check_node_keys_iff wanted_keys actual_key =
    wanted_iff _ (λ key. nat_beq_iff key actual_key) wanted_keys
