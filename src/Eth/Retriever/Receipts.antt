-- ===== src/Eth/Retriever/Receipts.antt =====
-- The clause of RetrieveRctCIDsByHeaderID against checkReceipts of pkg/super_node/eth/filterer.go.
use vulcanize_db.Prelude.{
  ℕ, ◌+◌, ◌≤◌, ◌≡◌, refl, sym, ap, ◌∙◌, ◌↔◌, ◌⊎◌, inl, inr, String, Bool, true, false, ◌&&◌, ◌||◌,
  not, List, [], ◌∷◌, any_of, any_of_iff, nat_beq_iff, or_iff, and_iff, is_empty, is_empty_iff,
  ◌==◌, string_eq, nat_eq, All, Option, some, Bool-cases, arith, ltb, length,
}
use vulcanize_db.Prelude.Int.{ℤ, int_eq}
use vulcanize_db.Eth.{ReceiptFilter, ReceiptModel, Receipt}
use vulcanize_db.Eth.Checks.{check_receipts}
use vulcanize_db.Eth.Checks.Meaning.{Shares, Shares-iff, Conforms, check_receipts_iff, Conforms-nil}
use vulcanize_db.Eth.Retriever.{
  has_topics, overlap, topics_column, topic_tests, conjunction, or_tx_ids, and_logs, rct_condition,
}

-- A row passes every test.
abbrev Passes : ReceiptModel → List (ReceiptModel → Bool) → Type 0
Passes row tests = All (λ test. test row ≡ true) tests

-- The conjunction of tests that are there is a test, and means all of them.
conjunction_iff :
    (row : ReceiptModel) (first : ReceiptModel → Bool) (rest : List (ReceiptModel → Bool))
    → (test : ReceiptModel → Bool) × (conjunction (first ∷ rest) ≡ some test)
      × ((test row ≡ true) ↔ Passes row (first ∷ rest))
unfolding conjunction
conjunction_iff row first [] = (first, refl, (λ h. (h, tt), λ h. h.0))
conjunction_iff row first (next ∷ rest) =
    let (others, e, iff) = conjunction_iff row next rest in
    (λ r. first r && others r, rw (e) refl, and_iff (λ h. h, λ h. h) iff)

topic_tests-late : (i : ℕ) (wanted : List (List String)) → 4 ≤ i → topic_tests i wanted ≡ []
unfolding topic_tests
topic_tests-late i [] h = refl
topic_tests-late i (set ∷ rest) h =
    let late : ltb i 4 ≡ false = ground arith in
    rw (late) (topic_tests-late (i + 1) rest (omega arith))

module _ (row : ReceiptModel) where
  abbrev TestsMean : ℕ → List (List String) → Type 0
  TestsMean i columns =
      (wanted : List (List String)) → Passes row (topic_tests i wanted) ↔ Conforms wanted columns

  -- One more column in front.
  TestsMean-column :
      (i : ℕ) (columns : List (List String))
      → ltb i 4 ≡ true
      → TestsMean (i + 1) columns
      → TestsMean i (topics_column i row ∷ columns)
  unfolding topic_tests
  TestsMean-column i columns early mean [] = (λ h. Conforms-nil columns, λ h. tt)
  TestsMean-column i columns early mean ([] ∷ rest) =
      rw (early) (λ h. (inl refl, (mean rest).0 h), λ h. (mean rest).1 h.1)
  TestsMean-column i columns early mean ((w ∷ set) ∷ rest) =
      let shares = Shares-iff (topics_column i row) (w ∷ set) in
      rw (early) (
        λ h. (inr (shares.0 h.0), (mean rest).0 h.1),
        λ h. (elim h.0 [ inl e ↦ cc | inr s ↦ shares.1 s ], (mean rest).1 h.1),
      )

  TestsMean-four : TestsMean 0 (row.topic0s ∷ row.topic1s ∷ row.topic2s ∷ row.topic3s ∷ [])
  TestsMean-four = TestsMean-column 0 (row.topic1s ∷ row.topic2s ∷ row.topic3s ∷ []) refl (
      TestsMean-column 1 (row.topic2s ∷ row.topic3s ∷ []) refl
        (TestsMean-column 2 (row.topic3s ∷ []) refl (TestsMean-column 3 [] refl none_left)))
    where
      none_left : TestsMean 4 []
      none_left wanted = (λ h. tt, λ h. rw (topic_tests-late 4 wanted (omega arith)) tt)

-- Topic sets within the four columns give a test as soon as one of them is not empty.
topic_tests-present :
    (i : ℕ) (wanted : List (List String))
    → i + length wanted ≤ 4
    → has_topics wanted ≡ true
    → (first : ReceiptModel → Bool) × (rest : List (ReceiptModel → Bool)) × (topic_tests i wanted
        ≡ first ∷ rest)
unfolding topic_tests has_topics
topic_tests-present i [] fits h = cc
topic_tests-present i ([] ∷ rest) fits h =
    let early : ltb i 4 ≡ true = ground arith in
    let (first, others, e) = topic_tests-present (i + 1) rest (omega arith) h in
    (first, others, rw (early) e)
topic_tests-present i ((w ∷ set) ∷ rest) fits h =
    let early : ltb i 4 ≡ true = ground arith in
    ((λ row. overlap (topics_column i row) (w ∷ set)), topic_tests (i + 1) rest, rw (early) refl)

topic_tests-absent :
    (i : ℕ) (wanted : List (List String)) → has_topics wanted ≡ false → topic_tests i wanted ≡ []
unfolding topic_tests has_topics
topic_tests-absent i [] h = refl
topic_tests-absent i ([] ∷ rest) h = elim (Bool-cases (ltb i 4)) [
  | inl e ↦ rw (e) (topic_tests-absent (i + 1) rest h)
  | inr e ↦ rw (e) (topic_tests-absent (i + 1) rest h)
]
topic_tests-absent i ((w ∷ set) ∷ rest) h = cc

-- A condition that is there, and what it says of a row.
abbrev Says : ReceiptModel → Option (ReceiptModel → Bool) → Type 0 → Type 0
Says row condition P =
    (test : ReceiptModel → Bool) × (condition ≡ some test) × ((test row ≡ true) ↔ P)

Says-or_tx_ids :
    (row : ReceiptModel) (match_txs : Bool) (tx_ids : List ℤ)
    (condition : Option (ReceiptModel → Bool)) (P : Type 0)
    → Says row condition P
    → Says row
        (or_tx_ids match_txs tx_ids condition)
        (P ⊎ (match_txs && any_of (λ id. id == row.tx_id) tx_ids ≡ true))
unfolding or_tx_ids
Says-or_tx_ids row false tx_ids condition P (test, e, iff) =
    (test, rw (e) refl, (λ h. inl (iff.0 h), elim [ inl p ↦ iff.1 p | inr f ↦ cc ]))
Says-or_tx_ids row true [] condition P (test, e, iff) =
    (test, rw (e) refl, (λ h. inl (iff.0 h), elim [ inl p ↦ iff.1 p | inr f ↦ cc ]))
Says-or_tx_ids row true (id ∷ ids) condition P (test, e, iff) =
    (λ r. test r || any_of (λ i. i == r.tx_id) (id ∷ ids), rw (e) refl, or_iff iff (λ h. h, λ h. h))

Says-and_logs :
    (row : ReceiptModel) (addresses : List String) (condition : Option (ReceiptModel → Bool))
    (P : Type 0)
    → Says row condition P
    → Says row (and_logs addresses condition) (Shares addresses row.log_contracts × P)
unfolding and_logs
Says-and_logs row addresses condition P (test, e, iff) = (
  λ r. overlap addresses r.log_contracts && test r,
  rw (e) refl,
  and_iff (Shares-iff addresses row.log_contracts) iff,
)

abbrev pub columns : ReceiptModel → List (List String)
columns row = row.topic0s ∷ row.topic1s ∷ row.topic2s ∷ row.topic3s ∷ []

Says-topics :
    (row : ReceiptModel) (wanted : List (List String))
    → length wanted ≤ 4
    → has_topics wanted ≡ true
    → Says row (conjunction (topic_tests 0 wanted)) (Conforms wanted (columns row))
Says-topics row wanted fits h =
    let (first, rest, e) = topic_tests-present 0 wanted (omega arith) h in
    let (test, c, iff) = conjunction_iff row first rest in
    let mean = TestsMean-four row wanted in
    (test, ap conjunction e ∙ c, (λ t. mean.0 (rw (e) (iff.0 t)), λ p. iff.1 (rw e at (mean.1 p))))

Conforms-no_topics :
    (row : ReceiptModel) (wanted : List (List String))
    → has_topics wanted ≡ false
    → Conforms wanted (columns row)
Conforms-no_topics row wanted h =
    (TestsMean-four row wanted).0 (rw (topic_tests-absent 0 wanted h) tt)

Says-map :
    (row : ReceiptModel) (condition : Option (ReceiptModel → Bool)) (P Q : Type 0)
    → (P ↔ Q)
    → Says row condition P
    → Says row condition Q
Says-map row condition P Q same (test, e, iff) =
    (test, e, (λ h. same.0 (iff.0 h), λ q. iff.1 (same.1 q)))

module _ (f : ReceiptFilter) (tx_ids : List ℤ) (row : ReceiptModel) where
  abbrev OfMatchedTx : Type 0
  OfMatchedTx = f.match_txs && any_of (λ id. id == row.tx_id) tx_ids ≡ true

  -- What the query wants of a row, when topics or addresses are asked for.
  abbrev Wanted : Type 0
  Wanted =
      (Conforms f.topics (columns row)
        × ((f.log_addresses ≡ []) ⊎ Shares f.log_addresses row.log_contracts))
      ⊎ OfMatchedTx

  rct_condition-Says :
      length f.topics ≤ 4
      → is_empty f.log_addresses && not (has_topics f.topics) ≡ false
      → Says row (rct_condition f tx_ids) Wanted
  unfolding rct_condition
  rct_condition-Says fits asked = elim (Bool-cases (is_empty f.log_addresses)) [
    | inl free ↦
        let topics : has_topics f.topics ≡ true = ground arith in
        let none_asked = (is_empty_iff f.log_addresses).0 free in
        rw (free, topics)
          (Says-or_tx_ids row f.match_txs tx_ids (conjunction (topic_tests 0 f.topics)) _ (
            Says-map row (conjunction (topic_tests 0 f.topics)) _ _
              ((λ c. (c, inl none_asked)), λ c. c.0) (Says-topics row f.topics fits topics)))
    | inr some_address ↦ elim (Bool-cases (has_topics f.topics)) [
      | inl topics ↦
          rw (some_address, topics)
            (Says-or_tx_ids row f.match_txs tx_ids _ _ (
              Says-map row _ _ _ ((λ c. (c.1, inr c.0)), λ c. (shared some_address c.1, c.0))
                (Says-and_logs row f.log_addresses (conjunction (topic_tests 0 f.topics)) _
                  (Says-topics row f.topics fits topics))))
      | inr free ↦
          rw (some_address, free)
            (Says-or_tx_ids row f.match_txs tx_ids _ _ (
              Says-map row _ _ _
                ((λ s. (Conforms-no_topics row f.topics free, inr s)), λ c. shared some_address c.1)
                (logged f.log_addresses)))
    ]
  ]
    where
      shared :
          is_empty f.log_addresses ≡ false
          → (f.log_addresses ≡ []) ⊎ Shares f.log_addresses row.log_contracts
          → Shares f.log_addresses row.log_contracts
      shared some_address (inl e) = cc (rw e at some_address)
      shared some_address (inr s) = s

      logged :
          (addresses : List String)
          → Says row
              (some (λ r. overlap addresses r.log_contracts))
              (Shares addresses row.log_contracts)
      logged addresses =
          ((λ r. overlap addresses r.log_contracts), refl, Shares-iff addresses row.log_contracts)

  -- When a client asks for topics or addresses, within the four topic positions, the query has a
  -- condition, and a stored receipt meets it exactly when the filterer accepts the receipt, given
  -- that the receipt's transaction is among the hashes that the filterer matched exactly when it
  -- is among the ids of the query and the client matches transactions.
  pub rct_condition-check_receipts :
      (rct : Receipt) (hashes : List ℕ)
      → length f.topics ≤ 4
      → is_empty f.log_addresses && not (has_topics f.topics) ≡ false
      → any_of (λ hash. hash == rct.tx_hash) hashes
        ≡ f.match_txs && any_of (λ id. id == row.tx_id) tx_ids
      → (test : ReceiptModel → Bool) × (rct_condition f tx_ids ≡ some test)
        × ((test row ≡ true) ↔ (
            check_receipts rct f.topics (columns row) f.log_addresses row.log_contracts hashes
            ≡ true))
  rct_condition-check_receipts rct hashes fits asked same =
      let checked =
        check_receipts_iff rct f.topics row.topic0s row.topic1s row.topic2s row.topic3s
          f.log_addresses row.log_contracts hashes in
      let hash = any_of_iff _ (λ h. nat_beq_iff h rct.tx_hash) hashes in
      Says-map row (rct_condition f tx_ids) _ _
        (
          (elim [ inl p ↦ checked.1 (inr p) | inr m ↦ checked.1 (inl (hash.0 (same ∙ m))) ]),
          λ c. elim (checked.0 c) [ inl m ↦ inr (sym same ∙ hash.1 m) | inr p ↦ inl p ],
        )
        (rct_condition-Says fits asked)

  -- A client that matches transactions and asks for neither topics nor addresses gets, of stored
  -- receipts, those of the matched transactions once there are any; the filterer accepts every
  -- receipt.
  rct_condition-txs_only :
      (rct : Receipt) (hashes : List ℕ)
      → f.topics ≡ []
      → f.log_addresses ≡ []
      → f.match_txs ≡ true
      → is_empty tx_ids ≡ false
      → (rct_condition f tx_ids ≡ some (λ r. any_of (λ id. id == r.tx_id) tx_ids))
        × (check_receipts rct f.topics (columns row) f.log_addresses row.log_contracts hashes
            ≡ true)
  unfolding rct_condition has_topics
  rct_condition-txs_only rct hashes no_topics no_addresses match some_tx =
      let checked =
        check_receipts_iff rct f.topics row.topic0s row.topic1s row.topic2s row.topic3s
          f.log_addresses row.log_contracts hashes in
      let free : Conforms f.topics (columns row) = rw (no_topics) tt in
      (rw (no_topics, no_addresses, match, some_tx) refl, checked.1 (inr (free, inl no_addresses)))
