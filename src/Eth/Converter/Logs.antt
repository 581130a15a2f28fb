-- ===== src/Eth/Converter/Logs.antt =====
-- What Convert stores of the logs of a receipt.
use vulcanize_db.Prelude.{
  ℕ, zero, suc, ◌≤◌, ◌≡◌, refl, sym, ap, ◌∙◌, subst, inl, inr, String, Bool, true, false, ◌||◌,
  List, [], ◌∷◌, ◌++◌, length, any_of, any_of_append, All, ◌==◌, ==_sym, string_eq, Bool-cases,
  arith,
}
use mathlib.Core.List.{append_assoc, append-nil}
use vulcanize_db.Go.{ok}
use vulcanize_db.Eth.{ReceiptModel}
use vulcanize_db.Eth.Converter.{
  BlockReceipt, Log, Library, add_topics, add_contract, logs_loop, topic_set, receipt_model,
  receipt_meta,
}

-- The topic at a position, if the log has it
abbrev pub nth_topic : ℕ → List String → List String
nth_topic i [] = []
nth_topic zero (topic ∷ topics) = topic ∷ []
nth_topic (suc i) (topic ∷ topics) = nth_topic i topics

-- The topics that the logs have at a position, log by log
abbrev pub topics_at : ℕ → List Log → List String
topics_at i [] = []
topics_at i (log ∷ logs) = nth_topic i log.topics ++ topics_at i logs

abbrev pub is_of : String → Log → Bool
is_of address log = log.address == address

-- No address occurs twice.
abbrev pub AllDifferent : List String → Type 0
AllDifferent [] = Unit
AllDifferent (x ∷ xs) = (any_of (λ y. y == x) xs ≡ false) × AllDifferent xs

record Added (topics : List String) (sets after : List (List String)) : Type 0 where
  same_length : length after ≡ length sets
  appended : (i : ℕ) → topic_set after i ≡ topic_set sets i ++ nth_topic i topics

add_topics-Added :
    (topics : List String) (sets : List (List String))
    → length topics ≤ length sets
    → (after : List (List String)) × (add_topics topics sets ≡ ok after) × Added topics sets after
unfolding add_topics
add_topics-Added [] sets h =
    (sets, refl, record { same_length = refl; appended = λ i. sym (append-nil (topic_set sets i)) })
add_topics-Added (topic ∷ topics) [] h = absurd (omega (arith, h))
add_topics-Added (topic ∷ topics) (set ∷ sets) h =
    let (rest, e, a) = add_topics-Added topics sets (omega (arith, h)) in
    (
      (set ++ topic ∷ []) ∷ rest,
      rw (e) refl,
      record { same_length = ap suc a.same_length; appended = at_set set topics sets rest a },
    )
  where
    at_set :
        (set : List String) (topics : List String) (sets rest : List (List String))
        → Added topics sets rest
        → (i : ℕ)
        → topic_set ((set ++ topic ∷ []) ∷ rest) i
          ≡ topic_set (set ∷ sets) i ++ nth_topic i (topic ∷ topics)
    at_set set topics sets rest a zero = refl
    at_set set topics sets rest a (suc i) = a.appended i

add_contract-has :
    (x address : String) (contracts : List String)
    → any_of (λ c. c == address) (add_contract x contracts)
      ≡ any_of (λ c. c == address) contracts || (x == address)
unfolding add_contract
add_contract-has x address contracts = elim (Bool-cases (any_of (λ c. c == x) contracts)) [
  | inl on ↦ elim (Bool-cases (x == address)) [
    | inl same ↦
        let e : x ≡ address = (string_eq.equal_iff x address).0 same in
        let there : any_of (λ c. c == address) contracts ≡ true =
          subst (λ a. any_of (λ c. c == a) contracts ≡ true) e on in
        rw (on, there) refl
    | inr other ↦ rw (on, other) (or_false (any_of (λ c. c == address) contracts))
  ]
  | inr off ↦ rw (off) (
      any_of_append (λ c. c == address) contracts (x ∷ [])
      ∙ ap (λ b. any_of (λ c. c == address) contracts || b) (sym (or_false (x == address))))
]
  where
    or_false : (b : Bool) → b ≡ b || false
    or_false true = refl
    or_false false = refl

AllDifferent-snoc :
    (x : String) (contracts : List String)
    → any_of (λ c. c == x) contracts ≡ false
    → AllDifferent contracts
    → AllDifferent (contracts ++ x ∷ [])
AllDifferent-snoc x [] new d = (refl, tt)
AllDifferent-snoc x (c ∷ contracts) new d =
    let (apart, free) = or_false (c == x) (any_of (λ y. y == x) contracts) new in
    (
      any_of_append (λ y. y == c) contracts (x ∷ []) ∙ rw (d.0, ==_sym x c, apart) refl,
      AllDifferent-snoc x contracts free d.1,
    )
  where
    or_false : (a b : Bool) → a || b ≡ false → (a ≡ false) × (b ≡ false)
    or_false a b h = ground arith

add_contract-AllDifferent :
    (x : String) (contracts : List String)
    → AllDifferent contracts
    → AllDifferent (add_contract x contracts)
unfolding add_contract
add_contract-AllDifferent x contracts d = elim (Bool-cases (any_of (λ c. c == x) contracts)) [
  | inl on ↦ rw (on) d
  | inr off ↦ rw (off) (AllDifferent-snoc x contracts off d)
]

record Looped (logs : List Log) (sets : List (List String)) (contracts : List String)
    (done : List (List String) × List String) : Type 0 where
  appended : (i : ℕ) → topic_set done.0 i ≡ topic_set sets i ++ topics_at i logs
  contracts_has :
      (address : String)
      → any_of (λ c. c == address) done.1
        ≡ any_of (λ c. c == address) contracts || any_of (is_of address) logs
  different : AllDifferent contracts → AllDifferent done.1

logs_loop-Looped :
    (logs : List Log) (sets : List (List String)) (contracts : List String)
    → All (λ log. length log.topics ≤ length sets) logs
    → (done : List (List String) × List String) × (logs_loop logs sets contracts ≡ ok done)
      × Looped logs sets contracts done
unfolding logs_loop
logs_loop-Looped [] sets contracts h = (
  (sets, contracts),
  refl,
  record {
    appended = λ i. sym (append-nil (topic_set sets i));
    contracts_has = λ address. ground arith;
    different = λ d. d;
  },
)
logs_loop-Looped (log ∷ logs) sets contracts h =
    let (more, e, a) = add_topics-Added log.topics sets h.0 in
    let next = add_contract log.address contracts in
    let (done, f, l) =
      logs_loop-Looped logs more next
        (subst (λ n. All (λ g. length g.topics ≤ n) logs) (sym a.same_length) h.1) in
    (
      done,
      rw (e) f,
      record {
        appended = λ i.
            l.appended i
            ∙ ap (λ set. set ++ topics_at i logs) (a.appended i)
            ∙ append_assoc (topic_set sets i) (nth_topic i log.topics) (topics_at i logs);
        contracts_has = λ address.
            ground (arith, l.contracts_has address, add_contract-has log.address address contracts);
        different = λ d. l.different (add_contract-AllDifferent log.address contracts d);
      },
    )

-- What a row of the receipts' table says of the receipt's logs
pub record Describes (receipt : BlockReceipt) (model : ReceiptModel) : Type 0 where
  pub first_topics : model.topic0s ≡ topics_at 0 receipt.logs
  pub second_topics : model.topic1s ≡ topics_at 1 receipt.logs
  pub third_topics : model.topic2s ≡ topics_at 2 receipt.logs
  pub fourth_topics : model.topic3s ≡ topics_at 3 receipt.logs
  pub contracts_of :
      (address : String)
      → any_of (λ c. c == address) model.log_contracts ≡ any_of (is_of address) receipt.logs
  pub contracts_once : AllDifferent model.log_contracts

-- A receipt whose logs have at most four topics each is converted: its four topic sets are the first
-- to fourth topics of its logs in their order, and its log contracts are the addresses of its logs,
-- each once.
pub receipt_meta-Describes :
    (lib : Library) (receipt : BlockReceipt)
    → All (λ log. length log.topics ≤ 4) receipt.logs
    → (model : ReceiptModel) × (receipt_meta lib receipt ≡ ok model) × Describes receipt model
unfolding receipt_meta
receipt_meta-Describes lib receipt h =
    let (done, e, l) = logs_loop-Looped receipt.logs ([] ∷ [] ∷ [] ∷ [] ∷ []) [] h in
    (
      receipt_model lib receipt done,
      rw (e) refl,
      record {
        first_topics = l.appended 0;
        second_topics = l.appended 1;
        third_topics = l.appended 2;
        fourth_topics = l.appended 3;
        contracts_of = l.contracts_has;
        contracts_once = l.different tt;
      },
    )
