-- ===== src/Service/Sync.antt =====
-- pkg/super_node/service.go: Sync's channel to the publishAndIndex workers, which it uses as a
-- ring buffer, and what a worker does with one payload. The converter, the publisher and the
-- indexer are parameters. The buffer is full only when it holds `capacity` payloads; the oldest
-- then leaves it unread. Constants of constructors.go and api.go: PayloadChanBufferSize is 2000.
use vulcanize_db.Prelude.{
  ℕ, suc, ◌-◌, ◌≤◌, ◌<◌, ◌≡◌, refl, sym, ap, ◌∙◌, true, false, List, [], ◌∷◌, ◌++◌, length,
  length-append, drop, ltb, ltb→lt, if◌then◌else◌, Bool-cases, inl, inr, arith,
}
use mathlib.Core.List.{append_assoc, append-nil}
use vulcanize_db.Go.{Result, ok, err, panic}

pub payload_chan_buffer_size : ℕ
payload_chan_buffer_size = 2000

module _ {A : Type 0} where
  pub forward : ℕ → List A → A → List A
  forward capacity queue payload =
      if ltb (length queue) capacity then queue ++ payload ∷ [] else drop 1 queue ++ payload ∷ []

  -- What waits after a run of payloads that no worker has taken from.
  pub forward_all : ℕ → List A → List A → List A
  unfolding forward
  forward_all capacity queue [] = queue
  forward_all capacity queue (payload ∷ rest) =
      forward_all capacity (forward capacity queue payload) rest

  -- The channel to Serve takes a payload only if it has room.
  pub offer : ℕ → List A → A → List A
  offer capacity queue payload =
      if ltb (length queue) capacity then queue ++ payload ∷ [] else queue

  abbrev pub newest : ℕ → List A → List A
  newest n xs = drop (length xs - n) xs

-- The two channels that Sync fills.
pub record Channels (Payload : Type 0) : Type 0 where
  pub screen_and_serve_payload : List Payload
  pub publish_and_index_payload : List Payload

-- Sync's loop on one streamed payload; a conversion error is logged and the payload is skipped.
pub sync_payload :
    {Raw Payload : Type 0}
    → (Raw → Result Payload)
    → ℕ
    → Raw
    → Channels Payload
    → Result (Channels Payload)
unfolding forward offer
sync_payload convert capacity raw queues = elim (convert raw) [
  | panic ↦ panic
  | err e ↦ ok queues
  | ok payload ↦ ok (record {
    screen_and_serve_payload = offer capacity queues.screen_and_serve_payload payload;
    publish_and_index_payload = forward capacity queues.publish_and_index_payload payload;
  })
]

-- Publisher.Publish and Indexer.Index: what a worker has published and indexed so far.
pub record Published (Payload Cids : Type 0) : Type 0 where
  pub published : List Payload
  pub indexed : List Cids

module _ {Payload Cids : Type 0} (publish : Payload → Result Cids)
    (index : Cids → Result (Unit {0})) where
  -- One round of publishAndIndex: an error is logged and the payload is skipped.
  pub publish_and_index : Payload → Published Payload Cids → Result (Published Payload Cids)
  publish_and_index payload done = elim (publish payload) [
    | panic ↦ panic
    | err e ↦ ok done
    | ok cids ↦ elim (index cids) [
      | panic ↦ panic
      | err e ↦ ok (record done { published = payload ∷ done.published })
      | ok _ ↦ ok (record { published = payload ∷ done.published; indexed = cids ∷ done.indexed })
    ]
  ]

module _ {A : Type 0} where
  room :
      (capacity : ℕ) (queue : List A) (payload : A)
      → ltb (length queue) capacity ≡ true
      → forward capacity queue payload ≡ queue ++ payload ∷ []
  unfolding forward
  room capacity queue payload h = rw (h) refl

  full :
      (capacity : ℕ) (oldest : A) (queue : List A) (payload : A)
      → ltb (length (oldest ∷ queue)) capacity ≡ false
      → forward capacity (oldest ∷ queue) payload ≡ queue ++ payload ∷ []
  unfolding forward
  full capacity oldest queue payload h = rw (h) refl

  newest-more : (n : ℕ) (x : A) (xs : List A) → n ≤ length xs → newest n (x ∷ xs) ≡ newest n xs
  newest-more n x xs h =
      let e : suc (length xs) - n ≡ suc (length xs - n) = omega arith in rw (e) refl

  newest-few : (n : ℕ) (xs : List A) → length xs ≤ n → newest n xs ≡ xs
  newest-few n xs h = let e : length xs - n ≡ 0 = omega arith in rw (e) refl

  -- With no worker taking from it, the channel holds the newest payloads, as many as fit, in the
  -- order in which they were streamed.
  pub forward_all-newest :
      (capacity : ℕ) (queue payloads : List A)
      → 0 < capacity
      → length queue ≤ capacity
      → forward_all capacity queue payloads ≡ newest capacity (queue ++ payloads)
  unfolding forward_all
  forward_all-newest capacity queue [] some_room fits =
      rw (append-nil queue) (sym (newest-few capacity queue fits))
  forward_all-newest capacity queue (p ∷ ps) some_room fits =
      elim (Bool-cases (ltb (length queue) capacity)) [
        | inl less ↦
            let up : length (queue ++ p ∷ []) ≤ capacity =
              omega (arith, length-append queue (p ∷ []), ltb→lt _ _ less) in
            ap (λ q. forward_all capacity q ps) (room capacity queue p less)
            ∙ forward_all-newest capacity (queue ++ p ∷ []) ps some_room up
            ∙ ap (newest capacity) (append_assoc queue (p ∷ []) ps)
        | inr more ↦ at_most (λ q up. forward_all-newest capacity q ps some_room up) queue fits more
      ]
    where
      at_most :
          ((q : List A)
            → length q ≤ capacity
            → forward_all capacity q ps ≡ newest capacity (q ++ ps))
          → (q : List A) → length q ≤ capacity
          → ltb (length q) capacity ≡ false
          → forward_all capacity (forward capacity q p) ps ≡ newest capacity (q ++ p ∷ ps)
      at_most later [] fits more = absurd (ground arith)
      at_most later (oldest ∷ q) fits more =
          let up : length (q ++ p ∷ []) ≤ capacity = omega (arith, length-append q (p ∷ [])) in
          let all : capacity ≤ length (q ++ p ∷ ps) =
            let n = length-append q (p ∷ ps) in ground arith in
          ap (λ r. forward_all capacity r ps) (full capacity oldest q p more)
          ∙ later (q ++ p ∷ []) up
          ∙ ap (newest capacity) (append_assoc q (p ∷ []) ps)
          ∙ sym (newest-more capacity oldest (q ++ p ∷ ps) all)
