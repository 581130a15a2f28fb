-- ===== src/Eth/Filterer/Response.antt =====
-- The stages of the ethereum filterer's Filter, and the height of its response.
use vulcanize_db.Prelude.{ℕ, ◌≡◌, refl, true, false, List, [], some, if◌then◌else◌, ap}
use vulcanize_db.Go.{ok, >>=-eq-ok}
use vulcanize_db.Eth.{SubscriptionSettings, ConvertedPayload, Iplds}
use vulcanize_db.Eth.Checks.{check_range}
use vulcanize_db.Eth.Filterer.{
  Library, no_iplds, filter_transactions, filter_headers, filer_receipts, filter_state_and_storage,
  filter,
}

module _ (lib : Library) (f : SubscriptionSettings) (payload : ConvertedPayload) (r : Iplds) where
  -- A successful run in range passed every stage.
  pub record Stages : Type 0 where
    pub headed : Iplds
    pub found : Iplds × List ℕ
    pub receipted : Iplds
    pub stated : Iplds
    pub heads :
        filter_headers lib f.header_filter
          (record no_iplds { total_difficulty = payload.total_difficulty })
          payload
        ≡ ok headed
    pub finds : filter_transactions lib f.tx_filter headed payload ≡ ok found
    pub receipts :
        filer_receipts lib f.receipt_filter found.0 payload
          (if f.receipt_filter.match_txs then found.1 else [])
        ≡ ok receipted
    pub states :
        filter_state_and_storage lib f.state_filter f.storage_filter receipted payload ≡ ok stated
    pub result : r ≡ record stated { block_number = some payload.block.number }

  pub filter-Stages :
      check_range f.start f.end payload.block.number ≡ true → filter lib f payload ≡ ok r → Stages
  unfolding filter
  filter-Stages inside h =
      let (headed, heads, h1) =
        >>=-eq-ok
          (filter_headers lib f.header_filter
            (record no_iplds { total_difficulty = payload.total_difficulty }) payload)
          _ (rw inside at h) in
      let (found, finds, h2) =
        >>=-eq-ok (filter_transactions lib f.tx_filter headed payload) _ h1 in
      let (receipted, receipts, h3) =
        >>=-eq-ok
          (filer_receipts lib f.receipt_filter found.0 payload
            (if f.receipt_filter.match_txs then found.1 else []))
          _ h2 in
      let (stated, states, h4) =
        >>=-eq-ok (filter_state_and_storage lib f.state_filter f.storage_filter receipted payload) _
          h3 in
      record {
        headed = headed;
        found = found;
        receipted = receipted;
        stated = stated;
        heads = heads;
        finds = finds;
        receipts = receipts;
        states = states;
        result = cc;
      }

-- A block out of the range is answered with the empty response.
pub filter-outside :
    (lib : Library) (f : SubscriptionSettings) (payload : ConvertedPayload)
    → check_range f.start f.end payload.block.number ≡ false
    → filter lib f payload ≡ ok no_iplds
unfolding filter
filter-outside lib f payload out = rw (out) refl

-- A response to a block out of the subscription's range is empty and has no height; any other
-- response that is not an error has the block's height.
block_number-filter :
    (lib : Library) (f : SubscriptionSettings) (payload : ConvertedPayload) (r : Iplds)
    → filter lib f payload ≡ ok r
    → (check_range f.start f.end payload.block.number ≡ false → r ≡ no_iplds)
      × (check_range f.start f.end payload.block.number ≡ true
          → r.block_number ≡ some payload.block.number)
unfolding filter
block_number-filter lib f payload r h = (
  λ out. cc (rw out at h),
  λ inside. ap (λ i. i.block_number) (Stages.result (filter-Stages lib f payload r inside h)),
)
