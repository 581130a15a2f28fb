-- ===== src/Eth/Publisher/Publish/Maps.antt =====
-- The map of receipts that Publish makes.
use vulcanize_db.Prelude.{
  ℕ, ◌≡◌, refl, ◌∙◌, String, Bool, false, ◌||◌, List, [], ◌∷◌, length, any_of, some, ◌==◌, ==_refl,
  ==_sym, nat_eq, arith,
}
use vulcanize_db.Prelude.Int.{pos}
use vulcanize_db.Prelude.Assoc.{find, insert, find-delete}
use vulcanize_db.Go.{Bytes, Result, ok}
use vulcanize_db.Eth.{ReceiptModel}
use vulcanize_db.Eth.Publisher.{Receipt, Library, Putters}
use vulcanize_db.Eth.Publisher.Publish.{put_all, put_receipts, receipt_with_cid}

abbrev is_for : ℕ → Receipt × Bytes → Bool
is_for hash node = node.0.tx_hash == hash

-- No two receipts are for one transaction.
abbrev pub AllApart : List (Receipt × Bytes) → Type 0
AllApart [] = Unit
AllApart (node ∷ nodes) =
    (any_of (λ other. other.0.tx_hash == node.0.tx_hash) nodes ≡ false) × AllApart nodes

-- Each receipt is in the map under its transaction's hash, with its own metadata and CID.
abbrev pub AllFound :
    (Bytes → String) → List (Receipt × Bytes) → List ReceiptModel → List (ℕ × ReceiptModel) → Type 0
AllFound cid_of [] metas cids = Unit
AllFound cid_of (node ∷ nodes) [] cids = ⊥
AllFound cid_of (node ∷ nodes) (meta ∷ metas) cids =
    (find node.0.tx_hash cids
      ≡ some (record meta { id = pos 0; tx_id = pos 0; cid = cid_of node.1 }))
    × AllFound cid_of nodes metas cids

find-insert_self :
    (hash : ℕ) (model : ReceiptModel) (cids : List (ℕ × ReceiptModel))
    → find hash (insert hash model cids) ≡ some model
find-insert_self hash model cids = rw (==_refl hash) refl

find-insert_other :
    (hash other : ℕ) (model : ReceiptModel) (cids : List (ℕ × ReceiptModel))
    → (hash == other) ≡ false
    → find hash (insert other model cids) ≡ find hash cids
find-insert_other hash other model cids h = rw (h) (find-delete hash other cids h)

module _ (lib : Library) (putters : Putters) (cid_of : Bytes → String) where
  pub put_all-ok :
      (put : Bytes → Result String) (nodes : List Bytes)
      → ((node : Bytes) → put node ≡ ok (cid_of node))
      → put_all lib putters put nodes ≡ ok tt
  unfolding put_all
  put_all-ok put [] accepts = refl
  put_all-ok put (node ∷ nodes) accepts = rw (accepts node) (put_all-ok put nodes accepts)

  module _ (accepts : (node : Bytes) → putters.receipt_putter node ≡ ok (cid_of node)) where
    -- What was in the map stays under the hashes that no receipt has.
    pub put_receipts-ok :
        (nodes : List (Receipt × Bytes)) (metas : List ReceiptModel)
        (before : List (ℕ × ReceiptModel))
        → length nodes ≡ length metas
        → AllApart nodes
        → (after : List (ℕ × ReceiptModel)) × (put_receipts lib putters nodes metas before
            ≡ ok after)
          × AllFound cid_of nodes metas after
          × ((hash : ℕ) → any_of (is_for hash) nodes ≡ false → find hash after ≡ find hash before)
    unfolding put_receipts
    put_receipts-ok [] metas before h apart = (before, refl, tt, λ hash new. refl)
    put_receipts-ok (node ∷ nodes) [] before h apart = absurd (omega (arith, h))
    put_receipts-ok ((rct, node) ∷ nodes) (meta ∷ metas) before h (first, apart) =
        let model = receipt_with_cid lib putters (cid_of node) meta in
        let (after, e, found, others) =
          put_receipts-ok nodes metas (insert rct.tx_hash model before) (omega (arith, h)) apart in
        (
          after,
          rw (accepts node) e,
          (others rct.tx_hash first ∙ find-insert_self rct.tx_hash model before, found),
          λ hash new.
              let parts = or_false (rct.tx_hash == hash) (any_of (is_for hash) nodes) new in
              others hash parts.1
              ∙ find-insert_other hash rct.tx_hash model before (==_sym hash rct.tx_hash ∙ parts.0),
        )
      where
        or_false : (a b : Bool) → a || b ≡ false → (a ≡ false) × (b ≡ false)
        or_false a b h = ground arith
