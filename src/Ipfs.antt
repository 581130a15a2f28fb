-- ===== src/Ipfs.antt =====
-- pkg/ipfs: the block that is served, and the steps that every filter function repeats to make one
-- from an encoded object. The CID is computed by the go-cid library and is a parameter.
use vulcanize_db.Prelude.{String, ◌≡◌, arith}
use vulcanize_db.Go.{Bytes, Result, ok, ◌>>=◌}

pub record BlockModel : Type 0 where
  pub cid : String
  pub content : Bytes

-- Encode, compute the CID, and package; the first error is returned.
unfoldable pub pack : (Bytes → Result String) → Result Bytes → Result BlockModel
pack raw_data_to_cid encoded = do
  bytes ← encoded
  name ← raw_data_to_cid bytes
  ok (record { cid = name; content = bytes })

-- A block is its object's encoding under that encoding's CID.
pub record IsBlockOf (raw_data_to_cid : Bytes → Result String) (encoded : Result Bytes)
    (block : BlockModel) : Type 0 where
  pub encodes : encoded ≡ ok block.content
  pub names : raw_data_to_cid block.content ≡ ok block.cid

module _ (raw_data_to_cid : Bytes → Result String) (encoded : Result Bytes)
    (block : BlockModel) where
  pub pack-IsBlockOf :
      pack raw_data_to_cid encoded ≡ ok block → IsBlockOf raw_data_to_cid encoded block
  unfolding pack
  pack-IsBlockOf h = ground arith

  pub IsBlockOf-pack :
      IsBlockOf raw_data_to_cid encoded block → pack raw_data_to_cid encoded ≡ ok block
  unfolding pack
  IsBlockOf-pack b = rw (b.encodes, b.names)
