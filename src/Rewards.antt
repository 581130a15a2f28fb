-- ===== src/Rewards.antt =====
-- pkg/eth/converters/common/block_rewards.go: the rewards of a block and of an uncle, which are
-- big integers. The two kinds of block are those of pkg/eth/core and of go-ethereum; gas used is
-- already converted to int64.
pub mod Agree
pub mod Tests
use vulcanize_db.Prelude.{ℕ, ◌/◌, List, [], ◌∷◌, Bool, true, false, if◌then◌else◌}
use vulcanize_db.Prelude.Int.{ℤ, pos, ◌+ℤ◌, ◌-ℤ◌, ◌*ℤ◌, leb_ℤ}
use vulcanize_db.Go.{Result, ok, err, panic, ◌>>=◌}

pub record CoreTransaction : Type 0 where
  pub gas_price : ℤ
  pub gas_used : ℤ

pub static_reward_by_block_number : ℤ → ℕ
static_reward_by_block_number block_number =
    if leb_ℤ (pos 7280000) block_number
    then 2000000000000000000
    else if leb_ℤ (pos 4370000) block_number
    then 3000000000000000000
    else 5000000000000000000

pub fees_loop : List CoreTransaction → ℤ → ℤ
fees_loop [] fees = fees
fees_loop (tx ∷ txs) fees = fees_loop txs (fees +ℤ tx.gas_price *ℤ tx.gas_used)

pub calc_transaction_fees : List CoreTransaction → ℤ
unfolding fees_loop
calc_transaction_fees txs = fees_loop txs (pos 0)

-- `receipts[i]` panics past the end of the receipts.
pub eth_fees_loop : List ℤ → List ℤ → ℤ → Result ℤ
eth_fees_loop [] receipts fees = ok fees
eth_fees_loop (gas_price ∷ txs) [] fees = panic
eth_fees_loop (gas_price ∷ txs) (gas_used ∷ receipts) fees =
    eth_fees_loop txs receipts (fees +ℤ gas_price *ℤ gas_used)

pub calc_eth_transaction_fees : List ℤ → List ℤ → Result ℤ
unfolding eth_fees_loop
calc_eth_transaction_fees txs receipts = eth_fees_loop txs receipts (pos 0)

module _ {Uncle : Type 0} where
  pub uncles_loop : ℤ → List Uncle → ℤ → ℤ
  unfolding static_reward_by_block_number
  uncles_loop number [] rewards = rewards
  uncles_loop number (uncle ∷ uncles) rewards =
      uncles_loop number uncles (rewards +ℤ pos (static_reward_by_block_number number / 32))

  pub calc_uncle_inclusion_rewards : ℤ → List Uncle → ℤ
  unfolding uncles_loop
  calc_uncle_inclusion_rewards number uncles = uncles_loop number uncles (pos 0)

  pub calc_block_reward : ℤ → List CoreTransaction → List Uncle → ℤ
  unfolding calc_transaction_fees calc_uncle_inclusion_rewards
  calc_block_reward number txs uncles =
      calc_transaction_fees txs
      +ℤ calc_uncle_inclusion_rewards number uncles
      +ℤ pos (static_reward_by_block_number number)

  pub calc_eth_uncle_inclusion_rewards : ℤ → List Uncle → ℤ
  unfolding uncles_loop
  calc_eth_uncle_inclusion_rewards number uncles = uncles_loop number uncles (pos 0)

  unfoldable pub calc_eth_block_reward : ℤ → List Uncle → List ℤ → List ℤ → Result ℤ
  unfolding calc_eth_transaction_fees calc_eth_uncle_inclusion_rewards
  calc_eth_block_reward number uncles txs receipts = do
    fees ← calc_eth_transaction_fees txs receipts
    ok (
        fees
        +ℤ calc_eth_uncle_inclusion_rewards number uncles
        +ℤ pos (static_reward_by_block_number number))

pub calc_uncle_miner_reward : ℤ → ℤ → ℤ
unfolding static_reward_by_block_number
calc_uncle_miner_reward block_number uncle_block_number =
    pos (static_reward_by_block_number block_number / 8)
    *ℤ (uncle_block_number +ℤ pos 8 -ℤ block_number)
