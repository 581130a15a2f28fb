-- ===== src/Rewards/Agree.antt =====
-- The two block rewards of pkg/eth/converters/common/block_rewards.go.
use vulcanize_db.Prelude.{◌≡◌, refl, List, [], ◌∷◌, map}
use vulcanize_db.Prelude.Int.{ℤ, pos, ◌+ℤ◌, ◌*ℤ◌}
use vulcanize_db.Go.{ok}
use vulcanize_db.Rewards.{
  CoreTransaction, fees_loop, calc_transaction_fees, eth_fees_loop, calc_eth_transaction_fees,
  calc_block_reward, calc_eth_block_reward, calc_uncle_inclusion_rewards,
  calc_eth_uncle_inclusion_rewards,
}

fees_loop-agrees :
    (txs : List CoreTransaction) (fees : ℤ)
    → eth_fees_loop (map (λ t. t.gas_price) txs) (map (λ t. t.gas_used) txs) fees
      ≡ ok (fees_loop txs fees)
unfolding fees_loop eth_fees_loop
fees_loop-agrees [] fees = refl
fees_loop-agrees (tx ∷ txs) fees = fees_loop-agrees txs (fees +ℤ tx.gas_price *ℤ tx.gas_used)

-- On the transactions and receipts of a block, CalcEthBlockReward does not panic and is
-- CalcBlockReward of that block.
pub calc_eth_block_reward-agrees :
    {Uncle : Type 0} (number : ℤ) (uncles : List Uncle) (txs : List CoreTransaction)
    → calc_eth_block_reward number uncles (map (λ t. t.gas_price) txs) (map (λ t. t.gas_used) txs)
      ≡ ok (calc_block_reward number txs uncles)
unfolding calc_eth_block_reward calc_block_reward calc_eth_transaction_fees calc_transaction_fees
    calc_uncle_inclusion_rewards calc_eth_uncle_inclusion_rewards
calc_eth_block_reward-agrees number uncles txs = rw (fees_loop-agrees txs (pos 0)) refl
