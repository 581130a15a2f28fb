-- ===== src/Rewards/Tests.antt =====
-- A block of two transactions and one uncle.
use vulcanize_db.Prelude.{ℕ, ◌≡◌, refl, List, [], ◌∷◌, map}
use vulcanize_db.Prelude.Int.{pos, ◌+ℤ◌, ◌-ℤ◌, ◌*ℤ◌}
use vulcanize_db.Go.{ok}
use vulcanize_db.Rewards.{
  CoreTransaction, calc_block_reward, calc_eth_block_reward, calc_uncle_miner_reward,
}
use vulcanize_db.Rewards.Agree.{calc_eth_block_reward-agrees}

abbrev transactions : List CoreTransaction
transactions =
    record { gas_price = pos 10; gas_used = pos 21000 }
    ∷ record { gas_price = pos 1; gas_used = pos 7 }
    ∷ []

abbrev uncles : List ℕ
uncles = 1 ∷ []

calc_eth_block_reward-agrees_example :
    calc_eth_block_reward
      (pos 5000000)
      uncles
      (map (λ t. t.gas_price) transactions)
      (map (λ t. t.gas_used) transactions)
    ≡ ok (calc_block_reward (pos 5000000) transactions uncles)
calc_eth_block_reward-agrees_example =
    calc_eth_block_reward-agrees (pos 5000000) uncles transactions

-- Three ether, a thirty-second of it and the fees.
reward : calc_block_reward (pos 5000000) transactions uncles ≡ pos 3093750000000210007
unfolding calc_block_reward ◌+ℤ◌ ◌*ℤ◌
reward = refl

uncle_reward : calc_uncle_miner_reward (pos 8000000) (pos 7999999) ≡ pos 1750000000000000000
unfolding calc_uncle_miner_reward ◌+ℤ◌ ◌-ℤ◌ ◌*ℤ◌
uncle_reward = refl
