-- ===== src/Chain/Tests.antt =====
-- The names of chains and of data, at concrete inputs.
use vulcanize_db.Prelude.{◌≡◌, refl}
use vulcanize_db.Go.{ok}
use vulcanize_db.Chain.{bitcoin, receipts, new_chain_type, generate_data_type_from_string}

mixed_case : new_chain_type "BTC" ≡ ok bitcoin
unfolding new_chain_type
mixed_case = refl

short_name : generate_data_type_from_string "Rcts" ≡ ok receipts
unfolding generate_data_type_from_string
short_name = refl
