-- ===== src/Chain/Names.antt =====
-- The names of chains and of kinds of data are read back.
use vulcanize_db.Prelude.{String, ◌≡◌, ◌≢◌, refl, true, false, ◌↔◌, ◌⊎◌, inl, inr, arith}
use vulcanize_db.Go.{ok, err}
use vulcanize_db.Chain.{
  ChainType, unknown_chain, ethereum, bitcoin, omni, DataType, unknown_data_type, full, headers,
  uncles, transactions, receipts, state, storage, chain_string, chain_api, new_chain_type,
  data_string, generate_data_type_from_string, supported_data_type,
}

-- Every chain but the unknown one is read back from its display name and from its API name, and
-- the unknown chain's names are refused.
new_chain_type-chain_string :
    (c : ChainType)
    → ((c ≢ unknown_chain)
        → (new_chain_type (chain_string c) ≡ ok c) × (new_chain_type (chain_api c) ≡ ok c))
      × (c ≡ unknown_chain → new_chain_type (chain_string c) ≡ err "invalid name for chain")
unfolding new_chain_type chain_string chain_api
new_chain_type-chain_string ethereum = (λ _. (refl, refl), λ e. cc)
new_chain_type-chain_string bitcoin = (λ _. (refl, refl), λ e. cc)
new_chain_type-chain_string omni = (λ _. (refl, refl), λ e. cc)
new_chain_type-chain_string unknown_chain = (λ n. absurd (n refl), λ _. refl)

-- Every kind of data but the unknown one is read back from its name; the name of the unknown kind
-- is refused.
generate_data_type_from_string-data_string :
    (d : DataType)
    → (d ≢ unknown_data_type → generate_data_type_from_string (data_string d) ≡ ok d)
      × (d ≡ unknown_data_type
          → generate_data_type_from_string (data_string d) ≡ err "unrecognized resync type")
unfolding generate_data_type_from_string data_string
generate_data_type_from_string-data_string full = (λ _. refl, λ e. cc)
generate_data_type_from_string-data_string headers = (λ _. refl, λ e. cc)
generate_data_type_from_string-data_string uncles = (λ _. refl, λ e. cc)
generate_data_type_from_string-data_string transactions = (λ _. refl, λ e. cc)
generate_data_type_from_string-data_string receipts = (λ _. refl, λ e. cc)
generate_data_type_from_string-data_string state = (λ _. refl, λ e. cc)
generate_data_type_from_string-data_string storage = (λ _. refl, λ e. cc)
generate_data_type_from_string-data_string unknown_data_type = (λ n. absurd (n refl), λ _. refl)

supported_ethereum : (d : DataType) → supported_data_type d ethereum ≡ ok true
unfolding supported_data_type
supported_ethereum full = refl
supported_ethereum _ = refl

supported_bitcoin :
    (d : DataType)
    → supported_data_type d bitcoin ≡ ok true
    → (d ≡ full) ⊎ (d ≡ headers) ⊎ (d ≡ transactions)
unfolding supported_data_type
supported_bitcoin full h = inl refl
supported_bitcoin headers h = inr (inl refl)
supported_bitcoin transactions h = inr (inr refl)
supported_bitcoin _ h = cc

supported_omni : (d : DataType) → supported_data_type d omni ≡ ok false
unfolding supported_data_type
supported_omni full = refl
supported_omni _ = refl

supported_bitcoin_these :
    (d : DataType)
    → ((d ≡ full) ⊎ (d ≡ headers) ⊎ (d ≡ transactions))
    → supported_data_type d bitcoin ≡ ok true
unfolding supported_data_type
supported_bitcoin_these d h = ground arith

bitcoin_ne_err : (d : DataType) (e : String) → supported_data_type d bitcoin ≢ err e
unfolding supported_data_type
bitcoin_ne_err full e h = cc
bitcoin_ne_err _ e h = cc

supported_error :
    (d : DataType) (c : ChainType)
    → (e : String) → supported_data_type d c ≡ err e
    → c ≡ unknown_chain
supported_error d ethereum e h = cc (supported_ethereum d)
supported_error d bitcoin e h = absurd (bitcoin_ne_err d e h)
supported_error d omni e h = cc (supported_omni d)
supported_error d unknown_chain e h = refl

-- Ethereum supports every kind of data, the unknown one included; Bitcoin supports exactly full
-- data, headers and transactions; Omni supports none; and an error comes for the unknown chain only.
supported_data_type-by_chain :
    (d : DataType) (c : ChainType)
    → (supported_data_type d ethereum ≡ ok true)
      × ((supported_data_type d bitcoin ≡ ok true)
          ↔ ((d ≡ full) ⊎ (d ≡ headers) ⊎ (d ≡ transactions)))
      × (supported_data_type d omni ≡ ok false)
      × ((e : String) → supported_data_type d c ≡ err e → c ≡ unknown_chain)
supported_data_type-by_chain d c = (
  supported_ethereum d,
  (supported_bitcoin d, supported_bitcoin_these d),
  supported_omni d,
  supported_error d c,
)
