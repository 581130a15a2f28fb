-- ===== src/Service/EthClient.antt =====
-- pkg/super_node/service.go on an ethereum node: Components filled by package eth
-- (pkg/super_node/eth/subscription_config.go, types.go and filterer.go).
use vulcanize_db.Prelude.{ℕ, ◌≡◌, refl, ap, ◌∙◌, Bool, false, none, some, List, ◌∷◌, String, nat_eq}
use vulcanize_db.Prelude.Int.{ℤ}
use vulcanize_db.Prelude.Assoc.{find}
use vulcanize_db.Go.{Bytes, Result, ok, panic}
use vulcanize_db.Eth.{
  SubscriptionSettings, ConvertedPayload, Iplds, starting_block, ending_block, historical_data,
  historical_data_only, chain_type, height,
}
use vulcanize_db.Eth.Checks.{check_range}
use vulcanize_db.Eth.Filterer.{Library, filter, no_iplds}
use vulcanize_db.Eth.Filterer.Response.{filter-outside}
use vulcanize_db.Service.Serving.{serve_config-sends, serve_response-no_height}
use vulcanize_db.Service.{
  Components, State, Subscription, Subscribers, is_expired, serve_type, serve_config,
}

-- What the client and the database supply.
pub record Outside (Cids : Type 0) : Type 0 where
  pub settings_rlp : SubscriptionSettings → Result Bytes
  pub iplds_rlp : Iplds → Result Bytes
  pub keccak256_hash : Bytes → ℕ
  pub first_block_number : Result ℤ
  pub last_block_number : Result ℤ
  pub retrieve : SubscriptionSettings → ℤ → Result (List Cids × Bool)
  pub fetch : Cids → Result Iplds

-- IPLDs.Height: Int64 of a nil big.Int panics.
pub iplds_height : Iplds → Result ℤ
iplds_height response = elim response.block_number [ none ↦ panic | some number ↦ ok number ]

module _ {Cids : Type 0} (lib : Library) (outside : Outside Cids) where
  abbrev pub components : Components SubscriptionSettings ConvertedPayload Iplds Cids
  components = record {
    chain_type = chain_type;
    starting_block = starting_block;
    ending_block = ending_block;
    historical_data = historical_data;
    historical_data_only = historical_data_only;
    settings_rlp = outside.settings_rlp;
    payload_height = height;
    filter = filter lib;
    iplds_rlp = outside.iplds_rlp;
    iplds_height = iplds_height;
    keccak256_hash = outside.keccak256_hash;
    retrieve_first_block_number = outside.first_block_number;
    retrieve_last_block_number = outside.last_block_number;
    retrieve = outside.retrieve;
    fetch = outside.fetch;
  }

  -- A block before the range of a type that is not expired makes the service panic, when the
  -- empty response can be encoded and the type has a subscriber: the response has no height.
  serve_type-panics :
      (payload : ConvertedPayload) (ty : ℕ) (id : String) (sub : Subscription) (subs : Subscribers)
      (s : State SubscriptionSettings) (config : SubscriptionSettings) (rlp : Bytes)
      → find ty s.subscription_types ≡ some config
      → is_expired components config payload ≡ false
      → check_range config.start config.end payload.block.number ≡ false
      → outside.iplds_rlp no_iplds ≡ ok rlp
      → serve_type components payload ty ((id, sub) ∷ subs) s ≡ panic
  unfolding serve_type iplds_height
  serve_type-panics payload ty id sub subs s config rlp known live out encodes =
      ap (serve_config components payload ty ((id, sub) ∷ subs) s) known
      ∙ serve_config-sends components payload ty ((id, sub) ∷ subs) s config no_iplds live
          (filter-outside lib config payload out)
      ∙ serve_response-no_height components payload ty (id, sub) subs s no_iplds rlp encodes refl
