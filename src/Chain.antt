-- ===== src/Chain.antt =====
-- pkg/super_node/shared/chain_type.go and data_type.go: the enumerations of chains and of kinds of
-- data, their names, and which data a chain supports. A name is compared by its code points after
-- `strings.ToLower`; the letters modelled are those whose lower case is an ASCII letter, the only
-- ones that can occur in a name that is recognised.
pub mod Names
pub mod Tests
use Prim.Native.Char.{code}
use vulcanize_db.Prelude.{
  ℕ, ◌+◌, String, Bool, true, false, ◌&&◌, ◌||◌, List, [], ◌∷◌, leb, nat_beq, list_beq, map,
  if◌then◌else◌,
}
use vulcanize_db.Go.{Result, ok, err}

pub data ChainType : Type 0 where
  unknown_chain ethereum bitcoin omni : ChainType

pub data DataType : Type 0 where
  unknown_data_type full headers uncles transactions receipts state storage : DataType

abbrev pub codes : String → List ℕ
codes String.[] = []
codes (String.◌∷◌ c s) = code c ∷ codes s

to_lower : ℕ → ℕ
to_lower c =
    if leb b'A' c && leb c b'Z'
    then c + 32
    else if nat_beq c 0x130
    then b'i'
    else if nat_beq c 0x212a
    then b'k'
    else c

-- Whether the name is the given lower-case one, in any case.
pub named : String → String → Bool
unfolding to_lower
named name lower = list_beq (map to_lower (codes name)) (codes lower)

-- ChainType.String, ChainType.API, NewChainType
pub chain_string : ChainType → String
chain_string ethereum = "Ethereum"
chain_string bitcoin = "Bitcoin"
chain_string omni = "Omni"
chain_string _ = ""

pub chain_api : ChainType → String
chain_api ethereum = "eth"
chain_api bitcoin = "btc"
chain_api omni = "omni"
chain_api _ = ""

pub new_chain_type : String → Result ChainType
unfolding named
new_chain_type name =
    if named name "ethereum" || named name "eth"
    then ok ethereum
    else if named name "bitcoin" || (named name "btc" || named name "xbt")
    then ok bitcoin
    else if named name "omni"
    then ok omni
    else err "invalid name for chain"

-- DataType.String, GenerateDataTypeFromString
pub data_string : DataType → String
data_string full = "full"
data_string headers = "headers"
data_string uncles = "uncles"
data_string transactions = "transactions"
data_string receipts = "receipts"
data_string state = "state"
data_string storage = "storage"
data_string _ = "unknown"

named_any : String → List String → Bool
unfolding named
named_any name [] = false
named_any name (lower ∷ rest) = named name lower || named_any name rest

pub generate_data_type_from_string : String → Result DataType
unfolding named_any
generate_data_type_from_string str =
    if named_any str ("full" ∷ "f" ∷ [])
    then ok full
    else if named_any str ("headers" ∷ "header" ∷ "h" ∷ [])
    then ok headers
    else if named_any str ("uncles" ∷ "u" ∷ [])
    then ok uncles
    else if named_any str
        ("transactions" ∷ "transaction" ∷ "trxs" ∷ "txs" ∷ "trx" ∷ "tx" ∷ "t" ∷ [])
    then ok transactions
    else if named_any str ("receipts" ∷ "receipt" ∷ "rcts" ∷ "rct" ∷ "r" ∷ [])
    then ok receipts
    else if named str "state"
    then ok state
    else if named str "storage"
    then ok storage
    else err "unrecognized resync type"

-- SupportedDataType
pub supported_data_type : DataType → ChainType → Result Bool
supported_data_type full ethereum = ok true
supported_data_type headers ethereum = ok true
supported_data_type uncles ethereum = ok true
supported_data_type transactions ethereum = ok true
supported_data_type receipts ethereum = ok true
supported_data_type state ethereum = ok true
supported_data_type storage ethereum = ok true
supported_data_type unknown_data_type ethereum = ok true
supported_data_type full bitcoin = ok true
supported_data_type headers bitcoin = ok true
supported_data_type uncles bitcoin = ok false
supported_data_type transactions bitcoin = ok true
supported_data_type receipts bitcoin = ok false
supported_data_type state bitcoin = ok false
supported_data_type storage bitcoin = ok false
supported_data_type unknown_data_type bitcoin = ok false
supported_data_type _ omni = ok false
supported_data_type _ unknown_chain = err "unrecognized chain type"

-- `==` on chain types, which are numbers in Go.
abbrev pub chain_beq : ChainType → ChainType → Bool
chain_beq unknown_chain unknown_chain = true
chain_beq ethereum ethereum = true
chain_beq bitcoin bitcoin = true
chain_beq omni omni = true
chain_beq _ _ = false
