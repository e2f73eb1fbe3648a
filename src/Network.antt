-- ===== src/Network.antt =====
-- The chains that the server knows, evm/src/network.rs and evm/src/testnet.rs. A chain's name and
-- the address of its explorer are left out.
use ethpayserver.Base.{ℕ, ◌*◌, String, Bool, Option, none, some, List, [], ◌∷◌, ◌==◌, find, min}

pub record ChainConfig : Type 0 where
  pub chain_id : ℕ
  pub native_symbol : String
  pub native_decimals : ℕ
  pub block_time_secs : ℕ
  pub confirmations_required : ℕ

chain : ℕ → String → ℕ → ℕ → ChainConfig
chain id symbol block_time confirmations = record {
  chain_id = id;
  native_symbol = symbol;
  native_decimals = 18;
  block_time_secs = block_time;
  confirmations_required = confirmations;
}

-- `ALL_CHAINS`, in its order.
unfoldable pub all_chains : List ChainConfig
unfolding chain
all_chains =
    chain 1 "ETH" 12 12
    ∷ chain 137 "POL" 2 128
    ∷ chain 42161 "ETH" 1 64
    ∷ chain 10 "ETH" 2 64
    ∷ chain 8453 "ETH" 2 64
    ∷ chain 43114 "AVAX" 2 12
    ∷ chain 56 "BNB" 3 15
    ∷ chain 324 "ETH" 1 1
    ∷ chain 59144 "ETH" 2 20
    ∷ chain 534352 "ETH" 3 20
    ∷ chain 250 "FTM" 1 12
    ∷ chain 100 "xDAI" 5 20
    ∷ []

-- `ALL_TESTNETS`, in its order.
unfoldable pub all_testnets : List ChainConfig
unfolding chain
all_testnets =
    chain 11155111 "ETH" 12 3
    ∷ chain 17000 "ETH" 12 3
    ∷ chain 560048 "ETH" 12 3
    ∷ chain 80002 "POL" 2 5
    ∷ chain 421614 "ETH" 1 5
    ∷ chain 11155420 "ETH" 2 5
    ∷ chain 84532 "ETH" 2 5
    ∷ chain 43113 "AVAX" 2 3
    ∷ chain 97 "tBNB" 3 5
    ∷ []

abbrev has_chain_id : ℕ → ChainConfig → Bool
has_chain_id id c = c.chain_id == id

unfoldable pub get_chain_config_by_id : ℕ → Option ChainConfig
unfolding all_chains
get_chain_config_by_id id = find (has_chain_id id) all_chains

unfoldable pub get_testnet_config : ℕ → Option ChainConfig
unfolding all_testnets
get_testnet_config id = find (has_chain_id id) all_testnets

unfoldable pub get_any_chain_config : ℕ → Option ChainConfig
unfolding get_chain_config_by_id get_testnet_config
get_any_chain_config id = elim (get_chain_config_by_id id) [
  | some c ↦ some c
  | none ↦ get_testnet_config id
]

-- `u64::saturating_mul`.
abbrev saturating_mul : ℕ → ℕ → ℕ
saturating_mul a b = min (a * b) 18446744073709551615

unfoldable pub min_paid_unwatch_grace_period_secs : ChainConfig → ℕ
min_paid_unwatch_grace_period_secs c =
    saturating_mul (saturating_mul c.confirmations_required c.block_time_secs) 2
