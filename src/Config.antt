-- ===== src/Config.antt =====
-- config/chain_config.py: the settings of each chain, their validation and the tables derived
-- from them. A key that a table lacks raises `KeyError` where the code indexes it.
use privana.Prelude.{
  ℕ, ◌*◌, ◌<◌, ◌≤◌, ◌≡◌, refl, Bool, true, not, ◌&&◌, Option, none, some, List, [], ◌∷◌, arith, ltb,
  leb, ◌==◌, every, if◌then◌else◌,
}

pub data L2Type : Type 0 where
  no_l2 op_stack arbitrum : L2Type

abbrev pub sweep_gas_limit_native : ℕ
sweep_gas_limit_native = 25_000

abbrev pub sweep_gas_limit_erc20 : ℕ
sweep_gas_limit_erc20 = 65_000

abbrev pub gas_funding_headroom : ℕ
gas_funding_headroom = 2

pub record ChainConfig : Type 0 where
  pub chain_id : ℕ
  pub finality_depth : ℕ
  pub min_deposit_native_wei : ℕ
  pub min_deposit_erc20_wei : ℕ
  pub gas_funding_amount_wei : ℕ
  pub min_sweep_gas_price_wei : ℕ
  pub l2_type : L2Type
  pub discovery_lookback_blocks : ℕ
  pub discovery_max_lookback_blocks : ℕ
  pub discovery_scan_chunk_blocks : ℕ

-- `__post_init__`: `true` when it raises nothing.
unfoldable pub is_accepted : ChainConfig → Bool
is_accepted c =
    not (leb c.min_deposit_native_wei c.gas_funding_amount_wei)
    && (ltb 0 c.discovery_lookback_blocks
        && leb c.discovery_lookback_blocks c.discovery_max_lookback_blocks)
    && not (leb c.discovery_scan_chunk_blocks 0)
    && not (leb c.min_sweep_gas_price_wei 0)
    && not (
        ltb c.gas_funding_amount_wei
          (sweep_gas_limit_erc20 * c.min_sweep_gas_price_wei * gas_funding_headroom))

abbrev sapphire_testnet : ChainConfig
sapphire_testnet = record {
  chain_id = 23295;
  finality_depth = 2;
  min_deposit_native_wei = 50_000_000_000_000_000;
  min_deposit_erc20_wei = 1_000_000_000_000_000_000;
  gas_funding_amount_wei = 20_000_000_000_000_000;
  min_sweep_gas_price_wei = 100_000_000_000;
  l2_type = no_l2;
  discovery_lookback_blocks = 640;
  discovery_max_lookback_blocks = 1_000;
  discovery_scan_chunk_blocks = 100;
}

-- `_build_chain_configs`, with the test of the environment variable as its argument.
unfoldable pub build_chain_configs : Bool → List ChainConfig
build_chain_configs localnet =
    sapphire_testnet
    ∷ record {
      chain_id = 84532;
      finality_depth = 15;
      min_deposit_native_wei = 1_000_000_000_000_000;
      min_deposit_erc20_wei = 1_000_000;
      gas_funding_amount_wei = 200_000_000_000_000;
      min_sweep_gas_price_wei = 100_000_000;
      l2_type = op_stack;
      discovery_lookback_blocks = 1_800;
      discovery_max_lookback_blocks = 43_200;
      discovery_scan_chunk_blocks = 5_000;
    }
    ∷ record {
      chain_id = 11155111;
      finality_depth = 2;
      min_deposit_native_wei = 50_000_000_000_000_000;
      min_deposit_erc20_wei = 50_000_000;
      gas_funding_amount_wei = 2_000_000_000_000_000;
      min_sweep_gas_price_wei = 100_000_000;
      l2_type = no_l2;
      discovery_lookback_blocks = 300;
      discovery_max_lookback_blocks = 7_200;
      discovery_scan_chunk_blocks = 5_000;
    }
    ∷ record {
      chain_id = 8453;
      finality_depth = 15;
      min_deposit_native_wei = 2_000_000_000_000_000;
      min_deposit_erc20_wei = 1_000_000;
      gas_funding_amount_wei = 200_000_000_000_000;
      min_sweep_gas_price_wei = 5_000_000;
      l2_type = op_stack;
      discovery_lookback_blocks = 1_800;
      discovery_max_lookback_blocks = 43_200;
      discovery_scan_chunk_blocks = 5_000;
    }
    ∷ record {
      chain_id = 1;
      finality_depth = 32;
      min_deposit_native_wei = 2_000_000_000_000_000;
      min_deposit_erc20_wei = 1_000_000;
      gas_funding_amount_wei = 1_000_000_000_000_000;
      min_sweep_gas_price_wei = 100_000_000;
      l2_type = no_l2;
      discovery_lookback_blocks = 300;
      discovery_max_lookback_blocks = 7_200;
      discovery_scan_chunk_blocks = 5_000;
    }
    ∷ record {
      chain_id = 999;
      finality_depth = 10;
      min_deposit_native_wei = 50_000_000_000_000_000;
      min_deposit_erc20_wei = 1_000_000;
      gas_funding_amount_wei = 200_000_000_000_000;
      min_sweep_gas_price_wei = 100_000_000;
      l2_type = no_l2;
      discovery_lookback_blocks = 3_600;
      discovery_max_lookback_blocks = 86_400;
      discovery_scan_chunk_blocks = 5_000;
    }
    ∷ (if localnet then record sapphire_testnet { chain_id = 23293 } ∷ [] else [])

unfoldable pub find_config : ℕ → List ChainConfig → Option ChainConfig
find_config k [] = none
find_config k (c ∷ cs) = if c.chain_id == k then some c else find_config k cs

abbrev pub default_finality_depth : ℕ
default_finality_depth = 32

unfoldable pub get_finality_depth : List ChainConfig → ℕ → ℕ
get_finality_depth configs k = elim (find_config k configs) [
  | none ↦ default_finality_depth
  | some c ↦ c.finality_depth
]

-- What an accepted configuration guarantees to the sweep engine and the deposit processor.
pub record IsSound (c : ChainConfig) : Type 0 where
  pub cap_below_min : c.gas_funding_amount_wei < c.min_deposit_native_wei
  pub floor_positive : 0 < c.min_sweep_gas_price_wei
  pub cap_covers_floor : 65_000 * c.min_sweep_gas_price_wei * 2 ≤ c.gas_funding_amount_wei

pub is_accepted-IsSound : (c : ChainConfig) → is_accepted c ≡ true → IsSound c
unfolding is_accepted
is_accepted-IsSound c h = record {
  cap_below_min = ground arith;
  floor_positive = ground arith;
  cap_covers_floor = ground arith;
}

-- Every configuration of the table passes its own validation, with the localnet mirror or without.
pub build_chain_configs-accepted :
    (localnet : Bool) → every is_accepted (build_chain_configs localnet) ≡ true
unfolding build_chain_configs is_accepted
build_chain_configs-accepted true = refl
build_chain_configs-accepted _ = refl

pub find_config-accepted :
    (k : ℕ) (cs : List ChainConfig) (c : ChainConfig)
    → every is_accepted cs ≡ true
    → find_config k cs ≡ some c
    → is_accepted c ≡ true
unfolding find_config
find_config-accepted k [] c h e = ground arith
find_config-accepted k (x ∷ cs) c h e = ground (arith, find_config-accepted k cs c)
