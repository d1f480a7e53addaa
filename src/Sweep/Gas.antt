-- ===== src/Sweep/Gas.antt =====
-- src/services/sweep_engine.py: the gas price of a sweep and the amount of gas that is funded.
use privana.Prelude.{ℕ, ◌+◌, ◌*◌, ◌/◌, Option, none, some, List, max, min, ◌==◌, ◌&&◌}
use privana.Text.{codes}
use privana.Config.{ChainConfig, find_config, gas_funding_headroom}
use privana.Effect.{
  Outcome, ok, raise, M, pure, lift, raise_if, value_error, other_error, ◌>>=◌, ◌>>◌,
}
use privana.Sweep.World.{Engine, Env, await}

abbrev pub key_error : {A : Type 0} → Outcome A
key_error = raise (other_error (codes "KeyError"))

-- `MIN_SWEEP_GAS_PRICE_WEI[chain_id]`
unfoldable pub min_sweep_gas_price : List ChainConfig → ℕ → Outcome ℕ
unfolding find_config
min_sweep_gas_price configs k = elim (find_config k configs) [
  | none ↦ key_error
  | some c ↦ ok c.min_sweep_gas_price_wei
]

-- `GAS_FUNDING_AMOUNT_WEI[chain_id]`
unfoldable pub gas_funding_cap : List ChainConfig → ℕ → Outcome ℕ
unfolding find_config
gas_funding_cap configs k = elim (find_config k configs) [
  | none ↦ key_error
  | some c ↦ ok c.gas_funding_amount_wei
]

unfoldable pub choose_gas_price : ℕ → ℕ → ℕ → ℕ
choose_gas_price base_fee rpc_gas_price floor = max (max (base_fee * 5 / 4) rpc_gas_price) floor

-- What is sent to the deposit address to pay for its sweep.
unfoldable pub gas_amount : ℕ → ℕ → ℕ → ℕ → ℕ
gas_amount gas_limit gas_price l1_data_fee cap =
    min (gas_limit * gas_price * gas_funding_headroom + l1_data_fee) cap

-- `latest_block.get("baseFeePerGas") or 0`
abbrev pub or_zero : Option ℕ → ℕ
or_zero none = 0
or_zero (some n) = n

module _ (env : Env) (configs : List ChainConfig) where
  -- `_get_safe_gas_price`
  unfoldable pub get_safe_gas_price : ℕ → M Engine ℕ
  unfolding min_sweep_gas_price
  get_safe_gas_price chain = do
    fee ← await env (λ t. env.base_fee t chain)
    let base_fee = or_zero fee
    rpc_gas_price ← await env (λ t. env.gas_price t chain)
    raise_if (base_fee == 0 && rpc_gas_price == 0)
        (value_error (codes "RPC returned no gas price signal"))
    floor ← lift (min_sweep_gas_price configs chain)
    pure (choose_gas_price base_fee rpc_gas_price floor)
