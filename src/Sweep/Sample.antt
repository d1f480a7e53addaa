-- ===== src/Sweep/Sample.antt =====
-- A chain, a contract and a deposit for the tests: every call is answered at once, every
-- transaction is mined with status 1, and no other task runs.
use privana.Prelude.{
  Bool, ◌≢◌, ◌*◌, ltb, arith, if◌then◌else◌, ℕ, zero, suc, ◌∷◌, refl, true, false, none, some, List,
  [],
}
use privana.Text.{Text, codes}
use privana.Text.Hex.{Bytes}
use privana.Config.{ChainConfig, build_chain_configs}
use privana.Effect.{fuel_out, ok, raise, connection_error}
use privana.Sweep.Record.{SweepRecord, SweepArgs, gas_funded}
use privana.Sweep.Record.Json.{to_dict}
use privana.Sweep.World.{Engine, Env, object}
use privana.Sweep.Operations.{fresh}
use privana.Sweep.Receipt.Waiting.{IsTimely}
use privana.Sweep.Safety.Invariant.{Rely}

abbrev pub repeated : ℕ → ℕ → Bytes
repeated zero b = []
repeated (suc n) b = b ∷ repeated n b

abbrev pub sample_env : Env
sample_env = record {
  served = λ t k. true;
  acquire = λ t. ok tt;
  now = λ t. t;
  sleep = λ t. ok tt;
  get_balance = λ t k a. ok 5_000_000_000_000_000;
  erc20_balance = λ t k token a. ok 5_000_000;
  base_fee = λ t k. ok (some 10);
  gas_price = λ t k. ok 10;
  l1_data_fee = λ t k e. ok 0;
  transaction_count = λ t k a p. ok 0;
  gas_tank_address = λ t. ok (codes "0xF");
  generate_gas_funding_tx = λ t a k amount nonce price. ok (1 ∷ []);
  generate_sweep = λ t b ct v k token amount nonce price. ok (2 ∷ []);
  send_raw_transaction = λ t k tx. ok tx;
  transaction_receipt = λ t k hash. ok (some 1);
  is_deposit_processed = λ t id. ok false;
  credit_deposit = λ t b token amount id. ok tt;
  others = λ t s. s;
}

pub sample-Rely : Rely sample_env
sample-Rely = record { safe = λ t s h. h; grows = λ t s. ([], refl) }

abbrev pub sample_id : Bytes
sample_id = repeated 32 7

-- The id in hexadecimal, as it stands in a record.
abbrev pub sample_id_hex : Text
sample_id_hex = codes "0x0707070707070707070707070707070707070707070707070707070707070707"

abbrev pub sample_args : SweepArgs
sample_args = record {
  deposit_address = codes "0xD";
  beneficiary = codes "0xB";
  chain_type = codes "evm";
  version = 1;
  chain_id = 1;
  token_id = 9 ∷ [];
  amount = 4_000_000_000_000_000;
  deposit_id = sample_id;
}

abbrev pub sample_configs : List ChainConfig
sample_configs = build_chain_configs false

abbrev pub sample_record : SweepRecord
sample_record = record {
  deposit_address = codes "0xD";
  chain_id = 1;
  state = gas_funded;
  beneficiary = codes "0xB";
  chain_type = codes "evm";
  version = 1;
  amount = 4_000_000_000_000_000;
  token_id_hex = codes "0x09";
  token_address = none;
  deposit_id_hex = sample_id_hex;
  source_tx_hash = [];
  deposit_index = 0;
  sweep_tx_hash = none;
  gas_funding_tx_hash = none;
  created_at = 0;
  retry_count = 0;
  error = none;
}

-- The same chain under a contract that cannot be reached.
abbrev pub broken_env : Env
broken_env = record sample_env {
  credit_deposit = λ t b token amount id. raise (connection_error []);
}

pub broken-Rely : Rely broken_env
broken-Rely = record { safe = λ t s h. h; grows = λ t s. ([], refl) }

abbrev pub sample_path : Text
sample_path = codes "sweep_0707070707070707070707070707070707070707070707070707070707070707.json"

-- An engine with one record on disk.
abbrev pub engine_with : SweepRecord → Engine
engine_with r = record fresh { files = (sample_path, object (to_dict r)) ∷ [] }

-- A chain that takes its time: a step is two seconds, and a receipt is there from the fifth.
abbrev pub slow_env : Env
slow_env = record sample_env {
  now = λ t. 2 * t;
  transaction_receipt = λ t k hash. if ltb t 5 then ok none else ok (some 1);
}

no_fuel_out : {A : Type 0} (b : Bool) (x y : A) → (if b then ok x else ok y) ≢ raise fuel_out
no_fuel_out true x y p = cc
no_fuel_out false x y p = cc

pub slow-IsTimely : IsTimely slow_env
slow-IsTimely = record {
  forward = λ t u le. omega arith;
  sleeps = λ t e. omega arith;
  ticks = λ t s. omega arith;
  sleep_ends = λ t. no_fuel_out true tt tt;
  node_ends = λ t k hash. no_fuel_out (ltb t 5) none (some 1);
}
