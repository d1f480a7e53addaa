-- ===== src/Sweep/Record.antt =====
-- src/services/sweep_engine.py: `SweepState`, `SweepRecord` and the arguments of a sweep.
pub mod Json
use privana.Prelude.{ℕ, Bool, true, false, not, Option, none, some, [], leb, if◌then◌else◌}
use privana.Text.{Text, codes, is_nonempty}
use privana.Text.Hex.{Bytes, to_hex}
use privana.Effect.{Outcome, ok, raise, value_error}

pub data SweepState : Type 0 where
  pending gas_funded swept : SweepState

unfoldable pub is_swept : SweepState → Bool
is_swept pending = false
is_swept gas_funded = false
is_swept swept = true

pub record SweepRecord : Type 0 where
  pub deposit_address : Text
  pub chain_id : ℕ
  pub state : SweepState
  pub beneficiary : Text
  pub chain_type : Text
  pub version : ℕ
  pub amount : ℕ
  pub token_id_hex : Text
  pub token_address : Option Text
  pub deposit_id_hex : Text
  pub source_tx_hash : Text
  pub deposit_index : ℕ
  pub sweep_tx_hash : Option Text
  pub gas_funding_tx_hash : Option Text
  pub created_at : ℕ
  pub retry_count : ℕ
  pub error : Option Text

-- The truth value of an `Optional[str]`: the empty text counts as absent.
unfoldable pub is_set : Option Text → Bool
unfolding is_nonempty
is_set none = false
is_set (some t) = is_nonempty t

-- `__post_init__`
unfoldable pub post_init : SweepRecord → Outcome SweepRecord
unfolding is_nonempty
post_init r =
    if leb r.chain_id 0
    then raise (value_error (codes "chain_id must be positive"))
    else if not (is_nonempty r.deposit_address)
    then raise (value_error (codes "deposit_address required"))
    else if not (is_nonempty r.beneficiary)
    then raise (value_error (codes "beneficiary required"))
    else ok r

-- The arguments of `sweep_native`, and of `sweep_erc20` less its `token_address`.
pub record SweepArgs : Type 0 where
  pub deposit_address : Text
  pub beneficiary : Text
  pub chain_type : Text
  pub version : ℕ
  pub chain_id : ℕ
  pub token_id : Bytes
  pub amount : ℕ
  pub deposit_id : Bytes

-- The record that a sweep starts with, before it is validated.
unfoldable pub initial_record : SweepArgs → Option Text → ℕ → SweepRecord
initial_record a token now = record {
  deposit_address = a.deposit_address;
  chain_id = a.chain_id;
  state = pending;
  beneficiary = a.beneficiary;
  chain_type = a.chain_type;
  version = a.version;
  amount = a.amount;
  token_id_hex = to_hex a.token_id;
  token_address = token;
  deposit_id_hex = to_hex a.deposit_id;
  source_tx_hash = [];
  deposit_index = 0;
  sweep_tx_hash = none;
  gas_funding_tx_hash = none;
  created_at = now;
  retry_count = 0;
  error = none;
}
