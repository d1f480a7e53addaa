-- ===== src/Deposit/Processor.antt =====
-- src/services/deposit_processor.py: `process_deposit`, `_background_sweep` and `get_deposit_status`.
-- A task that `process_deposit` creates is returned beside the response. The Accounting contract,
-- keccak256 and the nodes behind the verifier are the fields of `Services`.
use privana.Prelude.{
  ℕ, Bool, true, false, not, ◌&&◌, Option, none, some, List, [], ◌∷◌, ltb, if◌then◌else◌,
}
use privana.Text.{Text, codes, text_eq, lower}
use privana.Text.Hex.{Bytes, to_hex}
use privana.Config.{ChainConfig, find_config}
use privana.Effect.{
  Exn, Outcome, M, pure, throw, gets, lift, ◌>>=◌, ◌>>◌, try_except, raise_if, is_exception,
  exn_text, value_error, credit_pending, other_error,
}
use privana.Sweep.Record.{SweepRecord, SweepArgs, is_set}
use privana.Sweep.World.{Engine, Env, await}
use privana.Sweep.Store.{get_record, cleanup_record, persist_error}
use privana.Sweep.Engine.{sweep_native, sweep_erc20}
use privana.Deposit.Verifier.{VerifiedDeposit, Claim, Answers, verify_deposit}

pub data Status : Type 0 where
  credited pending error : Status

-- `_deposit_response`
pub record Response : Type 0 where
  pub status : Status
  pub deposit_id : Text
  pub amount : ℕ
  pub token_address : Option Text
  pub detail : Option Text

-- The arguments of `_background_sweep`.
pub record Task : Type 0 where
  pub args : SweepArgs
  pub token_address : Option Text
  pub is_native : Bool

-- The arguments of `process_deposit`, with the fields of `auth`.
pub record Request : Type 0 where
  pub chain_type : Text
  pub chain_id : ℕ
  pub tx_hash : Text
  pub amount : ℕ
  pub log_index : ℕ
  pub version : ℕ
  pub user_address : Text
  pub token : Bytes

pub record Services : Type 0 where
  pub get_deposit_address : ℕ → Text → ℕ → Bytes → Outcome Text
  pub answers : ℕ → Claim → Answers
  pub get_token_id : ℕ → ℕ → Option Text → Outcome Bytes
  pub is_token_registered : ℕ → Bytes → Outcome Bool
  -- `compute_deposit_id`
  pub deposit_id : ℕ → Text → Bytes → ℕ → Outcome Bytes

unfoldable pub contains : Text → List Text → Bool
unfolding text_eq
contains t [] = false
contains t (x ∷ xs) = let rest = contains t xs in if text_eq x t then true else rest

unfoldable pub has_config : List ChainConfig → ℕ → Bool
unfolding find_config
has_config configs k = elim (find_config k configs) [ none ↦ false | some _ ↦ true ]

-- `MIN_DEPOSIT_NATIVE_WEI.get(chain_id, 0)` or its ERC20 counterpart
unfoldable pub min_deposit : List ChainConfig → ℕ → Bool → ℕ
unfolding find_config
min_deposit configs k is_native = elim (find_config k configs) [
  | none ↦ 0
  | some c ↦ if is_native then c.min_deposit_native_wei else c.min_deposit_erc20_wei
]

abbrev pub claim_of : Request → Text → Claim
claim_of q address = record {
  chain_id = q.chain_id;
  tx_hash = q.tx_hash;
  deposit_address = address;
  expected_amount = q.amount;
  log_index = q.log_index;
}

abbrev pub response : Status → Bytes → VerifiedDeposit → Response
response status id v = record {
  status = status;
  deposit_id = to_hex id;
  amount = v.amount;
  token_address = v.token_address;
  detail = none;
}

abbrev pub task_of : Request → Text → Bytes → Bytes → VerifiedDeposit → Task
task_of q address token_id id v = record {
  args = record {
    deposit_address = address;
    beneficiary = q.user_address;
    chain_type = q.chain_type;
    version = q.version;
    chain_id = q.chain_id;
    token_id = token_id;
    amount = v.amount;
    deposit_id = id;
  };
  token_address = v.token_address;
  is_native = v.is_native;
}

-- What becomes of a claim whose deposit has a record: `none` where a sweep is to be started.
abbrev pub on_existing : Bytes → Option SweepRecord → M Engine Bool
on_existing id none = pure true
on_existing id (some r) =
    if is_set r.error
    then (if is_set r.sweep_tx_hash then pure false else (cleanup_record (to_hex id) >> pure true))
    else pure false

module _ (env : Env) (services : Services) (configs : List ChainConfig) where
  -- The checks of `process_deposit` before the deposit id is computed.
  unfoldable pub check_claim : Request → Text → M Engine (VerifiedDeposit × Bytes)
  unfolding await verify_deposit min_deposit
  check_claim q address = do
    verified ←
        await env (λ t.
          verify_deposit configs (claim_of q address) (services.answers t (claim_of q address)))
    raise_if
        (ltb 0 (min_deposit configs q.chain_id verified.is_native)
          && ltb verified.amount (min_deposit configs q.chain_id verified.is_native))
        (value_error (codes "Deposit does not meet minimum requirements"))
    token_id ← await env (λ t. services.get_token_id t q.chain_id verified.token_address)
    registered ← await env (λ t. services.is_token_registered t token_id)
    raise_if (not registered) (value_error (codes "Token not supported"))
    pure (verified, token_id)

  -- `process_deposit` from the deposit id on.
  unfoldable pub start_sweep :
      Request → Text → VerifiedDeposit → Bytes → Bytes → M Engine (Response × Option Task)
  unfolding await get_record cleanup_record
  start_sweep q address verified token_id id = do
    done ← await env (λ t. env.is_deposit_processed t id)
    if done then pure (response credited id verified, none) else do
      existing ← get_record (to_hex id)
      go ← on_existing id existing
      pure (
          if go
          then (response pending id verified, some (task_of q address token_id id verified))
          else (response pending id verified, none))

  unfoldable pub process_deposit : Request → M Engine (Response × Option Task)
  unfolding await contains has_config check_claim start_sweep
  process_deposit q = do
    raise_if (not (has_config configs q.chain_id)) (value_error (codes "Unsupported chain_id"))
    is_gas ← gets (λ s. contains (lower q.tx_hash) s.gas_funding_tx_hashes)
    raise_if is_gas
        (value_error (codes "Transaction is a gas funding tx and cannot be claimed as a deposit"))
    address ← await env (λ t. services.get_deposit_address t q.chain_type q.version q.token)
    checked ← check_claim q address
    id ← lift (services.deposit_id q.chain_id q.tx_hash checked.1 checked.0.deposit_index)
    start_sweep q address checked.0 checked.1 id

  -- A deposit that is not native has a token address: `VerifiedDeposit` sees to it.
  abbrev pub sweep_of : Task → Option Text → M Engine (Unit {0})
  sweep_of t none =
      if t.is_native
      then sweep_native env configs t.args
      else throw (other_error (codes "token_address is None"))
  sweep_of t (some token) =
      if t.is_native then sweep_native env configs t.args else sweep_erc20 env configs t.args token

  -- The `except` clauses of `_background_sweep`.
  abbrev pub sweep_failed : Text → Exn → M Engine (Unit {0})
  sweep_failed id (credit_pending d) = pure tt
  sweep_failed id e = if is_exception e then persist_error id (exn_text e) else throw e

  -- `_background_sweep`
  unfoldable pub background_sweep : Task → M Engine (Unit {0})
  unfolding sweep_native sweep_erc20 persist_error exn_text
  background_sweep t =
      try_except (sweep_of t t.token_address) (sweep_failed (to_hex t.args.deposit_id))

abbrev pub record_response : Text → Status → SweepRecord → Option Text → Response
record_response id status r detail = record {
  status = status;
  deposit_id = id;
  amount = r.amount;
  token_address = r.token_address;
  detail = detail;
}

-- `get_deposit_status`, from the record that is read
abbrev pub status_of : Text → Text → Option SweepRecord → Option Response
status_of id beneficiary none = none
status_of id beneficiary (some r) =
    if not (text_eq (lower r.beneficiary) (lower beneficiary))
    then none
    else if is_set r.error
    then (if is_set r.sweep_tx_hash
        then some (record_response id pending r none)
        else some (record_response id error r r.error))
    else some (record_response id pending r none)

unfoldable pub get_deposit_status : Text → Text → M Engine (Option Response)
unfolding get_record is_set
get_deposit_status id beneficiary = do r ← get_record id; pure (status_of id beneficiary r)
