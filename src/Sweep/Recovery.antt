-- ===== src/Sweep/Recovery.antt =====
-- src/services/sweep_engine.py: what a restart and the periodic loop do with the records on disk.
use privana.Prelude.{ℕ, ◌+◌, not, ◌&&◌, Option, none, some, List, [], ◌∷◌, ◌==◌, if◌then◌else◌}
use privana.Text.{Text, codes, remove_prefix}
use privana.Text.Hex.{Bytes, from_hex}
use privana.Config.{ChainConfig}
use privana.Effect.{
  Exn, Outcome, ok, raise, M, pure, throw, lift, ◌>>=◌, ◌>>◌, try_except, is_exception, exn_text,
  value_error, other_error, credit_pending,
}
use privana.Sweep.Record.{SweepRecord, SweepArgs, swept, is_swept, is_set}
use privana.Sweep.World.{Engine, Env, call, get_web3}
use privana.Sweep.Store.{save_record, delete_record, persist_error}
use privana.Sweep.Receipt.{receipt_events}
use privana.Sweep.Engine.{idempotent_credit, sweep_native, sweep_erc20}
use privana.Sweep.Load.{load_incomplete_sweeps}

-- `bytes.fromhex(text.removeprefix("0x"))`
unfoldable pub decode_id : Text → Outcome Bytes
unfolding from_hex remove_prefix
decode_id t = elim (from_hex (remove_prefix (codes "0x") t)) [
  | none ↦ raise (value_error (codes "non-hexadecimal number found in fromhex() arg"))
  | some bs ↦ ok bs
]

-- The look at the receipt in `_reconcile_sweep_tx`: `none` where its `except` clauses return.
abbrev pub lookup_failed : Exn → M Engine (Option (Option ℕ))
lookup_failed e = if is_exception e then pure none else throw e

abbrev pub args_of : SweepRecord → Bytes → Bytes → SweepArgs
args_of r token_id deposit_id = record {
  deposit_address = r.deposit_address;
  beneficiary = r.beneficiary;
  chain_type = r.chain_type;
  version = r.version;
  chain_id = r.chain_id;
  token_id = token_id;
  amount = r.amount;
  deposit_id = deposit_id;
}

-- `_persist_resume_error`: the record is read again from disk.
unfoldable pub persist_resume_error : SweepRecord → Exn → M Engine (Unit {0})
unfolding persist_error exn_text
persist_resume_error r e = persist_error r.deposit_id_hex (exn_text e)

module _ (env : Env) where
  unfoldable pub reconcile_receipt : SweepRecord → Text → M Engine (Option (Option ℕ))
  unfolding get_web3 call
  reconcile_receipt r hash =
      try_except
        (get_web3 env r.chain_id
          >> (call env (λ t. env.transaction_receipt t r.chain_id hash)
                (receipt_events r.chain_id hash)
              >>= λ receipt. get_web3 env r.chain_id >> pure (some receipt)))
        lookup_failed

  -- What is made of the receipt's status; a receipt of `None` has no status.
  abbrev pub reconcile_status : SweepRecord → Option (Option ℕ) → M Engine SweepRecord
  reconcile_status r none = pure r
  reconcile_status r (some none) =
      throw (other_error (codes "'NoneType' object is not subscriptable"))
  reconcile_status r (some (some status)) =
      if status == 1
      then (let done = record r { state = swept } in save_record done >> pure done)
      else pure r

  abbrev pub reconcile_hash : SweepRecord → Option Text → M Engine SweepRecord
  reconcile_hash r none = pure r
  reconcile_hash r (some hash) =
      if is_set (some hash) then reconcile_receipt r hash >>= reconcile_status r else pure r

  -- `_reconcile_sweep_tx`, which returns the record that the code changes in place
  unfoldable pub reconcile_sweep_tx : SweepRecord → M Engine SweepRecord
  unfolding reconcile_receipt save_record
  reconcile_sweep_tx r = if is_swept r.state then pure r else reconcile_hash r r.sweep_tx_hash

  unfoldable pub reconcile_all : List SweepRecord → M Engine (List SweepRecord)
  unfolding reconcile_sweep_tx
  reconcile_all [] = pure []
  reconcile_all (r ∷ rs) = do r' ← reconcile_sweep_tx r; rs' ← reconcile_all rs; pure (r' ∷ rs')

-- How a record fares in a pass: credited or resumed, or failed.
abbrev pub Tally : Type 0
Tally = ℕ × ℕ

abbrev pub succeeded : Tally
succeeded = (1, 0)

abbrev pub failed : Tally
failed = (0, 1)

-- The `except` clauses that follow the work on one record.
abbrev pub resume_failed : SweepRecord → Exn → M Engine Tally
resume_failed r (credit_pending id) = pure succeeded
resume_failed r e = if is_exception e then persist_resume_error r e >> pure failed else throw e

module _ (env : Env) (configs : List ChainConfig) where
  abbrev pub resume_by_token : SweepRecord → Option Text → Bytes → Bytes → M Engine (Unit {0})
  resume_by_token r none token_id id = sweep_native env configs (args_of r token_id id)
  resume_by_token r (some token) token_id id = sweep_erc20 env configs (args_of r token_id id) token

  -- `_resume_sweep_from_pending`
  unfoldable pub resume_sweep_from_pending : SweepRecord → M Engine (Unit {0})
  unfolding sweep_native sweep_erc20 decode_id
  resume_sweep_from_pending r = do
    token_id ← lift (decode_id r.token_id_hex)
    id ← lift (decode_id r.deposit_id_hex)
    resume_by_token r r.token_address token_id id

  -- The credit of a record that is SWEPT, and the end of the record.
  unfoldable pub retry_credit : SweepRecord → M Engine (Unit {0})
  unfolding idempotent_credit delete_record decode_id
  retry_credit r = do
    token_id ← lift (decode_id r.token_id_hex)
    id ← lift (decode_id r.deposit_id_hex)
    idempotent_credit env configs r.beneficiary token_id r.amount id
    delete_record r.deposit_id_hex

  -- The body of the second loop of `resume_incomplete_sweeps`.
  unfoldable pub resume_record : SweepRecord → M Engine Tally
  unfolding retry_credit resume_sweep_from_pending persist_resume_error
  resume_record r =
      try_except
        (if is_swept r.state
          then (retry_credit r >> pure succeeded)
          else if not (is_set r.sweep_tx_hash)
          then (resume_sweep_from_pending r >> pure succeeded)
          else pure failed)
        (resume_failed r)

  unfoldable pub resume_all : List SweepRecord → M Engine Tally
  unfolding resume_record
  resume_all [] = pure (0, 0)
  resume_all (r ∷ rs) = do a ← resume_record r; b ← resume_all rs; pure (a.0 + b.0, a.1 + b.1)

  -- `resume_incomplete_sweeps`
  unfoldable pub resume_incomplete_sweeps : M Engine Tally
  unfolding resume_all reconcile_all load_incomplete_sweeps
  resume_incomplete_sweeps = do
    loaded ← load_incomplete_sweeps
    records ← reconcile_all env loaded
    resume_all records

  -- A turn of the loop over `resumable` of the recovery loop, for any record.
  unfoldable pub resume_turn : SweepRecord → M Engine (Unit {0})
  unfolding resume_sweep_from_pending persist_resume_error
  resume_turn r =
      if not (is_swept r.state) && not (is_set r.sweep_tx_hash)
      then (try_except (resume_sweep_from_pending r >> pure succeeded) (resume_failed r) >>= λ _.
          pure tt)
      else pure tt

  unfoldable pub resume_resumable : List SweepRecord → M Engine (Unit {0})
  unfolding resume_turn
  resume_resumable [] = pure tt
  resume_resumable (r ∷ rs) = resume_turn r >> resume_resumable rs

  abbrev pub retry_failed : Exn → M Engine (Unit {0})
  retry_failed e = if is_exception e then pure tt else throw e

  -- A turn of the loop over `swept` of the recovery loop, for any record.
  unfoldable pub retry_turn : SweepRecord → M Engine (Unit {0})
  unfolding retry_credit
  retry_turn r = if is_swept r.state then try_except (retry_credit r) retry_failed else pure tt

  unfoldable pub retry_swept : List SweepRecord → M Engine (Unit {0})
  unfolding retry_turn
  retry_swept [] = pure tt
  retry_swept (r ∷ rs) = retry_turn r >> retry_swept rs

  -- One pass of `_run_recovery_loop`.
  unfoldable pub recovery_pass : M Engine (Unit {0})
  unfolding resume_resumable retry_swept reconcile_all load_incomplete_sweeps
  recovery_pass = do
    loaded ← load_incomplete_sweeps
    records ← reconcile_all env loaded
    resume_resumable records
    retry_swept records
