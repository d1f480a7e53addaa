-- ===== src/Sweep/Engine.antt =====
-- src/services/sweep_engine.py: `sweep_native` and `sweep_erc20`, stage by stage. The stages that the
-- two methods spell out alike are shared; what differs is an argument. The per-address lock and
-- the gas tank lock are `await`s that may be cancelled; what they exclude is a property of the
-- other tasks.
use privana.Prelude.{
  ℕ, Bool, true, false, not, Option, none, some, List, [], ◌∷◌, ltb, ◌==◌, if◌then◌else◌,
}
use privana.Text.{Text, codes, text_eq, lower}
use privana.Text.Hex.{Bytes, to_hex}
use privana.Config.{ChainConfig, sweep_gas_limit_native, sweep_gas_limit_erc20}
use privana.Effect.{
  Exn, M, pure, throw, gets, lift, modify, ◌>>=◌, ◌>>◌, try_except, raise_if, is_exception,
  value_error, reverted, credit_pending,
}
use privana.Sweep.Record.{SweepRecord, SweepArgs, gas_funded, swept, initial_record, post_init}
use privana.Sweep.World.{
  Engine, Env, Event, signed, sent, credit_asked, credit_done, processed, call, await, note,
  get_web3,
}
use privana.Sweep.Store.{save_record, delete_record}
use privana.Sweep.Gas.{gas_funding_cap, gas_amount, get_safe_gas_price}
use privana.Sweep.Receipt.{wait_for_receipt}

abbrev pub processed_events : Bytes → Bool → List Event
processed_events id true = processed id ∷ []
processed_events id false = []

abbrev pub add_gas_hash : Text → Engine → Engine
add_gas_hash h s = record s { gas_funding_tx_hashes = h ∷ s.gas_funding_tx_hashes }

-- The `except` clause of `_idempotent_credit`.
abbrev pub accept_processed : Bytes → Exn → M Engine (Unit {0})
accept_processed id (reverted name m) =
    if text_eq name (codes "DepositAlreadyProcessed")
    then note (processed id)
    else throw (reverted name m)
accept_processed id e = throw e

-- The `except Exception` clause of the credit step.
abbrev pub credit_failed : Text → Exn → M Engine (Unit {0})
credit_failed id e = if is_exception e then throw (credit_pending id) else throw e

module _ (env : Env) (configs : List ChainConfig) where
  -- `_idempotent_credit`
  unfoldable pub idempotent_credit : Text → Bytes → ℕ → Bytes → M Engine (Unit {0})
  unfolding note
  idempotent_credit beneficiary token_id amount id =
      try_except
        (note (credit_asked beneficiary token_id amount id)
          >> call env (λ t. env.credit_deposit t beneficiary token_id amount id)
              (λ _. credit_done beneficiary token_id amount id ∷ []))
        (accept_processed id)

  -- The tests on the balance: `false` when the deposit has been processed and nothing is left.
  unfoldable pub check_balance : SweepArgs → ℕ → M Engine Bool
  check_balance a balance =
      if balance == 0
      then (call env (λ t. env.is_deposit_processed t a.deposit_id) (processed_events a.deposit_id)
          >>= λ done.
              if done
              then pure false
              else throw (value_error (codes "balance is 0 but deposit_id is not yet processed")))
      else if ltb balance a.amount
      then throw (value_error (codes "balance is less than the verified amount"))
      else pure true

  -- The record in state PENDING.
  unfoldable pub open_record : SweepArgs → Option Text → M Engine SweepRecord
  unfolding save_record initial_record post_init
  open_record a token = do
    now ← gets (λ s. env.now s.tick)
    r ← lift (post_init (initial_record a token now))
    save_record r
    pure r

  -- Step 1: gas from the tank, and the record in state GAS_FUNDED.
  unfoldable pub fund_gas : SweepArgs → ℕ → ℕ → Bool → SweepRecord → M Engine SweepRecord
  unfolding get_web3 save_record wait_for_receipt
  fund_gas a gas_price gas_limit is_erc20 r = do
    l1_data_fee ← await env (λ t. env.l1_data_fee t a.chain_id is_erc20)
    cap ← lift (gas_funding_cap configs a.chain_id)
    let amount = gas_amount gas_limit gas_price l1_data_fee cap
    await env env.acquire
    tank ← await env env.gas_tank_address
    nonce ← await env (λ t. env.transaction_count t a.chain_id tank true)
    tx ←
        await env
          (λ t. env.generate_gas_funding_tx t a.deposit_address a.chain_id amount nonce gas_price)
    get_web3 env a.chain_id
    hash ← await env (λ t. env.send_raw_transaction t a.chain_id tx)
    modify (add_gas_hash (lower (to_hex hash)))
    let funded = record r { gas_funding_tx_hash = some (to_hex hash); state = gas_funded }
    save_record funded
    status ← wait_for_receipt env a.chain_id (to_hex hash)
    raise_if (not (status == 1)) (value_error (codes "Gas funding tx reverted"))
    pure funded

  -- Step 2, to the broadcast: the signed sweep goes out and its hash is saved.
  unfoldable pub send_sweep : SweepArgs → Option Text → SweepRecord → M Engine (SweepRecord × Text)
  unfolding get_safe_gas_price get_web3 save_record
  send_sweep a token r = do
    gas_price ← get_safe_gas_price env configs a.chain_id
    nonce ← await env (λ t. env.transaction_count t a.chain_id a.deposit_address false)
    tx ←
        call env
          (λ t.
            env.generate_sweep t a.beneficiary a.chain_type a.version a.chain_id token a.amount
              nonce gas_price)
          (λ tx. signed a.beneficiary a.chain_id token a.amount tx ∷ [])
    get_web3 env a.chain_id
    hash ←
        call env (λ t. env.send_raw_transaction t a.chain_id tx)
          (λ hash. sent a.chain_id tx (to_hex hash) ∷ [])
    let out = record r { sweep_tx_hash = some (to_hex hash) }
    save_record out
    pure (out, to_hex hash)

  -- Step 2, from the broadcast: the receipt, and the record in state SWEPT.
  unfoldable pub confirm_sweep : SweepArgs → Text → SweepRecord → M Engine SweepRecord
  unfolding get_web3 save_record wait_for_receipt
  confirm_sweep a hash r = do
    status ← wait_for_receipt env a.chain_id hash
    raise_if (not (status == 1)) (value_error (codes "Sweep tx reverted"))
    get_web3 env a.chain_id
    let done = record r { state = swept }
    save_record done
    pure done

  -- Step 3: the credit, and the end of the record.
  unfoldable pub credit_and_close : SweepArgs → SweepRecord → M Engine (Unit {0})
  unfolding idempotent_credit delete_record
  credit_and_close a r = do
    try_except (idempotent_credit a.beneficiary a.token_id a.amount a.deposit_id)
        (credit_failed r.deposit_id_hex)
    delete_record r.deposit_id_hex

  -- `sweep_native`
  unfoldable pub sweep_native : SweepArgs → M Engine (Unit {0})
  unfolding check_balance open_record fund_gas send_sweep confirm_sweep credit_and_close get_web3
      get_safe_gas_price
  sweep_native a = do
    await env env.acquire
    get_web3 env a.chain_id
    balance ← await env (λ t. env.get_balance t a.chain_id a.deposit_address)
    go ← check_balance a balance
    if go
        then (do
          gas_price ← get_safe_gas_price env configs a.chain_id
          opened ← open_record a none
          funded ← fund_gas a gas_price sweep_gas_limit_native false opened
          out ← send_sweep a none funded
          done ← confirm_sweep a out.1 out.0
          credit_and_close a done)
        else pure tt

  -- `sweep_erc20`
  unfoldable pub sweep_erc20 : SweepArgs → Text → M Engine (Unit {0})
  unfolding check_balance open_record fund_gas send_sweep confirm_sweep credit_and_close get_web3
      get_safe_gas_price
  sweep_erc20 a token = do
    await env env.acquire
    get_web3 env a.chain_id
    balance ← await env (λ t. env.erc20_balance t a.chain_id token a.deposit_address)
    go ← check_balance a balance
    if go
        then (do
          gas_price ← get_safe_gas_price env configs a.chain_id
          opened ← open_record a (some token)
          funded ← fund_gas a gas_price sweep_gas_limit_erc20 true opened
          out ← send_sweep a (some token) funded
          done ← confirm_sweep a out.1 out.0
          credit_and_close a done)
        else pure tt
