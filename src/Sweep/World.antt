-- ===== src/Sweep/World.antt =====
-- What the sweep engine keeps, and what it asks of the chains, of the Accounting contract
-- (`DepositAccountingProtocol`) and of the other tasks of the event loop. The answers are
-- functions of a tick that every `await` advances, so a run meets any sequence of answers,
-- exceptions and cancellations among them.
use privana.Prelude.{ℕ, suc, Bool, Option, List, [], ◌∷◌, ◌++◌, if◌then◌else◌}
use privana.Text.{Text, codes}
use privana.Text.Hex.{Bytes}
use privana.Dict.{Dict}
use privana.Effect.{Outcome, ok, raise, M, value_error}
use privana.Sweep.Record.Json.{Json}

-- What the outside has answered, newest first: the history that the theorems speak of.
pub data Event : Type 0 where
  -- beneficiary, chain, token, amount: the sweep that these bytes are signed for
  signed : Text → ℕ → Option Text → ℕ → Bytes → Event
  -- chain, bytes, hash: the node took the transaction
  sent : ℕ → Bytes → Text → Event
  -- chain, hash, status: a receipt
  mined : ℕ → Text → ℕ → Event
  -- beneficiary, token id, amount, deposit id: a credit is asked for, and is done
  credit_asked credit_done : Text → Bytes → ℕ → Bytes → Event
  -- deposit id: the contract has processed the deposit before
  processed : Bytes → Event

-- A file of the state directory: a JSON object, or what `json.loads` does not read as one.
pub data File : Type 0 where
  object : Dict Json → File
  corrupt : File

pub record Engine : Type 0 where
  pub files : Dict File
  pub gas_funding_tx_hashes : List Text
  pub tick : ℕ
  pub log : List Event

pub record Env : Type 0 where
  -- `require_verified_web3` finds a client for the chain
  pub served : ℕ → ℕ → Bool
  pub acquire : ℕ → Outcome (Unit {0})
  pub now : ℕ → ℕ
  pub sleep : ℕ → Outcome (Unit {0})
  pub get_balance : ℕ → ℕ → Text → Outcome ℕ
  pub erc20_balance : ℕ → ℕ → Text → Text → Outcome ℕ
  pub base_fee : ℕ → ℕ → Outcome (Option ℕ)
  pub gas_price : ℕ → ℕ → Outcome ℕ
  pub l1_data_fee : ℕ → ℕ → Bool → Outcome ℕ
  -- chain, address, "pending" or "latest"
  pub transaction_count : ℕ → ℕ → Text → Bool → Outcome ℕ
  pub gas_tank_address : ℕ → Outcome Text
  -- deposit address, chain, gas amount, gas tank nonce, gas price
  pub generate_gas_funding_tx : ℕ → Text → ℕ → ℕ → ℕ → ℕ → Outcome Bytes
  -- beneficiary, chain type, version, chain, token, amount, nonce, gas price
  pub generate_sweep : ℕ → Text → Text → ℕ → ℕ → Option Text → ℕ → ℕ → ℕ → Outcome Bytes
  pub send_raw_transaction : ℕ → ℕ → Bytes → Outcome Bytes
  -- the status of the receipt, if there is one
  pub transaction_receipt : ℕ → ℕ → Text → Outcome (Option ℕ)
  pub is_deposit_processed : ℕ → Bytes → Outcome Bool
  pub credit_deposit : ℕ → Text → Bytes → ℕ → Bytes → Outcome (Unit {0})
  -- what the other tasks do to the engine while this one waits
  pub others : ℕ → Engine → Engine

unfoldable pub note : Event → M Engine (Unit {0})
note e s = (ok tt, record s { log = e ∷ s.log })

module _ (env : Env) where
  abbrev pub answered : {A : Type 0} → Outcome A → (A → List Event) → List Event
  answered (ok a) f = f a
  answered (raise e) f = []

  -- One `await`: the answer is entered in the history, and then the other tasks run.
  unfoldable pub call : {A : Type 0} → (ℕ → Outcome A) → (A → List Event) → M Engine A
  call answer events s =
      let r = answer s.tick in
      (r, env.others s.tick (record s { tick = suc s.tick; log = answered r events ++ s.log }))

  -- An `await` whose answer the history does not keep.
  unfoldable pub await : {A : Type 0} → (ℕ → Outcome A) → M Engine A
  unfolding call
  await answer = call answer (λ _. [])

  -- `_get_web3` and `_recheck_served`
  unfoldable pub get_web3 : ℕ → M Engine (Unit {0})
  get_web3 chain s =
      if env.served s.tick chain
      then (ok tt, s)
      else (raise (value_error (codes "No verified RPC endpoint for chain")), s)
