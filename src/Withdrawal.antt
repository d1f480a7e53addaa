-- ===== src/Withdrawal.antt =====
-- src/services/withdrawal_processor.py: the payment of one withdrawal, `_resolve_and_broadcast`, with the
-- search for an earlier broadcast; the nonce gate and the polls are in the files below. The nodes and the contract answer as functions of a tick that
-- each call advances. Maps are functions, and chain id 0 stands for an absent one, which the code
-- treats alike. The pause of a rate-limited call before its first attempt is left out.
pub mod Search
pub mod Payment
pub mod Gate
pub mod Poll
pub mod Keeps
pub mod Readiness
pub mod Divergence
pub mod Pending
mod Tests
use privana.Prelude.{
  ℕ, zero, suc, max, Bool, true, false, not, Option, none, some, List, [], ◌∷◌, ◌&&◌, ◌==◌,
  if◌then◌else◌,
}
use privana.Text.{Text, codes, text_eq}
use privana.Text.Hex.{Bytes, to_hex}
use privana.Effect.{
  Exn, Outcome, ok, raise, M, pure, throw, gets, modify, ◌>>=◌, ◌>>◌, try_except, raise_if,
  is_exception, value_error, not_found,
}

pub record Processor : Type 0 where
  pub chain_high_water_mark : ℕ → Option ℕ
  pub last_broadcast_hash : ℕ → ℕ → Option Text
  pub evm_address : Option Text
  pub nonce_divergence_reported : ℕ → Bool
  pub stuck_nonce_cycles : ℕ → Option ℕ
  pub tick : ℕ

pub record Chains : Type 0 where
  -- `require_verified_web3` finds a client for the chain
  pub served : ℕ → ℕ → Bool
  pub sleep : ℕ → Outcome (Unit {0})
  -- `withdrawals(index)`, its flag `resolved`
  pub is_resolved : ℕ → ℕ → Outcome Bool
  pub resolve_withdrawal : ℕ → ℕ → Outcome (Unit {0})
  -- `resolveWithdrawal(index)` as a call: the signed transaction
  pub signed_tx : ℕ → ℕ → Outcome Bytes
  pub send_raw_transaction : ℕ → ℕ → Bytes → Outcome Bytes
  -- the status of the receipt
  pub transaction_receipt : ℕ → ℕ → Text → Outcome ℕ
  pub transaction : ℕ → ℕ → Text → Outcome (Unit {0})
  pub keccak : Bytes → Bytes
  -- `settings.withdrawal_resolution_timeout`
  pub resolution_timeout : ℕ

-- `self._chain_high_water_mark.get(chain_id, -1)`, then the maximum with the index
abbrev pub raised_mark : Option ℕ → ℕ → ℕ
raised_mark none index = index
raised_mark (some mark) index = max mark index

abbrev pub set_mark : ℕ → ℕ → Processor → Processor
set_mark chain index s = record s {
  chain_high_water_mark = λ k.
      if k == chain
      then some (raised_mark (s.chain_high_water_mark chain) index)
      else s.chain_high_water_mark k;
}

abbrev pub set_hash : ℕ → ℕ → Text → Processor → Processor
set_hash chain index hash s = record s {
  last_broadcast_hash =
      λ k i. if k == chain && i == index then some hash else s.last_broadcast_hash k i;
}

-- `TransactionNotFound` read as `None`
abbrev pub or_absent : {A : Type 0} → Outcome A → Outcome (Option A)
or_absent (ok a) = ok (some a)
or_absent (raise (not_found m)) = ok none
or_absent (raise e) = raise e

-- The hashes that can prove a payment, the one that was sent first.
abbrev pub candidates : Option Text → Text → List Text
candidates none expected = expected ∷ []
candidates (some remembered) expected =
    if text_eq expected remembered then remembered ∷ [] else remembered ∷ expected ∷ []

-- An `except Exception` that answers with a value.
abbrev pub otherwise : {A : Type 0} → A → Exn → M Processor A
otherwise a e = if is_exception e then pure a else throw e

module _ (env : Chains) where
  unfoldable pub ask : {A : Type 0} → (ℕ → Outcome A) → M Processor A
  ask answer s = (answer s.tick, record s { tick = suc s.tick })

  -- What follows an attempt that raises: a sleep and the attempts that are left, if any.
  abbrev pub retry : {A : Type 0} → ℕ → M Processor A → Exn → M Processor A
  retry zero rest e = throw e
  retry (suc n) rest e = if is_exception e then (ask env.sleep >> rest) else throw e

  -- `_rate_limited_call`, with this many attempts after the first
  unfoldable pub attempts : {A : Type 0} → ℕ → (ℕ → Outcome A) → M Processor A
  unfolding ask
  attempts zero answer = ask answer
  attempts (suc n) answer =
      let rest = attempts n answer in try_except (ask answer) (retry (suc n) rest)

  abbrev pub limited : {A : Type 0} → (ℕ → Outcome A) → M Processor A
  limited = attempts 4

  -- `_get_destination_web3`
  unfoldable pub destination : ℕ → M Processor (Unit {0})
  destination chain = do
    served ← gets (λ s. env.served s.tick chain)
    if served then pure tt else throw (value_error (codes "No verified RPC endpoint for chain"))

  -- `_fetch_receipt`
  unfoldable pub fetch_receipt : ℕ → Text → M Processor (Option ℕ)
  unfolding attempts destination
  fetch_receipt chain hash = do
    destination chain
    try_except (limited (λ t. or_absent (env.transaction_receipt t chain hash))) (otherwise none)

  -- A mined candidate settles the search: with its hash if its status is 1, with nothing otherwise.
  abbrev pub settled :
      Text → M Processor (Option (Option Text)) → Option ℕ → M Processor (Option (Option Text))
  settled hash rest none = rest
  settled hash rest (some status) =
      if status == 1 then pure (some (some hash)) else pure (some none)

  unfoldable pub search : ℕ → List Text → M Processor (Option (Option Text))
  unfolding fetch_receipt
  search chain [] = pure none
  search chain (hash ∷ hashes) =
      let rest = search chain hashes in fetch_receipt chain hash >>= settled hash rest

  -- The look at the mempool, which only reports.
  unfoldable pub report_pending : ℕ → Text → M Processor (Unit {0})
  unfolding attempts destination
  report_pending chain hash = do
    destination chain
    try_except (limited (λ t. or_absent (env.transaction t chain hash)) >>= λ _. pure tt)
        (otherwise tt)

  abbrev pub unsettled : ℕ → Text → Option (Option Text) → M Processor (Option Text)
  unsettled chain expected (some found) = pure found
  unsettled chain expected none = report_pending chain expected >> pure none

  -- `_find_broadcast_tx`
  unfoldable pub find_broadcast_tx : ℕ → ℕ → Bytes → M Processor (Option Text)
  unfolding search report_pending to_hex
  find_broadcast_tx chain index signed = do
    remembered ← gets (λ s. s.last_broadcast_hash chain index)
    found ← search chain (candidates remembered (to_hex (env.keccak signed)))
    unsettled chain (to_hex (env.keccak signed)) found

  -- The poll until the withdrawal is resolved.
  unfoldable pub wait_resolved : ℕ → ℕ → M Processor Bool
  unfolding attempts ask
  wait_resolved zero index = pure false
  wait_resolved (suc n) index =
      let rest = wait_resolved n index in
      ask env.sleep
      >> (limited (λ t. env.is_resolved t index) >>= λ done. if done then pure true else rest)

  -- Steps 1 and 2.
  unfoldable pub ensure_resolved : ℕ → M Processor Bool
  unfolding attempts wait_resolved
  ensure_resolved index = do
    resolved ← limited (λ t. env.is_resolved t index)
    if resolved
        then pure true
        else (limited (λ t. env.resolve_withdrawal t index)
            >> wait_resolved env.resolution_timeout index)

  abbrev pub is_proven : Option Text → M Processor Bool
  is_proven none = pure false
  is_proven (some hash) = pure true

  -- Step 4: has the payment gone out?
  unfoldable pub broadcast : ℕ → ℕ → Bytes → M Processor Bool
  unfolding attempts find_broadcast_tx
  broadcast chain index signed =
      try_except
        (limited (λ t. env.send_raw_transaction t chain signed) >>= λ hash.
          modify (set_hash chain index (to_hex hash)) >> pure true)
        (λ e.
          if is_exception e then (find_broadcast_tx chain index signed >>= is_proven) else throw e)

  -- Steps 3 and 4, and the mark.
  unfoldable pub pay : ℕ → ℕ → M Processor Bool
  unfolding attempts broadcast
  pay chain index = do
    signed ← limited (λ t. env.signed_tx t index)
    paid ← broadcast chain index signed
    if paid then (modify (set_mark chain index) >> pure true) else pure false

  -- `_resolve_and_broadcast`
  unfoldable pub resolve_and_broadcast : ℕ → ℕ → M Processor Bool
  unfolding ensure_resolved pay
  resolve_and_broadcast chain index =
      if chain == 0
      then pure true
      else try_except
          (ensure_resolved index >>= λ resolved. if resolved then pay chain index else pure false)
          (otherwise false)
