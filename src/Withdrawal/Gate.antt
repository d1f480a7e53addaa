-- ===== src/Withdrawal/Gate.antt =====
-- src/services/withdrawal_processor.py: the nonce gate, `_chain_nonce_state`, and the alarm for a nonce that
-- stays unmined. Log messages are left out.
use privana.Prelude.{
  ℕ, suc, Bool, true, false, Option, none, some, List, ◌&&◌, ◌==◌, ltb, leb, if◌then◌else◌,
}
use privana.Text.{Text, codes}
use privana.Text.Hex.{Bytes}
use privana.Effect.{Outcome, M, pure, throw, gets, modify, ◌>>=◌, ◌>>◌, value_error}
use privana.Withdrawal.{Processor, Chains, limited, destination, attempts}

-- `withdrawals(index)`: resolved, the transaction identifier and the token id.
pub record Withdrawn : Type 0 where
  pub resolved : Bool
  pub tx_identifier : Bytes
  pub token_id : Bytes

-- An entry of `get_all_pending_withdrawals`; no chain id counts as 0.
pub record PendingEntry : Type 0 where
  pub index : ℕ
  pub chain_id : ℕ
  pub block_number : ℕ

-- What the polls ask beyond the payments.
pub record Feeds : Type 0 where
  -- `require_verified_sapphire` raises nothing
  pub sapphire_served : ℕ → Bool
  pub evm_address : ℕ → Outcome Text
  pub nonces : ℕ → ℕ → Outcome ℕ
  -- chain, address, "pending" or "latest"
  pub transaction_count : ℕ → ℕ → Text → Bool → Outcome ℕ
  pub withdrawal_count : ℕ → Outcome ℕ
  pub withdrawals : ℕ → ℕ → Outcome Withdrawn
  -- `_get_token_context`, its chain id
  pub token_chain : ℕ → Bytes → Outcome ℕ
  -- `decode(["uint64"], tx_identifier)[0]`
  pub decode_nonce : Bytes → Outcome ℕ
  -- the entries and the current block
  pub pending_withdrawals : ℕ → Outcome (List PendingEntry × ℕ)
  -- the keys of `settings.chain_rpc_urls`, and `_is_running`
  pub configured_chains : ℕ → List ℕ
  pub is_running : ℕ → Bool

-- `_nonce_divergence_reported.discard` and `.add`
abbrev pub set_reported : ℕ → Bool → Processor → Processor
set_reported chain b s = record s {
  nonce_divergence_reported = λ k. if k == chain then b else s.nonce_divergence_reported k;
}

abbrev pub next_cycle : Option ℕ → ℕ
next_cycle none = 1
next_cycle (some n) = suc n

-- `_track_stuck_nonce`, with the contract's next nonce and the chain's pending and latest
unfoldable pub track_stuck_nonce : ℕ → ℕ → ℕ → ℕ → Processor → Processor
track_stuck_nonce chain next pending latest s = record s {
  stuck_nonce_cycles = λ k.
      if k == chain
      then (if ltb latest pending && ltb latest next
          then some (next_cycle (s.stuck_nonce_cycles chain))
          else none)
      else s.stuck_nonce_cycles k;
}

module _ (env : Chains) (feeds : Feeds) where
  -- `_sapphire_contract`
  unfoldable pub sapphire_contract : M Processor (Unit {0})
  sapphire_contract = do
    served ← gets (λ s. feeds.sapphire_served s.tick)
    if served then pure tt else throw (value_error (codes "Sapphire endpoint unverified"))

  abbrev pub known_address : Option Text → M Processor Text
  known_address (some address) = pure address
  known_address none = do
    sapphire_contract
    address ← limited env feeds.evm_address
    modify (λ s. record s { evm_address = some address })
    pure address

  -- `_get_evm_address`
  unfoldable pub get_evm_address : M Processor Text
  unfolding sapphire_contract attempts
  get_evm_address = do known ← gets (λ s. s.evm_address); known_address known

  abbrev pub decided : ℕ → ℕ → ℕ → ℕ → M Processor (Option (ℕ × ℕ))
  decided chain next pending latest =
      if leb pending next
      then (modify (λ s. track_stuck_nonce chain next pending latest (set_reported chain false s))
          >> pure (some (next, latest)))
      else (modify (set_reported chain true) >> pure none)

  -- `_chain_nonce_state`
  unfoldable pub chain_nonce_state : ℕ → M Processor (Option (ℕ × ℕ))
  unfolding sapphire_contract attempts get_evm_address destination track_stuck_nonce
  chain_nonce_state chain = do
    sapphire_contract
    next ← limited env (λ t. feeds.nonces t chain)
    address ← get_evm_address
    destination env chain
    pending ← limited env (λ t. feeds.transaction_count t chain address true)
    latest ← limited env (λ t. feeds.transaction_count t chain address false)
    decided chain next pending latest
