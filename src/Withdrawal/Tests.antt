-- ===== src/Withdrawal/Tests.antt =====
-- A withdrawal whose broadcast is refused because the transaction has landed before.
use privana.Prelude.{ℕ, List, ◌≡◌, ◌≢◌, refl, true, false, none, some, [], ◌∷◌, arith}
use privana.Text.{codes, text_eq}
use privana.Table.{Table, find, in_order}
use privana.Text.Hex.{Bytes, to_hex, hex}
use privana.Effect.{ok-injective, ok, raise, other_error, ◌>>=◌, try_except}
use privana.Withdrawal.{
  Chains, Processor, ask, attempts, destination, fetch_receipt, search, find_broadcast_tx,
  ensure_resolved, broadcast, pay, resolve_and_broadcast,
}
use privana.Withdrawal.Gate.{
  Feeds, PendingEntry, chain_nonce_state, sapphire_contract, get_evm_address, track_stuck_nonce,
}
use privana.Withdrawal.Poll.{run_processor, get_pending_withdrawals, held}
use privana.Withdrawal.Readiness.{IsReady, IsOwn, chain_nonce_state_sound}
use privana.Withdrawal.Divergence.{Diverged, run_processor-diverged}
use privana.Withdrawal.Pending.{due, IsAscending, get_pending_withdrawals-due}
use privana.Withdrawal.Search.{IsPaid}
use privana.Withdrawal.Payment.{resolve_and_broadcast-IsPaid}

abbrev landed_before : Chains
landed_before = record {
  served = λ t k. true;
  sleep = λ t. ok tt;
  is_resolved = λ t i. ok true;
  resolve_withdrawal = λ t i. ok tt;
  signed_tx = λ t i. ok (1 ∷ []);
  send_raw_transaction = λ t k tx. raise (other_error (codes "nonce too low"));
  transaction_receipt = λ t k hash. ok 1;
  transaction = λ t k hash. ok tt;
  keccak = λ b. b;
  resolution_timeout = 5;
}

abbrev started : Processor
started = record {
  chain_high_water_mark = λ k. some 2;
  last_broadcast_hash = λ k i. none;
  evm_address = none;
  nonce_divergence_reported = λ k. false;
  stuck_nonce_cycles = λ k. none;
  tick = 0;
}

succeeds : (resolve_and_broadcast landed_before 1 3 started).0 ≡ ok true
unfolding resolve_and_broadcast ensure_resolved pay broadcast find_broadcast_tx search fetch_receipt
    destination attempts ask ◌>>=◌ try_except to_hex hex text_eq
succeeds = refl

resolve_and_broadcast-IsPaid_example :
    ((resolve_and_broadcast landed_before 1 3 started).0 ≡ ok true
      → ((resolve_and_broadcast landed_before 1 3 started).1.chain_high_water_mark 1 ≡ some 3)
        × ((t : ℕ) × ((signed : Bytes) × ((ok (1 ∷ []) ≡ ok signed)
                × IsPaid landed_before 1 3 (λ k. some 2) none signed))))
    × ((resolve_and_broadcast landed_before 1 3 started).0 ≢ ok true
        → (resolve_and_broadcast landed_before 1 3 started).1.chain_high_water_mark ≡ (λ k. some 2))
resolve_and_broadcast-IsPaid_example =
    resolve_and_broadcast-IsPaid landed_before 1 3 started (omega arith)

-- A chain whose node has seen nonce 5, while the contract is at 3.
abbrev behind : Feeds
behind = record {
  sapphire_served = λ t. true;
  evm_address = λ t. ok (codes "0xE");
  nonces = λ t k. ok 3;
  transaction_count = λ t k address pending. ok 5;
  withdrawal_count = λ t. ok 4;
  withdrawals = λ t i. ok (record { resolved = true; tx_identifier = []; token_id = [] });
  token_chain = λ t token. ok 1;
  decode_nonce = λ b. ok 3;
  pending_withdrawals = λ t. ok (
    record { index = 7; chain_id = 1; block_number = 2 }
        ∷ record { index = 3; chain_id = 1; block_number = 2 }
        ∷ [],
    9,
  );
  configured_chains = λ t. 1 ∷ [];
  is_running = λ t. true;
}

-- The same with a contract at 6.
abbrev ahead : Feeds
ahead = record behind { nonces = λ t k. ok 6 }

is_behind : Diverged behind 1 (IsOwn landed_before behind started)
is_behind t u address next pending own a b = omega (arith, ok-injective _ _ a, ok-injective _ _ b)

run_processor-diverged_example :
    ((run_processor landed_before behind 4 started).1.chain_high_water_mark 1 ≡ some 2)
    × ((i : ℕ) → (run_processor landed_before behind 4 started).1.last_broadcast_hash 1 i ≡ none)
run_processor-diverged_example = run_processor-diverged landed_before behind 1 4 started is_behind

is_let_through : (chain_nonce_state landed_before ahead 1 started).0 ≡ ok (some (6, 5))
unfolding chain_nonce_state sapphire_contract get_evm_address track_stuck_nonce destination attempts
    ask ◌>>=◌ try_except
is_let_through = refl

chain_nonce_state_sound_example : IsReady ahead (IsOwn landed_before ahead started) 1 (some (6, 5))
chain_nonce_state_sound_example =
    chain_nonce_state_sound landed_before ahead started 1 (some (6, 5)) is_let_through

abbrev entries : List PendingEntry
entries =
    record { index = 7; chain_id = 1; block_number = 2 }
    ∷ record { index = 3; chain_id = 1; block_number = 2 }
    ∷ []

get_pending_withdrawals-due_example :
    (d : Table (List ℕ)) × ((get_pending_withdrawals landed_before ahead started).0 ≡ ok d)
    × (held (find 1 d) ≡ in_order (due (some 2) 9 1 entries))
    × IsAscending (held (find 1 d))
get_pending_withdrawals-due_example =
    get_pending_withdrawals-due landed_before ahead started entries 9 1 (omega arith) refl
