-- ===== src/Sweep/Receipt.antt =====
-- src/services/sweep_engine.py: `_wait_for_receipt`. A round of the loop is one poll and one sleep;
-- 121 rounds are more than the deadline of 120 seconds admits, since each sleeps 2 seconds.
pub mod Waiting
use privana.Prelude.{ℕ, zero, suc, ◌+◌, Option, none, some, List, [], ◌∷◌, ltb, if◌then◌else◌}
use privana.Text.{Text, codes}
use privana.Effect.{
  Exn, M, pure, throw, gets, ◌>>=◌, ◌>>◌, try_except, value_error, connection_error, timeout_error,
  os_error, not_found, fuel_out,
}
use privana.Sweep.World.{Engine, Env, Event, mined, call, await}

-- The `except` clause of a poll.
abbrev pub poll_failed : Exn → M Engine (Option ℕ)
poll_failed (connection_error m) = pure none
poll_failed (timeout_error m) = pure none
poll_failed (os_error m) = pure none
poll_failed (value_error m) = pure none
poll_failed (not_found m) = pure none
poll_failed e = throw e

abbrev pub receipt_events : ℕ → Text → Option ℕ → List Event
receipt_events chain hash none = []
receipt_events chain hash (some status) = mined chain hash status ∷ []

abbrev pub timeout_rounds : ℕ
timeout_rounds = 121

module _ (env : Env) (chain : ℕ) (hash : Text) where
  unfoldable pub poll : M Engine (Option ℕ)
  unfolding call
  poll =
      try_except (call env (λ t. env.transaction_receipt t chain hash) (receipt_events chain hash))
        poll_failed

  -- What follows a poll: the receipt's status, or a sleep and the rounds that are left.
  abbrev pub settle_poll : M Engine ℕ → Option ℕ → M Engine ℕ
  settle_poll rest (some status) = pure status
  settle_poll rest none = await env env.sleep >> rest

  unfoldable pub wait_rounds : ℕ → ℕ → M Engine ℕ
  wait_rounds zero deadline = throw fuel_out
  wait_rounds (suc n) deadline =
      let rest = wait_rounds n deadline in
      gets (λ s. env.now s.tick) >>= λ now.
      if ltb now deadline
      then poll >>= settle_poll rest
      else throw (timeout_error (codes "Transaction not mined within 120s"))

  -- `_wait_for_receipt`, down to the status of the receipt
  unfoldable pub wait_for_receipt : M Engine ℕ
  unfolding wait_rounds
  wait_for_receipt =
      gets (λ s. env.now s.tick) >>= λ start. wait_rounds timeout_rounds (start + 120)
