-- ===== src/Sweep/Safety/Stages.antt =====
-- Each stage of a sweep keeps the invariant; the broadcast hands on what the history now holds.
use privana.Prelude.{
  ℕ, zero, suc, ◌+◌, Bool, true, false, Option, none, some, List, [], ◌∷◌, ◌++◌, ltb, ◌==◌,
}
use privana.Text.{Text, codes, text_eq}
use privana.Text.Hex.{Bytes}
use privana.Config.{ChainConfig}
use privana.Effect.{
  Exn, M, value_error, connection_error, timeout_error, os_error, not_found, other_error, reverted,
  credit_pending, cancelled, fuel_out,
}
use privana.Effect.Hoare.{Triple, Triple-bind, Triple-if, Triple-pure, Triple-throw, Triple-try}
use privana.Sweep.Record.{SweepArgs}
use privana.Sweep.World.{Engine, Env, Event, mined, credit_done, processed, note}
use privana.Sweep.Gas.{get_safe_gas_price}
use privana.Sweep.Receipt.{
  poll, poll_failed, receipt_events, settle_poll, wait_rounds, wait_for_receipt, timeout_rounds,
}
use privana.Sweep.Engine.{accept_processed, idempotent_credit, check_balance, processed_events}
use privana.Sweep.Safety.Invariant.{Backed, Rely, HasAll, AllQuiet}
use privana.Sweep.Safety.Rules.{
  Knows, Keeps, Steady, Keeps-call, Keeps-await, Keeps-pure, Keeps-throw, Keeps-lift, Keeps-gets,
  Keeps-raise_if, Keeps-note, Keeps-ask, forget,
}

module _ (env : Env) (rely : Rely env) where
  module _ (chain : ℕ) (hash : Text) (es : List Event) where
    abbrev pub with_receipt : Option ℕ → List Event
    with_receipt o = receipt_events chain hash o ++ es

    pub receipt_events-quiet : (o : Option ℕ) → AllQuiet (receipt_events chain hash o)
    receipt_events-quiet none = tt
    receipt_events-quiet (some n) = (tt, tt)

    poll_failed-Keeps : (e : Exn) → Keeps es (poll_failed e) with_receipt
    poll_failed-Keeps (value_error m) = Triple-pure none (λ s h. h)
    poll_failed-Keeps (connection_error m) = Triple-pure none (λ s h. h)
    poll_failed-Keeps (timeout_error m) = Triple-pure none (λ s h. h)
    poll_failed-Keeps (os_error m) = Triple-pure none (λ s h. h)
    poll_failed-Keeps (not_found m) = Triple-pure none (λ s h. h)
    poll_failed-Keeps (other_error m) = Triple-throw _ (λ s h. h)
    poll_failed-Keeps (reverted n m) = Triple-throw _ (λ s h. h)
    poll_failed-Keeps (credit_pending m) = Triple-throw _ (λ s h. h)
    poll_failed-Keeps cancelled = Triple-throw _ (λ s h. h)
    poll_failed-Keeps fuel_out = Triple-throw _ (λ s h. h)

    poll-Keeps : Keeps es (poll env chain hash) with_receipt
    unfolding poll
    poll-Keeps = Triple-try _ _ (Keeps-call env rely es _ _ receipt_events-quiet) poll_failed-Keeps

    abbrev pub confirmed : ℕ → List Event
    confirmed status = mined chain hash status ∷ es

    settle_poll-Keeps :
        (rest : M Engine ℕ) (o : Option ℕ)
        → Keeps es rest confirmed
        → Triple
            (Knows (with_receipt o))
            (settle_poll env chain hash rest o)
            (λ n. Knows (confirmed n))
            (λ e. Knows es)
    settle_poll-Keeps rest (some n) h = Triple-pure n (λ s k. k)
    settle_poll-Keeps rest none h = Triple-bind _ _ (Keeps-await env rely es _) (λ _. h)

    wait_rounds-Keeps :
        (n deadline : ℕ) → Keeps es (wait_rounds env chain hash n deadline) confirmed
    unfolding wait_rounds
    wait_rounds-Keeps zero deadline = Triple-throw _ (λ s h. h)
    wait_rounds-Keeps (suc n) deadline = Triple-bind _ _ (Keeps-gets es _) λ now.
        Triple-if (ltb now deadline) _ _
          (λ _.
            Triple-bind _ _ poll-Keeps λ o. settle_poll-Keeps _ o (wait_rounds-Keeps n deadline))
          (λ _. Triple-throw _ (λ s h. h))

    pub wait_for_receipt-Keeps : Keeps es (wait_for_receipt env chain hash) confirmed
    unfolding wait_for_receipt
    wait_for_receipt-Keeps =
        Triple-bind _ _ (Keeps-gets es _) λ start. wait_rounds-Keeps timeout_rounds (start + 120)

  module _ (configs : List ChainConfig) (es : List Event) where
    pub get_safe_gas_price-Steady : (chain : ℕ) → Steady es (get_safe_gas_price env configs chain)
    unfolding get_safe_gas_price
    get_safe_gas_price-Steady chain = Triple-bind _ _ (Keeps-await env rely es _) λ fee.
        Triple-bind _ _ (Keeps-await env rely es _) λ price.
          Triple-bind _ _ (Keeps-raise_if es _ _)
            λ _. Triple-bind _ _ (Keeps-lift es _) λ floor. Keeps-pure es _

    note-Steady : (e : Event) → AllQuiet (e ∷ []) → Steady es (note e)
    note-Steady e q = forget es (λ _. e ∷ []) _ (Keeps-note es e q)

    accept_processed-Steady : (id : Bytes) (e : Exn) → Steady es (accept_processed id e)
    accept_processed-Steady id (reverted name m) =
        Triple-if (text_eq name (codes "DepositAlreadyProcessed")) _ _
          (λ _. note-Steady (processed id) (tt, tt)) (λ _. Keeps-throw es _)
    accept_processed-Steady id (value_error m) = Keeps-throw es _
    accept_processed-Steady id _ = Keeps-throw es _

    pub idempotent_credit-Steady :
        (b : Text) (t : Bytes) (a : ℕ) (i : Bytes)
        → ((log : List Event) → HasAll es log → Backed b a log)
        → Steady es (idempotent_credit env configs b t a i)
    unfolding idempotent_credit
    idempotent_credit-Steady b t a i backed =
        Triple-try _ _
          (Triple-bind _ _ (Keeps-ask es b t a i backed) (λ _.
            forget es (λ _. credit_done b t a i ∷ []) _
              (Keeps-call env rely es _ _ (λ _. (tt, tt)))))
          (accept_processed-Steady i)

    processed_events-quiet : (i : Bytes) (b : Bool) → AllQuiet (processed_events i b)
    processed_events-quiet i true = (tt, tt)
    processed_events-quiet i false = tt

    pub check_balance-Steady : (a : SweepArgs) (n : ℕ) → Steady es (check_balance env configs a n)
    unfolding check_balance
    check_balance-Steady a n =
        Triple-if (n == 0) _ _
          (λ _.
            Triple-bind _ _
              (forget es (processed_events a.deposit_id) _
                (Keeps-call env rely es _ _ (processed_events-quiet a.deposit_id)))
              λ done. Triple-if done _ _ (λ _. Keeps-pure es _) (λ _. Keeps-throw es _))
          (λ _. Triple-if (ltb n a.amount) _ _ (λ _. Keeps-throw es _) (λ _. Keeps-pure es _))
