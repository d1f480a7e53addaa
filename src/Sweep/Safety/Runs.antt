-- ===== src/Sweep/Safety/Runs.antt =====
-- The invariant over whole runs of the engine, and what it says of credits and of SWEPT records.
use privana.Prelude.{ℕ, ◌≡◌, true, some, List, [], ◌∷◌, ◌++◌}
use privana.Text.{Text}
use privana.Text.Hex.{Bytes}
use privana.Dict.{lookup}
use privana.Config.{ChainConfig}
use privana.Effect.{Outcome, ok, raise}
use privana.Effect.Hoare.{Post, Triple-bind, Triple-pure, Triple-modify}
use privana.Sweep.Record.{SweepRecord, is_swept}
use privana.Sweep.World.{Engine, Env, Event, credit_asked, signed}
use privana.Sweep.Store.{parsed, parsed-some}
use privana.Sweep.Operations.{
  Operation, native, erc20, restart, recover, cleanup, error, perform, run, forget_memory, fresh,
}
use privana.Sweep.Safety.Invariant.{IsSafe, Backed, HashBacked, CreditsBacked, Rely}
use privana.Sweep.Safety.Sweeps.{sweep_native-Safely, sweep_erc20-Safely}
use privana.Sweep.Safety.Passes.{
  KeepsSafe, from_safe, cleanup_record-KeepsSafe, persist_error-KeepsSafe,
  resume_incomplete_sweeps-KeepsSafe, recovery_pass-KeepsSafe,
}

Post-IsSafe :
    {A : Type 0} (r : Outcome A) (s : Engine) → Post (λ _. IsSafe) (λ _. IsSafe) r s → IsSafe s
Post-IsSafe (ok a) s h = h
Post-IsSafe (raise e) s h = h

module _ (env : Env) (rely : Rely env) (configs : List ChainConfig) where
  perform-KeepsSafe : (o : Operation) → KeepsSafe (perform env configs o)
  unfolding perform
  perform-KeepsSafe (native a) = from_safe env rely configs (sweep_native-Safely env rely configs a)
  perform-KeepsSafe (erc20 a token) =
      from_safe env rely configs (sweep_erc20-Safely env rely configs a token)
  perform-KeepsSafe restart =
      Triple-bind _ _
        (Triple-modify forget_memory (λ s h. record { records = h.records; credits = h.credits }))
        λ _.
          Triple-bind _ _ (resume_incomplete_sweeps-KeepsSafe env rely configs)
            (λ _. Triple-pure tt (λ s h. h))
  perform-KeepsSafe recover = recovery_pass-KeepsSafe env rely configs
  perform-KeepsSafe (cleanup id) = cleanup_record-KeepsSafe id
  perform-KeepsSafe (error id message) = persist_error-KeepsSafe id message

  -- From a state with the invariant, whatever the chains and the contract answer and wherever a
  -- task is cancelled, any run of the engine's operations ends in a state with the invariant,
  -- provided that the tasks that run in between keep it too and only add to the history.
  pub run-IsSafe : (os : List Operation) (s : Engine) → IsSafe s → IsSafe (run env configs os s)
  unfolding run
  run-IsSafe [] s h = h
  run-IsSafe (o ∷ os) s h =
      run-IsSafe os _ (Post-IsSafe (perform env configs o s).0 _ ((perform-KeepsSafe o).at s h))

pub fresh-IsSafe : IsSafe fresh
unfolding lookup
fresh-IsSafe = record { records = λ p r e. cc; credits = tt }

CreditsBacked-split :
    (new : List Event) (old : List Event) (b : Text) (t : Bytes) (a : ℕ) (i : Bytes)
    → CreditsBacked (new ++ credit_asked b t a i ∷ old)
    → Backed b a old
CreditsBacked-split [] old b t a i h = h.0
CreditsBacked-split (signed _ _ _ _ _ ∷ es) old b t a i h = CreditsBacked-split es old b t a i h
CreditsBacked-split (credit_asked _ _ _ _ ∷ es) old b t a i h =
    CreditsBacked-split es old b t a i h.1
CreditsBacked-split (_ ∷ es) old b t a i h = CreditsBacked-split es old b t a i h

module _ (env : Env) (rely : Rely env) (configs : List ChainConfig) (os : List Operation) where
  -- In any run of the engine from an empty state directory, under tasks that keep the invariant
  -- and only add to the history: wherever the history asks for a credit of an amount to a
  -- beneficiary, the history before it holds a sweep transaction that was signed for this
  -- beneficiary and amount, was sent, and was mined with status 1 on its chain.
  pub no_credit_without_sweep :
      (new : List Event) (old : List Event) (b : Text) (t : Bytes) (a : ℕ) (i : Bytes)
      → (run env configs os fresh).log ≡ new ++ credit_asked b t a i ∷ old
      → Backed b a old
  no_credit_without_sweep new old b t a i e =
      CreditsBacked-split new old b t a i
        (rw e at ((run-IsSafe env rely configs os fresh fresh-IsSafe).credits))

  -- In any such run, a record on disk in state SWEPT has behind it a sweep for its beneficiary and
  -- amount that was signed, sent and mined with status 1; and the `sweep_tx_hash` of any record on
  -- disk is that of a transaction signed for the record's deposit and sent on its chain.
  pub swept_record-Backed :
      (path : Text) (r : SweepRecord)
      → parsed (lookup path (run env configs os fresh).files) ≡ ok (some r)
      → (is_swept r.state ≡ true → Backed r.beneficiary r.amount (run env configs os fresh).log)
        × ((hash : Text)
            → r.sweep_tx_hash ≡ some hash
            → HashBacked r hash (run env configs os fresh).log)
  swept_record-Backed path r e =
      let (f, found, read) = parsed-some (lookup path (run env configs os fresh).files) r e in
      let b = (run-IsSafe env rely configs os fresh fresh-IsSafe).records path f r found read in
      (b.swept_backed, b.hash_backed)
