-- ===== src/Sweep/Safety/Memory.antt =====
-- The history only grows: whatever the engine does, and however it ends, the events that were there
-- are still there, in their order.
use mathlib.Core.List.{append_assoc}
use privana.Prelude.{
  ℕ, zero, suc, ◌+◌, ◌≡◌, refl, sym, Bool, true, false, Option, none, some, List, [], ◌∷◌, ◌++◌,
  inl, inr, ltb, Bool-cases, if◌then◌else◌,
}
use privana.Text.{Text}
use privana.Text.Hex.{Bytes}
use privana.Config.{ChainConfig}
use privana.Effect.{
  Exn, Outcome, ok, raise, M, pure, throw, gets, lift, modify, continue, ◌>>=◌, handle, try_except,
  raise_if, value_error, connection_error, timeout_error, os_error, not_found, other_error,
  reverted, credit_pending, cancelled, fuel_out,
}
use privana.Sweep.Record.{SweepRecord, SweepArgs, is_set}
use privana.Sweep.World.{Engine, Env, Event, answered, call, await, note, get_web3}
use privana.Sweep.Store.{
  save_record, delete_record, persist_error, get_record, flag_error, record_path,
}
use privana.Sweep.Receipt.{
  poll, poll_failed, settle_poll, wait_rounds, wait_for_receipt, timeout_rounds,
}
use privana.Sweep.Engine.{
  add_gas_hash, accept_processed, idempotent_credit, sweep_native, sweep_erc20,
}
use privana.Sweep.Recovery.{
  persist_resume_error, reconcile_receipt, reconcile_status, reconcile_hash, reconcile_sweep_tx,
  reconcile_all, resume_by_token, resume_failed, resume_sweep_from_pending, retry_credit,
  resume_record, resume_turn, retry_turn,
}
use privana.Sweep.Safety.Invariant.{Rely}

pub record Extends (old new : List Event) : Type 0 where
  pub added : List Event
  pub same : new ≡ added ++ old

pub Extends-refl : (log : List Event) → Extends log log
Extends-refl log = record { added = []; same = refl }

pub Extends-trans : (a b c : List Event) → Extends a b → Extends b c → Extends a c
Extends-trans a b c h k = record {
  added = k.added ++ h.added;
  same = rw (k.same, h.same) (sym (append_assoc k.added h.added a));
}

pub record Remembers {A : Type 0} (m : M Engine A) : Type 0 where
  pub at : (s : Engine) → Extends s.log (m s).1.log

module _ {A : Type 0} where
  pub Remembers-pure : (a : A) → Remembers (pure a)
  Remembers-pure a = record { at = λ s. Extends-refl s.log }

  pub Remembers-throw : (e : Exn) → Remembers (throw {A = A} e)
  Remembers-throw e = record { at = λ s. Extends-refl s.log }

  pub Remembers-lift : (r : Outcome A) → Remembers (lift r)
  Remembers-lift r = record { at = λ s. Extends-refl s.log }

  pub Remembers-gets : (f : Engine → A) → Remembers (gets f)
  Remembers-gets f = record { at = λ s. Extends-refl s.log }

  pub Remembers-if :
      (b : Bool) (m n : M Engine A) → Remembers m → Remembers n → Remembers (if b then m else n)
  Remembers-if true m n k l = k
  Remembers-if false m n k l = l

  Remembers-handle :
      (r : Outcome A) (f : Exn → M Engine A)
      → ((e : Exn) → Remembers (f e))
      → Remembers (handle r f)
  Remembers-handle (ok a) f k = record { at = λ s. Extends-refl s.log }
  Remembers-handle (raise e) f k = k e

  pub Remembers-try :
      (m : M Engine A) (f : Exn → M Engine A)
      → Remembers m
      → ((e : Exn) → Remembers (f e))
      → Remembers (try_except m f)
  unfolding try_except
  Remembers-try m f k l = record {
    at = λ s. Extends-trans _ _ _ (k.at s) ((Remembers-handle (m s).0 f l).at (m s).1);
  }

module _ {A B : Type 0} where
  Remembers-continue :
      (r : Outcome A) (f : A → M Engine B) → ((a : A) → Remembers (f a)) → Remembers (continue r f)
  Remembers-continue (ok a) f k = k a
  Remembers-continue (raise e) f k = record { at = λ s. Extends-refl s.log }

  pub Remembers-bind :
      (m : M Engine A) (f : A → M Engine B)
      → Remembers m
      → ((a : A) → Remembers (f a))
      → Remembers (m >>= f)
  unfolding ◌>>=◌
  Remembers-bind m f k l = record {
    at = λ s. Extends-trans _ _ _ (k.at s) ((Remembers-continue (m s).0 f l).at (m s).1);
  }

pub Remembers-raise_if : (b : Bool) (e : Exn) → Remembers (raise_if b e)
Remembers-raise_if true e = Remembers-throw e
Remembers-raise_if false e = Remembers-pure tt

pub Remembers-note : (e : Event) → Remembers (note e)
unfolding note
Remembers-note e = record { at = λ s. record { added = e ∷ []; same = refl } }

pub Remembers-add_gas_hash : (h : Text) → Remembers (modify (add_gas_hash h))
Remembers-add_gas_hash h = record { at = λ s. Extends-refl s.log }

pub ruleset base_rules = (
  Remembers-pure, Remembers-throw, Remembers-lift, Remembers-gets, Remembers-if, Remembers-try,
  Remembers-bind, Remembers-raise_if, Remembers-note, Remembers-add_gas_hash,
)

pub Remembers-save : (r : SweepRecord) → Remembers (save_record r)
unfolding save_record
Remembers-save r =
    Remembers-bind (lift (record_path r.deposit_id_hex)) _ (Remembers-lift _)
      (λ path. record { at = λ s. Extends-refl s.log })

pub Remembers-delete : (id : Text) → Remembers (delete_record id)
unfolding delete_record
Remembers-delete id =
    Remembers-bind (lift (record_path id)) _ (Remembers-lift _)
      (λ path. record { at = λ s. Extends-refl s.log })

pub Remembers-get : (id : Text) → Remembers (get_record id)
unfolding get_record
Remembers-get id = record { at = λ s. Extends-refl s.log }

Remembers-flag : (e : Text) (r : Option SweepRecord) → Remembers (flag_error e r)
Remembers-flag e none = Remembers-pure tt
Remembers-flag e (some r) =
    Remembers-if (is_set r.sweep_tx_hash) _ _ (Remembers-pure tt) (Remembers-save _)

pub Remembers-persist : (id e : Text) → Remembers (persist_error id e)
unfolding persist_error
Remembers-persist id e = Remembers-bind _ _ (Remembers-get id) (Remembers-flag e)

pub Remembers-poll_failed : (e : Exn) → Remembers (poll_failed e)
Remembers-poll_failed (value_error m) = Remembers-pure none
Remembers-poll_failed (connection_error m) = Remembers-pure none
Remembers-poll_failed (timeout_error m) = Remembers-pure none
Remembers-poll_failed (os_error m) = Remembers-pure none
Remembers-poll_failed (not_found m) = Remembers-pure none
Remembers-poll_failed (other_error m) = Remembers-throw _
Remembers-poll_failed _ = Remembers-throw _

pub Remembers-accept : (id : Bytes) (e : Exn) → Remembers (accept_processed id e)
Remembers-accept id (reverted name m) = Remembers-if _ _ _ (Remembers-note _) (Remembers-throw _)
Remembers-accept id (value_error m) = Remembers-throw _
Remembers-accept id _ = Remembers-throw _

pub ruleset store_rules = (
  base_rules, Remembers-save, Remembers-delete, Remembers-get, Remembers-accept,
  Remembers-poll_failed,
)

module _ (env : Env) (rely : Rely env) where
  pub Remembers-call :
      {A : Type 0} (answer : ℕ → Outcome A) (events : A → List Event)
      → Remembers (call env answer events)
  unfolding call
  Remembers-call answer events = record {
    at = λ s.
        let new = answered env (answer s.tick) events in
        let s' = record s { tick = suc s.tick; log = new ++ s.log } in
        let (pre, e) = rely.grows s.tick s' in
        record { added = pre ++ new; same = rw e (sym (append_assoc pre new s.log)) };
  }

  pub Remembers-await : {A : Type 0} (answer : ℕ → Outcome A) → Remembers (await env answer)
  unfolding await
  Remembers-await answer = Remembers-call answer (λ _. [])

  pub Remembers-web3 : (chain : ℕ) → Remembers (get_web3 env chain)
  unfolding get_web3
  Remembers-web3 chain = record {
    at = λ s. elim (Bool-cases (env.served s.tick chain)) [
      | inl e ↦ rw e (Extends-refl s.log)
      | inr e ↦ rw e (Extends-refl s.log)
    ];
  }

  Remembers-settle :
      (chain : ℕ) (hash : Text) (rest : M Engine ℕ) (o : Option ℕ)
      → Remembers rest
      → Remembers (settle_poll env chain hash rest o)
  Remembers-settle chain hash rest none h = Remembers-bind _ _ (Remembers-await _) (λ _. h)
  Remembers-settle chain hash rest (some n) h = Remembers-pure n

  Remembers-rounds :
      (chain : ℕ) (hash : Text) (n deadline : ℕ) → Remembers (wait_rounds env chain hash n deadline)
  unfolding wait_rounds poll
  Remembers-rounds chain hash zero deadline = Remembers-throw _
  Remembers-rounds chain hash (suc n) deadline = Remembers-bind _ _ (Remembers-gets _) λ now.
      Remembers-if (ltb now deadline) _ _
        (Remembers-bind _ _ (Remembers-try _ _ (Remembers-call _ _) Remembers-poll_failed)
          λ o. Remembers-settle chain hash _ o (Remembers-rounds chain hash n deadline))
        (Remembers-throw _)

  pub Remembers-receipt : (chain : ℕ) (hash : Text) → Remembers (wait_for_receipt env chain hash)
  unfolding wait_for_receipt
  Remembers-receipt chain hash =
      Remembers-bind _ _ (Remembers-gets _)
        λ start. Remembers-rounds chain hash timeout_rounds (start + 120)

  pub ruleset rules =
      (store_rules, Remembers-call, Remembers-await, Remembers-web3, Remembers-receipt)

  module _ (configs : List ChainConfig) where
    pub Remembers-credit :
        (b : Text) (t : Bytes) (a : ℕ) (i : Bytes)
        → Remembers (idempotent_credit env configs b t a i)
    unfolding idempotent_credit
    Remembers-credit b t a i = search rules depth 12

    pub Remembers-native : (a : SweepArgs) → Remembers (sweep_native env configs a)
    unfolding sweep_native
    Remembers-native a = search rules depth 60

    pub Remembers-erc20 :
        (a : SweepArgs) (token : Text) → Remembers (sweep_erc20 env configs a token)
    unfolding sweep_erc20
    Remembers-erc20 a token = search rules depth 60

    pub Remembers-sweep :
        (r : SweepRecord) (token : Option Text) (t i : Bytes)
        → Remembers (resume_by_token env configs r token t i)
    Remembers-sweep r none t i = Remembers-native _
    Remembers-sweep r (some token) t i = Remembers-erc20 _ token

    pub Remembers-retry : (r : SweepRecord) → Remembers (retry_credit env configs r)
    unfolding retry_credit
    Remembers-retry r = search (rules, Remembers-credit) depth 20

    pub Remembers-resume : (r : SweepRecord) → Remembers (resume_sweep_from_pending env configs r)
    unfolding resume_sweep_from_pending
    Remembers-resume r = search (rules, Remembers-sweep) depth 20

    Remembers-persist_resume : (r : SweepRecord) (e : Exn) → Remembers (persist_resume_error r e)
    unfolding persist_resume_error
    Remembers-persist_resume r e = Remembers-persist _ _

    pub Remembers-failed : (r : SweepRecord) (e : Exn) → Remembers (resume_failed r e)
    Remembers-failed r (credit_pending i) = Remembers-pure _
    Remembers-failed r (cancelled) = Remembers-throw _
    Remembers-failed r (fuel_out) = Remembers-throw _
    Remembers-failed r (value_error m) =
        Remembers-bind _ _ (Remembers-persist_resume r _) (λ _. Remembers-pure _)
    Remembers-failed r _ = Remembers-bind _ _ (Remembers-persist_resume r _) (λ _. Remembers-pure _)

    pub Remembers-record : (r : SweepRecord) → Remembers (resume_record env configs r)
    unfolding resume_record
    Remembers-record r =
        Remembers-try _ _ (search (rules, Remembers-resume, Remembers-retry) depth 20)
          (Remembers-failed r)

    pub Remembers-turn : (r : SweepRecord) → Remembers (resume_turn env configs r)
    unfolding resume_turn
    Remembers-turn r = search (rules, Remembers-resume, Remembers-failed) depth 20

    pub Remembers-retry_turn : (r : SweepRecord) → Remembers (retry_turn env configs r)
    unfolding retry_turn
    Remembers-retry_turn r = search (rules, Remembers-retry) depth 20

  pub Remembers-reconcile_receipt :
      (r : SweepRecord) (hash : Text) → Remembers (reconcile_receipt env r hash)
  unfolding reconcile_receipt
  Remembers-reconcile_receipt r hash =
      Remembers-try _ _ (search rules depth 12) (λ e. search rules depth 12)

  Remembers-status :
      (r : SweepRecord) (o : Option (Option ℕ)) → Remembers (reconcile_status env r o)
  Remembers-status r none = Remembers-pure r
  Remembers-status r (some none) = Remembers-throw _
  Remembers-status r (some (some n)) = search rules depth 12

  Remembers-hash : (r : SweepRecord) (o : Option Text) → Remembers (reconcile_hash env r o)
  Remembers-hash r none = Remembers-pure r
  Remembers-hash r (some hash) =
      Remembers-if _ _ _
        (Remembers-bind _ _ (Remembers-reconcile_receipt r hash) (Remembers-status r))
        (Remembers-pure r)

  pub Remembers-reconcile : (r : SweepRecord) → Remembers (reconcile_sweep_tx env r)
  unfolding reconcile_sweep_tx
  Remembers-reconcile r = Remembers-if _ _ _ (Remembers-pure r) (Remembers-hash r _)

  pub Remembers-reconcile_all : (rs : List SweepRecord) → Remembers (reconcile_all env rs)
  unfolding reconcile_all
  Remembers-reconcile_all [] = Remembers-pure []
  Remembers-reconcile_all (r ∷ rs) =
      Remembers-bind _ _ (Remembers-reconcile r)
        λ r'. Remembers-bind _ _ (Remembers-reconcile_all rs) (λ rs'. Remembers-pure _)
