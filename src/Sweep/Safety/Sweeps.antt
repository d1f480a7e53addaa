-- ===== src/Sweep/Safety/Sweeps.antt =====
-- `sweep_native` and `sweep_erc20` keep the invariant, from any state and with any answers.
use mathlib.Core.Path.{subst, subst₂, subst₃}
use privana.Prelude.{
  ℕ, ◌≡◌, refl, sym, Bool, true, false, not, Option, none, some, List, [], ◌∷◌, arith, Has, ==_iff,
}
use privana.Text.{Text}
use privana.Text.Hex.{Bytes, to_hex}
use privana.Config.{ChainConfig}
use privana.Effect.{Exn, ok, ◌>>=◌, is_exception}
use privana.Effect.Hoare.{
  Triple, Triple-bind, Triple-if, Triple-pure, Triple-throw, Triple-lift, Triple-try, Triple-weaken,
}
use privana.Sweep.Record.{
  SweepRecord, SweepArgs, gas_funded, swept, is_swept, initial_record, post_init,
}
use privana.Sweep.World.{Env, Event, signed, sent, mined}
use privana.Sweep.Gas.{get_safe_gas_price}
use privana.Sweep.Engine.{
  open_record, fund_gas, send_sweep, confirm_sweep, credit_and_close, credit_failed, sweep_native,
  sweep_erc20,
}
use privana.Sweep.Safety.Invariant.{IsSafe, RecordBacked, Backed, HashBacked, Rely, HasAll}
use privana.Sweep.Safety.Rules.{
  Knows, Safely, step, safely, Triple-intro, Keeps-call, Keeps-await, Keeps-web3, Keeps-pure,
  Keeps-lift, Keeps-gets, Keeps-raise_if, Keeps-add_gas_hash, Keeps-save, Keeps-delete, forget,
  raise_if-Safely,
}
use privana.Sweep.Safety.Stages.{
  get_safe_gas_price-Steady, check_balance-Steady, idempotent_credit-Steady, wait_for_receipt-Keeps,
}

-- The record is that of the sweep that was asked for.
record IsFor (a : SweepArgs) (r : SweepRecord) : Type 0 where
  same_beneficiary : r.beneficiary ≡ a.beneficiary
  same_chain : r.chain_id ≡ a.chain_id
  same_amount : r.amount ≡ a.amount

-- No sweep has gone out for it.
record IsFresh (a : SweepArgs) (r : SweepRecord) : Type 0 where
  is_for : IsFor a r
  no_hash : r.sweep_tx_hash ≡ none
  not_swept : is_swept r.state ≡ false

IsFresh-RecordBacked :
    (a : SweepArgs) (r : SweepRecord) (log : List Event) → IsFresh a r → RecordBacked r log
IsFresh-RecordBacked a r log f = record {
  hash_backed = λ hash e. cc (f.no_hash);
  swept_backed = λ e. cc (f.not_swept);
}

-- A transaction signed for the sweep was sent, and the record carries its hash.
record IsOut (a : SweepArgs) (r : SweepRecord) (hash : Text) : Type 0 where
  is_for : IsFor a r
  has_hash : r.sweep_tx_hash ≡ some hash
  token : Option Text
  tx : Bytes

abbrev out_events : (a : SweepArgs) (r : SweepRecord) (hash : Text) → IsOut a r hash → List Event
out_events a r hash o =
    sent a.chain_id o.tx hash ∷ signed a.beneficiary a.chain_id o.token a.amount o.tx ∷ []

initial_record-IsFresh :
    (a : SweepArgs) (token : Option Text) (now : ℕ) → IsFresh a (initial_record a token now)
unfolding initial_record is_swept
initial_record-IsFresh a token now = record {
  is_for = record { same_beneficiary = refl; same_chain = refl; same_amount = refl };
  no_hash = refl;
  not_swept = refl;
}

post_init-ok : (r x : SweepRecord) → post_init r ≡ ok x → r ≡ x
unfolding post_init
post_init-ok r x h = ground arith

module _ (a : SweepArgs) (r : SweepRecord) (hash : Text) (o : IsOut a r hash) where
  out-HashBacked :
      (log : List Event) (h : Text)
      → HasAll (out_events a r hash o) log
      → r.sweep_tx_hash ≡ some h
      → HashBacked r h log
  out-HashBacked log h k e = record {
    token = o.token;
    tx = o.tx;
    was_signed =
        subst₃ (λ b c n. Has (signed b c o.token n o.tx) log) (sym o.is_for.same_beneficiary)
          (sym o.is_for.same_chain) (sym o.is_for.same_amount) k.1.0;
    was_sent =
        subst₂ (λ c x. Has (sent c o.tx x) log) (sym o.is_for.same_chain) (cc (o.has_hash, e)) k.0;
  }

  out-Backed :
      (log : List Event)
      → HasAll (mined a.chain_id hash 1 ∷ out_events a r hash o) log
      → Backed a.beneficiary a.amount log
  out-Backed log k = record {
    chain = a.chain_id;
    token = o.token;
    tx = o.tx;
    hash = hash;
    was_signed = k.1.1.0;
    was_sent = k.1.0;
    was_mined = k.0;
  }

not-false : {b : Bool} → not b ≡ false → b ≡ true
not-false {b = true} e = refl
not-false {b = false} e = cc

swept-RecordBacked :
    (a : SweepArgs) (r : SweepRecord) (hash : Text) (o : IsOut a r hash) (log : List Event)
    → HasAll (mined a.chain_id hash 1 ∷ out_events a r hash o) log
    → RecordBacked (record r { state = swept }) log
swept-RecordBacked a r hash o log k =
    let h = out-HashBacked a r hash o log in
    record {
      hash_backed = λ x e.
          let b = h x k.1 e in
          record { token = b.token; tx = b.tx; was_signed = b.was_signed; was_sent = b.was_sent };
      swept_backed = λ _.
          subst₂ (λ b n. Backed b n log) (sym o.is_for.same_beneficiary) (sym o.is_for.same_amount)
            (out-Backed a r hash o log k);
    }

module _ (env : Env) (rely : Rely env) (configs : List ChainConfig) where
  open_record-Safely :
      (a : SweepArgs) (token : Option Text)
      → Safely [] (open_record env configs a token) (λ r s. IsFresh a r × Knows [] s)
  unfolding open_record
  open_record-Safely a token = step (Keeps-gets [] _) λ now.
      Triple-bind _ _
        (Triple-lift {R = λ r s. IsFresh a r × Knows [] s} (post_init (initial_record a token now))
          (λ r e s h.
            (subst (IsFresh a) (post_init-ok _ r e) (initial_record-IsFresh a token now), h))
          (λ e _ s h. h.safe))
        λ r. Triple-intro _ λ f.
          step (Keeps-save [] r (λ log _. IsFresh-RecordBacked a r log f))
            λ _. Triple-pure r (λ s h. (f, h))

  fund_gas-Safely :
      (a : SweepArgs) (price limit : ℕ) (erc20 : Bool) (r : SweepRecord)
      → IsFresh a r
      → Safely [] (fund_gas env configs a price limit erc20 r) (λ r' s. IsFresh a r' × Knows [] s)
  unfolding fund_gas
  fund_gas-Safely a price limit erc20 r f = step (Keeps-await env rely [] _) λ fee.
      step (Keeps-lift [] _) λ cap. step (Keeps-await env rely [] _) λ _.
        step (Keeps-await env rely [] _) λ tank. step (Keeps-await env rely [] _) λ nonce.
          step (Keeps-await env rely [] _) λ tx. step (Keeps-web3 env rely [] _) λ _.
            step (Keeps-await env rely [] _) λ hash. step (Keeps-add_gas_hash [] _) λ _.
              let funded = record r {
                gas_funding_tx_hash = some (to_hex hash);
                state = gas_funded;
              } in
              let fresh : IsFresh a funded = record {
                is_for = record {
                  same_beneficiary = f.is_for.same_beneficiary;
                  same_chain = f.is_for.same_chain;
                  same_amount = f.is_for.same_amount;
                };
                no_hash = f.no_hash;
                not_swept = unfold is_swept in refl;
              } in
              step (Keeps-save [] funded (λ log _. IsFresh-RecordBacked a funded log fresh)) λ _.
                step
                  (forget [] (λ n. mined a.chain_id (to_hex hash) n ∷ []) _
                    (wait_for_receipt-Keeps env rely a.chain_id (to_hex hash) []))
                  λ status. step (Keeps-raise_if [] _ _) λ _. Triple-pure funded (λ s h. (fresh, h))

  send_sweep-Safely :
      (a : SweepArgs) (token : Option Text) (r : SweepRecord)
      → IsFresh a r
      → Safely []
          (send_sweep env configs a token r)
          (λ p s. (o : IsOut a p.0 p.1) × Knows (out_events a p.0 p.1 o) s)
  unfolding send_sweep
  send_sweep-Safely a token r f = step (get_safe_gas_price-Steady env rely configs [] _) λ price.
      step (Keeps-await env rely [] _) λ nonce.
        step (Keeps-call env rely [] _ _ (λ tx. (tt, tt))) λ tx. step (Keeps-web3 env rely _ _) λ _.
          step (Keeps-call env rely _ _ _ (λ hash. (tt, tt))) λ hash.
            let out = record r { sweep_tx_hash = some (to_hex hash) } in
            let o : IsOut a out (to_hex hash) = record {
              is_for = record {
                same_beneficiary = f.is_for.same_beneficiary;
                same_chain = f.is_for.same_chain;
                same_amount = f.is_for.same_amount;
              };
              has_hash = refl;
              token = token;
              tx = tx;
            } in
            step
              (Keeps-save _ out (λ log k. record {
                hash_backed = λ h e. out-HashBacked a out (to_hex hash) o log h k e;
                swept_backed = λ e. cc (f.not_swept);
              }))
              λ _. Triple-pure (out, to_hex hash) (λ s h. (o, h))

  credit_failed-Safely :
      (id : Text) (es : List Event) (e : Exn)
      → Triple (Knows es) (credit_failed id e) (λ _. Knows es) (λ e. IsSafe)
  credit_failed-Safely id es e =
      Triple-if (is_exception e) _ _ (λ _. Triple-throw _ (λ s h. h.safe))
        (λ _. Triple-throw _ (λ s h. h.safe))

  credit_and_close-Safely :
      (a : SweepArgs) (r : SweepRecord) (es : List Event)
      → ((log : List Event) → HasAll es log → Backed a.beneficiary a.amount log)
      → Safely es (credit_and_close env configs a r) (λ _. IsSafe)
  unfolding credit_and_close
  credit_and_close-Safely a r es backed =
      Triple-bind _ _
        (Triple-try _ _ (idempotent_credit-Steady env rely configs es _ _ _ _ backed)
          (credit_failed-Safely r.deposit_id_hex es))
        λ _.
          Triple-weaken _ (Keeps-delete es r.deposit_id_hex) (λ s h. h) (λ x s h. h.safe)
            (λ e s h. h.safe)

  confirm_sweep-Safely :
      (a : SweepArgs) (r : SweepRecord) (hash : Text) (o : IsOut a r hash)
      → Safely
          (out_events a r hash o)
          (confirm_sweep env configs a hash r)
          (λ _. Knows (mined a.chain_id hash 1 ∷ out_events a r hash o))
  unfolding confirm_sweep
  confirm_sweep-Safely a r hash o =
      step (wait_for_receipt-Keeps env rely a.chain_id hash _) λ status.
        raise_if-Safely _ _ _ _ λ e. rw ((==_iff status 1).0 (not-false e)) (
          step (Keeps-web3 env rely _ _) λ _.
            step
              (Keeps-save _ (record r { state = swept })
                (λ log k. swept-RecordBacked a r hash o log k))
              λ _. safely (Keeps-pure _ _))

  -- What both sweeps do once the balance is found to suffice.
  sweep_tail-Safely :
      (a : SweepArgs) (token : Option Text) (limit : ℕ) (erc20 : Bool)
      → Safely []
          (get_safe_gas_price env configs a.chain_id >>= λ gas_price.
            open_record env configs a token >>= λ opened.
            fund_gas env configs a gas_price limit erc20 opened >>= λ funded.
            send_sweep env configs a token funded >>= λ out.
            confirm_sweep env configs a out.1 out.0 >>= λ done. credit_and_close env configs a done)
          (λ _. IsSafe)
  sweep_tail-Safely a token limit erc20 =
      step (get_safe_gas_price-Steady env rely configs [] _) λ price.
        Triple-bind _ _ (open_record-Safely a token) λ opened. Triple-intro _ λ f.
          Triple-bind _ _ (fund_gas-Safely a price limit erc20 opened f) λ funded.
            Triple-intro _ λ g. Triple-bind _ _ (send_sweep-Safely a token funded g) λ out.
              Triple-intro _ λ o.
                Triple-bind _ _ (confirm_sweep-Safely a out.0 out.1 o)
                  λ done. credit_and_close-Safely a done _ (out-Backed a out.0 out.1 o)

  pub sweep_native-Safely : (a : SweepArgs) → Safely [] (sweep_native env configs a) (λ _. IsSafe)
  unfolding sweep_native
  sweep_native-Safely a = step (Keeps-await env rely [] _) λ _. step (Keeps-web3 env rely [] _) λ _.
      step (Keeps-await env rely [] _) λ balance.
        step (check_balance-Steady env rely configs [] a balance) λ go.
          Triple-if go _ _ (λ _. sweep_tail-Safely a none _ false)
            (λ _. Triple-pure tt (λ s h. h.safe))

  pub sweep_erc20-Safely :
      (a : SweepArgs) (token : Text) → Safely [] (sweep_erc20 env configs a token) (λ _. IsSafe)
  unfolding sweep_erc20
  sweep_erc20-Safely a token = step (Keeps-await env rely [] _) λ _.
      step (Keeps-web3 env rely [] _) λ _. step (Keeps-await env rely [] _) λ balance.
        step (check_balance-Steady env rely configs [] a balance) λ go.
          Triple-if go _ _ (λ _. sweep_tail-Safely a (some token) _ true)
            (λ _. Triple-pure tt (λ s h. h.safe))
