-- ===== src/Sweep/Receipt/Waiting.antt =====
-- `_wait_for_receipt` ends: with a receipt that the node gave, or with an exception of the program.
use privana.Prelude.{
  ℕ, zero, suc, ◌+◌, ◌*◌, ◌≤◌, ◌≡◌, ◌≢◌, true, Option, none, some, List, arith, ◌<◌, refl, ap, ◌∙◌,
  ◌⊎◌, inl, inr, ltb,
}
use privana.Text.{Text}
use privana.Effect.{
  Exn, Outcome, ok, raise, M, fuel_out, value_error, connection_error, timeout_error, os_error,
  not_found, other_error, reverted, credit_pending, cancelled, ◌>>=◌,
}
use privana.Effect.Hoare.{
  Post, Triple, Triple-bind, Triple-if, Triple-pure, Triple-throw, Triple-try, Triple-gets,
  Triple-weaken,
}
use privana.Sweep.World.{Engine, Env, Event, call, await}
use privana.Sweep.Receipt.{
  poll, poll_failed, receipt_events, settle_poll, wait_rounds, wait_for_receipt, timeout_rounds,
}

-- The clock never runs backwards, a sleep takes its two seconds, the other tasks only let time
-- pass, and a node raises exceptions of the program only.
pub record IsTimely (env : Env) : Type 0 where
  pub forward : (t u : ℕ) → t ≤ u → env.now t ≤ env.now u
  pub sleeps : (t : ℕ) → env.sleep t ≡ ok tt → env.now t + 2 ≤ env.now (suc t)
  pub ticks : (t : ℕ) (s : Engine) → s.tick ≤ (env.others t s).tick
  pub sleep_ends : (t : ℕ) → env.sleep t ≢ raise fuel_out
  pub node_ends :
      (t chain : ℕ) (hash : Text) → env.transaction_receipt t chain hash ≢ raise fuel_out

module _ (env : Env) (timely : IsTimely env) (chain : ℕ) (hash : Text) where
  abbrev IsLate : ℕ → Engine → Type 0
  IsLate now s = now ≤ env.now s.tick

  abbrev IsProper : Exn → Engine → Type 0
  IsProper e s = e ≢ fuel_out

  -- The node gave a receipt with this status.
  abbrev pub IsReceipt : ℕ → Type 0
  IsReceipt status = (t : ℕ) × (env.transaction_receipt t chain hash ≡ ok (some status))

  abbrev IsPolled : Option ℕ → Type 0
  IsPolled none = Unit
  IsPolled (some status) = IsReceipt status

  -- The tick that the other tasks leave is past that of the call.
  passes :
      (s : Engine) (l : List Event)
      → env.now (suc s.tick)
        ≤ env.now (env.others s.tick (record s { tick = suc s.tick; log = l })).tick
  passes s l = timely.forward _ _ (timely.ticks s.tick (record s { tick = suc s.tick; log = l }))

  after_sleep :
      (now : ℕ) (s : Engine) (r : Outcome (Unit {0})) (l : List Event)
      → env.sleep s.tick ≡ r
      → IsLate now s
      → Post
          (λ _. IsLate (now + 2))
          IsProper
          r
          (env.others s.tick (record s { tick = suc s.tick; log = l }))
  after_sleep now s (ok x) l e late = omega (arith, late, timely.sleeps s.tick e, passes s l)
  after_sleep now s (raise x) l e late = λ p. timely.sleep_ends s.tick (e ∙ ap raise p)

  sleep-Triple :
      (now : ℕ) → Triple (IsLate now) (await env env.sleep) (λ _. IsLate (now + 2)) IsProper
  unfolding await call
  sleep-Triple now = record { at = λ s late. after_sleep now s (env.sleep s.tick) _ refl late }

  after_poll :
      (now : ℕ) (s : Engine) (r : Outcome (Option ℕ)) (l : List Event)
      → env.transaction_receipt s.tick chain hash ≡ r
      → IsLate now s
      → Post
          (λ o s. IsPolled o × IsLate now s)
          (λ e s. IsProper e s × IsLate now s)
          r
          (env.others s.tick (record s { tick = suc s.tick; log = l }))
  after_poll now s (ok none) l e late =
      (tt, omega (arith, late, timely.forward s.tick (suc s.tick) (omega arith), passes s l))
  after_poll now s (ok (some status)) l e late = (
    (s.tick, e),
    omega (arith, late, timely.forward s.tick (suc s.tick) (omega arith), passes s l),
  )
  after_poll now s (raise x) l e late = (
    λ p. timely.node_ends s.tick chain hash (e ∙ ap raise p),
    omega (arith, late, timely.forward s.tick (suc s.tick) (omega arith), passes s l),
  )

  call-Triple :
      (now : ℕ)
      → Triple
          (IsLate now)
          (call env (λ t. env.transaction_receipt t chain hash) (receipt_events chain hash))
          (λ o s. IsPolled o × IsLate now s)
          (λ e s. IsProper e s × IsLate now s)
  unfolding call
  call-Triple now = record {
    at = λ s late. after_poll now s (env.transaction_receipt s.tick chain hash) _ refl late;
  }

  poll_failed-Triple :
      (now : ℕ) (e : Exn)
      → Triple
          (λ s. IsProper e s × IsLate now s)
          (poll_failed e)
          (λ o s. IsPolled o × IsLate now s)
          IsProper
  poll_failed-Triple now (value_error m) = Triple-pure none (λ s h. (tt, h.1))
  poll_failed-Triple now (connection_error m) = Triple-pure none (λ s h. (tt, h.1))
  poll_failed-Triple now (timeout_error m) = Triple-pure none (λ s h. (tt, h.1))
  poll_failed-Triple now (os_error m) = Triple-pure none (λ s h. (tt, h.1))
  poll_failed-Triple now (not_found m) = Triple-pure none (λ s h. (tt, h.1))
  poll_failed-Triple now (other_error m) = Triple-throw _ (λ s h. h.0)
  poll_failed-Triple now (reverted n m) = Triple-throw _ (λ s h. h.0)
  poll_failed-Triple now (credit_pending m) = Triple-throw _ (λ s h. h.0)
  poll_failed-Triple now cancelled = Triple-throw _ (λ s h. h.0)
  poll_failed-Triple now fuel_out = Triple-throw _ (λ s h. h.0)

  poll-Triple :
      (now : ℕ)
      → Triple (IsLate now) (poll env chain hash) (λ o s. IsPolled o × IsLate now s) IsProper
  unfolding poll
  poll-Triple now = Triple-try _ _ (call-Triple now) (poll_failed-Triple now)

  -- The rounds that are left carry the clock past the deadline.
  abbrev IsEnough : ℕ → ℕ → Engine → Type 0
  IsEnough n deadline s = (1 ≤ n) × (deadline + 2 ≤ env.now s.tick + 2 * n)

  settle_poll-Triple :
      (n deadline now : ℕ) (rest : M Engine ℕ) (o : Option ℕ)
      → now < deadline
      → deadline + 2 ≤ now + 2 * suc n
      → Triple (IsEnough n deadline) rest (λ status s. IsReceipt status) IsProper
      → Triple
          (λ s. IsPolled o × IsLate now s)
          (settle_poll env chain hash rest o)
          (λ status s. IsReceipt status)
          IsProper
  settle_poll-Triple n deadline now rest (some status) early enough k =
      Triple-pure status (λ s h. h.0)
  settle_poll-Triple n deadline now rest none early enough k =
      Triple-bind _ _
        (Triple-weaken _ (sleep-Triple now) (λ s h. h.1)
          (λ x s h. (omega (arith, early, enough), omega (arith, early, enough, h))) (λ e s h. h))
        (λ _. k)

  timeout_differs : (m : Text) → timeout_error m ≢ fuel_out
  timeout_differs m p = cc

  -- A fact that every state of the precondition gives may be used to choose the proof.
  Triple-given :
      {F : Type 0} {P : Engine → Type 0} (m : M Engine ℕ)
      → ((s : Engine) → P s → F)
      → (F → Triple P m (λ status s. IsReceipt status) IsProper)
      → Triple P m (λ status s. IsReceipt status) IsProper
  Triple-given m h k = record { at = λ s p. (k (h s p)).at s p }

  -- One round that begins at a time before the deadline.
  round-Triple :
      (n deadline now : ℕ) (rest : M Engine ℕ)
      → ltb now deadline ≡ true
      → Triple (IsEnough n deadline) rest (λ status s. IsReceipt status) IsProper
      → Triple
          (λ s. (now ≡ env.now s.tick) × IsEnough (suc n) deadline s)
          (poll env chain hash >>= settle_poll env chain hash rest)
          (λ status s. IsReceipt status)
          IsProper
  round-Triple n deadline now rest early k =
      Triple-given {F = deadline + 2 ≤ now + 2 * suc n} _ (λ s h. omega (arith, h.0, h.1.1))
        λ enough.
          Triple-bind _ _
            (Triple-weaken _ (poll-Triple now) (λ s h. omega (arith, h.0)) (λ o s h. h)
              (λ e s h. h))
            (λ o. settle_poll-Triple n deadline now rest o (ground (arith, early)) enough k)

  wait_rounds-Triple :
      (n deadline : ℕ)
      → Triple
          (IsEnough n deadline)
          (wait_rounds env chain hash n deadline)
          (λ status s. IsReceipt status)
          IsProper
  unfolding wait_rounds
  wait_rounds-Triple zero deadline = Triple-throw _ (λ s h. ground (arith, h.0))
  wait_rounds-Triple (suc n) deadline =
      Triple-bind {R = λ now s. (now ≡ env.now s.tick) × IsEnough (suc n) deadline s} _ _
        (Triple-gets _ (λ s h. (refl, h)))
        λ now.
          Triple-if (ltb now deadline) _ _
            (λ early. round-Triple n deadline now _ early (wait_rounds-Triple n deadline))
            (λ late. Triple-throw _ (λ s h. timeout_differs _))

  wait-Triple :
      Triple (λ s. Unit) (wait_for_receipt env chain hash) (λ status s. IsReceipt status) IsProper
  unfolding wait_for_receipt
  wait-Triple =
      Triple-bind {R = λ start s. start ≡ env.now s.tick} _ _ (Triple-gets _ (λ s h. refl)) λ start.
        Triple-weaken _ (wait_rounds-Triple timeout_rounds (start + 120))
          (λ s h. (omega arith, omega (arith, h))) (λ n s h. h) (λ e s h. h)

  -- If the clock never runs backwards and every sleep takes its two seconds, then the rounds of
  -- the model are enough: `_wait_for_receipt` returns only a status that the node gave for the
  -- transaction on its chain, or raises an exception of the program; it never runs out of rounds.
  pub wait_for_receipt_ends :
      (s : Engine)
      → ((status : ℕ) × (((wait_for_receipt env chain hash s).0 ≡ ok status)
            × ((t : ℕ) × (env.transaction_receipt t chain hash ≡ ok (some status)))))
        ⊎ ((e : Exn) × (((wait_for_receipt env chain hash s).0 ≡ raise e) × (e ≢ fuel_out)))
  wait_for_receipt_ends s = ends (wait_for_receipt env chain hash s).0 _ refl (wait-Triple.at s tt)
    where
      ends :
          (r : Outcome ℕ) (s' : Engine)
          → (wait_for_receipt env chain hash s).0 ≡ r
          → Post (λ status s. IsReceipt status) IsProper r s'
          → ((status : ℕ) × (((wait_for_receipt env chain hash s).0 ≡ ok status)
                × IsReceipt status))
            ⊎ ((e : Exn) × (((wait_for_receipt env chain hash s).0 ≡ raise e) × (e ≢ fuel_out)))
      ends (ok n) s' e h = inl (n, (e, h))
      ends (raise x) s' e h = inr (x, (e, h))
