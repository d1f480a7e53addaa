-- ===== src/Withdrawal/Payment.antt =====
-- src/services/withdrawal_processor.py: a withdrawal counts as paid only on proof.
use privana.Prelude.{
  ℕ, zero, suc, ◌≡◌, ◌≢◌, refl, ap, inl, Bool, true, false, Option, none, some, ◌==◌, ==_iff,
}
use privana.Text.{Text}
use privana.Text.Hex.{Bytes}
use privana.Effect.{Exn, Outcome, ok, raise, is_exception}
use privana.Effect.Hoare.{
  Post, Triple, Triple-bind, Triple-if, Triple-pure, Triple-throw, Triple-try, Triple-weaken,
  Triple-modify,
}
use privana.Withdrawal.{
  Processor, Chains, raised_mark, set_mark, wait_resolved, ensure_resolved, is_proven, broadcast,
  pay, resolve_and_broadcast,
}
use privana.Withdrawal.Search.{
  IsKept, EndsKept, sleep-Triple, limited-Triple, find_broadcast_tx-Triple, IsProof, Triple-given,
  IsPaid,
}

module _ (env : Chains) (chain index : ℕ) (marks : ℕ → Option ℕ) (remembered : Option Text) where
  -- The marks are as they were; what is remembered may have changed.
  abbrev IsUnmarked : Processor → Type 0
  IsUnmarked s = s.chain_high_water_mark ≡ marks

  abbrev EndsUnmarked : Exn → Processor → Type 0
  EndsUnmarked e s = IsUnmarked s

  IsDone : Bytes → Bool → Type 0
  IsDone signed true = (IsPaid env chain index marks remembered) signed
  IsDone signed false = Unit

  is_proven-Triple :
      (signed : Bytes) (o : Option Text)
      → Triple
          (λ s.
            (IsKept env chain index marks remembered) s
            × (IsProof env chain index marks remembered) signed o)
          (is_proven env o)
          (λ b s. IsUnmarked s × IsDone signed b)
          EndsUnmarked
  unfolding IsProof IsDone
  is_proven-Triple signed none = Triple-pure false (λ s h. (h.0.0, tt))
  is_proven-Triple signed (some hash) = Triple-pure true (λ s h. (h.0.0, h.1))

  broadcast-Triple :
      (signed : Bytes)
      → Triple
          (IsKept env chain index marks remembered)
          (broadcast env chain index signed)
          (λ b s. IsUnmarked s × IsDone signed b)
          EndsUnmarked
  unfolding broadcast IsDone
  broadcast-Triple signed =
      Triple-try {E' = (EndsKept env chain index marks remembered)} _ _
        (Triple-bind _ _
          ((limited-Triple env chain index marks remembered)
            (λ t. env.send_raw_transaction t chain signed))
          λ hash.
            Triple-bind {R = λ x s. IsUnmarked s × (IsPaid env chain index marks remembered) signed}
              _ _ (Triple-modify _ (λ s h. (h.0.0, inl (h.1.0, (hash, h.1.1)))))
              (λ x. Triple-pure true (λ s h. h)))
        (λ e.
          Triple-if (is_exception e) _ _
            (λ x.
              Triple-bind _ _
                (Triple-weaken _
                  ((find_broadcast_tx-Triple env chain index marks remembered) signed) (λ s h. h)
                  (λ o s h. h) (λ e s h. h.0))
                (is_proven-Triple signed))
            (λ x. Triple-throw e (λ s h. h.0)))

  -- The outcome of a payment, by the value that is returned.
  abbrev IsSettled : Bool → Processor → Type 0
  IsSettled true s =
      (s.chain_high_water_mark chain ≡ some (raised_mark (marks chain) index))
      × ((t : ℕ) × ((signed : Bytes) × ((env.signed_tx t index ≡ ok signed)
              × (IsPaid env chain index marks remembered) signed)))
  IsSettled false s = IsUnmarked s

  marked :
      (s : Processor)
      → IsUnmarked s
      → (set_mark chain index s).chain_high_water_mark chain
        ≡ some (raised_mark (marks chain) index)
  marked s h = rw ((==_iff chain chain).1 refl) (ap (λ m. some (raised_mark (m chain) index)) h)

  pay-Triple :
      Triple (IsKept env chain index marks remembered) (pay env chain index) IsSettled EndsUnmarked
  unfolding pay IsDone
  pay-Triple =
      Triple-bind _ _
        (Triple-weaken _
          ((limited-Triple env chain index marks remembered) (λ t. env.signed_tx t index))
          (λ s h. h) (λ a s h. h) (λ e s h. h.0))
        λ signed.
          (Triple-given env chain index marks remembered) _ (λ s h. h.1)
            λ its.
              Triple-bind _ _
                (Triple-weaken _ (broadcast-Triple signed) (λ s h. h.0) (λ a s h. h) (λ e s h. h))
                λ paid.
                  Triple-if paid _ _
                    (λ yes.
                      Triple-bind {R = λ x s. IsSettled true s} _ _
                        (Triple-modify _ (λ s h.
                          (marked s h.0, (its.0, (signed, (its.1, done paid yes signed h.1))))))
                        (λ x. Triple-pure true (λ s h. h)))
                    (λ no. Triple-pure false (λ s h. h.0))
    where
      done :
          (b : Bool)
          → b ≡ true
          → (signed : Bytes) → IsDone signed b
          → (IsPaid env chain index marks remembered) signed
      done true e signed h = h
      done false e signed h = cc

  wait_resolved-Triple :
      (n : ℕ)
      → Triple
          (IsKept env chain index marks remembered)
          (wait_resolved env n index)
          (λ b. (IsKept env chain index marks remembered))
          (EndsKept env chain index marks remembered)
  unfolding wait_resolved
  wait_resolved-Triple zero = Triple-pure false (λ s h. h)
  wait_resolved-Triple (suc n) =
      Triple-bind _ _ (sleep-Triple env chain index marks remembered) λ _.
        Triple-bind _ _
          ((limited-Triple env chain index marks remembered) (λ t. env.is_resolved t index))
          λ done.
            Triple-if done _ _ (λ e. Triple-pure true (λ s h. h.0))
              (λ e. Triple-weaken _ (wait_resolved-Triple n) (λ s h. h.0) (λ b s h. h) (λ e s h. h))

  ensure_resolved-Triple :
      Triple
        (IsKept env chain index marks remembered)
        (ensure_resolved env index)
        (λ b. (IsKept env chain index marks remembered))
        (EndsKept env chain index marks remembered)
  unfolding ensure_resolved
  ensure_resolved-Triple =
      Triple-bind _ _
        ((limited-Triple env chain index marks remembered) (λ t. env.is_resolved t index))
        λ done.
          Triple-if done _ _ (λ e. Triple-pure true (λ s h. h.0))
            (λ e.
              Triple-bind _ _
                (Triple-weaken _
                  ((limited-Triple env chain index marks remembered)
                    (λ t. env.resolve_withdrawal t index))
                  (λ s h. h.0) (λ x s h. h.0) (λ e s h. h))
                (λ x. wait_resolved-Triple env.resolution_timeout))

  resolve-Triple :
      chain ≢ 0
      → Triple
          (IsKept env chain index marks remembered)
          (resolve_and_broadcast env chain index)
          IsSettled
          EndsUnmarked
  unfolding resolve_and_broadcast
  resolve-Triple known =
      Triple-if (chain == 0) _ _ (λ e. absurd (known ((==_iff chain 0).0 e)))
        (λ e.
          Triple-try {E' = EndsUnmarked} _ _
            (Triple-bind _ _
              (Triple-weaken _ ensure_resolved-Triple (λ s h. h) (λ b s h. h) (λ e s h. h.0))
              λ resolved.
                Triple-if resolved _ _ (λ x. pay-Triple) (λ x. Triple-pure false (λ s h. h.0)))
            (λ e.
              Triple-if (is_exception e) _ _ (λ x. Triple-pure false (λ s h. h))
                (λ x. Triple-throw e (λ s h. h))))

false_differs : ok false ≢ ok true
false_differs p = cc

raise_differs : (e : Exn) → raise e ≢ ok true
raise_differs e p = cc

module _ (env : Chains) (chain index : ℕ) (s : Processor) (known : chain ≢ 0) where
  -- For a withdrawal on a chain with an id: if `_resolve_and_broadcast` returns `True`, then the
  -- chain's mark is raised to its index, and there is proof that the bytes that the contract signed
  -- are paid: the node took them, or it has a receipt of status 1 for their hash or for the hash
  -- that was remembered from an earlier broadcast of this withdrawal. In every other case, the
  -- exceptions included, the marks of all chains stay as they were.
  pub resolve_and_broadcast-IsPaid :
      ((resolve_and_broadcast env chain index s).0 ≡ ok true
        → ((resolve_and_broadcast env chain index s).1.chain_high_water_mark chain
            ≡ some (raised_mark (s.chain_high_water_mark chain) index))
          × ((t : ℕ) × ((signed : Bytes) × ((env.signed_tx t index ≡ ok signed)
                  × IsPaid env chain index s.chain_high_water_mark
                      (s.last_broadcast_hash chain index)
                      signed))))
      × ((resolve_and_broadcast env chain index s).0 ≢ ok true
          → (resolve_and_broadcast env chain index s).1.chain_high_water_mark
            ≡ s.chain_high_water_mark)
  resolve_and_broadcast-IsPaid =
      by_outcome (resolve_and_broadcast env chain index s).0
        (resolve_and_broadcast env chain index s).1
        ((resolve-Triple env chain index s.chain_high_water_mark (s.last_broadcast_hash chain index)
            known).at
          s (refl, refl))
    where
      by_outcome :
          (r : Outcome Bool) (s' : Processor)
          → Post
              (IsSettled env chain index s.chain_high_water_mark
                (s.last_broadcast_hash chain index))
              (EndsUnmarked env chain index s.chain_high_water_mark
                (s.last_broadcast_hash chain index))
              r
              s'
          → (r ≡ ok true
              → IsSettled env chain index s.chain_high_water_mark
                  (s.last_broadcast_hash chain index)
                  true
                  s')
            × (r ≢ ok true → s'.chain_high_water_mark ≡ s.chain_high_water_mark)
      by_outcome (ok true) s' h = (λ e. h, λ n. absurd (n refl))
      by_outcome (ok false) s' h = (λ e. absurd (false_differs e), λ n. h)
      by_outcome (raise x) s' h = (λ e. absurd (raise_differs x e), λ n. h)
