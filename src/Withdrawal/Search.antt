-- ===== src/Withdrawal/Search.antt =====
-- src/services/withdrawal_processor.py: what the calls and the search of a payment leave as it was, and
-- what a hash that the search finds proves.
use privana.Prelude.{
  ℕ, zero, suc, ◌≡◌, refl, ◌⊎◌, inl, inr, Option, none, some, List, [], ◌∷◌, Has, ◌==◌, ==_iff,
}
use privana.Text.{Text}
use privana.Text.Hex.{Bytes, to_hex}
use privana.Effect.{Exn, Outcome, ok, raise, M, is_exception, not_found}
use privana.Effect.Hoare.{
  Post, Triple, Triple-bind, Triple-if, Triple-pure, Triple-throw, Triple-try, Triple-gets,
  Triple-weaken,
}
use privana.Withdrawal.{
  Processor, Chains, or_absent, candidates, otherwise, ask, attempts, limited, destination,
  fetch_receipt, settled, search, report_pending, unsettled, find_broadcast_tx,
}

module _ (env : Chains) (chain index : ℕ) (marks : ℕ → Option ℕ) (remembered : Option Text) where
  -- The marks, and what is remembered of the withdrawal, are as they were.
  abbrev pub IsKept : Processor → Type 0
  IsKept s = (s.chain_high_water_mark ≡ marks) × (s.last_broadcast_hash chain index ≡ remembered)

  abbrev pub EndsKept : Exn → Processor → Type 0
  EndsKept e s = IsKept s

  -- The chain has a successful receipt for a hash.
  abbrev pub IsMined : Text → Type 0
  IsMined hash = (t : ℕ) × (env.transaction_receipt t chain hash ≡ ok 1)

  -- The node took the signed bytes, or has a successful receipt for them or for the bytes sent before.
  abbrev pub IsPaid : Bytes → Type 0
  IsPaid signed =
      ((t : ℕ) × ((hash : Bytes) × (env.send_raw_transaction t chain signed ≡ ok hash)))
      ⊎ ((hash : Text) × (Has hash (candidates remembered (to_hex (env.keccak signed)))
            × IsMined hash))

  module _ {A : Type 0} (answer : ℕ → Outcome A) where
    abbrev IsAnswered : A → Processor → Type 0
    IsAnswered a s = IsKept s × ((t : ℕ) × (answer t ≡ ok a))

    after_ask :
        (t : ℕ) (r : Outcome A) (s : Processor)
        → answer t ≡ r
        → IsKept s
        → Post IsAnswered EndsKept r s
    after_ask t (ok a) s e h = (h, (t, e))
    after_ask t (raise x) s e h = h

    ask-Triple : Triple IsKept (ask env answer) IsAnswered EndsKept
    unfolding ask
    ask-Triple = record { at = λ s h. after_ask s.tick (answer s.tick) _ refl h }

  pub sleep-Triple : Triple IsKept (ask env env.sleep) (λ _. IsKept) EndsKept
  sleep-Triple = Triple-weaken _ (ask-Triple env.sleep) (λ s h. h) (λ a s h. h.0) (λ e s h. h)

  module _ {A : Type 0} (answer : ℕ → Outcome A) where
    attempts-Triple : (n : ℕ) → Triple IsKept (attempts env n answer) (IsAnswered answer) EndsKept
    unfolding attempts
    attempts-Triple zero = ask-Triple answer
    attempts-Triple (suc n) = Triple-try _ _ (ask-Triple answer) λ e.
        Triple-if (is_exception e) _ _ (λ x. Triple-bind _ _ sleep-Triple (λ _. attempts-Triple n))
          (λ x. Triple-throw e (λ s h. h))

    pub limited-Triple : Triple IsKept (limited env answer) (IsAnswered answer) EndsKept
    limited-Triple = attempts-Triple 4

  -- A fact that every state of the precondition gives may be used to choose the proof.
  pub Triple-given :
      {F A : Type 0} {P : Processor → Type 0} {R : A → Processor → Type 0}
      {E : Exn → Processor → Type 0} (m : M Processor A)
      → ((s : Processor) → P s → F)
      → (F → Triple P m R E)
      → Triple P m R E
  Triple-given m h k = record { at = λ s p. (k (h s p)).at s p }

  destination-Triple : Triple IsKept (destination env chain) (λ _. IsKept) EndsKept
  unfolding destination
  destination-Triple = Triple-bind _ _ (Triple-gets _ (λ s h. h)) λ served.
      Triple-if served _ _ (λ e. Triple-pure tt (λ s h. h)) (λ e. Triple-throw _ (λ s h. h))

  otherwise-Triple :
      {A : Type 0} (a : A) (F : A → Type 0) (e : Exn)
      → F a
      → Triple IsKept (otherwise a e) (λ a s. IsKept s × F a) EndsKept
  otherwise-Triple a F e f =
      Triple-if (is_exception e) _ _ (λ x. Triple-pure a (λ s h. (h, f)))
        (λ x. Triple-throw e (λ s h. h))

  -- What a receipt says, if one is found.
  abbrev IsFetched : Text → Option ℕ → Type 0
  IsFetched hash none = Unit
  IsFetched hash (some status) = (t : ℕ) × (env.transaction_receipt t chain hash ≡ ok status)

  or_absent-some : {A : Type 0} (r : Outcome A) (a : A) → or_absent r ≡ ok (some a) → r ≡ ok a
  or_absent-some (ok b) a h = cc
  or_absent-some (raise (not_found m)) a h = cc
  or_absent-some (raise _) a h = cc

  fetched :
      (hash : Text) (o : Option ℕ) (t : ℕ)
      → or_absent (env.transaction_receipt t chain hash) ≡ ok o
      → IsFetched hash o
  fetched hash none t h = tt
  fetched hash (some status) t h = (t, or_absent-some _ status h)

  fetch_receipt-Triple :
      (hash : Text)
      → Triple IsKept (fetch_receipt env chain hash) (λ o s. IsKept s × IsFetched hash o) EndsKept
  unfolding fetch_receipt
  fetch_receipt-Triple hash = Triple-bind _ _ destination-Triple λ _.
      Triple-try _ _
        (Triple-weaken _ (limited-Triple (λ t. or_absent (env.transaction_receipt t chain hash)))
          (λ s h. h) (λ o s h. (h.0, fetched hash o h.1.0 h.1.1)) (λ e s h. h))
        (λ e. otherwise-Triple none (IsFetched hash) e tt)

  -- The search finds nothing but a mined candidate.
  abbrev IsFound : List Text → Option (Option Text) → Type 0
  IsFound hashes none = Unit
  IsFound hashes (some none) = Unit
  IsFound hashes (some (some hash)) = Has hash hashes × IsMined hash

  IsFound-later :
      (hash : Text) (hashes : List Text) (o : Option (Option Text))
      → IsFound hashes o
      → IsFound (hash ∷ hashes) o
  IsFound-later hash hashes none h = tt
  IsFound-later hash hashes (some none) h = tt
  IsFound-later hash hashes (some (some x)) h = (inr h.0, h.1)

  settled-Triple :
      (hash : Text) (hashes : List Text) (rest : M Processor (Option (Option Text))) (o : Option ℕ)
      → Triple IsKept rest (λ o s. IsKept s × IsFound hashes o) EndsKept
      → Triple
          (λ s. IsKept s × IsFetched hash o)
          (settled env hash rest o)
          (λ o s. IsKept s × IsFound (hash ∷ hashes) o)
          EndsKept
  settled-Triple hash hashes rest none k =
      Triple-weaken _ k (λ s h. h.0) (λ o s h. (h.0, IsFound-later hash hashes o h.1)) (λ e s h. h)
  settled-Triple hash hashes rest (some status) k =
      Triple-if (status == 1) _ _
        (λ one.
          Triple-pure _ (λ s h. (h.0, (inl refl, (h.1.0, rw ((==_iff status 1).0 one) at h.1.1)))))
        (λ other. Triple-pure _ (λ s h. (h.0, tt)))

  search-Triple :
      (hashes : List Text)
      → Triple IsKept (search env chain hashes) (λ o s. IsKept s × IsFound hashes o) EndsKept
  unfolding search
  search-Triple [] = Triple-pure _ (λ s h. (h, tt))
  search-Triple (hash ∷ hashes) =
      Triple-bind _ _ (fetch_receipt-Triple hash)
        (λ o. settled-Triple hash hashes _ o (search-Triple hashes))

  report_pending-Triple :
      (hash : Text) → Triple IsKept (report_pending env chain hash) (λ _. IsKept) EndsKept
  unfolding report_pending
  report_pending-Triple hash = Triple-bind _ _ destination-Triple λ _.
      Triple-weaken _
        (Triple-try _ _
          (Triple-bind _ _ (limited-Triple (λ t. or_absent (env.transaction t chain hash)))
            (λ _. Triple-pure tt (λ s h. (h.0, tt))))
          (λ e. otherwise-Triple tt (λ _. Unit) e tt))
        (λ s h. h) (λ x s h. h.0) (λ e s h. h)

  unfoldable pub IsProof : Bytes → Option Text → Type 0
  IsProof signed none = Unit
  IsProof signed (some hash) = IsPaid signed

  unsettled-Triple :
      (signed : Bytes) (o : Option (Option Text))
      → Triple
          (λ s. IsKept s × IsFound (candidates remembered (to_hex (env.keccak signed))) o)
          (unsettled env chain (to_hex (env.keccak signed)) o)
          (λ o s. IsKept s × IsProof signed o)
          EndsKept
  unfolding IsProof
  unsettled-Triple signed none =
      Triple-bind _ _
        (Triple-weaken _ (report_pending-Triple _) (λ s h. h.0) (λ x s h. h) (λ e s h. h))
        (λ _. Triple-pure none (λ s h. (h, tt)))
  unsettled-Triple signed (some none) = Triple-pure none (λ s h. (h.0, tt))
  unsettled-Triple signed (some (some hash)) =
      Triple-pure (some hash) (λ s h. (h.0, inr (hash, h.1)))

  pub find_broadcast_tx-Triple :
      (signed : Bytes)
      → Triple IsKept
          (find_broadcast_tx env chain index signed)
          (λ o s. IsKept s × IsProof signed o)
          EndsKept
  unfolding find_broadcast_tx
  find_broadcast_tx-Triple signed =
      Triple-bind {R = λ r s. IsKept s × (r ≡ remembered)} _ _ (Triple-gets _ (λ s h. (h, h.1)))
        λ r.
          Triple-given _ (λ s h. h.1)
            λ same.
              Triple-bind _ _
                (Triple-weaken _ (search-Triple (candidates r (to_hex (env.keccak signed))))
                  (λ s h. h.0) (λ o s h. (h.0, rw same at h.1)) (λ e s h. h))
                (unsettled-Triple signed)
