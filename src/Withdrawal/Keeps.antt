-- ===== src/Withdrawal/Keeps.antt =====
-- src/services/withdrawal_processor.py: what the calls and the search of a payment leave as it was, for any
-- property that the tick and the gate's notes do not change.
use privana.Prelude.{
  ℕ, zero, suc, ◌≡◌, refl, Bool, true, false, Option, none, some, List, [], ◌∷◌, ◌==◌,
  if◌then◌else◌,
}
use privana.Text.{Text}
use privana.Text.Hex.{Bytes, to_hex}
use privana.Effect.{
  Exn, Outcome, ok, raise, M, pure, throw, gets, lift, modify, ◌>>=◌, try_except, is_exception,
}
use privana.Effect.Hoare.{
  Post, Triple, Triple-bind, Triple-if, Triple-pure, Triple-throw, Triple-lift, Triple-weaken,
  Triple-try, Triple-modify, Triple-gets,
}
use privana.Withdrawal.{
  Processor, Chains, set_mark, set_hash, or_absent, candidates, otherwise, ask, attempts, limited,
  destination, fetch_receipt, settled, search, report_pending, unsettled, find_broadcast_tx,
  wait_resolved, ensure_resolved, is_proven, broadcast, pay, resolve_and_broadcast,
}
use privana.Withdrawal.Gate.{Feeds, set_reported, track_stuck_nonce}

module _ (I : Processor → Type 0) where
  -- The method keeps a property of the processor, also where it raises.
  abbrev pub Keeps : {A : Type 0} → M Processor A → Type 0
  Keeps m = Triple I m (λ _. I) (λ _. I)

  module _ {A B : Type 0} where
    pub Keeps-bind :
        (m : M Processor A) (f : A → M Processor B)
        → Keeps m
        → ((a : A) → Keeps (f a))
        → Keeps (m >>= f)
    Keeps-bind m f k kf = Triple-bind m f k kf

  module _ {A : Type 0} where
    pub Keeps-pure : (a : A) → Keeps (pure a)
    Keeps-pure a = Triple-pure a (λ s h. h)

    pub Keeps-throw : (e : Exn) → Keeps (throw {A = A} e)
    Keeps-throw e = Triple-throw e (λ s h. h)

    pub Keeps-lift : (r : Outcome A) → Keeps (lift r)
    Keeps-lift r = Triple-lift r (λ a e s h. h) (λ e x s h. h)

    pub Keeps-gets : (f : Processor → A) → Keeps (gets f)
    Keeps-gets f = Triple-gets f (λ s h. h)

    pub Keeps-if : (b : Bool) (m n : M Processor A) → Keeps m → Keeps n → Keeps (if b then m else n)
    Keeps-if b m n km kn = Triple-if b m n (λ _. km) (λ _. kn)

    pub Keeps-try :
        (m : M Processor A) (h : Exn → M Processor A)
        → Keeps m
        → ((e : Exn) → Keeps (h e))
        → Keeps (try_except m h)
    Keeps-try m h km kh = Triple-try m h km kh

    pub Keeps-otherwise : (a : A) (e : Exn) → Keeps (otherwise a e)
    Keeps-otherwise a e = Keeps-if (is_exception e) _ _ (Keeps-pure a) (Keeps-throw e)

  pub Keeps-modify :
      (f : Processor → Processor) → ((s : Processor) → I s → I (f s)) → Keeps (modify f)
  Keeps-modify f h = Triple-modify f h

-- A property that the tick and the notes of the gate do not change, where an address is noted only as
-- the contract gave it.
pub record IsQuiet (feeds : Feeds) (I : Processor → Type 0) : Type 0 where
  pub ticks : (s : Processor) → I s → I (record s { tick = suc s.tick })
  pub notes_address :
      (s : Processor) (t : ℕ) (a : Text)
      → feeds.evm_address t ≡ ok a
      → I s
      → I (record s { evm_address = some a })
  pub notes_report : (s : Processor) (k : ℕ) (b : Bool) → I s → I (set_reported k b s)
  pub notes_stuck : (s : Processor) (k n p l : ℕ) → I s → I (track_stuck_nonce k n p l s)

module _ (env : Chains) (feeds : Feeds) (I : Processor → Type 0) (quiet : IsQuiet feeds I) where
  module _ {A : Type 0} (answer : ℕ → Outcome A) where
    abbrev pub Answered : A → Processor → Type 0
    Answered a s = I s × ((t : ℕ) × (answer t ≡ ok a))

    after :
        (t : ℕ) (r : Outcome A) (s : Processor) → answer t ≡ r → I s → Post Answered (λ _. I) r s
    after t (ok a) s e h = (h, (t, e))
    after t (raise x) s e h = h

    ask-Answered : Triple I (ask env answer) Answered (λ _. I)
    unfolding ask
    ask-Answered = record { at = λ s h. after s.tick (answer s.tick) _ refl (quiet.ticks s h) }

    pub ask-Keeps : Keeps I (ask env answer)
    ask-Keeps = Triple-weaken _ ask-Answered (λ s h. h) (λ a s h. h.0) (λ e s h. h)

  module _ {A : Type 0} (answer : ℕ → Outcome A) where
    attempts-Answered : (n : ℕ) → Triple I (attempts env n answer) (Answered answer) (λ _. I)
    unfolding attempts
    attempts-Answered zero = ask-Answered answer
    attempts-Answered (suc n) = Triple-try _ _ (ask-Answered answer) λ e.
        Triple-if (is_exception e) _ _
          (λ x. Triple-bind _ _ (ask-Keeps env.sleep) (λ _. attempts-Answered n))
          (λ x. Triple-throw e (λ s h. h))

    pub limited-Answered : Triple I (limited env answer) (Answered answer) (λ _. I)
    limited-Answered = attempts-Answered 4

    pub limited-Keeps : Keeps I (limited env answer)
    limited-Keeps = Triple-weaken _ limited-Answered (λ s h. h) (λ a s h. h.0) (λ e s h. h)

  pub destination-Keeps : (k : ℕ) → Keeps I (destination env k)
  unfolding destination
  destination-Keeps k =
      Keeps-bind I _ _ (Keeps-gets I _)
        λ served. Keeps-if I served _ _ (Keeps-pure I tt) (Keeps-throw I _)

  fetch_receipt-Keeps : (k : ℕ) (hash : Text) → Keeps I (fetch_receipt env k hash)
  unfolding fetch_receipt
  fetch_receipt-Keeps k hash = Keeps-bind I _ _ (destination-Keeps k) λ _.
      Keeps-try I _ _ (limited-Keeps (λ t. or_absent (env.transaction_receipt t k hash)))
        (Keeps-otherwise I none)

  settled-Keeps :
      (hash : Text) (rest : M Processor (Option (Option Text))) (o : Option ℕ)
      → Keeps I rest
      → Keeps I (settled env hash rest o)
  settled-Keeps hash rest none k = k
  settled-Keeps hash rest (some status) k =
      Keeps-if I (status == 1) _ _ (Keeps-pure I _) (Keeps-pure I _)

  search-Keeps : (k : ℕ) (hashes : List Text) → Keeps I (search env k hashes)
  unfolding search
  search-Keeps k [] = Keeps-pure I none
  search-Keeps k (hash ∷ hashes) =
      Keeps-bind I _ _ (fetch_receipt-Keeps k hash)
        (λ o. settled-Keeps hash _ o (search-Keeps k hashes))

  report_pending-Keeps : (k : ℕ) (hash : Text) → Keeps I (report_pending env k hash)
  unfolding report_pending
  report_pending-Keeps k hash = Keeps-bind I _ _ (destination-Keeps k) λ _.
      Keeps-try I _ _
        (Keeps-bind I _ _ (limited-Keeps (λ t. or_absent (env.transaction t k hash)))
          (λ _. Keeps-pure I tt))
        (Keeps-otherwise I tt)

  unsettled-Keeps :
      (k : ℕ) (expected : Text) (o : Option (Option Text)) → Keeps I (unsettled env k expected o)
  unsettled-Keeps k expected (some found) = Keeps-pure I found
  unsettled-Keeps k expected none =
      Keeps-bind I _ _ (report_pending-Keeps k expected) (λ _. Keeps-pure I none)

  find_broadcast_tx-Keeps :
      (k index : ℕ) (signed : Bytes) → Keeps I (find_broadcast_tx env k index signed)
  unfolding find_broadcast_tx
  find_broadcast_tx-Keeps k index signed = Keeps-bind I _ _ (Keeps-gets I _) λ r.
      Keeps-bind I _ _ (search-Keeps k (candidates r (to_hex (env.keccak signed))))
        (unsettled-Keeps k _)

  wait_resolved-Keeps : (n index : ℕ) → Keeps I (wait_resolved env n index)
  unfolding wait_resolved
  wait_resolved-Keeps zero index = Keeps-pure I false
  wait_resolved-Keeps (suc n) index = Keeps-bind I _ _ (ask-Keeps env.sleep) λ _.
      Keeps-bind I _ _ (limited-Keeps (λ t. env.is_resolved t index))
        λ done. Keeps-if I done _ _ (Keeps-pure I true) (wait_resolved-Keeps n index)

  ensure_resolved-Keeps : (index : ℕ) → Keeps I (ensure_resolved env index)
  unfolding ensure_resolved
  ensure_resolved-Keeps index =
      Keeps-bind I _ _ (limited-Keeps (λ t. env.is_resolved t index)) λ done.
        Keeps-if I done _ _ (Keeps-pure I true) (
          Keeps-bind I _ _ (limited-Keeps (λ t. env.resolve_withdrawal t index))
            λ _. wait_resolved-Keeps env.resolution_timeout index)

  is_proven-Keeps : (o : Option Text) → Keeps I (is_proven env o)
  is_proven-Keeps none = Keeps-pure I false
  is_proven-Keeps (some hash) = Keeps-pure I true

  module _ (k : ℕ)
      (hashes_kept : (s : Processor) (index : ℕ) (hash : Text) → I s → I (set_hash k index hash s))
      (marks_kept : (s : Processor) (index : ℕ) → I s → I (set_mark k index s)) where
    pub broadcast-Keeps : (index : ℕ) (signed : Bytes) → Keeps I (broadcast env k index signed)
    unfolding broadcast
    broadcast-Keeps index signed =
        Keeps-try I _ _
          (Keeps-bind I _ _ (limited-Keeps (λ t. env.send_raw_transaction t k signed)) λ hash.
            Keeps-bind I _ _ (Keeps-modify I _ (λ s h. hashes_kept s index (to_hex hash) h))
              (λ _. Keeps-pure I true))
          (λ e.
            Keeps-if I (is_exception e) _ _
              (Keeps-bind I _ _ (find_broadcast_tx-Keeps k index signed) is_proven-Keeps)
              (Keeps-throw I e))

    pub resolve_and_broadcast-Keeps : (index : ℕ) → Keeps I (resolve_and_broadcast env k index)
    unfolding resolve_and_broadcast pay
    resolve_and_broadcast-Keeps index = Keeps-if I (k == 0) _ _ (Keeps-pure I true) (
        Keeps-try I _ _
          (Keeps-bind I _ _ (ensure_resolved-Keeps index) λ resolved.
            Keeps-if I resolved _ _
              (Keeps-bind I _ _ (limited-Keeps (λ t. env.signed_tx t index)) λ signed.
                Keeps-bind I _ _ (broadcast-Keeps index signed) λ paid.
                  Keeps-if I paid _ _
                    (Keeps-bind I _ _ (Keeps-modify I _ (λ s h. marks_kept s index h))
                      (λ _. Keeps-pure I true))
                    (Keeps-pure I false))
              (Keeps-pure I false))
          (Keeps-otherwise I false))
