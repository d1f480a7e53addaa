-- ===== src/Sweep/Safety/Recovery.antt =====
-- Reconciliation, resumption and the retry of credits keep the invariant.
use mathlib.Core.Path.{subst}
use privana.Prelude.{ℕ, ◌≡◌, refl, Option, none, some, List, [], ◌∷◌, ◌++◌, Has, ◌==◌, ==_iff}
use privana.Text.{Text}
use privana.Effect.{Exn, Outcome, ok, raise, M, is_exception}
use privana.Effect.Hoare.{
  Post, Triple, Triple-bind, Triple-if, Triple-pure, Triple-throw, Triple-lift, Triple-try,
  Triple-weaken, Triple-modify,
}
use privana.Sweep.Record.{SweepRecord, is_set, is_swept, swept}
use privana.Sweep.World.{Engine, Env, Event, signed, sent, mined}
use privana.Sweep.Store.{save_record, record_path}
use privana.Sweep.Receipt.{receipt_events}
use privana.Sweep.Recovery.{
  lookup_failed, reconcile_receipt, reconcile_status, reconcile_hash, reconcile_sweep_tx,
}
use privana.Sweep.Safety.Invariant.{IsSafe, RecordBacked, RecordBacked-append, Backed, Rely, HasAll}
use privana.Sweep.Safety.Rules.{Knows, Keeps, Keeps-call, Keeps-web3, saved-RecordBacked}
use privana.Sweep.Safety.Stages.{receipt_events-quiet}
use privana.Sweep.Safety.Memory.{Extends, Remembers, Remembers-reconcile_receipt}
use privana.Sweep.Safety.Loading.{AllBacked}

-- The invariant, and each of the records is backed.
abbrev pub Holding : List SweepRecord → Engine → Type 0
Holding rs s = IsSafe s × AllBacked rs s.log

AllBacked-extend :
    (rs : List SweepRecord) (old new : List Event)
    → Extends old new
    → AllBacked rs old
    → AllBacked rs new
AllBacked-extend [] old new x h = tt
AllBacked-extend (r ∷ rs) old new x h =
    (rw x.same (RecordBacked-append r x.added old h.0), AllBacked-extend rs old new x h.1)

-- Records that a method does not touch stay backed across it.
pub frame :
    {A : Type 0} {P : Engine → Type 0} {R : A → Engine → Type 0} {E : Exn → Engine → Type 0}
    (rs : List SweepRecord) (m : M Engine A)
    → Remembers m
    → Triple P m R E
    → Triple
        (λ s. P s × AllBacked rs s.log)
        m
        (λ a s. R a s × AllBacked rs s.log)
        (λ e s. E e s × AllBacked rs s.log)
frame {R} {E} rs m k t = record {
  at = λ s h. go (m s).0 (m s).1 (t.at s h.0) (AllBacked-extend rs s.log _ (k.at s) h.1);
}
  where
    go :
        (r : Outcome _) (s : Engine)
        → Post R E r s
        → AllBacked rs s.log
        → Post (λ a s. R a s × AllBacked rs s.log) (λ e s. E e s × AllBacked rs s.log) r s
    go (ok a) s h b = (h, b)
    go (raise e) s h b = (h, b)

-- A backing in the history is a list of events that back it in any history.
pub from_backing :
    {A : Type 0} {Q : A → Engine → Type 0} {E : Exn → Engine → Type 0} (b : Text) (a : ℕ)
    (m : M Engine A)
    → ((es : List Event)
        → ((log : List Event) → HasAll es log → Backed b a log)
        → Triple (Knows es) m Q E)
    → Triple (λ s. IsSafe s × Backed b a s.log) m Q E
from_backing b a m k = record {
  at = λ s h.
      let w = h.1 in
      (k (signed b w.chain w.token a w.tx ∷ sent w.chain w.tx w.hash ∷ mined w.chain w.hash 1 ∷ [])
          λ log e. record {
            chain = w.chain;
            token = w.token;
            tx = w.tx;
            hash = w.hash;
            was_signed = e.0;
            was_sent = e.1.0;
            was_mined = e.1.1.0;
          }).at
        s (record { safe = h.0; facts = (w.was_signed, (w.was_sent, (w.was_mined, tt))) });
}

-- A backed record may be saved.
pub save-Holding :
    (r : SweepRecord)
    → Triple (Holding (r ∷ [])) (save_record r) (λ _. Holding (r ∷ [])) (λ e. Holding (r ∷ []))
unfolding save_record
save-Holding r =
    Triple-bind _ _ (Triple-lift (record_path r.deposit_id_hex) (λ p e s h. h) (λ p e s h. h))
      λ path. Triple-modify _ λ s h. (
        record {
          records = λ p f x e read. saved-RecordBacked path p r x s h.1.0 h.0 f e read;
          credits = h.0.credits;
        },
        h.1,
      )

-- A record whose transaction was mined with status 1 is backed as SWEPT.
mined-RecordBacked :
    (r : SweepRecord) (hash : Text) (log : List Event)
    → r.sweep_tx_hash ≡ some hash
    → RecordBacked r log
    → Has (mined r.chain_id hash 1) log
    → RecordBacked (record r { state = swept }) log
mined-RecordBacked r hash log e b m =
    let w = b.hash_backed hash e in
    record {
      hash_backed = λ x p.
          let v = b.hash_backed x p in
          record { token = v.token; tx = v.tx; was_signed = v.was_signed; was_sent = v.was_sent };
      swept_backed = λ _. record {
        chain = r.chain_id;
        token = w.token;
        tx = w.tx;
        hash = hash;
        was_signed = w.was_signed;
        was_sent = w.was_sent;
        was_mined = m;
      };
    }

module _ (env : Env) (rely : Rely env) where
  abbrev looked_up : SweepRecord → Text → Option (Option ℕ) → List Event
  looked_up r hash none = []
  looked_up r hash (some o) = receipt_events r.chain_id hash o

  looked_up_nil :
      (r : SweepRecord) (hash : Text) (o : Option ℕ) (s : Engine)
      → Knows (receipt_events r.chain_id hash o ++ []) s
      → Knows (looked_up r hash (some o)) s
  looked_up_nil r hash none s h = h
  looked_up_nil r hash (some n) s h = h

  lookup_failed-Keeps :
      (r : SweepRecord) (hash : Text) (e : Exn) → Keeps [] (lookup_failed e) (looked_up r hash)
  lookup_failed-Keeps r hash e =
      Triple-if (is_exception e) _ _ (λ _. Triple-pure none (λ s h. h))
        (λ _. Triple-throw _ (λ s h. h))

  reconcile_receipt-Keeps :
      (r : SweepRecord) (hash : Text) → Keeps [] (reconcile_receipt env r hash) (looked_up r hash)
  unfolding reconcile_receipt
  reconcile_receipt-Keeps r hash =
      Triple-try _ _
        (Triple-bind _ _ (Keeps-web3 env rely [] _) λ _.
          Triple-bind _ _
            (Keeps-call env rely [] _ _ (receipt_events-quiet env rely r.chain_id hash []))
            λ o.
              Triple-bind _ _
                (Triple-weaken _ (Keeps-web3 env rely (receipt_events r.chain_id hash o ++ []) _)
                  (λ s h. h) (λ a s h. h) (λ e s h. record { safe = h.safe; facts = tt }))
                λ _. Triple-pure (some o) (λ s h. looked_up_nil r hash o s h))
        (lookup_failed-Keeps r hash)

  reconcile_status-Holding :
      (r : SweepRecord) (hash : Text) (o : Option (Option ℕ))
      → r.sweep_tx_hash ≡ some hash
      → Triple
          (λ s. Knows (looked_up r hash o) s × AllBacked (r ∷ []) s.log)
          (reconcile_status env r o)
          (λ r'. Holding (r' ∷ []))
          (λ e. IsSafe)
  reconcile_status-Holding r hash none e = Triple-pure r (λ s h. (h.0.safe, h.1))
  reconcile_status-Holding r hash (some none) e = Triple-throw _ (λ s h. h.0.safe)
  reconcile_status-Holding r hash (some (some n)) e =
      Triple-if (n == 1) _ _
        (λ one.
          Triple-bind _ _
            (Triple-weaken _ (save-Holding (record r { state = swept }))
              (λ s h. (
                h.0.safe,
                (
                  mined-RecordBacked r hash s.log e h.1.0 (
                      subst (λ k. Has (mined r.chain_id hash k) s.log) ((==_iff n 1).0 one)
                        h.0.facts.0),
                  tt,
                ),
              ))
              (λ _ s h. h) (λ _ s h. h.0))
            λ _. Triple-pure _ (λ s h. h))
        (λ _. Triple-pure r (λ s h. (h.0.safe, h.1)))

  reconcile_hash-Holding :
      (r : SweepRecord) (o : Option Text)
      → r.sweep_tx_hash ≡ o
      → Triple (Holding (r ∷ [])) (reconcile_hash env r o) (λ r'. Holding (r' ∷ [])) (λ e. IsSafe)
  reconcile_hash-Holding r none e = Triple-pure r (λ s h. h)
  reconcile_hash-Holding r (some hash) e =
      Triple-if (is_set (some hash)) _ _
        (λ _.
          Triple-bind _ _
            (Triple-weaken _
              (frame (r ∷ []) _ (Remembers-reconcile_receipt env rely r hash)
                (reconcile_receipt-Keeps r hash))
              (λ s h. (record { safe = h.0; facts = tt }, h.1)) (λ o s h. h) (λ x s h. h.0.safe))
            λ o. reconcile_status-Holding r hash o e)
        (λ _. Triple-pure r (λ s h. h))

  pub reconcile_sweep_tx-Holding :
      (r : SweepRecord)
      → Triple (Holding (r ∷ [])) (reconcile_sweep_tx env r) (λ r'. Holding (r' ∷ [])) (λ e. IsSafe)
  unfolding reconcile_sweep_tx
  reconcile_sweep_tx-Holding r =
      Triple-if (is_swept r.state) _ _ (λ _. Triple-pure r (λ s h. h))
        (λ _. reconcile_hash-Holding r r.sweep_tx_hash refl)
