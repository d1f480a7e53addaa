-- ===== src/Sweep/Safety/Passes.antt =====
-- A restart and a pass of the recovery loop keep the invariant.
use privana.Prelude.{◌≡◌, refl, true, not, ◌&&◌, Option, none, some, List, [], ◌∷◌}
use privana.Text.{Text}
use privana.Text.Hex.{Bytes}
use privana.Dict.{lookup}
use privana.Config.{ChainConfig}
use privana.Effect.{
  Exn, Outcome, ok, raise, M, is_exception, value_error, connection_error, credit_pending,
  cancelled, fuel_out, then_do,
}
use privana.Effect.Hoare.{
  Post, Triple, Triple-bind, Triple-if, Triple-pure, Triple-throw, Triple-lift, Triple-try,
  Triple-weaken,
}
use privana.Sweep.Record.{SweepRecord, is_set, is_swept}
use privana.Sweep.World.{Engine, Env, Event, File}
use privana.Sweep.Store.{
  delete_record, cleanup_record, swallow_value_error, record_path, persist_error, get_record,
  flag_error, found_at, parsed, read_file,
}
use privana.Sweep.Load.{load_incomplete_sweeps}
use privana.Sweep.Recovery.{
  reconcile_all, persist_resume_error, resume_by_token, resume_sweep_from_pending, retry_credit,
  resume_failed, resume_record, resume_all, resume_incomplete_sweeps, resume_turn, resume_resumable,
  retry_turn, retry_swept, recovery_pass,
}
use privana.Sweep.Safety.Invariant.{IsSafe, Backed, HasAll, Rely}
use privana.Sweep.Safety.Rules.{Knows, Keeps-lift, Keeps-delete, Safely}
use privana.Sweep.Safety.Stages.{idempotent_credit-Steady}
use privana.Sweep.Safety.Sweeps.{sweep_native-Safely, sweep_erc20-Safely}
use privana.Sweep.Safety.Memory.{
  Remembers, Remembers-reconcile, Remembers-reconcile_all, Remembers-record, Remembers-turn,
  Remembers-retry_turn,
}
use privana.Sweep.Safety.Loading.{AllBacked, SafeAt, load_incomplete_sweeps-Loaded}
use privana.Sweep.Safety.Recovery.{
  Holding, frame, from_backing, save-Holding, reconcile_sweep_tx-Holding,
}

-- `m` keeps the invariant, however it ends.
abbrev pub KeepsSafe : {A : Type 0} → M Engine A → Type 0
KeepsSafe m = Triple IsSafe m (λ _. IsSafe) (λ _. IsSafe)

pub delete-KeepsSafe : (id : Text) → KeepsSafe (delete_record id)
delete-KeepsSafe id =
    Triple-weaken _ (Keeps-delete [] id) (λ s h. record { safe = h; facts = tt }) (λ _ s h. h.safe)
      (λ _ s h. h.safe)

pub cleanup_record-KeepsSafe : (id : Text) → KeepsSafe (cleanup_record id)
unfolding cleanup_record
cleanup_record-KeepsSafe id = Triple-try _ _ (delete-KeepsSafe id) swallow
  where
    swallow : (e : Exn) → KeepsSafe (swallow_value_error e)
    swallow (value_error m) = Triple-pure tt (λ s h. h)
    swallow (connection_error m) = Triple-throw _ (λ s h. h)
    swallow _ = Triple-throw _ (λ s h. h)

-- What is read from the disk of a safe engine is backed.
abbrev OneHeld : Option SweepRecord → Engine → Type 0
OneHeld none s = IsSafe s
OneHeld (some r) s = Holding (r ∷ []) s

get_record-OneHeld : (id : Text) → Triple IsSafe (get_record id) OneHeld (λ e. IsSafe)
unfolding get_record
get_record-OneHeld id = record { at = λ s h. by_path s h (record_path id) }
  where
    by_content :
        (s : Engine)
        → IsSafe s
        → (path : Text) (f : File) → lookup path s.files ≡ some f
        → (o : Outcome SweepRecord) → read_file f ≡ o
        → Post OneHeld (λ e. IsSafe) (then_do o (λ r. ok (some r))) s
    by_content s h path f e (raise x) read = h
    by_content s h path f e (ok r) read = (h, (h.records path f r e read, tt))

    by_file :
        (s : Engine)
        → IsSafe s
        → (path : Text) (f : Option File) → lookup path s.files ≡ f
        → Post OneHeld (λ e. IsSafe) (parsed f) s
    by_file s h path none e = h
    by_file s h path (some f) e = by_content s h path f e (read_file f) refl

    by_path :
        (s : Engine) → IsSafe s → (o : Outcome Text) → Post OneHeld (λ e. IsSafe) (found_at o s) s
    by_path s h (raise e) = h
    by_path s h (ok path) = by_file s h path _ refl

pub persist_error-KeepsSafe : (id error : Text) → KeepsSafe (persist_error id error)
unfolding persist_error
persist_error-KeepsSafe id error = Triple-bind _ _ (get_record-OneHeld id) flag
  where
    flag :
        (o : Option SweepRecord)
        → Triple (OneHeld o) (flag_error error o) (λ _. IsSafe) (λ _. IsSafe)
    flag none = Triple-pure tt (λ s h. h)
    flag (some r) =
        Triple-if (is_set r.sweep_tx_hash) _ _ (λ _. Triple-pure tt (λ s h. h.0))
          (λ _.
            Triple-weaken _ (save-Holding (record r { error = some error }))
              (λ s h. (
                h.0,
                (
                  record {
                    hash_backed = λ x p.
                        let v = h.1.0.hash_backed x p in
                        record {
                          token = v.token;
                          tx = v.tx;
                          was_signed = v.was_signed;
                          was_sent = v.was_sent;
                        };
                    swept_backed = h.1.0.swept_backed;
                  },
                  tt,
                ),
              ))
              (λ _ s h. h.0) (λ _ s h. h.0))

resume_failed-KeepsSafe : (r : SweepRecord) (e : Exn) → KeepsSafe (resume_failed r e)
unfolding persist_resume_error
resume_failed-KeepsSafe r (credit_pending i) = Triple-pure _ (λ s h. h)
resume_failed-KeepsSafe r cancelled = Triple-throw _ (λ s h. h)
resume_failed-KeepsSafe r fuel_out = Triple-throw _ (λ s h. h)
resume_failed-KeepsSafe r _ =
    Triple-bind _ _ (persist_error-KeepsSafe _ _) (λ _. Triple-pure _ (λ s h. h))

module _ (env : Env) (rely : Rely env) (configs : List ChainConfig) where
  pub from_safe : {A : Type 0} {m : M Engine A} → Safely [] m (λ _. IsSafe) → KeepsSafe m
  from_safe t = Triple-weaken _ t (λ s h. record { safe = h; facts = tt }) (λ _ s h. h) (λ _ s h. h)

  resume-KeepsSafe : (r : SweepRecord) → KeepsSafe (resume_sweep_from_pending env configs r)
  unfolding resume_sweep_from_pending
  resume-KeepsSafe r = Triple-bind _ _ (Triple-lift _ (λ a e s h. h) (λ a e s h. h)) λ t.
      Triple-bind _ _ (Triple-lift _ (λ a e s h. h) (λ a e s h. h))
        λ i. by_token r.token_address t i
    where
      by_token : (o : Option Text) (t i : Bytes) → KeepsSafe (resume_by_token env configs r o t i)
      by_token none t i = from_safe (sweep_native-Safely env rely configs _)
      by_token (some token) t i = from_safe (sweep_erc20-Safely env rely configs _ token)

  retry_credit-Knows :
      (r : SweepRecord) (es : List Event)
      → ((log : List Event) → HasAll es log → Backed r.beneficiary r.amount log)
      → Triple (Knows es) (retry_credit env configs r) (λ _. Knows es) (λ _. Knows es)
  unfolding retry_credit
  retry_credit-Knows r es backed = Triple-bind _ _ (Keeps-lift es _) λ t.
      Triple-bind _ _ (Keeps-lift es _) λ i.
        Triple-bind _ _ (idempotent_credit-Steady env rely configs es _ _ _ _ backed)
          λ _. Keeps-delete es _

  retry_credit-KeepsSafe :
      (r : SweepRecord)
      → is_swept r.state ≡ true
      → Triple (Holding (r ∷ [])) (retry_credit env configs r) (λ _. IsSafe) (λ _. IsSafe)
  retry_credit-KeepsSafe r swept =
      Triple-weaken _
        (from_backing {Q = λ _. IsSafe} {E = λ _. IsSafe} r.beneficiary r.amount _ λ es backed.
          Triple-weaken _ (retry_credit-Knows r es backed) (λ s h. h) (λ _ s h. h.safe)
            (λ _ s h. h.safe))
        (λ s h. (h.0, h.1.0.swept_backed swept)) (λ _ s h. h) (λ _ s h. h)

  resume_record-KeepsSafe :
      (r : SweepRecord)
      → Triple (Holding (r ∷ [])) (resume_record env configs r) (λ _. IsSafe) (λ _. IsSafe)
  unfolding resume_record
  resume_record-KeepsSafe r =
      Triple-try _ _
        (Triple-if (is_swept r.state) _ _
          (λ e. Triple-bind _ _ (retry_credit-KeepsSafe r e) (λ _. Triple-pure _ (λ s h. h)))
          (λ _.
            Triple-if (not (is_set r.sweep_tx_hash)) _ _
              (λ _.
                Triple-bind _ _
                  (Triple-weaken _ (resume-KeepsSafe r) (λ s h. h.0) (λ _ s h. h) (λ _ s h. h))
                  (λ _. Triple-pure _ (λ s h. h)))
              (λ _. Triple-pure _ (λ s h. h.0))))
        (resume_failed-KeepsSafe r)

  -- Work on one record leaves the others backed.
  each :
      {A : Type 0} (r : SweepRecord) (rs : List SweepRecord) (m : M Engine A)
      → Remembers m
      → Triple (Holding (r ∷ [])) m (λ _. IsSafe) (λ _. IsSafe)
      → Triple (Holding (r ∷ rs)) m (λ _. Holding rs) (λ _. IsSafe)
  each r rs m k t =
      Triple-weaken m (frame rs m k t) (λ s h. ((h.0, (h.1.0, tt)), h.1.1)) (λ a s h. h)
        (λ e s h. h.0)

  resume_all-KeepsSafe :
      (rs : List SweepRecord)
      → Triple (Holding rs) (resume_all env configs rs) (λ _. IsSafe) (λ _. IsSafe)
  unfolding resume_all
  resume_all-KeepsSafe [] = Triple-pure _ (λ s h. h.0)
  resume_all-KeepsSafe (r ∷ rs) =
      Triple-bind _ _
        (each r rs _ (Remembers-record env rely configs r) (resume_record-KeepsSafe r))
        λ a. Triple-bind _ _ (resume_all-KeepsSafe rs) (λ b. Triple-pure _ (λ s h. h))

  reconcile_all-Holding :
      (rs : List SweepRecord) → Triple (Holding rs) (reconcile_all env rs) Holding (λ _. IsSafe)
  unfolding reconcile_all
  reconcile_all-Holding [] = Triple-pure [] (λ s h. h)
  reconcile_all-Holding (r ∷ rs) =
      Triple-bind _ _
        (Triple-weaken _
          (frame rs _ (Remembers-reconcile env rely r) (reconcile_sweep_tx-Holding env rely r))
          (λ s h. ((h.0, (h.1.0, tt)), h.1.1)) (λ r' s h. h) (λ e s h. h.0))
        λ r'.
          Triple-bind _ _
            (Triple-weaken _
              (frame (r' ∷ []) _ (Remembers-reconcile_all env rely rs) (reconcile_all-Holding rs))
              (λ s h. ((h.0.0, h.1), h.0.1)) (λ rs' s h. h) (λ e s h. h.0))
            λ rs'. Triple-pure _ (λ s h. (h.0.0, (h.1.0, h.0.1)))

  load-Holding : Triple IsSafe load_incomplete_sweeps Holding (λ _. IsSafe)
  load-Holding = record {
    at = λ s h.
        go s.log (load_incomplete_sweeps s).0 _
          ((load_incomplete_sweeps-Loaded s.log).at s (h, refl));
  }
    where
      go :
          (log : List Event) (o : Outcome (List SweepRecord)) (s : Engine)
          → Post (λ rs s. SafeAt log s × AllBacked rs log) (λ e. IsSafe) o s
          → Post Holding (λ e. IsSafe) o s
      go log (ok rs) s h = (h.0.0, rw h.0.1 h.1)
      go log (raise e) s h = h

  pub resume_incomplete_sweeps-KeepsSafe : KeepsSafe (resume_incomplete_sweeps env configs)
  unfolding resume_incomplete_sweeps
  resume_incomplete_sweeps-KeepsSafe = Triple-bind _ _ load-Holding λ loaded.
      Triple-bind _ _ (reconcile_all-Holding loaded) (λ records. resume_all-KeepsSafe records)

  -- One turn of the loop over `resumable`.
  resume_turn-KeepsSafe : (r : SweepRecord) → KeepsSafe (resume_turn env configs r)
  unfolding resume_turn
  resume_turn-KeepsSafe r =
      Triple-if (not (is_swept r.state) && not (is_set r.sweep_tx_hash)) _ _
        (λ _.
          Triple-bind _ _
            (Triple-try _ _ (Triple-bind _ _ (resume-KeepsSafe r) (λ _. Triple-pure _ (λ s h. h)))
              (resume_failed-KeepsSafe r))
            (λ _. Triple-pure tt (λ s h. h)))
        (λ _. Triple-pure tt (λ s h. h))

  resume_resumable-Holding :
      (rs qs : List SweepRecord)
      → Triple (Holding qs) (resume_resumable env configs rs) (λ _. Holding qs) (λ _. IsSafe)
  unfolding resume_resumable
  resume_resumable-Holding [] qs = Triple-pure tt (λ s h. h)
  resume_resumable-Holding (r ∷ rs) qs =
      Triple-bind _ _
        (Triple-weaken _ (frame qs _ (Remembers-turn env rely configs r) (resume_turn-KeepsSafe r))
          (λ s h. h) (λ _ s h. h) (λ _ s h. h.0))
        λ _. resume_resumable-Holding rs qs

  retry_turn-KeepsSafe :
      (r : SweepRecord)
      → Triple (Holding (r ∷ [])) (retry_turn env configs r) (λ _. IsSafe) (λ _. IsSafe)
  unfolding retry_turn
  retry_turn-KeepsSafe r =
      Triple-if (is_swept r.state) _ _
        (λ e. Triple-try _ _ (retry_credit-KeepsSafe r e) λ x.
          Triple-if (is_exception x) _ _ (λ _. Triple-pure tt (λ s h. h))
            (λ _. Triple-throw x (λ s h. h)))
        (λ _. Triple-pure tt (λ s h. h.0))

  retry_swept-KeepsSafe :
      (rs : List SweepRecord)
      → Triple (Holding rs) (retry_swept env configs rs) (λ _. IsSafe) (λ _. IsSafe)
  unfolding retry_swept
  retry_swept-KeepsSafe [] = Triple-pure tt (λ s h. h.0)
  retry_swept-KeepsSafe (r ∷ rs) =
      Triple-bind _ _
        (each r rs _ (Remembers-retry_turn env rely configs r) (retry_turn-KeepsSafe r))
        (λ _. retry_swept-KeepsSafe rs)

  pub recovery_pass-KeepsSafe : KeepsSafe (recovery_pass env configs)
  unfolding recovery_pass
  recovery_pass-KeepsSafe = Triple-bind _ _ load-Holding λ loaded.
      Triple-bind _ _ (reconcile_all-Holding loaded) λ records.
        Triple-bind _ _ (resume_resumable-Holding records records)
          (λ _. retry_swept-KeepsSafe records)
