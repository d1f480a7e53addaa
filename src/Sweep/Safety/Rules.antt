-- ===== src/Sweep/Safety/Rules.antt =====
-- The judgment `Keeps es m es'`: `m` keeps the invariant, where the history holds the events `es`
-- before, and `es'` after it has returned. One rule for each way to build a method.
use privana.Prelude.{
  ℕ, suc, ◌≡◌, refl, sym, ap, ◌∙◌, inl, inr, Bool, true, false, some, List, [], ◌∷◌, ◌++◌,
  Bool-cases,
}
use mathlib.Core.Path.{subst}
use privana.Text.{Text}
use privana.Text.Hex.{Bytes}
use privana.Dict.{lookup, insert, lookup-insert-some, lookup-remove-some}
use privana.Effect.{
  Exn, Outcome, ok, raise, M, pure, throw, gets, lift, modify, ◌>>=◌, ◌>>◌, raise_if,
}
use privana.Effect.Hoare.{
  Post, Triple, Triple-bind, Triple-pure, Triple-throw, Triple-lift, Triple-weaken, Triple-modify,
  Triple-gets,
}
use privana.Sweep.Record.{SweepRecord}
use privana.Sweep.Record.Json.{to_dict, from_dict-to_dict, post_init-ok}
use privana.Sweep.World.{
  Engine, File, object, Env, Event, credit_asked, answered, call, await, note, get_web3,
}
use privana.Sweep.Store.{save_record, delete_record, record_path, read_file}
use privana.Sweep.Engine.{add_gas_hash}
use privana.Sweep.Safety.Invariant.{
  IsSafe, RecordBacked, RecordBacked-append, Backed, Rely, HasAll, HasAll-append, HasAll-join,
  HasAll-prefix, AllQuiet, CreditsBacked-append,
}

pub record Knows (es : List Event) (s : Engine) : Type 0 where
  pub safe : IsSafe s
  pub facts : HasAll es s.log

abbrev pub Keeps : {A : Type 0} → List Event → M Engine A → (A → List Event) → Type 0
Keeps es m es' = Triple (Knows es) m (λ a. Knows (es' a)) (λ e. Knows es)

-- A method that leaves the known events as they are.
abbrev pub Steady : {A : Type 0} → List Event → M Engine A → Type 0
Steady es m = Keeps es m (λ _. es)

extend-IsSafe :
    (pre : List Event) (t : ℕ) (s : Engine)
    → AllQuiet pre
    → IsSafe s
    → IsSafe (record s { tick = t; log = pre ++ s.log })
extend-IsSafe pre t s q h = record {
  records = λ path f r e read. RecordBacked-append r pre s.log (h.records path f r e read);
  credits = CreditsBacked-append pre s.log q h.credits;
}

module _ (env : Env) (rely : Rely env) where
  others-Knows : (es : List Event) (t : ℕ) (s : Engine) → Knows es s → Knows es (env.others t s)
  others-Knows es t s h =
      let (pre, e) = rely.grows t s in
      record { safe = rely.safe t s h.safe; facts = rw e (HasAll-append es pre s.log h.facts) }

  pub Keeps-call :
      {A : Type 0} (es : List Event) (answer : ℕ → Outcome A) (events : A → List Event)
      → ((a : A) → AllQuiet (events a))
      → Keeps es (call env answer events) (λ a. events a ++ es)
  unfolding call
  Keeps-call {A} es answer events quiet = record { at = λ s h. go (answer s.tick) s h }
    where
      go :
          (r : Outcome A) (s : Engine)
          → Knows es s
          → Post
              (λ a. Knows (events a ++ es))
              (λ e. Knows es)
              r
              (env.others s.tick
                (record s { tick = suc s.tick; log = answered env r events ++ s.log }))
      go (ok a) s h = others-Knows (events a ++ es) s.tick _ (record {
        safe = extend-IsSafe (events a) (suc s.tick) s (quiet a) h.safe;
        facts =
            HasAll-join (events a) es _ (HasAll-prefix (events a) s.log)
              (HasAll-append es (events a) s.log h.facts);
      })
      go (raise e) s h =
          others-Knows es s.tick _
            (record { safe = extend-IsSafe [] (suc s.tick) s tt h.safe; facts = h.facts })

  pub Keeps-await :
      {A : Type 0} (es : List Event) (answer : ℕ → Outcome A) → Steady es (await env answer)
  unfolding await
  Keeps-await es answer = Keeps-call es answer (λ _. []) (λ _. tt)

  pub Keeps-web3 : (es : List Event) (chain : ℕ) → Steady es (get_web3 env chain)
  unfolding get_web3
  Keeps-web3 es chain = record {
    at = λ s h. elim (Bool-cases (env.served s.tick chain)) [ inl e ↦ rw e h | inr e ↦ rw e h ];
  }

module _ {A : Type 0} where
  pub Keeps-pure : (es : List Event) (a : A) → Steady es (pure a)
  Keeps-pure es a = Triple-pure a (λ s h. h)

  pub Keeps-throw : (es : List Event) (e : Exn) → Steady es (throw {A = A} e)
  Keeps-throw es e = Triple-throw e (λ s h. h)

  pub Keeps-lift : (es : List Event) (r : Outcome A) → Steady es (lift r)
  Keeps-lift es r = Triple-lift r (λ a e s h. h) (λ a e s h. h)

  pub Keeps-gets : (es : List Event) (f : Engine → A) → Steady es (gets f)
  Keeps-gets es f = Triple-gets f (λ s h. h)

pub Keeps-raise_if : (es : List Event) (b : Bool) (e : Exn) → Steady es (raise_if b e)
Keeps-raise_if es true e = Keeps-throw es e
Keeps-raise_if es false e = Keeps-pure es tt

pub Keeps-add_gas_hash : (es : List Event) (h : Text) → Steady es (modify (add_gas_hash h))
Keeps-add_gas_hash es h = Triple-modify (add_gas_hash h) (λ s k. record {
  safe = record { records = k.safe.records; credits = k.safe.credits };
  facts = k.facts;
})

pub saved-RecordBacked :
    (path p : Text) (r x : SweepRecord) (s : Engine)
    → RecordBacked r s.log
    → IsSafe s
    → (f : File) → lookup p (insert path (object (to_dict r)) s.files) ≡ some f
    → read_file f ≡ ok x
    → RecordBacked x s.log
unfolding read_file
saved-RecordBacked path p r x s b h f e read =
    elim (lookup-insert-some path p (object (to_dict r)) f s.files e) [
      | inl same ↦
          let (_, _, _, kept) =
            post_init-ok r x (sym (from_dict-to_dict r) ∙ ap read_file same ∙ read) in
          subst (λ y. RecordBacked y s.log) kept b
      | inr old ↦ h.records p f x old read
    ]

-- A record may be saved where the known events back it.
pub Keeps-save :
    (es : List Event) (r : SweepRecord)
    → ((log : List Event) → HasAll es log → RecordBacked r log)
    → Steady es (save_record r)
unfolding save_record
Keeps-save es r backed =
    Triple-bind (lift (record_path r.deposit_id_hex)) _ (Keeps-lift es _) λ path.
      Triple-modify _ λ s h. record {
        safe = record {
          records = λ p f x e read.
              saved-RecordBacked path p r x s (backed s.log h.facts) h.safe f e read;
          credits = h.safe.credits;
        };
        facts = h.facts;
      }

pub Keeps-delete : (es : List Event) (id : Text) → Steady es (delete_record id)
unfolding delete_record
Keeps-delete es id = Triple-bind (lift (record_path id)) _ (Keeps-lift es _) λ path.
    Triple-modify _ λ s h. record {
      safe = record {
        records = λ p f x e read. h.safe.records p f x (lookup-remove-some path p f s.files e) read;
        credits = h.safe.credits;
      };
      facts = h.facts;
    }

-- `Safely es m Q`: however `m` ends, the invariant holds; where it returns, `Q` does.
abbrev pub Safely : {A : Type 0} → List Event → M Engine A → (A → Engine → Type 0) → Type 0
Safely es m Q = Triple (Knows es) m Q (λ e. IsSafe)

-- What a result shows besides the known events, put at the disposal of the rest.
pub Triple-intro :
    {B X : Type 0} {P : X → Engine → Type 0} {Q : B → Engine → Type 0} (m : M Engine B)
    → ((x : X) → Triple (P x) m Q (λ e. IsSafe))
    → Triple (λ s. (x : X) × P x s) m Q (λ e. IsSafe)
Triple-intro m h = record { at = λ s p. (h p.0).at s p.1 }

module _ {A : Type 0} {es : List Event} {es' : A → List Event} {m : M Engine A} where
  pub safely : Keeps es m es' → Safely es m (λ a. Knows (es' a))
  safely h = Triple-weaken m h (λ s p. p) (λ a s p. p) (λ e s p. p.safe)

  pub step :
      {B : Type 0} {Q : B → Engine → Type 0} {f : A → M Engine B}
      → Keeps es m es'
      → ((a : A) → Safely (es' a) (f a) Q)
      → Safely es (m >>= f) Q
  step {f} h k = Triple-bind m f (safely h) k

pub Keeps-note : (es : List Event) (e : Event) → AllQuiet (e ∷ []) → Keeps es (note e) (λ _. e ∷ es)
unfolding note
Keeps-note es e q = record {
  at = λ s h. record {
    safe = extend-IsSafe (e ∷ []) s.tick s q h.safe;
    facts = (inl refl, HasAll-append es (e ∷ []) s.log h.facts);
  };
}

-- A credit may be asked for where the known events back it.
pub Keeps-ask :
    (es : List Event) (b : Text) (t : Bytes) (a : ℕ) (i : Bytes)
    → ((log : List Event) → HasAll es log → Backed b a log)
    → Steady es (note (credit_asked b t a i))
unfolding note
Keeps-ask es b t a i backed = record {
  at = λ s h. record {
    safe = record {
      records = λ p f r e read.
          RecordBacked-append r (credit_asked b t a i ∷ []) s.log (h.safe.records p f r e read);
      credits = (backed s.log h.facts, h.safe.credits);
    };
    facts = HasAll-append es (credit_asked b t a i ∷ []) s.log h.facts;
  };
}

drop-HasAll : (fs es log : List Event) → HasAll (fs ++ es) log → HasAll es log
drop-HasAll [] es log h = h
drop-HasAll (f ∷ fs) es log h = drop-HasAll fs es log h.1

-- What is learned may be forgotten.
pub forget :
    {A : Type 0} (es : List Event) (events : A → List Event) (m : M Engine A)
    → Keeps es m (λ a. events a ++ es)
    → Steady es m
forget es events m h =
    Triple-weaken m h (λ s p. p)
      (λ a s p. record { safe = p.safe; facts = drop-HasAll (events a) es s.log p.facts })
      (λ e s p. p)

pub learn :
    {A : Type 0} {es' : A → List Event} (es : List Event) (m : M Engine A)
    → ((a : A) (s : Engine) → Knows (es' a) s → Knows es s)
    → Keeps es m es'
    → Steady es m
learn es m k h = Triple-weaken m h (λ s p. p) k (λ e s p. p)

-- What follows `if c: raise` may use that `c` is false.
pub raise_if-Safely :
    {A : Type 0} {Q : A → Engine → Type 0} (es : List Event) (b : Bool) (e : Exn) (m : M Engine A)
    → (b ≡ false → Safely es m Q)
    → Safely es (raise_if b e >> m) Q
raise_if-Safely es true e m h =
    Triple-bind _ _ (Triple-throw {R = λ _ _. ⊥} e (λ s k. k.safe))
      (λ _. record { at = λ s k. elim k [ ] })
raise_if-Safely es false e m h = step (Keeps-pure es tt) (λ _. h refl)
