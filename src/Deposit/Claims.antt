-- ===== src/Deposit/Claims.antt =====
-- What `process_deposit` has checked before it starts a sweep.
use mathlib.Core.Path.{subst}
use privana.Prelude.{
  ℕ, ◌≤◌, ◌≡◌, refl, Bool, true, false, not, ◌&&◌, Option, none, some, List, arith, ltb,
  if◌then◌else◌,
}
use privana.Text.{Text}
use privana.Text.Hex.{Bytes, to_hex}
use privana.Config.{ChainConfig}
use privana.Effect.{Exn, Outcome, ok, raise, M, pure, lift, ◌>>=◌, raise_if}
use privana.Effect.Hoare.{Post, Triple, Triple-bind, Triple-pure, Triple-throw, Triple-lift}
use privana.Sweep.World.{Engine, Env, call, await}
use privana.Sweep.Store.{get_record}
use privana.Deposit.Verifier.{VerifiedDeposit}
use privana.Deposit.Verification.{Evidence, verify_deposit_sound}
use privana.Deposit.Processor.{
  Request, Response, Task, Services, pending, credited, response, task_of, claim_of, has_config,
  min_deposit, on_existing, check_claim, start_sweep, process_deposit,
}

ok-injective : {A : Type 0} (a b : A) → ok a ≡ ok b → a ≡ b
ok-injective a b h = cc

Anything : Engine → Type 0
Anything s = Unit

AnyEnd : Exn → Engine → Type 0
AnyEnd e s = Unit

-- A fact that holds of the result, whatever the state.
abbrev Yields : {A : Type 0} → M Engine A → (A → Type 0) → Type 0
Yields m F = Triple Anything m (λ a s. F a) AnyEnd

module _ {A B : Type 0} {F : A → Type 0} {G : B → Type 0} where
  Yields-bind :
      (m : M Engine A) (f : A → M Engine B)
      → Yields m F
      → ((a : A) → F a → Yields (f a) G)
      → Yields (m >>= f) G
  unfolding Anything AnyEnd
  Yields-bind m f h k = Triple-bind m f h (λ a. record { at = λ s x. (k a x).at s tt })

Yields-await :
    {A : Type 0} (env : Env) (answer : ℕ → Outcome A)
    → Yields (await env answer) (λ a. (t : ℕ) × (answer t ≡ ok a))
unfolding await call AnyEnd
Yields-await {A} env answer = record { at = λ s x. go s.tick (answer s.tick) _ refl }
  where
    go :
        (t : ℕ) (r : Outcome A) (s : Engine)
        → answer t ≡ r
        → Post (λ a s. (t : ℕ) × (answer t ≡ ok a)) AnyEnd r s
    go t (ok a) s e = (t, e)
    go t (raise e) s p = tt

Yields-raise_if : (b : Bool) (e : Exn) → Yields (raise_if b e) (λ _. b ≡ false)
unfolding AnyEnd
Yields-raise_if true e = Triple-throw e (λ s h. tt)
Yields-raise_if false e = Triple-pure tt (λ s h. refl)

Yields-any : {A : Type 0} (m : M Engine A) → Yields m (λ _. Unit {0})
unfolding AnyEnd
Yields-any {A} m = record { at = λ s x. go (m s).0 (m s).1 }
  where
    go : (r : Outcome A) (s : Engine) → Post {A = A} (λ _ _. Unit {0}) AnyEnd r s
    go (ok a) s = tt
    go (raise e) s = tt

Yields-lift : {A : Type 0} (r : Outcome A) → Yields (lift r) (λ a. r ≡ ok a)
unfolding AnyEnd
Yields-lift r = Triple-lift r (λ a e s h. e) (λ a e s h. tt)

Yields-pure : {A : Type 0} {F : A → Type 0} (a : A) → F a → Yields (pure a) F
Yields-pure a h = Triple-pure a (λ s x. h)

module _ (env : Env) (services : Services) (configs : List ChainConfig) (q : Request) where
  -- What holds of a deposit whose sweep is started.
  pub record IsChecked (t : Task) : Type 0 where
    pub address : Text
    pub verified : VerifiedDeposit
    pub token_id : Bytes
    pub id : Bytes
    pub tick : ℕ
    pub known_chain : has_config configs q.chain_id ≡ true
    pub evidence :
        Evidence configs (claim_of q address) (services.answers tick (claim_of q address)) verified
    pub enough : min_deposit configs q.chain_id verified.is_native ≤ verified.amount
    pub registered : (n : ℕ) × (services.is_token_registered n token_id ≡ ok true)
    pub its_token :
        (n : ℕ) × (services.get_token_id n q.chain_id verified.token_address ≡ ok token_id)
    pub its_id : services.deposit_id q.chain_id q.tx_hash token_id verified.deposit_index ≡ ok id
    pub unprocessed : (n : ℕ) × (env.is_deposit_processed n id ≡ ok false)
    pub same : t ≡ task_of q address token_id id verified

  abbrev StartsChecked : Response × Option Task → Type 0
  StartsChecked (r, none) = Unit
  StartsChecked (r, some t) = (r.status ≡ pending) × IsChecked t

  record ClaimChecked (address : Text) (p : VerifiedDeposit × Bytes) : Type 0 where
    tick : ℕ
    evidence :
        Evidence configs (claim_of q address) (services.answers tick (claim_of q address)) p.0
    enough : min_deposit configs q.chain_id p.0.is_native ≤ p.0.amount
    registered : (n : ℕ) × (services.is_token_registered n p.1 ≡ ok true)
    its_token : (n : ℕ) × (services.get_token_id n q.chain_id p.0.token_address ≡ ok p.1)

  meets_minimum : (m a : ℕ) → (ltb 0 m && ltb a m) ≡ false → m ≤ a
  meets_minimum m a h = ground arith

  check_claim-Yields :
      (address : Text) → Yields (check_claim env services configs q address) (ClaimChecked address)
  unfolding check_claim
  check_claim-Yields address = Yields-bind _ _ (Yields-await env _) λ v p.
      Yields-bind _ _ (Yields-raise_if _ _) λ _ low. Yields-bind _ _ (Yields-await env _) λ id tok.
        Yields-bind _ _ (Yields-await env _) λ reg r.
          Yields-bind _ _ (Yields-raise_if _ _) λ _ isreg.
            Yields-pure (v, id)
              (record {
                tick = p.0;
                evidence = verify_deposit_sound configs _ _ v p.1;
                enough = meets_minimum _ _ low;
                registered = (r.0, registered_true reg r.1 isreg);
                its_token = tok;
              })
    where
      registered_true :
          {n : ℕ} {id : Bytes} (b : Bool)
          → services.is_token_registered n id ≡ ok b
          → not b ≡ false
          → services.is_token_registered n id ≡ ok true
      registered_true true e h = e
      registered_true false e h = cc

  module _ (address : Text) (v : VerifiedDeposit) (token_id id : Bytes) where
    started :
        has_config configs q.chain_id ≡ true
        → ClaimChecked address (v, token_id)
        → services.deposit_id q.chain_id q.tx_hash token_id v.deposit_index ≡ ok id
        → (n : ℕ) × (env.is_deposit_processed n id ≡ ok false)
        → (go : Bool)
        → StartsChecked (
            if go
            then (response pending id v, some (task_of q address token_id id v))
            else (response pending id v, none))
    started known c e u true = (
      refl,
      record {
        address = address;
        verified = v;
        token_id = token_id;
        id = id;
        tick = c.tick;
        known_chain = known;
        evidence = c.evidence;
        enough = c.enough;
        registered = c.registered;
        its_token = c.its_token;
        its_id = e;
        unprocessed = u;
        same = refl;
      },
    )
    started known c e u false = tt

    start_sweep-Yields :
        has_config configs q.chain_id ≡ true
        → ClaimChecked address (v, token_id)
        → services.deposit_id q.chain_id q.tx_hash token_id v.deposit_index ≡ ok id
        → Yields (start_sweep env services configs q address v token_id id) StartsChecked
    unfolding start_sweep
    start_sweep-Yields known c e = Yields-bind _ _ (Yields-await env _) by_done
      where
        by_done :
            (done : Bool)
            → (t : ℕ) × (env.is_deposit_processed t id ≡ ok done)
            → Yields
                (if done
                  then pure (response credited id v, none)
                  else (get_record (to_hex id) >>= λ existing. on_existing id existing >>= λ go.
                      pure (
                        if go
                        then (response pending id v, some (task_of q address token_id id v))
                        else (response pending id v, none))))
                StartsChecked
        by_done true p = Yields-pure _ tt
        by_done false p = Yields-bind _ _ (Yields-any (get_record (to_hex id))) λ existing _.
            Yields-bind _ _ (Yields-any (on_existing id existing))
              λ go _. Yields-pure _ (started known c e p go)

  not-false : (b : Bool) → not b ≡ false → b ≡ true
  not-false true h = refl
  not-false false h = cc

  process_deposit-Yields : Yields (process_deposit env services configs q) StartsChecked
  unfolding process_deposit
  process_deposit-Yields = Yields-bind _ _ (Yields-raise_if _ _) λ _ known.
      Yields-bind _ _ (Yields-any _) λ is_gas _. Yields-bind _ _ (Yields-raise_if _ _) λ _ _.
        Yields-bind _ _ (Yields-await env _) λ address _.
          Yields-bind _ _ (check_claim-Yields address) λ p c.
            Yields-bind _ _ (Yields-lift _)
              λ id e. start_sweep-Yields address p.0 p.1 id (not-false _ known) c e

  Yields-ok :
      {A : Type 0} {F : A → Type 0} (m : M Engine A) (a : A) (s : Engine)
      → Yields m F
      → (m s).0 ≡ ok a
      → F a
  unfolding Anything
  Yields-ok {A} {F} m a s y e = go (m s).0 (m s).1 e (y.at s tt)
    where
      go : (o : Outcome A) (s' : Engine) → o ≡ ok a → Post (λ a s. F a) AnyEnd o s' → F a
      go (ok b) s' e h = subst F (ok-injective b a e) h
      go (raise x) s' e h = cc

  -- A sweep is started only for a deposit that has been checked: its chain is configured; the
  -- verifier accepted it, so that the chain shows what `Evidence` says; its amount meets the
  -- chain's minimum for its kind; its token's id is the contract's and is registered; the deposit
  -- id is that of the chain, transaction, token and index; and the contract answered that it has
  -- not processed that id. The sweep's arguments are those of the verified deposit, with the
  -- caller as beneficiary, and the response says "pending".
  pub started_sweep-IsChecked :
      (s : Engine) (r : Response) (t : Task)
      → (process_deposit env services configs q s).0 ≡ ok (r, some t)
      → (r.status ≡ pending) × IsChecked t
  started_sweep-IsChecked s r t e =
      Yields-ok (process_deposit env services configs q) (r, some t) s process_deposit-Yields e
