-- ===== src/Auth/TokenStore/Nonces.antt =====
-- A nonce is good for one login: what the calls of the token store do to its entry.
use privana.Prelude.{
  ℕ, suc, ◌+◌, ◌≤◌, ◌≡◌, refl, ap, ◌∙◌, ◌⊎◌, inl, inr, Bool, true, false, none, some, List, [], ◌∷◌,
  arith, Bool-cases, Option-cases, ltb, if◌then◌else◌,
}
use privana.Text.{Text, text_eq, text_eq_iff, text_eq_refl, is_nonempty}
use privana.Auth.DiskCache.{DiskCache, is_some}
use privana.Auth.TokenStore.{
  refresh_key, nonce_key, client_key, store_refresh_token, delete_refresh_token,
  consume_refresh_token, revoke_all_refresh_tokens_for_address, existing_nonce, store_nonce,
  generate_nonce, consume_nonce, is_nonce_valid, Call, store, delete, consume, revoke, generate,
  login, perform, accepts, logins, draws,
}
use privana.Auth.TokenStore.Keys.{refresh-nonce, client-nonce, nonce-nonce}
use privana.Auth.TokenStore.Entries.{IsDead, IsDead-set, IsDead-delete, IsDead-own}
use privana.Auth.TokenStore.Tokens.{dead-revoke_keys}

module _ (D : DiskCache Text) (n : Text) where
  IsDead-store_nonce :
      (t : ℕ) (client_id fresh : Text) (expiry : ℕ) (c : D.Store)
      → text_eq fresh n ≡ false
      → IsDead D (nonce_key n) t c
      → IsDead D (nonce_key n) t (store_nonce D t client_id fresh expiry c)
  unfolding store_nonce
  IsDead-store_nonce t client_id fresh expiry c other dead =
      let stored =
        IsDead-set D (nonce_key n) t expiry (nonce_key fresh) client_id c
          (nonce-nonce fresh n ∙ other) dead in
      elim (Bool-cases (is_nonempty client_id)) [
        | inl e ↦ rw e (
            IsDead-set D (nonce_key n) t expiry (client_key client_id) fresh _
              (client-nonce client_id n) stored)
        | inr e ↦ rw e stored
      ]

  IsDead-generate :
      (t : ℕ) (client_id : Text) (expiry : ℕ) (fresh : Text) (c : D.Store)
      → text_eq fresh n ≡ false
      → IsDead D (nonce_key n) t c
      → IsDead D (nonce_key n) t (generate_nonce D t client_id expiry fresh c).1
  unfolding generate_nonce
  IsDead-generate t client_id expiry fresh c other dead =
      elim (Option-cases (existing_nonce D t client_id c)) [
        | inl e ↦ rw (generate_nonce, e) (IsDead-store_nonce t client_id fresh expiry c other dead)
        | inr (_, e) ↦ rw (generate_nonce, e) dead
      ]

  -- What `consume_nonce` leaves of the cache.
  IsDead-consume :
      (t : ℕ) (m : Text) (c : D.Store)
      → IsDead D (nonce_key n) t (D.delete t (nonce_key m) c)
      → IsDead D (nonce_key n) t (consume_nonce D t m c).1
  unfolding consume_nonce
  IsDead-consume t m c dead = elim (Option-cases (D.get t (nonce_key m) c)) [
    | inl e ↦ rw (consume_nonce, e) dead
    | inr (client_id, e) ↦ elim (Bool-cases (is_nonempty client_id)) [
      | inl named ↦
          rw (consume_nonce, e, named)
            (IsDead-delete D (nonce_key n) t (client_key client_id) _ dead)
      | inr unnamed ↦ rw (consume_nonce, e, unnamed) dead
    ]
  ]

  consume_nonce-dead :
      (t : ℕ) (c : D.Store) → IsDead D (nonce_key n) t c → (consume_nonce D t n c).0 ≡ false
  unfolding consume_nonce
  consume_nonce-dead t c dead = rw (consume_nonce, dead t (omega arith)) refl

  IsDead-perform :
      (t : ℕ) (call : Call) (c : D.Store)
      → draws n ((0, call) ∷ []) ≡ 0
      → IsDead D (nonce_key n) t c
      → IsDead D (nonce_key n) t (perform D t call c)
  unfolding perform store_refresh_token delete_refresh_token consume_refresh_token
      revoke_all_refresh_tokens_for_address draws
  IsDead-perform t (store jti address expires_at) c none_drawn dead =
      IsDead-set D (nonce_key n) t _ (refresh_key jti) address c (refresh-nonce jti n) dead
  IsDead-perform t (delete jti) c none_drawn dead =
      IsDead-delete D (nonce_key n) t (refresh_key jti) c dead
  IsDead-perform t (consume jti) c none_drawn dead =
      IsDead-delete D (nonce_key n) t (refresh_key jti) c dead
  IsDead-perform t (revoke address) c none_drawn dead =
      dead-revoke_keys D t address (D.keys c) (nonce_key n) 0 c dead
  IsDead-perform t (generate client_id expiry fresh) c none_drawn dead =
      IsDead-generate t client_id expiry fresh c (ground arith) dead
  IsDead-perform t (login m) c none_drawn dead =
      IsDead-consume t m c (IsDead-delete D (nonce_key n) t (nonce_key m) c dead)

  IsDead-login : (t : ℕ) (c : D.Store) → IsDead D (nonce_key n) t (perform D t (login n) c)
  unfolding perform
  IsDead-login t c = IsDead-consume t n c (IsDead-own D (nonce_key n) t c)

  -- An accepted call is a login with the nonce.
  IsDead-accepted :
      (t : ℕ) (call : Call) (c : D.Store)
      → accepts D t n call c ≡ true
      → IsDead D (nonce_key n) t (perform D t call c)
  unfolding accepts
  IsDead-accepted t (login m) c h =
      let same : m ≡ n = ground (arith, text_eq_iff m n) in rw same (IsDead-login t c)
  IsDead-accepted t (store _ _ _) c h = cc
  IsDead-accepted t (delete _) c h = cc
  IsDead-accepted t (consume _) c h = cc
  IsDead-accepted t (revoke _) c h = cc
  IsDead-accepted t (generate _ _ _) c h = cc

  accepts-dead :
      (t : ℕ) (call : Call) (c : D.Store)
      → IsDead D (nonce_key n) t c
      → accepts D t n call c ≡ false
  unfolding accepts
  accepts-dead t (login m) c dead = elim (Bool-cases (text_eq m n)) [
    | inl e ↦ rw ((text_eq_iff m n).0 e, text_eq_refl n) (consume_nonce-dead t c dead)
    | inr e ↦ rw e refl
  ]
  accepts-dead t (store _ _ _) c dead = refl
  accepts-dead t (delete _) c dead = refl
  accepts-dead t (consume _) c dead = refl
  accepts-dead t (revoke _) c dead = refl
  accepts-dead t (generate _ _ _) c dead = refl

  draws-cases :
      (wait : ℕ) (call : Call) (calls : List (ℕ × Call))
      → (draws n ((wait, call) ∷ calls) ≡ suc (draws n calls))
        ⊎ ((draws n ((wait, call) ∷ calls) ≡ draws n calls) × (draws n ((0, call) ∷ []) ≡ 0))
  unfolding draws
  draws-cases wait (generate _ _ fresh) calls = elim (Bool-cases (text_eq fresh n)) [
    | inl e ↦ inl (rw e refl)
    | inr e ↦ inr (rw e refl, rw e refl)
  ]
  draws-cases wait (store _ _ _) calls = inr (refl, refl)
  draws-cases wait (delete _) calls = inr (refl, refl)
  draws-cases wait (consume _) calls = inr (refl, refl)
  draws-cases wait (revoke _) calls = inr (refl, refl)
  draws-cases wait (login _) calls = inr (refl, refl)

  logins-draws :
      (calls : List (ℕ × Call)) (t : ℕ) (c : D.Store)
      → (logins D t n calls c ≤ suc (draws n calls))
        × (IsDead D (nonce_key n) t c → logins D t n calls c ≤ draws n calls)
  unfolding logins
  logins-draws [] t c = (omega arith, λ _. omega arith)
  logins-draws ((wait, call) ∷ calls) t c =
      let later = t + wait in
      let rest = logins-draws calls later (perform D later call c) in
      (
        elim (Bool-cases (accepts D later n call c)) [
          | inl e ↦
              rw (logins, e)
                (elim (draws-cases wait call calls) [
                  | inl d ↦ omega (arith, d, rest.1 (IsDead-accepted later call c e))
                  | inr d ↦ omega (arith, d.0, rest.1 (IsDead-accepted later call c e))
                ])
          | inr e ↦
              rw (logins, e)
                (elim (draws-cases wait call calls) [
                  | inl d ↦ omega (arith, d, rest.0)
                  | inr d ↦ omega (arith, d.0, rest.0)
                ])
        ],
        λ dead.
            let still : IsDead D (nonce_key n) later c = λ u le. dead u (omega arith) in
            rw (logins, accepts-dead later call c still)
              (elim (draws-cases wait call calls) [
                | inl d ↦ omega (arith, d, rest.0)
                | inr d ↦ omega (arith, d.0, rest.1 (IsDead-perform later call c d.1 still))
              ]),
      )

  -- If the nonce is not in the cache, then in any sequence of calls of the token store, with any
  -- waits in between, it is accepted for a login at most as often as `generate_nonce` draws it:
  -- a nonce that is drawn once is good for one login.
  pub logins_at_most_draws :
      (calls : List (ℕ × Call)) (t : ℕ) (c : D.Store)
      → ((u : ℕ) → t ≤ u → is_nonce_valid D u n c ≡ false)
      → logins D t n calls c ≤ draws n calls
  unfolding is_nonce_valid
  logins_at_most_draws calls t c unknown = (logins-draws calls t c).1 λ u le.
      elim (Option-cases (D.get u (nonce_key n) c)) [
        | inl e ↦ e
        | inr (v, e) ↦ cc (ap is_some e, unknown u le)
      ]

module _ (D : DiskCache Text) (t u expiry : ℕ) (client_id fresh : Text) (c : D.Store)
    (le : t ≤ u) where
  consume_nonce-get :
      (b : D.Store) → (consume_nonce D u fresh b).0 ≡ is_some (D.get u (nonce_key fresh) b)
  unfolding consume_nonce
  consume_nonce-get b = elim (Option-cases (D.get u (nonce_key fresh) b)) [
    | inl e ↦ rw (consume_nonce, e) refl
    | inr (v, e) ↦ rw (consume_nonce, e) refl
  ]

  get-stored :
      D.get u (nonce_key fresh) (D.set t (nonce_key fresh) client_id expiry c)
      ≡ (if ltb u (t + expiry) then some client_id else none)
  get-stored =
      D.get-set t u expiry (nonce_key fresh) (nonce_key fresh) client_id c le
      ∙ rw (text_eq_refl (nonce_key fresh)) refl

  get-store_nonce :
      D.get u (nonce_key fresh) (store_nonce D t client_id fresh expiry c)
      ≡ (if ltb u (t + expiry) then some client_id else none)
  unfolding store_nonce
  get-store_nonce = elim (Bool-cases (is_nonempty client_id)) [
    | inl e ↦
        rw (store_nonce, e)
          (D.get-set t u expiry (client_key client_id) (nonce_key fresh) fresh _ le
            ∙ rw (client-nonce client_id fresh) get-stored)
    | inr e ↦ rw (store_nonce, e) get-stored
  ]

  is_some-if : (b : Bool) → is_some (if b then some client_id else none) ≡ b
  is_some-if true = refl
  is_some-if false = refl

  -- A client that holds no nonce gets the one that is drawn; and if no other call comes in
  -- between, a later login with this nonce is accepted exactly when it has not expired.
  pub generated_nonce_expires :
      existing_nonce D t client_id c ≡ none
      → ((generate_nonce D t client_id expiry fresh c).0 ≡ fresh)
        × ((consume_nonce D u fresh (generate_nonce D t client_id expiry fresh c).1).0
            ≡ ltb u (t + expiry))
  unfolding generate_nonce
  generated_nonce_expires none_held = (
    rw (generate_nonce, none_held) refl,
    rw (generate_nonce, none_held)
        (consume_nonce-get (store_nonce D t client_id fresh expiry c)
          ∙ rw get-store_nonce (is_some-if (ltb u (t + expiry)))),
  )
