-- ===== src/Auth/Jwt/Rotation.antt =====
-- src/auth/jwt_service.py: a refresh token is good for one exchange, whatever calls of the service
-- come in which order.
use privana.Prelude.{
  ℕ, suc, ◌+◌, ◌≤◌, ◌≡◌, refl, ap, ◌∙◌, ◌⊎◌, inl, inr, Bool, true, false, ◌&&◌, Option, none, some,
  List, [], ◌∷◌, arith, Bool-cases, Option-cases, if◌then◌else◌,
}
use privana.Text.{Text, text_eq, text_eq_iff, text_eq_refl, is_nonempty}
use privana.Effect.{then_do, Outcome, ok, raise, Outcome-cases, ◌>>=◌}
use privana.Auth.DiskCache.{DiskCache, is_some}
use privana.Auth.TokenStore.{
  refresh_key, store_refresh_token, delete_refresh_token, is_refresh_token_valid,
  consume_refresh_token, revoke_all_refresh_tokens_for_address,
}
use privana.Auth.TokenStore.Keys.{refresh-refresh}
use privana.Auth.TokenStore.Entries.{IsDead, IsDead-set, IsDead-delete, IsDead-own}
use privana.Auth.TokenStore.Tokens.{dead-revoke_keys}
use privana.Auth.Jwt.{
  Settings, verify_token, refresh_id, create_token, create_refresh_token, exchanged, refresh_tokens,
  revoked, revoke_refresh_token, revoke_all_refresh_tokens,
}

-- A call of the service: a login with the new token's id and the address, an exchange with the new
-- token's id and the token, and the revocation of a token and of all tokens of an address.
pub data Call : Type 0 where
  issue rotate : Text → Text → Call
  revoke revoke_all : Text → Call

abbrev pub is_ok : {A : Type 0} → Outcome A → Bool
is_ok (ok a) = true
is_ok (raise e) = false

abbrev pub is_id : Outcome Text → Text → Bool
is_id (ok id) n = text_eq id n
is_id (raise e) n = false

-- How often the calls draw the id for a new token.
unfoldable pub draws : Text → List (ℕ × Call) → ℕ
draws n [] = 0
draws n ((_, issue fresh address) ∷ calls) =
    let rest = draws n calls in if text_eq fresh n then suc rest else rest
draws n ((_, rotate fresh token) ∷ calls) =
    let rest = draws n calls in if text_eq fresh n then suc rest else rest
draws n ((_, _) ∷ calls) = draws n calls

module _ (j : Settings) (D : DiskCache Text) where
  -- The id of the refresh token that is presented.
  unfoldable pub presented : ℕ → Text → Outcome Text
  presented now token = then_do (verify_token j now token []) (refresh_id j)

  unfoldable pub perform : ℕ → Call → D.Store → D.Store
  unfolding create_refresh_token revoke_refresh_token revoke_all_refresh_tokens
  perform now (issue fresh address) c = (create_refresh_token j D now fresh address c).1
  perform now (rotate fresh token) c = (refresh_tokens j D now fresh token c).1
  perform now (revoke token) c = (revoke_refresh_token j D now token c).1
  perform now (revoke_all address) c = (revoke_all_refresh_tokens j D now address c).1

  -- Is the call an exchange of a token with this id, that gives new tokens?
  unfoldable pub accepts : ℕ → Text → Call → D.Store → Bool
  unfolding presented
  accepts now n (rotate fresh token) c =
      is_id (presented now token) n && is_ok (refresh_tokens j D now fresh token c).0
  accepts now n _ c = false

  -- How often a sequence of calls, each some seconds after the one before, exchanges a token of the id.
  unfoldable pub exchanges : ℕ → Text → List (ℕ × Call) → D.Store → ℕ
  unfolding accepts perform
  exchanges now n [] c = 0
  exchanges now n ((wait, call) ∷ calls) c =
      let rest = exchanges (now + wait) n calls (perform (now + wait) call c) in
      if accepts (now + wait) n call c then suc rest else rest

  -- An exchange by the id that is presented.
  exchange_of : ℕ → Text → Outcome Text → D.Store → Outcome (Text × Text) × D.Store
  exchange_of now fresh (raise e) c = (raise e, c)
  exchange_of now fresh (ok id) c =
      exchanged j D now fresh (D.get now (refresh_key id) c) (D.delete now (refresh_key id) c)

  refresh_tokens-presented :
      (now : ℕ) (fresh token : Text) (c : D.Store)
      → refresh_tokens j D now fresh token c ≡ exchange_of now fresh (presented now token) c
  unfolding refresh_tokens presented exchange_of ◌>>=◌ consume_refresh_token
  refresh_tokens-presented now fresh token c = elim (Outcome-cases (verify_token j now token [])) [
    | inr (e, h) ↦ rw h refl
    | inl (claims, h) ↦ elim (Outcome-cases (refresh_id j claims)) [
      | inr (e, g) ↦ rw (h, g) refl
      | inl (id, g) ↦ rw (h, g) refl
    ]
  ]

module _ (j : Settings) (D : DiskCache Text) (n : Text) where
  -- No token of the id is in the store from this time on.
  abbrev IsGone : ℕ → D.Store → Type 0
  IsGone t c = IsDead D (refresh_key n) t c

  IsGone-create :
      (t : ℕ) (fresh address : Text) (c : D.Store)
      → text_eq fresh n ≡ false
      → IsGone t c
      → IsGone t (create_refresh_token j D t fresh address c).1
  unfolding create_refresh_token ◌>>=◌ store_refresh_token
  IsGone-create t fresh address c other gone =
      elim (Outcome-cases (j.to_checksum_address address)) [
        | inr (e, h) ↦ rw (create_refresh_token, h) gone
        | inl (b, h) ↦
            rw (create_refresh_token, h)
              (IsDead-set D (refresh_key n) t _ (refresh_key fresh) b c
                (refresh-refresh fresh n ∙ other) gone)
      ]

  IsGone-exchanged :
      (t : ℕ) (fresh : Text) (o : Option Text) (c : D.Store)
      → text_eq fresh n ≡ false
      → IsGone t c
      → IsGone t (exchanged j D t fresh o c).1
  unfolding ◌>>=◌
  IsGone-exchanged t fresh none c other gone = gone
  IsGone-exchanged t fresh (some address) c other gone =
      let made = IsGone-create t fresh address c other gone in
      elim (Outcome-cases (create_token j t address)) [
        | inr (e, h) ↦ rw h gone
        | inl (access, h) ↦ elim (Outcome-cases (create_refresh_token j D t fresh address c).0) [
          | inr (e, g) ↦ rw (h, g) made
          | inl (token, g) ↦ rw (h, g) made
        ]
      ]

  IsGone-exchange_of :
      (t : ℕ) (fresh : Text) (o : Outcome Text) (c : D.Store)
      → text_eq fresh n ≡ false
      → (IsGone t c ⊎ (is_id o n ≡ true))
      → IsGone t (exchange_of j D t fresh o c).1
  unfolding exchange_of
  IsGone-exchange_of t fresh (raise e) c other (inl gone) = gone
  IsGone-exchange_of t fresh (raise e) c other (inr h) = cc
  IsGone-exchange_of t fresh (ok id) c other (inl gone) =
      IsGone-exchanged t fresh _ _ other (IsDead-delete D (refresh_key n) t (refresh_key id) c gone)
  IsGone-exchange_of t fresh (ok id) c other (inr h) =
      rw ((text_eq_iff id n).0 h)
        (IsGone-exchanged t fresh _ _ other (IsDead-own D (refresh_key n) t c))

  IsGone-revoked :
      (t : ℕ) (o : Option Text) (c : D.Store) → IsGone t c → IsGone t (revoked j D t o c).1
  unfolding delete_refresh_token
  IsGone-revoked t none c gone = gone
  IsGone-revoked t (some id) c gone = elim (Bool-cases (is_nonempty id)) [
    | inl e ↦ rw e (IsDead-delete D (refresh_key n) t (refresh_key id) c gone)
    | inr e ↦ rw e gone
  ]

  IsGone-perform :
      (t : ℕ) (call : Call) (c : D.Store)
      → draws n ((0, call) ∷ []) ≡ 0
      → (IsGone t c ⊎ (accepts j D t n call c ≡ true))
      → IsGone t (perform j D t call c)
  unfolding perform draws accepts revoke_refresh_token revoke_all_refresh_tokens
      revoke_all_refresh_tokens_for_address
  IsGone-perform t (issue fresh address) c none_drawn (inl gone) =
      IsGone-create t fresh address c (ground arith) gone
  IsGone-perform t (issue fresh address) c none_drawn (inr h) = cc
  IsGone-perform t (rotate fresh token) c none_drawn (inl gone) =
      rw (perform, refresh_tokens-presented j D t fresh token c)
        (IsGone-exchange_of t fresh (presented j D t token) c (ground arith) (inl gone))
  IsGone-perform t (rotate fresh token) c none_drawn (inr h) =
      rw (perform, refresh_tokens-presented j D t fresh token c)
        (IsGone-exchange_of t fresh (presented j D t token) c (ground arith) (inr (ground arith)))
  IsGone-perform t (revoke token) c none_drawn (inl gone) =
      elim (Outcome-cases (verify_token j t token [])) [
        | inr (e, h) ↦ rw (perform, h) gone
        | inl (claims, h) ↦ rw (perform, h) (IsGone-revoked t claims.jti c gone)
      ]
  IsGone-perform t (revoke token) c none_drawn (inr h) = cc
  IsGone-perform t (revoke_all address) c none_drawn (inl gone) =
      elim (Outcome-cases (j.to_checksum_address address)) [
        | inr (e, h) ↦ rw (perform, h) gone
        | inl (b, h) ↦ rw (perform, h) (dead-revoke_keys D t b (D.keys c) (refresh_key n) 0 c gone)
      ]
  IsGone-perform t (revoke_all address) c none_drawn (inr h) = cc

  refused-exchange_of :
      (t : ℕ) (fresh : Text) (o : Outcome Text) (c : D.Store)
      → IsGone t c
      → is_id o n && is_ok (exchange_of j D t fresh o c).0 ≡ false
  unfolding exchange_of
  refused-exchange_of t fresh (raise e) c gone = refl
  refused-exchange_of t fresh (ok id) c gone = elim (Bool-cases (text_eq id n)) [
    | inl e ↦ rw ((text_eq_iff id n).0 e, gone t (omega arith), text_eq_refl n) refl
    | inr e ↦ rw e refl
  ]

  accepts-IsGone : (t : ℕ) (call : Call) (c : D.Store) → IsGone t c → accepts j D t n call c ≡ false
  unfolding accepts
  accepts-IsGone t (rotate fresh token) c gone =
      rw (refresh_tokens-presented j D t fresh token c)
        (refused-exchange_of t fresh (presented j D t token) c gone)
  accepts-IsGone t (issue _ _) c gone = refl
  accepts-IsGone t (revoke _) c gone = refl
  accepts-IsGone t (revoke_all _) c gone = refl

  draws-cases :
      (wait : ℕ) (call : Call) (calls : List (ℕ × Call))
      → (draws n ((wait, call) ∷ calls) ≡ suc (draws n calls))
        ⊎ ((draws n ((wait, call) ∷ calls) ≡ draws n calls) × (draws n ((0, call) ∷ []) ≡ 0))
  unfolding draws
  draws-cases wait (issue fresh _) calls = elim (Bool-cases (text_eq fresh n)) [
    | inl e ↦ inl (rw e refl)
    | inr e ↦ inr (rw e refl, rw e refl)
  ]
  draws-cases wait (rotate fresh _) calls = elim (Bool-cases (text_eq fresh n)) [
    | inl e ↦ inl (rw e refl)
    | inr e ↦ inr (rw e refl, rw e refl)
  ]
  draws-cases wait (revoke _) calls = inr (refl, refl)
  draws-cases wait (revoke_all _) calls = inr (refl, refl)

  exchanges-draws :
      (calls : List (ℕ × Call)) (t : ℕ) (c : D.Store)
      → (exchanges j D t n calls c ≤ suc (draws n calls))
        × (IsGone t c → exchanges j D t n calls c ≤ draws n calls)
  unfolding exchanges
  exchanges-draws [] t c = (omega arith, λ _. omega arith)
  exchanges-draws ((wait, call) ∷ calls) t c =
      let later = t + wait in
      let rest = exchanges-draws calls later (perform j D later call c) in
      (
        elim (Bool-cases (accepts j D later n call c)) [
          | inl e ↦
              rw (exchanges, e)
                (elim (draws-cases wait call calls) [
                  | inl d ↦ omega (arith, d, rest.0)
                  | inr d ↦ omega (arith, d.0, rest.1 (IsGone-perform later call c d.1 (inr e)))
                ])
          | inr e ↦
              rw (exchanges, e)
                (elim (draws-cases wait call calls) [
                  | inl d ↦ omega (arith, d, rest.0)
                  | inr d ↦ omega (arith, d.0, rest.0)
                ])
        ],
        λ gone.
            let still : IsGone later c = λ u le. gone u (omega arith) in
            rw (exchanges, accepts-IsGone later call c still)
              (elim (draws-cases wait call calls) [
                | inl d ↦ omega (arith, d, rest.0)
                | inr d ↦ omega (arith, d.0, rest.1 (IsGone-perform later call c d.1 (inl still)))
              ]),
      )

  -- If no token of an id is in the store, then in any sequence of logins, exchanges and revocations,
  -- with any waits in between and whatever tokens are presented, refresh tokens of this id are
  -- exchanged at most as often as the service draws the id: a refresh token of an id that is drawn
  -- once is good for one exchange.
  pub exchanges_at_most_draws :
      (calls : List (ℕ × Call)) (t : ℕ) (c : D.Store)
      → ((u : ℕ) → t ≤ u → is_refresh_token_valid D u n c ≡ false)
      → exchanges j D t n calls c ≤ draws n calls
  unfolding is_refresh_token_valid
  exchanges_at_most_draws calls t c unknown = (exchanges-draws calls t c).1 λ u le.
      elim (Option-cases (D.get u (refresh_key n) c)) [
        | inl e ↦ e
        | inr (v, e) ↦ cc (ap is_some e, unknown u le)
      ]
