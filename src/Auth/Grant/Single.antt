-- ===== src/Auth/Grant/Single.antt =====
-- src/api/auth_routes.py and src/auth/code_store.py: a code is good for one grant, whatever requests come in
-- which order.
use privana.Prelude.{
  ℕ, suc, ◌+◌, ◌/◌, ◌≤◌, ◌≡◌, refl, sym, ap, ◌∙◌, ◌⊎◌, inl, inr, Bool, true, false, not, ◌&&◌,
  Option, none, some, List, [], ◌∷◌, arith, Bool-cases, if◌then◌else◌,
}
use privana.Text.{Text, codes, text_eq, text_eq_iff}
use privana.Dict.{lookup}
use privana.Effect.{Outcome, ok, raise}
use privana.Auth.DiskCache.{DiskCache}
use privana.Auth.RateLimiter.{Window, second}
use privana.Auth.CodeStore.{AuthCodeRecord, code_key, create_code, get_code, consume_code}
use privana.Auth.TokenStore.Entries.{IsDead, IsDead-set, IsDead-delete, IsDead-own}
use privana.Auth.Clients.{
  AuthClient, normalize_redirect_uri, validate_redirect_uri, redirect_origin, verify_pkce,
}
use privana.Auth.Grant.{
  TokenExchangeRequest, TokenExchangeResponse, Reply, auth_error, granted, crashed, Endpoint,
  is_foreign, consumed, proven, with_record, limited, with_origin, with_uri, with_client,
  exchange_code,
}
use privana.Auth.Grant.Sound.{exchange_code_sound}

-- A code that is stored for so many seconds, and a request with the id that is drawn for a refresh token.
pub data Event : Type 0 where
  mint : ℕ → Text → AuthCodeRecord → Event
  present : Text → TokenExchangeRequest → Event

abbrev pub is_granted : Reply → Bool
is_granted (granted _ _) = true
is_granted (auth_error _ _ _ _) = false
is_granted (crashed _) = false

-- How often the code is drawn.
unfoldable pub draws : Text → List (ℕ × Event) → ℕ
draws code [] = 0
draws code ((_, mint ttl drawn r) ∷ events) =
    let rest = draws code events in if text_eq drawn code then suc rest else rest
draws code ((_, present fresh q) ∷ events) = draws code events

module _ (e : Endpoint) (C : DiskCache AuthCodeRecord) (T : DiskCache Text)
    (L : DiskCache Window) where
  unfoldable pub perform : ℕ → Event → C.Store × T.Store × L.Store → C.Store × T.Store × L.Store
  unfolding create_code exchange_code
  perform now (mint ttl code r) (c, t, l) = (create_code C (now / second) ttl code r c, t, l)
  perform now (present fresh q) s = (exchange_code e C T L now fresh q s).1

  -- Is the event a request with this code that is given tokens?
  unfoldable pub accepts : ℕ → Text → Event → C.Store × T.Store × L.Store → Bool
  accepts now code (mint ttl drawn r) s = false
  accepts now code (present fresh q) s =
      text_eq q.code code && is_granted (exchange_code e C T L now fresh q s).0

  -- How often the code is given tokens for in a sequence of events, each some time after the one before.
  unfoldable pub grants : ℕ → Text → List (ℕ × Event) → C.Store × T.Store × L.Store → ℕ
  unfolding accepts perform
  grants now code [] s = 0
  grants now code ((wait, event) ∷ events) s =
      let rest = grants (now + wait) code events (perform (now + wait) event s) in
      if accepts (now + wait) code event s then suc rest else rest

  -- What a request leaves of the codes: all, or all but its own.
  abbrev IsLeft : ℕ → TokenExchangeRequest → C.Store → C.Store → Type 0
  IsLeft now q c d = (d ≡ c) ⊎ (d ≡ C.delete now (code_key q.code) c)

  IsLeft-if :
      (now : ℕ) (q : TokenExchangeRequest) (s : C.Store × T.Store × L.Store) (b : Bool) (x : Reply)
      (y : Reply × (C.Store × T.Store × L.Store))
      → IsLeft now q s.0 y.1.0
      → IsLeft now q s.0 (if b then (x, s) else y).1.0
  IsLeft-if now q s true x y h = inl refl
  IsLeft-if now q s false x y h = h

  with_record-codes :
      (now : ℕ) (fresh : Text) (q : TokenExchangeRequest) (client : AuthClient) (uri : Text)
      (m : Option AuthCodeRecord) (c : C.Store) (t : T.Store) (l : L.Store)
      → IsLeft now q c (with_record e C T L now fresh q client uri m (c, t, l)).1.0
  unfolding consume_code
  with_record-codes now fresh q client uri none c t l = inl refl
  with_record-codes now fresh q client uri (some r) c t l =
      IsLeft-if now q (c, t, l) (not (text_eq r.client_id q.client_id)) _ _
        (IsLeft-if now q (c, t, l) (not (text_eq r.redirect_uri uri)) _ _
          (answered (verify_pkce e.web q.code_verifier r.code_challenge r.code_challenge_method)))
    where
      gone :
          (o : Option AuthCodeRecord) (d : C.Store)
          → (consumed e C T L now fresh client q.origin r o (d, t, l)).1.0 ≡ d
      gone none d = refl
      gone (some x) d = refl

      answered :
          (pkce : Outcome Bool)
          → IsLeft now q c (proven e C T L now fresh q client r pkce (c, t, l)).1.0
      answered (raise x) = inl refl
      answered (ok false) = inl refl
      answered (ok true) =
          inr (gone (C.get now (code_key q.code) c) (C.delete now (code_key q.code) c))

  exchange_code-codes :
      (now : ℕ) (fresh : Text) (q : TokenExchangeRequest) (s : C.Store × T.Store × L.Store)
      → IsLeft (now / second) q s.0 (exchange_code e C T L now fresh q s).1.0
  unfolding exchange_code
  exchange_code-codes now fresh q s = by_client (lookup q.client_id e.clients)
    where
      by_limit :
          (client : AuthClient) (uri : Text) (m : Option ℕ) (l : L.Store)
          → IsLeft
              (now / second)
              q
              s.0
              (limited e C T L (now / second) fresh q client uri m (s.0, s.1, l)).1.0
      by_limit client uri (some n) l = inl refl
      by_limit client uri none l =
          with_record-codes (now / second) fresh q client uri (get_code C (now / second) q.code s.0)
            s.0 s.1 l

      by_origin :
          (client : AuthClient) (uri : Text) (m : Outcome Text)
          → IsLeft (now / second) q s.0 (with_origin e C T L now fresh q client uri m s).1.0
      by_origin client uri (raise x) = inl refl
      by_origin client uri (ok expected) =
          IsLeft-if (now / second) q s (is_foreign q.origin expected) _ _ (by_limit client uri _ _)

      by_uri :
          (client : AuthClient) (m : Outcome Text)
          → IsLeft (now / second) q s.0 (with_uri e C T L now fresh q client m s).1.0
      by_uri client (raise x) = inl refl
      by_uri client (ok uri) = by_origin client uri (redirect_origin e.web uri)

      by_client :
          (m : Option AuthClient)
          → IsLeft (now / second) q s.0 (with_client e C T L now fresh q m s).1.0
      by_client none = inl refl
      by_client (some client) =
          IsLeft-if (now / second) q s (not (text_eq q.grant_type (codes "authorization_code"))) _ _
            (IsLeft-if (now / second) q s
              (not (validate_redirect_uri e.web (some client) q.redirect_uri)) _ _
              (by_uri client (normalize_redirect_uri e.web q.redirect_uri)))

  granted-cases :
      {S : Type 0} (x : Reply × S)
      → is_granted x.0 ≡ true
      → (o : Option Text) × (k : TokenExchangeResponse) × (x ≡ (granted o k, x.1))
  granted-cases (granted o k, s) h = (o, k, refl)
  granted-cases (auth_error n m p w, s) h = cc
  granted-cases (crashed x, s) h = cc

  code_key-differs : (a b : Text) → text_eq a b ≡ false → text_eq (code_key a) (code_key b) ≡ false
  unfolding text_eq
  code_key-differs a b h = h

  module _ (code : Text) where
    -- From this time on the code is not in its store.
    abbrev IsGone : ℕ → C.Store × T.Store × L.Store → Type 0
    IsGone now s = IsDead C (code_key code) (now / second) s.0

    IsGone-later : (t u : ℕ) (s : C.Store × T.Store × L.Store) → t ≤ u → IsGone t s → IsGone u s
    IsGone-later t u s le gone v later = gone v (omega (arith, le, later))

    -- A request with the code that is given tokens finds it, and leaves it used up.
    accepted :
        (now : ℕ) (event : Event) (s : C.Store × T.Store × L.Store)
        → accepts now code event s ≡ true
        → ((r : AuthCodeRecord) × (C.get (now / second) (code_key code) s.0 ≡ some r))
          × IsGone now (perform now event s)
    unfolding accepts perform
    accepted now (mint ttl drawn r) s h = cc
    accepted now (present fresh q) s h =
        let same : q.code ≡ code = (text_eq_iff q.code code).0 (ground arith) in
        let given : is_granted (exchange_code e C T L now fresh q s).0 ≡ true = ground arith in
        let (o, k, is_reply) = granted-cases (exchange_code e C T L now fresh q s) given in
        let (_, _, _, _, _, _, admitted) =
          exchange_code_sound e C T L now fresh q o k s _ is_reply in
        let (_, _, _, _, known) = admitted in
        let (r, found, _, _, _, issued) = known in
        let (_, _, _, _, _, left) = issued in
        (
          (r, rw same at found),
          λ u le.
              ap (λ x. C.get u (code_key code) x)
                (left ∙ ap (λ x. C.delete (now / second) (code_key x) s.0) same)
              ∙ IsDead-own C (code_key code) (now / second) s.0 u le,
        )

    gone-refused :
        (now : ℕ) (event : Event) (s : C.Store × T.Store × L.Store)
        → IsGone now s
        → accepts now code event s ≡ false
    gone-refused now event s gone = elim (Bool-cases (accepts now code event s)) [
      | inr refused ↦ refused
      | inl given ↦
          let ((r, found), _) = accepted now event s given in
          let clash : none ≡ some r = sym (gone (now / second) (omega arith)) ∙ found in cc
    ]

    -- Only the drawing of the code brings it back.
    IsGone-present :
        (now : ℕ) (fresh : Text) (q : TokenExchangeRequest) (s : C.Store × T.Store × L.Store)
        → IsGone now s
        → IsGone now (perform now (present fresh q) s)
    unfolding perform
    IsGone-present now fresh q s gone = elim (exchange_code-codes now fresh q s) [
      | inl kept ↦ rw kept gone
      | inr used ↦
          rw used (IsDead-delete C (code_key code) (now / second) (code_key q.code) s.0 gone)
    ]

    IsGone-mint :
        (now ttl : ℕ) (drawn : Text) (r : AuthCodeRecord) (s : C.Store × T.Store × L.Store)
        → text_eq drawn code ≡ false
        → IsGone now s
        → IsGone now (perform now (mint ttl drawn r) s)
    unfolding perform create_code
    IsGone-mint now ttl drawn r s other gone =
        IsDead-set C (code_key code) (now / second) ttl (code_key drawn) r s.0
          (code_key-differs drawn code other) gone

    grants_at_most_after :
        (events : List (ℕ × Event)) (now : ℕ) (s : C.Store × T.Store × L.Store)
        → (grants now code events s ≤ suc (draws code events))
          × (IsGone now s → grants now code events s ≤ draws code events)
    unfolding grants draws
    grants_at_most_after [] now s = (omega arith, λ _. omega arith)
    grants_at_most_after ((wait, mint ttl drawn r) ∷ events) now s =
        let (any, none_left) =
          grants_at_most_after events (now + wait) (perform (now + wait) (mint ttl drawn r) s) in
        elim (Bool-cases (text_eq drawn code)) [
          | inl own ↦ rw (own, accepts) (omega (arith, any), λ _. any)
          | inr other ↦
              rw (other, accepts)
                (
                  any,
                  λ gone. none_left (
                      IsGone-mint (now + wait) ttl drawn r s other
                        (IsGone-later now (now + wait) s (omega arith) gone)),
                )
        ]
    grants_at_most_after ((wait, present fresh q) ∷ events) now s =
        let t = now + wait in
        let (any, none_left) = grants_at_most_after events t (perform t (present fresh q) s) in
        elim (Bool-cases (accepts t code (present fresh q) s)) [
          | inl given ↦
              let (_, gone_after) = accepted t (present fresh q) s given in
              let few = none_left gone_after in
              (
                rw given (omega (arith, few)),
                λ gone.
                    let refused =
                      gone-refused t (present fresh q) s
                        (IsGone-later now t s (omega arith) gone) in
                    cc,
              )
          | inr refused ↦ rw refused (
            any,
            λ gone.
                none_left (IsGone-present t fresh q s (IsGone-later now t s (omega arith) gone)),
          )
        ]

    -- From a store without the code, in any sequence of codes that are drawn and requests that come in,
    -- tokens are given for the code at most as often as it is drawn, one request for each.
    pub grants_at_most_draws :
        (events : List (ℕ × Event)) (now : ℕ) (s : C.Store × T.Store × L.Store)
        → ((u : ℕ) → now / second ≤ u → C.get u (code_key code) s.0 ≡ none)
        → grants now code events s ≤ draws code events
    grants_at_most_draws events now s gone = (grants_at_most_after events now s).1 gone
