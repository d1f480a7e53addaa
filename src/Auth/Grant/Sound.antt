-- ===== src/Auth/Grant/Sound.antt =====
-- src/api/auth_routes.py: who is given tokens for an authorization code.
use privana.Prelude.{
  ℕ, ◌/◌, ◌≡◌, refl, sym, ap, ◌∙◌, inl, inr, Bool, true, false, not, Option, none, some, arith,
  Option-cases, if◌then◌else◌,
}
use privana.Text.{Text, codes, text_eq, text_eq_iff}
use privana.Dict.{lookup}
use privana.Effect.{Outcome, ok, raise, Outcome-cases, ok-injective, ◌>>=◌}
use privana.Auth.DiskCache.{DiskCache}
use privana.Auth.RateLimiter.{Window, second, hit}
use privana.Auth.CodeStore.{AuthCodeRecord, code_key, get_code, consume_code}
use privana.Auth.Jwt.{create_token, create_id_token, create_refresh_token}
use privana.Auth.Clients.{
  AuthClient, normalize_redirect_uri, validate_redirect_uri, is_listed, redirect_origin,
  verify_pkce,
}
use privana.Auth.Grant.{
  TokenExchangeRequest, TokenExchangeResponse, Reply, auth_error, granted, crashed, Endpoint,
  is_foreign, issue, reply_of, consumed, proven, with_record, limited, with_origin, with_uri,
  exchange_code,
}

module _ {S : Type 0} (o : Option Text) (k : TokenExchangeResponse) (s' : S) where
  not-granted :
      (b : Bool) (n : ℕ) (m : Text) (p : Option Text) (w : Option ℕ) (s : S) (r : Reply × S)
      → (if b then (auth_error n m p w, s) else r) ≡ (granted o k, s')
      → (b ≡ false) × (r ≡ (granted o k, s'))
  not-granted true n m p w s r h =
      let e : auth_error n m p w ≡ granted o k = ap (λ (x : Reply × S). x.0) h in cc
  not-granted false n m p w s r h = (refl, h)

  -- An error grants nothing.
  error-grants_none :
      {P : Type 0} (n : ℕ) (m : Text) (p : Option Text) (w : Option ℕ) (s : S)
      → ◌≡◌ {A = Reply × S} (auth_error n m p w, s) (granted o k, s')
      → P
  error-grants_none n m p w s h =
      let e : auth_error n m p w ≡ granted o k = ap (λ (x : Reply × S). x.0) h in cc

module _ (e : Endpoint) (C : DiskCache AuthCodeRecord) (T : DiskCache Text) (L : DiskCache Window)
    (now : ℕ) (fresh : Text) (q : TokenExchangeRequest) (o : Option Text)
    (k : TokenExchangeResponse) (s : C.Store × T.Store × L.Store) where
  -- The tokens are made for the record's address, the identity token for the client, and the entry of the
  -- refresh token is in the store; the code is gone.
  abbrev pub IsIssued : AuthClient → AuthCodeRecord → C.Store → T.Store → Type 0
  IsIssued client r c t =
      (create_token e.jwt now r.user_address ≡ ok k.access_token)
      × (create_id_token e.jwt now r.user_address client.audience ≡ ok k.id_token)
      × ((create_refresh_token e.jwt T now fresh r.user_address t).0 ≡ ok k.refresh_token)
      × (s.1 ≡ (create_refresh_token e.jwt T now fresh r.user_address t).1)
      × (k.address ≡ r.user_address)
      × (s.0 ≡ C.delete now (code_key q.code) c)

  issue-ok :
      (client : AuthClient) (address : Text) (t : T.Store)
      → (issue e C T L now fresh client address t).0 ≡ ok k
      → (create_token e.jwt now address ≡ ok k.access_token)
        × (create_id_token e.jwt now address client.audience ≡ ok k.id_token)
        × ((create_refresh_token e.jwt T now fresh address t).0 ≡ ok k.refresh_token)
        × ((issue e C T L now fresh client address t).1
            ≡ (create_refresh_token e.jwt T now fresh address t).1)
        × (k.address ≡ address)
  unfolding issue ◌>>=◌
  issue-ok client address t h = elim (Outcome-cases (create_token e.jwt now address)) [
    | inr (x, e1) ↦ let got : raise x ≡ ok k = rw (issue, e1) at h in cc
    | inl (a, e1) ↦ elim (Outcome-cases (create_id_token e.jwt now address client.audience)) [
      | inr (x, e2) ↦ let got : raise x ≡ ok k = rw (issue, e1, e2) at h in cc
      | inl (i, e2) ↦ elim (Outcome-cases (create_refresh_token e.jwt T now fresh address t).0) [
        | inr (x, e3) ↦ let got : raise x ≡ ok k = rw (issue, e1, e2, e3) at h in cc
        | inl (r, e3) ↦
            let same = ok-injective _ _ (rw (issue, e1, e2, e3) at h) in
            (
              e1 ∙ ap (λ x. ok (x.access_token)) same,
              e2 ∙ ap (λ x. ok (x.id_token)) same,
              e3 ∙ ap (λ x. ok (x.refresh_token)) same,
              rw (issue, e1, e2, e3) refl,
              ap (λ x. x.address) (sym same),
            )
      ]
    ]
  ]

  consumed-granted :
      (client : AuthClient) (p : Option Text) (r : AuthCodeRecord) (m : Option AuthCodeRecord)
      (c d : C.Store) (t : T.Store) (l : L.Store)
      → c ≡ C.delete now (code_key q.code) d
      → consumed e C T L now fresh client p r m (c, t, l) ≡ (granted o k, s)
      → IsIssued client r d t
  consumed-granted client p r none c d t l gone h = error-grants_none o k s _ _ _ _ _ h
  consumed-granted client p r (some x) c d t l gone h =
      let first : reply_of e C T L p (issue e C T L now fresh client r.user_address t).0
          ≡ granted o k =
        ap (λ (y : Reply × (C.Store × T.Store × L.Store)). y.0) h in
      let left : c ≡ s.0 = ap (λ (y : Reply × (C.Store × T.Store × L.Store)). y.1.0) h in
      elim (Outcome-cases (issue e C T L now fresh client r.user_address t).0) [
        | inr (x, e1) ↦ let got : crashed x ≡ granted o k = rw e1 at first in cc
        | inl (j, e1) ↦
            let got : granted p j ≡ granted o k = rw e1 at first in
            let same : j ≡ k = cc in
            let (made, ident, refresh, kept, address) =
              issue-ok client r.user_address t (e1 ∙ ap ok same) in
            let stored : (issue e C T L now fresh client r.user_address t).1 ≡ s.1 =
              ap (λ (y : Reply × (C.Store × T.Store × L.Store)). y.1.1) h in
            (made, ident, refresh, sym stored ∙ kept, address, sym left ∙ gone)
      ]

  proven-granted :
      (client : AuthClient) (r : AuthCodeRecord) (pkce : Outcome Bool) (c : C.Store) (t : T.Store)
      (l : L.Store)
      → proven e C T L now fresh q client r pkce (c, t, l) ≡ (granted o k, s)
      → (pkce ≡ ok true) × IsIssued client r c t
  unfolding consume_code
  proven-granted client r (raise x) c t l h = error-grants_none o k s _ _ _ _ _ h
  proven-granted client r (ok false) c t l h = error-grants_none o k s _ _ _ _ _ h
  proven-granted client r (ok true) c t l h = (
    refl,
    consumed-granted client q.origin r (C.get now (code_key q.code) c)
        (C.delete now (code_key q.code) c) c t l refl h,
  )

  -- The code is kept with a record of the client, the URI and the challenge that the verifier answers.
  abbrev pub IsProven : AuthClient → Text → C.Store → T.Store → Type 0
  IsProven client uri c t =
      (r : AuthCodeRecord) × (C.get now (code_key q.code) c ≡ some r)
      × (r.client_id ≡ q.client_id)
      × (r.redirect_uri ≡ uri)
      × (verify_pkce e.web q.code_verifier r.code_challenge r.code_challenge_method ≡ ok true)
      × IsIssued client r c t

  with_record-granted :
      (client : AuthClient) (uri : Text) (c : C.Store) (t : T.Store) (l : L.Store)
      → with_record e C T L now fresh q client uri (get_code C now q.code c) (c, t, l)
        ≡ (granted o k, s)
      → IsProven client uri c t
  unfolding get_code
  with_record-granted client uri c t l h = elim (Option-cases (C.get now (code_key q.code) c)) [
    | inl found ↦ error-grants_none o k s _ _ _ _ _ (rw (get_code, found) at h)
    | inr (r, found) ↦
        let (client_differs, h1) =
          not-granted o k s (not (text_eq r.client_id q.client_id)) _ _ _ _ _ _
            (rw (get_code, found) at h) in
        let (uri_differs, h2) =
          not-granted o k s (not (text_eq r.redirect_uri uri)) _ _ _ _ _ _ h1 in
        let (answered, made) = proven-granted client r _ c t l h2 in
        (
          r,
          found,
          (text_eq_iff r.client_id q.client_id).0 (ground arith),
          (text_eq_iff r.redirect_uri uri).0 (ground arith),
          answered,
          made,
        )
  ]

  limited-granted :
      (client : AuthClient) (uri : Text) (m : Option ℕ) (c : C.Store) (t : T.Store) (l : L.Store)
      → limited e C T L now fresh q client uri m (c, t, l) ≡ (granted o k, s)
      → (m ≡ none) × IsProven client uri c t
  limited-granted client uri (some n) c t l h = error-grants_none o k s _ _ _ _ _ h
  limited-granted client uri none c t l h = (refl, with_record-granted client uri c t l h)

registered-is_listed :
    (e : Endpoint) (client : AuthClient) (uri given : Text)
    → normalize_redirect_uri e.web given ≡ ok uri
    → validate_redirect_uri e.web (some client) given ≡ true
    → is_listed e.web uri client.redirect_uris ≡ true
unfolding validate_redirect_uri
registered-is_listed e client uri given normal h = rw (validate_redirect_uri, normal) at h

module _ (e : Endpoint) (C : DiskCache AuthCodeRecord) (T : DiskCache Text) (L : DiskCache Window)
    (now : ℕ) (fresh : Text) (q : TokenExchangeRequest) (o : Option Text)
    (k : TokenExchangeResponse) (s s' : C.Store × T.Store × L.Store) where
  -- The origin is that of the redirect URI, if there is one, and the limiter lets the request through.
  abbrev pub IsAdmitted : AuthClient → Text → Type 0
  IsAdmitted client uri =
      (expected : Text) × (redirect_origin e.web uri ≡ ok expected)
      × (is_foreign q.origin expected ≡ false)
      × ((hit L now (codes "auth_token_exchange") q.identity e.auth_token_rate_limit
            e.auth_rate_limit_window_seconds s.2).0
          ≡ none)
      × IsProven e C T L (now / second) fresh q o k s' client uri s.0 s.1

  with_origin-granted :
      (client : AuthClient) (uri : Text) (m : Outcome Text)
      → redirect_origin e.web uri ≡ m
      → with_origin e C T L now fresh q client uri m s ≡ (granted o k, s')
      → IsAdmitted client uri
  with_origin-granted client uri (raise x) same h =
      let first : crashed x ≡ granted o k =
        ap (λ (y : Reply × (C.Store × T.Store × L.Store)). y.0) h in
      cc
  with_origin-granted client uri (ok expected) same h =
      let (own, h1) = not-granted o k s' (is_foreign q.origin expected) _ _ _ _ _ _ h in
      let (counted, known) =
        limited-granted e C T L (now / second) fresh q o k s' client uri _ s.0 s.1 _ h1 in
      (expected, same, own, counted, known)

  with_uri-granted :
      (client : AuthClient) (m : Outcome Text)
      → with_uri e C T L now fresh q client m s ≡ (granted o k, s')
      → (uri : Text) × (m ≡ ok uri) × IsAdmitted client uri
  with_uri-granted client (raise x) h =
      let first : crashed x ≡ granted o k =
        ap (λ (y : Reply × (C.Store × T.Store × L.Store)). y.0) h in
      cc
  with_uri-granted client (ok uri) h =
      (uri, refl, with_origin-granted client uri (redirect_origin e.web uri) refl h)

  -- Tokens are given only for a request of a known client with the grant type of codes, whose redirect
  -- URI is registered for the client and has the origin that the request names, if it names one, and
  -- which the limiter lets through. The code is then kept with a record of this client and this URI, whose
  -- challenge the verifier answers; the access, the identity and the refresh token are made for the
  -- address of the record, the identity token for the client's audience and the refresh token with its
  -- entry in the store, and the code is deleted.
  pub exchange_code_sound :
      exchange_code e C T L now fresh q s ≡ (granted o k, s')
      → (client : AuthClient) × (uri : Text) × (lookup q.client_id e.clients ≡ some client)
        × (q.grant_type ≡ codes "authorization_code")
        × (normalize_redirect_uri e.web q.redirect_uri ≡ ok uri)
        × (is_listed e.web uri client.redirect_uris ≡ true)
        × IsAdmitted client uri
  unfolding exchange_code
  exchange_code_sound h = elim (Option-cases (lookup q.client_id e.clients)) [
    | inl unknown ↦ error-grants_none o k s' _ _ _ _ _ (rw (exchange_code, unknown) at h)
    | inr (client, known) ↦
        let (other_type, h1) =
          not-granted o k s' (not (text_eq q.grant_type (codes "authorization_code"))) _ _ _ _ _ _
            (rw (exchange_code, known) at h) in
        let (unregistered, h2) =
          not-granted o k s' (not (validate_redirect_uri e.web (some client) q.redirect_uri)) _ _ _
            _ _ _ h1 in
        let (uri, normal, admitted) =
          with_uri-granted client (normalize_redirect_uri e.web q.redirect_uri) h2 in
        let registered : validate_redirect_uri e.web (some client) q.redirect_uri ≡ true =
          ground arith in
        (
          client,
          uri,
          known,
          (text_eq_iff q.grant_type (codes "authorization_code")).0 (ground arith),
          normal,
          registered-is_listed e client uri q.redirect_uri normal registered,
          admitted,
        )
  ]
