-- ===== src/Auth/Grant.antt =====
-- src/api/auth_routes.py: `exchange_code`, the endpoint that gives tokens for an authorization code. The Origin
-- header comes as `request_origin` gives it, and the client as `request_identity` names it. The clock
-- counts microseconds for the limiter and whole seconds for the others. Descriptions of errors are left
-- out.
pub mod Sound
pub mod Single
mod Tests
use privana.Prelude.{ℕ, ◌*◌, ◌/◌, ◌≡◌, Bool, true, false, not, Option, none, some, if◌then◌else◌}
use privana.Text.{Text, codes, text_eq}
use privana.Dict.{Dict, lookup}
use privana.Effect.{Outcome, ok, raise, Exn, value_error, M, pure, lift, ◌>>=◌}
use privana.Auth.DiskCache.{DiskCache}
use privana.Auth.RateLimiter.{Window, second, hit}
use privana.Auth.CodeStore.{AuthCodeRecord, get_code, consume_code}
use privana.Auth.Jwt.{Settings, create_token, create_id_token, create_refresh_token}
use privana.Auth.Clients.{
  WebLibrary, AuthClient, normalize_redirect_uri, validate_redirect_uri, redirect_origin,
  verify_pkce,
}

pub record TokenExchangeRequest : Type 0 where
  pub grant_type : Text
  pub code : Text
  pub code_verifier : Text
  pub client_id : Text
  pub redirect_uri : Text
  pub origin : Option Text
  pub identity : Text

pub record TokenExchangeResponse : Type 0 where
  pub access_token : Text
  pub id_token : Text
  pub refresh_token : Text
  pub expires_in : ℕ
  pub refresh_expires_in : ℕ
  pub address : Text

-- A response: an error with its status, the origin that may read it and the seconds to wait, or tokens
-- with that origin. An exception that no handler takes makes the server's own error.
pub data Reply : Type 0 where
  auth_error : ℕ → Text → Option Text → Option ℕ → Reply
  granted : Option Text → TokenExchangeResponse → Reply
  crashed : Exn → Reply

-- The services behind the endpoint.
pub record Endpoint : Type 0 where
  pub web : WebLibrary
  pub jwt : Settings
  pub clients : Dict AuthClient
  pub auth_token_rate_limit : ℕ
  pub auth_rate_limit_window_seconds : ℕ

abbrev pub is_foreign : Option Text → Text → Bool
is_foreign none expected = false
is_foreign (some origin) expected = not (text_eq origin expected)

module _ (e : Endpoint) (C : DiskCache AuthCodeRecord) (T : DiskCache Text)
    (L : DiskCache Window) where
  abbrev pub Stores : Type 0
  Stores = C.Store × T.Store × L.Store

  -- The three tokens, made in this order; the address keeps its spelling.
  unfoldable pub issue : ℕ → Text → AuthClient → Text → M T.Store TokenExchangeResponse
  issue now fresh client address = do
    access ← lift (create_token e.jwt now address)
    ident ← lift (create_id_token e.jwt now address client.audience)
    refresh ← create_refresh_token e.jwt T now fresh address
    pure (record {
      access_token = access;
      id_token = ident;
      refresh_token = refresh;
      expires_in = e.jwt.expiry_hours * 3600;
      refresh_expires_in = e.jwt.refresh_expiry_days * 24 * 3600;
      address = address;
    })

  abbrev pub reply_of : Option Text → Outcome TokenExchangeResponse → Reply
  reply_of origin (ok tokens) = granted origin tokens
  reply_of origin (raise exc) = crashed exc

  abbrev pub consumed :
      ℕ
      → Text
      → AuthClient
      → Option Text
      → AuthCodeRecord
      → Option AuthCodeRecord
      → Stores
      → Reply × Stores
  consumed now fresh client origin r none s =
      (auth_error 400 (codes "invalid_grant") origin none, s)
  consumed now fresh client origin r (some _) (c, t, l) = (
    reply_of origin (issue now fresh client r.user_address t).0,
    (c, (issue now fresh client r.user_address t).1, l),
  )

  -- Behind the verifier of PKCE.
  abbrev pub proven :
      ℕ
      → Text
      → TokenExchangeRequest
      → AuthClient
      → AuthCodeRecord
      → Outcome Bool
      → Stores
      → Reply × Stores
  proven now fresh q client r (raise exc) s =
      (auth_error 400 (codes "invalid_grant") q.origin none, s)
  proven now fresh q client r (ok false) s =
      (auth_error 400 (codes "invalid_grant") q.origin none, s)
  proven now fresh q client r (ok true) (c, t, l) =
      consumed now fresh client q.origin r (consume_code C now q.code c).0
        ((consume_code C now q.code c).1, t, l)

  abbrev pub with_record :
      ℕ
      → Text
      → TokenExchangeRequest
      → AuthClient
      → Text
      → Option AuthCodeRecord
      → Stores
      → Reply × Stores
  with_record now fresh q client uri none s = (auth_error 400 (codes "invalid_grant") none none, s)
  with_record now fresh q client uri (some r) s =
      if not (text_eq r.client_id q.client_id)
      then (auth_error 400 (codes "invalid_client") none none, s)
      else if not (text_eq r.redirect_uri uri)
      then (auth_error 400 (codes "invalid_redirect_uri") q.origin none, s)
      else proven now fresh q client r
          (verify_pkce e.web q.code_verifier r.code_challenge r.code_challenge_method) s

  abbrev pub limited :
      ℕ → Text → TokenExchangeRequest → AuthClient → Text → Option ℕ → Stores → Reply × Stores
  limited now fresh q client uri (some retry_after) s =
      (auth_error 429 (codes "rate_limited") q.origin (some retry_after), s)
  limited now fresh q client uri none (c, t, l) =
      with_record now fresh q client uri (get_code C now q.code c) (c, t, l)

  abbrev pub with_origin :
      ℕ → Text → TokenExchangeRequest → AuthClient → Text → Outcome Text → Stores → Reply × Stores
  with_origin now fresh q client uri (raise exc) s = (crashed exc, s)
  with_origin now fresh q client uri (ok expected) (c, t, l) =
      if is_foreign q.origin expected
      then (auth_error 400 (codes "invalid_origin") none none, (c, t, l))
      else let counted =
          hit L now (codes "auth_token_exchange") q.identity e.auth_token_rate_limit
            e.auth_rate_limit_window_seconds l in
        limited (now / second) fresh q client uri counted.0 (c, t, counted.1)

  abbrev pub with_uri :
      ℕ → Text → TokenExchangeRequest → AuthClient → Outcome Text → Stores → Reply × Stores
  with_uri now fresh q client (raise exc) s = (crashed exc, s)
  with_uri now fresh q client (ok uri) s =
      with_origin now fresh q client uri (redirect_origin e.web uri) s

  abbrev pub with_client :
      ℕ → Text → TokenExchangeRequest → Option AuthClient → Stores → Reply × Stores
  with_client now fresh q none s = (auth_error 400 (codes "invalid_client") none none, s)
  with_client now fresh q (some client) s =
      if not (text_eq q.grant_type (codes "authorization_code"))
      then (auth_error 400 (codes "unsupported_grant_type") none none, s)
      else if not (validate_redirect_uri e.web (some client) q.redirect_uri)
      then (auth_error 400 (codes "invalid_redirect_uri") none none, s)
      else with_uri now fresh q client (normalize_redirect_uri e.web q.redirect_uri) s

  -- `fresh` is the id that is drawn for the refresh token.
  unfoldable pub exchange_code : ℕ → Text → TokenExchangeRequest → Stores → Reply × Stores
  exchange_code now fresh q s = with_client now fresh q (lookup q.client_id e.clients) s
