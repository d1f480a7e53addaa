-- ===== src/Auth/Grant/Tests.antt =====
-- Runs of the token endpoint for one client, on stores in memory.
use privana.Prelude.{
  ℕ, ◌≤◌, ◌≡◌, refl, true, Option, none, some, [], ◌∷◌, ◌++◌, ◌==◌, if◌then◌else◌,
}
use privana.Text.{Text, codes, text_eq, is_nonempty, strip_prefix}
use privana.Dict.{lookup, insert}
use privana.Effect.{Outcome, ok, raise, value_error, ◌>>=◌}
use privana.Auth.Memory.{memory}
use privana.Auth.RateLimiter.{Window, hit, count_hit}
use privana.Auth.CodeStore.{AuthCodeRecord, code_key, create_code, get_code, consume_code}
use privana.Auth.Jwt.{
  access_claims, id_claims, refresh_claims, create_token, create_id_token, create_refresh_token,
}
use privana.Auth.Jwt.Sample.{service}
use privana.Intent.{strip_padding}
use privana.Auth.Clients.{
  Url, WebLibrary, AuthClient, normalize_redirect_uri, validate_redirect_uri, is_listed,
  redirect_origin, verify_pkce,
}
use privana.Auth.Grant.{
  TokenExchangeRequest, TokenExchangeResponse, granted, Endpoint, Stores, issue, exchange_code,
}
use privana.Auth.Grant.Sound.{IsAdmitted, exchange_code_sound}
use privana.Auth.Grant.Single.{mint, present, draws, grants, grants_at_most_draws}

-- The text up to a slash, and from there.
up_to_slash : Text → Text × Text
up_to_slash [] = ([], [])
up_to_slash (c ∷ s) =
    let rest = up_to_slash s in if c == b'/' then ([], c ∷ s) else (c ∷ rest.0, rest.1)

split_https : Option Text → Outcome Url
unfolding up_to_slash
split_https none = raise (value_error (codes "scheme"))
split_https (some rest) = ok (record {
  scheme = codes "https";
  netloc = (up_to_slash rest).0;
  hostname = (up_to_slash rest).0;
  username = [];
  password = [];
  path = (up_to_slash rest).1;
  query = [];
  fragment = [];
  port = ok none;
})

urlsplit : Text → Outcome Url
unfolding split_https strip_prefix
urlsplit uri = split_https (strip_prefix (codes "https://") uri)

abbrev web : WebLibrary
web = record {
  urlsplit = urlsplit;
  urlunsplit = λ scheme netloc path query. scheme ++ codes "://" ++ netloc ++ path;
  str = λ n. n ∷ [];
  sha256 = λ s. s;
  urlsafe_b64encode = λ b. b;
}

abbrev app : AuthClient
app = record {
  client_id = codes "app";
  display_name = codes "App";
  audience = codes "app";
  redirect_uris = codes "https://app/" ∷ [];
}

abbrev endpoint : Endpoint
endpoint = record {
  web = web;
  jwt = service;
  clients = (codes "app", app) ∷ [];
  auth_token_rate_limit = 5;
  auth_rate_limit_window_seconds = 60;
}

abbrev kept : AuthCodeRecord
kept = record {
  user_address = codes "0xA";
  client_id = codes "app";
  redirect_uri = codes "https://app/";
  code_challenge = codes "proof";
  code_challenge_method = codes "S256";
}

abbrev request : TokenExchangeRequest
request = record {
  grant_type = codes "authorization_code";
  code = codes "k";
  code_verifier = codes "proof";
  client_id = codes "app";
  redirect_uri = codes "https://APP";
  origin = some (codes "https://app");
  identity = codes "ip";
}

abbrev before : Stores endpoint (memory AuthCodeRecord) (memory Text) (memory Window)
before = (create_code (memory AuthCodeRecord) 1 60 (codes "k") kept [], [], [])

abbrev after : Stores endpoint (memory AuthCodeRecord) (memory Text) (memory Window)
after =
    (exchange_code endpoint (memory AuthCodeRecord) (memory Text) (memory Window) 2_000_000
      (codes "f") request before).1

abbrev tokens : TokenExchangeResponse
tokens = record {
  access_token = service.library.encode (access_claims service 2 (codes "0xA"));
  id_token = service.library.encode (id_claims service 2 (codes "0xA") (codes "app"));
  refresh_token = service.library.encode (refresh_claims service 2 (codes "0xA") (codes "f"));
  expires_in = 3600;
  refresh_expires_in = 2_592_000;
  address = codes "0xA";
}

is_granted_here :
    exchange_code endpoint
      (memory AuthCodeRecord)
      (memory Text)
      (memory Window)
      2_000_000
      (codes "f")
      request
      before
    ≡ (granted (some (codes "https://app")) tokens, after)
unfolding exchange_code lookup text_eq urlsplit create_code validate_redirect_uri is_nonempty
    redirect_origin hit count_hit get_code insert verify_pkce strip_padding consume_code issue ◌>>=◌
    create_token create_id_token create_refresh_token
is_granted_here = refl

exchange_code_sound_example :
    (client : AuthClient) × (uri : Text) × (lookup request.client_id endpoint.clients ≡ some client)
    × (request.grant_type ≡ codes "authorization_code")
    × (normalize_redirect_uri endpoint.web request.redirect_uri ≡ ok uri)
    × (is_listed endpoint.web uri client.redirect_uris ≡ true)
    × IsAdmitted endpoint
        (memory AuthCodeRecord)
        (memory Text)
        (memory Window)
        2_000_000
        (codes "f")
        request
        (some (codes "https://app"))
        tokens
        before
        after
        client
        uri
exchange_code_sound_example =
    exchange_code_sound endpoint (memory AuthCodeRecord) (memory Text) (memory Window) 2_000_000
      (codes "f") request (some (codes "https://app")) tokens before after is_granted_here

never_drawn : (u : ℕ) → 0 ≤ u → (memory AuthCodeRecord).get u (code_key (codes "k")) [] ≡ none
unfolding lookup
never_drawn u le = refl

grants_at_most_draws_example :
    grants endpoint
      (memory AuthCodeRecord)
      (memory Text)
      (memory Window)
      0
      (codes "k")
      ((1_000_000, mint 60 (codes "k") kept)
        ∷ (5, present (codes "f") request)
        ∷ (5, present (codes "g") request)
        ∷ [])
      ([], [], [])
    ≤ 1
unfolding draws text_eq
grants_at_most_draws_example =
    grants_at_most_draws endpoint (memory AuthCodeRecord) (memory Text) (memory Window) (codes "k")
      ((1_000_000, mint 60 (codes "k") kept)
        ∷ (5, present (codes "f") request)
        ∷ (5, present (codes "g") request)
        ∷ [])
      0 ([], [], []) never_drawn
