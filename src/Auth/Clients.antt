-- ===== src/Auth/Clients.antt =====
-- src/auth/client_registry.py, src/auth/pkce.py and the redirect URIs of src/auth/siwe_config.py. What they
-- take from urllib.parse, hashlib, base64 and the printing of numbers is the interface `WebLibrary`.
use privana.Prelude.{
  ℕ, Bool, false, not, ◌&&◌, ◌||◌, Option, none, some, List, [], ◌∷◌, ◌++◌, ltb, ◌==◌, every,
  if◌then◌else◌,
}
use privana.Text.{Text, codes, text_eq, lower, is_nonempty, starts_with}
use privana.Text.Hex.{Bytes}
use privana.Effect.{then_do, Outcome, ok, raise, value_error}
use privana.Intent.{strip_padding}

-- What `urlsplit` reads, with the empty text for what is absent; reading `port` may fail.
pub record Url : Type 0 where
  pub scheme : Text
  pub netloc : Text
  pub hostname : Text
  pub username : Text
  pub password : Text
  pub path : Text
  pub query : Text
  pub fragment : Text
  pub port : Outcome (Option ℕ)

pub record WebLibrary : Type 0 where
  -- raises nothing but ValueError
  pub urlsplit : Text → Outcome Url
  -- scheme, network location, path and query
  pub urlunsplit : Text → Text → Text → Text → Text
  pub str : ℕ → Text
  pub sha256 : Text → Bytes
  pub urlsafe_b64encode : Bytes → Text

pub record AuthClient : Type 0 where
  pub client_id : Text
  pub display_name : Text
  pub audience : Text
  pub redirect_uris : List Text

abbrev pub is_loopback_host : Text → Bool
is_loopback_host host =
    text_eq (lower host) (codes "localhost")
    || text_eq (lower host) (codes "127.0.0.1")
    || text_eq (lower host) (codes "::1")

-- `_DEFAULT_PORTS.get(scheme.lower())`
abbrev pub default_port : Text → Option ℕ
default_port scheme =
    if text_eq (lower scheme) (codes "http")
    then some 80
    else if text_eq (lower scheme) (codes "https")
    then some 443
    else none

abbrev pub is_default_port : ℕ → Option ℕ → Bool
is_default_port port none = false
is_default_port port (some p) = port == p

abbrev pub bracketed : Text → Text
bracketed host =
    if not (every (λ c. not (c == b':')) host) && not (starts_with (codes "[") host)
    then b'[' ∷ host ++ codes "]"
    else host

module _ (lib : WebLibrary) where
  abbrev pub with_port : Text → Text → Option ℕ → Text
  with_port scheme host none = host
  with_port scheme host (some port) =
      if is_default_port port (default_port scheme) then host else host ++ b':' ∷ lib.str port

  -- `_canonical_netloc`
  unfoldable pub canonical_netloc : Text → Text → Option ℕ → Outcome Text
  unfolding lower
  canonical_netloc scheme host port =
      if is_nonempty host
      then ok (with_port scheme (bracketed (lower host)) port)
      else raise (value_error (codes "Origin must include a host"))

  abbrev pub invalid_uri : {A : Type 0} → Outcome A
  invalid_uri = raise (value_error (codes "Invalid redirect_uri"))

  abbrev pub normalized : Url → Outcome Text
  normalized u =
      if not (text_eq u.scheme (codes "http") || text_eq u.scheme (codes "https"))
        || not (is_nonempty u.netloc)
        || not (is_nonempty u.hostname)
      then invalid_uri
      else if is_nonempty u.username || is_nonempty u.password || is_nonempty u.fragment
      then invalid_uri
      else if text_eq u.scheme (codes "http") && not (is_loopback_host u.hostname)
      then raise (
          value_error
            (codes "redirect_uri must use https unless it targets localhost/loopback development"))
      else then_do u.port λ port. then_do (canonical_netloc u.scheme u.hostname port) λ netloc. ok (
          lib.urlunsplit (lower u.scheme) netloc (if is_nonempty u.path then u.path else codes "/")
            u.query)

  unfoldable pub normalize_redirect_uri : Text → Outcome Text
  unfolding canonical_netloc
  normalize_redirect_uri uri = then_do (lib.urlsplit uri) normalized

  -- `normalized_redirect_uri in client.redirect_uris`
  unfoldable pub is_listed : Text → List Text → Bool
  is_listed uri [] = false
  is_listed uri (u ∷ uris) = let rest = is_listed uri uris in text_eq u uri || rest

  abbrev pub is_registered : AuthClient → Outcome Text → Bool
  is_registered client (ok uri) = is_listed uri client.redirect_uris
  is_registered client (raise e) = false

  -- `validate_redirect_uri`, for the client of the id
  unfoldable pub validate_redirect_uri : Option AuthClient → Text → Bool
  unfolding normalize_redirect_uri is_listed
  validate_redirect_uri none uri = false
  validate_redirect_uri (some client) uri = is_registered client (normalize_redirect_uri uri)

  unfoldable pub redirect_origin : Text → Outcome Text
  unfolding normalize_redirect_uri
  redirect_origin uri =
      then_do (normalize_redirect_uri uri)
        λ normal. then_do (lib.urlsplit normal) λ u. ok (u.scheme ++ codes "://" ++ u.netloc)

  unfoldable pub verify_pkce : Text → Text → Text → Outcome Bool
  unfolding text_eq
  verify_pkce code_verifier code_challenge code_challenge_method =
      if not (text_eq code_challenge_method (codes "S256"))
      then raise (value_error (codes "Unsupported code_challenge_method"))
      else if not (every (λ c. ltb c 128) code_verifier)
      then raise (value_error (codes "PKCE code_verifier must contain only ASCII characters"))
      else ok (
          text_eq (strip_padding (lib.urlsafe_b64encode (lib.sha256 code_verifier))) code_challenge)
