-- ===== src/Auth/Jwt.antt =====
-- src/auth/jwt_service.py: access, id and refresh tokens, the latter with their entries in the token
-- store. PyJWT with the service's key is the interface `JwtLibrary`; `None` stands for its
-- `InvalidTokenError`. The clock counts whole seconds; `secrets.token_urlsafe(32)` is an argument.
pub mod Exchange
pub mod Purpose
pub mod Rotation
pub mod Sample
mod Tests
use privana.Prelude.{
  ℕ, ◌+◌, ◌*◌, ◌≤◌, ◌≡◌, Bool, true, false, not, ◌&&◌, Option, none, some, ltb, leb, [],
  if◌then◌else◌,
}
use privana.Text.{Text, text_eq, codes, is_nonempty}
use privana.Effect.{
  then_do, Outcome, ok, raise, M, pure, throw, gets, lift, modify, ◌>>=◌, ◌>>◌, raise_if,
  value_error, other_error,
}
use privana.Auth.DiskCache.{DiskCache}
use privana.Auth.TokenStore.{
  store_refresh_token, delete_refresh_token, is_refresh_token_valid, consume_refresh_token,
  revoke_all_refresh_tokens_for_address,
}

-- The payload of a token.
pub record Claims : Type 0 where
  pub sub : Option Text
  pub iss : Text
  pub aud : Text
  pub iat : ℕ
  pub nbf : ℕ
  pub exp : ℕ
  pub kind : Option Text
  pub jti : Option Text

abbrev pub is_current : ℕ → Text → Text → Claims → Bool
is_current now issuer audience c =
    text_eq c.iss issuer
    && text_eq c.aud audience
    && leb c.nbf now
    && leb c.iat now
    && ltb now c.exp

-- `jwt.encode` and `jwt.decode` with the key of the service. A token that the key has signed decodes
-- to its claims while they are in force for the issuer and the audience, and is refused otherwise.
pub record JwtLibrary : Type 0 where
  pub encode : Claims → Text
  pub decode : ℕ → Text → Text → Text → Option Claims
  pub decode-encode :
      (now : ℕ) (issuer audience : Text) (c : Claims)
      → decode now issuer audience (encode c)
        ≡ (if is_current now issuer audience c then some c else none)

-- What the environment and the key fix, and `Web3.to_checksum_address`, which leaves its own results.
pub record Settings : Type 0 where
  pub library : JwtLibrary
  pub expiry_hours : ℕ
  pub refresh_expiry_days : ℕ
  pub issuer : Text
  pub audience : Text
  pub to_checksum_address : Text → Outcome Text
  pub checksum_stable :
      (a b : Text)
      → to_checksum_address a ≡ ok b
      → (to_checksum_address b ≡ ok b) × (is_nonempty b ≡ true)

abbrev pub token_type_access : Text
token_type_access = codes "access"

abbrev pub token_type_id : Text
token_type_id = codes "id"

abbrev pub token_type_refresh : Text
token_type_refresh = codes "refresh"

-- `payload.get("type") != kind`
abbrev pub is_kind : Option Text → Text → Bool
is_kind none kind = false
is_kind (some k) kind = text_eq k kind

abbrev pub or_default : Text → Text → Text
or_default audience default = if is_nonempty audience then audience else default

module _ (j : Settings) where
  abbrev pub access_claims : ℕ → Text → Claims
  access_claims now address = record {
    sub = some address;
    iss = j.issuer;
    aud = j.audience;
    iat = now;
    nbf = now;
    exp = now + j.expiry_hours * 3600;
    kind = some token_type_access;
    jti = none;
  }

  abbrev pub id_claims : ℕ → Text → Text → Claims
  id_claims now address audience = record (access_claims now address) {
    aud = audience;
    kind = some token_type_id;
  }

  abbrev pub refresh_claims : ℕ → Text → Text → Claims
  refresh_claims now address id = record (access_claims now address) {
    exp = now + j.refresh_expiry_days * 86400;
    kind = some token_type_refresh;
    jti = some id;
  }

  unfoldable pub create_token : ℕ → Text → Outcome Text
  create_token now address =
      then_do (j.to_checksum_address address)
        λ checked. ok (j.library.encode (access_claims now checked))

  unfoldable pub create_id_token : ℕ → Text → Text → Outcome Text
  create_id_token now address audience =
      then_do (j.to_checksum_address address)
        λ checked. ok (j.library.encode (id_claims now checked audience))

  abbrev pub decoded : Option Claims → Outcome Claims
  decoded none = raise (other_error (codes "InvalidTokenError"))
  decoded (some c) = ok c

  -- The empty text stands for no audience.
  unfoldable pub verify_token : ℕ → Text → Text → Outcome Claims
  verify_token now token audience =
      decoded (j.library.decode now j.issuer (or_default audience j.audience) token)

  abbrev pub subject : Option Text → Outcome Text
  subject none = raise (value_error (codes "Token missing 'sub' claim"))
  subject (some address) =
      if is_nonempty address
      then j.to_checksum_address address
      else raise (value_error (codes "Token missing 'sub' claim"))

  -- The address of a token of one kind.
  abbrev pub address_of : Text → Claims → Outcome Text
  address_of kind c =
      if is_kind c.kind kind
      then subject c.sub
      else raise (value_error (codes "Expected another token"))

  -- `get_access_token_payload`, down to its address, and `get_address_from_token`
  unfoldable pub get_address_from_token : ℕ → Text → Outcome Text
  unfolding verify_token
  get_address_from_token now token =
      then_do (verify_token now token []) (address_of token_type_access)

  unfoldable pub verify_id_token : ℕ → Text → Text → Outcome Text
  unfolding verify_token
  verify_id_token now token audience =
      then_do (verify_token now token audience) (address_of token_type_id)

  -- The token id of a refresh token.
  abbrev pub given_id : Option Text → Outcome Text
  given_id none = raise (value_error (codes "Refresh token missing 'jti' claim"))
  given_id (some id) =
      if is_nonempty id
      then ok id
      else raise (value_error (codes "Refresh token missing 'jti' claim"))

  abbrev pub refresh_id : Claims → Outcome Text
  refresh_id c =
      if is_kind c.kind token_type_refresh
      then given_id c.jti
      else raise (value_error (codes "Expected refresh token"))

  module _ (D : DiskCache Text) where
    unfoldable pub create_refresh_token : ℕ → Text → Text → M D.Store Text
    unfolding store_refresh_token
    create_refresh_token now id address = do
      checked ← lift (j.to_checksum_address address)
      modify (store_refresh_token D now id checked (now + j.refresh_expiry_days * 86400))
      pure (j.library.encode (refresh_claims now checked id))

    unfoldable pub verify_refresh_token : ℕ → Text → M D.Store Text
    unfolding verify_token is_refresh_token_valid
    verify_refresh_token now token = do
      claims ← lift (verify_token now token [])
      id ← lift (refresh_id claims)
      valid ← gets (is_refresh_token_valid D now id)
      raise_if (not valid) (value_error (codes "Refresh token has been revoked"))
      lift (subject claims.sub)

    abbrev pub exchanged : ℕ → Text → Option Text → M D.Store (Text × Text)
    exchanged now fresh none = throw (value_error (codes "Refresh token has been revoked"))
    exchanged now fresh (some address) = do
      access ← lift (create_token now address)
      refresh ← create_refresh_token now fresh address
      pure (access, refresh)

    -- `consume_refresh_token`, as a call of the store
    abbrev pub consume : ℕ → Text → M D.Store (Option Text)
    consume now id c =
        (ok (consume_refresh_token D now id c).0, (consume_refresh_token D now id c).1)

    -- `refresh_tokens`; `fresh` is the id of the new refresh token
    unfoldable pub refresh_tokens : ℕ → Text → Text → M D.Store (Text × Text)
    unfolding verify_token create_token create_refresh_token consume_refresh_token
    refresh_tokens now fresh token = do
      claims ← lift (verify_token now token [])
      id ← lift (refresh_id claims)
      address ← consume now id
      exchanged now fresh address

    abbrev pub revoked : ℕ → Option Text → D.Store → Bool × D.Store
    revoked now none c = (false, c)
    revoked now (some id) c = if is_nonempty id then delete_refresh_token D now id c else (false, c)

    abbrev pub revoke_claims : ℕ → Outcome Claims → D.Store → Bool × D.Store
    revoke_claims now (raise e) c = (false, c)
    revoke_claims now (ok claims) c = revoked now claims.jti c

    unfoldable pub revoke_refresh_token : ℕ → Text → D.Store → Bool × D.Store
    unfolding verify_token delete_refresh_token
    revoke_refresh_token now token c = revoke_claims now (verify_token now token []) c

    abbrev pub revoke_checked : ℕ → Outcome Text → M D.Store ℕ
    revoke_checked now (raise e) c = (raise e, c)
    revoke_checked now (ok address) c = (
      ok (revoke_all_refresh_tokens_for_address D now address c).0,
      (revoke_all_refresh_tokens_for_address D now address c).1,
    )

    unfoldable pub revoke_all_refresh_tokens : ℕ → Text → M D.Store ℕ
    unfolding revoke_all_refresh_tokens_for_address
    revoke_all_refresh_tokens now address = revoke_checked now (j.to_checksum_address address)
