-- ===== src/Auth/Jwt/Tests.antt =====
-- Runs of the token service with a library that signs nothing.
use privana.Prelude.{
  ℕ, ◌+◌, ◌*◌, ◌≤◌, ◌≡◌, ◌≢◌, refl, false, ◌&&◌, List, [], ◌∷◌, arith, ltb, if◌then◌else◌,
}
use privana.Text.{Text, text_eq, codes, is_nonempty}
use privana.Effect.{ok, raise, Exn, other_error}
use privana.Dict.{lookup}
use privana.Auth.Memory.{memory}
use privana.Auth.TokenStore.{is_refresh_token_valid}
use privana.Auth.Jwt.{
  or_default, access_claims, id_claims, refresh_claims, create_token, create_id_token,
  get_address_from_token, verify_id_token, create_refresh_token, refresh_tokens,
}
use privana.Auth.Jwt.Sample.{service}
use privana.Auth.Jwt.Exchange.{created_token-exchanged}
use privana.Auth.Jwt.Purpose.{access_token-purpose, id_token-purpose}
use privana.Auth.Jwt.Rotation.{
  Call, issue, rotate, revoke_all, draws, exchanges, exchanges_at_most_draws,
}

abbrev user : Text
user = codes "0xA"

abbrev access : Text
access = service.library.encode (access_claims service 100 user)

abbrev ident : Text
ident = service.library.encode (id_claims service 100 user (codes "app"))

access_token-purpose_example :
    (get_address_from_token service 3800 access ≡ (
      if ltb 3800 (100 + service.expiry_hours * 3600)
      then ok user
      else raise (other_error (codes "InvalidTokenError"))))
    × ((audience x : Text) → verify_id_token service 3800 access audience ≢ ok x)
    × ((fresh : Text) (s : (memory Text).Store)
        → (e : Exn) × (refresh_tokens service (memory Text) 3800 fresh access s ≡ (raise e, s)))
unfolding create_token is_nonempty
access_token-purpose_example =
    access_token-purpose service (memory Text) 100 3800 user user access (omega arith) refl refl

id_token-purpose_example :
    ((asked : Text)
      → verify_id_token service 3600 ident asked ≡ (
          if text_eq (codes "app") (or_default asked service.audience)
            && ltb 3600 (100 + service.expiry_hours * 3600)
          then ok user
          else raise (other_error (codes "InvalidTokenError"))))
    × ((x : Text) → get_address_from_token service 3600 ident ≢ ok x)
    × ((fresh : Text) (s : (memory Text).Store)
        → (e : Exn) × (refresh_tokens service (memory Text) 3600 fresh ident s ≡ (raise e, s)))
unfolding create_id_token is_nonempty
id_token-purpose_example =
    id_token-purpose service (memory Text) 100 3600 user user (codes "app") ident (omega arith) refl
      refl

-- A login, two exchanges of its token, and the exchange of what the first one gave.
abbrev token_of : Text → ℕ → Text
token_of id now = service.library.encode (refresh_claims service now user id)

abbrev calls : List (ℕ × Call)
calls =
    (1, issue (codes "r1") user)
    ∷ (5, rotate (codes "r2") (token_of (codes "r1") 1))
    ∷ (5, rotate (codes "r3") (token_of (codes "r1") 1))
    ∷ (5, rotate (codes "r4") (token_of (codes "r2") 6))
    ∷ (1, revoke_all user)
    ∷ []

is_unknown : (u : ℕ) → 0 ≤ u → is_refresh_token_valid (memory Text) u (codes "r1") [] ≡ false
unfolding is_refresh_token_valid lookup
is_unknown u le = refl

exchanges_at_most_draws_example : exchanges service (memory Text) 0 (codes "r1") calls [] ≤ 1
unfolding draws text_eq
exchanges_at_most_draws_example =
    exchanges_at_most_draws service (memory Text) (codes "r1") calls 0 [] is_unknown

created_token-exchanged_example :
    (token : Text) × ((create_refresh_token service (memory Text) 100 (codes "r1") user []).0
      ≡ ok token)
    × ((refresh_tokens service
          (memory Text)
          200
          (codes "r2")
          token
          (create_refresh_token service (memory Text) 100 (codes "r1") user []).1).0
        ≡ (if ltb 200 (100 + service.refresh_expiry_days * 86400)
            then ok (
              service.library.encode (access_claims service 200 user),
              service.library.encode (refresh_claims service 200 user (codes "r2")),
            )
            else raise (other_error (codes "InvalidTokenError"))))
unfolding is_nonempty
created_token-exchanged_example =
    created_token-exchanged service (memory Text) 100 200 user user (codes "r1") (codes "r2") []
      (omega arith) refl refl
