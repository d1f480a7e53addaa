-- ===== src/Auth/Jwt/Exchange.antt =====
-- src/auth/jwt_service.py: what a refresh token gives when it is exchanged after its login.
use privana.Prelude.{
  ℕ, ◌+◌, ◌*◌, ◌-◌, ◌≤◌, ◌≡◌, refl, ◌∙◌, inl, inr, true, some, [], arith, ltb, Bool-cases,
  if◌then◌else◌,
}
use privana.Text.{Text, text_eq, text_eq_refl, codes, is_nonempty}
use privana.Effect.{ok, raise, ◌>>=◌, other_error}
use privana.Auth.DiskCache.{DiskCache}
use privana.Auth.TokenStore.{refresh_key, store_refresh_token, consume_refresh_token}
use privana.Auth.Jwt.{
  Settings, is_current, or_default, access_claims, refresh_claims, create_token,
  create_refresh_token, exchanged, refresh_tokens,
}
use privana.Auth.Jwt.Purpose.{verify_token-encode}

module _ (j : Settings) (D : DiskCache Text) (t u : ℕ) (a b id fresh : Text) (c : D.Store) where
  abbrev stored : D.Store
  stored = D.set t (refresh_key id) b (t + j.refresh_expiry_days * 86400 - t) c

  create_refresh_token-stored :
      j.to_checksum_address a ≡ ok b
      → create_refresh_token j D t id a c
        ≡ (ok (j.library.encode (refresh_claims j t b id)), stored)
  unfolding create_refresh_token ◌>>=◌ store_refresh_token
  create_refresh_token-stored checked = rw (create_refresh_token, checked) refl

  get-stored :
      t ≤ u
      → ltb u (t + j.refresh_expiry_days * 86400) ≡ true
      → D.get u (refresh_key id) stored ≡ some b
  get-stored le early =
      D.get-set t u (t + j.refresh_expiry_days * 86400 - t) (refresh_key id) (refresh_key id) b c le
      ∙ rw (text_eq_refl (refresh_key id)) (ground arith)

  current :
      t ≤ u
      → is_current u j.issuer (or_default [] j.audience) (refresh_claims j t b id)
        ≡ ltb u (t + j.refresh_expiry_days * 86400)
  unfolding is_nonempty
  current le = rw (text_eq_refl j.issuer, text_eq_refl j.audience) (ground arith)

  exchanged-some :
      (s : D.Store)
      → j.to_checksum_address b ≡ ok b
      → (exchanged j D u fresh (some b) s).0
        ≡ ok (j.library.encode (access_claims j u b), j.library.encode (refresh_claims j u b fresh))
  unfolding create_token create_refresh_token ◌>>=◌
  exchanged-some s checked = rw (exchanged, create_token, create_refresh_token, checked) refl

  -- If the address has a checksummed form and the drawn id is not empty, then `create_refresh_token`
  -- gives a token, and its exchange at that time or later, if no call comes in between, gives an
  -- access token and a refresh token for this form of the address until the token expires, and from
  -- then on is refused.
  pub created_token-exchanged :
      t ≤ u
      → is_nonempty id ≡ true
      → j.to_checksum_address a ≡ ok b
      → (token : Text) × ((create_refresh_token j D t id a c).0 ≡ ok token)
        × ((refresh_tokens j D u fresh token (create_refresh_token j D t id a c).1).0 ≡ (
            if ltb u (t + j.refresh_expiry_days * 86400)
            then ok (
              j.library.encode (access_claims j u b),
              j.library.encode (refresh_claims j u b fresh),
            )
            else raise (other_error (codes "InvalidTokenError"))))
  unfolding refresh_tokens ◌>>=◌ consume_refresh_token text_eq
  created_token-exchanged le named checked = rw (create_refresh_token-stored checked) (
    j.library.encode (refresh_claims j t b id),
    refl,
    elim (Bool-cases (ltb u (t + j.refresh_expiry_days * 86400))) [
      | inl e ↦
          rw
            (
              verify_token-encode j u [] (refresh_claims j t b id),
              current le,
              e,
              named,
              get-stored le e,
            )
            (exchanged-some _ ((j.checksum_stable a b checked).0))
      | inr e ↦ rw (verify_token-encode j u [] (refresh_claims j t b id), current le, e) refl
    ],
  )
