-- ===== src/Auth/Jwt/Purpose.antt =====
-- src/auth/jwt_service.py: each kind of token serves its own purpose, until it expires.
use privana.Prelude.{
  ℕ, ◌+◌, ◌*◌, ◌≤◌, ◌≡◌, ◌≢◌, refl, sym, inl, inr, Bool, true, false, ◌&&◌, none, some, [], arith,
  ltb, Bool-cases, if◌then◌else◌,
}
use privana.Text.{Text, text_eq, text_eq_refl, codes, is_nonempty}
use privana.Effect.{
  then_do, Outcome, ok, raise, Exn, value_error, other_error, ok-injective, ok-ne-raise, ◌>>=◌,
}
use privana.Auth.DiskCache.{DiskCache}
use privana.Auth.Jwt.{
  Claims, is_current, Settings, token_type_access, token_type_id, token_type_refresh, is_kind,
  or_default, access_claims, id_claims, create_token, create_id_token, decoded, verify_token,
  subject, address_of, get_address_from_token, verify_id_token, refresh_tokens,
}

module _ (j : Settings) where
  refused : Outcome Claims
  refused = decoded j none

  pub verify_token-encode :
      (u : ℕ) (audience : Text) (c : Claims)
      → verify_token j u (j.library.encode c) audience ≡ (
          if is_current u j.issuer (or_default audience j.audience) c then ok c else decoded j none)
  unfolding verify_token
  verify_token-encode u audience c =
      rw (j.library.decode-encode u j.issuer (or_default audience j.audience) c)
        (by_test (is_current u j.issuer (or_default audience j.audience) c))
    where
      by_test :
          (b : Bool) → decoded j (if b then some c else none) ≡ (if b then ok c else decoded j none)
      by_test true = refl
      by_test false = refl

  -- A token that is not of the kind is of no use.
  address-wrong :
      (u : ℕ) (audience kind : Text) (c : Claims) (x : Text)
      → is_kind c.kind kind ≡ false
      → then_do (verify_token j u (j.library.encode c) audience) (address_of j kind) ≢ ok x
  address-wrong u audience kind c x wrong h =
      elim (Bool-cases (is_current u j.issuer (or_default audience j.audience) c)) [
        | inl e ↦ ok-ne-raise x _ (sym (rw (verify_token-encode u audience c, e, wrong) at h))
        | inr e ↦ ok-ne-raise x _ (sym (rw (verify_token-encode u audience c, e) at h))
      ]

  subject-checked : (a b : Text) → j.to_checksum_address a ≡ ok b → subject j (some b) ≡ ok b
  subject-checked a b e = rw ((j.checksum_stable a b e).1) ((j.checksum_stable a b e).0)

  -- A token of the kind gives its address until it expires.
  address-right :
      (t u : ℕ) (audience kind a b : Text) (c : Claims)
      → j.to_checksum_address a ≡ ok b
      → t ≤ u
      → is_kind c.kind kind ≡ true
      → c.sub ≡ some b
      → is_current u j.issuer (or_default audience j.audience) c ≡ ltb u c.exp
      → then_do (verify_token j u (j.library.encode c) audience) (address_of j kind)
        ≡ (if ltb u c.exp then ok b else then_do (decoded j none) (address_of j kind))
  address-right t u audience kind a b c checked le right its current =
      elim (Bool-cases (ltb u c.exp)) [
        | inl e ↦
            rw (verify_token-encode u audience c, current, e, right, its)
              (subject-checked a b checked)
        | inr e ↦ rw (verify_token-encode u audience c, current, e) refl
      ]

  -- A token that is not a refresh token is exchanged for nothing.
  exchange-wrong :
      (D : DiskCache Text) (u : ℕ) (fresh : Text) (c : Claims) (s : D.Store)
      → is_kind c.kind token_type_refresh ≡ false
      → (e : Exn) × (refresh_tokens j D u fresh (j.library.encode c) s ≡ (raise e, s))
  unfolding refresh_tokens ◌>>=◌
  exchange-wrong D u fresh c s wrong =
      elim (Bool-cases (is_current u j.issuer (or_default [] j.audience) c)) [
        | inl e ↦ (
          value_error (codes "Expected refresh token"),
          rw (verify_token-encode u [] c, e, wrong) refl,
        )
        | inr e ↦ (other_error (codes "InvalidTokenError"), rw (verify_token-encode u [] c, e) refl)
      ]

  access_current :
      (t u : ℕ) (b : Text)
      → t ≤ u
      → is_current u j.issuer (or_default [] j.audience) (access_claims j t b)
        ≡ ltb u (t + j.expiry_hours * 3600)
  unfolding is_nonempty
  access_current t u b le = rw (text_eq_refl j.issuer, text_eq_refl j.audience) (ground arith)

  -- An access token that is created for an address at some time, seen then or later: until it expires
  -- it gives the checksummed address, and from then on it is invalid; it never passes for an id token,
  -- for any audience; and it cannot be exchanged as a refresh token, whose attempt leaves the store.
  pub access_token-purpose :
      (D : DiskCache Text) (t u : ℕ) (a b token : Text)
      → t ≤ u
      → j.to_checksum_address a ≡ ok b
      → create_token j t a ≡ ok token
      → (get_address_from_token j u token ≡ (
          if ltb u (t + j.expiry_hours * 3600)
          then ok b
          else raise (other_error (codes "InvalidTokenError"))))
        × ((audience x : Text) → verify_id_token j u token audience ≢ ok x)
        × ((fresh : Text) (s : D.Store)
            → (e : Exn) × (refresh_tokens j D u fresh token s ≡ (raise e, s)))
  unfolding create_token get_address_from_token verify_id_token text_eq
  access_token-purpose D t u a b token le checked made =
      let same : j.library.encode (access_claims j t b) ≡ token =
        ok-injective _ _ (rw checked at made) in
      rw (← same) (
        address-right t u [] token_type_access a b (access_claims j t b) checked le refl refl
            (access_current t u b le),
        λ audience x. address-wrong u audience token_type_id (access_claims j t b) x refl,
        λ fresh s. exchange-wrong D u fresh (access_claims j t b) s refl,
      )

  id_current :
      (t u : ℕ) (audience asked b : Text)
      → t ≤ u
      → is_current u j.issuer (or_default asked j.audience) (id_claims j t b audience)
        ≡ (text_eq audience (or_default asked j.audience) && ltb u (t + j.expiry_hours * 3600))
  id_current t u audience asked b le =
      elim (Bool-cases (text_eq audience (or_default asked j.audience))) [
        | inl e ↦ rw (text_eq_refl j.issuer, e) (ground arith)
        | inr e ↦ rw (text_eq_refl j.issuer, e) refl
      ]

  -- An id token that is created for an address and an audience, seen then or later: it gives the
  -- checksummed address to exactly this audience and until it expires, and is invalid otherwise; it
  -- never passes for an access token; and it cannot be exchanged as a refresh token, whose attempt
  -- leaves the store.
  pub id_token-purpose :
      (D : DiskCache Text) (t u : ℕ) (a b audience token : Text)
      → t ≤ u
      → j.to_checksum_address a ≡ ok b
      → create_id_token j t a audience ≡ ok token
      → ((asked : Text)
          → verify_id_token j u token asked ≡ (
              if text_eq audience (or_default asked j.audience) && ltb u (t + j.expiry_hours * 3600)
              then ok b
              else raise (other_error (codes "InvalidTokenError"))))
        × ((x : Text) → get_address_from_token j u token ≢ ok x)
        × ((fresh : Text) (s : D.Store)
            → (e : Exn) × (refresh_tokens j D u fresh token s ≡ (raise e, s)))
  unfolding create_id_token get_address_from_token verify_id_token text_eq
  id_token-purpose D t u a b audience token le checked made =
      let same : j.library.encode (id_claims j t b audience) ≡ token =
        ok-injective _ _ (rw checked at made) in
      rw (← same) (
        λ asked.
            elim (Bool-cases (
              text_eq audience (or_default asked j.audience)
              && ltb u (t + j.expiry_hours * 3600))) [
                | inl e ↦
                    rw
                      (
                        verify_token-encode u asked (id_claims j t b audience),
                        id_current t u audience asked b le,
                        e,
                      )
                      (subject-checked a b checked)
                | inr e ↦
                    rw
                      (
                        verify_token-encode u asked (id_claims j t b audience),
                        id_current t u audience asked b le,
                        e,
                      )
                      refl
              ],
        λ x. address-wrong u [] token_type_access (id_claims j t b audience) x refl,
        λ fresh s. exchange-wrong D u fresh (id_claims j t b audience) s refl,
      )
