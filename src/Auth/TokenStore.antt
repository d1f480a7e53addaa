-- ===== src/Auth/TokenStore.antt =====
-- Refresh tokens and SIWE nonces: `src/auth/token_store.py`. The keys have a prefix for each kind of
-- entry; `secrets.token_hex(32)` is an argument of `generate_nonce`.
pub mod Entries
pub mod Keys
pub mod Nonces
pub mod Tokens
use privana.Prelude.{
  ℕ, zero, suc, ◌+◌, ◌-◌, ◌≡◌, Bool, true, false, ◌&&◌, Option, none, some, List, [], ◌∷◌, ◌++◌,
  if◌then◌else◌,
}
use privana.Text.{Text, text_eq, codes, is_nonempty, starts_with}
use privana.Auth.DiskCache.{DiskCache, is_some}

abbrev pub refresh_key : Text → Text
refresh_key jti = codes "refresh:" ++ jti

abbrev pub nonce_key : Text → Text
nonce_key nonce = codes "nonce:" ++ nonce

abbrev pub client_key : Text → Text
client_key client_id = codes "client_nonce:" ++ client_id

-- `self._cache.get(key) == address`
abbrev pub is_address : Option Text → Text → Bool
is_address none address = false
is_address (some a) address = text_eq a address

module _ (D : DiskCache Text) where
  unfoldable pub store_refresh_token : ℕ → Text → Text → ℕ → D.Store → D.Store
  store_refresh_token now jti address expires_at c =
      D.set now (refresh_key jti) address (expires_at - now) c

  unfoldable pub get_refresh_token : ℕ → Text → D.Store → Option (Text × ℕ)
  get_refresh_token now jti c = elim (D.get now (refresh_key jti) c) [
    | none ↦ none
    | some address ↦ some (address, now + 86400)
  ]

  unfoldable pub delete_refresh_token : ℕ → Text → D.Store → Bool × D.Store
  delete_refresh_token now jti c =
      (is_some (D.get now (refresh_key jti) c), D.delete now (refresh_key jti) c)

  unfoldable pub is_refresh_token_valid : ℕ → Text → D.Store → Bool
  is_refresh_token_valid now jti c = is_some (D.get now (refresh_key jti) c)

  unfoldable pub consume_refresh_token : ℕ → Text → D.Store → Option Text × D.Store
  consume_refresh_token now jti c =
      (D.get now (refresh_key jti) c, D.delete now (refresh_key jti) c)

  -- The body of the loop, for one key.
  unfoldable pub revoke_key : ℕ → Text → Text → ℕ × D.Store → ℕ × D.Store
  revoke_key now address key (revoked, c) =
      if starts_with (codes "refresh:") key && is_address (D.get now key c) address
      then (suc revoked, D.delete now key c)
      else (revoked, c)

  unfoldable pub revoke_keys : ℕ → Text → List Text → ℕ × D.Store → ℕ × D.Store
  revoke_keys now address [] r = r
  revoke_keys now address (k ∷ ks) r = revoke_keys now address ks (revoke_key now address k r)

  unfoldable pub revoke_all_refresh_tokens_for_address : ℕ → Text → D.Store → ℕ × D.Store
  revoke_all_refresh_tokens_for_address now address c = revoke_keys now address (D.keys c) (0, c)

  -- The nonce that the client holds, if it is still there.
  unfoldable pub existing_nonce : ℕ → Text → D.Store → Option Text
  existing_nonce now client_id c =
      if is_nonempty client_id
      then (elim (D.get now (client_key client_id) c) [
        | none ↦ none
        | some nonce ↦ if is_some (D.get now (nonce_key nonce) c) then some nonce else none
      ])
      else none

  -- The two writes for a new nonce.
  unfoldable pub store_nonce : ℕ → Text → Text → ℕ → D.Store → D.Store
  store_nonce now client_id nonce expiry c =
      let stored = D.set now (nonce_key nonce) client_id expiry c in
      if is_nonempty client_id then D.set now (client_key client_id) nonce expiry stored else stored

  -- `client_id or ""` is the text; `expiry` is `_nonce_expiry_seconds`, `fresh` the drawn nonce.
  unfoldable pub generate_nonce : ℕ → Text → ℕ → Text → D.Store → Text × D.Store
  generate_nonce now client_id expiry fresh c = elim (existing_nonce now client_id c) [
    | some nonce ↦ (nonce, c)
    | none ↦ (fresh, store_nonce now client_id fresh expiry c)
  ]

  unfoldable pub consume_nonce : ℕ → Text → D.Store → Bool × D.Store
  consume_nonce now nonce c =
      let popped = D.delete now (nonce_key nonce) c in
      elim (D.get now (nonce_key nonce) c) [
        | none ↦ (false, popped)
        | some client_id ↦ (
          true,
          if is_nonempty client_id then D.delete now (client_key client_id) popped else popped,
        )
      ]

  unfoldable pub is_nonce_valid : ℕ → Text → D.Store → Bool
  is_nonce_valid now nonce c = is_some (D.get now (nonce_key nonce) c)

-- A call of the store.
pub data Call : Type 0 where
  store : Text → Text → ℕ → Call
  delete consume revoke : Text → Call
  -- client id, expiry, the drawn nonce
  generate : Text → ℕ → Text → Call
  login : Text → Call

module _ (D : DiskCache Text) where
  -- The cache after a call.
  unfoldable pub perform : ℕ → Call → D.Store → D.Store
  unfolding store_refresh_token delete_refresh_token consume_refresh_token
      revoke_all_refresh_tokens_for_address generate_nonce consume_nonce
  perform now (store jti address expires_at) c = store_refresh_token D now jti address expires_at c
  perform now (delete jti) c = (delete_refresh_token D now jti c).1
  perform now (consume jti) c = (consume_refresh_token D now jti c).1
  perform now (revoke address) c = (revoke_all_refresh_tokens_for_address D now address c).1
  perform now (generate client_id expiry fresh) c =
      (generate_nonce D now client_id expiry fresh c).1
  perform now (login nonce) c = (consume_nonce D now nonce c).1

  -- Does the call accept this nonce?
  unfoldable pub accepts : ℕ → Text → Call → D.Store → Bool
  accepts now nonce (login n) c = text_eq n nonce && (consume_nonce D now n c).0
  accepts now nonce _ c = false

  -- How often a sequence of calls, each some seconds after the one before, accepts a nonce.
  unfoldable pub logins : ℕ → Text → List (ℕ × Call) → D.Store → ℕ
  logins now nonce [] c = 0
  logins now nonce ((wait, call) ∷ calls) c =
      let rest = logins (now + wait) nonce calls (perform (now + wait) call c) in
      if accepts (now + wait) nonce call c then suc rest else rest

-- How often the calls draw the nonce.
unfoldable pub draws : Text → List (ℕ × Call) → ℕ
draws nonce [] = 0
draws nonce ((_, generate client_id expiry fresh) ∷ calls) =
    let rest = draws nonce calls in if text_eq fresh nonce then suc rest else rest
draws nonce ((_, _) ∷ calls) = draws nonce calls
