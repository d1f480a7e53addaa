-- ===== src/Intent/RoundTrip.antt =====
-- src/services/onramp_intent.py: an intent that was created is accepted until it expires.
use privana.Prelude.{
  ℕ, ◌+◌, ◌≡◌, refl, sym, ap, ◌∙◌, inl, inr, Bool, true, false, not, ◌&&◌, ◌||◌, some, List, [],
  ◌∷◌, ◌++◌, arith, ltb, ◌==◌, length, every, Has, if◌then◌else◌,
}
use privana.Text.{
  Text, codes, text_eq, text_eq_refl, is_nonempty, starts_with, remove_prefix, strip_prefix-append,
}
use privana.Text.Hex.{Bytes}
use privana.Effect.{ok, ok-injective}
use privana.Deposit.Verifier.{then_with-ok, refuse}
use privana.Intent.{
  fields_of-dict_of, Payload, Codec, str, num, intent_prefix, intent_max_length, intent_ttl_seconds,
  is_provider, is_base64url, strip_padding, validate, b64url_encode, b64url_decode, signature,
  signed_token, encode_intent, split_once, any_match, is_expired, decode_intent, hex_payload,
  uint32, asset_code_or_error, address_payload, payload_of, sealed, create_intent,
}
use privana.Intent.Canonical.{if-ok}

starts_with-append : (p s : Text) → starts_with p (p ++ s) ≡ true
unfolding starts_with
starts_with-append p s = rw (starts_with, strip_prefix-append p s) refl

remove_prefix-append : (p s : Text) → remove_prefix p (p ++ s) ≡ s
unfolding remove_prefix
remove_prefix-append p s = rw (remove_prefix, strip_prefix-append p s) refl

no_dot : (c : ℕ) → is_base64url c ≡ true → (c == b'.') ≡ false
unfolding is_base64url
no_dot c h = ground arith

no_dots : (s : Text) → every is_base64url s ≡ true → every (λ d. not (d == b'.')) s ≡ true
no_dots [] h = refl
no_dots (c ∷ s) h =
    let here : is_base64url c ≡ true = ground arith in
    let behind : every is_base64url s ≡ true = ground arith in
    rw (no_dot c here, no_dots s behind) refl

nonempty_length : (b : Bytes) → length b ≡ 32 → is_nonempty b ≡ true
unfolding is_nonempty
nonempty_length [] h = absurd (omega (arith, h))
nonempty_length (x ∷ b) h = refl

module _ (lib : Codec) where
  split_once-append :
      (a b : Text)
      → every is_base64url a ≡ true
      → every is_base64url b ≡ true
      → split_once lib (a ++ b'.' ∷ b) ≡ some (a, b)
  unfolding split_once
  split_once-append [] b ha hb = rw (no_dots b hb) refl
  split_once-append (c ∷ a) b ha hb =
      let here : is_base64url c ≡ true = ground arith in
      let behind : every is_base64url a ≡ true = ground arith in
      rw (split_once, no_dot c here, split_once-append a b behind hb) refl

  b64url_decode-encode :
      (b : Bytes) → is_nonempty b ≡ true → b64url_decode lib (b64url_encode lib b) ≡ ok b
  unfolding b64url_decode b64url_encode
  b64url_decode-encode b full =
      rw
        (
          b64url_decode,
          lib.b64encode_nonempty b full,
          lib.b64encode_alphabet b,
          lib.b64decode-encode b,
          text_eq_refl (strip_padding (lib.urlsafe_b64encode b)),
        )
        refl

  any_match-Has :
      (payload_b64 : Text) (key : Bytes) (keys : List Bytes)
      → Has key keys
      → any_match lib payload_b64 (signature lib payload_b64 key) keys ≡ true
  unfolding any_match
  any_match-Has payload_b64 key [] h = elim h [ ]
  any_match-Has payload_b64 key (k ∷ keys) (inl same) =
      rw (same, any_match, text_eq_refl (signature lib payload_b64 key)) refl
  any_match-Has payload_b64 key (k ∷ keys) (inr later) =
      rw (any_match, any_match-Has payload_b64 key keys later)
        (or-true (text_eq (signature lib payload_b64 k) (signature lib payload_b64 key)))
    where
      or-true : (b : Bool) → b || true ≡ true
      or-true true = refl
      or-true false = refl

  signature-length : (a : Text) (key : Bytes) → length (signature lib a key) ≡ 32
  unfolding signature
  signature-length a key = lib.hmac_length key _

  decode-signed :
      (keys : List Bytes) (allow_expired : Bool) (now : ℕ) (key : Bytes) (p : Payload)
      → Has key keys
      → validate p ≡ ok tt
      → ltb intent_max_length (length (signed_token lib key p)) ≡ false
      → decode_intent lib keys allow_expired now (signed_token lib key p) ≡ (
          if not allow_expired && is_expired lib now p.expires_at
          then refuse (codes "On-ramp intent has expired")
          else ok p)
  unfolding decode_intent
  decode-signed keys allow_expired now key p held valid short =
      let payload_b64 = b64url_encode lib (lib.dumps p) in
      let signed = signature lib payload_b64 key in
      let signed_full : is_nonempty signed ≡ true =
        nonempty_length signed (signature-length payload_b64 key) in
      let size : (length signed == 32) ≡ true = rw (signature-length payload_b64 key) refl in
      let first_full : is_nonempty payload_b64 ≡ true =
        unfold b64url_encode in lib.b64encode_nonempty (lib.dumps p) (lib.dumps_nonempty p) in
      let second_full : is_nonempty (b64url_encode lib signed) ≡ true =
        unfold b64url_encode in lib.b64encode_nonempty signed signed_full in
      let first_plain : every is_base64url payload_b64 ≡ true =
        unfold b64url_encode in lib.b64encode_alphabet (lib.dumps p) in
      let second_plain : every is_base64url (b64url_encode lib signed) ≡ true =
        unfold b64url_encode in lib.b64encode_alphabet signed in
      rw
        (
          decode_intent,
          starts_with-append intent_prefix (payload_b64 ++ b'.' ∷ b64url_encode lib signed),
          short,
          remove_prefix-append intent_prefix (payload_b64 ++ b'.' ∷ b64url_encode lib signed),
          split_once-append payload_b64 (b64url_encode lib signed) first_plain second_plain,
          first_full,
          second_full,
          b64url_decode-encode (lib.dumps p) (lib.dumps_nonempty p),
          b64url_decode-encode signed signed_full,
          lib.dumps_nonempty p,
          size,
          any_match-Has payload_b64 key keys held,
          lib.loads-dumps p,
          fields_of-dict_of p,
          valid,
          text_eq_refl (lib.dumps p),
        )
        refl

  encode_intent-ok :
      (key : Bytes) (p : Payload) (token : Text)
      → encode_intent lib key p ≡ ok token
      → (validate p ≡ ok tt)
        × (ltb intent_max_length (length (signed_token lib key p)) ≡ false)
        × (signed_token lib key p ≡ token)
  unfolding encode_intent
  encode_intent-ok key p token h =
      let (_, valid, h1) = then_with-ok (validate p) _ token h in
      let (short, h2) =
        if-ok (ltb intent_max_length (length (signed_token lib key p))) _ _ token h1 in
      (valid, short, ok-injective _ _ h2)

  sealed-ok :
      (key : Bytes) (token : Text) (q p : Payload)
      → sealed lib key q ≡ ok (token, p)
      → (encode_intent lib key p ≡ ok token) × (q ≡ p)
  sealed-ok key token q p h =
      let (made, encoded, h1) = then_with-ok (encode_intent lib key q) _ (token, p) h in
      let both : (made, q) ≡ (token, p) = ok-injective _ _ h1 in
      let same : q ≡ p = ap (λ (x : Text × Payload). x.1) both in
      let same_text : made ≡ token = ap (λ (x : Text × Payload). x.0) both in
      (rw (← same, ← same_text) encoded, same)

  uint32-num : (n m : ℕ) → uint32 (num n) ≡ ok m → m ≡ n
  unfolding uint32
  uint32-num n m e = sym (ok-injective _ _ ((if-ok (ltb 4_294_967_295 n) _ _ m e).1))

  module _ (key : Bytes) (now : ℕ) (nonce provider user wallet token_id : Text) (chain_id : ℕ)
      (asset token : Text) (p : Payload) where
    created :
        create_intent lib key now nonce provider user wallet token_id chain_id asset ≡ ok (token, p)
        → (encode_intent lib key p ≡ ok token) × (p.expires_at ≡ num (now + intent_ttl_seconds))
    unfolding create_intent
    created h =
        let (_, h0) = if-ok (not (is_provider provider)) _ _ (token, p) h in
        let (u, _, h1) = then_with-ok (address_payload lib user) _ (token, p) h0 in
        let (w, _, h2) = then_with-ok (address_payload lib wallet) _ (token, p) h1 in
        let (t, _, h3) = then_with-ok (hex_payload 32 (str token_id)) _ (token, p) h2 in
        let (c, _, h4) = then_with-ok (uint32 (num chain_id)) _ (token, p) h3 in
        let (a, _, h5) = then_with-ok (asset_code_or_error (str asset)) _ (token, p) h4 in
        let (iat, _, h6) = then_with-ok (uint32 (num now)) _ (token, p) h5 in
        let (exp, read, h7) =
          then_with-ok (uint32 (num (now + intent_ttl_seconds))) _ (token, p) h6 in
        let (encoded, same) =
          sealed-ok key token (payload_of lib provider u w t c a iat exp nonce) p h7 in
        let exact : exp ≡ now + intent_ttl_seconds =
          uint32-num (now + intent_ttl_seconds) exp read in
        (encoded, ap (λ (x : Payload). x.expires_at) (sym same) ∙ ap num exact)

    -- An intent that is created with a key is decoded, with any ring that holds this key, to the payload
    -- that was signed, until its time has passed; and later it is refused as expired, unless expired
    -- intents are allowed.
    pub create_intent-decode_intent :
        (keys : List Bytes) (allow_expired : Bool) (u : ℕ)
        → create_intent lib key now nonce provider user wallet token_id chain_id asset
          ≡ ok (token, p)
        → Has key keys
        → decode_intent lib keys allow_expired u token ≡ (
            if not allow_expired && ltb (now + intent_ttl_seconds) u
            then refuse (codes "On-ramp intent has expired")
            else ok p)
    create_intent-decode_intent keys allow_expired u h held =
        let (encoded, expires) = created h in
        let (valid, short, same) = encode_intent-ok key p token encoded in
        rw (← same) (decode-signed keys allow_expired u key p held valid short ∙ rw expires refl)
