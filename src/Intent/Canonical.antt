-- ===== src/Intent/Canonical.antt =====
-- src/services/onramp_intent.py: an intent that is accepted is the one that was signed, to the letter.
use privana.Prelude.{
  ℕ, ◌≡◌, refl, sym, ap, ◌∙◌, ◌⊎◌, inl, inr, Bool, true, false, not, ◌&&◌, ◌||◌, Option, none, some,
  List, [], ◌∷◌, ◌++◌, arith, ltb, ◌==◌, ==_iff, length, every, Has, Bool-cases, Option-cases,
  if◌then◌else◌,
}
use privana.Text.{
  Text, codes, text_eq, text_eq_iff, is_nonempty, starts_with, remove_prefix, strip_prefix,
}
use privana.Text.Hex.{Bytes}
use privana.Effect.{Outcome, ok, ok-injective}
use privana.Deposit.Verifier.{then_with-ok, refuse}
use privana.Dict.{Dict}
use privana.Intent.{
  Value, fields_of, fielded, Payload, Codec, intent_prefix, intent_max_length, padding,
  strip_padding, validate, b64url_encode, canonical, b64url_decode, signature, signed_token,
  split_once, any_match, is_expired, checked, decode_parts, decode_intent,
}

strip_prefix-some : (p s r : Text) → strip_prefix p s ≡ some r → s ≡ p ++ r
unfolding strip_prefix
strip_prefix-some [] s r h = ground arith
strip_prefix-some (x ∷ p) [] r h = cc
strip_prefix-some (x ∷ p) (y ∷ s) r h = ground (arith, strip_prefix-some p s r)

starts_with-true : (p s : Text) → starts_with p s ≡ true → s ≡ p ++ remove_prefix p s
unfolding starts_with remove_prefix
starts_with-true p s h = elim (Option-cases (strip_prefix p s)) [
  | inl e ↦ let impossible : false ≡ true = rw (starts_with, e) at h in cc
  | inr (r, e) ↦ rw (remove_prefix, e) (strip_prefix-some p s r e)
]

-- A test that lets the rest go on.
pub if-ok :
    {A : Type 0} (b : Bool) (m : Text) (r : Outcome A) (a : A)
    → (if b then refuse m else r) ≡ ok a
    → (b ≡ false) × (r ≡ ok a)
if-ok true m r a h = cc
if-ok false m r a h = (refl, h)

module _ (lib : Codec) where
  split_once-some : (s a b : Text) → split_once lib s ≡ some (a, b) → s ≡ a ++ b'.' ∷ b
  unfolding split_once
  split_once-some [] a b h = cc
  split_once-some (c ∷ s) a b h = elim (Bool-cases (c == b'.')) [
    | inl dot ↦ elim (Bool-cases (every (λ d. not (d == b'.')) s)) [
      | inl only ↦
          let got : some ([], s) ≡ some (a, b) = rw (split_once, dot, only) at h in
          ground (arith, (==_iff c b'.').0 dot, got)
      | inr more ↦ let got : none ≡ some (a, b) = rw (split_once, dot, more) at h in cc
    ]
    | inr other ↦ elim (Option-cases (split_once lib s)) [
      | inl e ↦ let got : none ≡ some (a, b) = rw (split_once, other, e) at h in cc
      | inr ((t, rest), e) ↦
          let got : some (c ∷ t, rest) ≡ some (a, b) = rw (split_once, other, e) at h in
          let behind : s ≡ t ++ b'.' ∷ rest = split_once-some s t rest e in
          ground (arith, got, behind)
    ]
  ]

  b64url_decode-ok :
      (value : Text) (b : Bytes) → b64url_decode lib value ≡ ok b → b64url_encode lib b ≡ value
  unfolding b64url_decode b64url_encode
  b64url_decode-ok value b h =
      let (_, decoded) = if-ok _ _ _ b h in
      by_library (lib.b64decode (value ++ padding (length value))) decoded
    where
      by_library :
          (o : Option Bytes)
          → canonical lib value o ≡ ok b
          → strip_padding (lib.urlsafe_b64encode b) ≡ value
      by_library none e = cc
      by_library (some a) e =
          elim (Bool-cases (text_eq (strip_padding (lib.urlsafe_b64encode a)) value)) [
            | inl same ↦
                let got : a ≡ b = ok-injective _ _ (rw same at e) in
                rw (← got) ((text_eq_iff (strip_padding (lib.urlsafe_b64encode a)) value).0 same)
            | inr differs ↦
                let got : refuse (codes "noncanonical base64url") ≡ ok b = rw differs at e in cc
          ]

  any_match-true :
      (payload_b64 : Text) (provided : Bytes) (keys : List Bytes)
      → any_match lib payload_b64 provided keys ≡ true
      → (key : Bytes) × Has key keys × (signature lib payload_b64 key ≡ provided)
  unfolding any_match
  any_match-true payload_b64 provided [] h = cc
  any_match-true payload_b64 provided (key ∷ keys) h =
      elim (Bool-cases (text_eq (signature lib payload_b64 key) provided)) [
        | inl e ↦ (key, inl refl, (text_eq_iff (signature lib payload_b64 key) provided).0 e)
        | inr e ↦
            let (k, later, same) =
              any_match-true payload_b64 provided keys (rw (any_match, e) at h) in
            (k, inr later, same)
      ]

  -- The payload that the checks behind the signature let through.
  fielded-ok :
      (allow_expired : Bool) (now : ℕ) (payload_bytes : Bytes) (o : Option Payload) (p : Payload)
      → fielded lib allow_expired now payload_bytes o ≡ ok p
      → (validate p ≡ ok tt)
        × (payload_bytes ≡ lib.dumps p)
        × ((allow_expired ≡ true) ⊎ (is_expired lib now p.expires_at ≡ false))
  fielded-ok allow_expired now payload_bytes none p h = cc
  fielded-ok allow_expired now payload_bytes (some q) p h =
      let (_, valid, h1) = then_with-ok (validate q) _ p h in
      let (same_bytes, h2) = if-ok _ _ _ p h1 in
      let (in_time, h3) = if-ok _ _ _ p h2 in
      let same : q ≡ p = ok-injective _ _ h3 in
      rw (← same) (
        valid,
        (text_eq_iff payload_bytes (lib.dumps q)).0 (ground arith),
        time allow_expired (is_expired lib now q.expires_at) in_time,
      )
    where
      time : (a e : Bool) → not a && e ≡ false → (a ≡ true) ⊎ (e ≡ false)
      time true e h = inl refl
      time false e h = inr h

  checked-ok :
      (allow_expired : Bool) (now : ℕ) (payload_bytes : Bytes) (o : Option (Option (Dict Value)))
      (p : Payload)
      → checked lib allow_expired now payload_bytes o ≡ ok p
      → (validate p ≡ ok tt)
        × (payload_bytes ≡ lib.dumps p)
        × ((allow_expired ≡ true) ⊎ (is_expired lib now p.expires_at ≡ false))
  checked-ok allow_expired now payload_bytes none p h = cc
  checked-ok allow_expired now payload_bytes (some none) p h = cc
  checked-ok allow_expired now payload_bytes (some (some d)) p h =
      fielded-ok allow_expired now payload_bytes (fields_of d) p h

  -- The same, from the two parts of the intent.
  parts-ok :
      (keys : List Bytes) (allow_expired : Bool) (now : ℕ) (a b : Text) (p : Payload)
      → decode_parts lib keys allow_expired now (some (a, b)) ≡ ok p
      → ((key : Bytes) × Has key keys
          × (b64url_encode lib (lib.dumps p) ≡ a)
          × (b64url_encode lib (signature lib a key) ≡ b))
        × (validate p ≡ ok tt)
        × ((allow_expired ≡ true) ⊎ (is_expired lib now p.expires_at ≡ false))
  parts-ok keys allow_expired now a b p h =
      let (_, h3) = if-ok (not (is_nonempty a) || not (is_nonempty b)) _ _ p h in
      let (payload_bytes, decoded, h4) = then_with-ok (b64url_decode lib a) _ p h3 in
      let (provided, decoded_signature, h5) = then_with-ok (b64url_decode lib b) _ p h4 in
      let (_, h6) =
        if-ok (not (is_nonempty payload_bytes) || not (length provided == 32)) _ _ p h5 in
      let (matched, h7) = if-ok (not (any_match lib a provided keys)) _ _ p h6 in
      let (valid, same_bytes, in_time) =
        checked-ok allow_expired now payload_bytes (lib.loads payload_bytes) p h7 in
      let is_matched : any_match lib a provided keys ≡ true = ground arith in
      let (key, held, signs) = any_match-true a provided keys is_matched in
      (
        (
          key,
          held,
          ap (b64url_encode lib) (sym same_bytes) ∙ b64url_decode-ok a payload_bytes decoded,
          ap (b64url_encode lib) signs ∙ b64url_decode-ok b provided decoded_signature,
        ),
        valid,
        in_time,
      )

  split-ok :
      (keys : List Bytes) (allow_expired : Bool) (now : ℕ) (o : Option (Text × Text)) (p : Payload)
      → decode_parts lib keys allow_expired now o ≡ ok p
      → (a : Text) × (b : Text) × (o ≡ some (a, b))
        × ((key : Bytes) × Has key keys
            × (b64url_encode lib (lib.dumps p) ≡ a)
            × (b64url_encode lib (signature lib a key) ≡ b))
        × (validate p ≡ ok tt)
        × ((allow_expired ≡ true) ⊎ (is_expired lib now p.expires_at ≡ false))
  split-ok keys allow_expired now none p h = cc
  split-ok keys allow_expired now (some (a, b)) p h =
      let (signed, valid, in_time) = parts-ok keys allow_expired now a b p h in
      (a, b, refl, signed, valid, in_time)

  -- An intent that is accepted is, character for character, the one that `_encode_intent` makes of the
  -- payload that is returned with one of the keys of the ring; this payload is valid, and it has not
  -- expired unless that is allowed.
  pub decode_intent-canonical :
      (keys : List Bytes) (allow_expired : Bool) (now : ℕ) (token : Text) (p : Payload)
      → decode_intent lib keys allow_expired now token ≡ ok p
      → ((key : Bytes) × Has key keys × (token ≡ signed_token lib key p))
        × (validate p ≡ ok tt)
        × ((allow_expired ≡ true) ⊎ (is_expired lib now p.expires_at ≡ false))
  unfolding decode_intent
  decode_intent-canonical keys allow_expired now token p h =
      let (prefixed, h1) = if-ok (not (starts_with intent_prefix token)) _ _ p h in
      let (_, h2) = if-ok (ltb intent_max_length (length token)) _ _ p h1 in
      let (a, b, parts, (key, held, payload_again, signature_again), valid, in_time) =
        split-ok keys allow_expired now (split_once lib (remove_prefix intent_prefix token)) p h2 in
      let has_prefix : starts_with intent_prefix token ≡ true = ground arith in
      (
        (
          key,
          held,
          starts_with-true intent_prefix token has_prefix
              ∙ ap (λ x. intent_prefix ++ x)
                  (split_once-some (remove_prefix intent_prefix token) a b parts)
              ∙ rw (payload_again, signature_again) refl,
        ),
        valid,
        in_time,
      )
