-- ===== src/Intent.antt =====
-- src/services/onramp_intent.py: signed on-ramp intents, `create_intent` and `decode_intent`. JSON, base64 and
-- HMAC, and web3's reading of addresses, are the interface `Codec`; the key ring is a list of keys with the
-- signing key first. Texts hold ASCII, so `strip` and `lower` act on ASCII characters. Messages are shortened to
-- one for each kind of refusal.
pub mod RoundTrip
pub mod Canonical
mod Sample
mod Tests
use privana.Prelude.{
  refl, ℕ, suc, ◌+◌, ◌*◌, ◌-◌, ◌%◌, ◌≡◌, Bool, true, false, not, ◌&&◌, ◌||◌, Option, none, some,
  List, [], ◌∷◌, ◌++◌, ltb, leb, ◌==◌, length, every, Has, if◌then◌else◌,
}
use mathlib.Core.List.{reverse}
use privana.Text.{Text, codes, text_eq, lower, is_nonempty, remove_prefix, starts_with}
use privana.Text.Hex.{Bytes, digit_value}
use privana.Dict.{Dict, lookup}
use privana.Effect.{Outcome, ok, raise, value_error}
use privana.Deposit.Verifier.{then_with, refuse}

-- A value of a JSON object: a text, an integer that is not negative, or anything else.
pub data Value : Type 0 where
  str : Text → Value
  num : ℕ → Value
  other : ℕ → Value

-- A JSON object with exactly the fields v, p, u, w, t, c, a, iat, exp and n.
pub record Payload : Type 0 where
  pub version : Value
  pub provider : Value
  pub user : Value
  pub wallet : Value
  pub token_id : Value
  pub chain_id : Value
  pub asset : Value
  pub issued_at : Value
  pub expires_at : Value
  pub nonce : Value

-- The object of a payload, its keys in order.
unfoldable pub dict_of : Payload → Dict Value
dict_of p =
    (codes "a", p.asset)
    ∷ (codes "c", p.chain_id)
    ∷ (codes "exp", p.expires_at)
    ∷ (codes "iat", p.issued_at)
    ∷ (codes "n", p.nonce)
    ∷ (codes "p", p.provider)
    ∷ (codes "t", p.token_id)
    ∷ (codes "u", p.user)
    ∷ (codes "v", p.version)
    ∷ (codes "w", p.wallet)
    ∷ []

-- `_PAYLOAD_FIELDS`
unfoldable pub is_field : Text → Bool
unfolding text_eq
is_field k =
    text_eq k (codes "v")
    || text_eq k (codes "p")
    || text_eq k (codes "u")
    || text_eq k (codes "w")
    || text_eq k (codes "t")
    || text_eq k (codes "c")
    || text_eq k (codes "a")
    || text_eq k (codes "iat")
    || text_eq k (codes "exp")
    || text_eq k (codes "n")

unfoldable pub are_fields : Dict Value → Bool
unfolding is_field
are_fields [] = true
are_fields ((k, v) ∷ d) = let rest = are_fields d in is_field k && rest

abbrev pub field : {A : Type 0} → Option Value → (Value → Option A) → Option A
field none f = none
field (some v) f = f v

-- `set(payload) != _PAYLOAD_FIELDS` raises: nothing where the object has not exactly the fields.
unfoldable pub fields_of : Dict Value → Option Payload
unfolding lookup are_fields
fields_of d =
    if not (are_fields d)
    then none
    else field (lookup (codes "v") d) λ version. field (lookup (codes "p") d) λ provider.
      field (lookup (codes "u") d) λ user. field (lookup (codes "w") d) λ wallet.
        field (lookup (codes "t") d) λ token_id. field (lookup (codes "c") d) λ chain_id.
          field (lookup (codes "a") d) λ asset. field (lookup (codes "iat") d) λ issued_at.
            field (lookup (codes "exp") d) λ expires_at. field (lookup (codes "n") d) λ nonce.
              some (record {
                version = version;
                provider = provider;
                user = user;
                wallet = wallet;
                token_id = token_id;
                chain_id = chain_id;
                asset = asset;
                issued_at = issued_at;
                expires_at = expires_at;
                nonce = nonce;
              })

pub fields_of-dict_of : (p : Payload) → fields_of (dict_of p) ≡ some p
unfolding fields_of dict_of are_fields is_field lookup text_eq
fields_of-dict_of p = refl

-- `str.rstrip("=")`
unfoldable pub drop_padding : Text → Text
drop_padding [] = []
drop_padding (c ∷ s) = if c == 61 then drop_padding s else c ∷ s

unfoldable pub strip_padding : Text → Text
unfolding drop_padding
strip_padding s = reverse (drop_padding (reverse s))

-- `"=" * (-len(value) % 4)`
unfoldable pub padding : ℕ → Text
padding n =
    if n % 4 == 1
    then codes "==="
    else if n % 4 == 2
    then codes "=="
    else if n % 4 == 3
    then codes "="
    else []

-- `[A-Za-z0-9_-]`
unfoldable pub is_base64url : ℕ → Bool
is_base64url c =
    leb 65 c && leb c 90 || leb 97 c && leb c 122 || leb 48 c && leb c 57 || c == 95 || c == 45

pub record Codec : Type 0 where
  -- `json.dumps` with sorted keys and `json.loads`: nothing where the bytes are not JSON, and nothing
  -- inside where they hold no object. An object lists each key once.
  pub dumps : Payload → Bytes
  pub loads : Bytes → Option (Option (Dict Value))
  pub urlsafe_b64encode : Bytes → Text
  pub b64decode : Text → Option Bytes
  pub hmac_sha256 : Bytes → Text → Bytes
  pub is_address : Text → Bool
  pub to_checksum_address : Text → Text
  pub loads-dumps : (p : Payload) → loads (dumps p) ≡ some (some (dict_of p))
  pub dumps_nonempty : (p : Payload) → is_nonempty (dumps p) ≡ true
  pub b64decode-encode :
      (b : Bytes)
      → b64decode (
          strip_padding (urlsafe_b64encode b)
          ++ padding (length (strip_padding (urlsafe_b64encode b))))
        ≡ some b
  pub b64encode_alphabet :
      (b : Bytes) → every is_base64url (strip_padding (urlsafe_b64encode b)) ≡ true
  pub b64encode_nonempty :
      (b : Bytes) → is_nonempty b ≡ true → is_nonempty (strip_padding (urlsafe_b64encode b)) ≡ true
  pub hmac_length : (key : Bytes) (message : Text) → length (hmac_sha256 key message) ≡ 32

abbrev pub intent_prefix : Text
intent_prefix = codes "privana_"

abbrev pub intent_max_length : ℕ
intent_max_length = 512

abbrev pub intent_ttl_seconds : ℕ
intent_ttl_seconds = 86_400

abbrev pub is_provider : Text → Bool
is_provider p = text_eq p (codes "moonpay") || text_eq p (codes "transak")

abbrev pub is_space : ℕ → Bool
is_space c = c == 32 || leb 9 c && leb c 13

abbrev pub is_digit : Option ℕ → Bool
is_digit none = false
is_digit (some _) = true

-- `bytes.fromhex` raises nothing; it skips white space between bytes.
unfoldable pub is_fromhex : Text → Bool
unfolding digit_value
is_fromhex [] = true
is_fromhex (c ∷ []) = is_space c
is_fromhex (c ∷ d ∷ s) =
    let rest = is_fromhex s in
    let behind = is_fromhex (d ∷ s) in
    if is_space c then behind else is_digit (digit_value c) && is_digit (digit_value d) && rest

-- `_hex_payload`
unfoldable pub hex_payload : ℕ → Value → Outcome Text
unfolding lower remove_prefix is_fromhex
hex_payload byte_length (num _) = refuse (codes "Invalid field")
hex_payload byte_length (other _) = refuse (codes "Invalid field")
hex_payload byte_length (str s) =
    let stripped = remove_prefix (codes "0x") (lower s) in
    if not (length stripped == byte_length * 2) || not (is_fromhex stripped)
    then refuse (codes "Invalid field")
    else ok stripped

-- `_uint32`
unfoldable pub uint32 : Value → Outcome ℕ
uint32 (str _) = refuse (codes "Invalid field")
uint32 (other _) = refuse (codes "Invalid field")
uint32 (num n) = if ltb 4_294_967_295 n then refuse (codes "Invalid field") else ok n

-- `str.lstrip()`, which also takes the separators 28 to 31 for white space
unfoldable pub drop_spaces : Text → Text
drop_spaces [] = []
drop_spaces (c ∷ s) =
    let rest = drop_spaces s in if is_space c || leb 28 c && leb c 31 then rest else c ∷ s

-- `[a-z0-9]` and `[a-z0-9._:-]`
abbrev pub is_alphanumeric : ℕ → Bool
is_alphanumeric c = leb 97 c && leb c 122 || leb 48 c && leb c 57

abbrev pub is_asset_char : ℕ → Bool
is_asset_char c = is_alphanumeric c || c == 46 || c == 95 || c == 58 || c == 45

abbrev pub is_asset : Text → Bool
is_asset [] = false
is_asset (c ∷ s) = is_alphanumeric c && every is_asset_char s && leb (length s) 31

-- `_asset_code_or_error`; the pattern implies the tests before it, which differ in their message
unfoldable pub asset_code_or_error : Value → Outcome Text
unfolding lower drop_spaces
asset_code_or_error (num _) = refuse (codes "Invalid on-ramp asset code")
asset_code_or_error (other _) = refuse (codes "Invalid on-ramp asset code")
asset_code_or_error (str s) =
    let code = lower (reverse (drop_spaces (reverse (drop_spaces s)))) in
    if is_asset code then ok code else refuse (codes "Invalid on-ramp asset code")

-- `value != f(value)` raises
abbrev pub is_text : Value → Text → Bool
is_text (str s) t = text_eq s t
is_text (num _) t = false
is_text (other _) t = false

abbrev pub require : Bool → Outcome (Unit {0})
require true = ok tt
require false = refuse (codes "On-ramp intent is invalid")

abbrev pub unchanged : Value → Outcome Text → Outcome (Unit {0})
unchanged v r = then_with r λ t. require (is_text v t)

abbrev pub is_version : Value → Bool
is_version (num n) = n == 1
is_version (str _) = false
is_version (other _) = false

abbrev pub is_known_provider : Value → Bool
is_known_provider (str s) = is_provider s
is_known_provider (num _) = false
is_known_provider (other _) = false

-- `_validate`, behind its test of the field names (`fields_of`)
unfoldable pub validate : Payload → Outcome (Unit {0})
unfolding hex_payload uint32 asset_code_or_error text_eq
validate p = then_with (require (is_version p.version)) λ _.
    then_with (require (is_known_provider p.provider)) λ _.
      then_with (unchanged p.user (hex_payload 20 p.user)) λ _.
        then_with (unchanged p.wallet (hex_payload 20 p.wallet)) λ _.
          then_with (unchanged p.token_id (hex_payload 32 p.token_id)) λ _.
            then_with (unchanged p.nonce (hex_payload 8 p.nonce)) λ _.
              then_with (uint32 p.chain_id) λ _. then_with (uint32 p.issued_at) λ issued_at.
                then_with (uint32 p.expires_at) λ expires_at.
                  then_with (require (not (ltb expires_at issued_at)))
                    λ _. unchanged p.asset (asset_code_or_error p.asset)

module _ (lib : Codec) where
  -- `_b64url_encode`
  unfoldable pub b64url_encode : Bytes → Text
  b64url_encode b = strip_padding (lib.urlsafe_b64encode b)

  abbrev pub canonical : Text → Option Bytes → Outcome Bytes
  canonical value none = refuse (codes "invalid base64url")
  canonical value (some b) =
      if text_eq (strip_padding (lib.urlsafe_b64encode b)) value
      then ok b
      else refuse (codes "noncanonical base64url")

  -- `_b64url_decode`
  unfoldable pub b64url_decode : Text → Outcome Bytes
  b64url_decode value =
      if not (is_nonempty value) || not (every is_base64url value)
      then refuse (codes "invalid base64url")
      else canonical value (lib.b64decode (value ++ padding (length value)))

  -- `_signature`
  unfoldable pub signature : Text → Bytes → Bytes
  signature payload_b64 key = lib.hmac_sha256 key (codes "privana:onramp:intent:v1:" ++ payload_b64)

  abbrev pub token_of : Text → Text → Text
  token_of payload_b64 signature_b64 = intent_prefix ++ (payload_b64 ++ b'.' ∷ signature_b64)

  abbrev pub signed_token : Bytes → Payload → Text
  signed_token key p =
      token_of (b64url_encode (lib.dumps p))
        (b64url_encode (signature (b64url_encode (lib.dumps p)) key))

  -- `_encode_intent`, with the signing key
  unfoldable pub encode_intent : Bytes → Payload → Outcome Text
  unfolding validate b64url_encode signature
  encode_intent key p = then_with (validate p) λ _.
      if ltb intent_max_length (length (signed_token key p))
      then refuse (codes "On-ramp intent is too large")
      else ok (signed_token key p)

  -- `_address_payload`
  unfoldable pub address_payload : Text → Outcome Text
  unfolding lower remove_prefix
  address_payload value =
      if lib.is_address value
      then ok (lower (remove_prefix (codes "0x") (lib.to_checksum_address value)))
      else refuse (codes "Invalid address")

  abbrev pub payload_of : Text → Text → Text → Text → ℕ → Text → ℕ → ℕ → Text → Payload
  payload_of provider u w t c a iat exp nonce = record {
    version = num 1;
    provider = str provider;
    user = str u;
    wallet = str w;
    token_id = str t;
    chain_id = num c;
    asset = str a;
    issued_at = num iat;
    expires_at = num exp;
    nonce = str nonce;
  }

  abbrev pub sealed : Bytes → Payload → Outcome (Text × Payload)
  sealed key p = then_with (encode_intent key p) λ token. ok (token, p)

  -- `create_intent`; `nonce` is the drawn text
  unfoldable pub create_intent :
      Bytes → ℕ → Text → Text → Text → Text → Text → ℕ → Text → Outcome (Text × Payload)
  create_intent key now nonce provider user wallet token_id chain_id asset =
      if not (is_provider provider)
      then refuse (codes "Unsupported on-ramp provider")
      else then_with (address_payload user) λ u. then_with (address_payload wallet) λ w.
        then_with (hex_payload 32 (str token_id)) λ t. then_with (uint32 (num chain_id)) λ c.
          then_with (asset_code_or_error (str asset)) λ a. then_with (uint32 (num now)) λ iat.
            then_with (uint32 (num (now + intent_ttl_seconds)))
              λ exp. sealed key (payload_of provider u w t c a iat exp nonce)

  -- The text split at its one dot.
  unfoldable pub split_once : Text → Option (Text × Text)
  split_once [] = none
  split_once (c ∷ s) =
      if c == b'.'
      then (if every (λ d. not (d == b'.')) s then some ([], s) else none)
      else elim (split_once s) [ none ↦ none | some (t, rest) ↦ some (c ∷ t, rest) ]

  unfoldable pub any_match : Text → Bytes → List Bytes → Bool
  unfolding signature text_eq
  any_match payload_b64 provided [] = false
  any_match payload_b64 provided (key ∷ keys) =
      let rest = any_match payload_b64 provided keys in
      text_eq (signature payload_b64 key) provided || rest

  abbrev pub is_expired : ℕ → Value → Bool
  is_expired now (num n) = ltb n now
  is_expired now (str _) = false
  is_expired now (other _) = false

  -- Behind the test of the field names.
  abbrev pub fielded : Bool → ℕ → Bytes → Option Payload → Outcome Payload
  fielded allow_expired now payload_bytes none =
      refuse (codes "On-ramp intent payload is malformed")
  fielded allow_expired now payload_bytes (some p) = then_with (validate p) λ _.
      if not (text_eq payload_bytes (lib.dumps p))
      then refuse (codes "On-ramp intent payload is malformed")
      else if not allow_expired && is_expired now p.expires_at
      then refuse (codes "On-ramp intent has expired")
      else ok p

  abbrev pub checked : Bool → ℕ → Bytes → Option (Option (Dict Value)) → Outcome Payload
  checked allow_expired now payload_bytes none =
      refuse (codes "On-ramp intent payload is malformed")
  checked allow_expired now payload_bytes (some none) =
      refuse (codes "On-ramp intent payload is malformed")
  checked allow_expired now payload_bytes (some (some d)) =
      fielded allow_expired now payload_bytes (fields_of d)

  abbrev pub decode_parts : List Bytes → Bool → ℕ → Option (Text × Text) → Outcome Payload
  decode_parts keys allow_expired now none = refuse (codes "On-ramp intent is malformed")
  decode_parts keys allow_expired now (some (payload_b64, signature_b64)) =
      if not (is_nonempty payload_b64) || not (is_nonempty signature_b64)
      then refuse (codes "On-ramp intent is malformed")
      else then_with (b64url_decode payload_b64) λ payload_bytes.
        then_with (b64url_decode signature_b64) λ provided.
          if not (is_nonempty payload_bytes) || not (length provided == 32)
          then refuse (codes "On-ramp intent is malformed")
          else if not (any_match payload_b64 provided keys)
          then refuse (codes "On-ramp intent signature mismatch")
          else checked allow_expired now payload_bytes (lib.loads payload_bytes)

  -- `decode_intent`, with the key ring
  unfoldable pub decode_intent : List Bytes → Bool → ℕ → Text → Outcome Payload
  decode_intent keys allow_expired now token =
      if not (starts_with intent_prefix token)
      then refuse (codes "On-ramp intent is not a Privana intent")
      else if ltb intent_max_length (length token)
      then refuse (codes "On-ramp intent is too large")
      else decode_parts keys allow_expired now (split_once (remove_prefix intent_prefix token))
