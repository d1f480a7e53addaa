-- ===== src/Intent/Tests.antt =====
-- Runs of the intents with a codec that keeps nothing secret.
use privana.Prelude.{
  ◌+◌, ◌≡◌, ◌⊎◌, refl, inl, inr, true, false, not, ◌&&◌, [], ◌∷◌, ltb, Has, if◌then◌else◌,
}
use privana.Text.{Text, codes}
use privana.Text.Hex.{Bytes}
use privana.Effect.{ok}
use privana.Deposit.Verifier.{refuse}
use privana.Intent.{
  Payload, strip_padding, address_payload, intent_ttl_seconds, validate, b64url_encode, signature,
  signed_token, encode_intent, is_expired, decode_intent, payload_of, create_intent,
}
use privana.Intent.Sample.{plain_codec, dump_payload, encode_bytes, stamp}
use privana.Intent.RoundTrip.{create_intent-decode_intent}
use privana.Intent.Canonical.{decode_intent-canonical}

abbrev key : Bytes
key = 65 ∷ []

abbrev digits_40 : Text
digits_40 = codes "00112233445566778899aabbccddeeff00112233"

abbrev digits_64 : Text
digits_64 = codes "00112233445566778899aabbccddeeff00112233445566778899aabbccddeeff"

abbrev user : Text
user = codes "0x00112233445566778899aabbccddeeff00112233"

abbrev nonce : Text
nonce = codes "0011223344556677"

abbrev sent : Payload
sent =
    payload_of plain_codec (codes "moonpay") digits_40 digits_40 digits_64 1 (codes "usdc") 100
      86_500 nonce

abbrev token : Text
token = signed_token plain_codec key sent

created :
    create_intent plain_codec key 100 nonce (codes "moonpay") user user digits_64 1 (codes "usdc")
    ≡ ok (token, sent)
unfolding create_intent address_payload encode_intent validate b64url_encode signature strip_padding
    encode_bytes dump_payload stamp
created = refl

create_intent-decode_intent_example : decode_intent plain_codec (key ∷ []) false 90_000 token ≡ (
    if not false && ltb (100 + intent_ttl_seconds) 90_000
    then refuse (codes "On-ramp intent has expired")
    else ok sent)
create_intent-decode_intent_example =
    create_intent-decode_intent plain_codec key 100 nonce (codes "moonpay") user user digits_64 1
      (codes "usdc") token sent (key ∷ []) false 90_000 created (inl refl)

accepted : decode_intent plain_codec ((66 ∷ []) ∷ key ∷ []) false 86_500 token ≡ ok sent
accepted =
    create_intent-decode_intent plain_codec key 100 nonce (codes "moonpay") user user digits_64 1
      (codes "usdc") token sent ((66 ∷ []) ∷ key ∷ []) false 86_500 created (inr (inl refl))

decode_intent-canonical_example :
    ((k : Bytes) × Has k ((66 ∷ []) ∷ key ∷ []) × (token ≡ signed_token plain_codec k sent))
    × (validate sent ≡ ok tt)
    × ((false ≡ true) ⊎ (is_expired plain_codec 86_500 sent.expires_at ≡ false))
decode_intent-canonical_example =
    decode_intent-canonical plain_codec ((66 ∷ []) ∷ key ∷ []) false 86_500 token sent accepted
