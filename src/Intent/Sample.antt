-- ===== src/Intent/Sample.antt =====
-- A codec that runs: characters of the base64url alphabet stand for themselves, other bytes for a dash with as
-- many A as the byte says. It keeps nothing secret, and has what is asked of `Codec`.
use privana.Prelude.{
  ℕ, zero, suc, ◌+◌, ◌*◌, ◌-◌, ◌/◌, ◌%◌, ◌≡◌, refl, ap, ◌∙◌, inl, inr, Bool, true, false, not, ◌&&◌,
  Option, none, some, [], ◌∷◌, ◌++◌, arith, ◌==◌, length, every, Bool-cases, if◌then◌else◌,
}
use mathlib.Core.List.{reverse, reverse-append, reverse-reverse}
use privana.Text.{Text, is_nonempty}
use privana.Text.Hex.{Bytes}
use privana.Text.Framing.{write_text, split, read_text, and_then, split-write}
use privana.Dict.{Dict}
use privana.Intent.{
  dict_of, Value, str, num, other, Payload, Codec, drop_padding, strip_padding, padding,
  is_base64url,
}

is_plain : ℕ → Bool
unfolding is_base64url
is_plain c = is_base64url c && not (c == 45)

marks : ℕ → Text → Text
marks zero s = 95 ∷ s
marks (suc n) s = 65 ∷ marks n s

unfoldable pub encode_bytes : Bytes → Text
unfolding is_plain marks
encode_bytes [] = 45 ∷ 66 ∷ []
encode_bytes (b ∷ bs) =
    let rest = encode_bytes bs in if is_plain b then b ∷ rest else 45 ∷ marks b rest

joined : ℕ → Option Bytes → Option Bytes
joined b none = none
joined b (some bs) = some (b ∷ bs)

-- With what has been read of an escape.
read_bytes : Option ℕ → Text → Option Bytes
unfolding joined
read_bytes m [] = none
read_bytes none (c ∷ s) =
    let escaped = read_bytes (some 0) s in
    let rest = read_bytes none s in if c == 45 then escaped else joined c rest
read_bytes (some acc) (c ∷ s) =
    let more = read_bytes (some (acc + 1)) s in
    let rest = read_bytes none s in
    if c == 65 then more else if c == 95 then joined acc rest else some []

unfoldable pub decode_bytes : Text → Option Bytes
unfolding read_bytes
decode_bytes s = read_bytes none s

read-marks :
    (n acc : ℕ) (s : Text)
    → read_bytes (some acc) (marks n s) ≡ joined (acc + n) (read_bytes none s)
unfolding read_bytes marks
read-marks zero acc s = ap (λ (x : ℕ). joined x (read_bytes none s)) (omega arith)
read-marks (suc n) acc s =
    read-marks n (acc + 1) s ∙ ap (λ (x : ℕ). joined x (read_bytes none s)) (omega arith)

plain-not-dash : (c : ℕ) → is_plain c ≡ true → (c == 45) ≡ false
unfolding is_plain
plain-not-dash c h = ground arith

read-encode : (bs : Bytes) (tail : Text) → read_bytes none (encode_bytes bs ++ tail) ≡ some bs
unfolding read_bytes encode_bytes joined
read-encode [] tail = refl
read-encode (b ∷ bs) tail = elim (Bool-cases (is_plain b)) [
  | inl e ↦
      rw (encode_bytes, e, read_bytes, plain-not-dash b e) (ap (joined b) (read-encode bs tail))
  | inr e ↦
      rw (encode_bytes, e, read_bytes)
        (marked b (encode_bytes bs) ∙ ap (joined b) (read-encode bs tail))
]
  where
    marks-append : (n : ℕ) (s : Text) → marks n s ++ tail ≡ marks n (s ++ tail)
    marks-append zero s = refl
    marks-append (suc n) s = unfold marks in ap (λ t. 65 ∷ t) (marks-append n s)

    marked :
        (n : ℕ) (s : Text)
        → read_bytes (some 0) (marks n s ++ tail) ≡ joined n (read_bytes none (s ++ tail))
    marked n s = rw (marks-append n s) (
        read-marks n 0 (s ++ tail)
        ∙ ap (λ (x : ℕ). joined x (read_bytes none (s ++ tail))) (omega arith))

encode-plain : (bs : Bytes) → every is_base64url (encode_bytes bs) ≡ true
unfolding encode_bytes is_base64url
encode-plain [] = refl
encode-plain (b ∷ bs) = elim (Bool-cases (is_plain b)) [
  | inl e ↦
      rw (encode_bytes, e)
        (let here : is_base64url b ≡ true = unfold is_plain in ground arith in
          rw (here, encode-plain bs) refl)
  | inr e ↦ rw (encode_bytes, e) (marks_plain b (encode_bytes bs) (encode-plain bs))
]
  where
    marks_plain :
        (n : ℕ) (s : Text) → every is_base64url s ≡ true → every is_base64url (marks n s) ≡ true
    marks_plain zero s h = unfold marks in h
    marks_plain (suc n) s h = unfold marks in marks_plain n s h

every-append : (p : ℕ → Bool) (a b : Text) → every p (a ++ b) ≡ every p a && every p b
every-append p [] b = refl
every-append p (c ∷ a) b = rw (every-append p a b) (and_assoc (p c) (every p a) (every p b))
  where
    and_assoc : (x y z : Bool) → x && (y && z) ≡ (x && y) && z
    and_assoc true y z = refl
    and_assoc false y z = refl

every-reverse : (s : Text) → every is_base64url s ≡ true → every is_base64url (reverse s) ≡ true
every-reverse [] h = refl
every-reverse (c ∷ s) h =
    let here : is_base64url c ≡ true = ground arith in
    let behind : every is_base64url s ≡ true = ground arith in
    rw
      (
        reverse-append (c ∷ []) s,
        every-append is_base64url (reverse s) (c ∷ []),
        every-reverse s behind,
        here,
      )
      refl

drop-plain : (s : Text) → every is_base64url s ≡ true → drop_padding s ≡ s
unfolding drop_padding is_base64url
drop-plain [] h = refl
drop-plain (c ∷ s) h = ground arith

-- No padding is stripped.
strip-plain : (s : Text) → every is_base64url s ≡ true → strip_padding s ≡ s
unfolding strip_padding
strip-plain s h = ap reverse (drop-plain (reverse s) (every-reverse s h)) ∙ reverse-reverse s

write_value : Value → Text → Text
write_value (str t) rest = 0 ∷ write_text t rest
write_value (num n) rest = 1 ∷ (n / 2500 + 48) ∷ (n / 50 % 50 + 48) ∷ (n % 50 + 48) ∷ rest
write_value (other n) rest = 2 ∷ n ∷ rest

read_value : Text → Option (Value × Text)
read_value (zero ∷ s) = elim (read_text s) [ none ↦ none | some (t, rest) ↦ some (str t, rest) ]
read_value (suc zero ∷ x ∷ y ∷ z ∷ s) = some (num ((x - 48) * 2500 + (y - 48) * 50 + (z - 48)), s)
read_value (suc (suc _) ∷ n ∷ s) = some (other n, s)
read_value _ = none

read-write : (v : Value) (rest : Text) → read_value (write_value v rest) ≡ some (v, rest)
unfolding read_value write_value
read-write (str t) rest = rw (read_value, split-write t rest) refl
read-write (num n) rest = ap (λ (m : ℕ). some (num m, rest)) (omega arith)
read-write (other n) rest = refl

write_payload : Payload → Bytes
unfolding write_value
write_payload p = write_value p.version (
    write_value p.provider (
      write_value p.user (
        write_value p.wallet (
          write_value p.token_id (
            write_value p.chain_id (
              write_value p.asset
                (write_value p.issued_at (write_value p.expires_at (write_value p.nonce [])))))))))

read_payload : Bytes → Option Payload
read_payload s = and_then (read_value s) λ version s. and_then (read_value s) λ provider s.
    and_then (read_value s) λ user s. and_then (read_value s) λ wallet s.
      and_then (read_value s) λ token_id s. and_then (read_value s) λ chain_id s.
        and_then (read_value s) λ asset s. and_then (read_value s) λ issued_at s.
          and_then (read_value s) λ expires_at s. and_then (read_value s) λ nonce s. some (record {
            version = version;
            provider = provider;
            user = user;
            wallet = wallet;
            token_id = token_id;
            chain_id = chain_id;
            asset = asset;
            issued_at = issued_at;
            expires_at = expires_at;
            nonce = nonce;
          })

abbrev object_of : Option Payload → Option (Dict Value)
object_of none = none
object_of (some p) = some (dict_of p)

unfoldable pub load_payload : Bytes → Option (Option (Dict Value))
unfolding read_payload read_value split
load_payload s = some (object_of (read_payload s))

unfoldable pub dump_payload : Payload → Bytes
unfolding write_payload
dump_payload p = write_payload p

read-written : (p : Payload) → read_payload (write_payload p) ≡ some p
unfolding write_payload read_payload
read-written p = simp read-write

pub load-dump : (p : Payload) → load_payload (dump_payload p) ≡ some (some (dict_of p))
unfolding load_payload dump_payload write_payload read_payload
load-dump p = ap (λ o. some (object_of o)) (read-written p)

pub dump_nonempty : (p : Payload) → is_nonempty (dump_payload p) ≡ true
unfolding dump_payload write_payload write_value is_nonempty
dump_nonempty p = starts p.version _
  where
    starts : (v : Value) (s : Text) → is_nonempty (write_value v s) ≡ true
    starts (str t) s = refl
    starts (num n) s = refl
    starts (other n) s = refl

pub decode-encoded :
    (b : Bytes)
    → decode_bytes
        (strip_padding (encode_bytes b) ++ padding (length (strip_padding (encode_bytes b))))
      ≡ some b
unfolding decode_bytes
decode-encoded b = rw (strip-plain (encode_bytes b) (encode-plain b)) (read-encode b _)

pub encoded-plain : (b : Bytes) → every is_base64url (strip_padding (encode_bytes b)) ≡ true
encoded-plain b = rw (strip-plain (encode_bytes b) (encode-plain b)) (encode-plain b)

pub encoded_nonempty :
    (b : Bytes) → is_nonempty b ≡ true → is_nonempty (strip_padding (encode_bytes b)) ≡ true
unfolding encode_bytes is_nonempty
encoded_nonempty b h = rw (strip-plain (encode_bytes b) (encode-plain b)) (some_first b)
  where
    some_first : (b : Bytes) → is_nonempty (encode_bytes b) ≡ true
    some_first [] = refl
    some_first (x ∷ b) = elim (Bool-cases (is_plain x)) [
      | inl e ↦ rw (encode_bytes, e) refl
      | inr e ↦ rw (encode_bytes, e) refl
    ]

copies : ℕ → Bytes
copies k =
    k ∷ k ∷ k ∷ k ∷ k ∷ k ∷ k ∷ k ∷ k ∷ k ∷ k ∷ k ∷ k ∷ k ∷ k ∷ k ∷ k ∷ k ∷ k ∷ k ∷ k ∷ k ∷ k ∷ k
    ∷ k ∷ k ∷ k ∷ k ∷ k ∷ k ∷ k ∷ k ∷ []

-- The key's first byte, 32 times.
unfoldable pub stamp : Bytes → Text → Bytes
unfolding copies
stamp [] message = copies 65
stamp (k ∷ _) message = copies k

pub length-stamp : (key : Bytes) (message : Text) → length (stamp key message) ≡ 32
unfolding stamp
length-stamp [] message = refl
length-stamp (k ∷ key) message = refl

abbrev pub plain_codec : Codec
plain_codec = record {
  dumps = dump_payload;
  loads = load_payload;
  urlsafe_b64encode = encode_bytes;
  b64decode = decode_bytes;
  hmac_sha256 = stamp;
  is_address = λ a. length a == 42;
  to_checksum_address = λ a. a;
  loads-dumps = load-dump;
  dumps_nonempty = dump_nonempty;
  b64decode-encode = decode-encoded;
  b64encode_alphabet = encoded-plain;
  b64encode_nonempty = encoded_nonempty;
  hmac_length = length-stamp;
}
