-- ===== src/Auth/Jwt/Sample.antt =====
-- A token library that runs: the claims in a row, each text behind its length. It signs nothing, and
-- has what is asked of `JwtLibrary`; and a service on it.
use privana.Prelude.{ℕ, zero, suc, ◌≡◌, refl, true, Option, none, some, [], ◌∷◌, if◌then◌else◌}
use privana.Text.{Text, codes, is_nonempty}
use privana.Effect.{Outcome, ok, raise, value_error, ok-injective}
use privana.Text.Framing.{write_text, split, read_text, and_then, split-write}
use privana.Auth.Jwt.{Claims, is_current, JwtLibrary, Settings}

write_option : Option Text → Text → Text
write_option none rest = 0 ∷ rest
write_option (some t) rest = 1 ∷ write_text t rest

unfoldable pub write_claims : Claims → Text
unfolding write_option
write_claims c =
    c.iat
    ∷ c.nbf
    ∷ c.exp
    ∷ write_text c.iss
        (write_text c.aud (write_option c.sub (write_option c.kind (write_option c.jti []))))

read_option : Text → Option (Option Text × Text)
read_option [] = none
read_option (zero ∷ s) = some (none, s)
read_option (suc _ ∷ s) = elim (read_text s) [ none ↦ none | some (t, rest) ↦ some (some t, rest) ]

read_claims : Text → Option Claims
read_claims (iat ∷ nbf ∷ exp ∷ s) = and_then (read_text s) λ iss s1.
    and_then (read_text s1) λ aud s2. and_then (read_option s2) λ sub s3.
      and_then (read_option s3) λ kind s4. and_then (read_option s4) λ jti s5. some (record {
        sub = sub;
        iss = iss;
        aud = aud;
        iat = iat;
        nbf = nbf;
        exp = exp;
        kind = kind;
        jti = jti;
      })
read_claims _ = none

read_option-write :
    (o : Option Text) (rest : Text) → read_option (write_option o rest) ≡ some (o, rest)
unfolding read_option write_option
read_option-write none rest = refl
read_option-write (some t) rest = rw (read_option, split-write t rest) refl

read_claims-write : (c : Claims) → read_claims (write_claims c) ≡ some c
unfolding read_claims write_claims
read_claims-write c = simp (split-write, read_option-write)

unfoldable pub decode_claims : ℕ → Text → Text → Text → Option Claims
unfolding read_claims read_option split
decode_claims now issuer audience token = elim (read_claims token) [
  | none ↦ none
  | some c ↦ if is_current now issuer audience c then some c else none
]

pub decode_claims-write :
    (now : ℕ) (issuer audience : Text) (c : Claims)
    → decode_claims now issuer audience (write_claims c)
      ≡ (if is_current now issuer audience c then some c else none)
unfolding decode_claims
decode_claims-write now issuer audience c = rw (decode_claims, read_claims-write c) refl

unfoldable pub plain_library : JwtLibrary
unfolding write_claims decode_claims
plain_library = record {
  encode = write_claims;
  decode = decode_claims;
  decode-encode = decode_claims-write;
}

abbrev pub checked : Text → Outcome Text
checked a = if is_nonempty a then ok a else raise (value_error (codes "address"))

pub checked-stable : (a b : Text) → checked a ≡ ok b → (checked b ≡ ok b) × (is_nonempty b ≡ true)
unfolding is_nonempty
checked-stable [] b h = cc
checked-stable (c ∷ a) b h = let e : c ∷ a ≡ b = ok-injective _ _ h in rw (← e) (refl, refl)

abbrev pub service : Settings
service = record {
  library = plain_library;
  expiry_hours = 1;
  refresh_expiry_days = 30;
  issuer = codes "privana";
  audience = codes "api";
  to_checksum_address = checked;
  checksum_stable = checked-stable;
}
