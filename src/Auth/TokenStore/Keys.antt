-- ===== src/Auth/TokenStore/Keys.antt =====
-- The keys of the token store never collide.
use privana.Prelude.{◌≡◌, refl, true, false, [], ◌∷◌, ◌++◌, arith}
use privana.Text.{Text, text_eq, codes, starts_with, strip_prefix}
use privana.Auth.TokenStore.{refresh_key, nonce_key, client_key}

pub text_eq-append : (p s t : Text) → text_eq (p ++ s) (p ++ t) ≡ text_eq s t
unfolding text_eq
text_eq-append [] s t = refl
text_eq-append (x ∷ p) s t = ground (arith, text_eq-append p s t)

pub refresh-nonce : (s t : Text) → text_eq (refresh_key s) (nonce_key t) ≡ false
unfolding text_eq
refresh-nonce s t = refl

pub client-nonce : (s t : Text) → text_eq (client_key s) (nonce_key t) ≡ false
unfolding text_eq
client-nonce s t = refl

pub starts_with-refresh : (s : Text) → starts_with (codes "refresh:") (refresh_key s) ≡ true
unfolding starts_with strip_prefix
starts_with-refresh s = refl

pub starts_with-nonce : (s : Text) → starts_with (codes "refresh:") (nonce_key s) ≡ false
unfolding starts_with strip_prefix
starts_with-nonce s = refl

pub nonce-nonce : (s t : Text) → text_eq (nonce_key s) (nonce_key t) ≡ text_eq s t
nonce-nonce s t = text_eq-append (codes "nonce:") s t

pub refresh-refresh : (s t : Text) → text_eq (refresh_key s) (refresh_key t) ≡ text_eq s t
refresh-refresh s t = text_eq-append (codes "refresh:") s t
