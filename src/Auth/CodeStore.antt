-- ===== src/Auth/CodeStore.antt =====
-- Authorization codes: `src/auth/code_store.py`. The clock counts seconds, and
-- `secrets.token_urlsafe(32)` is an argument of `create_code`.
use privana.Prelude.{ℕ, Option, ◌++◌}
use privana.Text.{Text, codes}
use privana.Auth.DiskCache.{DiskCache}

pub record AuthCodeRecord : Type 0 where
  pub user_address : Text
  pub client_id : Text
  pub redirect_uri : Text
  pub code_challenge : Text
  pub code_challenge_method : Text

abbrev pub code_key : Text → Text
code_key code = codes "auth_code:" ++ code

module _ (D : DiskCache AuthCodeRecord) where
  unfoldable pub create_code : ℕ → ℕ → Text → AuthCodeRecord → D.Store → D.Store
  create_code now ttl_seconds code r c = D.set now (code_key code) r ttl_seconds c

  unfoldable pub get_code : ℕ → Text → D.Store → Option AuthCodeRecord
  get_code now code c = D.get now (code_key code) c

  unfoldable pub consume_code : ℕ → Text → D.Store → Option AuthCodeRecord × D.Store
  consume_code now code c = (D.get now (code_key code) c, D.delete now (code_key code) c)
