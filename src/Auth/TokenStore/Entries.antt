-- ===== src/Auth/TokenStore/Entries.antt =====
-- Entries of the cache that stay absent until they are written: for what may be used once.
use privana.Prelude.{ℕ, ◌≤◌, ◌≡◌, refl, ◌∙◌, false, none, arith}
use privana.Text.{Text, text_eq, text_eq_refl}
use privana.Auth.DiskCache.{DiskCache}

module _ {V : Type 0} (D : DiskCache V) (key : Text) where
  -- From this time on the key is not in the cache.
  abbrev pub IsDead : ℕ → D.Store → Type 0
  IsDead t c = (u : ℕ) → t ≤ u → D.get u key c ≡ none

  pub IsDead-set :
      (t ttl : ℕ) (k : Text) (v : V) (c : D.Store)
      → text_eq k key ≡ false
      → IsDead t c
      → IsDead t (D.set t k v ttl c)
  IsDead-set t ttl k v c other dead u le = D.get-set t u ttl k key v c le ∙ rw other (dead u le)

  pub IsDead-delete : (t : ℕ) (k : Text) (c : D.Store) → IsDead t c → IsDead t (D.delete t k c)
  IsDead-delete t k c dead u le = ground (arith, D.get-delete t u k key c le, dead u le)

  pub IsDead-own : (t : ℕ) (c : D.Store) → IsDead t (D.delete t key c)
  IsDead-own t c u le = D.get-delete t u key key c le ∙ rw (text_eq_refl key) refl
