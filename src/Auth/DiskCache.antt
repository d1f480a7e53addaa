-- ===== src/Auth/DiskCache.antt =====
-- The `diskcache.Cache` that the stores of `src/auth` keep their entries in, as an interface: the
-- calls that they make, each at a reading of the clock, and what the package's documentation
-- says of them; a lifetime is in the unit of the clock. A cache below its size limit of one gigabyte evicts nothing.
use privana.Prelude.{
  ℕ, ◌+◌, ◌≤◌, ◌≡◌, Bool, true, false, Option, none, some, List, ltb, Has, if◌then◌else◌,
}
use privana.Text.{Text, text_eq}

pub record DiskCache (V : Type 0) : Type 1 where
  pub Store : Type 0
  -- `get(key)` and `key in cache`: the value of an entry that has not expired
  pub get : ℕ → Text → Store → Option V
  -- `set(key, value, expire)`
  pub set : ℕ → Text → V → ℕ → Store → Store
  -- the cache after `delete(key)` and after `pop(key)`
  pub delete : ℕ → Text → Store → Store
  -- `list(cache)`
  pub keys : Store → List Text
  pub get-set :
      (t u ttl : ℕ) (k j : Text) (v : V) (c : Store)
      → t ≤ u
      → get u j (set t k v ttl c)
        ≡ (if text_eq k j then (if ltb u (t + ttl) then some v else none) else get u j c)
  pub get-delete :
      (t u : ℕ) (k j : Text) (c : Store)
      → t ≤ u
      → get u j (delete t k c) ≡ (if text_eq k j then none else get u j c)
  pub get-earlier :
      (t u : ℕ) (k : Text) (v : V) (c : Store) → t ≤ u → get u k c ≡ some v → get t k c ≡ some v
  pub get-keys : (t : ℕ) (k : Text) (v : V) (c : Store) → get t k c ≡ some v → Has k (keys c)

-- `key in cache`, and what `delete(key)` returns
abbrev pub is_some : {A : Type 0} → Option A → Bool
is_some none = false
is_some (some a) = true
