-- ===== src/Auth/Memory.antt =====
-- A cache in memory that has the documented behaviour of the disk cache.
use privana.Prelude.{
  ℕ, ◌+◌, ◌≤◌, ◌≡◌, refl, sym, ap, ◌∙◌, inl, inr, Option, none, some, [], ◌∷◌, map, arith, ltb, Has,
  if◌then◌else◌, Bool, true, false, Bool-cases,
}
use privana.Text.{Text, text_eq, text_eq_iff}
use privana.Dict.{Dict, lookup, insert, remove, lookup-insert, lookup-remove}
use privana.Auth.DiskCache.{DiskCache}

module _ {V : Type 0} where
  abbrev pub live : ℕ → Option (V × ℕ) → Option V
  live t none = none
  live t (some (v, expiry)) = if ltb t expiry then some v else none

  pub live-earlier :
      (t u : ℕ) (o : Option (V × ℕ)) (v : V) → t ≤ u → live u o ≡ some v → live t o ≡ some v
  live-earlier t u none v le h = h
  live-earlier t u (some (w, expiry)) v le h = ground arith

  pub live-if :
      (b : Bool) (u : ℕ) (w : V × ℕ) (o : Option (V × ℕ))
      → live u (if b then some w else o)
        ≡ (if b then (if ltb u w.1 then some w.0 else none) else live u o)
  live-if true u (v, e) o = refl
  live-if false u w o = refl

  pub live-none :
      (b : Bool) (u : ℕ) (o : Option (V × ℕ))
      → live u (if b then none else o) ≡ (if b then none else live u o)
  live-none true u o = refl
  live-none false u o = refl

  pub live-Has :
      (t : ℕ) (k : Text) (v : V) (c : Dict (V × ℕ))
      → live t (lookup k c) ≡ some v
      → Has k (map (λ (j, _). j) c)
  unfolding lookup
  live-Has t k v [] h = cc
  live-Has t k v ((j, w) ∷ c) h = elim (Bool-cases (text_eq j k)) [
    | inl e ↦ inl ((text_eq_iff j k).0 e)
    | inr e ↦
        inr (live-Has t k v c (ap (λ b. live t (if b then some w else lookup k c)) (sym e) ∙ h))
  ]

abbrev pub memory : (V : Type 0) → DiskCache V
memory V = record {
  Store = Dict (V × ℕ);
  get = λ t k c. live t (lookup k c);
  set = λ t k v ttl c. insert k (v, t + ttl) c;
  delete = λ t k c. remove k c;
  keys = map (λ (j, _). j);
  get-set = λ t u ttl k j v c le.
      rw (lookup-insert k j (v, t + ttl) c) (live-if (text_eq k j) u (v, t + ttl) (lookup j c));
  get-delete = λ t u k j c le. rw (lookup-remove k j c) (live-none (text_eq k j) u (lookup j c));
  get-earlier = λ t u k v c le. live-earlier t u (lookup k c) v le;
  get-keys = λ t k v c. live-Has t k v c;
}
