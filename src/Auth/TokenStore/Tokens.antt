-- ===== src/Auth/TokenStore/Tokens.antt =====
-- What `revoke_all_refresh_tokens_for_address` takes out of the cache, and what it leaves.
use privana.Prelude.{
  ℕ, suc, ◌≤◌, ◌≡◌, refl, ap, ◌∙◌, inl, inr, Bool, true, false, ◌&&◌, Option, none, some, List, [],
  ◌∷◌, arith, Bool-cases, Has, if◌then◌else◌,
}
use privana.Text.{Text, text_eq, text_eq_iff, text_eq_refl, codes, starts_with}
use privana.Auth.DiskCache.{DiskCache, is_some}
use privana.Auth.TokenStore.{
  refresh_key, nonce_key, is_address, revoke_key, revoke_keys,
  revoke_all_refresh_tokens_for_address, consume_refresh_token, is_nonce_valid,
}
use privana.Auth.TokenStore.Keys.{starts_with-refresh, starts_with-nonce}

module _ (D : DiskCache Text) (t : ℕ) (address : Text) where
  -- The test of the loop's body.
  abbrev pub is_hit : Text → D.Store → Bool
  is_hit k c = starts_with (codes "refresh:") k && is_address (D.get t k c) address

  step-miss :
      (j : Text) (n : ℕ) (c : D.Store)
      → is_hit j c ≡ false
      → revoke_key D t address j (n, c) ≡ (n, c)
  unfolding revoke_key
  step-miss j n c e = rw e refl

  step-hit :
      (j : Text) (n : ℕ) (c : D.Store)
      → is_hit j c ≡ true
      → revoke_key D t address j (n, c) ≡ (suc n, D.delete t j c)
  unfolding revoke_key
  step-hit j n c e = rw e refl

  pub dead-revoke_keys :
      (ks : List Text) (k : Text) (n : ℕ) (c : D.Store)
      → ((u : ℕ) → t ≤ u → D.get u k c ≡ none)
      → (u : ℕ) → t ≤ u
      → D.get u k (revoke_keys D t address ks (n, c)).1 ≡ none
  unfolding revoke_keys
  dead-revoke_keys [] k n c dead u le = dead u le
  dead-revoke_keys (j ∷ ks) k n c dead u le = elim (Bool-cases (is_hit j c)) [
    | inl hit ↦
        rw (revoke_keys, step-hit j n c hit)
          (dead-revoke_keys ks k (suc n) (D.delete t j c)
            (λ w lw. ground (arith, D.get-delete t w j k c lw, dead w lw)) u le)
    | inr miss ↦ rw (revoke_keys, step-miss j n c miss) (dead-revoke_keys ks k n c dead u le)
  ]

  same_hit : (k : Text) (b c : D.Store) → D.get t k b ≡ D.get t k c → is_hit k b ≡ is_hit k c
  same_hit k b c e = rw e refl

  -- Deleting an entry that is hit leaves the others.
  get-other :
      (j k : Text) (c : D.Store) (h : is_hit j c ≡ true) (m : is_hit k c ≡ false) (u : ℕ)
      → t ≤ u
      → D.get u k (D.delete t j c) ≡ D.get u k c
  get-other j k c h m u le = elim (Bool-cases (text_eq j k)) [
    | inl e ↦ cc (ap (λ x. is_hit x c) ((text_eq_iff j k).0 e))
    | inr e ↦ D.get-delete t u j k c le ∙ rw e refl
  ]

  pub kept-revoke_keys :
      (ks : List Text) (k : Text) (n : ℕ) (c : D.Store)
      → is_hit k c ≡ false
      → (u : ℕ) → t ≤ u
      → D.get u k (revoke_keys D t address ks (n, c)).1 ≡ D.get u k c
  unfolding revoke_keys
  kept-revoke_keys [] k n c m u le = refl
  kept-revoke_keys (j ∷ ks) k n c m u le = elim (Bool-cases (is_hit j c)) [
    | inl hit ↦
        rw (revoke_keys, step-hit j n c hit)
          (kept-revoke_keys ks k (suc n) (D.delete t j c)
              (same_hit k (D.delete t j c) c (get-other j k c hit m t (omega arith)) ∙ m) u le
            ∙ get-other j k c hit m u le)
    | inr miss ↦ rw (revoke_keys, step-miss j n c miss) (kept-revoke_keys ks k n c m u le)
  ]

  -- The first of the listed keys is hit and deleted.
  gone_first :
      (ks : List Text) (j k : Text) (n : ℕ) (c : D.Store)
      → j ≡ k
      → is_hit k c ≡ true
      → (u : ℕ) → t ≤ u
      → D.get u k (revoke_keys D t address (j ∷ ks) (n, c)).1 ≡ none
  unfolding revoke_keys
  gone_first ks j k n c same hit u le =
      rw (same, revoke_keys, step-hit k n c hit)
        (dead-revoke_keys ks k (suc n) (D.delete t k c)
          (λ w lw. D.get-delete t w k k c lw ∙ rw (text_eq_refl k) refl) u le)

  pub gone-revoke_keys :
      (ks : List Text) (k : Text) (n : ℕ) (c : D.Store)
      → Has k ks
      → is_hit k c ≡ true
      → (u : ℕ) → t ≤ u
      → D.get u k (revoke_keys D t address ks (n, c)).1 ≡ none
  unfolding revoke_keys
  gone-revoke_keys [] k n c h hit u le = elim h [ ]
  gone-revoke_keys (j ∷ ks) k n c (inl same) hit u le = gone_first ks j k n c same hit u le
  gone-revoke_keys (j ∷ ks) k n c (inr later) hit u le = elim (Bool-cases (text_eq j k)) [
    | inl e ↦ gone_first ks j k n c ((text_eq_iff j k).0 e) hit u le
    | inr e ↦ elim (Bool-cases (is_hit j c)) [
      | inl other ↦
          rw (revoke_keys, step-hit j n c other)
            (gone-revoke_keys ks k (suc n) (D.delete t j c) later
              (same_hit k (D.delete t j c) c (D.get-delete t t j k c (omega arith) ∙ rw e refl)
                ∙ hit)
              u le)
      | inr miss ↦ rw (revoke_keys, step-miss j n c miss) (gone-revoke_keys ks k n c later hit u le)
    ]
  ]

  found_if_address : (o : Option Text) → is_address o address ≡ true → (a : Text) × (o ≡ some a)
  found_if_address (some a) h = (a, refl)
  found_if_address none h = cc

  -- After all refresh tokens of an address are revoked, at any later time: a token that was then
  -- stored for this address can no longer be consumed, every other token gives what it would have
  -- given, and every nonce is as valid as it would have been.
  pub revoke_all_exact :
      (c : D.Store) (u : ℕ) (jti nonce : Text)
      → t ≤ u
      → ((consume_refresh_token D u jti (revoke_all_refresh_tokens_for_address D t address c).1).0
          ≡ (if is_address (D.get t (refresh_key jti) c) address
              then none
              else (consume_refresh_token D u jti c).0))
        × (is_nonce_valid D u nonce (revoke_all_refresh_tokens_for_address D t address c).1
            ≡ is_nonce_valid D u nonce c)
  unfolding consume_refresh_token revoke_all_refresh_tokens_for_address is_nonce_valid
  revoke_all_exact c u jti nonce le = (
    elim (Bool-cases (is_address (D.get t (refresh_key jti) c) address)) [
      | inl own ↦
          let found = found_if_address (D.get t (refresh_key jti) c) own in
          rw own (
            gone-revoke_keys (D.keys c) (refresh_key jti) 0 c
              (D.get-keys t (refresh_key jti) found.0 c found.1) (rw (starts_with-refresh jti) own)
              u le)
      | inr other ↦ rw other (
          kept-revoke_keys (D.keys c) (refresh_key jti) 0 c (rw (starts_with-refresh jti) other) u
            le)
    ],
    ap is_some (
        kept-revoke_keys (D.keys c) (nonce_key nonce) 0 c (rw (starts_with-nonce nonce) refl) u le),
  )
