-- ===== src/Auth/Tests.antt =====
-- Runs of the authentication stores on caches in memory.
use privana.Prelude.{ℕ, ◌≤◌, ◌≡◌, refl, false, none, [], ◌∷◌, arith}
use privana.Text.{Text, codes, text_eq, is_nonempty}
use privana.Dict.{lookup, insert, remove}
use privana.Auth.Memory.{memory}
use privana.Auth.TokenStore.{
  store_refresh_token, consume_refresh_token, revoke_all_refresh_tokens_for_address, is_nonce_valid,
  generate_nonce, store_nonce, existing_nonce, consume_nonce, generate, login, perform, accepts,
  logins, draws,
}
use privana.Auth.TokenStore.Tokens.{revoke_all_exact}
use privana.Auth.TokenStore.Nonces.{logins_at_most_draws, generated_nonce_expires}
use privana.Auth.RateLimiter.{Window, passed, window_budget}

-- Two tokens of one address and one of another.
abbrev tokens : (memory Text).Store
tokens = store_refresh_token (memory Text) 3 (codes "c") (codes "0xA") 100 (
    store_refresh_token (memory Text) 2 (codes "b") (codes "0xB") 100
      (store_refresh_token (memory Text) 1 (codes "a") (codes "0xA") 100 []))

revoke_all_exact_own_example :
    ((consume_refresh_token
        (memory Text)
        9
        (codes "a")
        (revoke_all_refresh_tokens_for_address (memory Text) 5 (codes "0xA") tokens).1).0
      ≡ none)
    × (is_nonce_valid
          (memory Text)
          9
          (codes "n")
          (revoke_all_refresh_tokens_for_address (memory Text) 5 (codes "0xA") tokens).1
        ≡ is_nonce_valid (memory Text) 9 (codes "n") tokens)
unfolding store_refresh_token insert lookup text_eq
revoke_all_exact_own_example =
    revoke_all_exact (memory Text) 5 (codes "0xA") tokens 9 (codes "a") (codes "n") (omega arith)

is_unknown : (u : ℕ) → 0 ≤ u → is_nonce_valid (memory Text) u (codes "n") [] ≡ false
unfolding is_nonce_valid lookup
is_unknown u le = refl

logins_at_most_draws_example :
    logins
      (memory Text)
      0
      (codes "n")
      ((1, generate (codes "ip") 300 (codes "n"))
        ∷ (5, login (codes "n"))
        ∷ (5, login (codes "n"))
        ∷ [])
      []
    ≤ 1
unfolding draws text_eq
logins_at_most_draws_example =
    logins_at_most_draws (memory Text) (codes "n")
      ((1, generate (codes "ip") 300 (codes "n"))
        ∷ (5, login (codes "n"))
        ∷ (5, login (codes "n"))
        ∷ [])
      0 [] (is_unknown)

-- A replay is refused.
replayed :
    logins
      (memory Text)
      0
      (codes "n")
      ((1, generate (codes "ip") 300 (codes "n"))
        ∷ (5, login (codes "n"))
        ∷ (5, login (codes "n"))
        ∷ [])
      []
    ≡ 1
unfolding logins accepts perform generate_nonce existing_nonce store_nonce consume_nonce is_nonempty
    insert lookup remove text_eq
replayed = refl

held_none : existing_nonce (memory Text) 10 (codes "ip") [] ≡ none
unfolding existing_nonce lookup is_nonempty
held_none = refl

generated_nonce_expires_example :
    ((generate_nonce (memory Text) 10 (codes "ip") 300 (codes "n") []).0 ≡ codes "n")
    × ((consume_nonce
          (memory Text)
          310
          (codes "n")
          (generate_nonce (memory Text) 10 (codes "ip") 300 (codes "n") []).1).0
        ≡ false)
generated_nonce_expires_example =
    generated_nonce_expires (memory Text) 10 310 300 (codes "ip") (codes "n") [] (omega arith)
      held_none

window_budget_example :
    passed (memory Window) 7 (codes "login") (codes "ip") 2 60 (3 ∷ 1000000 ∷ 0 ∷ 58000000 ∷ []) []
    ≡ 2
unfolding lookup
window_budget_example =
    window_budget (memory Window) (codes "login") (codes "ip") 2 60 (omega arith) (omega arith) 7 3
      (1000000 ∷ 0 ∷ 58000000 ∷ []) [] refl (omega arith)
