-- ===== src/Rpc/Readmission.antt =====
-- src/services/rpc_identity.py: what the gate serves after a later pass.
use privana.Prelude.{ℕ, ◌≡◌, refl, ap, ◌∙◌, false, [], ◌∷◌}
use privana.Text.{Text}
use privana.Table.{Table, find}
use privana.Effect.{ok}
use privana.Rpc.{
  Probes, Gate, is_empty, verify_chain_rpc_urls, commit_verified, to_probe, reverify_chain_rpc_urls,
  nonempty_url, verified_web3,
}
use privana.Rpc.Probe.{proved, verify-find}

after_commit :
    (v : Table Text) (g : Gate) (k : ℕ) (own : Table Text)
    → verified_web3 (commit_verified v g) k own ≡ nonempty_url (find k v)
unfolding verified_web3 commit_verified find
after_commit [] g k own = refl
after_commit (x ∷ v) g k own = refl

-- A later pass that ends normally over the endpoints configured at the start serves a chain exactly
-- when the chain's endpoint has answered in this pass with the chain's id, whatever was served
-- before and whatever mapping the caller brings: a chain that was left out is readmitted, one that
-- has drifted is dropped, and an opt-out from before the pass has no effect any more.
pub reverify-verified_web3 :
    (probes : Probes) (g : Gate) (v : Table Text) (k : ℕ) (own : Table Text)
    → is_empty (to_probe g) ≡ false
    → verify_chain_rpc_urls probes (to_probe g) ≡ ok v
    → verified_web3 (reverify_chain_rpc_urls probes g).1 k own
      ≡ nonempty_url (proved probes (to_probe g) k (find k (to_probe g)))
unfolding reverify_chain_rpc_urls
reverify-verified_web3 probes g v k own some_endpoint ends =
    rw (some_endpoint, ends)
      (after_commit v g k own ∙ ap nonempty_url (verify-find probes (to_probe g) v k ends))
