-- ===== src/Rpc/Tests.antt =====
-- Two chains, one of which is filed under the wrong id until its second answer.
use privana.Prelude.{◌≡◌, refl, some, [], ◌∷◌}
use privana.Text.{Text, codes, text_eq, is_nonempty}
use privana.Table.{Table, find, put, in_order, place_in_order}
use privana.Effect.{ok}
use privana.Rpc.{
  Probes, Sapphire, collect, admit, verify_chain_rpc_urls, initialize_verified_chain_rpc_urls,
  reverify_chain_rpc_urls, check_serving, commit_verified, is_url_verified, verified_web3,
  require_verified_web3,
}
use privana.Rpc.Serving.{Session, start, perform, run, started, run-serves_proven}
use privana.Rpc.Readmission.{reverify-verified_web3}

abbrev endpoints : Table Text
endpoints = (8453, codes "https://b") ∷ (1, codes "https://a") ∷ []

-- Chain 8453 is at first at an endpoint of chain 1.
abbrev swapped : Probes
swapped k url = ok 1

abbrev repaired : Probes
repaired k url = ok k

abbrev no_sapphire : Sapphire
no_sapphire = record { chain_id = 23294; rpc_url = [] }

abbrev after_start : Session
after_start = run (start no_sapphire swapped ∷ []) (started endpoints swapped)

serves_one : (require_verified_web3 after_start.gate 1 [] []).0 ≡ ok (codes "https://a")
unfolding run perform initialize_verified_chain_rpc_urls verify_chain_rpc_urls collect admit
    check_serving commit_verified is_url_verified verified_web3 require_verified_web3 find put
    in_order place_in_order is_nonempty text_eq
serves_one = refl

run-serves_proven_example :
    (some (codes "https://a") ≡ some (codes "https://a"))
    × (after_start.probes 1 (codes "https://a") ≡ ok 1)
unfolding find run perform
run-serves_proven_example =
    run-serves_proven endpoints (start no_sapphire swapped ∷ []) swapped 1 [] (codes "https://a")
      serves_one

-- The second pass readmits the chain that was left out.
reverify-verified_web3_example :
    verified_web3 (reverify_chain_rpc_urls repaired after_start.gate).1 8453 []
    ≡ some (codes "https://b")
unfolding run perform initialize_verified_chain_rpc_urls verify_chain_rpc_urls collect admit
    check_serving commit_verified is_url_verified find put in_order place_in_order is_nonempty
    text_eq
reverify-verified_web3_example =
    reverify-verified_web3 repaired after_start.gate
      ((1, codes "https://a") ∷ (8453, codes "https://b") ∷ []) 8453 [] refl refl
