-- ===== src/Rpc.antt =====
-- src/services/rpc_identity.py: the gate that serves a chain only at an endpoint that has reported the
-- chain's id. The module's globals are the state. A client stands for its endpoint, which is what it
-- is shared by; request headers are left out. `Probes` is what the endpoints answer in one pass.
pub mod Probe
pub mod Serving
pub mod Readmission
mod Tests
use privana.Prelude.{
  ℕ, Bool, true, false, not, ◌&&◌, Option, none, some, List, [], ◌∷◌, ◌==◌, if◌then◌else◌,
}
use privana.Text.{Text, codes, text_eq, is_nonempty}
use privana.Table.{Table, find, put, take_out, keys, in_order}
use privana.Effect.{Exn, Outcome, ok, raise, is_exception, value_error, other_error}

-- What `_probe_chain_id` gives for the endpoint of a chain.
abbrev pub Probes : Type 0
Probes = ℕ → Text → Outcome ℕ

pub record Gate : Type 0 where
  pub verified_urls : Table Text
  pub allow_unverified : Bool
  pub configured_urls : Table Text
  -- `settings.chain_rpc_urls`
  pub chain_rpc_urls : Table Text

-- What the settings say of Sapphire; the empty text is no endpoint.
pub record Sapphire : Type 0 where
  pub chain_id : ℕ
  pub rpc_url : Text

abbrev pub is_empty {ℓ} : {A : Type ℓ} → List A → Bool
is_empty [] = true
is_empty (x ∷ xs) = false

-- What becomes of one chain with its endpoint, by the endpoint's answer.
unfoldable pub admit : ℕ → Option Text → Table Text → Table Text
admit chain none verified = verified
admit chain (some url) verified = put chain url verified

module _ (probes : Probes) (urls : Table Text) where
  abbrev pub asked : ℕ → Option Text → Outcome ℕ
  asked chain none = raise (other_error [])
  asked chain (some url) = probes chain url

  -- The loop over the chains and their answers.
  unfoldable pub collect : List ℕ → Table Text → Outcome (Table Text)
  unfolding admit
  collect [] verified = ok verified
  collect (chain ∷ chains) verified = elim (asked chain (find chain urls)) [
    | raise e ↦ if is_exception e then collect chains verified else raise e
    | ok reported ↦
        collect chains
          (if reported == chain then admit chain (find chain urls) verified else verified)
  ]

  -- `verify_chain_rpc_urls`
  unfoldable pub verify_chain_rpc_urls : Outcome (Table Text)
  unfolding collect
  verify_chain_rpc_urls = collect (in_order (keys urls)) []

-- `_commit_verified`
unfoldable pub commit_verified : Table Text → Gate → Gate
commit_verified verified g = record g {
  verified_urls = verified;
  allow_unverified = false;
  chain_rpc_urls = verified;
}

-- `is_url_verified`
unfoldable pub is_url_verified : Gate → ℕ → Text → Bool
is_url_verified g chain url =
    if is_empty g.verified_urls
    then g.allow_unverified
    else elim (find chain g.verified_urls) [ none ↦ false | some served ↦ text_eq served url ]

-- The tests of `initialize_verified_chain_rpc_urls` after its commit.
unfoldable pub check_serving : Sapphire → Table Text → Gate → Outcome (Table Text)
unfolding is_url_verified
check_serving sapphire verified g =
    if is_empty verified
    then raise (other_error (codes "no verified chains"))
    else if is_nonempty sapphire.rpc_url
        && not (is_url_verified g sapphire.chain_id sapphire.rpc_url)
    then raise (other_error (codes "Sapphire endpoint unverified"))
    else ok verified

abbrev pub commit_checked : Sapphire → Outcome (Table Text) → Gate → Outcome (Table Text) × Gate
commit_checked sapphire (ok verified) g =
    (check_serving sapphire verified (commit_verified verified g), commit_verified verified g)
commit_checked sapphire (raise e) g = (raise e, g)

-- `initialize_verified_chain_rpc_urls`
unfoldable pub initialize_verified_chain_rpc_urls :
    Sapphire → Probes → Gate → Outcome (Table Text) × Gate
unfolding commit_verified check_serving
initialize_verified_chain_rpc_urls sapphire probes g =
    let remembered = record g { configured_urls = g.chain_rpc_urls } in
    if is_empty g.chain_rpc_urls
    then (ok [], commit_verified [] remembered)
    else commit_checked sapphire (verify_chain_rpc_urls probes g.chain_rpc_urls) remembered

abbrev pub commit_reverified : Outcome (Table Text) → Gate → Outcome (Table Text) × Gate
commit_reverified (ok verified) g = (ok verified, commit_verified verified g)
commit_reverified (raise e) g = (raise e, g)

-- `_configured_urls or dict(settings.chain_rpc_urls)`
abbrev pub to_probe : Gate → Table Text
to_probe g = if is_empty g.configured_urls then g.chain_rpc_urls else g.configured_urls

-- `reverify_chain_rpc_urls`; a round of `_reverification_loop` goes on with its state, also after a raise
unfoldable pub reverify_chain_rpc_urls : Probes → Gate → Outcome (Table Text) × Gate
unfolding commit_verified
reverify_chain_rpc_urls probes g =
    if is_empty (to_probe g)
    then (ok [], g)
    else commit_reverified (verify_chain_rpc_urls probes (to_probe g)) g

abbrev pub nonempty_url : Option Text → Option Text
nonempty_url none = none
nonempty_url (some url) = if is_nonempty url then some url else none

-- `verified_web3`, with the caller's own mapping
unfoldable pub verified_web3 : Gate → ℕ → Table Text → Option Text
verified_web3 g chain urls =
    if not (is_empty g.verified_urls)
    then nonempty_url (find chain g.verified_urls)
    else if g.allow_unverified
    then nonempty_url (find chain urls)
    else none

-- `cache.setdefault(chain_id, w3)`
abbrev pub set_default : ℕ → Text → Option Text → Table Text → Outcome Text × Table Text
set_default chain client none cache = (ok client, put chain client cache)
set_default chain client (some held) cache = (ok held, cache)

-- `require_verified_web3`, with the caller's cache of clients
unfoldable pub require_verified_web3 :
    Gate → ℕ → Table Text → Table Text → Outcome Text × Table Text
unfolding verified_web3
require_verified_web3 g chain urls cache = elim (verified_web3 g chain urls) [
  | none ↦ (raise (value_error (codes "No verified RPC endpoint for chain")), take_out chain cache)
  | some client ↦ set_default chain client (find chain cache) cache
]

-- `allow_unverified_urls`
unfoldable pub allow_unverified_urls : Gate → Gate
allow_unverified_urls g = record g { allow_unverified = true }
