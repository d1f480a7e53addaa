-- ===== src/Deposit/Discovery.antt =====
-- src/services/deposit_discovery.py: the scan of a chain's logs for deposits that nobody has claimed. The
-- node, the Accounting contract and keccak256 are the fields of `Sources`; the sweep engine is given as it
-- is when a candidate is classified, by the number of candidates before it.
pub mod Scan
pub mod Order
pub mod Window
pub mod Coverage
pub mod Rounds
pub mod Few
pub mod Verdicts
mod Tests
use privana.Prelude.{
  ℕ, zero, suc, ◌+◌, ◌-◌, ◌*◌, ◌/◌, min, max, Bool, true, false, not, ◌&&◌, ◌||◌, Option, none,
  some, List, [], ◌∷◌, ◌++◌, ltb, leb, ◌==◌, length, if◌then◌else◌,
}
use privana.Text.{Text, codes, text_eq, lower, is_nonempty, remove_prefix}
use privana.Text.Hex.{Bytes, to_hex, from_hex}
use privana.Dict.{Dict, lookup, insert}
use privana.Table.{Table, find, put, take_out}
use privana.Config.{ChainConfig, find_config, get_finality_depth}
use privana.Effect.{
  Exn, Outcome, ok, raise, value_error, other_error, timeout_error, connection_error, os_error,
}
use privana.Sweep.Record.{SweepRecord, is_set}
use privana.Sweep.World.{Engine}
use privana.Sweep.Store.{get_record}
use privana.Deposit.Verifier.{Raw, text, bytes, then_with, refuse, raw_hex, transfer_amount}
use privana.Rpc.{Gate, verified_web3, set_default}

abbrev pub max_pending_candidates : ℕ
max_pending_candidates = 20

abbrev pub max_classified_candidates : ℕ
max_classified_candidates = 60

pub data Status : Type 0 where
  discovered processing : Status

pub record DiscoveredDeposit : Type 0 where
  pub chain_id : ℕ
  pub tx_hash : Text
  pub log_index : ℕ
  pub amount : ℕ
  pub token_address : Text
  pub token_id_hex : Text
  pub block_number : ℕ
  pub version : ℕ
  pub status : Status
  pub deposit_id_hex : Option Text

pub record DiscoveryResult : Type 0 where
  pub pending : List DiscoveredDeposit
  pub scanned_from_block : ℕ
  pub scanned_to_block : ℕ

-- A log as `eth_getLogs` gives it; each key of the dictionary may be missing.
pub record Entry : Type 0 where
  pub transaction_hash : Option Raw
  pub address : Option Raw
  pub payload : Option Raw
  pub log_index : Option ℕ
  pub block_number : Option ℕ

-- A token as the contract lists it.
pub record Token : Type 0 where
  pub chain_id : ℕ
  pub token_type : ℕ
  pub token_address : Option Text
  pub token_id : Text

pub record Candidate : Type 0 where
  pub tx_hash : Text
  pub log_index : ℕ
  pub amount : ℕ
  pub token_address : Text
  pub block_number : ℕ

pub record Sources : Type 0 where
  pub list_all_tokens : Outcome (List Token)
  pub latest_block : Outcome ℕ
  -- from block, to block, addresses, the topic of the receiver
  pub get_logs : ℕ → ℕ → List Text → Text → Outcome (List Entry)
  pub engine : ℕ → Engine
  pub is_deposit_processed : ℕ → Bytes → Outcome Bool
  -- `compute_deposit_id`
  pub deposit_id : ℕ → Text → Bytes → ℕ → Outcome Bytes
  pub to_checksum_address : Text → Outcome Text

-- The arguments of `_scan`.
pub record Query : Type 0 where
  pub deposit_address : Text
  pub beneficiary : Text
  pub chain_id : ℕ
  pub version : ℕ
  pub token_lower : Option Text
  pub lookback : ℕ

-- `_get_web3`
unfoldable pub get_web3 : Gate → ℕ → Table Text → Table Text → Outcome Text × Table Text
unfolding verified_web3
get_web3 g chain urls cache = elim (verified_web3 g chain urls) [
  | none ↦ (raise (other_error (codes "No verified RPC endpoint for chain")), take_out chain cache)
  | some client ↦ set_default chain client (find chain cache) cache
]

-- What `_rpc` makes of an exception of the node.
abbrev pub rpc_error : Exn → Exn
rpc_error (timeout_error m) = other_error (codes "Source-chain RPC timed out")
rpc_error (os_error m) = other_error (codes "Source-chain RPC failed")
rpc_error (connection_error m) = other_error (codes "Source-chain RPC failed")
rpc_error e = e

abbrev pub rpc : {A : Type 0} → Outcome A → Outcome A
rpc (ok a) = ok a
rpc (raise e) = raise (rpc_error e)

abbrev pub or_zero : Option ℕ → ℕ
or_zero none = 0
or_zero (some n) = n

abbrev pub or_empty : Option Raw → Text
or_empty none = []
or_empty (some r) = raw_hex r

abbrev pub amount_of : Option Raw → Outcome ℕ
amount_of none = ok 0
amount_of (some (bytes b)) = transfer_amount (bytes b)
amount_of (some (text t)) = if text_eq t (codes "0x") then ok 0 else transfer_amount (text t)

-- The block of a log, where the scan sorts it.
abbrev pub block_of : Entry → ℕ
block_of e = or_zero e.block_number

abbrev pub candidate_of : Entry → ℕ → Candidate
candidate_of e amount = record {
  tx_hash = or_empty e.transaction_hash;
  log_index = or_zero e.log_index;
  amount = amount;
  token_address = or_empty e.address;
  block_number = block_of e;
}

-- `_decode_transfer_log`
unfoldable pub decode_transfer_log : Entry → Outcome (Option Candidate)
unfolding raw_hex transfer_amount is_nonempty
decode_transfer_log e = then_with (amount_of e.payload) λ amount.
    if not (is_nonempty (or_empty e.transaction_hash)) || not (is_nonempty (or_empty e.address))
    then ok none
    else ok (some (candidate_of e amount))

-- `str.rjust(64, "0")`
unfoldable pub zeros : ℕ → Text
zeros zero = []
zeros (suc n) = 48 ∷ zeros n

-- `_address_topic`
unfoldable pub address_topic : Text → Text
unfolding remove_prefix lower zeros
address_topic address =
    let digits = remove_prefix (codes "0x") (lower address) in
    codes "0x" ++ (zeros (64 - length digits) ++ digits)

abbrev pub given_address : Option Text → Text
given_address none = []
given_address (some a) = a

unfoldable pub is_erc20_of : ℕ → Token → Bool
unfolding is_nonempty
is_erc20_of chain t =
    t.chain_id == chain && t.token_type == 1 && is_nonempty (given_address t.token_address)

-- The comprehension over the tokens: a later token of the same address replaces the id.
unfoldable pub registered : ℕ → List Token → Dict Text → Dict Text
unfolding is_erc20_of lower insert
registered chain [] found = found
registered chain (t ∷ ts) found = registered chain ts (
    if is_erc20_of chain t
    then insert (lower (given_address t.token_address)) t.token_id found
    else found)

-- `_registered_erc20s`
unfoldable pub registered_erc20s : Sources → ℕ → Outcome (Dict Text)
unfolding registered
registered_erc20s n chain = then_with n.list_all_tokens λ tokens. ok (registered chain tokens [])

-- The order of the logs: the newest first, and equal ones as they came.
unfoldable pub is_older : Entry → Entry → Bool
is_older d e =
    ltb (block_of d) (block_of e)
    || block_of d == block_of e && leb (or_zero d.log_index) (or_zero e.log_index)

unfoldable pub place_newest : Entry → List Entry → List Entry
unfolding is_older
place_newest e [] = e ∷ []
place_newest e (d ∷ ds) = if is_older d e then e ∷ d ∷ ds else d ∷ place_newest e ds

unfoldable pub newest_first : List Entry → List Entry
unfolding place_newest
newest_first [] = []
newest_first (e ∷ es) = place_newest e (newest_first es)
