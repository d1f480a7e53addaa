-- ===== src/Deposit/Discovery/Scan.antt =====
-- src/services/deposit_discovery.py: `_classify`, `_scan` and `discover_pending_deposits`. The end of a chunk
-- is kept as the block after it, since it may be -1; a round of the loop takes one unit of fuel.
use privana.Prelude.{
  ℕ, zero, suc, ◌+◌, ◌-◌, ◌*◌, ◌/◌, min, max, Bool, true, false, not, ◌&&◌, Option, none, some,
  List, [], ◌∷◌, ◌++◌, ltb, leb, length, if◌then◌else◌,
}
use privana.Text.{Text, codes, text_eq, lower, is_nonempty, remove_prefix}
use privana.Text.Hex.{Bytes, to_hex, from_hex}
use privana.Dict.{Dict, lookup}
use privana.Table.{Table}
use privana.Config.{ChainConfig, find_config, get_finality_depth}
use privana.Effect.{Outcome, ok, raise, fuel_out, other_error}
use privana.Sweep.Record.{SweepRecord, is_set}
use privana.Sweep.Store.{get_record}
use privana.Deposit.Verifier.{then_with, refuse}
use privana.Rpc.{Gate}
use privana.Deposit.Discovery.{
  max_pending_candidates, max_classified_candidates, Status, discovered, processing,
  DiscoveredDeposit, DiscoveryResult, Entry, Candidate, Sources, Query, get_web3, rpc,
  decode_transfer_log, address_topic, registered_erc20s, newest_first,
}

-- What the sweep's record says of a candidate: `none` where it is somebody else's.
unfoldable pub status_by_record : Text → Option SweepRecord → Option Status
unfolding text_eq lower is_set
status_by_record beneficiary none = some discovered
status_by_record beneficiary (some r) =
    if not (text_eq (lower r.beneficiary) (lower beneficiary))
    then none
    else some (if is_set r.error && not (is_set r.sweep_tx_hash) then discovered else processing)

abbrev pub decoded_id : Option Bytes → Outcome Bytes
decoded_id none = refuse (codes "non-hexadecimal number found in fromhex() arg")
decoded_id (some b) = ok b

module _ (n : Sources) (q : Query) where
  abbrev pub deposit_of : Candidate → Text → Text → Status → Option Text → DiscoveredDeposit
  deposit_of c checked token_id_hex status id = record {
    chain_id = q.chain_id;
    tx_hash = c.tx_hash;
    log_index = c.log_index;
    amount = c.amount;
    token_address = checked;
    token_id_hex = token_id_hex;
    block_number = c.block_number;
    version = q.version;
    status = status;
    deposit_id_hex = id;
  }

  -- The rest of `_classify` behind the status of the record.
  abbrev pub by_status :
      ℕ → Candidate → Text → Bytes → Option Status → Outcome (Option DiscoveredDeposit)
  by_status k c token_id_hex id none = ok none
  by_status k c token_id_hex id (some processing) =
      then_with (n.to_checksum_address c.token_address)
        λ checked. ok (some (deposit_of c checked token_id_hex processing (some (to_hex id))))
  by_status k c token_id_hex id (some discovered) =
      then_with (n.is_deposit_processed k id) λ is_processed.
        if is_processed
        then ok none
        else then_with (n.to_checksum_address c.token_address)
            λ checked. ok (some (deposit_of c checked token_id_hex discovered none))

  abbrev pub by_token : ℕ → Candidate → Option Text → Outcome (Option DiscoveredDeposit)
  by_token k c none = ok none
  by_token k c (some token_id_hex) =
      then_with (decoded_id (from_hex (remove_prefix (codes "0x") token_id_hex))) λ token_id.
        then_with (n.deposit_id q.chain_id c.tx_hash token_id c.log_index) λ id.
          then_with (get_record (to_hex id) (n.engine k)).0 λ record_found.
            by_status k c token_id_hex id (status_by_record q.beneficiary record_found)

  -- `_classify`, as the `k`-th candidate
  unfoldable pub classify : Dict Text → ℕ → Candidate → Outcome (Option DiscoveredDeposit)
  unfolding lookup lower from_hex remove_prefix get_record to_hex status_by_record
  classify ids k c = by_token k c (lookup (lower c.token_address) ids)

-- The variables of the loop.
pub record Progress : Type 0 where
  pub pending : List DiscoveredDeposit
  pub classified : ℕ
  pub scanned_from : ℕ
  pub bound_reached : Bool

-- The scan of one chain, with `_classify` for its tokens and the call for the logs of a chunk.
module _ (min_amount : ℕ) (verdict : ℕ → Candidate → Outcome (Option DiscoveredDeposit)) where
  -- What a classified candidate changes, and whether the loop goes on.
  abbrev pub settle : Progress → Candidate → Option DiscoveredDeposit → Progress × Bool
  settle s c none = (record s { classified = s.classified + 1 }, true)
  settle s c (some d) =
      if leb max_pending_candidates (length (s.pending ++ d ∷ []))
      then (
        record s {
          pending = s.pending ++ d ∷ [];
          classified = s.classified + 1;
          scanned_from = c.block_number + 1;
        },
        false,
      )
      else (record s { pending = s.pending ++ d ∷ []; classified = s.classified + 1 }, true)

  abbrev pub weigh : Progress → Option Candidate → Outcome (Progress × Bool)
  weigh s none = ok (s, true)
  weigh s (some c) =
      if ltb c.amount min_amount
      then ok (s, true)
      else if leb max_classified_candidates s.classified
      then ok (record s { bound_reached = true; scanned_from = c.block_number + 1 }, false)
      else then_with (verdict s.classified c) λ d. ok (settle s c d)

  -- The body of the loop over the logs.
  unfoldable pub visit : Progress → Entry → Outcome (Progress × Bool)
  visit s e = then_with (decode_transfer_log e) λ o. weigh s o

  unfoldable pub examine : Progress → List Entry → Outcome Progress
  unfolding visit
  examine s [] = ok s
  examine s (e ∷ es) =
      then_with (visit s e)
        λ (s', goes_on). let rest = examine s' es in if goes_on then rest else ok s'

  module _ (chunk : ℕ) (logs : ℕ → ℕ → Outcome (List Entry)) (from_block : ℕ) where
    -- The test of the `while` loop; `upper` is `chunk_end + 1`.
    abbrev pub scans_on : ℕ → Progress → Bool
    scans_on upper s =
        ltb from_block upper && ltb (length s.pending) max_pending_candidates && not s.bound_reached

    abbrev pub chunk_start : ℕ → ℕ
    chunk_start upper = max (upper - chunk) from_block

    -- The body of the loop.
    unfoldable pub scan_chunk : ℕ → Progress → Outcome Progress
    unfolding examine newest_first
    scan_chunk upper s =
        then_with (logs (chunk_start upper) (upper - 1))
          λ entries. examine (record s { scanned_from = chunk_start upper }) (newest_first entries)

    unfoldable pub scan_chunks : ℕ → ℕ → Progress → Outcome Progress
    unfolding scan_chunk
    scan_chunks zero upper s = raise fuel_out
    scan_chunks (suc fuel) upper s = elim (scans_on upper s) [
      | true ↦ then_with (scan_chunk upper s) λ s'. scan_chunks fuel (chunk_start upper) s'
      | false ↦ ok s
    ]

abbrev pub none_found : DiscoveryResult
none_found = record { pending = []; scanned_from_block = 0; scanned_to_block = 0 }

abbrev pub checksummed : (Text → Outcome Text) → Dict Text → Outcome (List Text)
checksummed f [] = ok []
checksummed f ((address, _) ∷ d) =
    then_with (f address) λ a. then_with (checksummed f d) λ rest. ok (a ∷ rest)

abbrev pub only : Text → Option Text → Outcome (Dict Text)
only token none = refuse (codes "token_address is not a registered token on chain")
only token (some id) = ok ((token, id) ∷ [])

abbrev pub chosen : Option Text → Dict Text → Outcome (Dict Text)
chosen none ids = ok ids
chosen (some token) ids = only token (lookup token ids)

abbrev pub start_at : ℕ → Progress
start_at to_block = record {
  pending = [];
  classified = 0;
  scanned_from = to_block;
  bound_reached = false;
}

module _ (configs : List ChainConfig) (n : Sources) (q : Query) where
  abbrev pub result_of : ℕ → Progress → DiscoveryResult
  result_of to_block s = record {
    pending = s.pending;
    scanned_from_block = s.scanned_from;
    scanned_to_block = to_block;
  }

  -- The scan down from the newest final block.
  unfoldable pub scan_from : ChainConfig → Dict Text → List Text → ℕ → Outcome DiscoveryResult
  unfolding classify address_topic scan_chunks
  scan_from cfg ids addresses to_block =
      let from_block = to_block + 1 - q.lookback in
      then_with
        (scan_chunks cfg.min_deposit_erc20_wei (classify n q ids) cfg.discovery_scan_chunk_blocks
          (λ lo hi. rpc (n.get_logs lo hi addresses (address_topic q.deposit_address))) from_block
          (to_block + 2 - from_block) (to_block + 1) (start_at to_block))
        λ s. ok (result_of to_block s)

  abbrev pub with_addresses : ChainConfig → Dict Text → List Text → Outcome DiscoveryResult
  with_addresses cfg ids [] = ok none_found
  with_addresses cfg ids (a ∷ as_) = then_with (rpc n.latest_block) λ latest.
      if ltb latest (get_finality_depth configs q.chain_id)
      then ok none_found
      else scan_from cfg ids (a ∷ as_) (latest - get_finality_depth configs q.chain_id)

  abbrev pub with_config : ChainConfig → Outcome DiscoveryResult
  with_config cfg = then_with (registered_erc20s n q.chain_id) λ all.
      then_with (chosen q.token_lower all) λ ids.
        then_with (checksummed n.to_checksum_address ids)
          λ addresses. with_addresses cfg ids addresses

  -- `_scan`, with the clients that the service keeps
  unfoldable pub scan : Gate → Table Text → Table Text → Outcome DiscoveryResult × Table Text
  unfolding get_web3 scan_from registered_erc20s find_config
  scan g urls clients = elim (find_config q.chain_id configs) [
    | none ↦ (raise (other_error (codes "KeyError")), clients)
    | some cfg ↦
        let served = get_web3 g q.chain_id urls clients in
        (then_with served.0 λ w3. with_config cfg, served.1)
  ]

-- The window of `discover_pending_deposits`.
abbrev pub clamped : ChainConfig → Option ℕ → ℕ
clamped cfg none = min cfg.discovery_lookback_blocks cfg.discovery_max_lookback_blocks
clamped cfg (some l) = min l cfg.discovery_max_lookback_blocks

abbrev pub rounded : ChainConfig → Option ℕ → ℕ → ℕ
rounded cfg none lookback = lookback
rounded cfg (some _) lookback =
    min
      ((lookback + cfg.discovery_scan_chunk_blocks - 1)
        / cfg.discovery_scan_chunk_blocks
        * cfg.discovery_scan_chunk_blocks)
      cfg.discovery_max_lookback_blocks

unfoldable pub lookback_window : ChainConfig → Option ℕ → Outcome ℕ
lookback_window cfg requested =
    if ltb (clamped cfg requested) 1
    then refuse (codes "lookback_blocks must be positive")
    else ok (rounded cfg requested (clamped cfg requested))

-- The key of the cache of results.
pub record ScanKey : Type 0 where
  pub deposit_address : Text
  pub chain_id : ℕ
  pub version : ℕ
  pub token_lower : Option Text
  pub lookback : ℕ

abbrev pub lowered : Option Text → Option Text
lowered none = none
lowered (some a) = if is_nonempty a then some (lower a) else none

abbrev pub key_of : Query → ScanKey
key_of q = record {
  deposit_address = lower q.deposit_address;
  chain_id = q.chain_id;
  version = q.version;
  token_lower = q.token_lower;
  lookback = q.lookback;
}

-- `get_or_set_async`, with what the cache holds for the key: the answer, and what is written for the key.
abbrev pub get_or_set : {V C : Type 0} → Option V → C → (C → Outcome V × C) → Outcome V × C
get_or_set (some v) c factory = (ok v, c)
get_or_set none c factory = factory c

-- `discover_pending_deposits`; the query's own token and window are set here
unfoldable pub discover_pending_deposits :
    List ChainConfig
    → Sources
    → Gate
    → Table Text
    → (ScanKey → Option DiscoveryResult)
    → Query
    → Option Text
    → Option ℕ
    → Table Text
    → Outcome DiscoveryResult × Table Text
unfolding find_config lookback_window scan lower is_nonempty
discover_pending_deposits configs n g urls cached q token_address requested clients =
    elim (find_config q.chain_id configs) [
      | none ↦ (refuse (codes "Unsupported chain_id"), clients)
      | some cfg ↦ elim (lookback_window cfg requested) [
        | raise e ↦ (raise e, clients)
        | ok lookback ↦
            let asked = record q { token_lower = lowered token_address; lookback = lookback } in
            get_or_set (cached (key_of asked)) clients (λ held. scan configs n asked g urls held)
      ]
    ]
