-- ===== src/Deposit/Discovery/Tests.antt =====
-- Runs of the scan on a chain of five logs.
use privana.Prelude.{
  ℕ, ◌+◌, ◌-◌, ◌≤◌, ◌<◌, ◌≡◌, ◌≢◌, refl, ◌⊎◌, inl, inr, true, false, ◌&&◌, none, some, List, [],
  ◌∷◌, arith, leb, length, Bool-cases, Has, if◌then◌else◌, min,
}
use privana.Text.{Text, codes, text_eq, lower, remove_prefix, is_nonempty, strip_prefix, lower_char}
use privana.Text.Hex.{Bytes, to_hex, from_hex, hex, hex_digit, digit_value, is_hex_digit}
use privana.Dict.{Dict, lookup}
use privana.Config.{ChainConfig, no_l2, is_accepted}
use privana.Effect.{ok, raise, fuel_out, value_error, ok-injective}
use privana.Sweep.Store.{get_record, record_path, record_key, file_name}
use privana.Deposit.Verifier.{text, bytes, big_endian, first, raw_hex, transfer_amount}
use privana.Deposit.Discovery.{
  discovered, DiscoveredDeposit, DiscoveryResult, Entry, Candidate, candidate_of, Sources, Query,
  block_of, rpc, address_topic, decode_transfer_log, newest_first, place_newest, is_older, zeros,
}
use privana.Deposit.Discovery.Scan.{
  classify, status_by_record, scan_from, scan_chunks, scan_chunk, examine, visit, lookback_window,
}
use privana.Deposit.Discovery.Few.{scan_from-few}
use privana.Deposit.Discovery.Window.{Answers, scan_from-misses_none, scan_from-invents_none}
use privana.Deposit.Discovery.Rounds.{lookback_window-bounds, scan_from-Ends}
use privana.Deposit.Discovery.Verdicts.{Claimable, classify-Claimable}

-- The logs in a range of blocks.
between : ℕ → ℕ → List Entry → List Entry
between lo hi [] = []
between lo hi (e ∷ es) =
    let rest = between lo hi es in
    if leb lo (block_of e) && leb (block_of e) hi then e ∷ rest else rest

between_sound :
    (lo hi : ℕ) (es : List Entry) (e : Entry)
    → Has e (between lo hi es)
    → Has e es × (lo ≤ block_of e) × (block_of e ≤ hi)
unfolding between
between_sound lo hi [] e h = elim h [ ]
between_sound lo hi (x ∷ xs) e h = elim (Bool-cases (leb lo (block_of x) && leb (block_of x) hi)) [
  | inl inside ↦
      let h' : Has e (x ∷ between lo hi xs) = rw (between, inside) at h in
      elim h' [
        | inl same ↦ (inl same, rw (← same) (ground arith), rw (← same) (ground arith))
        | inr later ↦
            let (on, above, below) = between_sound lo hi xs e later in (inr on, above, below)
      ]
  | inr outside ↦
      let h' : Has e (between lo hi xs) = rw (between, outside) at h in
      let (on, above, below) = between_sound lo hi xs e h' in (inr on, above, below)
]

between_complete :
    (lo hi : ℕ) (es : List Entry) (e : Entry)
    → Has e es
    → lo ≤ block_of e
    → block_of e ≤ hi
    → Has e (between lo hi es)
unfolding between
between_complete lo hi [] e h above below = elim h [ ]
between_complete lo hi (x ∷ xs) e (inl same) above below =
    let inside : leb lo (block_of x) && leb (block_of x) hi ≡ true = rw same (ground arith) in
    rw (between, inside) (inl same)
between_complete lo hi (x ∷ xs) e (inr later) above below =
    let rest = between_complete lo hi xs e later above below in
    elim (Bool-cases (leb lo (block_of x) && leb (block_of x) hi)) [
      | inl inside ↦ rw (between, inside) (inr rest)
      | inr outside ↦ rw (between, outside) rest
    ]

abbrev transfer : ℕ → ℕ → ℕ → Entry
transfer block index amount = record {
  transaction_hash = some (bytes (block ∷ index ∷ []));
  address = some (text (codes "0xT"));
  payload = some (bytes (amount ∷ []));
  log_index = some index;
  block_number = some block;
}

abbrev ledger : List Entry
ledger = transfer 3 0 9 ∷ transfer 6 1 40 ∷ transfer 6 2 50 ∷ transfer 8 0 60 ∷ transfer 2 0 70 ∷ []

abbrev cfg : ChainConfig
cfg = record {
  chain_id = 7;
  finality_depth = 2;
  min_deposit_native_wei = 130_001;
  min_deposit_erc20_wei = 20;
  gas_funding_amount_wei = 130_000;
  min_sweep_gas_price_wei = 1;
  l2_type = no_l2;
  discovery_lookback_blocks = 5;
  discovery_max_lookback_blocks = 20;
  discovery_scan_chunk_blocks = 3;
}

abbrev ids : Dict Text
ids = (codes "0xt", codes "0x0a") ∷ []

abbrev sources : Sources
sources = record {
  list_all_tokens = ok [];
  latest_block = ok 10;
  get_logs = λ lo hi addresses topic. ok (between lo hi ledger);
  engine = λ k. record { files = []; gas_funding_tx_hashes = []; tick = 0; log = [] };
  is_deposit_processed = λ k id. ok false;
  deposit_id = λ chain tx token index. ok (index ∷ []);
  to_checksum_address = ok;
}

abbrev query : Query
query = record {
  deposit_address = codes "0xD";
  beneficiary = codes "0xB";
  chain_id = 7;
  version = 1;
  token_lower = none;
  lookback = 6;
}

answers :
    Answers (λ lo hi. rpc (sources.get_logs lo hi [] (address_topic query.deposit_address))) ledger
answers lo hi es h =
    let same : between lo hi ledger ≡ es = ok-injective _ _ h in
    (
      λ e listed. between_sound lo hi ledger e (rw same listed),
      λ e on above below. rw (← same) (between_complete lo hi ledger e on above below),
    )

abbrev claim : ℕ → ℕ → ℕ → DiscoveredDeposit
claim block index amount = record {
  chain_id = 7;
  tx_hash = to_hex (block ∷ index ∷ []);
  log_index = index;
  amount = amount;
  token_address = codes "0xT";
  token_id_hex = codes "0x0a";
  block_number = block;
  version = 1;
  status = discovered;
  deposit_id_hex = none;
}

abbrev found : DiscoveryResult
found = record {
  pending = claim 8 0 60 ∷ claim 6 2 50 ∷ claim 6 1 40 ∷ [];
  scanned_from_block = 3;
  scanned_to_block = 8;
}

-- The newest first; dust and what lies before the window are left out.
scanned : scan_from [] sources query cfg ids [] 8 ≡ ok found
unfolding scan_from scan_chunks scan_chunk examine visit newest_first place_newest is_older
    decode_transfer_log classify status_by_record between is_nonempty transfer_amount big_endian
    first raw_hex lookup lower lower_char from_hex digit_value remove_prefix strip_prefix get_record
    record_path record_key file_name to_hex hex hex_digit text_eq is_hex_digit address_topic zeros
scanned = refl

classified :
    (k : ℕ)
    → classify sources query ids k (candidate_of (transfer 6 2 50) 50) ≡ ok (some (claim 6 2 50))
unfolding classify status_by_record raw_hex lookup lower lower_char from_hex digit_value
    remove_prefix strip_prefix get_record record_path record_key file_name to_hex hex hex_digit
    text_eq is_hex_digit
classified k = refl

decoded : decode_transfer_log (transfer 6 2 50) ≡ ok (some (candidate_of (transfer 6 2 50) 50))
unfolding decode_transfer_log raw_hex is_nonempty transfer_amount big_endian first to_hex
decoded = refl

scan_from-misses_none_example :
    (k : ℕ) × ((classify sources query ids k (candidate_of (transfer 6 2 50) 50) ≡ ok none)
      ⊎ ((d : DiscoveredDeposit) × (classify sources query ids k (candidate_of (transfer 6 2 50) 50)
            ≡ ok (some d))
          × Has d found.pending))
scan_from-misses_none_example =
    scan_from-misses_none [] sources query cfg ids [] 8 ledger found answers (omega arith) scanned
      (transfer 6 2 50) (candidate_of (transfer 6 2 50) 50) (inr (inr (inl refl))) (omega arith)
      (omega arith) decoded (omega arith)

scan_from-invents_none_example :
    (e : Entry) × Has e ledger
    × (8 + 1 - query.lookback ≤ block_of e)
    × (block_of e ≤ 8)
    × ((c : Candidate) × (decode_transfer_log e ≡ ok (some c))
        × (cfg.min_deposit_erc20_wei ≤ c.amount)
        × ((k : ℕ) × (k < 60) × (classify sources query ids k c ≡ ok (some (claim 6 2 50)))))
scan_from-invents_none_example =
    scan_from-invents_none [] sources query cfg ids [] 8 ledger found answers (omega arith) scanned
      (claim 6 2 50) (inr (inl refl))

scan_from-few_example : length found.pending ≤ 20
scan_from-few_example = scan_from-few [] sources query cfg ids [] 8 found scanned

cfg-accepted : is_accepted cfg ≡ true
unfolding is_accepted
cfg-accepted = refl

logs-end :
    (lo hi : ℕ) → sources.get_logs lo hi [] (address_topic query.deposit_address) ≢ raise fuel_out
logs-end lo hi h = cc

-- Where no token is registered no candidate is classified further.
verdicts-end : (k : ℕ) (c : Candidate) → classify sources query [] k c ≢ raise fuel_out
unfolding classify lookup
verdicts-end k c h = cc

scan_from-Ends_example : scan_from [] sources query cfg [] [] 8 ≢ raise fuel_out
scan_from-Ends_example =
    scan_from-Ends [] sources query cfg [] [] 8 cfg-accepted logs-end verdicts-end

lookback_window-bounds_example :
    (lookback_window cfg none ≡ ok cfg.discovery_lookback_blocks)
    × (lookback_window cfg (some 0)
        ≡ raise (value_error (codes "lookback_blocks must be positive")))
    × ((w : ℕ) × (lookback_window cfg (some 7) ≡ ok w)
        × (1 ≤ w)
        × (w ≤ cfg.discovery_max_lookback_blocks)
        × (min 7 cfg.discovery_max_lookback_blocks ≤ w)
        × (w < min 7 cfg.discovery_max_lookback_blocks + cfg.discovery_scan_chunk_blocks))
lookback_window-bounds_example = lookback_window-bounds cfg 6 cfg-accepted

classify-Claimable_example :
    (token_id : Bytes) × (id : Bytes) × (lookup (lower (codes "0xT")) ids ≡ some (codes "0x0a"))
    × (from_hex (remove_prefix (codes "0x") (codes "0x0a")) ≡ some token_id)
    × ((claim 6 2 50).tx_hash ≡ (candidate_of (transfer 6 2 50) 50).tx_hash)
    × ((claim 6 2 50).log_index ≡ (candidate_of (transfer 6 2 50) 50).log_index)
    × ((claim 6 2 50).amount ≡ (candidate_of (transfer 6 2 50) 50).amount)
    × (sources.deposit_id 7 (to_hex (6 ∷ 2 ∷ [])) token_id 2 ≡ ok id)
    × Claimable sources query 4 (candidate_of (transfer 6 2 50) 50) (claim 6 2 50) id
unfolding raw_hex
classify-Claimable_example =
    classify-Claimable sources query 4 (candidate_of (transfer 6 2 50) 50) (claim 6 2 50) ids
      (classified 4)
