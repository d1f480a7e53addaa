-- ===== src/Deposit/Discovery/Rounds.antt =====
-- src/services/deposit_discovery.py: the window of a scan, and the end of its loop.
use privana.Prelude.{
  ℕ, zero, suc, ◌+◌, ◌-◌, ◌*◌, ◌/◌, ◌≤◌, ◌<◌, ◌≡◌, ◌≢◌, inl, inr, true, Option, none, some, List,
  [], ◌∷◌, min, arith, ltb, leb, Bool-cases,
}
use native.Mathlib.Nat.{div-mul-le_self, lt-div-mul-add}
use privana.Text.{Text, codes}
use privana.Dict.{Dict}
use privana.Config.{ChainConfig, is_accepted}
use privana.Effect.{
  Exn, Outcome, ok, raise, fuel_out, value_error, timeout_error, os_error, connection_error,
  not_found, other_error, reverted, credit_pending, cancelled,
}
use privana.Deposit.Verifier.{then_with}
use privana.Deposit.Discovery.{
  DiscoveredDeposit, Entry, Candidate, Sources, Query, rpc, rpc_error, address_topic,
  decode_transfer_log, newest_first,
}
use privana.Deposit.Discovery.Scan.{
  classify, scan_from, Progress, weigh, visit, examine, scans_on, chunk_start, scan_chunk,
  scan_chunks, rounded, lookback_window,
}

-- `x` rounded up to a multiple of `c`.
round_up_bounds : (x c : ℕ) → 1 ≤ c → (x ≤ (x + c - 1) / c * c) × ((x + c - 1) / c * c < x + c)
round_up_bounds x c pos = (
  omega (arith, lt-div-mul-add {a = x + c - 1} {b = c} (omega arith)),
  omega (arith, div-mul-le_self (x + c - 1) c),
)

-- For an accepted configuration, a scan that is asked for no window takes the chain's default; asked
-- for zero blocks it is an error; and asked for more it takes at least one block and at most the
-- chain's largest window, namely what is asked for, cut to the largest window and extended by less
-- than a chunk.
pub lookback_window-bounds :
    (cfg : ChainConfig) (l : ℕ)
    → is_accepted cfg ≡ true
    → (lookback_window cfg none ≡ ok cfg.discovery_lookback_blocks)
      × (lookback_window cfg (some 0)
          ≡ raise (value_error (codes "lookback_blocks must be positive")))
      × ((w : ℕ) × (lookback_window cfg (some (suc l)) ≡ ok w)
          × (1 ≤ w)
          × (w ≤ cfg.discovery_max_lookback_blocks)
          × (min (suc l) cfg.discovery_max_lookback_blocks ≤ w)
          × (w < min (suc l) cfg.discovery_max_lookback_blocks + cfg.discovery_scan_chunk_blocks))
unfolding is_accepted lookback_window
lookback_window-bounds cfg l good =
    let cut = min (suc l) cfg.discovery_max_lookback_blocks in
    let positive : 1 ≤ cfg.discovery_scan_chunk_blocks = ground arith in
    let widest : 1 ≤ cfg.discovery_max_lookback_blocks = ground arith in
    let bounds = round_up_bounds cut cfg.discovery_scan_chunk_blocks positive in
    (
      ground arith,
      ground arith,
      (
        rounded cfg (some (suc l)) cut,
        ground arith,
        omega (arith, bounds),
        omega (arith, bounds),
        omega (arith, bounds),
        omega (arith, bounds),
      ),
    )

-- The loop did not run out of its rounds.
abbrev pub Ends : {A : Type 0} → Outcome A → Type 0
Ends r = r ≢ raise fuel_out

then_with-Ends :
    {A B : Type 0} (m : Outcome A) (f : A → Outcome B)
    → Ends m
    → ((a : A) → Ends (f a))
    → Ends (then_with m f)
then_with-Ends (ok a) f m_ends f_ends = f_ends a
then_with-Ends (raise e) f m_ends f_ends = λ h. m_ends (cc)

ok-Ends : {A : Type 0} (a : A) → Ends (ok a)
ok-Ends a h = cc

module _ (min_amount : ℕ) (verdict : ℕ → Candidate → Outcome (Option DiscoveredDeposit))
    (verdict_ends : (k : ℕ) (c : Candidate) → Ends (verdict k c)) where
  weigh-Ends : (s : Progress) (o : Option Candidate) → Ends (weigh min_amount verdict s o)
  weigh-Ends s none = ok-Ends _
  weigh-Ends s (some c) = elim (Bool-cases (ltb c.amount min_amount)) [
    | inl dust ↦ rw dust (ok-Ends _)
    | inr enough ↦ elim (Bool-cases (leb 60 s.classified)) [
      | inl many ↦ rw (enough, many) (ok-Ends _)
      | inr few ↦
          rw (enough, few)
            (then_with-Ends (verdict s.classified c) _ (verdict_ends s.classified c)
              (λ d. ok-Ends _))
    ]
  ]

  decode-Ends : (e : Entry) → Ends (decode_transfer_log e)
  unfolding decode_transfer_log
  decode-Ends e h = ground arith

  examine-Ends : (es : List Entry) (s : Progress) → Ends (examine min_amount verdict s es)
  unfolding examine visit
  examine-Ends [] s = ok-Ends _
  examine-Ends (e ∷ es) s =
      then_with-Ends (visit min_amount verdict s e) _
        (then_with-Ends (decode_transfer_log e) _ (decode-Ends e) (weigh-Ends s))
        λ (s', goes_on). elim (Bool-cases goes_on) [
          | inl on ↦ rw on (examine-Ends es s')
          | inr off ↦ rw off (ok-Ends _)
        ]

  module _ (chunk : ℕ) (logs : ℕ → ℕ → Outcome (List Entry)) (from_block : ℕ)
      (logs_end : (lo hi : ℕ) → Ends (logs lo hi)) (positive : 1 ≤ chunk) where
    chunks-Ends :
        (fuel upper : ℕ) (s : Progress)
        → upper - from_block < fuel
        → Ends (scan_chunks min_amount verdict chunk logs from_block fuel upper s)
    unfolding scan_chunks scan_chunk
    chunks-Ends zero upper s enough = absurd (omega arith)
    chunks-Ends (suc fuel) upper s enough =
        elim (Bool-cases (scans_on min_amount verdict chunk logs from_block upper s)) [
          | inr stops ↦ rw (scan_chunks, stops) (ok-Ends s)
          | inl on ↦
              rw (scan_chunks, on)
                (then_with-Ends _ _
                  (then_with-Ends
                    (logs (chunk_start min_amount verdict chunk logs from_block upper) (upper - 1))
                    _ (logs_end _ _) (λ es. examine-Ends (newest_first es) _))
                  (λ s'.
                    chunks-Ends fuel (chunk_start min_amount verdict chunk logs from_block upper) s'
                      (let more : ltb from_block upper ≡ true = ground arith in ground arith)))
        ]

rpc-Ends : {A : Type 0} (m : Outcome A) → Ends m → Ends (rpc m)
rpc-Ends (ok a) ends = ok-Ends a
rpc-Ends (raise e) ends = rpc_error-Ends e ends
  where
    rpc_error-Ends :
        {A : Type 0} (e : Exn) → Ends {A = A} (raise e) → Ends {A = A} (raise (rpc_error e))
    rpc_error-Ends (timeout_error m) ends h = cc
    rpc_error-Ends fuel_out ends h = ends h
    rpc_error-Ends (os_error m) ends h = cc
    rpc_error-Ends (connection_error m) ends h = cc
    rpc_error-Ends (value_error m) ends h = cc
    rpc_error-Ends (not_found m) ends h = cc
    rpc_error-Ends (other_error m) ends h = cc
    rpc_error-Ends (reverted m x) ends h = cc
    rpc_error-Ends (credit_pending m) ends h = cc
    rpc_error-Ends cancelled ends h = cc

-- For an accepted configuration the loop over the chunks ends whatever the node answers, in at most as
-- many rounds as the window has blocks, and one: the scan gives a result, or raises what a call raised.
pub scan_from-Ends :
    (configs : List ChainConfig) (n : Sources) (q : Query) (cfg : ChainConfig) (ids : Dict Text)
    (addresses : List Text) (to_block : ℕ)
    → is_accepted cfg ≡ true
    → ((lo hi : ℕ) → n.get_logs lo hi addresses (address_topic q.deposit_address) ≢ raise fuel_out)
    → ((k : ℕ) (c : Candidate) → classify n q ids k c ≢ raise fuel_out)
    → scan_from configs n q cfg ids addresses to_block ≢ raise fuel_out
unfolding is_accepted scan_from
scan_from-Ends configs n q cfg ids addresses to_block good logs_end verdict_ends =
    let from_block = to_block + 1 - q.lookback in
    then_with-Ends _ _
      (chunks-Ends cfg.min_deposit_erc20_wei (classify n q ids) verdict_ends
        cfg.discovery_scan_chunk_blocks
        (λ lo hi. rpc (n.get_logs lo hi addresses (address_topic q.deposit_address))) from_block
        (λ lo hi. rpc-Ends _ (logs_end lo hi)) (ground arith) (to_block + 2 - from_block)
        (to_block + 1) _ (omega arith))
      (λ s. ok-Ends _)
