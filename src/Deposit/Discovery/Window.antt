-- ===== src/Deposit/Discovery/Window.antt =====
-- src/services/deposit_discovery.py: what the whole scan covers, from the newest final block down.
use privana.Prelude.{
  ℕ, zero, suc, ◌+◌, ◌-◌, ◌≤◌, ◌<◌, ◌≡◌, refl, ◌⊎◌, inl, inr, true, false, Option, none, some, List,
  max, arith, ltb, length, Bool-cases, Has,
}
use privana.Text.{Text}
use privana.Dict.{Dict}
use privana.Config.{ChainConfig}
use privana.Effect.{Outcome, ok, ok-injective}
use privana.Deposit.Verifier.{then_with-ok}
use privana.Deposit.Discovery.{
  DiscoveredDeposit, DiscoveryResult, Entry, Candidate, Sources, Query, block_of, rpc,
  address_topic, decode_transfer_log, newest_first,
}
use privana.Deposit.Discovery.Order.{newest_first-Has, Has-newest_first, newest_first-IsNewestFirst}
use privana.Deposit.Discovery.Coverage.{
  Examined, Justified, Examined-grows, is_over, Pass, examine_lem,
}
use privana.Deposit.Discovery.Scan.{
  Progress, scan_chunk, scan_chunks, scans_on, chunk_start, start_at, classify, scan_from,
  result_of,
}

-- `eth_getLogs`: of the logs on the chain it gives those in the range of blocks, no more and no less.
abbrev pub Answers : (ℕ → ℕ → Outcome (List Entry)) → List Entry → Type 0
Answers logs ledger =
    (lo hi : ℕ) (es : List Entry)
    → logs lo hi ≡ ok es
    → ((e : Entry) → Has e es → Has e ledger × (lo ≤ block_of e) × (block_of e ≤ hi))
      × ((e : Entry) → Has e ledger → lo ≤ block_of e → block_of e ≤ hi → Has e es)

module _ (min_amount : ℕ) (verdict : ℕ → Candidate → Outcome (Option DiscoveredDeposit)) (chunk : ℕ)
    (logs : ℕ → ℕ → Outcome (List Entry)) (from_block to_block : ℕ) (ledger : List Entry)
    (answers : Answers logs ledger) where
  -- What holds of the variables when the blocks from `upper` on are done.
  record IsDone (upper : ℕ) (s : Progress) : Type 0 where
    seen :
        (e : Entry)
        → Has e ledger
        → upper ≤ block_of e
        → block_of e ≤ to_block
        → Examined min_amount verdict e s.pending
    fresh :
        (d : DiscoveredDeposit)
        → Has d s.pending
        → (e : Entry) × Has e ledger
          × (from_block ≤ block_of e)
          × (block_of e ≤ to_block)
          × Justified min_amount verdict e d
    bounded : length s.pending ≤ 20

  -- A round of the loop.
  chunk-IsDone :
      (upper : ℕ) (s s' : Progress)
      → IsDone upper s
      → from_block < upper
      → upper ≤ to_block + 1
      → length s.pending < 20
      → scan_chunk min_amount verdict chunk logs from_block upper s ≡ ok s'
      → IsDone s'.scanned_from s'
        × ((is_over min_amount verdict s' ≡ true)
            ⊎ (s'.scanned_from ≡ chunk_start min_amount verdict chunk logs from_block upper))
  unfolding scan_chunk
  chunk-IsDone upper s s' done more top few h =
      let lo = max (upper - chunk) from_block in
      let (es, given, goes) = then_with-ok (logs lo (upper - 1)) _ s' h in
      let right = answers lo (upper - 1) es given in
      let start : Progress = record s { scanned_from = lo } in
      let pass : Pass min_amount verdict start (newest_first es) s' =
        examine_lem min_amount verdict (newest_first es) start s' goes
          (newest_first-IsNewestFirst es) few (λ e h. (right.0 e (Has-newest_first e es h)).1) in
      (
        record {
          seen = λ e on_chain above below. elim (Bool-cases (ltb (block_of e) upper)) [
            | inl in_chunk ↦
                pass.seen e
                  (newest_first-Has e es
                    (right.1 e on_chain (omega (arith, pass.down)) (ground arith)))
                  above
            | inr newer ↦
                Examined-grows min_amount verdict e s.pending s'.pending pass.grows
                  (done.seen e on_chain (ground arith) below)
          ];
          fresh = λ d found. elim (pass.fresh d found) [
            | inl held ↦ done.fresh d held
            | inr (e, listed, justified) ↦
                let (on_chain, above, below) = right.0 e (Has-newest_first e es listed) in
                (e, on_chain, omega arith, omega arith, justified)
          ];
          bounded = pass.bounded;
        },
        pass.ends,
      )

  -- What holds before each test of the loop.
  abbrev AtHead : ℕ → Progress → Type 0
  AtHead upper s =
      ((is_over min_amount verdict s ≡ true) × IsDone s.scanned_from s)
      ⊎ ((is_over min_amount verdict s ≡ false)
          × IsDone upper s
          × (upper ≤ to_block + 1)
          × ((from_block < upper) ⊎ (s.scanned_from ≡ upper)))

  next-AtHead :
      (upper : ℕ) (s' : Progress)
      → upper ≤ to_block + 1
      → from_block < upper
      → IsDone s'.scanned_from s'
        × ((is_over min_amount verdict s' ≡ true)
            ⊎ (s'.scanned_from ≡ chunk_start min_amount verdict chunk logs from_block upper))
      → AtHead (chunk_start min_amount verdict chunk logs from_block upper) s'
  next-AtHead upper s' top more (done, why) = elim (Bool-cases (is_over min_amount verdict s')) [
    | inl over ↦ inl (over, done)
    | inr goes_on ↦ elim why [
      | inl over ↦ cc
      | inr from_there ↦ inr (goes_on, rw (← from_there) done, omega arith, inr from_there)
    ]
  ]

  IsDone-at : (a b : ℕ) (s : Progress) → b ≡ a → IsDone a s → IsDone b s
  IsDone-at a b s same done = rw same done

  chunks-IsDone :
      (fuel upper : ℕ) (s r : Progress)
      → AtHead upper s
      → scan_chunks min_amount verdict chunk logs from_block fuel upper s ≡ ok r
      → IsDone r.scanned_from r
  unfolding scan_chunks
  chunks-IsDone zero upper s r head h = cc
  chunks-IsDone (suc fuel) upper s r (inl (over, done)) h =
      let stops : scans_on min_amount verdict chunk logs from_block upper s ≡ false =
        ground arith in
      rw (← ok-injective _ _ (rw (scan_chunks, stops) at h)) done
  chunks-IsDone (suc fuel) upper s r (inr (goes_on, done, top, why)) h =
      elim (Bool-cases (ltb from_block upper)) [
        | inl more ↦
            let loops : scans_on min_amount verdict chunk logs from_block upper s ≡ true =
              ground arith in
            let (s', scanned, rest) =
              then_with-ok (scan_chunk min_amount verdict chunk logs from_block upper s) _ r
                (rw (scan_chunks, loops) at h) in
            chunks-IsDone fuel _ s' r
              (next-AtHead upper s' top (ground arith)
                (chunk-IsDone upper s s' done (ground arith) top (ground arith) scanned))
              rest
        | inr no_more ↦
            let stops : scans_on min_amount verdict chunk logs from_block upper s ≡ false =
              ground arith in
            let at_end : s.scanned_from ≡ upper = elim why [
              | inl more ↦ absurd (ground arith)
              | inr e ↦ e
            ] in
            rw (← ok-injective _ _ (rw (scan_chunks, stops) at h))
              (IsDone-at upper s.scanned_from s at_end done)
      ]

module _ (configs : List ChainConfig) (n : Sources) (q : Query) (cfg : ChainConfig)
    (ids : Dict Text) (addresses : List Text) (to_block : ℕ) (ledger : List Entry)
    (r : DiscoveryResult)
    (answers : Answers
      (λ lo hi. rpc (n.get_logs lo hi addresses (address_topic q.deposit_address)))
      ledger)
    (window : 1 ≤ q.lookback)
    (ended : scan_from configs n q cfg ids addresses to_block ≡ ok r) where
  scan-IsDone :
      (s : Progress) × IsDone cfg.min_deposit_erc20_wei
        (classify n q ids)
        cfg.discovery_scan_chunk_blocks
        (λ lo hi. rpc (n.get_logs lo hi addresses (address_topic q.deposit_address)))
        (to_block + 1 - q.lookback)
        to_block
        ledger
        answers
        s.scanned_from
        s
      × (result_of configs n q to_block s ≡ r)
  unfolding scan_from
  scan-IsDone =
      let (s, looped, ends) = then_with-ok _ _ r ended in
      (
        s,
        chunks-IsDone cfg.min_deposit_erc20_wei (classify n q ids) cfg.discovery_scan_chunk_blocks
            (λ lo hi. rpc (n.get_logs lo hi addresses (address_topic q.deposit_address)))
            (to_block + 1 - q.lookback) to_block ledger answers
            (to_block + 2 - (to_block + 1 - q.lookback)) (to_block + 1) (start_at to_block) s
            (inr (
              refl,
              record {
                seen = λ e on_chain above below. absurd (omega arith);
                fresh = λ d none_left. elim none_left [ ];
                bounded = omega arith;
              },
              omega arith,
              inl (omega arith),
            ))
            looped,
        ok-injective _ _ ends,
      )

  -- If the node answers the scan's calls with the logs of the chain in the range that is asked for, and
  -- the window has at least one block, then in a scan that gives a result, every log of the chain
  -- between the blocks that the result names as scanned, that decodes to a transfer of at least the
  -- smallest deposit, was classified, and is among the pending deposits unless it was found not to be
  -- claimable.
  pub scan_from-misses_none :
      (e : Entry) (c : Candidate)
      → Has e ledger
      → r.scanned_from_block ≤ block_of e
      → block_of e ≤ r.scanned_to_block
      → decode_transfer_log e ≡ ok (some c)
      → cfg.min_deposit_erc20_wei ≤ c.amount
      → (k : ℕ) × ((classify n q ids k c ≡ ok none)
          ⊎ ((d : DiscoveredDeposit) × (classify n q ids k c ≡ ok (some d)) × Has d r.pending))
  scan_from-misses_none e c on_chain above below decoded enough =
      let (s, done, same) = scan-IsDone in
      let in_result : Examined cfg.min_deposit_erc20_wei (classify n q ids) e r.pending =
        rw (← same) (done.seen e on_chain (rw (← same) at above) (rw (← same) at below)) in
      in_result c decoded enough

  -- Under the same conditions, every pending deposit of the result comes from a log of the chain inside
  -- the window, which decodes to a transfer of at least the smallest deposit and was classified as this
  -- deposit, as one of the first 60 candidates.
  pub scan_from-invents_none :
      (d : DiscoveredDeposit)
      → Has d r.pending
      → (e : Entry) × Has e ledger
        × (to_block + 1 - q.lookback ≤ block_of e)
        × (block_of e ≤ to_block)
        × ((c : Candidate) × (decode_transfer_log e ≡ ok (some c))
            × (cfg.min_deposit_erc20_wei ≤ c.amount)
            × ((k : ℕ) × (k < 60) × (classify n q ids k c ≡ ok (some d))))
  scan_from-invents_none d found =
      let (s, done, same) = scan-IsDone in done.fresh d (rw (← same) at found)
