-- ===== src/Deposit/Discovery/Few.antt =====
-- src/services/deposit_discovery.py: the bound on the pending deposits of a scan, whatever the node answers.
use privana.Prelude.{
  ℕ, zero, suc, ◌≤◌, ◌<◌, ◌+◌, ◌-◌, ◌≡◌, subst, inl, inr, true, false, Bool, Option, none, some,
  List, [], ◌∷◌, ◌++◌, arith, ltb, leb, length, length-append, Bool-cases,
}
use privana.Text.{Text}
use privana.Dict.{Dict}
use privana.Config.{ChainConfig}
use privana.Effect.{Outcome, ok, ok-injective}
use privana.Deposit.Verifier.{then_with-ok}
use privana.Deposit.Discovery.{
  DiscoveredDeposit, DiscoveryResult, Entry, Candidate, Sources, Query, rpc, address_topic,
  decode_transfer_log, newest_first,
}
use privana.Deposit.Discovery.Scan.{
  Progress, settle, weigh, visit, examine, scan_chunk, scan_chunks, scans_on, chunk_start, start_at,
  classify, scan_from, result_of,
}

-- At most 20 are pending, and fewer where the loop over the logs goes on.
abbrev IsWithin : Progress × Bool → Type 0
IsWithin (s, goes_on) = (length s.pending ≤ 20) × (goes_on ≡ true → length s.pending < 20)

IsWithin-ok : (x p : Progress × Bool) → IsWithin x → ok x ≡ ok p → IsWithin p
IsWithin-ok x p h e = subst IsWithin (ok-injective x p e) h

module _ (min_amount : ℕ) (verdict : ℕ → Candidate → Outcome (Option DiscoveredDeposit)) where
  settle-IsWithin :
      (s : Progress) (c : Candidate) (o : Option DiscoveredDeposit)
      → length s.pending < 20
      → IsWithin (settle min_amount verdict s c o)
  settle-IsWithin s c none few = (omega (arith, few), λ _. few)
  settle-IsWithin s c (some d) few =
      let size = length-append s.pending (d ∷ []) in
      elim (Bool-cases (leb 20 (length (s.pending ++ d ∷ [])))) [
        | inl full ↦ rw full (omega (arith, size, few), λ h. cc)
        | inr room ↦ rw room (omega (arith, size, few), λ h. ground (arith, room))
      ]

  weigh-IsWithin :
      (s : Progress) (o : Option Candidate) (p : Progress × Bool)
      → length s.pending < 20
      → weigh min_amount verdict s o ≡ ok p
      → IsWithin p
  weigh-IsWithin s none p few h = IsWithin-ok (s, true) p (omega (arith, few), λ _. few) h
  weigh-IsWithin s (some c) p few h = elim (Bool-cases (ltb c.amount min_amount)) [
    | inl small ↦ IsWithin-ok (s, true) p (omega (arith, few), λ _. few) (rw small at h)
    | inr enough ↦ elim (Bool-cases (leb 60 s.classified)) [
      | inl many ↦
          IsWithin-ok (record s { bound_reached = true; scanned_from = c.block_number + 1 }, false)
            p (omega (arith, few), λ e. cc) (rw (enough, many) at h)
      | inr open_yet ↦
          let (o, _, settled) =
            then_with-ok (verdict s.classified c) (λ o. ok (settle min_amount verdict s c o)) p
              (rw (enough, open_yet) at h) in
          IsWithin-ok (settle min_amount verdict s c o) p (settle-IsWithin s c o few) settled
    ]
  ]

  examine-few :
      (es : List Entry) (s s' : Progress)
      → length s.pending < 20
      → examine min_amount verdict s es ≡ ok s'
      → length s'.pending ≤ 20
  unfolding examine visit
  examine-few [] s s' few h =
      subst (λ x. length x.pending ≤ 20) (ok-injective s s' h) (omega (arith, few))
  examine-few (e ∷ es) s s' few h =
      let ((t, goes_on), visited, rest) = then_with-ok (visit min_amount verdict s e) _ s' h in
      let (o, _, weighed) =
        then_with-ok (decode_transfer_log e) (λ o. weigh min_amount verdict s o) (t, goes_on)
          visited in
      let (size, room) = weigh-IsWithin s o (t, goes_on) few weighed in
      elim (Bool-cases goes_on) [
        | inl on ↦ examine-few es t s' (room on) (rw on at rest)
        | inr off ↦
            let stopped : ok t ≡ ok s' = rw off at rest in
            subst (λ x. length x.pending ≤ 20) (ok-injective t s' stopped) size
      ]

  module _ (chunk : ℕ) (logs : ℕ → ℕ → Outcome (List Entry)) (from_block : ℕ) where
    scan_chunks-few :
        (fuel upper : ℕ) (s s' : Progress)
        → length s.pending ≤ 20
        → scan_chunks min_amount verdict chunk logs from_block fuel upper s ≡ ok s'
        → length s'.pending ≤ 20
    unfolding scan_chunks scan_chunk
    scan_chunks-few zero upper s s' few h = cc
    scan_chunks-few (suc fuel) upper s s' few h =
        elim (Bool-cases (scans_on min_amount verdict chunk logs from_block upper s)) [
          | inr off ↦
              let same : ok s ≡ ok s' = rw (scan_chunks, off) at h in
              subst (λ x. length x.pending ≤ 20) (ok-injective s s' same) few
          | inl on ↦
              let (t, scanned, rest) =
                then_with-ok (scan_chunk min_amount verdict chunk logs from_block upper s)
                  (λ t.
                    scan_chunks min_amount verdict chunk logs from_block fuel
                      (chunk_start min_amount verdict chunk logs from_block upper) t)
                  s' (rw (scan_chunks, on) at h) in
              let (entries, _, examined) =
                then_with-ok
                  (logs (chunk_start min_amount verdict chunk logs from_block upper) (upper - 1)) _
                  t scanned in
              let room : length s.pending < 20 = ground (arith, on) in
              scan_chunks-few fuel (chunk_start min_amount verdict chunk logs from_block upper) t s'
                (examine-few (newest_first entries) _ t room examined) rest
        ]

-- Whatever the node and the contract answer, a result of the scan has at most 20 pending deposits.
pub scan_from-few :
    (configs : List ChainConfig) (n : Sources) (q : Query) (cfg : ChainConfig) (ids : Dict Text)
    (addresses : List Text) (to_block : ℕ) (r : DiscoveryResult)
    → scan_from configs n q cfg ids addresses to_block ≡ ok r
    → length r.pending ≤ 20
unfolding scan_from
scan_from-few configs n q cfg ids addresses to_block r h =
    let (s, scanned, made) = then_with-ok _ _ r h in
    let same : result_of configs n q to_block s ≡ r = ok-injective _ _ made in
    subst (λ x. length x.pending ≤ 20) same
      (scan_chunks-few cfg.min_deposit_erc20_wei (classify n q ids) cfg.discovery_scan_chunk_blocks
        (λ lo hi. rpc (n.get_logs lo hi addresses (address_topic q.deposit_address)))
        (to_block + 1 - q.lookback) _ _ (start_at to_block) s (omega arith) scanned)
