-- ===== src/Withdrawal/Poll.antt =====
-- src/services/withdrawal_processor.py: the pending withdrawals of each chain, the catch-up of broadcasts that
-- have not landed, and the polls of `_run_processor`. `stop` acts through `_is_running`.
use privana.Prelude.{
  ℕ, zero, suc, ◌-◌, ◌%◌, Bool, true, not, Option, none, some, List, [], ◌∷◌, ◌++◌, ◌&&◌, ◌||◌,
  ◌==◌, ltb, leb, length, if◌then◌else◌,
}
use privana.Table.{Table, find, put, has, in_order}
use privana.Effect.{M, pure, gets, lift, ◌>>=◌, ◌>>◌, try_except}
use privana.Withdrawal.{
  Processor, Chains, otherwise, ask, limited, attempts, broadcast, resolve_and_broadcast,
}
use privana.Withdrawal.Gate.{Withdrawn, PendingEntry, Feeds, chain_nonce_state}

-- `index > self._chain_high_water_mark.get(chain_id, -1)`
abbrev pub is_above : Option ℕ → ℕ → Bool
is_above none index = true
is_above (some mark) index = ltb mark index

-- The filter on an entry, with the test for a chain id.
unfoldable pub is_eligible : Processor → ℕ → PendingEntry → Bool
is_eligible s current w =
    leb 1 (current - w.block_number)
    && is_above (s.chain_high_water_mark w.chain_id) w.index
    && not (w.chain_id == 0)

abbrev pub held : Option (List ℕ) → List ℕ
held none = []
held (some is) = is

-- The grouping by chain.
unfoldable pub group : Processor → ℕ → List PendingEntry → Table (List ℕ) → Table (List ℕ)
unfolding is_eligible find put
group s current [] by_chain = by_chain
group s current (w ∷ ws) by_chain = group s current ws (
    if is_eligible s current w
    then put w.chain_id (held (find w.chain_id by_chain) ++ w.index ∷ []) by_chain
    else by_chain)

abbrev pub sorted : Table (List ℕ) → Table (List ℕ)
sorted [] = []
sorted ((k, is) ∷ d) = (k, in_order is) ∷ sorted d

-- `found_nonces.add`
abbrev pub add_nonce : ℕ → List ℕ → List ℕ
add_nonce n found = if has n found then found else n ∷ found

module _ (env : Chains) (feeds : Feeds) where
  -- `_get_pending_withdrawals`
  unfoldable pub get_pending_withdrawals : M Processor (Table (List ℕ))
  unfolding attempts group in_order
  get_pending_withdrawals =
      try_except
        (limited env feeds.pending_withdrawals >>= λ (entries, current).
          gets (λ s. sorted (group s current entries [])))
        (otherwise [])

  -- A resolved withdrawal of the chain whose nonce is missing is broadcast: has it gone out?
  abbrev pub rebroadcast : ℕ → ℕ → ℕ → List ℕ → M Processor (List ℕ)
  rebroadcast chain index nonce found = do
    signed ← limited env (λ t. env.signed_tx t index)
    paid ← broadcast env chain index signed
    pure (if paid then add_nonce nonce found else found)

  abbrev pub of_chain : ℕ → ℕ → ℕ → ℕ → List ℕ → M Processor (List ℕ)
  of_chain chain index nonce its_chain found =
      if its_chain == chain then rebroadcast chain index nonce found else pure found

  -- What the scan does with what it reads; the nonces from `latest` to before `next` are missing.
  abbrev pub consider : ℕ → ℕ → ℕ → ℕ → List ℕ → Option Withdrawn → M Processor (List ℕ)
  consider chain latest next index found none = pure found
  consider chain latest next index found (some w) =
      if not w.resolved || ltb (length w.tx_identifier) 32 then pure found else do
        nonce ← lift (feeds.decode_nonce w.tx_identifier)
        if leb latest nonce && ltb nonce next
            then (try_except (ask env (λ t. feeds.token_chain t w.token_id)) (otherwise 0)
                >>= λ its_chain. of_chain chain index nonce its_chain found)
            else pure found

  -- The scan over the indices below a bound, from the newest down.
  unfoldable pub scan_back : ℕ → ℕ → ℕ → ℕ → List ℕ → M Processor (List ℕ)
  unfolding attempts ask broadcast has
  scan_back chain latest next zero found = pure found
  scan_back chain latest next (suc index) found =
      let rest = λ (more : List ℕ). scan_back chain latest next index more in
      if leb (next - latest) (length found)
      then pure found
      else (try_except (limited env (λ t. feeds.withdrawals t index) >>= λ w. pure (some w))
            (otherwise none)
          >>= λ w. consider chain latest next index found w >>= rest)

  abbrev pub counted : Option ℕ → ℕ → ℕ → ℕ → M Processor (Unit {0})
  counted none chain latest next = pure tt
  counted (some total) chain latest next = scan_back chain latest next total [] >>= λ _. pure tt

  -- `_broadcast_missing_for_chain`
  unfoldable pub broadcast_missing_for_chain : ℕ → ℕ → ℕ → M Processor (Unit {0})
  unfolding attempts scan_back
  broadcast_missing_for_chain chain latest next =
      if leb next latest
      then pure tt
      else (try_except (limited env feeds.withdrawal_count >>= λ n. pure (some n)) (otherwise none)
          >>= λ total. counted total chain latest next)

  abbrev pub caught_up : ℕ → Option (ℕ × ℕ) → M Processor (Unit {0})
  caught_up chain none = pure tt
  caught_up chain (some (next, latest)) =
      if next == latest then pure tt else broadcast_missing_for_chain chain latest next

  -- `_catch_up_missing_broadcasts`
  unfoldable pub catch_up_missing_broadcasts : List ℕ → M Processor (Unit {0})
  unfolding chain_nonce_state broadcast_missing_for_chain
  catch_up_missing_broadcasts [] = pure tt
  catch_up_missing_broadcasts (chain ∷ chains) =
      let rest = catch_up_missing_broadcasts chains in
      try_except (chain_nonce_state env feeds chain >>= caught_up chain) (otherwise tt) >> rest

  -- The loop of `_process_chain`.
  unfoldable pub process_each : ℕ → List ℕ → M Processor (Unit {0})
  unfolding resolve_and_broadcast catch_up_missing_broadcasts
  process_each chain [] = pure tt
  process_each chain (index ∷ indices) =
      let rest = process_each chain indices in
      gets (λ s. feeds.is_running s.tick) >>= λ running.
      if running
      then (resolve_and_broadcast env chain index >>= λ done.
          if done then rest else catch_up_missing_broadcasts (chain ∷ []))
      else pure tt

  abbrev pub past_gate : ℕ → List ℕ → Option (ℕ × ℕ) → M Processor (Unit {0})
  past_gate chain indices none = pure tt
  past_gate chain indices (some _) = process_each chain indices

  -- `_process_chain`
  unfoldable pub process_chain : ℕ → List ℕ → M Processor (Unit {0})
  unfolding chain_nonce_state process_each
  process_chain chain indices =
      try_except (chain_nonce_state env feeds chain) (otherwise none) >>= past_gate chain indices

  -- The loop over the chains.
  unfoldable pub process_chains : Table (List ℕ) → M Processor (Unit {0})
  unfolding process_chain
  process_chains [] = pure tt
  process_chains ((chain, indices) ∷ d) =
      let rest = process_chains d in
      gets (λ s. feeds.is_running s.tick) >>= λ running.
      if running then (process_chain chain indices >> rest) else pure tt

  abbrev pub catch_up_all : M Processor (Unit {0})
  catch_up_all = gets (λ s. feeds.configured_chains s.tick) >>= catch_up_missing_broadcasts

  -- The body of the loop of `_run_processor`, with the number of the poll.
  unfoldable pub poll : ℕ → M Processor (Unit {0})
  unfolding catch_up_missing_broadcasts get_pending_withdrawals process_chains ask
  poll count =
      try_except
        ((if count % 10 == 0 then catch_up_all else pure tt)
          >> (get_pending_withdrawals >>= process_chains))
        (otherwise tt)
      >> ask env env.sleep

  -- Polls while the processor runs, at most this many, from the one with this number.
  unfoldable pub polls : ℕ → ℕ → M Processor (Unit {0})
  unfolding poll
  polls zero count = pure tt
  polls (suc n) count =
      let rest = polls n (suc count) in
      gets (λ s. feeds.is_running s.tick) >>= λ running.
      if running then (poll count >> rest) else pure tt

  -- `_run_processor`
  unfoldable pub run_processor : ℕ → M Processor (Unit {0})
  unfolding catch_up_missing_broadcasts polls
  run_processor n = catch_up_all >> polls n 1
