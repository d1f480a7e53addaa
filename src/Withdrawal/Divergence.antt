-- ===== src/Withdrawal/Divergence.antt =====
-- src/services/withdrawal_processor.py: a chain whose nonces have run ahead of the contract is left alone.
use privana.Prelude.{
  ℕ, zero, suc, ◌-◌, ◌%◌, ◌<◌, ◌≡◌, refl, ap, ◌∙◌, inl, inr, true, false, not, ◌&&◌, ◌||◌, Option,
  none, some, List, [], ◌∷◌, arith, ltb, leb, ◌==◌, ==_iff, length, Bool-cases,
}
use privana.Text.{Text}
use privana.Table.{Table}
use privana.Effect.{Outcome, ok, raise, M, is_exception}
use privana.Effect.Hoare.{
  Post, Triple, Triple-bind, Triple-if, Triple-pure, Triple-throw, Triple-weaken, Triple-try,
}
use privana.Withdrawal.{Processor, Chains, set_mark, set_hash}
use privana.Withdrawal.Gate.{chain_nonce_state, Withdrawn, Feeds, track_stuck_nonce}
use privana.Withdrawal.Poll.{
  get_pending_withdrawals, rebroadcast, consider, scan_back, counted, broadcast_missing_for_chain,
  caught_up, catch_up_missing_broadcasts, process_each, past_gate, process_chain, process_chains,
  catch_up_all, poll, polls, run_processor,
}
use privana.Withdrawal.Keeps.{
  Keeps, Keeps-bind, Keeps-pure, Keeps-lift, Keeps-gets, Keeps-if, Keeps-try, Keeps-otherwise,
  IsQuiet, limited-Keeps, ask-Keeps, broadcast-Keeps, resolve_and_broadcast-Keeps,
}
use privana.Withdrawal.Readiness.{IsReady, IsOwn, chain_nonce_state-IsReady}

-- What the gate has seen where it lets a chain through.
abbrev IsLetThrough : Feeds → (Text → Type 0) → ℕ → Option (ℕ × ℕ) → Type 0
IsLetThrough feeds Own k none = Unit {0}
IsLetThrough feeds Own k (some x) = IsReady feeds Own k (some x)

-- For these accounts every pending nonce of the chain is ahead of every next nonce of the contract.
abbrev pub Diverged : Feeds → ℕ → (Text → Type 0) → Type 0
Diverged feeds chain Own =
    (t u : ℕ) (address : Text) (next pending : ℕ)
    → Own address
    → feeds.nonces t chain ≡ ok next
    → feeds.transaction_count u chain address true ≡ ok pending
    → next < pending

module _ (env : Chains) (feeds : Feeds) (chain : ℕ) (mark : Option ℕ) (hashes : ℕ → Option Text)
    (Own : Text → Type 0)
    (given_own : (t : ℕ) (a : Text) → feeds.evm_address t ≡ ok a → Own a) where
  -- The chain's mark, and the hashes remembered for its withdrawals, are as they were, and an account
  -- that is noted is the processor's own.
  abbrev pub IsUntouched : Processor → Type 0
  IsUntouched s =
      (s.chain_high_water_mark chain ≡ mark)
      × ((i : ℕ) → s.last_broadcast_hash chain i ≡ hashes i)
      × ((a : Text) → s.evm_address ≡ some a → Own a)

  IsUntouched-IsQuiet : IsQuiet feeds IsUntouched
  unfolding track_stuck_nonce
  IsUntouched-IsQuiet = record {
    ticks = λ s h. h;
    notes_address = λ s t a e h. (h.0, h.1, λ b same. given_own t b (e ∙ ap ok (noted a b same)));
    notes_report = λ s k b h. h;
    notes_stuck = λ s k n p l h. h;
  }
    where
      noted : (a b : Text) → some a ≡ some b → a ≡ b
      noted a b same = cc

  module _ (diverged : Diverged feeds chain Own) where
    Stays : {A : Type 0} → M Processor A → Type 0
    Stays m = Keeps IsUntouched m

    other-hash :
        (k : ℕ) (s : Processor) (index : ℕ) (hash : Text)
        → (chain == k) ≡ false
        → IsUntouched s
        → IsUntouched (set_hash k index hash s)
    other-hash k s index hash other h = (h.0, λ i. rw other (h.1 i), h.2)

    other-mark :
        (k : ℕ) (s : Processor) (index : ℕ)
        → (chain == k) ≡ false
        → IsUntouched s
        → IsUntouched (set_mark k index s)
    other-mark k s index other h = (rw other h.0, h.1, h.2)

    -- What comes after the gate may be anything for the chain itself, since it does not come to that.
    gated :
        {A : Type 0} (k : ℕ) (f : Option (ℕ × ℕ) → M Processor A)
        → Keeps IsUntouched (f none)
        → ((chain == k) ≡ false → (x : ℕ × ℕ) → Keeps IsUntouched (f (some x)))
        → (o : Option (ℕ × ℕ))
        → Triple
            (λ s. IsUntouched s × IsLetThrough feeds Own k o)
            (f o)
            (λ _. IsUntouched)
            (λ _. IsUntouched)
    gated k f closed open_for none = Triple-weaken _ closed (λ s h. h.0) (λ a s h. h) (λ e s h. h)
    gated k f closed open_for (some (next, latest)) = elim (Bool-cases (chain == k)) [
      | inl own ↦
          let same : chain ≡ k = (==_iff chain k).0 own in
          record { at = λ s h. absurd (refuted k next latest same h.1) }
      | inr other ↦
          Triple-weaken _ (open_for other (next, latest)) (λ s h. h.0) (λ a s h. h) (λ e s h. h)
    ]
      where
        refuted : (k next latest : ℕ) → chain ≡ k → IsReady feeds Own k (some (next, latest)) → ⊥
        refuted k next latest same ready =
            let (address, own, (t, its), (u, pending, seen, le), _) = ready in
            let ahead : next < pending =
              diverged t u address next pending own (rw same its) (rw same seen) in
            absurd (omega arith)

    quiet : IsQuiet feeds IsUntouched
    quiet = IsUntouched-IsQuiet

    chain_nonce_state-IsLetThrough :
        (k : ℕ)
        → Triple IsUntouched
            (chain_nonce_state env feeds k)
            (λ o s. IsUntouched s × IsLetThrough feeds Own k o)
            (λ _. IsUntouched)
    chain_nonce_state-IsLetThrough k =
        Triple-weaken _
          (chain_nonce_state-IsReady env feeds IsUntouched quiet Own (λ s a h e. h.2 a e) given_own
            k)
          (λ s h. h) through (λ e s h. h)
      where
        through :
            (o : Option (ℕ × ℕ)) (s : Processor)
            → IsUntouched s × IsReady feeds Own k o
            → IsUntouched s × IsLetThrough feeds Own k o
        through none s h = (h.0, tt)
        through (some x) s h = h

    module _ (k : ℕ) (other : (chain == k) ≡ false) where
      rebroadcast-Keeps :
          (index nonce : ℕ) (found : List ℕ)
          → Keeps IsUntouched (rebroadcast env feeds k index nonce found)
      rebroadcast-Keeps index nonce found =
          Keeps-bind IsUntouched _ _
            (limited-Keeps env feeds IsUntouched quiet (λ t. env.signed_tx t index))
            λ signed.
              Keeps-bind IsUntouched _ _
                (broadcast-Keeps env feeds IsUntouched quiet k
                  (λ s i hash h. other-hash k s i hash other h) (λ s i h. other-mark k s i other h)
                  index signed)
                (λ paid. Keeps-pure IsUntouched _)

      consider-Keeps :
          (latest next index : ℕ) (found : List ℕ) (o : Option Withdrawn)
          → Keeps IsUntouched (consider env feeds k latest next index found o)
      consider-Keeps latest next index found none = Keeps-pure IsUntouched found
      consider-Keeps latest next index found (some w) =
          Keeps-if IsUntouched (not w.resolved || ltb (length w.tx_identifier) 32) _ _
            (Keeps-pure IsUntouched found)
            (Keeps-bind IsUntouched _ _
              (Keeps-lift IsUntouched (feeds.decode_nonce w.tx_identifier))
              λ nonce.
                Keeps-if IsUntouched (leb latest nonce && ltb nonce next) _ _
                  (Keeps-bind IsUntouched _ _
                    (Keeps-try IsUntouched _ _
                      (ask-Keeps env feeds IsUntouched quiet (λ t. feeds.token_chain t w.token_id))
                      (Keeps-otherwise IsUntouched 0))
                    λ its_chain.
                      Keeps-if IsUntouched (its_chain == k) _ _
                        (rebroadcast-Keeps index nonce found) (Keeps-pure IsUntouched found))
                  (Keeps-pure IsUntouched found))

      scan_back-Keeps :
          (latest next total : ℕ) (found : List ℕ)
          → Keeps IsUntouched (scan_back env feeds k latest next total found)
      unfolding scan_back
      scan_back-Keeps latest next zero found = Keeps-pure IsUntouched found
      scan_back-Keeps latest next (suc index) found =
          Keeps-if IsUntouched (leb (next - latest) (length found)) _ _
            (Keeps-pure IsUntouched found)
            (Keeps-bind IsUntouched _ _
              (Keeps-try IsUntouched _ _
                (Keeps-bind IsUntouched _ _
                  (limited-Keeps env feeds IsUntouched quiet (λ t. feeds.withdrawals t index))
                  (λ w. Keeps-pure IsUntouched (some w)))
                (Keeps-otherwise IsUntouched none))
              (λ w.
                Keeps-bind IsUntouched _ _ (consider-Keeps latest next index found w)
                  (scan_back-Keeps latest next index)))

      counted-Keeps :
          (o : Option ℕ) (latest next : ℕ) → Keeps IsUntouched (counted env feeds o k latest next)
      counted-Keeps none latest next = Keeps-pure IsUntouched tt
      counted-Keeps (some total) latest next =
          Keeps-bind IsUntouched _ _ (scan_back-Keeps latest next total [])
            (λ _. Keeps-pure IsUntouched tt)

      caught_up-Keeps : (x : ℕ × ℕ) → Keeps IsUntouched (caught_up env feeds k (some x))
      unfolding broadcast_missing_for_chain
      caught_up-Keeps (next, latest) =
          Keeps-if IsUntouched (next == latest) _ _ (Keeps-pure IsUntouched tt) (
            Keeps-if IsUntouched (leb next latest) _ _ (Keeps-pure IsUntouched tt) (
              Keeps-bind IsUntouched _ _
                (Keeps-try IsUntouched _ _
                  (Keeps-bind IsUntouched _ _
                    (limited-Keeps env feeds IsUntouched quiet feeds.withdrawal_count)
                    (λ n. Keeps-pure IsUntouched (some n)))
                  (Keeps-otherwise IsUntouched none))
                (λ total. counted-Keeps total latest next)))

    catch_up-Keeps : (ks : List ℕ) → Keeps IsUntouched (catch_up_missing_broadcasts env feeds ks)
    unfolding catch_up_missing_broadcasts
    catch_up-Keeps [] = Keeps-pure IsUntouched tt
    catch_up-Keeps (k ∷ ks) =
        Keeps-bind IsUntouched _ _
          (Keeps-try IsUntouched _ _
            (Triple-bind _ _ (chain_nonce_state-IsLetThrough k)
              (gated k (caught_up env feeds k) (Keeps-pure IsUntouched tt) (caught_up-Keeps k)))
            (Keeps-otherwise IsUntouched tt))
          (λ _. catch_up-Keeps ks)

    process_each-Keeps :
        (k : ℕ)
        → (chain == k) ≡ false
        → (indices : List ℕ) → Keeps IsUntouched (process_each env feeds k indices)
    unfolding process_each
    process_each-Keeps k other [] = Keeps-pure IsUntouched tt
    process_each-Keeps k other (index ∷ indices) =
        Keeps-bind IsUntouched _ _ (Keeps-gets IsUntouched _) λ running.
          Keeps-if IsUntouched running _ _
            (Keeps-bind IsUntouched _ _
              (resolve_and_broadcast-Keeps env feeds IsUntouched quiet k
                (λ s i hash h. other-hash k s i hash other h) (λ s i h. other-mark k s i other h)
                index)
              λ done.
                Keeps-if IsUntouched done _ _ (process_each-Keeps k other indices)
                  (catch_up-Keeps (k ∷ [])))
            (Keeps-pure IsUntouched tt)

    process_chain-Keeps :
        (k : ℕ) (indices : List ℕ) → Keeps IsUntouched (process_chain env feeds k indices)
    unfolding process_chain
    process_chain-Keeps k indices =
        Triple-bind _ _
          (Triple-try _ _ (chain_nonce_state-IsLetThrough k) λ e.
            Triple-if (is_exception e) _ _ (λ _. Triple-pure none (λ s h. (h, tt)))
              (λ _. Triple-throw e (λ s h. h)))
          (gated k (past_gate env feeds k indices) (Keeps-pure IsUntouched tt)
            (λ other x. process_each-Keeps k other indices))

    process_chains-Keeps : (d : Table (List ℕ)) → Keeps IsUntouched (process_chains env feeds d)
    unfolding process_chains
    process_chains-Keeps [] = Keeps-pure IsUntouched tt
    process_chains-Keeps ((k, indices) ∷ d) =
        Keeps-bind IsUntouched _ _ (Keeps-gets IsUntouched _) λ running.
          Keeps-if IsUntouched running _ _
            (Keeps-bind IsUntouched _ _ (process_chain-Keeps k indices)
              (λ _. process_chains-Keeps d))
            (Keeps-pure IsUntouched tt)

    catch_up_all-Keeps : Keeps IsUntouched (catch_up_all env feeds)
    catch_up_all-Keeps = Keeps-bind IsUntouched _ _ (Keeps-gets IsUntouched _) catch_up-Keeps

    poll-Keeps : (count : ℕ) → Keeps IsUntouched (poll env feeds count)
    unfolding poll get_pending_withdrawals
    poll-Keeps count =
        Keeps-bind IsUntouched _ _
          (Keeps-try IsUntouched _ _
            (Keeps-bind IsUntouched _ _
              (Keeps-if IsUntouched (count % 10 == 0) _ _ catch_up_all-Keeps
                (Keeps-pure IsUntouched tt))
              λ _.
                Keeps-bind IsUntouched _ _
                  (Keeps-try IsUntouched _ _
                    (Keeps-bind IsUntouched _ _
                      (limited-Keeps env feeds IsUntouched quiet feeds.pending_withdrawals)
                      λ (entries, current). Keeps-gets IsUntouched _)
                    (Keeps-otherwise IsUntouched []))
                  process_chains-Keeps)
            (Keeps-otherwise IsUntouched tt))
          (λ _. ask-Keeps env feeds IsUntouched quiet env.sleep)

    polls-Keeps : (n count : ℕ) → Keeps IsUntouched (polls env feeds n count)
    unfolding polls
    polls-Keeps zero count = Keeps-pure IsUntouched tt
    polls-Keeps (suc n) count = Keeps-bind IsUntouched _ _ (Keeps-gets IsUntouched _) λ running.
        Keeps-if IsUntouched running _ _
          (Keeps-bind IsUntouched _ _ (poll-Keeps count) (λ _. polls-Keeps n (suc count)))
          (Keeps-pure IsUntouched tt)

    run-Keeps : (n : ℕ) → Keeps IsUntouched (run_processor env feeds n)
    unfolding run_processor
    run-Keeps n = Keeps-bind IsUntouched _ _ catch_up_all-Keeps (λ _. polls-Keeps n 1)

module _ (env : Chains) (feeds : Feeds) (chain n : ℕ) (s : Processor) where
  either_way :
      {A : Type 0} (I : Processor → Type 0) (r : Outcome A) (s' : Processor)
      → Post (λ _. I) (λ _. I) r s'
      → I s'
  either_way I (ok a) s' h = h
  either_way I (raise e) s' h = h

  -- If every pending nonce that the nodes give for a chain and an account of the processor, which it has
  -- noted or the contract gives, is ahead of every next nonce that the contract gives, then the
  -- processor, over its start and any number of polls and whatever else answers or fails, neither
  -- moves the mark of the chain nor remembers a new broadcast of its withdrawals.
  pub run_processor-diverged :
      Diverged feeds chain (IsOwn env feeds s)
      → ((run_processor env feeds n s).1.chain_high_water_mark chain
          ≡ s.chain_high_water_mark chain)
        × ((i : ℕ)
            → (run_processor env feeds n s).1.last_broadcast_hash chain i
              ≡ s.last_broadcast_hash chain i)
  run_processor-diverged diverged =
      let (marks, hashes, _) =
        either_way
          (IsUntouched env feeds chain (s.chain_high_water_mark chain) (s.last_broadcast_hash chain)
            (IsOwn env feeds s) (λ t a e. inr (t, e)))
          (run_processor env feeds n s).0 (run_processor env feeds n s).1
          ((run-Keeps env feeds chain (s.chain_high_water_mark chain) (s.last_broadcast_hash chain)
              (IsOwn env feeds s) (λ t a e. inr (t, e)) diverged n).at
            s (refl, λ i. refl, λ a e. inl e)) in
      (marks, hashes)
