-- ===== src/Withdrawal/Readiness.antt =====
-- src/services/withdrawal_processor.py: what the nonce gate has seen when it lets a chain through.
use privana.Prelude.{
  ℕ, ◌≤◌, ◌<◌, ◌≡◌, refl, ap, ◌∙◌, ◌⊎◌, inl, inr, subst, true, false, Option, none, some, arith,
  leb,
}
use privana.Text.{Text}
use privana.Effect.{Outcome, ok, raise, M, ◌>>=◌, ok-injective}
use privana.Effect.Hoare.{
  Post, Triple, Triple-bind, Triple-if, Triple-pure, Triple-modify, Triple-gets,
}
use privana.Withdrawal.{Processor, Chains, limited, destination}
use privana.Withdrawal.Gate.{
  Feeds, set_reported, track_stuck_nonce, sapphire_contract, known_address, get_evm_address,
  decided, chain_nonce_state,
}
use privana.Withdrawal.Keeps.{
  Keeps, Keeps-bind, Keeps-pure, Keeps-throw, Keeps-gets, Keeps-if, IsQuiet, limited-Answered,
  destination-Keeps,
}

module _ (feeds : Feeds) (IsOwn : Text → Type 0) where
  -- What the gate has seen of one of the processor's accounts: where it lets a chain through, the contract's
  -- next nonce, which is not behind the account's pending nonce, and its latest; where it does not, a
  -- pending nonce ahead of the contract.
  abbrev pub IsReady : ℕ → Option (ℕ × ℕ) → Type 0
  IsReady k none =
      (address : Text) × IsOwn address
      × ((next : ℕ) × (pending : ℕ) × ((t : ℕ) × (feeds.nonces t k ≡ ok next))
          × ((u : ℕ) × (feeds.transaction_count u k address true ≡ ok pending))
          × (next < pending))
  IsReady k (some (next, latest)) =
      (address : Text) × IsOwn address
      × ((t : ℕ) × (feeds.nonces t k ≡ ok next))
      × ((u : ℕ) × (pending : ℕ) × (feeds.transaction_count u k address true ≡ ok pending)
          × (pending ≤ next))
      × ((v : ℕ) × (feeds.transaction_count v k address false ≡ ok latest))

module _ (env : Chains) (feeds : Feeds) (I : Processor → Type 0) (quiet : IsQuiet feeds I) where
  bind-Answered :
      {A B : Type 0} {Q : B → Processor → Type 0} (answer : ℕ → Outcome A) (f : A → M Processor B)
      → ((a : A) → (t : ℕ) × (answer t ≡ ok a) → Triple I (f a) Q (λ _. I))
      → Triple I (limited env answer >>= f) Q (λ _. I)
  bind-Answered answer f k =
      Triple-bind _ _ (limited-Answered env feeds I quiet answer)
        (λ a. record { at = λ s h. (k a h.1).at s h.0 })

  bind-Keeps :
      {A B : Type 0} {Q : B → Processor → Type 0} (m : M Processor A) (f : A → M Processor B)
      → Keeps I m
      → ((a : A) → Triple I (f a) Q (λ _. I))
      → Triple I (m >>= f) Q (λ _. I)
  bind-Keeps m f km k = Triple-bind _ _ km k

  sapphire_contract-Keeps : Keeps I (sapphire_contract env feeds)
  unfolding sapphire_contract
  sapphire_contract-Keeps =
      Keeps-bind I _ _ (Keeps-gets I _)
        λ served. Keeps-if I served _ _ (Keeps-pure I tt) (Keeps-throw I _)

  module _ (IsOwn : Text → Type 0)
      (noted_own : (s : Processor) (a : Text) → I s → s.evm_address ≡ some a → IsOwn a)
      (given_own : (t : ℕ) (a : Text) → feeds.evm_address t ≡ ok a → IsOwn a) where
    known_address-IsOwn :
        (o : Option Text)
        → ((a : Text) → o ≡ some a → IsOwn a)
        → Triple I (known_address env feeds o) (λ a s. I s × IsOwn a) (λ _. I)
    known_address-IsOwn (some address) own = Triple-pure address (λ s h. (h, own address refl))
    known_address-IsOwn none own = bind-Keeps _ _ sapphire_contract-Keeps λ _.
        bind-Answered feeds.evm_address _ λ address given.
          Triple-bind {R = λ _ s. I s} _ _
            (Triple-modify _ (λ s h. quiet.notes_address s given.0 address given.1 h))
            (λ _. Triple-pure address (λ s h. (h, given_own given.0 address given.1)))

    get_evm_address-IsOwn : Triple I (get_evm_address env feeds) (λ a s. I s × IsOwn a) (λ _. I)
    unfolding get_evm_address
    get_evm_address-IsOwn =
        Triple-bind {R = λ o s. I s × ((a : Text) → o ≡ some a → IsOwn a)} _ _
          (Triple-gets _ (λ s h. (h, λ a e. noted_own s a h e)))
          (λ o. record { at = λ s h. (known_address-IsOwn o h.1).at s h.0 })

    pub chain_nonce_state-IsReady :
        (k : ℕ)
        → Triple I (chain_nonce_state env feeds k) (λ o s. I s × IsReady feeds IsOwn k o) (λ _. I)
    unfolding chain_nonce_state
    chain_nonce_state-IsReady k = bind-Keeps _ _ sapphire_contract-Keeps λ _.
        bind-Answered (λ t. feeds.nonces t k) _
          λ next has_next.
            Triple-bind _ _ get_evm_address-IsOwn λ address. record {
              at = λ s h. (decided-IsReady k next has_next address h.1).at s h.0;
            }
      where
        decided-IsReady :
            (k next : ℕ)
            → (t : ℕ) × (feeds.nonces t k ≡ ok next)
            → (address : Text) → IsOwn address
            → Triple I
                (destination env k >>= λ _.
                  limited env (λ t. feeds.transaction_count t k address true) >>= λ pending.
                  limited env (λ t. feeds.transaction_count t k address false) >>= λ latest.
                  decided env feeds k next pending latest)
                (λ o s. I s × IsReady feeds IsOwn k o)
                (λ _. I)
        decided-IsReady k next has_next address own =
            bind-Keeps _ _ (destination-Keeps env feeds I quiet k) λ _.
              bind-Answered (λ t. feeds.transaction_count t k address true) _
                λ pending has_pending.
                  bind-Answered (λ t. feeds.transaction_count t k address false) _
                    λ latest has_latest.
                      Triple-if (leb pending next) _ _
                        (λ le.
                          Triple-bind {R = λ _ s. I s} _ _
                            (Triple-modify _ (λ s h.
                              quiet.notes_stuck (set_reported k false s) k next pending latest
                                (quiet.notes_report s k false h)))
                            (λ _. Triple-pure (some (next, latest)) (λ s h. (
                              h,
                              (
                                address,
                                own,
                                has_next,
                                (has_pending.0, pending, has_pending.1, ground arith),
                                has_latest,
                              ),
                            ))))
                        (λ gt.
                          Triple-bind {R = λ _ s. I s} _ _
                            (Triple-modify _ (λ s h. quiet.notes_report s k true h))
                            (λ _. Triple-pure none (λ s h. (
                              h,
                              (address, own, (next, pending, has_next, has_pending, ground arith)),
                            ))))

module _ (env : Chains) (feeds : Feeds) (s : Processor) where
  -- The account that the processor has noted, or that the contract gave.
  abbrev pub IsOwn : Text → Type 0
  IsOwn a = (s.evm_address ≡ some a) ⊎ ((t : ℕ) × (feeds.evm_address t ≡ ok a))

  NotesOwn : Processor → Type 0
  NotesOwn s' = (a : Text) → s'.evm_address ≡ some a → IsOwn a

  NotesOwn-IsQuiet : IsQuiet feeds NotesOwn
  unfolding NotesOwn track_stuck_nonce
  NotesOwn-IsQuiet = record {
    ticks = λ s' h. h;
    notes_address = λ s' t a given h b e. inr (t, given ∙ ap ok (noted a b e));
    notes_report = λ s' k b h. h;
    notes_stuck = λ s' k n p l h. h;
  }
    where
      noted : (a b : Text) → some a ≡ some b → a ≡ b
      noted a b e = cc

  -- If the gate is answered, then for an account that the processor has noted, or that the contract
  -- gave: where the chain is let through, the contract gave the next nonce and the node gave for this
  -- account a pending nonce that is at most this one, and the latest nonce; where it is not, the
  -- node gave for this account a pending nonce ahead of the one that the contract gave.
  pub chain_nonce_state_sound :
      (k : ℕ) (o : Option (ℕ × ℕ))
      → (chain_nonce_state env feeds k s).0 ≡ ok o
      → IsReady feeds IsOwn k o
  unfolding NotesOwn
  chain_nonce_state_sound k o h =
      by_outcome (chain_nonce_state env feeds k s).0 (chain_nonce_state env feeds k s).1 h (
        (chain_nonce_state-IsReady env feeds NotesOwn NotesOwn-IsQuiet IsOwn (λ s' a own e. own a e)
            (λ t a given. inr (t, given)) k).at
          s (λ a e. inl e))
    where
      by_outcome :
          (r : Outcome (Option (ℕ × ℕ))) (s' : Processor)
          → r ≡ ok o
          → Post (λ o s'. NotesOwn s' × IsReady feeds IsOwn k o) (λ _. NotesOwn) r s'
          → IsReady feeds IsOwn k o
      by_outcome (ok a) s' e p = subst (IsReady feeds IsOwn k) (ok-injective a o e) p.1
      by_outcome (raise x) s' e p = cc
