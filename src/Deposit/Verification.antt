-- ===== src/Deposit/Verification.antt =====
-- What a successful verification shows about the chain.
use mathlib.Core.Path.{subst}
use privana.Prelude.{
  ℕ, ◌+◌, ◌≤◌, ◌<◌, ◌≡◌, refl, ◌⊎◌, inl, inr, Bool, true, false, ◌&&◌, Option, none, some, List, [],
  ◌∷◌, arith, Has, ltb, ◌==◌, Bool-cases, if◌then◌else◌,
}
use privana.Text.{Text}
use privana.Config.{ChainConfig, get_finality_depth}
use privana.Effect.{Outcome, ok, raise}
use privana.Deposit.Verifier.{
  VerifiedDeposit, Raw, LogEntry, Receipt, Answers, Claim, topics_match, matching_transfers,
  first_at_index, choose_transfer, transfer_amount, raw_hex, receives, by_balances, by_transaction,
  by_transfers, by_latest, by_receipt, erc20_deposit, native_deposit, accept_transfer,
  verify_native, verify_deposit, then_with,
}

-- A transfer in the logs to the deposit address covers the claim.
pub record TransferCovers (c : Claim) (logs : List LogEntry) (d : VerifiedDeposit) : Type 0 where
  pub entry : LogEntry
  pub amount : ℕ
  pub in_logs : Has entry logs
  pub to_address : topics_match c.deposit_address entry.topics ≡ true
  pub decoded : transfer_amount entry.value ≡ ok amount
  pub covers : c.expected_amount ≤ amount
  pub is_erc20 : d.is_native ≡ false
  pub index : d.deposit_index ≡ entry.log_index
  pub token : d.token_address ≡ some (raw_hex entry.address)

-- The transaction itself pays the deposit address the claimed amount, and not nothing.
pub record PaymentCovers (c : Claim) (n : Answers) : Type 0 where
  pub to : Option Raw
  pub value : ℕ
  pub answered : n.transaction ≡ ok (to, value)
  pub to_address : receives c to ≡ true
  pub positive : 0 < value
  pub covers : c.expected_amount ≤ value

-- The balance of the deposit address grew over the block by the claimed amount.
pub record GrowthCovers (c : Claim) (n : Answers) : Type 0 where
  pub before : ℕ
  pub after : ℕ
  pub answered_before : n.balance_before ≡ ok before
  pub answered_after : n.balance_after ≡ ok after
  pub covers : before + c.expected_amount ≤ after

-- No log is a transfer to the deposit address, and the chain covers a native claim.
pub record NativeCovers (c : Claim) (n : Answers) (logs : List LogEntry) (d : VerifiedDeposit)
    : Type 0 where
  pub no_transfer : matching_transfers c.deposit_address logs ≡ []
  pub claimed_native : c.log_index ≡ 0
  pub is_native : d.is_native ≡ true
  pub index : d.deposit_index ≡ 0
  pub paid : PaymentCovers c n ⊎ GrowthCovers c n

-- What the chain shows for a verified deposit.
pub record Evidence (configs : List ChainConfig) (c : Claim) (n : Answers) (d : VerifiedDeposit)
    : Type 0 where
  pub receipt : Receipt
  pub latest : ℕ
  pub found : n.receipt ≡ ok (some receipt)
  pub succeeded : receipt.status ≡ 1
  pub seen : n.latest_block ≡ ok latest
  pub final : receipt.block_number + get_finality_depth configs c.chain_id ≤ latest
  pub claimed_amount : d.amount ≡ c.expected_amount
  pub same_tx : (d.tx_hash ≡ c.tx_hash) × (d.chain_id ≡ c.chain_id)
  pub covered : TransferCovers c receipt.logs d ⊎ NativeCovers c n receipt.logs d

then_with-ok :
    {A B : Type 0} (o : Outcome A) (f : A → Outcome B) (b : B)
    → then_with o f ≡ ok b
    → (a : A) × (o ≡ ok a) × (f a ≡ ok b)
then_with-ok (ok a) f b h = (a, refl, h)
then_with-ok (raise e) f b h = cc

first_at_index-Has :
    (i : ℕ) (es : List LogEntry) (e : LogEntry) → first_at_index i es ≡ ok e → Has e es
unfolding first_at_index
first_at_index-Has i [] e h = cc
first_at_index-Has i (d ∷ es) e h = ground (arith, first_at_index-Has i es e)

choose_transfer-Has :
    (i : ℕ) (d : LogEntry) (es : List LogEntry) (e : LogEntry)
    → choose_transfer i d es ≡ ok e
    → Has e (d ∷ es)
unfolding choose_transfer
choose_transfer-Has i d [] e h = ground arith
choose_transfer-Has i d (x ∷ es) e h = first_at_index-Has i (d ∷ x ∷ es) e h

matching_transfers-Has :
    (a : Text) (es : List LogEntry) (e : LogEntry)
    → Has e (matching_transfers a es)
    → Has e es × (topics_match a e.topics ≡ true)
unfolding matching_transfers
matching_transfers-Has a [] e h = absurd h
matching_transfers-Has a (d ∷ es) e h =
    kept (matching_transfers-Has a es e) (topics_match a d.topics) refl h
  where
    kept :
        (Has e (matching_transfers a es) → Has e es × (topics_match a e.topics ≡ true))
        → (b : Bool) → topics_match a d.topics ≡ b
        → Has e (if b then d ∷ matching_transfers a es else matching_transfers a es)
        → Has e (d ∷ es) × (topics_match a e.topics ≡ true)
    kept ih true m (inl p) = (inl p, subst (λ (x : LogEntry). topics_match a x.topics ≡ true) p m)
    kept ih true m (inr k) = let r = ih k in (inr r.0, r.1)
    kept ih false m k = let r = ih k in (inr r.0, r.1)

module _ (c : Claim) (block : ℕ) (n : Answers) (d : VerifiedDeposit) where
  abbrev IsClaimed : Type 0
  IsClaimed = (d.amount ≡ c.expected_amount) × (d.tx_hash ≡ c.tx_hash) × (d.chain_id ≡ c.chain_id)

  accept_transfer-ok :
      (e : LogEntry)
      → accept_transfer c block e ≡ ok d
      → (v : ℕ) × (transfer_amount e.value ≡ ok v)
        × (c.expected_amount ≤ v)
        × (d ≡ erc20_deposit c e block)
  unfolding accept_transfer
  accept_transfer-ok e h =
      let (v, dec, k) = then_with-ok _ _ d h in (v, dec, ground arith, ground arith)

  by_balances-ok : by_balances c block n ≡ ok d → (d ≡ native_deposit c block) × GrowthCovers c n
  unfolding by_balances
  by_balances-ok h =
      let (before, p, k) = then_with-ok _ _ d h in
      let (after, q, l) = then_with-ok _ _ d k in
      (
        ground arith,
        record {
          before = before;
          after = after;
          answered_before = p;
          answered_after = q;
          covers = ground arith;
        },
      )

  by_transaction-ok :
      (tx : Option Raw × ℕ)
      → n.transaction ≡ ok tx
      → by_transaction c block n tx ≡ ok d
      → (d ≡ native_deposit c block) × (PaymentCovers c n ⊎ GrowthCovers c n)
  unfolding by_transaction
  by_transaction-ok (to, value) e h = elim (Bool-cases (receives c to && ltb 0 value)) [
    | inl direct ↦
        let k = rw direct at h in
        (
          ground arith,
          inl (record {
            to = to;
            value = value;
            answered = e;
            to_address = ground arith;
            positive = ground arith;
            covers = ground arith;
          }),
        )
    | inr other ↦ let k = by_balances-ok (rw other at h) in (k.0, inr k.1)
  ]

  verify_native-ok :
      verify_native c block n ≡ ok d
      → (c.log_index ≡ 0) × (d ≡ native_deposit c block) × (PaymentCovers c n ⊎ GrowthCovers c n)
  unfolding verify_native
  verify_native-ok h = elim (Bool-cases (c.log_index == 0)) [
    | inl zeroth ↦
        let (tx, e, k) = then_with-ok _ _ d (rw zeroth at h) in
        let r = by_transaction-ok tx e k in (ground arith, r.0, r.1)
    | inr other ↦ cc (rw other at h)
  ]

  by_transfers-ok :
      (logs : List LogEntry) (es : List LogEntry)
      → matching_transfers c.deposit_address logs ≡ es
      → by_transfers c block n es ≡ ok d
      → IsClaimed × (TransferCovers c logs d ⊎ NativeCovers c n logs d)
  by_transfers-ok logs [] m h =
      let r = verify_native-ok h in
      (
        (cc r.1, cc r.1, cc r.1),
        inr (record {
          no_transfer = m;
          claimed_native = r.0;
          is_native = cc r.1;
          index = cc r.1;
          paid = r.2;
        }),
      )
  by_transfers-ok logs (e ∷ es) m h =
      let (chosen, p, k) =
        then_with-ok (choose_transfer c.log_index e es) (accept_transfer c block) d h in
      let (v, dec, cov, same) = accept_transfer-ok chosen k in
      let (held, addressed) =
        matching_transfers-Has c.deposit_address logs chosen
          (rw m (choose_transfer-Has c.log_index e es chosen p)) in
      (
        (cc same, cc same, cc same),
        inl (record {
          entry = chosen;
          amount = v;
          in_logs = held;
          to_address = addressed;
          decoded = dec;
          covers = cov;
          is_erc20 = cc same;
          index = cc same;
          token = cc same;
        }),
      )

module _ (configs : List ChainConfig) (c : Claim) (n : Answers) (d : VerifiedDeposit) where
  by_receipt-ok :
      (o : Option Receipt)
      → n.receipt ≡ ok o
      → by_receipt configs c n o ≡ ok d
      → Evidence configs c n d
  by_receipt-ok none e h = cc
  by_receipt-ok (some r) e h = elim (Bool-cases (r.status == 1)) [
    | inl good ↦
        let (latest, p, k) =
          then_with-ok n.latest_block (by_latest configs c n r) d (rw good at h) in
        elim (Bool-cases (ltb latest (r.block_number + get_finality_depth configs c.chain_id))) [
          | inl early ↦ cc (rw early at k)
          | inr late ↦
              let (same, covered) =
                by_transfers-ok c r.block_number n d r.logs _ refl (rw late at k) in
              record {
                receipt = r;
                latest = latest;
                found = e;
                succeeded = ground arith;
                seen = p;
                final = ground arith;
                claimed_amount = same.0;
                same_tx = (same.1, same.2);
                covered = covered;
              }
        ]
    | inr bad ↦ cc (rw bad at h)
  ]

  -- A deposit is verified only on evidence: the transaction's receipt has status 1 and the
  -- chain's finality depth of blocks above it; the amount is the claimed one, for the claimed
  -- transaction and chain; and either a Transfer log of the receipt to the deposit address has at
  -- least that amount (its index and token are the deposit's), or no log is such a transfer, the
  -- claim is a native one, and the transaction pays the address at least that amount or the
  -- address's balance grew over the block by at least that amount.
  pub verify_deposit_sound : verify_deposit configs c n ≡ ok d → Evidence configs c n d
  unfolding verify_deposit
  verify_deposit_sound h = elim (Bool-cases n.served) [
    | inl yes_served ↦
        let (o, p, k) = then_with-ok _ _ d (rw yes_served at h) in by_receipt-ok o p k
    | inr not_served ↦ cc (rw not_served at h)
  ]
