-- ===== src/Deposit/Reports.antt =====
-- What a client is told of a sweep, and what an error on a record means.
use privana.Prelude.{
  ℕ, ◌<◌, ◌≡◌, refl, ◌∙◌, inl, inr, Bool, true, false, none, some, arith, Bool-cases, Option-cases,
  if◌then◌else◌,
}
use privana.Text.{Text, lower, text_eq, is_nonempty, text_eq_refl}
use privana.Dict.{lookup, lookup-insert}
use privana.Config.{
  find_config, build_chain_configs, is_accepted-IsSound, find_config-accepted,
  build_chain_configs-accepted,
}
use privana.Effect.{ok, ◌>>=◌}
use privana.Sweep.Record.{SweepRecord, is_set}
use privana.Sweep.World.{Engine}
use privana.Sweep.Store.{
  record_path, save_record, get_record, persist_error, parsed, parsed-some, read_file-saved,
  read_file-valid,
}
use privana.Sweep.Gas.{gas_amount, gas_funding_cap}
use privana.Deposit.Processor.{pending, error, get_deposit_status, record_response, min_deposit}

module _ (s : Engine) (id path : Text) (r : SweepRecord) (at_path : record_path id ≡ ok path)
    (saved : parsed (lookup path s.files) ≡ ok (some r)) where
  abbrev flagged : Text → SweepRecord
  flagged message = record r { error = some message }

  -- For a record on disk with no broadcast sweep, saved under its own id, `persist_error` stores
  -- the error, and its beneficiary is then told "error" with the message exactly when the message
  -- is not empty; an error whose text is empty is reported as "pending".
  pub error_is_reported :
      (message beneficiary : Text)
      → is_set r.sweep_tx_hash ≡ false
      → record_path r.deposit_id_hex ≡ ok path
      → text_eq (lower r.beneficiary) (lower beneficiary) ≡ true
      → (get_deposit_status id beneficiary (persist_error id message s).1).0
        ≡ ok (
            some (
              if is_nonempty message
              then record_response id error r (some message)
              else record_response id pending r none))
  unfolding persist_error get_deposit_status get_record save_record ◌>>=◌ is_set
  error_is_reported message beneficiary unsent own_path own =
      let (f, _, read) = parsed-some (lookup path s.files) r saved in
      let again = read_file-saved (flagged message) ∙ read_file-valid f r (some message) read in
      simp (at_path, saved, unsent, own_path, lookup-insert, text_eq_refl, again, own)
        (elim (Bool-cases (is_nonempty message)) [ inl e ↦ rw e refl | inr e ↦ rw e refl ])

ok-injective : {A : Type 0} (a b : A) → ok a ≡ ok b → a ≡ b
ok-injective a b h = cc

-- No gas funding transfer can pass for a deposit of the native token: on every configured chain,
-- whatever the gas limit, the gas price and the L1 fee, the amount that a sweep is funded with is
-- below the least native deposit that `process_deposit` accepts there.
pub gas_amount-lt-min_deposit :
    (localnet : Bool) (k gas_limit price fee top : ℕ)
    → gas_funding_cap (build_chain_configs localnet) k ≡ ok top
    → gas_amount gas_limit price fee top < min_deposit (build_chain_configs localnet) k true
unfolding gas_funding_cap gas_amount min_deposit
gas_amount-lt-min_deposit localnet k gas_limit price fee top e =
    elim (Option-cases (find_config k (build_chain_configs localnet))) [
      | inl absent ↦ cc (rw (absent, gas_funding_cap) at e)
      | inr (c, found) ↦
          let sound = is_accepted-IsSound c (
            find_config-accepted k (build_chain_configs localnet) c
              (build_chain_configs-accepted localnet) found) in
          let same : c.gas_funding_amount_wei ≡ top =
            ok-injective _ _ (rw (found, gas_funding_cap) at e) in
          rw (found, min_deposit) (omega (arith, sound.cap_below_min))
    ]
