-- ===== src/Deposit/Discovery/Verdicts.antt =====
-- src/services/deposit_discovery.py: what `_classify` lets through.
use privana.Prelude.{
  ℕ, ◌≡◌, refl, sym, ap, subst, ◌∙◌, ◌⊎◌, inl, inr, true, false, Option, none, some, Bool-cases,
  Option-cases,
}
use privana.Text.{Text, codes, text_eq, lower, remove_prefix}
use privana.Text.Hex.{Bytes, to_hex, from_hex}
use privana.Dict.{Dict, lookup}
use privana.Effect.{ok, ok-injective}
use privana.Sweep.Record.{SweepRecord}
use privana.Sweep.Store.{get_record}
use privana.Deposit.Verifier.{then_with-ok}
use privana.Deposit.Discovery.{
  Status, discovered, processing, DiscoveredDeposit, Candidate, Sources, Query,
}
use privana.Deposit.Discovery.Scan.{status_by_record, decoded_id, by_status, deposit_of, classify}

module _ (n : Sources) (q : Query) (k : ℕ) (c : Candidate) (d : DiscoveredDeposit) where
  -- The deposit is of the candidate, and it is not credited, or the user's own sweep is on its way.
  abbrev pub Claimable : Bytes → Type 0
  Claimable id =
      ((d.status ≡ discovered)
        × (d.deposit_id_hex ≡ none)
        × (n.is_deposit_processed k id ≡ ok false))
      ⊎ ((d.status ≡ processing)
          × (d.deposit_id_hex ≡ some (to_hex id))
          × ((r : SweepRecord) × ((get_record (to_hex id) (n.engine k)).0 ≡ ok (some r))
              × (text_eq (lower r.beneficiary) (lower q.beneficiary) ≡ true)))

  status-own :
      (o : Option SweepRecord)
      → status_by_record q.beneficiary o ≡ some processing
      → (r : SweepRecord) × (o ≡ some r)
        × (text_eq (lower r.beneficiary) (lower q.beneficiary) ≡ true)
  unfolding status_by_record
  status-own none h = cc
  status-own (some r) h = elim (Bool-cases (text_eq (lower r.beneficiary) (lower q.beneficiary))) [
    | inl same ↦ (r, refl, same)
    | inr other ↦ let impossible : none ≡ some processing = rw other at h in cc
  ]

  by_status-Claimable :
      (token_id_hex : Text) (id : Bytes) (o : Option SweepRecord) (s : Option Status)
      → (get_record (to_hex id) (n.engine k)).0 ≡ ok o
      → status_by_record q.beneficiary o ≡ s
      → by_status n q k c token_id_hex id s ≡ ok (some d)
      → (d.tx_hash ≡ c.tx_hash)
        × (d.log_index ≡ c.log_index)
        × (d.amount ≡ c.amount)
        × (d.token_id_hex ≡ token_id_hex)
        × Claimable id
  by_status-Claimable token_id_hex id o none read says h = cc
  by_status-Claimable token_id_hex id o (some processing) read says h =
      let (checked, _, made) = then_with-ok (n.to_checksum_address c.token_address) _ (some d) h in
      let same : deposit_of n q c checked token_id_hex processing (some (to_hex id)) ≡ d =
        cc (ok-injective _ _ made) in
      let (r, is_r, own) = status-own o says in
      rw (← same) (refl, refl, refl, refl, inr (refl, refl, (r, read ∙ ap ok is_r, own)))
  by_status-Claimable token_id_hex id o (some discovered) read says h =
      let (is_processed, asked, rest) = then_with-ok (n.is_deposit_processed k id) _ (some d) h in
      elim (Bool-cases is_processed) [
        | inl credited ↦ let impossible : ok none ≡ ok (some d) = rw credited at rest in cc
        | inr open_yet ↦
            let (checked, _, made) =
              then_with-ok (n.to_checksum_address c.token_address) _ (some d)
                (rw open_yet at rest) in
            let same : deposit_of n q c checked token_id_hex discovered none ≡ d =
              cc (ok-injective _ _ made) in
            rw (← same) (refl, refl, refl, refl, inl (refl, refl, asked ∙ ap ok open_yet))
      ]

  -- A deposit that is reported for a candidate has its transaction, its log index and its amount, is of a
  -- registered token and has the id that these make, and either
  -- it is reported as new, and then the contract has not processed its id, or it is reported as being
  -- processed, with its id, and then the sweep engine has a record of the same user for it.
  pub classify-Claimable :
      (ids : Dict Text)
      → classify n q ids k c ≡ ok (some d)
      → (token_id : Bytes) × (id : Bytes) × (lookup (lower c.token_address) ids
          ≡ some d.token_id_hex)
        × (from_hex (remove_prefix (codes "0x") d.token_id_hex) ≡ some token_id)
        × (d.tx_hash ≡ c.tx_hash)
        × (d.log_index ≡ c.log_index)
        × (d.amount ≡ c.amount)
        × (n.deposit_id q.chain_id d.tx_hash token_id d.log_index ≡ ok id)
        × Claimable id
  unfolding classify
  classify-Claimable ids h = elim (Option-cases (lookup (lower c.token_address) ids)) [
    | inl unknown ↦ let impossible : ok none ≡ ok (some d) = rw (classify, unknown) at h in cc
    | inr (token_id_hex, known) ↦
        let (token_id, parsed, h1) =
          then_with-ok (decoded_id (from_hex (remove_prefix (codes "0x") token_id_hex))) _ (some d)
            (rw (classify, known) at h) in
        let (id, hashed, h2) =
          then_with-ok (n.deposit_id q.chain_id c.tx_hash token_id c.log_index) _ (some d) h1 in
        let (o, read, h3) = then_with-ok (get_record (to_hex id) (n.engine k)).0 _ (some d) h2 in
        let (tx, index, amount, token, claimable) =
          by_status-Claimable token_id_hex id o _ read refl h3 in
        (
          token_id,
          id,
          known ∙ ap some (sym token),
          ap (λ x. from_hex (remove_prefix (codes "0x") x)) token
              ∙ decoded-some (from_hex (remove_prefix (codes "0x") token_id_hex)) token_id parsed,
          tx,
          index,
          amount,
          subst (λ x. n.deposit_id q.chain_id x token_id d.log_index ≡ ok id) (sym tx)
              (subst (λ i. n.deposit_id q.chain_id c.tx_hash token_id i ≡ ok id) (sym index)
                hashed),
          claimable,
        )
  ]
    where
      decoded-some : (o : Option Bytes) (b : Bytes) → decoded_id o ≡ ok b → o ≡ some b
      decoded-some none b e = cc
      decoded-some (some a) b e = ap some (ok-injective _ _ e)
