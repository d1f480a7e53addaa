-- ===== src/Sweep/Record/Json.antt =====
-- src/services/sweep_engine.py: `SweepRecord.to_dict` and `SweepRecord.from_dict`, between records and JSON objects.
-- A value of a type that a field is not declared with is refused, where Python would carry it along, and
-- so is a missing created_at, for which Python takes the time of the reading; the service writes
-- neither.
use privana.Prelude.{
  ℕ, ◌≡◌, refl, sym, ap, ◌∙◌, true, false, Option, none, some, [], ◌∷◌, leb, if◌then◌else◌,
  Bool-cases, inl, inr,
}
use privana.Text.{Text, codes, text_eq, is_nonempty}
use privana.Dict.{Dict, lookup}
use privana.Effect.{Outcome, ok, raise, value_error, not_found, then_do, ok-injective}
use privana.Sweep.Record.{SweepState, pending, gas_funded, swept, SweepRecord, post_init}

pub data Json : Type 0 where
  str : Text → Json
  num : ℕ → Json
  null other : Json

abbrev pub state_value : SweepState → Text
state_value pending = codes "pending"
state_value gas_funded = codes "gas_funded"
state_value swept = codes "swept"

abbrev pub optional : Option Text → Json
optional none = null
optional (some t) = str t

-- `to_dict`
unfoldable pub to_dict : SweepRecord → Dict Json
to_dict r =
    (codes "deposit_address", str r.deposit_address)
    ∷ (codes "chain_id", num r.chain_id)
    ∷ (codes "state", str (state_value r.state))
    ∷ (codes "beneficiary", str r.beneficiary)
    ∷ (codes "chain_type", str r.chain_type)
    ∷ (codes "version", num r.version)
    ∷ (codes "amount", num r.amount)
    ∷ (codes "token_id_hex", str r.token_id_hex)
    ∷ (codes "token_address", optional r.token_address)
    ∷ (codes "deposit_id_hex", str r.deposit_id_hex)
    ∷ (codes "source_tx_hash", str r.source_tx_hash)
    ∷ (codes "deposit_index", num r.deposit_index)
    ∷ (codes "sweep_tx_hash", optional r.sweep_tx_hash)
    ∷ (codes "gas_funding_tx_hash", optional r.gas_funding_tx_hash)
    ∷ (codes "created_at", num r.created_at)
    ∷ (codes "retry_count", num r.retry_count)
    ∷ (codes "error", optional r.error)
    ∷ []

-- `SweepState(value)`
unfoldable pub state_of : Text → Outcome SweepState
unfolding text_eq
state_of t =
    if text_eq t (codes "pending")
    then ok pending
    else if text_eq t (codes "gas_funded")
    then ok gas_funded
    else if text_eq t (codes "swept")
    then ok swept
    else raise (value_error (codes "not a valid SweepState"))

abbrev pub missing : {A : Type 0} → Outcome A
missing = raise (not_found (codes "missing field"))

abbrev pub wrong_type : {A : Type 0} → Outcome A
wrong_type = raise (value_error (codes "wrong type of a field"))

-- A field, with its default where it has one.
abbrev pub text_field : Outcome Text → Option Json → Outcome Text
text_field default none = default
text_field default (some (str t)) = ok t
text_field default (some (num n)) = wrong_type
text_field default (some null) = wrong_type
text_field default (some other) = wrong_type

abbrev pub number_field : Outcome ℕ → Option Json → Outcome ℕ
number_field default none = default
number_field default (some (num n)) = ok n
number_field default (some (str t)) = wrong_type
number_field default (some null) = wrong_type
number_field default (some other) = wrong_type

abbrev pub optional_field : Option Json → Outcome (Option Text)
optional_field none = ok none
optional_field (some null) = ok none
optional_field (some (str t)) = ok (some t)
optional_field (some (num n)) = wrong_type
optional_field (some other) = wrong_type

-- The fields of the object that are known; all others are passed over.
unfoldable pub known_fields : Dict Json → Outcome SweepRecord
unfolding lookup state_of
known_fields d = then_do (text_field missing (lookup (codes "state") d)) λ state_text.
    then_do (state_of state_text) λ state.
      then_do (text_field missing (lookup (codes "deposit_address") d)) λ deposit_address.
        then_do (number_field missing (lookup (codes "chain_id") d)) λ chain_id.
          then_do (text_field missing (lookup (codes "beneficiary") d)) λ beneficiary.
            then_do (text_field missing (lookup (codes "chain_type") d)) λ chain_type.
              then_do (number_field missing (lookup (codes "version") d)) λ version.
                then_do (number_field (ok 0) (lookup (codes "amount") d)) λ amount.
                  then_do (text_field (ok []) (lookup (codes "token_id_hex") d)) λ token_id_hex.
                    then_do (optional_field (lookup (codes "token_address") d)) λ token_address.
                      then_do (text_field (ok []) (lookup (codes "deposit_id_hex") d))
                        λ deposit_id_hex.
                          then_do (text_field (ok []) (lookup (codes "source_tx_hash") d))
                            λ source_tx_hash.
                              then_do (number_field (ok 0) (lookup (codes "deposit_index") d))
                                λ deposit_index.
                                  then_do (optional_field (lookup (codes "sweep_tx_hash") d))
                                    λ sweep_tx_hash.
                                      then_do
                                        (optional_field (lookup (codes "gas_funding_tx_hash") d))
                                        λ gas_funding_tx_hash.
                                          then_do
                                            (number_field missing (lookup (codes "created_at") d))
                                            λ created_at.
                                              then_do
                                                (number_field (ok 0)
                                                  (lookup (codes "retry_count") d))
                                                λ retry_count.
                                                  then_do
                                                    (optional_field (lookup (codes "error") d))
                                                    λ error. ok (record {
                                                      deposit_address = deposit_address;
                                                      chain_id = chain_id;
                                                      state = state;
                                                      beneficiary = beneficiary;
                                                      chain_type = chain_type;
                                                      version = version;
                                                      amount = amount;
                                                      token_id_hex = token_id_hex;
                                                      token_address = token_address;
                                                      deposit_id_hex = deposit_id_hex;
                                                      source_tx_hash = source_tx_hash;
                                                      deposit_index = deposit_index;
                                                      sweep_tx_hash = sweep_tx_hash;
                                                      gas_funding_tx_hash = gas_funding_tx_hash;
                                                      created_at = created_at;
                                                      retry_count = retry_count;
                                                      error = error;
                                                    })

-- `from_dict`, with the checks of `__post_init__`
unfoldable pub from_dict : Dict Json → Outcome SweepRecord
unfolding known_fields post_init
from_dict d = then_do (known_fields d) post_init

optional_field-optional : (o : Option Text) → optional_field (some (optional o)) ≡ ok o
optional_field-optional none = refl
optional_field-optional (some t) = refl

state_of-state_value : (s : SweepState) → state_of (state_value s) ≡ ok s
unfolding state_of text_eq
state_of-state_value pending = refl
state_of-state_value gas_funded = refl
state_of-state_value swept = refl

-- What `to_dict` writes is read back, and checked.
pub from_dict-to_dict : (r : SweepRecord) → from_dict (to_dict r) ≡ post_init r
unfolding from_dict to_dict known_fields lookup text_eq
from_dict-to_dict r =
    rw
      (
        state_of-state_value r.state,
        optional_field-optional r.token_address,
        optional_field-optional r.sweep_tx_hash,
        optional_field-optional r.gas_funding_tx_hash,
        optional_field-optional r.error,
      )
      refl

-- What the checks let through, which they leave as it is.
pub post_init-ok :
    (r x : SweepRecord)
    → post_init r ≡ ok x
    → (leb r.chain_id 0 ≡ false)
      × (is_nonempty r.deposit_address ≡ true)
      × (is_nonempty r.beneficiary ≡ true)
      × (r ≡ x)
unfolding post_init
post_init-ok r x h = elim (Bool-cases (leb r.chain_id 0)) [
  | inl e ↦
      let impossible : raise (value_error (codes "chain_id must be positive")) ≡ ok x =
        rw (post_init, e) at h in
      cc
  | inr e ↦ elim (Bool-cases (is_nonempty r.deposit_address)) [
    | inr e2 ↦
        let impossible : raise (value_error (codes "deposit_address required")) ≡ ok x =
          rw (post_init, e, e2) at h in
        cc
    | inl e2 ↦ elim (Bool-cases (is_nonempty r.beneficiary)) [
      | inr e3 ↦
          let impossible : raise (value_error (codes "beneficiary required")) ≡ ok x =
            rw (post_init, e, e2, e3) at h in
          cc
      | inl e3 ↦ (e, e2, e3, ok-injective r x (rw (post_init, e, e2, e3) at h))
    ]
  ]
]

-- A record that is read back has passed the checks, and passes them with any error on it.
pub from_dict-valid :
    (d : Dict Json) (r : SweepRecord) (error : Option Text)
    → from_dict d ≡ ok r
    → post_init (record r { error = error }) ≡ ok (record r { error = error })
unfolding from_dict
from_dict-valid d r error h = by_fields (known_fields d) h
  where
    by_fields :
        (o : Outcome SweepRecord)
        → then_do o post_init ≡ ok r
        → post_init (record r { error = error }) ≡ ok (record r { error = error })
    by_fields (raise e) k = cc
    by_fields (ok q) k =
        let (positive, address, user, same) = post_init-ok q r k in
        rw
          (
            post_init,
            ap (λ x. leb x.chain_id 0) (sym same) ∙ positive,
            ap (λ x. is_nonempty x.deposit_address) (sym same) ∙ address,
            ap (λ x. is_nonempty x.beneficiary) (sym same) ∙ user,
          )
          refl
