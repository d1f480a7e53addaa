-- ===== src/Sweep/Tests.antt =====
-- Runs of the sweep engine on the sample chain.
use privana.Prelude.{zero, suc, ◌<◌, arith, ℕ, ◌⊎◌, ◌≢◌, ◌≡◌, refl, List, [], ◌∷◌, none, some, true}
use privana.Text.{Text, codes, strip_prefix, remove_prefix, lower, lower_char, text_eq, is_nonempty}
use privana.Text.Hex.{AllBytes, hex_digit, to_hex, hex, is_hex_digit, digit_value}
use privana.Dict.{lookup, insert, remove}
use privana.Config.{find_config, build_chain_configs}
use privana.Effect.{Exn, ok, raise, fuel_out, ◌>>=◌, try_except}
use privana.Sweep.Record.{SweepRecord, is_swept, swept, post_init, initial_record}
use privana.Sweep.World.{
  Event, signed, sent, mined, credit_asked, credit_done, call, await, note, get_web3,
}
use privana.Sweep.Store.{
  parsed, read_file, get_record, save_record, delete_record, record_path, record_key, file_name,
}
use privana.Sweep.Gas.{
  get_safe_gas_price, min_sweep_gas_price, gas_funding_cap, gas_amount, choose_gas_price,
}
use privana.Sweep.Receipt.{wait_for_receipt, wait_rounds, poll}
use privana.Sweep.Engine.{
  sweep_native, check_balance, open_record, fund_gas, send_sweep, confirm_sweep, credit_and_close,
  idempotent_credit,
}
use privana.Sweep.Operations.{native, run, perform, fresh}
use privana.Sweep.Safety.Invariant.{IsSafe, Backed, HashBacked}
use privana.Sweep.Safety.Runs.{
  run-IsSafe, fresh-IsSafe, no_credit_without_sweep, swept_record-Backed,
}
use privana.Sweep.Record.Json.{to_dict, from_dict, known_fields, state_of}
use privana.Sweep.Store.Paths.{get_record-save_record}
use privana.Sweep.Receipt.Waiting.{wait_for_receipt_ends}
use privana.Sweep.Sample.{
  repeated, slow_env, slow-IsTimely, sample_env, sample-Rely, sample_configs, sample_args,
  sample_id, sample_record, sample_path, broken_env, broken-Rely,
}

-- What a native sweep of the sample deposit leaves in the history before its credit.
abbrev before_credit : List Event
before_credit =
    mined 1 (codes "0x02") 1
    ∷ sent 1 (2 ∷ []) (codes "0x02")
    ∷ signed (codes "0xB") 1 none 4_000_000_000_000_000 (2 ∷ [])
    ∷ mined 1 (codes "0x01") 1
    ∷ []

abbrev asked : Event
asked = credit_asked (codes "0xB") (9 ∷ []) 4_000_000_000_000_000 sample_id

abbrev done : Event
done = credit_done (codes "0xB") (9 ∷ []) 4_000_000_000_000_000 sample_id

sample_log :
    (run sample_env sample_configs (native sample_args ∷ []) fresh).log
    ≡ (done ∷ asked ∷ before_credit)
unfolding run perform sweep_native check_balance open_record fund_gas send_sweep confirm_sweep
    credit_and_close idempotent_credit wait_for_receipt wait_rounds poll get_safe_gas_price
    min_sweep_gas_price gas_funding_cap gas_amount choose_gas_price save_record delete_record
    record_path record_key file_name call await note get_web3 ◌>>=◌ try_except post_init
    initial_record find_config build_chain_configs lookup insert remove to_hex hex is_hex_digit
    digit_value strip_prefix remove_prefix lower lower_char text_eq is_nonempty
sample_log = refl

no_credit_without_sweep_example : Backed (codes "0xB") 4_000_000_000_000_000 before_credit
no_credit_without_sweep_example =
    no_credit_without_sweep sample_env sample-Rely sample_configs (native sample_args ∷ [])
      (done ∷ []) before_credit (codes "0xB") (9 ∷ []) 4_000_000_000_000_000 sample_id sample_log

run-IsSafe_example : IsSafe (run sample_env sample_configs (native sample_args ∷ []) fresh)
run-IsSafe_example =
    run-IsSafe sample_env sample-Rely sample_configs (native sample_args ∷ []) fresh fresh-IsSafe

-- After a credit that fails, the record stays on disk as SWEPT.
abbrev left : SweepRecord
left = record sample_record {
  state = swept;
  created_at = 4;
  gas_funding_tx_hash = some (codes "0x01");
  sweep_tx_hash = some (codes "0x02");
}

left_on_disk :
    parsed
      (lookup sample_path (run broken_env sample_configs (native sample_args ∷ []) fresh).files)
    ≡ ok (some left)
unfolding run perform sweep_native check_balance open_record fund_gas send_sweep confirm_sweep
    credit_and_close idempotent_credit wait_for_receipt wait_rounds poll get_safe_gas_price
    min_sweep_gas_price gas_funding_cap gas_amount choose_gas_price save_record delete_record
    record_path record_key file_name call await note get_web3 ◌>>=◌ try_except post_init
    initial_record find_config build_chain_configs lookup insert remove to_hex hex is_hex_digit
    digit_value strip_prefix remove_prefix lower lower_char text_eq is_nonempty read_file to_dict
    from_dict known_fields state_of
left_on_disk = refl

swept_record-Backed_example :
    (is_swept swept ≡ true
      → Backed
          (codes "0xB")
          4_000_000_000_000_000
          (run broken_env sample_configs (native sample_args ∷ []) fresh).log)
    × ((hash : Text)
        → some (codes "0x02") ≡ some hash
        → HashBacked left hash (run broken_env sample_configs (native sample_args ∷ []) fresh).log)
swept_record-Backed_example =
    swept_record-Backed broken_env broken-Rely sample_configs (native sample_args ∷ []) sample_path
      left left_on_disk

-- Three polls on the slow chain.
waited : (wait_for_receipt slow_env 1 (codes "0x02") fresh).0 ≡ ok 1
unfolding wait_for_receipt wait_rounds poll call await ◌>>=◌ try_except
waited = refl

wait_for_receipt_ends_example :
    ((status : ℕ) × (((wait_for_receipt slow_env 1 (codes "0x02") fresh).0 ≡ ok status)
        × ((t : ℕ) × (slow_env.transaction_receipt t 1 (codes "0x02") ≡ ok (some status)))))
    ⊎ ((e : Exn) × (((wait_for_receipt slow_env 1 (codes "0x02") fresh).0 ≡ raise e)
          × (e ≢ fuel_out)))
wait_for_receipt_ends_example = wait_for_receipt_ends slow_env slow-IsTimely 1 (codes "0x02") fresh

repeated-AllBytes : (n b : ℕ) → b < 256 → AllBytes (repeated n b)
repeated-AllBytes zero b h = tt
repeated-AllBytes (suc n) b h = (h, repeated-AllBytes n b h)

sample_record-id : sample_record.deposit_id_hex ≡ to_hex sample_id
unfolding to_hex hex hex_digit
sample_record-id = refl

get_record-save_record_example :
    (get_record (to_hex sample_id) (save_record sample_record fresh).1).0 ≡ ok (some sample_record)
unfolding text_eq post_init is_nonempty
get_record-save_record_example =
    get_record-save_record sample_id sample_id (repeated-AllBytes 32 7 (omega arith))
      (repeated-AllBytes 32 7 (omega arith)) refl refl sample_record fresh sample_record-id
