-- ===== src/Deposit/Tests.antt =====
-- A deposit of tokens on the sample chain, from its verification to its sweep and its status.
use privana.Prelude.{◌<◌, ◌≡◌, refl, [], ◌∷◌, none, some, true, false}
use privana.Text.{Text, codes, strip_prefix, remove_prefix, lower, lower_char, text_eq, is_nonempty}
use privana.Text.Hex.{to_hex, hex, is_hex_digit, digit_value}
use privana.Dict.{lookup}
use privana.Config.{find_config, build_chain_configs, get_finality_depth}
use privana.Effect.{ok, ◌>>=◌, try_except}
use privana.Sweep.Record.{is_set}
use privana.Sweep.World.{call, await}
use privana.Sweep.Store.{
  read_file, record_path, record_key, file_name, get_record, cleanup_record, persist_error,
}
use privana.Sweep.Gas.{gas_amount, gas_funding_cap}
use privana.Sweep.Operations.{fresh}
use privana.Sweep.Sample.{
  sample_env, sample_configs, sample_id, sample_id_hex, sample_path, sample_record, engine_with,
}
use privana.Deposit.Verifier.{
  VerifiedDeposit, text, LogEntry, Answers, Claim, transfer_event_topic, topics_match,
  topic_address, matching_transfers, first_at_index, choose_transfer, transfer_amount,
  accept_transfer, raw_hex, hex_number, last, drop, verify_deposit, erc20_deposit,
}
use privana.Deposit.Verification.{Evidence, verify_deposit_sound}
use privana.Deposit.Processor.{
  Request, Services, Task, pending, error, contains, has_config, min_deposit, claim_of, response,
  task_of, check_claim, start_sweep, process_deposit, record_response, get_deposit_status,
}
use privana.Deposit.Claims.{IsChecked, started_sweep-IsChecked}
use privana.Sweep.Record.Json.{to_dict}
use privana.Deposit.Reports.{error_is_reported, gas_amount-lt-min_deposit}

abbrev sample_address : Text
sample_address = codes "0xabcdefabcdefabcdefabcdefabcdefabcdefabcd"

abbrev sample_request : Request
sample_request = record {
  chain_type = codes "evm";
  chain_id = 1;
  tx_hash = codes "0x11";
  amount = 5_000_000;
  log_index = 4;
  version = 1;
  user_address = codes "0xB";
  token = [];
}

abbrev transfer : LogEntry
transfer = record {
  topics =
      text transfer_event_topic
      ∷ text (codes "0x0000000000000000000000000000000000000000000000000000000000000001")
      ∷ text (codes "0x000000000000000000000000abcdefabcdefabcdefabcdefabcdefabcdefabcd")
      ∷ [];
  log_index = 4;
  value = text (codes "0x4c4b40");
  address = text (codes "0xA0");
}

abbrev sample_answers : Answers
sample_answers = record {
  served = true;
  receipt = ok (some (record { status = 1; block_number = 10; logs = transfer ∷ [] }));
  latest_block = ok 100;
  transaction = ok (none, 0);
  balance_before = ok 0;
  balance_after = ok 0;
}

abbrev sample_services : Services
sample_services = record {
  get_deposit_address = λ t ct v token. ok sample_address;
  answers = λ t c. sample_answers;
  get_token_id = λ t k token. ok (9 ∷ []);
  is_token_registered = λ t token. ok true;
  deposit_id = λ k hash token index. ok sample_id;
}

abbrev sample_claim : Claim
sample_claim = claim_of sample_request sample_address

abbrev sample_deposit : VerifiedDeposit
sample_deposit = erc20_deposit sample_claim transfer 10

is_verified : verify_deposit sample_configs sample_claim sample_answers ≡ ok sample_deposit
unfolding verify_deposit find_config build_chain_configs get_finality_depth topics_match
    topic_address matching_transfers first_at_index choose_transfer transfer_amount accept_transfer
    raw_hex hex_number digit_value last drop to_hex hex remove_prefix strip_prefix lower lower_char
    text_eq is_nonempty
is_verified = refl

verify_deposit_sound_example : Evidence sample_configs sample_claim sample_answers sample_deposit
verify_deposit_sound_example =
    verify_deposit_sound sample_configs sample_claim sample_answers sample_deposit is_verified

abbrev sample_task : Task
sample_task = task_of sample_request sample_address (9 ∷ []) sample_id sample_deposit

is_started :
    (process_deposit sample_env sample_services sample_configs sample_request fresh).0
    ≡ ok (response pending sample_id sample_deposit, some sample_task)
unfolding process_deposit check_claim start_sweep contains has_config min_deposit get_record
    record_path record_key file_name cleanup_record call await ◌>>=◌ try_except lookup is_set
    is_hex_digit verify_deposit find_config build_chain_configs get_finality_depth topics_match
    topic_address matching_transfers first_at_index choose_transfer transfer_amount accept_transfer
    raw_hex hex_number digit_value last drop to_hex hex remove_prefix strip_prefix lower lower_char
    text_eq is_nonempty
is_started = refl

started_sweep-IsChecked_example :
    (pending ≡ pending)
    × IsChecked sample_env sample_services sample_configs sample_request sample_task
started_sweep-IsChecked_example =
    started_sweep-IsChecked sample_env sample_services sample_configs sample_request fresh
      (response pending sample_id sample_deposit) sample_task is_started

error_is_reported_example :
    (get_deposit_status sample_id_hex
      (codes "0xb")
      (persist_error sample_id_hex (codes "lost") (engine_with sample_record)).1).0
    ≡ ok (some (record_response sample_id_hex error sample_record (some (codes "lost"))))
unfolding record_path record_key file_name lookup is_set is_hex_digit digit_value remove_prefix
    strip_prefix lower lower_char text_eq is_nonempty read_file to_dict
error_is_reported_example =
    error_is_reported (engine_with sample_record) sample_id_hex sample_path sample_record refl refl
      (codes "lost") (codes "0xb") refl refl refl

gas_amount-lt-min_deposit_example :
    gas_amount 65000 100_000_000_000 0 1_000_000_000_000_000
    < min_deposit (build_chain_configs false) 1 true
unfolding gas_funding_cap find_config build_chain_configs
gas_amount-lt-min_deposit_example =
    gas_amount-lt-min_deposit false 1 65000 100_000_000_000 0 1_000_000_000_000_000 refl
