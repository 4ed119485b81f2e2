-- ===== src/Protocol/Errors.antt =====
-- The errors of the state machine, one for each message of the source without its arguments.
-- `panic` stands for a nil dereference, which ends the process.
use community.Data.Bytes.{Bytes}

pub data Error : Type 0 where
  panic : Error
  -- protocol/tx/tx.go
  invalid_type missing_signature missing_data : Error
  missing_scoping_id missing_question too_few_options missing_choices missing_nonce : Error
  invalid_derivation missing_voter_pub_key missing_voter_sig missing_attestation : Error
  missing_identity_hash missing_name negative_power missing_submission_id : Error
  missing_submissions missing_migration_sig missing_revocation_ref : Error
  missing_eligibility_sig missing_reconciling_sig : Error
  keys_not_both keys_not_distinct invalid_base64 wrong_key_length : Error
  -- protocol/submission/nonce.go
  nonce_length nonce_not_hex nonce_all_zero nonce_constant : Error
  beacon_length beacon_not_hex beacon_height beacon_not_in_window beacon_mismatch : Error
  -- domain/state
  invalid_payload unknown_type direct_cast_disabled : Error
  poll_exists poll_missing poll_not_started poll_ended poll_closed poll_not_ended : Error
  start_in_past end_before_start unknown_method too_many_options : Error
  empty_option duplicate_option : Error
  no_choices invalid_choice duplicate_choice plurality_one_choice : Error
  invalid_voter_pub_key invalid_voter_sig no_verifier identity_failed : Error
  duplicate_vote : Bytes → Bytes → Error
  ballot_missing voter_missing already_confirmed tally_exists : Error
  count_mismatch : Error
  already_superseded already_sealed no_key_hash key_hash_mismatch invalid_migration_sig : Error
  not_eligible : Error
  no_authority_keys invalid_authority_key eligibility_sig_failed reconciling_sig_failed : Error
  already_rescinded not_rescinded already_restored : Error
  not_ballot_cast poll_mismatch duplicate_ballot duplicate_identity : Error
  corrupt_store : Error
