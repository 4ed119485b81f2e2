-- ===== src/Tests/Lists.antt =====
-- Runs of the theorems on the two lists.
use community.Base.{◌≡◌, ◌≢◌, refl, true, some, none, List, [], ◌∷◌, suc, ◌+◌, length, All, arith}
use community.Base.Result.{ok, err, is_ok}
use community.Data.Bytes.{bytes, ◌==◌, has_prefix}
use community.Data.GoMap.{lookup, count}
use community.Data.Hex.{hex_encode, hex_decode}
use community.Data.Base64.{base64_decode}
use community.Data.Int64.{pos}
use community.Protocol.Errors.{count_mismatch}
use community.Protocol.Nonce.{
  derive_submission_id, validate_nonce, validate_beacon, window_lookup, all_equal,
}
use community.Tests.{
  p, env, opened, voted, batch, tx, cast_1, cast_2, ballot_1, ballot_2, poll, close_data,
  update_data, rescind_data, confirm_data,
}
use community.Voting.Attestation.Collect.Laws.{counted_ballots}
use community.Voting.Authority.{
  validate_authority_rescind, check_rescind, check_signatures, rescind_message, bound_fields,
  authority_keys, authority_key, execute_authority_rescind,
}
use community.Voting.Ballots.{
  cast_ballot_id, derive_ballot_id_with_beacon, compute_ballot_id_with_beacon, validate_ballot_cast,
  validate_ballot_update, execute_ballot_update, update_ballot_id, validate_open_cast,
}
use community.Voting.Ballots.Checks.{
  check_cast, check_update, check_identity, check_choice_and_identity, decode_voter_key,
  voter_device_sig_message, ballot_update_device_sig_message, running_poll, open_poll,
  has_restore_grant,
}
use community.Voting.Batch.{Candidate, execute_batch_flush, to_candidates}
use community.Voting.Batch.Checks.{
  validate_batch_flush, validate_batch_of, batch_poll, validate_submissions, validate_submission,
  validate_cast_submission, submission_keys,
}
use community.Voting.Choices.{validate_choices, check_choices, contains, effective_method}
use community.Voting.Close.{execute_poll_close}
use community.Voting.Confirms.{validate_confirm_receipt, check_confirm, execute_confirm_receipt}
use community.Voting.State.{State, store_key, in_poll, is_counted, voter_count_for_poll}
use community.Voting.TwoLists.{ballots, voters, CountMatch}
use community.Voting.TwoLists.Close.{Closed, execute_poll_close-Closed, execute_poll_close-refused}
use community.Voting.TwoLists.Confirm.{Confirmed, execute_confirm_receipt-Confirmed}
use community.Voting.TwoLists.Flush.{IsNew, validate-execute_batch_flush}
use community.Voting.TwoLists.Matched.{Step, none_yet, and_then, Steps-CountMatch}
use community.Voting.TwoLists.Rescind.{execute_authority_rescind-pair}
use community.Voting.TwoLists.Update.{
  Withdrawn, execute_ballot_update-Withdrawn, execute_ballot_update-change,
}

abbrev candidate_1 : Candidate
candidate_1 = record { cast = cast_1; ballot_id = ballot_1; identity_hash = bytes "ann" }

abbrev candidate_2 : Candidate
candidate_2 = record { cast = cast_2; ballot_id = ballot_2; identity_hash = bytes "bob" }

abbrev both : List Candidate
both = candidate_1 ∷ candidate_2 ∷ []

batch_candidates : to_candidates env opened.verifier batch.submissions ≡ ok both
unfolding to_candidates cast_ballot_id derive_ballot_id_with_beacon compute_ballot_id_with_beacon
    derive_submission_id hex_decode hex_encode ◌==◌
batch_candidates = refl

batch_accepted : (validate_batch_flush env (pos 50) (tx 7 (1 ∷ [])) opened).0 ≡ ok tt
unfolding validate_batch_flush batch_poll ◌==◌ lookup validate_batch_of validate_submissions
    validate_submission validate_cast_submission submission_keys cast_ballot_id
    derive_ballot_id_with_beacon compute_ballot_id_with_beacon derive_submission_id hex_decode
    hex_encode validate_ballot_cast validate_open_cast check_cast validate_nonce all_equal
    validate_beacon window_lookup decode_voter_key voter_device_sig_message running_poll open_poll
    check_choice_and_identity check_identity validate_choices check_choices contains
    effective_method store_key has_restore_grant
batch_accepted = refl

both-IsNew : All (λ c. IsNew c opened) both
unfolding lookup has_restore_grant
both-IsNew = ((refl, refl), ((refl, refl), tt))

validate-execute_batch_flush_example :
    let s' =
      (execute_batch_flush env
        (pos 50)
        (tx 7 (1 ∷ []))
        (validate_batch_flush env (pos 50) (tx 7 (1 ∷ [])) opened).1).1 in
    (ballots p s' ≡ length both + ballots p opened) × (voters p s' ≡ length both + voters p opened)
validate-execute_batch_flush_example =
    validate-execute_batch_flush env (pos 50) (tx 7 (1 ∷ [])) batch both opened refl
      batch_candidates batch_accepted both-IsNew

voted_matches : counted_ballots p voted ≡ voters p voted
unfolding counted_ballots voters voter_count_for_poll count in_poll has_prefix is_counted ◌==◌
voted_matches = refl

voted_poll : lookup p voted.polls ≡ some poll
unfolding lookup ◌==◌
voted_poll = refl

execute_poll_close-Closed_example :
    (is_ok (execute_poll_close env (pos 101) (tx 3 []) voted).0 ≡ true)
    × Closed p voted (execute_poll_close env (pos 101) (tx 3 []) voted).1
execute_poll_close-Closed_example =
    execute_poll_close-Closed env (pos 101) (tx 3 []) close_data poll voted refl voted_poll
      voted_matches

-- a ballot without a voter
abbrev unmatched : State
unmatched = record voted { voter_registry = [] }

unmatched_differs : counted_ballots p unmatched ≢ voters p unmatched
unfolding counted_ballots voters voter_count_for_poll count in_poll has_prefix is_counted ◌==◌
unmatched_differs e = absurd (omega (arith, e))

execute_poll_close-refused_example :
    execute_poll_close env (pos 101) (tx 3 []) unmatched ≡ (err count_mismatch, unmatched)
execute_poll_close-refused_example =
    execute_poll_close-refused env (pos 101) (tx 3 []) close_data poll unmatched refl voted_poll
      unmatched_differs

withdrawal_accepted : validate_ballot_update env (pos 50) (tx 6 (1 ∷ [])) voted ≡ ok tt
unfolding validate_ballot_update check_update validate_nonce all_equal validate_beacon window_lookup
    hex_decode decode_voter_key ballot_update_device_sig_message running_poll lookup ◌==◌ store_key
withdrawal_accepted = refl

execute_ballot_update-Withdrawn_example :
    (is_ok (execute_ballot_update env (tx 6 (1 ∷ [])) voted).0 ≡ true)
    × Withdrawn p voted (execute_ballot_update env (tx 6 (1 ∷ [])) voted).1
execute_ballot_update-Withdrawn_example =
    execute_ballot_update-Withdrawn env (pos 50) (tx 6 (1 ∷ [])) (update_data []) voted refl refl
      withdrawal_accepted

change_accepted : validate_ballot_update env (pos 50) (tx 6 (2 ∷ [])) voted ≡ ok tt
unfolding validate_ballot_update check_update validate_nonce all_equal validate_beacon window_lookup
    hex_decode decode_voter_key ballot_update_device_sig_message running_poll lookup ◌==◌ store_key
    validate_choices check_choices contains effective_method
change_accepted = refl

change_new :
    lookup
      (store_key p (update_ballot_id env (update_data (bytes "no" ∷ []))))
      voted.vote_directions
    ≡ none
unfolding lookup store_key ◌==◌ update_ballot_id derive_ballot_id_with_beacon
    compute_ballot_id_with_beacon derive_submission_id hex_decode hex_encode
change_new = refl

execute_ballot_update-change_example :
    let r = execute_ballot_update env (tx 6 (2 ∷ [])) voted in
    (is_ok r.0 ≡ true)
    × (ballots p r.1 ≡ ballots p voted)
    × (r.1.voter_registry ≡ voted.voter_registry)
execute_ballot_update-change_example =
    execute_ballot_update-change env (pos 50) (tx 6 (2 ∷ [])) (update_data (bytes "no" ∷ [])) voted
      refl refl change_accepted change_new

rescission_accepted : validate_authority_rescind env (tx 9 []) voted ≡ ok tt
unfolding validate_authority_rescind check_rescind authority_keys authority_key base64_decode lookup
    ◌==◌ store_key check_signatures rescind_message bound_fields
rescission_accepted = refl

execute_authority_rescind-pair_example :
    let r = execute_authority_rescind env (tx 9 []) voted in
    (is_ok r.0 ≡ true)
    × (suc (ballots p r.1) ≡ ballots p voted)
    × (suc (voters p r.1) ≡ voters p voted)
execute_authority_rescind-pair_example =
    execute_authority_rescind-pair env (tx 9 []) rescind_data voted refl rescission_accepted

confirmation_accepted : validate_confirm_receipt env (pos 50) (tx 5 []) voted ≡ ok tt
unfolding validate_confirm_receipt check_confirm lookup ◌==◌ store_key
confirmation_accepted = refl

execute_confirm_receipt-Confirmed_example :
    (is_ok (execute_confirm_receipt env (tx 5 []) voted).0 ≡ true)
    × Confirmed p voted (execute_confirm_receipt env (tx 5 []) voted).1
execute_confirm_receipt-Confirmed_example =
    execute_confirm_receipt-Confirmed env (pos 50) (tx 5 []) confirm_data voted refl
      confirmation_accepted

opened_matches : CountMatch p opened
unfolding ballots voters voter_count_for_poll count
opened_matches = refl

Steps-CountMatch_example :
    let s = (validate_batch_flush env (pos 50) (tx 7 (1 ∷ [])) opened).1 in
    CountMatch p (execute_batch_flush env (pos 50) (tx 7 (1 ∷ [])) s).1
Steps-CountMatch_example = Steps-CountMatch env p opened _ opened_matches (
    and_then none_yet (
      Step.batch (pos 50) (tx 7 (1 ∷ [])) batch both refl refl batch_candidates batch_accepted
        both-IsNew))
