-- ===== src/Tests/Validation.antt =====
-- Runs of the theorems on what is accepted.
use community.Base.{
  ◌≡◌, ◌≢◌, ◌↔◌, refl, true, false, some, none, [], ◌∷◌, length, is_empty, is_some, All, arith,
  if◌then◌else◌,
}
use community.Base.Result.{ok}
use community.Data.Base64.{base64_decode}
use community.Data.Bytes.{Bytes, bytes, ◌==◌}
use community.Data.GoMap.{lookup}
use community.Data.Hex.{hex_decode}
use community.Data.Int64.{pos, ◌<ℤ◌, eqb_ℤ, ltb_ℤ, ◌-ℤ◌}
use community.Protocol.Nonce.{
  validate_nonce, all_same, all_equal, validate_beacon, window_lookup, record_beacon,
}
use community.Protocol.Nonce.Laws.{
  validate_nonce_iff, validate_beacon_iff, window_lookup-record_beacon,
}
use community.Protocol.Types.{voting_method_plurality}
use community.Tests.{
  p, env, opened, voted, tx, nonce_1, nonce_2, beacon, poll, rescind_data, restore_data,
  authority_raw,
}
use community.Voting.Authority.{
  authority_keys, authority_key, check_rescind, rescind_message, restore_message,
}
use community.Voting.Authority.Restore.{check_restore}
use community.Voting.Authority.Accepted.{BothSign, check_rescind_iff, check_restore_iff}
use community.Voting.Authority.Messages.{rescind_message-injective, rescind-restore_message}
use community.Voting.Ballots.{validate_ballot_cast, validate_open_cast}
use community.Voting.Ballots.Checks.{
  check_cast, check_identity, check_choice_and_identity, decode_voter_key, voter_device_sig_message,
  ballot_update_device_sig_message, running_poll, open_poll, has_restore_grant,
}
use community.Voting.Ballots.Devices.{device_messages-differ}
use community.Voting.Ballots.Sound.{Sound, validate_ballot_cast-Sound}
use community.Voting.Choices.{validate_choices, check_choices, contains, effective_method}
use community.Voting.Choices.Laws.{Fresh, validate_choices_iff}
use community.Voting.State.{store_key}

cast_accepted : (validate_ballot_cast env (pos 50) (tx 2 (1 ∷ [])) opened).0 ≡ ok tt
unfolding validate_ballot_cast validate_open_cast check_cast validate_nonce all_equal
    validate_beacon window_lookup hex_decode decode_voter_key voter_device_sig_message running_poll
    open_poll check_choice_and_identity check_identity validate_choices check_choices contains
    effective_method store_key has_restore_grant lookup ◌==◌
cast_accepted = refl

validate_ballot_cast-Sound_example : Sound env (pos 50) (tx 2 (1 ∷ [])) opened
validate_ballot_cast-Sound_example =
    validate_ballot_cast-Sound env (pos 50) (tx 2 (1 ∷ [])) opened cast_accepted

poll_keys : authority_keys p voted ≡ ok (authority_raw, authority_raw)
unfolding authority_keys authority_key base64_decode lookup ◌==◌
poll_keys = refl

check_rescind_iff_example : (check_rescind env rescind_data voted ≡ ok tt) ↔ (
    BothSign env authority_raw authority_raw
      (rescind_message p rescind_data.ballot_id (bytes "ann") (bytes "r"))
      rescind_data.eligibility_sig
      rescind_data.reconciling_sig
    × (is_some (lookup (store_key p rescind_data.ballot_id) voted.vote_directions) ≡ true)
    × (is_some (lookup (store_key p (bytes "ann")) voted.voter_registry) ≡ true)
    × (is_some (lookup (store_key p rescind_data.ballot_id) voted.rescissions) ≡ false))
check_rescind_iff_example =
    check_rescind_iff env rescind_data authority_raw authority_raw voted poll_keys

check_restore_iff_run : (check_restore env restore_data voted ≡ ok tt) ↔ (
    BothSign env authority_raw authority_raw
      (restore_message p restore_data.ballot_id (bytes "ann") (bytes "r"))
      restore_data.eligibility_sig
      restore_data.reconciling_sig
    × (is_some (lookup (store_key p restore_data.ballot_id) voted.rescissions) ≡ true)
    × (is_some (lookup (store_key p (bytes "ann")) voted.restores) ≡ false))
check_restore_iff_run =
    check_restore_iff env restore_data authority_raw authority_raw voted poll_keys

validate_choices_iff_run : (validate_choices poll (bytes "yes" ∷ []) ≡ ok tt) ↔ (
    (is_empty (bytes "yes" ∷ []) ≡ false)
    × All (λ c. contains poll.options c ≡ true) (bytes "yes" ∷ [])
    × Fresh [] (bytes "yes" ∷ [])
    × (effective_method poll.voting_method ≡ voting_method_plurality
        → length (bytes "yes" ∷ []) ≡ 1))
validate_choices_iff_run = validate_choices_iff poll (bytes "yes" ∷ [])

validate_nonce_iff_run :
    (validate_nonce nonce_1 ≡ ok tt)
    ↔ ((length nonce_1 ≡ 64) × ((b : Bytes) × (hex_decode nonce_1 ≡ some b) × (all_same b ≡ false)))
validate_nonce_iff_run = validate_nonce_iff nonce_1

validate_beacon_iff_run : (validate_beacon beacon (pos 5) opened.beacon_window ≡ ok tt) ↔ (
    (length beacon ≡ 64)
    × (is_some (hex_decode beacon) ≡ true)
    × (pos 0 <ℤ pos 5)
    × (window_lookup (pos 5) opened.beacon_window ≡ some beacon))
validate_beacon_iff_run = validate_beacon_iff beacon (pos 5) opened.beacon_window

-- the 21st height: 5 is still there at 25
window_lookup-record_beacon_example :
    window_lookup (pos 5) (record_beacon (pos 25) nonce_1 opened.beacon_window) ≡ (
      if eqb_ℤ (pos 25) (pos 5)
      then some nonce_1
      else if ltb_ℤ (pos 5) (pos 25 -ℤ pos 20)
      then none
      else window_lookup (pos 5) opened.beacon_window)
window_lookup-record_beacon_example =
    window_lookup-record_beacon (pos 5) 25 nonce_1 opened.beacon_window (omega arith)

rescind_message-injective_example :
    (bytes "p" ≡ bytes "p")
    × (bytes "b" ≡ bytes "b")
    × (bytes "i" ≡ bytes "i")
    × (bytes "r" ≡ bytes "r")
rescind_message-injective_example =
    rescind_message-injective (bytes "p") (bytes "b") (bytes "i") (bytes "r") (bytes "p")
      (bytes "b") (bytes "i") (bytes "r") (omega arith) (omega arith) refl

rescind-restore_message_run :
    rescind_message (bytes "p") (bytes "b") (bytes "i") (bytes "r")
    ≢ restore_message (bytes "p") (bytes "b") (bytes "i") (bytes "r")
rescind-restore_message_run =
    rescind-restore_message (bytes "p") (bytes "b") (bytes "i") (bytes "r") (bytes "p") (bytes "b")
      (bytes "i") (bytes "r")

nonce_accepted : validate_nonce nonce_1 ≡ ok tt
unfolding validate_nonce all_equal hex_decode
nonce_accepted = refl

device_messages-differ_run :
    voter_device_sig_message nonce_1 p ≢ ballot_update_device_sig_message nonce_2 p
device_messages-differ_run = device_messages-differ nonce_1 p nonce_2 p nonce_accepted
