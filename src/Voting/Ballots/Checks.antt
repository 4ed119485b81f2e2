-- ===== src/Voting/Ballots/Checks.antt =====
-- domain/state/ballots.go: the tests of `validateBallotCast` and `validateBallotUpdate`.
use community.Base.{
  Bool, not, ◌&&◌, Option, none, some, ◌∷◌, ◌++◌, eqb, length, is_empty, is_some, if◌then◌else◌,
}
use community.Base.Result.{Result, ok, ◌>>=◌, ◌>>◌, check, reject, or_err}
use community.Data.Bytes.{Bytes, bytes, ◌==◌}
use community.Data.GoMap.{lookup, insert}
use community.Data.Hex.{hex_encode, hex_decode}
use community.Data.Int64.{ℤ, ltb_ℤ, leb_ℤ}
use community.Protocol.Errors.{
  Error, invalid_payload, invalid_voter_pub_key, invalid_voter_sig, no_verifier, poll_missing,
  poll_not_started, poll_ended, poll_closed, identity_failed, duplicate_vote, ballot_missing,
  voter_missing,
}
use community.Protocol.Nonce.{validate_nonce, validate_beacon}
use community.Protocol.Txs.{Tx, BallotCastData, BallotUpdateData}
use community.Protocol.Types.{Poll, status_pending, status_open, status_closed}
use community.Voting.Choices.{validate_choices}
use community.Voting.Env.{Env}
use community.Voting.State.{State, store_key}

-- hex of a 32-byte Ed25519 key
unfoldable pub decode_voter_key : Bytes → Option Bytes
decode_voter_key key = elim (hex_decode key) [
  | none ↦ none
  | some raw ↦ if eqb (length raw) 32 then some raw else none
]

-- `voterDeviceSigMessage`
unfoldable pub voter_device_sig_message : Bytes → Bytes → Bytes
voter_device_sig_message nonce poll_id = nonce ++ (58 ∷ poll_id)

-- `ballotUpdateDeviceSigMessage`
unfoldable pub ballot_update_device_sig_message : Bytes → Bytes → Bytes
ballot_update_device_sig_message nonce poll_id = bytes "update:" ++ (nonce ++ (58 ∷ poll_id))

-- `hex(sha256("partition-migration-auth:" + key + ":" + pollID))`
unfoldable pub migration_auth_hash : Env → Bytes → Bytes → Bytes
migration_auth_hash env key poll_id =
    hex_encode (env.sha256 (bytes "partition-migration-auth:" ++ (key ++ (58 ∷ poll_id))))

-- The poll exists and its time is running.
unfoldable pub running_poll : ℤ → Bytes → State → Result Error Poll
running_poll now poll_id s = do
  poll ← or_err (lookup poll_id s.polls) poll_missing
  reject (ltb_ℤ now poll.start_time) poll_not_started
  reject (leb_ℤ poll.end_time now) poll_ended
  reject (poll.status == status_closed) poll_closed
  ok poll

-- `validateBallotCast` up to the change of the poll's status
unfoldable pub check_cast : Env → ℤ → Tx → State → Result Error (BallotCastData × Poll)
check_cast env now t s = do
  d ← or_err (env.decode_ballot_cast t.payload) invalid_payload
  validate_nonce d.ballot_nonce
  validate_beacon d.beacon_block_hash d.beacon_block_height s.beacon_window
  key ← or_err (decode_voter_key d.voter_pub_key) invalid_voter_pub_key
  check (env.ed25519_verify key (voter_device_sig_message d.ballot_nonce d.poll_id) d.voter_sig)
      invalid_voter_sig
  check (is_some s.verifier) no_verifier
  poll ← running_poll now d.poll_id s
  ok (d, poll)

-- `if poll.Status == "pending" && now >= poll.StartTime { poll.Status = "open" }`
unfoldable pub open_poll : ℤ → Bytes → Poll → State → State
open_poll now poll_id poll s =
    if poll.status == status_pending && leb_ℤ poll.start_time now
    then record s { polls = insert poll_id (record poll { status = status_open }) s.polls }
    else s

-- `HasRestoreGrant`
unfoldable pub has_restore_grant : Bytes → Bytes → State → Bool
has_restore_grant poll_id identity_hash s =
    is_some (lookup (store_key poll_id identity_hash) s.restores)

abbrev pub identify_cast : State → BallotCastData → Option Bytes
identify_cast s d = elim s.verifier [ none ↦ none | some v ↦ v.verify_and_identify d ]

abbrev pub identify_update : State → BallotUpdateData → Option Bytes
identify_update s d = elim s.verifier [ none ↦ none | some v ↦ v.verify_and_identify_update d ]

-- the last tests of `validateBallotCast`: the attestation, and one ballot for each identity
unfoldable pub check_identity : BallotCastData → State → Result Error (Unit {0})
check_identity d s = do
  identity_hash ← or_err (identify_cast s d) identity_failed
  reject
      (is_some (lookup (store_key d.poll_id identity_hash) s.voter_registry)
        && not (has_restore_grant d.poll_id identity_hash s))
      (duplicate_vote d.poll_id identity_hash)

-- the choices, then the identity
unfoldable pub check_choice_and_identity : Poll → BallotCastData → State → Result Error (Unit {0})
unfolding check_identity
check_choice_and_identity poll d s = do validate_choices poll d.choices; check_identity d s

unfoldable pub check_update : Env → ℤ → BallotUpdateData → State → Result Error (Unit {0})
check_update env now d s = do
  validate_nonce d.new_ballot_nonce
  validate_beacon d.beacon_block_hash d.beacon_block_height s.beacon_window
  key ← or_err (decode_voter_key d.voter_pub_key) invalid_voter_pub_key
  check
      (env.ed25519_verify key (ballot_update_device_sig_message d.new_ballot_nonce d.poll_id)
        d.voter_sig)
      invalid_voter_sig
  check (is_some s.verifier) no_verifier
  identity_hash ← or_err (identify_update s d) identity_failed
  poll ← running_poll now d.poll_id s
  check (is_some (lookup (store_key d.poll_id d.old_ballot_id) s.vote_directions)) ballot_missing
  check (is_some (lookup (store_key d.poll_id identity_hash) s.voter_registry)) voter_missing
  if is_empty d.new_choices then ok tt else validate_choices poll d.new_choices
