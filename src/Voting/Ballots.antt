-- ===== src/Voting/Ballots.antt =====
-- domain/state/ballots.go: casting, updating and withdrawing a ballot.
pub mod Checks
pub mod Accepted
pub mod Devices
pub mod Sound
use community.Base.{
  ℕ, ◌+◌, Bool, true, false, not, ◌&&◌, ◌||◌, Option, none, some, List, [], ◌∷◌, ◌++◌, is_empty,
  is_some, if◌then◌else◌,
}
use community.Base.Result.{Result, ok, err}
use community.Base.Exec.{Exec, lift, reads, modify, ◌>>=◌, ◌>>◌}
use community.Data.Bytes.{Bytes, bytes, ◌==◌}
use community.Data.GoMap.{GoMap, lookup, insert, delete}
use community.Data.Hex.{hex_encode}
use community.Data.Int64.{ℤ, pos, ◌+ℤ◌, ltb_ℤ, leb_ℤ}
use community.Protocol.Errors.{Error, panic, invalid_payload, identity_failed}
use community.Protocol.Events.{Event, text, dec, joined, event, attribute}
use community.Protocol.Nonce.{derive_submission_id}
use community.Protocol.Txs.{Tx, BallotCastData, BallotUpdateData, derivation_nonce_plus_payload}
use community.Protocol.Types.{Poll, VoteRecord, VoterRecord, Tally, status_pending, status_open}
use community.Voting.Attestation.{commit_rolling_attestation}
use community.Voting.Ballots.Checks.{
  check_cast, check_choice_and_identity, check_update, migration_auth_hash, open_poll,
}
use community.Voting.Choices.{validate_choices}
use community.Voting.Env.{Env, IdentityVerifier}
use community.Voting.State.{State, Handler, Validator, store_key, update, confirmed_count_for_poll}

-- `computeBallotID`
unfoldable pub compute_ballot_id : Env → Bytes → Bytes
compute_ballot_id env nonce = hex_encode (env.sha256 nonce)

-- `computeBallotIDWithBeacon`
unfoldable pub compute_ballot_id_with_beacon : Env → Bytes → Bytes → Bytes
unfolding compute_ballot_id
compute_ballot_id_with_beacon env beacon nonce =
    if is_empty beacon
    then compute_ballot_id env nonce
    else elim (derive_submission_id env.sha256 beacon nonce) [
      | none ↦ compute_ballot_id env nonce
      | some id ↦ id
    ]

-- `deriveBallotIDWithBeacon`
unfoldable pub derive_ballot_id_with_beacon : Env → Bytes → Bytes → List Bytes → Bytes → Bytes
unfolding compute_ballot_id_with_beacon
derive_ballot_id_with_beacon env beacon nonce choices mode =
    if mode == derivation_nonce_plus_payload
    then hex_encode (env.sha256 (nonce ++ (58 ∷ env.marshal_choices choices)))
    else compute_ballot_id_with_beacon env beacon nonce

unfoldable pub cast_ballot_id : Env → BallotCastData → Bytes
cast_ballot_id env d =
    derive_ballot_id_with_beacon env d.beacon_block_hash d.ballot_nonce d.choices
      d.submission_identifier_derivation

-- The state changes on the way: a pending poll whose time has come is opened, also where a later
-- test refuses the ballot.
unfoldable pub validate_open_cast : ℤ → Result Error (BallotCastData × Poll) → Validator
validate_open_cast now (err e) s = (err e, s)
validate_open_cast now (ok (d, poll)) s =
    let s' = open_poll now d.poll_id poll s in (check_choice_and_identity poll d s', s')

unfoldable pub validate_ballot_cast : Env → ℤ → Tx → Validator
unfolding validate_open_cast
validate_ballot_cast env now t s = validate_open_cast now (check_cast env now t s) s

-- `s.submissionCounts[pollID]`, zero where there is no entry
unfoldable pub submission_count : Bytes → State → ℤ
submission_count poll_id s = elim (lookup poll_id s.submission_counts) [ none ↦ pos 0 | some n ↦ n ]

abbrev pub set_submission_count : Bytes → ℤ → State → State
set_submission_count poll_id n s = record s {
  submission_counts = insert poll_id n s.submission_counts;
}

abbrev pub is_rolling : State → Bool
is_rolling s = s.attestation_mode == bytes "rolling" && ltb_ℤ (pos 0) s.rolling_threshold

-- An attestation that fails is logged, and the ballot stands.
abbrev with_checkpoint :
    List Event → Result Error (List Event) × State → Result Error (List Event) × State
with_checkpoint events (ok more, s) = (ok (events ++ more), s)
with_checkpoint events (err panic, s) = (err panic, s)
with_checkpoint events (err e, s) = (ok events, s)

roll_after_cast : Env → ℤ → Bytes → List Event → Handler
unfolding submission_count
roll_after_cast env now poll_id events s =
    let n = submission_count poll_id s +ℤ pos 1 in
    if is_rolling s
    then if leb_ℤ s.rolling_threshold n
      then with_checkpoint events
          (commit_rolling_attestation env now poll_id (set_submission_count poll_id (pos 0) s))
      else (ok events, set_submission_count poll_id n s)
    else (ok events, s)

abbrev pub count_cast : ℤ → Poll → Poll
count_cast n p = record p { idv_cast_count = p.idv_cast_count +ℤ n }

unfoldable pub write_cast : Env → BallotCastData → Bytes → State → State
write_cast env d identity_hash s = record s {
  vote_directions =
      insert (store_key d.poll_id (cast_ballot_id env d))
        (record {
          ballot_id = cast_ballot_id env d;
          choices = d.choices;
          partition_id = d.partition_id;
          superseded = false;
          voter_pub_key_hash = migration_auth_hash env d.voter_pub_key d.poll_id;
        })
        s.vote_directions;
  voter_registry =
      insert (store_key d.poll_id identity_hash) (record { identity_hash = identity_hash })
        s.voter_registry;
  polls = update d.poll_id (count_cast (pos 1)) s.polls;
  dirty = true;
}

abbrev accepted_events : Bytes → List Event
accepted_events poll_id =
    event (bytes "submission_accepted") (
      attribute (bytes "scoping_id") (text poll_id) true
      ∷ attribute (bytes "status") (text (bytes "accepted")) false
      ∷ [])
    ∷ []

unfoldable pub cast_as : Env → ℤ → BallotCastData → Option Bytes → Handler
unfolding write_cast roll_after_cast
cast_as env now d none s = (err identity_failed, s)
cast_as env now d (some identity_hash) s =
    roll_after_cast env now d.poll_id (accepted_events d.poll_id) (write_cast env d identity_hash s)

unfoldable pub execute_ballot_cast : Env → ℤ → Tx → Handler
unfolding cast_as
execute_ballot_cast env now t s = elim (env.decode_ballot_cast t.payload) [
  | none ↦ (err invalid_payload, s)
  | some d ↦ elim s.verifier [
    | none ↦ (err panic, s)
    | some v ↦ cast_as env now d (v.verify_and_identify d) s
  ]
]

unfoldable pub validate_ballot_update : Env → ℤ → Tx → State → Result Error (Unit {0})
unfolding check_update
validate_ballot_update env now t s = elim (env.decode_ballot_update t.payload) [
  | none ↦ err invalid_payload
  | some d ↦ check_update env now d s
]

unfoldable pub update_ballot_id : Env → BallotUpdateData → Bytes
update_ballot_id env d =
    derive_ballot_id_with_beacon env d.beacon_block_hash d.new_ballot_nonce d.new_choices
      d.submission_identifier_derivation

-- `t.ConfirmedCount = s.confirmedCountForPoll(pollID)`, on the tally if there is one
unfoldable pub refresh_confirmed : Bytes → State → State
refresh_confirmed poll_id s = record s {
  tallies =
      update poll_id
        (λ (t : Tally). record t { confirmed_count = pos (confirmed_count_for_poll poll_id s) })
        s.tallies;
}

-- Withdrawal: the ballot leaves List 1, the identity leaves List 2 and the confirms.
unfoldable pub withdraw : BallotUpdateData → Bytes → State → State
unfolding refresh_confirmed
withdraw d identity_hash s = refresh_confirmed d.poll_id (record s {
  vote_directions = delete (store_key d.poll_id d.old_ballot_id) s.vote_directions;
  voter_registry = delete (store_key d.poll_id identity_hash) s.voter_registry;
  confirms = delete (store_key d.poll_id identity_hash) s.confirms;
  dirty = true;
})

-- Direction change: a new ballot in place of the old one.
unfoldable pub change_direction : Env → BallotUpdateData → State → State
change_direction env d s = record s {
  vote_directions =
      insert (store_key d.poll_id (update_ballot_id env d))
        (record {
          ballot_id = update_ballot_id env d;
          choices = d.new_choices;
          partition_id = [];
          superseded = false;
          voter_pub_key_hash = [];
        })
        (delete (store_key d.poll_id d.old_ballot_id) s.vote_directions);
  dirty = true;
}

withdrawn_events : BallotUpdateData → List Event
withdrawn_events d =
    event (bytes "ballot_withdrawn") (
      attribute (bytes "scoping_id") (text d.poll_id) true
      ∷ attribute (bytes "old_ballot_id") (text d.old_ballot_id) true
      ∷ attribute (bytes "timestamp") (dec d.timestamp) false
      ∷ [])
    ∷ []

updated_events : Env → BallotUpdateData → List Event
updated_events env d =
    event (bytes "ballot_updated") (
      attribute (bytes "scoping_id") (text d.poll_id) true
      ∷ attribute (bytes "old_ballot_id") (text d.old_ballot_id) true
      ∷ attribute (bytes "new_ballot_id") (text (update_ballot_id env d)) true
      ∷ attribute (bytes "choices") (joined d.new_choices) false
      ∷ attribute (bytes "timestamp") (dec d.timestamp) false
      ∷ [])
    ∷ []

unfoldable pub update_as : Env → BallotUpdateData → Option Bytes → Handler
unfolding withdraw change_direction withdrawn_events updated_events
update_as env d none s = (err identity_failed, s)
update_as env d (some identity_hash) s =
    if is_empty d.new_choices
    then (ok (withdrawn_events d), withdraw d identity_hash s)
    else (ok (updated_events env d), change_direction env d s)

unfoldable pub execute_ballot_update : Env → Tx → Handler
unfolding update_as
execute_ballot_update env t s = elim (env.decode_ballot_update t.payload) [
  | none ↦ (err invalid_payload, s)
  | some d ↦ elim s.verifier [
    | none ↦ (err panic, s)
    | some v ↦ update_as env d (v.verify_and_identify_update d) s
  ]
]
