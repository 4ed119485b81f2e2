-- ===== src/Voting/Reseal.antt =====
-- domain/state/reseal.go: moving a ballot to the sealed partition.
use community.Base.{true, false, ◌||◌, Option, none, some, [], ◌∷◌, ◌++◌, is_empty, if◌then◌else◌}
use community.Base.Result.{Result, ok, err, ◌>>=◌, ◌>>◌, check, reject, or_err}
use community.Data.Bytes.{Bytes, bytes, ◌==◌}
use community.Data.GoMap.{lookup, insert}
use community.Data.Int64.{pos, ◌+ℤ◌}
use community.Protocol.Errors.{
  Error, panic, invalid_payload, poll_missing, poll_closed, ballot_missing, already_superseded,
  already_sealed, no_key_hash, key_hash_mismatch, invalid_voter_pub_key, invalid_migration_sig,
  not_eligible,
}
use community.Protocol.Events.{text, dec, event, attribute}
use community.Protocol.Txs.{Tx, ResealVoteData}
use community.Protocol.Types.{Poll, VoteRecord, partition_sealed, status_closed}
use community.Voting.Ballots.Checks.{decode_voter_key, migration_auth_hash}
use community.Voting.Env.{Env}
use community.Voting.State.{State, Handler, store_key}

-- `migrationSigMessage`
unfoldable pub migration_sig_message : Bytes → Bytes → Bytes
migration_sig_message ballot_id poll_id = bytes "migrate:" ++ (ballot_id ++ (58 ∷ poll_id))

unfoldable pub check_reseal : Env → ResealVoteData → State → Result Error (Unit {0})
check_reseal env d s = do
  poll ← or_err (lookup d.poll_id s.polls) poll_missing
  reject (poll.status == status_closed) poll_closed
  vote ← or_err (lookup (store_key d.poll_id d.ballot_id) s.vote_directions) ballot_missing
  reject vote.superseded already_superseded
  reject (vote.partition_id == partition_sealed) already_sealed
  reject (is_empty vote.voter_pub_key_hash) no_key_hash
  check (migration_auth_hash env d.voter_pub_key d.poll_id == vote.voter_pub_key_hash)
      key_hash_mismatch
  key ← or_err (decode_voter_key d.voter_pub_key) invalid_voter_pub_key
  check (env.ed25519_verify key (migration_sig_message d.ballot_id d.poll_id) d.migration_sig)
      invalid_migration_sig

unfoldable pub validate_reseal_vote : Env → Tx → State → Result Error (Unit {0})
unfolding check_reseal
validate_reseal_vote env t s = do
  d ← or_err (env.decode_reseal_vote t.payload) invalid_payload
  check_reseal env d s

abbrev seal : VoteRecord → VoteRecord
seal vote = record vote { partition_id = partition_sealed }

abbrev count_sealed : Poll → Poll
count_sealed p = record p { sealed_count = p.sealed_count +ℤ pos 1 }

-- The vote is written before the poll is read: without the poll the process ends with the vote
-- already sealed.
unfoldable pub seal_in_poll : ResealVoteData → Option Poll → Handler
seal_in_poll d none s = (err panic, s)
seal_in_poll d (some p) s = (
  ok (
      event (bytes "partition_migrated") (
        attribute (bytes "scoping_id") (text d.poll_id) true
        ∷ attribute (bytes "submission_id") (text d.ballot_id) true
        ∷ attribute (bytes "sealed_count") (dec (count_sealed p).sealed_count) false
        ∷ [])
      ∷ []),
  record s { polls = insert d.poll_id (count_sealed p) s.polls; dirty = true },
)

unfoldable pub reseal_vote : ResealVoteData → Option VoteRecord → Handler
unfolding seal_in_poll
reseal_vote d none s = (err not_eligible, s)
reseal_vote d (some vote) s =
    if vote.superseded || vote.partition_id == partition_sealed
    then (err not_eligible, s)
    else seal_in_poll d (lookup d.poll_id s.polls) (record s {
      vote_directions = insert (store_key d.poll_id d.ballot_id) (seal vote) s.vote_directions;
    })

unfoldable pub execute_reseal_vote : Env → Tx → Handler
unfolding reseal_vote
execute_reseal_vote env t s = elim (env.decode_reseal_vote t.payload) [
  | none ↦ (err invalid_payload, s)
  | some d ↦ reseal_vote d (lookup (store_key d.poll_id d.ballot_id) s.vote_directions) s
]
