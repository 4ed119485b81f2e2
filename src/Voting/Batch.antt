-- ===== src/Voting/Batch.antt =====
-- domain/state/batch_flush.go: materialising a queued batch of ballots. Its validation is in Batch/Checks.
pub mod Order
pub mod Checks
pub mod Rolling
pub mod Accepted
pub mod Unchanged
pub mod Written
pub mod Permuted
pub mod Unlinked
use community.Base.{
  ℕ, zero, suc, ◌+◌, ◌-◌, Bool, true, false, not, ◌&&◌, ◌||◌, Option, none, some, List, [], ◌∷◌,
  ◌++◌, eqb, length, is_empty, is_some, if◌then◌else◌,
}
use community.Base.Result.{Result, ok, err, check, reject, or_err}
use community.Base.Exec.{Exec, reads, ◌>>=◌, ◌>>◌}
use community.Data.Bytes.{Bytes, bytes, ◌==◌}
use community.Data.Bytes.Order.{leb_bytes}
use community.Data.GoMap.{GoMap, lookup, insert}
use community.Data.Hex.{hex_encode}
use community.Data.Int64.{ℤ, pos, pos_part, ◌+ℤ◌, ◌-ℤ◌, leb_ℤ}
use community.Protocol.Errors.{
  Error, panic, invalid_payload, poll_missing, poll_closed, not_ballot_cast, poll_mismatch,
  duplicate_ballot, duplicate_identity, identity_failed,
}
use community.Protocol.Events.{Event, text, dec, event, attribute}
use community.Protocol.Txs.{Tx, BallotCastData, BatchFlushData, tx_type_ballot_cast}
use community.Protocol.Types.{VoteRecord, VoterRecord, status_closed}
use community.Voting.Attestation.{commit_rolling_attestation}
use community.Voting.Ballots.{
  validate_ballot_cast, cast_ballot_id, submission_count, set_submission_count, is_rolling,
  count_cast,
}
use community.Voting.Ballots.Checks.{identify_cast, migration_auth_hash}
use community.Voting.Choices.{contains}
use community.Voting.Env.{Env, IdentityVerifier}
use community.Voting.State.{State, Handler, Validator, store_key, update}

-- `batchCandidate`, without the transaction that it came from
pub record Candidate : Type 0 where
  pub cast : BallotCastData
  pub ballot_id : Bytes
  pub identity_hash : Bytes

abbrev one_candidate : Env → BallotCastData → Option IdentityVerifier → Result Error Candidate
one_candidate env c none = err panic
one_candidate env c (some v) = elim (v.verify_and_identify c) [
  | none ↦ err identity_failed
  | some identity ↦
      ok (record { cast = c; ballot_id = cast_ballot_id env c; identity_hash = identity })
]

abbrev then_candidates :
    Result Error Candidate → Result Error (List Candidate) → Result Error (List Candidate)
then_candidates (err e) rest = err e
then_candidates (ok c) (err e) = err e
then_candidates (ok c) (ok cs) = ok (c ∷ cs)

-- the first loop of `executeBatchFlush`
unfoldable pub to_candidates :
    Env → Option IdentityVerifier → List Tx → Result Error (List Candidate)
to_candidates env v [] = ok []
to_candidates env v (t ∷ ts) =
    let rest = to_candidates env v ts in
    elim (env.decode_ballot_cast t.payload) [
      | none ↦ err invalid_payload
      | some c ↦ then_candidates (one_candidate env c v) rest
    ]

-- `sort.Slice` by ballot id. (It leaves the order of equal ids open; here they keep theirs.)
insert_candidate : Candidate → List Candidate → List Candidate
insert_candidate x [] = x ∷ []
insert_candidate x (y ∷ ys) =
    let rest = insert_candidate x ys in
    if leb_bytes x.ballot_id y.ballot_id then x ∷ y ∷ ys else y ∷ rest

unfoldable pub sort_candidates : List Candidate → List Candidate
unfolding insert_candidate
sort_candidates [] = []
sort_candidates (x ∷ xs) = insert_candidate x (sort_candidates xs)

-- the body of the second loop
unfoldable pub write_candidate : Env → Candidate → State → State
write_candidate env c s = record s {
  vote_directions =
      insert (store_key c.cast.poll_id c.ballot_id)
        (record {
          ballot_id = c.ballot_id;
          choices = c.cast.choices;
          partition_id = [];
          superseded = false;
          voter_pub_key_hash = migration_auth_hash env c.cast.voter_pub_key c.cast.poll_id;
        })
        s.vote_directions;
  voter_registry =
      insert (store_key c.cast.poll_id c.identity_hash) (record { identity_hash = c.identity_hash })
        s.voter_registry;
}

unfoldable pub write_candidates : Env → List Candidate → State → State
unfolding write_candidate
write_candidates env [] s = s
write_candidates env (c ∷ cs) s = write_candidates env cs (write_candidate env c s)

abbrev pub prepend :
    List Event → Result Error (List Event) × State → Result Error (List Event) × State
prepend events (ok more, s) = (ok (events ++ more), s)
prepend events (err e, s) = (err e, s)

-- A checkpoint that fails ends the loop with its error.
abbrev pub after_checkpoint :
    Handler → Result Error (List Event) × State → Result Error (List Event) × State
after_checkpoint more (ok events, s) = prepend events (more s)
after_checkpoint more (err e, s) = (err e, s)

-- one round: the count is lowered by the threshold, and a checkpoint is taken
unfoldable pub take_checkpoint : Env → ℤ → Bytes → Handler
take_checkpoint env now poll_id s =
    commit_rolling_attestation env now poll_id
      (set_submission_count poll_id (submission_count poll_id s -ℤ s.rolling_threshold) s)

-- `for s.submissionCounts[pollID] >= s.rollingThreshold`
unfoldable pub roll_batch : ℕ → Env → ℤ → Bytes → Handler
unfolding take_checkpoint
roll_batch zero env now poll_id s = (ok [], s)
roll_batch (suc fuel) env now poll_id s =
    let round =
      after_checkpoint (roll_batch fuel env now poll_id) (take_checkpoint env now poll_id s) in
    if leb_ℤ s.rolling_threshold (submission_count poll_id s) then round else (ok [], s)

-- `computeBatchID`
hash_input : List Candidate → Bytes
hash_input [] = []
hash_input (c ∷ cs) = 0 ∷ (c.ballot_id ++ hash_input cs)

unfoldable pub compute_batch_id : Env → Bytes → List Candidate → Bytes
unfolding hash_input
compute_batch_id env poll_id cs = hex_encode (env.sha256 (poll_id ++ hash_input cs))

unfoldable pub flushed_event : Env → Bytes → List Candidate → Event
flushed_event env poll_id cs = event (bytes "submission_batch_flushed") (
    attribute (bytes "scoping_id") (text poll_id) true
    ∷ attribute (bytes "batch_id") (text (compute_batch_id env poll_id cs)) true
    ∷ attribute (bytes "submission_count") (dec (pos (length cs))) false
    ∷ [])

-- the state after both lists and the counter are written
unfoldable pub materialize : Env → Bytes → List Candidate → State → State
unfolding write_candidates
materialize env poll_id cs s =
    let s' = write_candidates env cs s in
    record s' { polls = update poll_id (count_cast (pos (length cs))) s'.polls; dirty = true }

-- The rounds of the checkpoint loop that a count can need.
abbrev pub rounds : ℤ → ℕ
rounds z = pos_part z

finish :
    Env
    → Bytes
    → List Candidate
    → Result Error (List Event) × State
    → Result Error (List Event) × State
finish env poll_id cs (ok more, s) = (ok (flushed_event env poll_id cs ∷ more), s)
finish env poll_id cs (err e, s) = (err e, s)

-- `executeBatchFlush` once the candidates are known, in ascending order of ballot id
unfoldable pub flush : Env → ℤ → Bytes → List Candidate → Handler
unfolding finish materialize roll_batch submission_count
flush env now poll_id cs s =
    let s' = materialize env poll_id cs s in
    let n = submission_count poll_id s' +ℤ pos (length cs) in
    finish env poll_id cs (
      if is_rolling s'
      then roll_batch (rounds n) env now poll_id (set_submission_count poll_id n s')
      else (ok [], s'))

unfoldable pub flush_result : Env → ℤ → Bytes → Result Error (List Candidate) → Handler
flush_result env now poll_id (err e) s = (err e, s)
flush_result env now poll_id (ok cs) s = flush env now poll_id (sort_candidates cs) s

unfoldable pub execute_batch_flush : Env → ℤ → Tx → Handler
unfolding flush_result flush to_candidates
execute_batch_flush env now t s = elim (env.decode_batch_flush t.payload) [
  | none ↦ (err invalid_payload, s)
  | some d ↦ flush_result env now d.poll_id (to_candidates env s.verifier d.submissions) s
]
