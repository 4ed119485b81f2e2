-- ===== src/Voting/Batch/Checks.antt =====
-- domain/state/batch_flush.go, `validateBatchFlush`.
use community.Base.{not, none, some, List, [], ◌∷◌, eqb, if◌then◌else◌}
use community.Base.Result.{Result, ok, err}
use community.Base.Exec.{Exec, reads, ◌>>◌}
use community.Data.Bytes.{Bytes, ◌==◌}
use community.Data.GoMap.{lookup}
use community.Data.Int64.{ℤ}
use community.Protocol.Errors.{
  Error, invalid_payload, poll_missing, poll_closed, not_ballot_cast, poll_mismatch,
  duplicate_ballot, duplicate_identity, identity_failed,
}
use community.Protocol.Txs.{Tx, BatchFlushData, tx_type_ballot_cast}
use community.Protocol.Types.{status_closed}
use community.Voting.Ballots.{validate_ballot_cast, cast_ballot_id}
use community.Voting.Ballots.Checks.{identify_cast}
use community.Voting.Choices.{contains}
use community.Voting.Env.{Env}
use community.Voting.State.{State, Validator, store_key}

unfoldable pub batch_poll : Env → Tx → State → Result Error BatchFlushData
batch_poll env t s = elim (env.decode_batch_flush t.payload) [
  | none ↦ err invalid_payload
  | some d ↦ elim (lookup d.poll_id s.polls) [
    | none ↦ err poll_missing
    | some poll ↦ if poll.status == status_closed then err poll_closed else ok d
  ]
]

-- What the loop tests after `validateBallotCast`: the poll, and that neither the ballot id nor the
-- registry key was seen before. The keys to remember are returned.
unfoldable pub submission_keys :
    Env → Bytes → Tx → List Bytes → List Bytes → State → Result Error (Bytes × Bytes)
submission_keys env poll_id t ballots identities s = elim (env.decode_ballot_cast t.payload) [
  | none ↦ err invalid_payload
  | some c ↦
      if not (c.poll_id == poll_id)
      then err poll_mismatch
      else if contains ballots (cast_ballot_id env c)
      then err duplicate_ballot
      else elim (identify_cast s c) [
        | none ↦ err identity_failed
        | some identity ↦
            if contains identities (store_key poll_id identity)
            then err duplicate_identity
            else ok (cast_ballot_id env c, store_key poll_id identity)
      ]
]

unfoldable pub validate_cast_submission :
    Env → ℤ → Bytes → List Bytes → List Bytes → Tx → Exec Error State (Bytes × Bytes)
unfolding submission_keys
validate_cast_submission env now poll_id ballots identities t = do
  validate_ballot_cast env now t
  reads (submission_keys env poll_id t ballots identities)

-- one round of the loop
unfoldable pub validate_submission :
    Env → ℤ → Bytes → List Bytes → List Bytes → Tx → Exec Error State (Bytes × Bytes)
unfolding validate_cast_submission
validate_submission env now poll_id ballots identities t s =
    if eqb t.type tx_type_ballot_cast
    then validate_cast_submission env now poll_id ballots identities t s
    else (err not_ballot_cast, s)

abbrev pub and_then :
    (Bytes → Bytes → Validator)
    → Result Error (Bytes × Bytes) × State
    → Result Error (Unit {0}) × State
and_then more (ok (ballot, identity), s) = more ballot identity s
and_then more (err e, s) = (err e, s)

-- The loop over the submissions, with the ballot ids and registry keys that it has seen.
unfoldable pub validate_submissions :
    Env → ℤ → Bytes → List Bytes → List Bytes → List Tx → Validator
unfolding validate_submission
validate_submissions env now poll_id ballots identities [] s = (ok tt, s)
validate_submissions env now poll_id ballots identities (t ∷ ts) s =
    and_then
      (λ ballot identity.
        validate_submissions env now poll_id (ballot ∷ ballots) (identity ∷ identities) ts)
      (validate_submission env now poll_id ballots identities t s)

-- The poll exists and is not closed, then the loop.
unfoldable pub validate_batch_of : Env → ℤ → Result Error BatchFlushData → Validator
validate_batch_of env now (err e) s = (err e, s)
validate_batch_of env now (ok d) s = validate_submissions env now d.poll_id [] [] d.submissions s

unfoldable pub validate_batch_flush : Env → ℤ → Tx → Validator
unfolding validate_batch_of batch_poll
validate_batch_flush env now t s = validate_batch_of env now (batch_poll env t s) s
