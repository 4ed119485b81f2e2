-- ===== src/Voting/Close.antt =====
-- domain/state/tallies.go: closing a poll and writing its tally.
use community.Base.{
  Bool, true, false, none, some, List, [], ◌∷◌, eqb, length, is_some, if◌then◌else◌,
}
use community.Base.Result.{Result, ok, err, ◌>>=◌, ◌>>◌, reject, or_err}
use community.Data.Bytes.{Bytes, bytes, ◌==◌}
use community.Data.GoMap.{GoMap, lookup, insert}
use community.Data.Int64.{ℤ, pos, ◌+ℤ◌, ltb_ℤ}
use community.Protocol.Errors.{
  Error, panic, invalid_payload, poll_missing, poll_closed, poll_not_ended, tally_exists,
  count_mismatch,
}
use community.Protocol.Events.{Event, text, dec, hex, event, attribute}
use community.Protocol.Txs.{Tx, PollCloseData}
use community.Protocol.Types.{Poll, Tally, status_closed}
use community.Voting.Attestation.{build_signing_payload, sign_tally_payload, public_key_for}
use community.Voting.Attestation.Collect.{collect_votes, collect_identity_hashes, zero_counts}
use community.Voting.Attestation.Merkle.{compute_merkle_root}
use community.Voting.Choices.{effective_method}
use community.Voting.Env.{Env}
use community.Voting.State.{State, Handler, confirmed_count_for_poll}

unfoldable pub check_close : ℤ → PollCloseData → State → Result Error (Unit {0})
check_close now d s = do
  poll ← or_err (lookup d.poll_id s.polls) poll_missing
  reject (poll.status == status_closed) poll_closed
  reject (ltb_ℤ now poll.end_time) poll_not_ended
  reject (is_some (lookup d.poll_id s.tallies)) tally_exists

unfoldable pub validate_poll_close : Env → ℤ → Tx → State → Result Error (Unit {0})
unfolding check_close
validate_poll_close env now t s = do
  d ← or_err (env.decode_poll_close t.payload) invalid_payload
  check_close now d s

-- With the mode "none" there is no signature.
abbrev signed_unless_none : Env → State → Bytes → Bytes → ℤ → GoMap ℤ → Bytes × Bool × Bytes
signed_unless_none env s l1 l2 total counts =
    let signed = sign_tally_payload s.signer (build_signing_payload env l1 l2 total counts) in
    if s.attestation_mode == bytes "none"
    then ([], false, [])
    else (signed.0, signed.1, public_key_for s.signer signed.1)

unfoldable pub final_tally : Env → ℤ → Bytes → Poll → State → Tally
final_tally env now poll_id poll s =
    let method = effective_method poll.voting_method in
    let collected = collect_votes poll_id method s.vote_directions (zero_counts poll.options []) in
    let total = pos (length collected.0) in
    let l1 = compute_merkle_root env.sha256 collected.0 in
    let l2 = compute_merkle_root env.sha256 (collect_identity_hashes poll_id s.voter_registry) in
    let signed = signed_unless_none env s l1 l2 total collected.1 in
    record {
      poll_id = poll_id;
      voting_method = method;
      counts = collected.1;
      total_votes = total;
      confirmed_count = pos (confirmed_count_for_poll poll_id s);
      vote_merkle_root = l1;
      voter_merkle_root = l2;
      signature = signed.0;
      public_key = signed.2;
      finalized_at = now;
      height = s.height +ℤ pos 1;
      attestation_degraded = signed.1;
      rescission_count = pos 0;
    }

closed_events : Bytes → Tally → List Event
closed_events poll_id tally =
    event (bytes "poll_closed") (
      attribute (bytes "scoping_id") (text poll_id) true
      ∷ attribute (bytes "total_votes") (dec tally.total_votes) false
      ∷ attribute (bytes "l1_commitment") (hex tally.vote_merkle_root) false
      ∷ attribute (bytes "l2_commitment") (hex tally.voter_merkle_root) false
      ∷ attribute (bytes "finalized_at") (dec tally.finalized_at) false
      ∷ [])
    ∷ []

-- the counts of the two lists, as the code compares them
unfoldable pub lists_match : Bytes → Poll → State → Bool
lists_match poll_id poll s = eqb (length (collect_identity_hashes poll_id s.voter_registry)) (
    length
      (collect_votes poll_id (effective_method poll.voting_method) s.vote_directions
        (zero_counts poll.options [])).0)

unfoldable pub close_poll : Env → ℤ → Bytes → Poll → Handler
unfolding closed_events lists_match
close_poll env now poll_id poll s =
    if lists_match poll_id poll s
    then (
      ok (closed_events poll_id (final_tally env now poll_id poll s)),
      record s {
        polls = insert poll_id (record poll { status = status_closed }) s.polls;
        tallies = insert poll_id (final_tally env now poll_id poll s) s.tallies;
        dirty = true;
      },
    )
    else (err count_mismatch, s)

unfoldable pub execute_poll_close : Env → ℤ → Tx → Handler
unfolding close_poll
execute_poll_close env now t s = elim (env.decode_poll_close t.payload) [
  | none ↦ (err invalid_payload, s)
  | some d ↦ elim (lookup d.poll_id s.polls) [
    | none ↦ (err panic, s)
    | some poll ↦ close_poll env now d.poll_id poll s
  ]
]
