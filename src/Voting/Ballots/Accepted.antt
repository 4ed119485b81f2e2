-- ===== src/Voting/Ballots/Accepted.antt =====
-- What an accepted ballot cast is, and what its validation changes.
use community.Base.{◌≡◌, refl, ◌&&◌, false, not, some, arith, is_some, Option-cases, inl, inr}
use community.Base.Result.{Result, ok, err}
use community.Data.Bytes.{Bytes}
use community.Data.GoMap.{lookup}
use community.Data.Int64.{ℤ}
use community.Protocol.Errors.{Error}
use community.Protocol.Txs.{Tx, BallotCastData}
use community.Protocol.Types.{Poll}
use community.Voting.Ballots.{validate_ballot_cast, validate_open_cast}
use community.Voting.Ballots.Checks.{
  check_cast, check_identity, check_choice_and_identity, identify_cast, has_restore_grant,
  open_poll,
}
use community.Voting.Env.{Env}
use community.Voting.State.{State, store_key}

-- Nothing but the polls may differ.
pub record SameBut (s s' : State) : Type 0 where
  pub signer : s'.signer ≡ s.signer
  pub verifier : s'.verifier ≡ s.verifier
  pub votes : s'.vote_directions ≡ s.vote_directions
  pub registry : s'.voter_registry ≡ s.voter_registry
  pub restores : s'.restores ≡ s.restores

pub open_poll-SameBut :
    (now : ℤ) (poll_id : Bytes) (poll : Poll) (s : State) → SameBut s (open_poll now poll_id poll s)
unfolding open_poll
open_poll-SameBut now poll_id poll s = ground arith

-- An accepted ballot decodes, its attestation gives an identity, and that identity has no ballot
-- in the poll, or a restore grant.
pub record Accepts (env : Env) (t : Tx) (s : State) : Type 0 where
  pub cast : BallotCastData
  pub identity : Bytes
  pub decoded : env.decode_ballot_cast t.payload ≡ some cast
  pub identified : identify_cast s cast ≡ some identity
  pub allowed :
      (is_some (lookup (store_key cast.poll_id identity) s.voter_registry)
        && not (has_restore_grant cast.poll_id identity s))
      ≡ false

check_identity-some :
    (d : BallotCastData) (s : State)
    → check_identity d s ≡ ok tt
    → (i : Bytes) × (identify_cast s d ≡ some i)
      × ((is_some (lookup (store_key d.poll_id i) s.voter_registry)
            && not (has_restore_grant d.poll_id i s))
          ≡ false)
unfolding check_identity
check_identity-some d s h = elim (Option-cases (identify_cast s d)) [
  | inl e ↦ absurd (ground arith)
  | inr (i, e) ↦ (i, e, ground arith)
]

check_cast-decoded :
    (env : Env) (now : ℤ) (t : Tx) (s : State) (d : BallotCastData) (poll : Poll)
    → check_cast env now t s ≡ ok (d, poll)
    → env.decode_ballot_cast t.payload ≡ some d
unfolding check_cast
check_cast-decoded env now t s d poll h = ground arith

pub SameBut-refl : (s : State) → SameBut s s
SameBut-refl s = record {
  signer = refl;
  verifier = refl;
  votes = refl;
  registry = refl;
  restores = refl;
}

validate_open_cast-SameBut :
    (now : ℤ) (r : Result Error (BallotCastData × Poll)) (s : State)
    → SameBut s (validate_open_cast now r s).1
unfolding validate_open_cast
validate_open_cast-SameBut now (ok (d, poll)) s = open_poll-SameBut now d.poll_id poll s
validate_open_cast-SameBut now (err e) s = SameBut-refl s

-- Whatever the outcome, validating a ballot changes at most the polls.
pub validate_ballot_cast-SameBut :
    (env : Env) (now : ℤ) (t : Tx) (s : State) → SameBut s (validate_ballot_cast env now t s).1
unfolding validate_ballot_cast
validate_ballot_cast-SameBut env now t s = validate_open_cast-SameBut now (check_cast env now t s) s

check_rest :
    (poll : Poll) (d : BallotCastData) (s : State)
    → check_choice_and_identity poll d s ≡ ok tt
    → check_identity d s ≡ ok tt
unfolding check_choice_and_identity
check_rest poll d s h = ground arith

validate_open_cast-Accepts :
    (env : Env) (now : ℤ) (t : Tx) (s : State) (r : Result Error (BallotCastData × Poll))
    → check_cast env now t s ≡ r
    → (validate_open_cast now r s).0 ≡ ok tt
    → Accepts env t s
unfolding validate_open_cast has_restore_grant
validate_open_cast-Accepts env now t s (err e) c h = absurd (ground arith)
validate_open_cast-Accepts env now t s (ok (d, poll)) c h =
    let s' = open_poll now d.poll_id poll s in
    let same = open_poll-SameBut now d.poll_id poll s in
    let (i, identified, allowed) = check_identity-some d s' (check_rest poll d s' h) in
    record {
      cast = d;
      identity = i;
      decoded = check_cast-decoded env now t s d poll c;
      identified = rw same.verifier at identified;
      allowed = rw (same.registry, same.restores) at allowed;
    }

-- Validation that succeeds has seen an acceptable ballot.
pub validate_ballot_cast-Accepts :
    (env : Env) (now : ℤ) (t : Tx) (s : State)
    → (validate_ballot_cast env now t s).0 ≡ ok tt
    → Accepts env t s
unfolding validate_ballot_cast
validate_ballot_cast-Accepts env now t s h =
    validate_open_cast-Accepts env now t s (check_cast env now t s) refl h
