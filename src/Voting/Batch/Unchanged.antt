-- ===== src/Voting/Batch/Unchanged.antt =====
-- What validating a batch changes: at most the polls.
use community.Base.{◌∙◌, List, [], ◌∷◌, Bool-cases, inl, inr, eqb}
use community.Base.Result.{Result, ok, err}
use community.Base.Exec.{Exec, reads, ◌>>=◌}
use community.Data.Bytes.{Bytes}
use community.Data.Int64.{ℤ}
use community.Protocol.Errors.{Error}
use community.Protocol.Txs.{Tx, tx_type_ballot_cast}
use community.Voting.Ballots.{validate_ballot_cast}
use community.Voting.Ballots.Accepted.{SameBut, SameBut-refl, validate_ballot_cast-SameBut}
use community.Voting.Batch.Checks.{
  submission_keys, validate_submission, validate_submissions, and_then,
}
use community.Voting.Env.{Env}
use community.Voting.State.{State, Validator}

pub SameBut-trans : {s t u : State} → SameBut s t → SameBut t u → SameBut s u
SameBut-trans a b = record {
  signer = b.signer ∙ a.signer;
  verifier = b.verifier ∙ a.verifier;
  votes = b.votes ∙ a.votes;
  registry = b.registry ∙ a.registry;
  restores = b.restores ∙ a.restores;
}

reads-SameBut :
    (env : Env) (p : Bytes) (t : Tx) (ballots identities : List Bytes) (s : State)
    (r : Result Error (Unit {0}) × State)
    → SameBut s r.1
    → let m : Exec Error State (Unit {0}) = λ _. r in
      SameBut s ((m >>= λ _. reads (submission_keys env p t ballots identities)) s).1
reads-SameBut env p t ballots identities s (ok tt, s') same = same
reads-SameBut env p t ballots identities s (err e, s') same = same

validate_submission-SameBut :
    (env : Env) (now : ℤ) (p : Bytes) (ballots identities : List Bytes) (t : Tx) (s : State)
    → SameBut s (validate_submission env now p ballots identities t s).1
unfolding validate_submission
validate_submission-SameBut env now p ballots identities t s =
    elim (Bool-cases (eqb t.type tx_type_ballot_cast)) [
      | inl e ↦
          rw (e, validate_submission)
            (reads-SameBut env p t ballots identities s (validate_ballot_cast env now t s)
              (validate_ballot_cast-SameBut env now t s))
      | inr e ↦ rw (e, validate_submission) (SameBut-refl s)
    ]

and_then-SameBut :
    (more : Bytes → Bytes → Validator) (s : State) (r : Result Error (Bytes × Bytes) × State)
    → ((b k : Bytes) (u : State) → SameBut u (more b k u).1)
    → SameBut s r.1
    → SameBut s (and_then more r).1
and_then-SameBut more s (ok (b, k), u) keep same = SameBut-trans same (keep b k u)
and_then-SameBut more s (err e, u) keep same = same

-- Whatever the outcome, validating a batch changes at most the polls.
pub validate_submissions-SameBut :
    (env : Env) (now : ℤ) (p : Bytes) (ballots identities : List Bytes) (ts : List Tx) (s : State)
    → SameBut s (validate_submissions env now p ballots identities ts s).1
unfolding validate_submissions
validate_submissions-SameBut env now p ballots identities [] s = SameBut-refl s
validate_submissions-SameBut env now p ballots identities (t ∷ ts) s =
    and_then-SameBut _ s (validate_submission env now p ballots identities t s)
      (λ b k u. validate_submissions-SameBut env now p (b ∷ ballots) (k ∷ identities) ts u)
      (validate_submission-SameBut env now p ballots identities t s)
