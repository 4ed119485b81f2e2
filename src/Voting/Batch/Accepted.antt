-- ===== src/Voting/Batch/Accepted.antt =====
-- What an accepted batch is: its submissions become candidates that are pairwise distinct.
use community.Base.{
  ◌≡◌, refl, sym, subst, false, not, ◌&&◌, some, List, [], ◌∷◌, arith, is_some, Bool-cases, inl,
  inr, eqb,
}
use community.Base.Result.{Result, ok, err}
use community.Base.Exec.{Exec, reads, ◌>>=◌}
use community.Data.Bytes.{Bytes, ==_iff}
use community.Data.GoMap.{lookup}
use community.Data.Int64.{ℤ}
use community.Protocol.Errors.{Error}
use community.Protocol.Txs.{Tx, BallotCastData, tx_type_ballot_cast}
use community.Voting.Ballots.{validate_ballot_cast, cast_ballot_id}
use community.Voting.Ballots.Accepted.{
  SameBut, Accepts, validate_ballot_cast-SameBut, validate_ballot_cast-Accepts,
}
use community.Voting.Ballots.Checks.{identify_cast, has_restore_grant}
use community.Voting.Batch.{Candidate, to_candidates}
use community.Voting.Batch.Unchanged.{SameBut-trans}
use community.Voting.Batch.Checks.{
  submission_keys, validate_submission, validate_submissions, and_then,
}
use community.Voting.Choices.{contains}
use community.Voting.Env.{Env}
use community.Voting.State.{State, Validator, store_key}

-- The identity of a candidate has no ballot in the poll, or a restore grant.
abbrev pub Allowed : Candidate → State → Type 0
Allowed c s =
    (is_some (lookup (store_key c.cast.poll_id c.identity_hash) s.voter_registry)
      && not (has_restore_grant c.cast.poll_id c.identity_hash s))
    ≡ false

-- Candidates of the poll, allowed, with ids and keys that are not among those seen.
abbrev pub Accepted : Bytes → List Bytes → List Bytes → State → List Candidate → Type 0
Accepted p ballots identities s [] = Unit
Accepted p ballots identities s (c ∷ cs) =
    (c.cast.poll_id ≡ p)
    × (contains ballots c.ballot_id ≡ false)
    × (contains identities (store_key p c.identity_hash) ≡ false)
    × Allowed c s
    × Accepted p (c.ballot_id ∷ ballots) (store_key p c.identity_hash ∷ identities) s cs

keys_inv :
    (env : Env) (p : Bytes) (t : Tx) (ballots identities : List Bytes) (s : State)
    (c : BallotCastData) (i b k : Bytes)
    → env.decode_ballot_cast t.payload ≡ some c
    → identify_cast s c ≡ some i
    → submission_keys env p t ballots identities s ≡ ok (b, k)
    → (c.poll_id ≡ p)
      × (b ≡ cast_ballot_id env c)
      × (k ≡ store_key p i)
      × (contains ballots (cast_ballot_id env c) ≡ false)
      × (contains identities (store_key p i) ≡ false)
unfolding submission_keys
keys_inv env p t ballots identities s c i b k decoded identified h =
    ground (arith, ==_iff c.poll_id p)

-- What one round of the loop shows of a submission that passes.
record Round (env : Env) (p : Bytes) (ballots identities : List Bytes) (t : Tx) (s s' : State)
    (b k : Bytes) : Type 0 where
  accepts : Accepts env t s
  keys : submission_keys env p t ballots identities s' ≡ ok (b, k)
  same : SameBut s s'

Round-of_result :
    (env : Env) (p : Bytes) (ballots identities : List Bytes) (t : Tx) (s : State)
    (r : Result Error (Unit {0}) × State) (b k : Bytes)
    → (r.0 ≡ ok tt → Accepts env t s)
    → SameBut s r.1
    → let m : Exec Error State (Unit {0}) = λ _. r in
      ((m >>= λ _. reads (submission_keys env p t ballots identities)) s).0 ≡ ok (b, k)
      → let m : Exec Error State (Unit {0}) = λ _. r in
        Round env p ballots identities t s
          ((m >>= λ _. reads (submission_keys env p t ballots identities)) s).1
          b
          k
Round-of_result env p ballots identities t s (ok tt, s') b k acc same h = record {
  accepts = acc refl;
  keys = h;
  same = same;
}
Round-of_result env p ballots identities t s (err e, s') b k acc same h = absurd (ground arith)

validate_submission-Round :
    (env : Env) (now : ℤ) (p : Bytes) (ballots identities : List Bytes) (t : Tx) (s : State)
    (b k : Bytes)
    → (validate_submission env now p ballots identities t s).0 ≡ ok (b, k)
    → Round env p ballots identities t s
        (validate_submission env now p ballots identities t s).1
        b
        k
unfolding validate_submission
validate_submission-Round env now p ballots identities t s b k h =
    elim (Bool-cases (eqb t.type tx_type_ballot_cast)) [
      | inl e ↦
          rw (e, validate_submission)
            (Round-of_result env p ballots identities t s (validate_ballot_cast env now t s) b k
              (validate_ballot_cast-Accepts env now t s) (validate_ballot_cast-SameBut env now t s)
              (rw (e, validate_submission) at h))
      | inr e ↦ absurd (ground arith)
    ]

and_then-ok :
    (more : Bytes → Bytes → Validator) (r : Result Error (Bytes × Bytes) × State)
    → (and_then more r).0 ≡ ok tt
    → (b : Bytes) × (k : Bytes) × (r.0 ≡ ok (b, k)) × ((more b k r.1).0 ≡ ok tt)
and_then-ok more (ok (b, k), s) h = (b, k, refl, h)
and_then-ok more (err e, s) h = absurd (ground arith)

to_candidates-cons :
    (env : Env) (s : State) (t : Tx) (ts : List Tx) (c : BallotCastData) (i : Bytes)
    (cs : List Candidate)
    → env.decode_ballot_cast t.payload ≡ some c
    → identify_cast s c ≡ some i
    → to_candidates env s.verifier ts ≡ ok cs
    → to_candidates env s.verifier (t ∷ ts)
      ≡ ok ((record { cast = c; ballot_id = cast_ballot_id env c; identity_hash = i }) ∷ cs)
unfolding to_candidates
to_candidates-cons env s t ts c i cs decoded identified rest = ground arith

identify_same :
    (s s' : State) (c : BallotCastData) (i : Bytes)
    → s'.verifier ≡ s.verifier
    → identify_cast s c ≡ some i
    → identify_cast s' c ≡ some i
identify_same s s' c i e h = ground arith

allowed_same :
    (s s' : State) (p i : Bytes)
    → SameBut s s'
    → (is_some (lookup (store_key p i) s'.voter_registry) && not (has_restore_grant p i s')) ≡ false
    → (is_some (lookup (store_key p i) s.voter_registry) && not (has_restore_grant p i s)) ≡ false
unfolding has_restore_grant
allowed_same s s' p i same h = ground (arith, same.registry, same.restores)

extend :
    (env : Env) (p : Bytes) (ballots identities : List Bytes) (t : Tx) (ts : List Tx)
    (start s s' : State) (b k : Bytes) (cs : List Candidate) (a : Accepts env t s)
    → submission_keys env p t ballots identities s' ≡ ok (b, k)
    → SameBut start s
    → SameBut s s'
    → to_candidates env start.verifier ts ≡ ok cs
    → Accepted p (b ∷ ballots) (k ∷ identities) start cs
    → (all : List Candidate) × (to_candidates env start.verifier (t ∷ ts) ≡ ok all)
      × Accepted p ballots identities start all
extend env p ballots identities t ts start s s' b k cs a keys before round candidates accepted =
    let (own, eb, ek, new_ballot, new_key) =
      keys_inv env p t ballots identities s' a.cast a.identity b k a.decoded
        (identify_same s s' a.cast a.identity round.verifier a.identified) keys in
    (
      (record { cast = a.cast; ballot_id = cast_ballot_id env a.cast; identity_hash = a.identity })
          ∷ cs,
      to_candidates-cons env start t ts a.cast a.identity cs a.decoded
          (identify_same s start a.cast a.identity (sym before.verifier) a.identified) candidates,
      (
        own,
        new_ballot,
        new_key,
        allowed_same start s a.cast.poll_id a.identity before a.allowed,
        subst (λ x. Accepted p (x ∷ ballots) (store_key p a.identity ∷ identities) start cs) eb
            (subst (λ x. Accepted p (b ∷ ballots) (x ∷ identities) start cs) ek accepted),
      ),
    )

-- A batch that passes has candidates, and they are accepted in the state before it.
pub validate_submissions-Accepted :
    (env : Env) (now : ℤ) (p : Bytes) (ballots identities : List Bytes) (ts : List Tx)
    (start s : State)
    → SameBut start s
    → (validate_submissions env now p ballots identities ts s).0 ≡ ok tt
    → (cs : List Candidate) × (to_candidates env start.verifier ts ≡ ok cs)
      × Accepted p ballots identities start cs
unfolding validate_submissions
validate_submissions-Accepted env now p ballots identities [] start s same h =
    ([], unfold to_candidates in refl, tt)
validate_submissions-Accepted env now p ballots identities (t ∷ ts) start s same h =
    let (b, k, one, more) =
      and_then-ok _ (validate_submission env now p ballots identities t s) h in
    let round = validate_submission-Round env now p ballots identities t s b k one in
    let (cs, candidates, accepted) =
      validate_submissions-Accepted env now p (b ∷ ballots) (k ∷ identities) ts start
        (validate_submission env now p ballots identities t s).1 (SameBut-trans same round.same)
        more in
    extend env p ballots identities t ts start s _ b k cs round.accepts round.keys same round.same
      candidates accepted
