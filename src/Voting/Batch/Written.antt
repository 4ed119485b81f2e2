-- ===== src/Voting/Batch/Written.antt =====
-- What a flush leaves of the two lists: what writing the candidates makes of them.
use community.Base.{arith, ℕ, ◌≡◌, refl, [], length, Bool, true, false, List, if◌then◌else◌, some}
use community.Base.Result.{Result, ok, err}
use community.Data.Bytes.{Bytes}
use community.Data.Int64.{ℤ, pos, ◌+ℤ◌}
use community.Protocol.Errors.{Error}
use community.Protocol.Events.{Event}
use community.Protocol.Txs.{Tx, BatchFlushData}
use community.Voting.Ballots.{is_rolling, set_submission_count, submission_count}
use community.Voting.Batch.{
  Candidate, write_candidates, sort_candidates, materialize, rounds, roll_batch, finish, flush,
  flush_result, to_candidates, execute_batch_flush,
}
use community.Voting.Batch.Rolling.{roll_batch-SameLists}
use community.Voting.Env.{Env}
use community.Voting.State.{State}

-- both lists
abbrev pub SameTwo : State → State → Type 0
SameTwo s s' = (s'.vote_directions ≡ s.vote_directions) × (s'.voter_registry ≡ s.voter_registry)

finish-SameTwo :
    (env : Env) (p : Bytes) (cs : List Candidate) (s : State)
    (r : Result Error (List Event) × State)
    → SameTwo s r.1
    → SameTwo s (finish env p cs r).1
unfolding finish
finish-SameTwo env p cs s (ok more, t) h = h
finish-SameTwo env p cs s (err e, t) h = h

roll_if :
    (b : Bool) (fuel : ℕ) (env : Env) (now n : ℤ) (p : Bytes) (s : State)
    → SameTwo s (if b then roll_batch fuel env now p (set_submission_count p n s) else (ok [], s)).1
roll_if true fuel env now n p s =
    let same = roll_batch-SameLists fuel env now p (set_submission_count p n s) in
    (same.votes, same.registry)
roll_if false fuel env now n p s = (refl, refl)

pub flush-SameTwo :
    (env : Env) (now : ℤ) (p : Bytes) (cs : List Candidate) (s : State)
    → SameTwo (write_candidates env cs s) (flush env now p cs s).1
unfolding flush materialize
flush-SameTwo env now p cs s =
    let s' = materialize env p cs s in
    let n = submission_count p s' +ℤ pos (length cs) in
    finish-SameTwo env p cs (write_candidates env cs s) _
      (roll_if (is_rolling s') (rounds n) env now n p s')

-- A flush whose submissions become candidates writes them in ascending order.
pub execute_batch_flush-sorted :
    (env : Env) (now : ℤ) (t : Tx) (d : BatchFlushData) (cs : List Candidate) (s : State)
    → env.decode_batch_flush t.payload ≡ some d
    → to_candidates env s.verifier d.submissions ≡ ok cs
    → execute_batch_flush env now t s ≡ flush env now d.poll_id (sort_candidates cs) s
unfolding execute_batch_flush flush_result
execute_batch_flush-sorted env now t d cs s decoded candidates = ground arith
