-- ===== src/Voting/TwoLists/Matched.antt =====
-- Runs of accepted transactions, and that both lists of a poll stay equally long along them.
use community.Base.{
  ◌+◌, ◌≡◌, sym, ap, ◌∙◌, subst, true, false, none, some, List, arith, All, length, is_empty,
}
use community.Base.Result.{ok, is_ok}
use community.Data.Bytes.{Bytes}
use community.Data.GoMap.{lookup}
use community.Data.Int64.{ℤ}
use community.Protocol.Txs.{
  Tx, BatchFlushData, BallotUpdateData, AuthorityRescindData, ResealVoteData,
}
use community.Voting.App.{check_tx}
use community.Voting.Authority.{validate_authority_rescind, execute_authority_rescind}
use community.Voting.Authority.Restore.{execute_authority_restore}
use community.Voting.Ballots.{
  update_as, validate_ballot_update, execute_ballot_update, update_ballot_id,
}
use community.Voting.Batch.{
  Candidate, to_candidates, write_candidates, sort_candidates, execute_batch_flush,
}
use community.Voting.Batch.Checks.{validate_batch_flush}
use community.Voting.Batch.Order.{All-sort_candidates}
use community.Voting.Batch.Written.{SameTwo, flush-SameTwo, execute_batch_flush-sorted}
use community.Voting.Close.{execute_poll_close}
use community.Voting.Confirms.{execute_confirm_receipt}
use community.Voting.Env.{Env, IdentityVerifier}
use community.Voting.Invariant.Reachable.{check_tx-SameBut}
use community.Voting.Invariant.Removals.{
  execute_poll_create-SameTwo, execute_poll_close-SameTwo, execute_validator_register-SameTwo,
  execute_confirm_receipt-SameTwo, execute_authority_restore-SameTwo,
}
use community.Voting.Polls.{execute_poll_create}
use community.Voting.Reseal.{execute_reseal_vote}
use community.Voting.State.{State, store_key}
use community.Voting.TwoLists.{CountMatch}
use community.Voting.TwoLists.Flush.{IsNew, ballots-cong, voters-cong, validate-execute_batch_flush}
use community.Voting.TwoLists.Foreign.{
  Foreign, SameSizes, write_candidates-SameSizes, update_as-SameSizes,
}
use community.Voting.TwoLists.Rescind.{execute_authority_rescind-pair}
use community.Voting.TwoLists.Seal.{execute_reseal_vote-Sealed}
use community.Voting.TwoLists.Update.{execute_ballot_update-Withdrawn, execute_ballot_update-change}
use community.Voting.Validators.{execute_validator_register}

-- What may happen to a poll: any transaction is checked, polls are created and closed, validators
-- registered, receipts confirmed and grants restored; and batches of new ballots, updates,
-- rescissions and seals of this poll are executed once they are accepted. A batch or an update of a
-- poll with keys of its own is executed without conditions.
pub data Step (env : Env) (p : Bytes) (s : State) : State → Type 0 where
  check : (now : ℤ) (raw : Bytes) → Step env p s (check_tx env now raw s).1
  create : (now : ℤ) (t : Tx) → Step env p s (execute_poll_create env now t s).1
  close : (now : ℤ) (t : Tx) → Step env p s (execute_poll_close env now t s).1
  register : (t : Tx) → Step env p s (execute_validator_register env t s).1
  confirm : (t : Tx) → Step env p s (execute_confirm_receipt env t s).1
  restore : (t : Tx) → Step env p s (execute_authority_restore env t s).1
  batch :
      (now : ℤ) (t : Tx) (d : BatchFlushData) (cs : List Candidate)
      → d.poll_id ≡ p
      → env.decode_batch_flush t.payload ≡ some d
      → to_candidates env s.verifier d.submissions ≡ ok cs
      → (validate_batch_flush env now t s).0 ≡ ok tt
      → All (λ c. IsNew c s) cs
      → Step env p s (execute_batch_flush env now t (validate_batch_flush env now t s).1).1
  withdraw :
      (now : ℤ) (t : Tx) (d : BallotUpdateData)
      → d.poll_id ≡ p
      → env.decode_ballot_update t.payload ≡ some d
      → is_empty d.new_choices ≡ true
      → validate_ballot_update env now t s ≡ ok tt
      → Step env p s (execute_ballot_update env t s).1
  change :
      (now : ℤ) (t : Tx) (d : BallotUpdateData)
      → d.poll_id ≡ p
      → env.decode_ballot_update t.payload ≡ some d
      → is_empty d.new_choices ≡ false
      → validate_ballot_update env now t s ≡ ok tt
      → lookup (store_key d.poll_id (update_ballot_id env d)) s.vote_directions ≡ none
      → Step env p s (execute_ballot_update env t s).1
  rescind :
      (t : Tx) (d : AuthorityRescindData)
      → d.poll_id ≡ p
      → env.decode_authority_rescind t.payload ≡ some d
      → validate_authority_rescind env t s ≡ ok tt
      → Step env p s (execute_authority_rescind env t s).1
  seal :
      (t : Tx) (d : ResealVoteData)
      → d.poll_id ≡ p
      → env.decode_reseal_vote t.payload ≡ some d
      → is_ok (execute_reseal_vote env t s).0 ≡ true
      → Step env p s (execute_reseal_vote env t s).1
  other_batch :
      (now : ℤ) (t : Tx) (d : BatchFlushData) (cs : List Candidate)
      → env.decode_batch_flush t.payload ≡ some d
      → to_candidates env s.verifier d.submissions ≡ ok cs
      → All (λ c. Foreign p c.cast.poll_id) cs
      → Step env p s (execute_batch_flush env now t s).1
  other_update :
      (t : Tx) (d : BallotUpdateData) (v : IdentityVerifier)
      → env.decode_ballot_update t.payload ≡ some d
      → s.verifier ≡ some v
      → Foreign p d.poll_id
      → Step env p s (execute_ballot_update env t s).1

matched_sizes : (p : Bytes) (s s' : State) → SameSizes p s s' → CountMatch p s → CountMatch p s'
matched_sizes p s s' (b, v) m = b ∙ (m ∙ sym v)

matched_lists : (p : Bytes) (s s' : State) → SameTwo s s' → CountMatch p s → CountMatch p s'
matched_lists p s s' (votes, registry) =
    matched_sizes p s s' (ballots-cong p s s' votes, voters-cong p s s' registry)

other_batch-SameSizes :
    (env : Env) (p : Bytes) (now : ℤ) (t : Tx) (d : BatchFlushData) (cs : List Candidate)
    (s : State)
    → env.decode_batch_flush t.payload ≡ some d
    → to_candidates env s.verifier d.submissions ≡ ok cs
    → All (λ c. Foreign p c.cast.poll_id) cs
    → SameSizes p s (execute_batch_flush env now t s).1
other_batch-SameSizes env p now t d cs s decoded candidates foreign =
    let sorted = sort_candidates cs in
    let (votes, registry) = flush-SameTwo env now d.poll_id sorted s in
    let same = write_candidates-SameSizes env p sorted s (All-sort_candidates _ cs foreign) in
    rw (execute_batch_flush-sorted env now t d cs s decoded candidates) (
      ballots-cong p (write_candidates env sorted s) _ votes ∙ same.0,
      voters-cong p (write_candidates env sorted s) _ registry ∙ same.1,
    )

other_update-run :
    (env : Env) (t : Tx) (d : BallotUpdateData) (v : IdentityVerifier) (s : State)
    → env.decode_ballot_update t.payload ≡ some d
    → s.verifier ≡ some v
    → execute_ballot_update env t s ≡ update_as env d (v.verify_and_identify_update d) s
unfolding execute_ballot_update
other_update-run env t d v s decoded verifier = ground arith

-- One step keeps the lists equally long.
Step-CountMatch :
    (env : Env) (p : Bytes) (s s' : State) → Step env p s s' → CountMatch p s → CountMatch p s'
Step-CountMatch env p s s' (check now raw) m =
    let same = check_tx-SameBut env now raw s in matched_lists p s _ (same.votes, same.registry) m
Step-CountMatch env p s s' (create now t) m =
    matched_lists p s _ (execute_poll_create-SameTwo env now t s) m
Step-CountMatch env p s s' (close now t) m =
    matched_lists p s _ (execute_poll_close-SameTwo env now t s) m
Step-CountMatch env p s s' (register t) m =
    matched_lists p s _ (execute_validator_register-SameTwo env t s) m
Step-CountMatch env p s s' (confirm t) m =
    matched_lists p s _ (execute_confirm_receipt-SameTwo env t s) m
Step-CountMatch env p s s' (restore t) m =
    matched_lists p s _ (execute_authority_restore-SameTwo env t s) m
Step-CountMatch env p s s' (batch now t d cs own decoded candidates accepted new) m =
    let grown = validate-execute_batch_flush env now t d cs s decoded candidates accepted new in
    let after = (execute_batch_flush env now t (validate_batch_flush env now t s).1).1 in
    subst (λ q. CountMatch q after) own
      (grown.0 ∙ (ap (λ n. length cs + n) (subst (λ q. CountMatch q s) (sym own) m) ∙ sym grown.1))
Step-CountMatch env p s s' (withdraw now t d own decoded empty accepted) m =
    let w = (execute_ballot_update-Withdrawn env now t d s decoded empty accepted).1 in
    subst (λ q. CountMatch q (execute_ballot_update env t s).1) own
      (omega (arith, w.one_ballot, w.one_voter, subst (λ q. CountMatch q s) (sym own) m))
Step-CountMatch env p s s' (change now t d own decoded choices accepted new) m =
    let (done, same, registry) =
      execute_ballot_update-change env now t d s decoded choices accepted new in
    let after = (execute_ballot_update env t s).1 in
    subst (λ q. CountMatch q after) own
      (matched_sizes d.poll_id s after (same, voters-cong d.poll_id s after registry)
        (subst (λ q. CountMatch q s) (sym own) m))
Step-CountMatch env p s s' (rescind t d own decoded accepted) m =
    let (done, b, v) = execute_authority_rescind-pair env t d s decoded accepted in
    subst (λ q. CountMatch q (execute_authority_rescind env t s).1) own
      (omega (arith, b, v, subst (λ q. CountMatch q s) (sym own) m))
Step-CountMatch env p s s' (seal t d own decoded done) m =
    let r = execute_reseal_vote-Sealed env t d s decoded done in
    let after = (execute_reseal_vote env t s).1 in
    subst (λ q. CountMatch q after) own
      (matched_sizes d.poll_id s after (r.ballots_kept, r.voters_kept)
        (subst (λ q. CountMatch q s) (sym own) m))
Step-CountMatch env p s s' (other_batch now t d cs decoded candidates foreign) m =
    matched_sizes p s _ (other_batch-SameSizes env p now t d cs s decoded candidates foreign) m
Step-CountMatch env p s s' (other_update t d v decoded verifier foreign) m =
    matched_sizes p s _
      (rw (other_update-run env t d v s decoded verifier)
        (update_as-SameSizes env p d (v.verify_and_identify_update d) s foreign))
      m

-- any number of steps
pub data Steps (env : Env) (p : Bytes) (s : State) : State → Type 0 where
  none_yet : Steps env p s s
  and_then : {u v : State} → Steps env p s u → Step env p u v → Steps env p s v

-- From a state in which both lists of a poll are equally long, along any sequence of checks, of
-- accepted batches of new ballots, withdrawals, changes to new ids, rescissions and seals of the
-- poll, of other transactions that touch no list, and of batches and updates of polls none of whose
-- keys count for it, they are equally long in every state.
pub Steps-CountMatch :
    (env : Env) (p : Bytes) (s s' : State) → CountMatch p s → Steps env p s s' → CountMatch p s'
Steps-CountMatch env p s s' m none_yet = m
Steps-CountMatch env p s s' m (and_then {u = u} {v = v} before step) =
    Step-CountMatch env p u v step (Steps-CountMatch env p s u m before)
