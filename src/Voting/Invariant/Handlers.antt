-- ===== src/Voting/Invariant/Handlers.antt =====
-- Every handler keeps both lists filed.
use community.Base.{
  refl, sym, Option, some, none, List, [], ◌∷◌, is_empty, Option-cases, Bool-cases, inl, inr, subst,
}
use community.Base.Result.{Result, ok, err}
use community.Data.Bytes.{Bytes}
use community.Data.GoMap.{delete, Unique}
use community.Data.GoMap.Entries.{Entries, insert-Entries, delete-Entries}
use community.Data.GoMap.Laws.{insert-Unique, delete-Unique}
use community.Data.Int64.{ℤ}
use community.Protocol.Errors.{Error}
use community.Protocol.Txs.{Tx, BallotUpdateData}
use community.Voting.Ballots.{
  refresh_confirmed, withdraw, change_direction, update_as, execute_ballot_update,
}
use community.Voting.Batch.{
  Candidate, to_candidates, sort_candidates, write_candidate, write_candidates, flush_result,
  execute_batch_flush,
}
use community.Voting.Batch.Written.{SameTwo, flush-SameTwo}
use community.Voting.Env.{Env}
use community.Voting.Invariant.{IsFiledVote, IsFiledVoter, IsFiled}
use community.Voting.State.{State, store_key}

-- Two states with the same lists.
pub IsFiled-same : (s s' : State) → SameTwo s s' → IsFiled s → IsFiled s'
IsFiled-same s s' same f = record {
  votes_unique = subst Unique (sym same.0) f.votes_unique;
  registry_unique = subst Unique (sym same.1) f.registry_unique;
  votes = subst (Entries IsFiledVote) (sym same.0) f.votes;
  registry = subst (Entries IsFiledVoter) (sym same.1) f.registry;
}

write_candidate-IsFiled :
    (env : Env) (c : Candidate) (s : State) → IsFiled s → IsFiled (write_candidate env c s)
unfolding write_candidate
write_candidate-IsFiled env c s f =
    let p = c.cast.poll_id in
    record {
      votes_unique = insert-Unique _ _ s.vote_directions f.votes_unique;
      registry_unique = insert-Unique _ _ s.voter_registry f.registry_unique;
      votes = insert-Entries IsFiledVote _ _ s.vote_directions (p, refl) f.votes;
      registry = insert-Entries IsFiledVoter _ _ s.voter_registry (p, refl) f.registry;
    }

write_candidates-IsFiled :
    (env : Env) (cs : List Candidate) (s : State) → IsFiled s → IsFiled (write_candidates env cs s)
unfolding write_candidates
write_candidates-IsFiled env [] s f = f
write_candidates-IsFiled env (c ∷ cs) s f =
    write_candidates-IsFiled env cs (write_candidate env c s) (write_candidate-IsFiled env c s f)

flush_result-IsFiled :
    (env : Env) (now : ℤ) (p : Bytes) (r : Result Error (List Candidate)) (s : State)
    → IsFiled s
    → IsFiled (flush_result env now p r s).1
unfolding flush_result
flush_result-IsFiled env now p (err e) s f = f
flush_result-IsFiled env now p (ok cs) s f =
    IsFiled-same _ _ (flush-SameTwo env now p (sort_candidates cs) s)
      (write_candidates-IsFiled env (sort_candidates cs) s f)

pub execute_batch_flush-IsFiled :
    (env : Env) (now : ℤ) (t : Tx) (s : State)
    → IsFiled s
    → IsFiled (execute_batch_flush env now t s).1
unfolding execute_batch_flush
execute_batch_flush-IsFiled env now t s f = elim (Option-cases (env.decode_batch_flush t.payload)) [
  | inl e ↦ rw (e, execute_batch_flush) f
  | inr (d, e) ↦
      rw (e, execute_batch_flush)
        (flush_result-IsFiled env now d.poll_id (to_candidates env s.verifier d.submissions) s f)
]

withdraw-IsFiled :
    (d : BallotUpdateData) (i : Bytes) (s : State) → IsFiled s → IsFiled (withdraw d i s)
unfolding withdraw refresh_confirmed
withdraw-IsFiled d i s f = record {
  votes_unique = delete-Unique _ s.vote_directions f.votes_unique;
  registry_unique = delete-Unique _ s.voter_registry f.registry_unique;
  votes = delete-Entries IsFiledVote _ s.vote_directions f.votes;
  registry = delete-Entries IsFiledVoter _ s.voter_registry f.registry;
}

change_direction-IsFiled :
    (env : Env) (d : BallotUpdateData) (s : State) → IsFiled s → IsFiled (change_direction env d s)
unfolding change_direction
change_direction-IsFiled env d s f =
    let kept = delete (store_key d.poll_id d.old_ballot_id) s.vote_directions in
    record {
      votes_unique = insert-Unique _ _ kept (delete-Unique _ s.vote_directions f.votes_unique);
      registry_unique = f.registry_unique;
      votes =
          insert-Entries IsFiledVote _ _ kept (d.poll_id, refl)
            (delete-Entries IsFiledVote _ s.vote_directions f.votes);
      registry = f.registry;
    }

update_as-IsFiled :
    (env : Env) (d : BallotUpdateData) (i : Option Bytes) (s : State)
    → IsFiled s
    → IsFiled (update_as env d i s).1
unfolding update_as
update_as-IsFiled env d none s f = f
update_as-IsFiled env d (some i) s f = elim (Bool-cases (is_empty d.new_choices)) [
  | inl e ↦ rw (e, update_as) (withdraw-IsFiled d i s f)
  | inr e ↦ rw (e, update_as) (change_direction-IsFiled env d s f)
]

pub execute_ballot_update-IsFiled :
    (env : Env) (t : Tx) (s : State) → IsFiled s → IsFiled (execute_ballot_update env t s).1
unfolding execute_ballot_update
execute_ballot_update-IsFiled env t s f = elim (Option-cases (env.decode_ballot_update t.payload)) [
  | inl e ↦ rw (e, execute_ballot_update) f
  | inr (d, e) ↦ elim (Option-cases s.verifier) [
    | inl g ↦ rw (e, g, execute_ballot_update) f
    | inr (v, g) ↦
        rw (e, g, execute_ballot_update)
          (update_as-IsFiled env d (v.verify_and_identify_update d) s f)
  ]
]
