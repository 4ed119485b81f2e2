-- ===== src/Voting/Invariant/Removals.antt =====
-- Sealing, rescission and the handlers that leave both lists alone keep them filed.
use community.Base.{◌≡◌, refl, ◌||◌, Option, some, none, arith, Option-cases, Bool-cases, inl, inr}
use community.Data.Bytes.{◌==◌}
use community.Data.GoMap.{lookup, insert, delete}
use community.Data.GoMap.Entries.{insert-Entries, delete-Entries, lookup-Entries}
use community.Data.GoMap.Laws.{insert-Unique, delete-Unique}
use community.Data.Int64.{ℤ}
use community.Protocol.Txs.{Tx, AuthorityRescindData, ResealVoteData}
use community.Protocol.Types.{Poll, VoteRecord, Tally, partition_sealed}
use community.Voting.Authority.{
  remove_pair, drop_confirm, unseal, rescind_tally, rescind, record_rescission,
  execute_authority_rescind,
}
use community.Voting.Authority.Restore.{execute_authority_restore}
use community.Voting.Ballots.{refresh_confirmed}
use community.Voting.Batch.Written.{SameTwo}
use community.Voting.Close.{close_poll, execute_poll_close}
use community.Voting.Confirms.{write_confirm, confirm_as, execute_confirm_receipt}
use community.Voting.Env.{Env}
use community.Voting.Invariant.{IsFiledVote, IsFiledVoter, IsFiled}
use community.Voting.Invariant.Handlers.{IsFiled-same}
use community.Voting.Polls.{execute_poll_create}
use community.Voting.Reseal.{reseal_vote, seal_in_poll, execute_reseal_vote}
use community.Voting.State.{State, store_key}
use community.Voting.Validators.{register_with_key, execute_validator_register}

seal_in_poll-SameTwo :
    (d : ResealVoteData) (p : Option Poll) (s : State) → SameTwo s (seal_in_poll d p s).1
unfolding seal_in_poll
seal_in_poll-SameTwo d none s = (refl, refl)
seal_in_poll-SameTwo d (some p) s = (refl, refl)

reseal_vote-IsFiled :
    (d : ResealVoteData) (v : Option VoteRecord) (s : State)
    → lookup (store_key d.poll_id d.ballot_id) s.vote_directions ≡ v
    → IsFiled s
    → IsFiled (reseal_vote d v s).1
unfolding reseal_vote
reseal_vote-IsFiled d none s found f = f
reseal_vote-IsFiled d (some v) s found f =
    let key = store_key d.poll_id d.ballot_id in
    let sealed : State = record s {
      vote_directions = insert key (record v { partition_id = partition_sealed }) s.vote_directions;
    } in
    let filed : IsFiled sealed = record {
      votes_unique = insert-Unique _ _ s.vote_directions f.votes_unique;
      registry_unique = f.registry_unique;
      votes =
          insert-Entries IsFiledVote key _ s.vote_directions
            (lookup-Entries IsFiledVote key v s.vote_directions found f.votes) f.votes;
      registry = f.registry;
    } in
    elim (Bool-cases (v.superseded || v.partition_id == partition_sealed)) [
      | inl e ↦ rw (e, reseal_vote) f
      | inr e ↦
          rw (e, reseal_vote)
            (IsFiled-same sealed _ (seal_in_poll-SameTwo d (lookup d.poll_id s.polls) sealed) filed)
    ]

pub execute_reseal_vote-IsFiled :
    (env : Env) (t : Tx) (s : State) → IsFiled s → IsFiled (execute_reseal_vote env t s).1
unfolding execute_reseal_vote
execute_reseal_vote-IsFiled env t s f = elim (Option-cases (env.decode_reseal_vote t.payload)) [
  | inl e ↦ rw (e, execute_reseal_vote) f
  | inr (d, e) ↦ rw (e, execute_reseal_vote) (reseal_vote-IsFiled d _ s refl f)
]

remove_pair-lists :
    (d : AuthorityRescindData) (v : Option VoteRecord) (s : State)
    → ((remove_pair d v s).vote_directions
        ≡ delete (store_key d.poll_id d.ballot_id) s.vote_directions)
      × ((remove_pair d v s).voter_registry
          ≡ delete (store_key d.poll_id d.identity_hash) s.voter_registry)
unfolding remove_pair drop_confirm unseal
remove_pair-lists d none s = ground arith
remove_pair-lists d (some v) s = ground arith

remove_pair-IsFiled :
    (d : AuthorityRescindData) (v : Option VoteRecord) (s : State)
    → IsFiled s
    → IsFiled (remove_pair d v s)
remove_pair-IsFiled d v s f =
    let removed : State = record s {
      vote_directions = delete (store_key d.poll_id d.ballot_id) s.vote_directions;
      voter_registry = delete (store_key d.poll_id d.identity_hash) s.voter_registry;
    } in
    IsFiled-same removed _ (remove_pair-lists d v s) (record {
      votes_unique = delete-Unique _ s.vote_directions f.votes_unique;
      registry_unique = delete-Unique _ s.voter_registry f.registry_unique;
      votes = delete-Entries IsFiledVote _ s.vote_directions f.votes;
      registry = delete-Entries IsFiledVoter _ s.voter_registry f.registry;
    })

rescind_tally-SameTwo :
    (d : AuthorityRescindData) (v : Option VoteRecord) (tally : Option Tally) (s : State)
    → SameTwo s (rescind_tally d v tally s).1
unfolding rescind_tally record_rescission
rescind_tally-SameTwo d v none s = (refl, refl)
rescind_tally-SameTwo d none (some tally) s = (refl, refl)
rescind_tally-SameTwo d (some v) (some tally) s = (refl, refl)

rescind-IsFiled :
    (d : AuthorityRescindData) (v : Option VoteRecord) (s : State)
    → IsFiled s
    → IsFiled (rescind d v s).1
unfolding rescind
rescind-IsFiled d v s f =
    let s' = remove_pair d v s in
    IsFiled-same s' _ (rescind_tally-SameTwo d v (lookup d.poll_id s'.tallies) s')
      (remove_pair-IsFiled d v s f)

pub execute_authority_rescind-IsFiled :
    (env : Env) (t : Tx) (s : State) → IsFiled s → IsFiled (execute_authority_rescind env t s).1
unfolding execute_authority_rescind
execute_authority_rescind-IsFiled env t s f =
    elim (Option-cases (env.decode_authority_rescind t.payload)) [
      | inl e ↦ rw (e, execute_authority_rescind) f
      | inr (d, e) ↦
          rw (e, execute_authority_rescind)
            (rescind-IsFiled d (lookup (store_key d.poll_id d.ballot_id) s.vote_directions) s f)
    ]

-- the handlers that touch neither list
pub execute_poll_create-SameTwo :
    (env : Env) (now : ℤ) (t : Tx) (s : State) → SameTwo s (execute_poll_create env now t s).1
unfolding execute_poll_create
execute_poll_create-SameTwo env now t s = ground arith

pub execute_poll_close-SameTwo :
    (env : Env) (now : ℤ) (t : Tx) (s : State) → SameTwo s (execute_poll_close env now t s).1
unfolding execute_poll_close close_poll
execute_poll_close-SameTwo env now t s = ground arith

pub execute_validator_register-SameTwo :
    (env : Env) (t : Tx) (s : State) → SameTwo s (execute_validator_register env t s).1
unfolding execute_validator_register register_with_key
execute_validator_register-SameTwo env t s = ground arith

pub execute_confirm_receipt-SameTwo :
    (env : Env) (t : Tx) (s : State) → SameTwo s (execute_confirm_receipt env t s).1
unfolding execute_confirm_receipt confirm_as write_confirm refresh_confirmed
execute_confirm_receipt-SameTwo env t s = ground arith

pub execute_authority_restore-SameTwo :
    (env : Env) (t : Tx) (s : State) → SameTwo s (execute_authority_restore env t s).1
unfolding execute_authority_restore
execute_authority_restore-SameTwo env t s = ground arith
