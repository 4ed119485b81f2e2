-- ===== src/Voting/TwoLists/Update.antt =====
-- What a withdrawal and a direction change do to the two lists.
use community.Base.{
  suc, ◌≡◌, ◌≢◌, refl, true, false, some, none, [], arith, is_empty, Option-cases, inl, inr,
}
use community.Base.Result.{ok, is_ok}
use community.Data.Bytes.{Bytes}
use community.Data.GoMap.{lookup, delete}
use community.Data.GoMap.Count.{count-delete, count-insert_new}
use community.Data.GoMap.Laws.{lookup-delete_ne}
use community.Data.Int64.{ℤ}
use community.Protocol.Txs.{Tx, BallotUpdateData}
use community.Protocol.Types.{VoteRecord, VoterRecord}
use community.Voting.Ballots.{
  validate_ballot_update, update_ballot_id, refresh_confirmed, withdraw, change_direction,
  update_as, execute_ballot_update,
}
use community.Voting.Ballots.Checks.{identify_update, check_update}
use community.Voting.Env.{Env}
use community.Voting.State.{State, store_key, in_poll, voter_count_for_poll}
use community.Voting.TwoLists.{ballots, voters}
use community.Voting.TwoLists.Keys.{in_poll-store_key}

-- What an accepted update has shown: an identity with an entry in List 2, and an old ballot in
-- List 1.
record Updatable (d : BallotUpdateData) (s : State) : Type 0 where
  identity : Bytes
  identified : identify_update s d ≡ some identity
  vote : VoteRecord
  voted : lookup (store_key d.poll_id d.old_ballot_id) s.vote_directions ≡ some vote
  voter : VoterRecord
  registered : lookup (store_key d.poll_id identity) s.voter_registry ≡ some voter

check_update-Updatable :
    (env : Env) (now : ℤ) (d : BallotUpdateData) (s : State)
    → check_update env now d s ≡ ok tt
    → Updatable d s
unfolding check_update
check_update-Updatable env now d s h = elim (Option-cases (identify_update s d)) [
  | inl e ↦ absurd (ground arith)
  | inr (i, e) ↦
      elim (Option-cases (lookup (store_key d.poll_id d.old_ballot_id) s.vote_directions)) [
        | inl f ↦ absurd (ground arith)
        | inr (v, f) ↦ elim (Option-cases (lookup (store_key d.poll_id i) s.voter_registry)) [
          | inl g ↦ absurd (ground arith)
          | inr (w, g) ↦ record {
            identity = i;
            identified = e;
            vote = v;
            voted = f;
            voter = w;
            registered = g;
          }
        ]
      ]
]

validate-Updatable :
    (env : Env) (now : ℤ) (t : Tx) (d : BallotUpdateData) (s : State)
    → env.decode_ballot_update t.payload ≡ some d
    → validate_ballot_update env now t s ≡ ok tt
    → Updatable d s
unfolding validate_ballot_update
validate-Updatable env now t d s decoded h = check_update-Updatable env now d s (ground arith)

-- A list of ballots, an identity and the polls after an update.
pub record Withdrawn (p : Bytes) (s s' : State) : Type 0 where
  pub one_ballot : suc (ballots p s') ≡ ballots p s
  pub one_voter : suc (voters p s') ≡ voters p s
  pub polls_kept : s'.polls ≡ s.polls

withdraw-Withdrawn :
    (d : BallotUpdateData) (i : Bytes) (v : VoteRecord) (w : VoterRecord) (s : State)
    → lookup (store_key d.poll_id d.old_ballot_id) s.vote_directions ≡ some v
    → lookup (store_key d.poll_id i) s.voter_registry ≡ some w
    → Withdrawn d.poll_id s (withdraw d i s)
unfolding withdraw refresh_confirmed ballots voters voter_count_for_poll
withdraw-Withdrawn d i v w s vote voter =
    let p = d.poll_id in
    let one =
      count-delete (λ key (_ : VoteRecord). in_poll p key) (store_key p d.old_ballot_id) v
        s.vote_directions vote in
    let two =
      count-delete (λ key (_ : VoterRecord). in_poll p key) (store_key p i) w s.voter_registry
        voter in
    record {
      one_ballot = ground (arith, one, in_poll-store_key p d.old_ballot_id);
      one_voter = ground (arith, two, in_poll-store_key p i);
      polls_kept = refl;
    }

execute-withdraw :
    (env : Env) (t : Tx) (d : BallotUpdateData) (i : Bytes) (s : State)
    → env.decode_ballot_update t.payload ≡ some d
    → identify_update s d ≡ some i
    → is_empty d.new_choices ≡ true
    → (is_ok (execute_ballot_update env t s).0 ≡ true)
      × ((execute_ballot_update env t s).1 ≡ withdraw d i s)
unfolding execute_ballot_update update_as
execute-withdraw env t d i s decoded identified empty = ground arith

execute-change :
    (env : Env) (t : Tx) (d : BallotUpdateData) (i : Bytes) (s : State)
    → env.decode_ballot_update t.payload ≡ some d
    → identify_update s d ≡ some i
    → is_empty d.new_choices ≡ false
    → (is_ok (execute_ballot_update env t s).0 ≡ true)
      × ((execute_ballot_update env t s).1 ≡ change_direction env d s)
unfolding execute_ballot_update update_as
execute-change env t d i s decoded identified choices = ground arith

change-ballots :
    (env : Env) (d : BallotUpdateData) (v : VoteRecord) (s : State)
    → lookup (store_key d.poll_id d.old_ballot_id) s.vote_directions ≡ some v
    → lookup (store_key d.poll_id (update_ballot_id env d)) s.vote_directions ≡ none
    → ballots d.poll_id (change_direction env d s) ≡ ballots d.poll_id s
unfolding change_direction ballots
change-ballots env d v s old new =
    let p = d.poll_id in
    let old_key = store_key p d.old_ballot_id in
    let new_key = store_key p (update_ballot_id env d) in
    let differ : new_key ≢ old_key = λ e. absurd (ground arith) in
    let gone = lookup-delete_ne new_key old_key s.vote_directions differ in
    let less =
      count-delete (λ key (_ : VoteRecord). in_poll p key) old_key v s.vote_directions old in
    let more =
      count-insert_new (λ key (_ : VoteRecord). in_poll p key) new_key
        (record {
          ballot_id = update_ballot_id env d;
          choices = d.new_choices;
          partition_id = [];
          superseded = false;
          voter_pub_key_hash = [];
        })
        (delete old_key s.vote_directions) (ground arith) in
    ground (
      arith,
      less,
      more,
      in_poll-store_key p d.old_ballot_id,
      in_poll-store_key p (update_ballot_id env d),
    )

module _ (env : Env) (now : ℤ) (t : Tx) (d : BallotUpdateData) (s : State) where
  -- A withdrawal (an update without choices) that is accepted succeeds when it is executed in the
  -- same state: the poll has one ballot and one voter fewer, and no counter of any poll changes.
  pub execute_ballot_update-Withdrawn :
      env.decode_ballot_update t.payload ≡ some d
      → is_empty d.new_choices ≡ true
      → validate_ballot_update env now t s ≡ ok tt
      → (is_ok (execute_ballot_update env t s).0 ≡ true)
        × Withdrawn d.poll_id s (execute_ballot_update env t s).1
  execute_ballot_update-Withdrawn decoded empty accepted =
      let u = validate-Updatable env now t d s decoded accepted in
      let run = execute-withdraw env t d u.identity s decoded u.identified empty in
      (run.0, rw run.1 (withdraw-Withdrawn d u.identity u.vote u.voter s u.voted u.registered))

  -- A change of direction (an update with choices) that is accepted, and whose new ballot id no
  -- ballot of the poll has, succeeds when it is executed in the same state: the poll has as many
  -- ballots as before, and List 2 is the same.
  pub execute_ballot_update-change :
      env.decode_ballot_update t.payload ≡ some d
      → is_empty d.new_choices ≡ false
      → validate_ballot_update env now t s ≡ ok tt
      → lookup (store_key d.poll_id (update_ballot_id env d)) s.vote_directions ≡ none
      → let r = execute_ballot_update env t s in
        (is_ok r.0 ≡ true)
        × (ballots d.poll_id r.1 ≡ ballots d.poll_id s)
        × (r.1.voter_registry ≡ s.voter_registry)
  execute_ballot_update-change decoded choices accepted new =
      let u = validate-Updatable env now t d s decoded accepted in
      let run = execute-change env t d u.identity s decoded u.identified choices in
      (
        run.0,
        rw run.1 (change-ballots env d u.vote s u.voted new),
        rw run.1 (unfold change_direction in refl),
      )

-- Where the verifier does not look at the old ballot's id, the tests of an update give the same
-- answer for any two old ballots of the poll: nothing else ties the ballot that is replaced or
-- withdrawn to the key, the signature or the identity of the update.
pub check_update-any_ballot :
    (env : Env) (now : ℤ) (d : BallotUpdateData) (other : Bytes) (v w : VoteRecord) (s : State)
    → lookup (store_key d.poll_id d.old_ballot_id) s.vote_directions ≡ some v
    → lookup (store_key d.poll_id other) s.vote_directions ≡ some w
    → identify_update s (record d { old_ballot_id = other }) ≡ identify_update s d
    → check_update env now (record d { old_ballot_id = other }) s ≡ check_update env now d s
unfolding check_update
check_update-any_ballot env now d other v w s mine theirs blind = rw (mine, theirs, blind) refl
