-- ===== src/Voting/TwoLists/Seal.antt =====
-- What sealing a ballot does to the two lists, and that its poll cannot close any more.
use community.Base.{
  ℕ, suc, ◌+◌, ◌≡◌, ◌≢◌, refl, ap, ◌∙◌, inl, inr, true, false, not, ◌&&◌, some, arith, Option-cases,
}
use community.Base.Result.{err, is_ok}
use community.Data.Bytes.{Bytes, ==_refl}
use community.Data.GoMap.{lookup, insert}
use community.Data.GoMap.Laws.{lookup-insert_self}
use community.Data.GoMap.Count.{count-insert_old}
use community.Data.Int64.{ℤ, pos, ◌+ℤ◌}
use community.Protocol.Errors.{count_mismatch}
use community.Protocol.Txs.{Tx, ResealVoteData, PollCloseData}
use community.Protocol.Types.{Poll, VoteRecord, partition_sealed}
use community.Voting.Attestation.Collect.Laws.{counted_ballots}
use community.Voting.Close.{execute_poll_close}
use community.Voting.Env.{Env}
use community.Voting.Reseal.{reseal_vote, seal_in_poll, execute_reseal_vote}
use community.Voting.State.{State, store_key, in_poll, is_counted, voter_count_for_poll}
use community.Voting.TwoLists.{ballots, voters, uncounted, CountMatch}
use community.Voting.TwoLists.Close.{counted_ballots-uncounted, execute_poll_close-refused}
use community.Voting.TwoLists.Keys.{in_poll-store_key}

-- The ballots and voters are as many as before, one ballot more is left out of a tally, and the
-- poll counts one sealed ballot more.
pub record Sealed (p : Bytes) (s s' : State) : Type 0 where
  pub ballots_kept : ballots p s' ≡ ballots p s
  pub voters_kept : voters p s' ≡ voters p s
  pub one_less : uncounted p s' ≡ suc (uncounted p s)
  pub before : Poll
  pub after : Poll
  pub found : (lookup p s.polls ≡ some before) × (lookup p s'.polls ≡ some after)
  pub sealed : after.sealed_count ≡ before.sealed_count +ℤ pos 1

sealed-is_counted : (v : VoteRecord) → v.partition_id ≡ partition_sealed → is_counted v ≡ false
unfolding is_counted
sealed-is_counted v e = ground (arith, ==_refl partition_sealed)

seal_lists :
    (d : ResealVoteData) (v : VoteRecord) (s : State) (poll : Poll)
    → lookup d.poll_id s.polls ≡ some poll
    → lookup (store_key d.poll_id d.ballot_id) s.vote_directions ≡ some v
    → is_counted v ≡ true
    → Sealed d.poll_id s
        (seal_in_poll d (some poll) (record s {
          vote_directions =
              insert
                (store_key d.poll_id d.ballot_id)
                (record v { partition_id = partition_sealed })
                s.vote_directions;
        })).1
unfolding seal_in_poll ballots voters uncounted voter_count_for_poll
seal_lists d v s poll found vote counted =
    let p = d.poll_id in
    let v' : VoteRecord = record v { partition_id = partition_sealed } in
    let mine = in_poll-store_key p d.ballot_id in
    let all =
      count-insert_old (λ key (_ : VoteRecord). in_poll p key) (store_key p d.ballot_id) v' v
        s.vote_directions vote in
    let left_out =
      count-insert_old (λ key (w : VoteRecord). in_poll p key && not (is_counted w))
        (store_key p d.ballot_id) v' v s.vote_directions vote in
    record {
      ballots_kept = omega (arith, all);
      voters_kept = refl;
      one_less = ground (arith, left_out, mine, counted, sealed-is_counted v' refl);
      before = poll;
      after = record poll { sealed_count = poll.sealed_count +ℤ pos 1 };
      found = (found, lookup-insert_self p _ s.polls);
      sealed = refl;
    }

reseal_vote-ok :
    (d : ResealVoteData) (s : State)
    → is_ok (reseal_vote d (lookup (store_key d.poll_id d.ballot_id) s.vote_directions) s).0 ≡ true
    → (v : VoteRecord) × (poll : Poll) × (lookup (store_key d.poll_id d.ballot_id) s.vote_directions
        ≡ some v)
      × (lookup d.poll_id s.polls ≡ some poll)
      × (is_counted v ≡ true)
unfolding reseal_vote seal_in_poll is_counted
reseal_vote-ok d s h =
    elim (Option-cases (lookup (store_key d.poll_id d.ballot_id) s.vote_directions)) [
      | inl e ↦ absurd (ground arith)
      | inr (v, e) ↦ elim (Option-cases (lookup d.poll_id s.polls)) [
        | inl g ↦ absurd (ground arith)
        | inr (poll, g) ↦ (v, poll, e, g, ground arith)
      ]
    ]

execute-reseal_vote :
    (env : Env) (t : Tx) (d : ResealVoteData) (v : VoteRecord) (poll : Poll) (s : State)
    → env.decode_reseal_vote t.payload ≡ some d
    → lookup (store_key d.poll_id d.ballot_id) s.vote_directions ≡ some v
    → lookup d.poll_id s.polls ≡ some poll
    → is_counted v ≡ true
    → execute_reseal_vote env t s
      ≡ seal_in_poll d (some poll) (record s {
        vote_directions =
            insert
              (store_key d.poll_id d.ballot_id)
              (record v { partition_id = partition_sealed })
              s.vote_directions;
      })
unfolding execute_reseal_vote reseal_vote is_counted
execute-reseal_vote env t d v poll s decoded vote found counted = ground arith

decoded_reseal :
    (env : Env) (t : Tx) (d : ResealVoteData) (s : State)
    → env.decode_reseal_vote t.payload ≡ some d
    → is_ok (execute_reseal_vote env t s).0 ≡ true
    → is_ok (reseal_vote d (lookup (store_key d.poll_id d.ballot_id) s.vote_directions) s).0 ≡ true
unfolding execute_reseal_vote
decoded_reseal env t d s decoded h = ground arith

-- Sealing a ballot, where it succeeds, keeps the sizes of both lists of its poll, leaves one ballot
-- more out of the tally and adds one to the poll's count of sealed ballots.
pub execute_reseal_vote-Sealed :
    (env : Env) (t : Tx) (d : ResealVoteData) (s : State)
    → env.decode_reseal_vote t.payload ≡ some d
    → is_ok (execute_reseal_vote env t s).0 ≡ true
    → Sealed d.poll_id s (execute_reseal_vote env t s).1
execute_reseal_vote-Sealed env t d s decoded done =
    let (v, poll, vote, found, counted) =
      reseal_vote-ok d s (decoded_reseal env t d s decoded done) in
    rw (execute-reseal_vote env t d v poll s decoded vote found counted)
      (seal_lists d v s poll found vote counted)

sealed_ne : (a b c u u' v v' : ℕ) → c + u' ≡ b → b ≡ a → a ≡ v → v' ≡ v → u' ≡ suc u → c ≢ v'
sealed_ne a b c u u' v v' h i j k l e = omega arith

-- In a poll whose lists match, a ballot is sealed: from then on closing the poll is refused for a
-- count mismatch, at any time.
pub execute_poll_close-sealed :
    (env : Env) (now : ℤ) (t t' : Tx) (d : ResealVoteData) (d' : PollCloseData) (s : State)
    → env.decode_reseal_vote t.payload ≡ some d
    → env.decode_poll_close t'.payload ≡ some d'
    → d'.poll_id ≡ d.poll_id
    → CountMatch d.poll_id s
    → is_ok (execute_reseal_vote env t s).0 ≡ true
    → execute_poll_close env now t' (execute_reseal_vote env t s).1
      ≡ (err count_mismatch, (execute_reseal_vote env t s).1)
execute_poll_close-sealed env now t t' d d' s decoded decoded' same match done =
    let s' = (execute_reseal_vote env t s).1 in
    let r = execute_reseal_vote-Sealed env t d s decoded done in
    let p = d.poll_id in
    execute_poll_close-refused env now t' d' r.after s' decoded'
      (ap (λ q. lookup q s'.polls) same ∙ r.found.1)
      (rw same (
        sealed_ne (ballots p s) (ballots p s') (counted_ballots p s') (uncounted p s)
          (uncounted p s') (voters p s) (voters p s') (counted_ballots-uncounted p s')
          r.ballots_kept match r.voters_kept r.one_less))
