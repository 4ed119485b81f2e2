-- ===== src/Voting/TwoLists/Recast.antt =====
-- Ballots whose writing does not keep the two lists equally long.
use community.Base.{suc, ◌≡◌, ◌∷◌, ◌++◌, true, some, none, arith}
use community.Base.Result.{ok}
use community.Data.Bytes.{Bytes}
use community.Data.GoMap.{lookup}
use community.Protocol.Types.{VoteRecord, VoterRecord}
use community.Voting.Ballots.Checks.{identify_cast, has_restore_grant, check_identity}
use community.Voting.Batch.{Candidate, write_candidate}
use community.Voting.Env.{Env}
use community.Voting.State.{State, store_key, in_poll}
use community.Voting.TwoLists.{ballots, voters, CountMatch}
use community.Voting.TwoLists.Cast.{
  ballots-write_new, ballots-write_old, voters-write_new, voters-write_old,
}
use community.Voting.TwoLists.Keys.{in_poll-store_key, in_poll-foreign}

granted :
    (c : Candidate) (s : State)
    → identify_cast s c.cast ≡ some c.identity_hash
    → has_restore_grant c.cast.poll_id c.identity_hash s ≡ true
    → check_identity c.cast s ≡ ok tt
unfolding check_identity
granted c s identified grant = ground arith

-- An identity that is registered in the poll and holds a restore grant: the test for a second ballot
-- lets it pass, and writing that ballot under a new id makes matching lists differ.
pub check_identity-grant :
    (env : Env) (c : Candidate) (old : VoterRecord) (s : State)
    → identify_cast s c.cast ≡ some c.identity_hash
    → lookup (store_key c.cast.poll_id c.identity_hash) s.voter_registry ≡ some old
    → has_restore_grant c.cast.poll_id c.identity_hash s ≡ true
    → lookup (store_key c.cast.poll_id c.ballot_id) s.vote_directions ≡ none
    → CountMatch c.cast.poll_id s
    → (check_identity c.cast s ≡ ok tt) × ¬ CountMatch c.cast.poll_id (write_candidate env c s)
check_identity-grant env c old s identified registered grant new match =
    let p = c.cast.poll_id in
    (
      granted c s identified grant,
      λ match'. absurd (
          ground (
            arith,
            ballots-write_new env p c s new,
            voters-write_old env p c s registered,
            in_poll-store_key p c.ballot_id,
          )),
    )

-- An identity that is not registered, and a ballot id that List 1 has already (no test refuses it):
-- writing the ballot makes matching lists differ.
pub write_candidate-taken :
    (env : Env) (c : Candidate) (old : VoteRecord) (s : State)
    → lookup (store_key c.cast.poll_id c.identity_hash) s.voter_registry ≡ none
    → lookup (store_key c.cast.poll_id c.ballot_id) s.vote_directions ≡ some old
    → CountMatch c.cast.poll_id s
    → ¬ CountMatch c.cast.poll_id (write_candidate env c s)
write_candidate-taken env c old s unregistered taken match match' =
    let p = c.cast.poll_id in
    absurd (
      ground (
        arith,
        ballots-write_old env p c s taken,
        voters-write_new env p c s unregistered,
        in_poll-store_key p c.identity_hash,
      ))

-- A new ballot of a new identity in a poll whose id is that of another one, a colon and more: both
-- lists of the other poll grow by one.
pub write_candidate-foreign :
    (env : Env) (p b : Bytes) (c : Candidate) (s : State)
    → c.cast.poll_id ≡ p ++ 58 ∷ b
    → lookup (store_key c.cast.poll_id c.ballot_id) s.vote_directions ≡ none
    → lookup (store_key c.cast.poll_id c.identity_hash) s.voter_registry ≡ none
    → (ballots p (write_candidate env c s) ≡ suc (ballots p s))
      × (voters p (write_candidate env c s) ≡ suc (voters p s))
write_candidate-foreign env p b c s longer new unregistered = (
  ground (arith, ballots-write_new env p c s new, foreign c.ballot_id),
  ground (arith, voters-write_new env p c s unregistered, foreign c.identity_hash),
)
  where
    foreign : (x : Bytes) → in_poll p (store_key c.cast.poll_id x) ≡ true
    foreign x = rw longer (in_poll-foreign p b x)
