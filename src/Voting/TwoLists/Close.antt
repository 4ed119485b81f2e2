-- ===== src/Voting/TwoLists/Close.antt =====
-- When a poll closes, and what its tally says of the two lists.
use community.Base.{
  ◌+◌, ◌≡◌, ◌≢◌, refl, ap, sym, ◌∙◌, ◌↔◌, true, not, ◌&&◌, some, [], ◌∷◌, arith, eqb_iff,
}
use community.Base.Result.{err, is_ok}
use community.Data.Bytes.{Bytes}
use community.Data.GoMap.{GoMap, lookup, count}
use community.Data.GoMap.Laws.{lookup-insert_self}
use community.Data.Int64.{ℤ, pos}
use community.Protocol.Errors.{count_mismatch}
use community.Protocol.Txs.{Tx, PollCloseData}
use community.Protocol.Types.{Poll, VoteRecord, Tally, status_closed}
use community.Voting.Attestation.Collect.Laws.{
  counted_ballots, length-collect_votes, length-collect_identity_hashes,
}
use community.Voting.Close.{lists_match, final_tally, close_poll, execute_poll_close}
use community.Voting.Env.{Env}
use community.Voting.State.{State, in_poll, is_counted, voter_count_for_poll}
use community.Voting.TwoLists.{ballots, voters, uncounted}

pub lists_match_iff :
    (p : Bytes) (poll : Poll) (s : State)
    → (lists_match p poll s ≡ true) ↔ (counted_ballots p s ≡ voters p s)
unfolding lists_match counted_ballots voters voter_count_for_poll
lists_match_iff p poll s = (
  λ h.
      sym (length-collect_votes p _ s.vote_directions _)
      ∙ (sym ((eqb_iff _ _).0 h) ∙ length-collect_identity_hashes p s.voter_registry),
  λ h. (eqb_iff _ _).1 (
      length-collect_identity_hashes p s.voter_registry
      ∙ (sym h ∙ sym (length-collect_votes p _ s.vote_directions _))),
)

-- A tally counts the ballots that are neither sealed nor superseded.
final_tally-total :
    (env : Env) (now : ℤ) (p : Bytes) (poll : Poll) (s : State)
    → (final_tally env now p poll s).total_votes ≡ pos (counted_ballots p s)
unfolding final_tally counted_ballots
final_tally-total env now p poll s = ap pos (length-collect_votes p _ s.vote_directions _)

-- The tally that is stored is for as many votes as there are voters.
pub record Closed (p : Bytes) (s s' : State) : Type 0 where
  pub tally : Tally
  pub stored : lookup p s'.tallies ≡ some tally
  pub total : tally.total_votes ≡ pos (voters p s)
  pub closed_poll : Poll
  pub status : (lookup p s'.polls ≡ some closed_poll) × (closed_poll.status ≡ status_closed)
  pub votes : s'.vote_directions ≡ s.vote_directions
  pub registry : s'.voter_registry ≡ s.voter_registry

close_poll-Closed :
    (env : Env) (now : ℤ) (p : Bytes) (poll : Poll) (s : State)
    → counted_ballots p s ≡ voters p s
    → (is_ok (close_poll env now p poll s).0 ≡ true) × Closed p s (close_poll env now p poll s).1
unfolding close_poll
close_poll-Closed env now p poll s h = rw ((lists_match_iff p poll s).1 h) (
  refl,
  record {
    tally = final_tally env now p poll s;
    stored = lookup-insert_self p _ s.tallies;
    total = final_tally-total env now p poll s ∙ ap pos h;
    closed_poll = record poll { status = status_closed };
    status = (lookup-insert_self p _ s.polls, refl);
    votes = refl;
    registry = refl;
  },
)

close_poll-refused :
    (env : Env) (now : ℤ) (p : Bytes) (poll : Poll) (s : State)
    → counted_ballots p s ≢ voters p s
    → close_poll env now p poll s ≡ (err count_mismatch, s)
unfolding close_poll
close_poll-refused env now p poll s h = ground (arith, lists_match_iff p poll s)

execute-close_poll :
    (env : Env) (now : ℤ) (t : Tx) (d : PollCloseData) (poll : Poll) (s : State)
    → env.decode_poll_close t.payload ≡ some d
    → lookup d.poll_id s.polls ≡ some poll
    → execute_poll_close env now t s ≡ close_poll env now d.poll_id poll s
unfolding execute_poll_close
execute-close_poll env now t d poll s decoded found = ground arith

module _ (env : Env) (now : ℤ) (t : Tx) (d : PollCloseData) (poll : Poll) (s : State) where
  -- Executing the close of a poll that exists, while it has as many counted ballots as voters:
  -- it succeeds at any time and in any status, the poll is closed, its tally is stored with that
  -- number as the total, and both lists stay as they are.
  pub execute_poll_close-Closed :
      env.decode_poll_close t.payload ≡ some d
      → lookup d.poll_id s.polls ≡ some poll
      → counted_ballots d.poll_id s ≡ voters d.poll_id s
      → (is_ok (execute_poll_close env now t s).0 ≡ true)
        × Closed d.poll_id s (execute_poll_close env now t s).1
  execute_poll_close-Closed decoded found h =
      rw (execute-close_poll env now t d poll s decoded found)
        (close_poll-Closed env now d.poll_id poll s h)

  -- Executing the close of a poll that exists, while the number of its counted ballots is not that
  -- of its voters: the error is the count mismatch, and the state stays as it is.
  pub execute_poll_close-refused :
      env.decode_poll_close t.payload ≡ some d
      → lookup d.poll_id s.polls ≡ some poll
      → counted_ballots d.poll_id s ≢ voters d.poll_id s
      → execute_poll_close env now t s ≡ (err count_mismatch, s)
  execute_poll_close-refused decoded found h =
      execute-close_poll env now t d poll s decoded found
      ∙ close_poll-refused env now d.poll_id poll s h

counted_uncounted :
    (p : Bytes) (m : GoMap VoteRecord)
    → count (λ key v. in_poll p key && is_counted v) m
        + count (λ key v. in_poll p key && not (is_counted v)) m
      ≡ count (λ key _. in_poll p key) m
unfolding count
counted_uncounted p [] = omega arith
counted_uncounted p ((key, v) ∷ m) = ground (arith, counted_uncounted p m)

-- The ballots of a poll are those that a tally counts and those that it leaves out.
pub counted_ballots-uncounted :
    (p : Bytes) (s : State) → counted_ballots p s + uncounted p s ≡ ballots p s
unfolding counted_ballots uncounted ballots
counted_ballots-uncounted p s = counted_uncounted p s.vote_directions
