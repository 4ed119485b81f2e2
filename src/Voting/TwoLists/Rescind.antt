-- ===== src/Voting/TwoLists/Rescind.antt =====
-- What a rescission does to the two lists, and what happens to a second one.
use community.Base.{
  suc, ◌≡◌, refl, ap, ◌∙◌, true, Option, some, none, arith, Option-cases, inl, inr,
}
use community.Base.Result.{ok, err, is_ok}
use community.Data.Bytes.{==_refl}
use community.Data.GoMap.{lookup, delete, Unique}
use community.Data.GoMap.Count.{count-delete}
use community.Data.GoMap.Laws.{lookup-delete, lookup-insert_self}
use community.Protocol.Errors.{panic}
use community.Protocol.Txs.{Tx, AuthorityRescindData}
use community.Protocol.Types.{VoteRecord, VoterRecord, Tally}
use community.Voting.Authority.{
  check_rescind, validate_authority_rescind, remove_pair, drop_confirm, unseal, rescind_tally,
  rescind, record_rescission, execute_authority_rescind,
}
use community.Voting.Env.{Env}
use community.Voting.State.{State, store_key, in_poll, voter_count_for_poll}
use community.Voting.TwoLists.{ballots, voters}
use community.Voting.TwoLists.Keys.{in_poll-store_key}

-- Both lists after the pair is removed; the tallies are the same.
record Removed (d : AuthorityRescindData) (s s' : State) : Type 0 where
  votes : s'.vote_directions ≡ delete (store_key d.poll_id d.ballot_id) s.vote_directions
  registry : s'.voter_registry ≡ delete (store_key d.poll_id d.identity_hash) s.voter_registry
  same_tallies : s'.tallies ≡ s.tallies

remove_pair-Removed :
    (d : AuthorityRescindData) (vote : Option VoteRecord) (s : State)
    → Removed d s (remove_pair d vote s)
unfolding remove_pair drop_confirm unseal
remove_pair-Removed d none s = ground arith
remove_pair-Removed d (some v) s = ground arith

rescind-lists :
    (d : AuthorityRescindData) (v : VoteRecord) (s : State)
    → (is_ok (rescind d (some v) s).0 ≡ true)
      × ((rescind d (some v) s).1.vote_directions
          ≡ delete (store_key d.poll_id d.ballot_id) s.vote_directions)
      × ((rescind d (some v) s).1.voter_registry
          ≡ delete (store_key d.poll_id d.identity_hash) s.voter_registry)
unfolding rescind rescind_tally record_rescission
rescind-lists d v s =
    let r = remove_pair-Removed d (some v) s in
    elim (Option-cases (lookup d.poll_id (remove_pair d (some v) s).tallies)) [
      | inl e ↦ rw (e, rescind_tally) (refl, r.votes, r.registry)
      | inr (tally, e) ↦ rw (e, rescind_tally) (refl, r.votes, r.registry)
    ]

execute-rescind :
    (env : Env) (t : Tx) (d : AuthorityRescindData) (vote : Option VoteRecord) (s : State)
    → env.decode_authority_rescind t.payload ≡ some d
    → lookup (store_key d.poll_id d.ballot_id) s.vote_directions ≡ vote
    → execute_authority_rescind env t s ≡ rescind d vote s
unfolding execute_authority_rescind
execute-rescind env t d vote s decoded found = ground arith

check_rescind-found :
    (env : Env) (t : Tx) (d : AuthorityRescindData) (s : State)
    → env.decode_authority_rescind t.payload ≡ some d
    → validate_authority_rescind env t s ≡ ok tt
    → ((v : VoteRecord) × (lookup (store_key d.poll_id d.ballot_id) s.vote_directions ≡ some v))
      × ((w : VoterRecord) × (lookup (store_key d.poll_id d.identity_hash) s.voter_registry
            ≡ some w))
unfolding validate_authority_rescind check_rescind
check_rescind-found env t d s decoded h =
    elim (Option-cases (lookup (store_key d.poll_id d.ballot_id) s.vote_directions)) [
      | inl e ↦ absurd (ground arith)
      | inr found ↦
          elim (Option-cases (lookup (store_key d.poll_id d.identity_hash) s.voter_registry)) [
            | inl f ↦ absurd (ground arith)
            | inr voter ↦ (found, voter)
          ]
    ]

-- A rescission that is accepted succeeds when it is executed in the same state, and the poll has
-- one ballot and one voter fewer.
pub execute_authority_rescind-pair :
    (env : Env) (t : Tx) (d : AuthorityRescindData) (s : State)
    → env.decode_authority_rescind t.payload ≡ some d
    → validate_authority_rescind env t s ≡ ok tt
    → let r = execute_authority_rescind env t s in
      (is_ok r.0 ≡ true)
      × (suc (ballots d.poll_id r.1) ≡ ballots d.poll_id s)
      × (suc (voters d.poll_id r.1) ≡ voters d.poll_id s)
unfolding ballots voters voter_count_for_poll
execute_authority_rescind-pair env t d s decoded accepted =
    let p = d.poll_id in
    let ((v, vote), (w, voter)) = check_rescind-found env t d s decoded accepted in
    let done = rescind-lists d v s in
    let one =
      count-delete (λ key (_ : VoteRecord). in_poll p key) (store_key p d.ballot_id) v
        s.vote_directions vote in
    let two =
      count-delete (λ key (_ : VoterRecord). in_poll p key) (store_key p d.identity_hash) w
        s.voter_registry voter in
    rw (execute-rescind env t d (some v) s decoded vote) (
      done.0,
      ground (arith, one, done.1, in_poll-store_key p d.ballot_id),
      ground (arith, two, done.2, in_poll-store_key p d.identity_hash),
    )

rescind-tally :
    (d : AuthorityRescindData) (v : VoteRecord) (tally : Tally) (s : State)
    → lookup d.poll_id s.tallies ≡ some tally
    → (after : Tally) × (lookup d.poll_id (rescind d (some v) s).1.tallies ≡ some after)
unfolding rescind rescind_tally record_rescission
rescind-tally d v tally s found =
    rw
      (ap (lookup d.poll_id) (remove_pair-Removed d (some v) s).same_tallies ∙ found, rescind_tally)
      (_, lookup-insert_self d.poll_id _ (remove_pair d (some v) s).tallies)

rescind-none-panic :
    (d : AuthorityRescindData) (tally : Tally) (s : State)
    → lookup d.poll_id s.tallies ≡ some tally
    → (rescind d none s).0 ≡ err panic
unfolding rescind rescind_tally
rescind-none-panic d tally s found =
    rw (ap (lookup d.poll_id) (remove_pair-Removed d none s).same_tallies ∙ found, rescind_tally)
      refl

-- The same rescission executed twice in a poll that has a tally, where the ballot is there at
-- first: the second execution, which no block validates again, ends the process.
pub execute_authority_rescind-twice :
    (env : Env) (t : Tx) (d : AuthorityRescindData) (v : VoteRecord) (tally : Tally) (s : State)
    → env.decode_authority_rescind t.payload ≡ some d
    → lookup (store_key d.poll_id d.ballot_id) s.vote_directions ≡ some v
    → lookup d.poll_id s.tallies ≡ some tally
    → Unique s.vote_directions
    → (execute_authority_rescind env t (execute_authority_rescind env t s).1).0 ≡ err panic
execute_authority_rescind-twice env t d v tally s decoded vote found unique =
    let key = store_key d.poll_id d.ballot_id in
    let s' = (rescind d (some v) s).1 in
    let gone : lookup key s'.vote_directions ≡ none =
      ap (lookup key) (rescind-lists d v s).1
      ∙ (lookup-delete key key s.vote_directions unique ∙ rw (==_refl key) refl) in
    rw (execute-rescind env t d (some v) s decoded vote) (
      ap (λ r. r.0) (execute-rescind env t d none s' decoded gone)
      ∙ rescind-none-panic d (rescind-tally d v tally s found).0 s'
          (rescind-tally d v tally s found).1)
