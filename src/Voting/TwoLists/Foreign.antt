-- ===== src/Voting/TwoLists/Foreign.antt =====
-- Operations on one poll, seen from another whose prefix its keys do not have.
use community.Base.{
  ◌≡◌, refl, ◌∙◌, false, Option, none, some, List, [], ◌∷◌, All, is_empty, Bool-cases, inl, inr,
}
use community.Data.Bytes.{Bytes}
use community.Data.GoMap.Count.{count-insert_skip, count-delete_skip}
use community.Protocol.Txs.{BallotUpdateData}
use community.Protocol.Types.{VoteRecord, VoterRecord}
use community.Voting.Ballots.{withdraw, refresh_confirmed, change_direction, update_as}
use community.Voting.Batch.{Candidate, write_candidate, write_candidates}
use community.Voting.Env.{Env}
use community.Voting.State.{State, store_key, in_poll, voter_count_for_poll}
use community.Voting.TwoLists.{ballots, voters}

-- No key of poll `q` counts for poll `p`.
abbrev pub Foreign : Bytes → Bytes → Type 0
Foreign p q = (x : Bytes) → in_poll p (store_key q x) ≡ false

-- Both lists of a poll are as long as before.
abbrev pub SameSizes : Bytes → State → State → Type 0
SameSizes p s s' = (ballots p s' ≡ ballots p s) × (voters p s' ≡ voters p s)

write_candidate-SameSizes :
    (env : Env) (p : Bytes) (c : Candidate) (s : State)
    → Foreign p c.cast.poll_id
    → SameSizes p s (write_candidate env c s)
unfolding ballots voters voter_count_for_poll write_candidate
write_candidate-SameSizes env p c s f = (
  count-insert_skip (λ key (_ : VoteRecord). in_poll p key) _ _ s.vote_directions
      (λ _. f c.ballot_id),
  count-insert_skip (λ key (_ : VoterRecord). in_poll p key) _ _ s.voter_registry
      (λ _. f c.identity_hash),
)

pub write_candidates-SameSizes :
    (env : Env) (p : Bytes) (cs : List Candidate) (s : State)
    → All (λ c. Foreign p c.cast.poll_id) cs
    → SameSizes p s (write_candidates env cs s)
unfolding write_candidates
write_candidates-SameSizes env p [] s f = (refl, refl)
write_candidates-SameSizes env p (c ∷ cs) s f =
    let one = write_candidate-SameSizes env p c s f.0 in
    let more = write_candidates-SameSizes env p cs (write_candidate env c s) f.1 in
    (more.0 ∙ one.0, more.1 ∙ one.1)

pub update_as-SameSizes :
    (env : Env) (p : Bytes) (d : BallotUpdateData) (i : Option Bytes) (s : State)
    → Foreign p d.poll_id
    → SameSizes p s (update_as env d i s).1
unfolding update_as withdraw refresh_confirmed change_direction ballots voters voter_count_for_poll
update_as-SameSizes env p d none s f = (refl, refl)
update_as-SameSizes env p d (some i) s f =
    let gone =
      count-delete_skip (λ key (_ : VoteRecord). in_poll p key)
        (store_key d.poll_id d.old_ballot_id) s.vote_directions (λ _. f d.old_ballot_id) in
    elim (Bool-cases (is_empty d.new_choices)) [
      | inl e ↦
          rw (e, update_as)
            (
              gone,
              count-delete_skip (λ key (_ : VoterRecord). in_poll p key) _ s.voter_registry
                  (λ _. f i),
            )
      | inr e ↦
          rw (e, update_as)
            (
              count-insert_skip (λ key (_ : VoteRecord). in_poll p key) _ _ _ (λ _. f _) ∙ gone,
              refl,
            )
    ]
