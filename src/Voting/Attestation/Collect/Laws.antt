-- ===== src/Voting/Attestation/Collect/Laws.antt =====
-- The lists that are collected are as long as the counts of the two lists.
use community.Base.{ℕ, ◌≡◌, refl, ◌&&◌, [], ◌∷◌, arith, length, if◌then◌else◌}
use community.Data.Bytes.{Bytes}
use community.Data.GoMap.{GoMap, count}
use community.Data.Int64.{ℤ}
use community.Protocol.Types.{VoteRecord, VoterRecord}
use community.Voting.Attestation.Collect.{tally_vote, collect_votes, collect_identity_hashes}
use community.Voting.State.{State, in_poll, is_counted}

-- How many ballots of a poll are counted.
unfoldable pub counted_ballots : Bytes → State → ℕ
counted_ballots poll_id s = count (λ key v. in_poll poll_id key && is_counted v) s.vote_directions

pub length-collect_votes :
    (poll_id method : Bytes) (m : GoMap VoteRecord) (counts : GoMap ℤ)
    → length (collect_votes poll_id method m counts).0
      ≡ count (λ key v. in_poll poll_id key && is_counted v) m
unfolding collect_votes count
length-collect_votes poll_id method [] counts = refl
length-collect_votes poll_id method ((key, v) ∷ m) counts =
    let mine = in_poll poll_id key && is_counted v in
    ground (
      arith,
      length-collect_votes poll_id method m
          (if mine then tally_vote method v.choices counts else counts),
    )

pub length-collect_identity_hashes :
    (poll_id : Bytes) (m : GoMap VoterRecord)
    → length (collect_identity_hashes poll_id m) ≡ count (λ key _. in_poll poll_id key) m
unfolding collect_identity_hashes count
length-collect_identity_hashes poll_id [] = refl
length-collect_identity_hashes poll_id ((key, v) ∷ m) =
    ground (arith, length-collect_identity_hashes poll_id m)
