-- ===== src/Voting/Attestation/Collect.antt =====
-- domain/state/tallies.go, `collectPollLists`: the two loops over the two lists.
pub mod Laws
use community.Base.{ℕ, Bool, true, false, ◌&&◌, Option, none, some, List, [], ◌∷◌, if◌then◌else◌}
use community.Data.Bytes.{Bytes, ◌==◌}
use community.Data.GoMap.{GoMap, lookup, insert}
use community.Data.Int64.{ℤ, pos, ◌+ℤ◌}
use community.Protocol.Types.{VoteRecord, VoterRecord, voting_method_approval}
use community.Voting.State.{in_poll, is_counted}

-- every option starts at zero
unfoldable pub zero_counts : List Bytes → GoMap ℤ → GoMap ℤ
zero_counts [] counts = counts
zero_counts (o ∷ os) counts = zero_counts os (insert o (pos 0) counts)

-- `counts[c] += n`
unfoldable pub add_count : Bytes → ℤ → GoMap ℤ → GoMap ℤ
add_count c n counts = elim (lookup c counts) [
  | none ↦ insert c (pos 0 +ℤ n) counts
  | some old ↦ insert c (old +ℤ n) counts
]

unfoldable pub add_all : List Bytes → ℤ → GoMap ℤ → GoMap ℤ
add_all [] n counts = counts
add_all (c ∷ cs) n counts = add_all cs n (add_count c n counts)

unfoldable pub add_first : List Bytes → ℤ → GoMap ℤ → GoMap ℤ
add_first [] n counts = counts
add_first (c ∷ cs) n counts = add_count c n counts

-- Approval counts every choice, any other method the first.
unfoldable pub tally_vote : Bytes → List Bytes → GoMap ℤ → GoMap ℤ
unfolding add_first add_all
tally_vote method choices counts =
    if method == voting_method_approval
    then add_all choices (pos 1) counts
    else add_first choices (pos 1) counts

-- the first loop: the counted ballot ids, and the counts
unfoldable pub collect_votes : Bytes → Bytes → GoMap VoteRecord → GoMap ℤ → List Bytes × GoMap ℤ
collect_votes poll_id method [] counts = ([], counts)
collect_votes poll_id method ((key, vote) ∷ m) counts =
    let mine = in_poll poll_id key && is_counted vote in
    let rest =
      collect_votes poll_id method m
        (if mine then tally_vote method vote.choices counts else counts) in
    (if mine then vote.ballot_id ∷ rest.0 else rest.0, rest.1)

-- the second loop
unfoldable pub collect_identity_hashes : Bytes → GoMap VoterRecord → List Bytes
collect_identity_hashes poll_id [] = []
collect_identity_hashes poll_id ((key, voter) ∷ m) =
    let rest = collect_identity_hashes poll_id m in
    if in_poll poll_id key then voter.identity_hash ∷ rest else rest
