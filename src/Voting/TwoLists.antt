-- ===== src/Voting/TwoLists.antt =====
-- The sizes of the two lists of a poll, and of the parts of List 1. What each operation does to
-- them is in the modules below.
pub mod Keys
pub mod Cast
pub mod Flush
pub mod Close
pub mod Seal
pub mod Update
pub mod Rescind
pub mod Recast
pub mod Confirm
pub mod Foreign
pub mod Matched
use community.Base.{ℕ, ◌≡◌, Bool, not, ◌&&◌}
use community.Data.Bytes.{Bytes, ◌==◌}
use community.Data.GoMap.{count, Unique}
use community.Protocol.Types.{partition_sealed}
use community.Voting.State.{State, in_poll, is_counted, voter_count_for_poll}

-- |L1|, |L2|, and the ballots that a tally leaves out
unfoldable pub ballots : Bytes → State → ℕ
ballots poll_id s = count (λ key _. in_poll poll_id key) s.vote_directions

unfoldable pub voters : Bytes → State → ℕ
unfolding voter_count_for_poll
voters poll_id s = voter_count_for_poll poll_id s

unfoldable pub uncounted : Bytes → State → ℕ
uncounted poll_id s = count (λ key v. in_poll poll_id key && not (is_counted v)) s.vote_directions

-- The two-list invariant of a poll.
abbrev pub CountMatch : Bytes → State → Type 0
CountMatch poll_id s = ballots poll_id s ≡ voters poll_id s
