-- ===== src/Voting/Invariant.antt =====
-- An invariant of both lists, and that the application keeps it: app/app.go and all handlers of
-- domain/state.
pub mod Handlers
pub mod Removals
pub mod Reachable
use community.Base.{◌≡◌}
use community.Data.Bytes.{Bytes}
use community.Data.GoMap.{GoMap, Unique}
use community.Data.GoMap.Entries.{Entries}
use community.Protocol.Types.{VoteRecord, VoterRecord}
use community.Voting.State.{State, store_key}

-- A ballot is filed in some poll under its own id, and a voter under its own identity hash.
abbrev pub IsFiledVote : Bytes → VoteRecord → Type 0
IsFiledVote key v = (p : Bytes) × (key ≡ store_key p v.ballot_id)

abbrev pub IsFiledVoter : Bytes → VoterRecord → Type 0
IsFiledVoter key v = (p : Bytes) × (key ≡ store_key p v.identity_hash)

-- Each list holds a key once, and every record under its own key.
pub record IsFiled (s : State) : Type 0 where
  pub votes_unique : Unique s.vote_directions
  pub registry_unique : Unique s.voter_registry
  pub votes : Entries IsFiledVote s.vote_directions
  pub registry : Entries IsFiledVoter s.voter_registry
