-- ===== src/Voting/State.antt =====
-- domain/state/state.go: the in-memory state, its keys and its per-poll counts. Database, logger
-- and JSON forms are left out. A Go map of pointers is a map of the records: no two entries share
-- one.
use community.Base.{ℕ, Bool, false, not, ◌||◌, Option, none, some, List, [], ◌∷◌, ◌++◌}
use community.Base.Exec.{Exec}
use community.Data.Bytes.{Bytes, bytes, ◌==◌, has_prefix}
use community.Data.GoMap.{GoMap, insert, lookup, count}
use community.Data.Int64.{ℤ, pos}
use community.Protocol.Errors.{Error}
use community.Protocol.Events.{Event}
use community.Protocol.Nonce.{BeaconWindow}
use community.Protocol.Types.{
  Poll, VoteRecord, VoterRecord, Tally, AttestationCheckpoint, RescindRecord, ConfirmRecord,
  RestoreRecord, partition_sealed,
}
use community.Voting.Env.{IdentityVerifier, Signer}

-- domain/state/validators.go
pub record ValidatorRecord : Type 0 where
  pub pub_key_base64 : Bytes
  pub power : ℤ
  pub name : Bytes
  pub height : ℤ

-- `abcitypes.ValidatorUpdate` with an Ed25519 key
pub record ValidatorUpdate : Type 0 where
  pub pub_key : Bytes
  pub power : ℤ

pub record State : Type 0 where
  pub signer : Option Signer
  pub verifier : Option IdentityVerifier
  pub polls : GoMap Poll
  pub vote_directions : GoMap VoteRecord
  pub voter_registry : GoMap VoterRecord
  pub tallies : GoMap Tally
  pub validators : GoMap ValidatorRecord
  pub confirms : GoMap ConfirmRecord
  pub rescissions : GoMap RescindRecord
  pub restores : GoMap RestoreRecord
  pub pending_validator_updates : List ValidatorUpdate
  pub write_only : Bool
  pub attestation_mode : Bytes
  pub rolling_threshold : ℤ
  pub submission_counts : GoMap ℤ
  pub checkpoints : GoMap (List AttestationCheckpoint)
  pub beacon_window : BeaconWindow
  pub height : ℤ
  pub app_hash : Bytes
  pub dirty : Bool

abbrev pub Handler : Type 0
Handler = Exec Error State (List Event)

abbrev pub Validator : Type 0
Validator = Exec Error State (Unit {0})

-- `pollID + ":" + id`, the key of both lists (`voteStoreKey` for List 1)
unfoldable pub store_key : Bytes → Bytes → Bytes
store_key poll_id id = poll_id ++ 58 ∷ id

-- Every count is over the keys with the prefix `pollID + ":"`.
unfoldable pub in_poll : Bytes → Bytes → Bool
in_poll poll_id key = has_prefix key (poll_id ++ 58 ∷ [])

unfoldable pub voter_count_for_poll : Bytes → State → ℕ
voter_count_for_poll poll_id s = count (λ key _. in_poll poll_id key) s.voter_registry

unfoldable pub confirmed_count_for_poll : Bytes → State → ℕ
confirmed_count_for_poll poll_id s = count (λ key _. in_poll poll_id key) s.confirms

-- the test of the collector in tallies.go
unfoldable pub is_counted : VoteRecord → Bool
is_counted v = not (v.partition_id == partition_sealed || v.superseded)

-- `NewState` without a database: empty maps and the default attestation mode.
abbrev pub new_state : Option Signer → Option IdentityVerifier → State
new_state signer verifier = record {
  signer = signer;
  verifier = verifier;
  polls = [];
  vote_directions = [];
  voter_registry = [];
  tallies = [];
  validators = [];
  confirms = [];
  rescissions = [];
  restores = [];
  pending_validator_updates = [];
  write_only = false;
  attestation_mode = bytes "rolling";
  rolling_threshold = pos 100;
  submission_counts = [];
  checkpoints = [];
  beacon_window = [];
  height = pos 0;
  app_hash = [];
  dirty = false;
}

-- `p.SealedCount++` and the like: a write through the pointer in a map, if it is there.
unfoldable pub update {ℓ} : {V : Type ℓ} → Bytes → (V → V) → GoMap V → GoMap V
update k f m = elim (lookup k m) [ none ↦ m | some v ↦ insert k (f v) m ]
