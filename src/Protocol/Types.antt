-- ===== src/Protocol/Types.antt =====
-- protocol/types/poll.go: polls, the records of the two lists, tallies, checkpoints and the audit
-- records. A Go `string` and a `[]byte` are both `Bytes`.
use community.Base.{Bool, List}
use community.Data.Bytes.{Bytes, bytes}
use community.Data.GoMap.{GoMap}
use community.Data.Int64.{ℤ}

abbrev pub voting_method_plurality : Bytes
voting_method_plurality = bytes "plurality"

abbrev pub voting_method_approval : Bytes
voting_method_approval = bytes "approval"

abbrev pub voting_method_ranked : Bytes
voting_method_ranked = bytes "ranked"

abbrev pub status_pending : Bytes
status_pending = bytes "pending"

abbrev pub status_open : Bytes
status_open = bytes "open"

abbrev pub status_closed : Bytes
status_closed = bytes "closed"

abbrev pub partition_sealed : Bytes
partition_sealed = bytes "sealed"

pub record Poll : Type 0 where
  pub poll_id : Bytes
  pub poll_hash : Bytes
  pub question : Bytes
  pub options : List Bytes
  pub voting_method : Bytes
  pub start_time : ℤ
  pub end_time : ℤ
  pub status : Bytes
  pub created_at : ℤ
  pub eligibility_authority_pub_key : Bytes
  pub reconciling_authority_pub_key : Bytes
  pub sealed_count : ℤ
  pub reattestation_count : ℤ
  pub idv_cast_count : ℤ

-- List 1: a direction with no identity.
pub record VoteRecord : Type 0 where
  pub ballot_id : Bytes
  pub choices : List Bytes
  pub partition_id : Bytes
  pub superseded : Bool
  pub voter_pub_key_hash : Bytes

-- List 2: an identity with no direction.
pub record VoterRecord : Type 0 where
  pub identity_hash : Bytes

pub record Tally : Type 0 where
  pub poll_id : Bytes
  pub voting_method : Bytes
  pub counts : GoMap ℤ
  pub total_votes : ℤ
  pub confirmed_count : ℤ
  pub vote_merkle_root : Bytes
  pub voter_merkle_root : Bytes
  pub signature : Bytes
  pub public_key : Bytes
  pub finalized_at : ℤ
  pub height : ℤ
  pub attestation_degraded : Bool
  pub rescission_count : ℤ

pub record AttestationCheckpoint : Type 0 where
  pub poll_id : Bytes
  pub sequence_number : ℤ
  pub total_submissions : ℤ
  pub l1_commitment : Bytes
  pub l2_commitment : Bytes
  pub signature : Bytes
  pub public_key : Bytes
  pub attestation_degraded : Bool
  pub committed_at : ℤ
  pub height : ℤ

pub record RescindRecord : Type 0 where
  pub poll_id : Bytes
  pub ballot_id : Bytes
  pub identity_hash : Bytes
  pub revocation_ref : Bytes
  pub height : ℤ

pub record ConfirmRecord : Type 0 where
  pub poll_id : Bytes
  pub identity_hash : Bytes
  pub height : ℤ

pub record RestoreRecord : Type 0 where
  pub poll_id : Bytes
  pub ballot_id : Bytes
  pub identity_hash : Bytes
  pub revocation_ref : Bytes
  pub eligibility_sig : Bytes
  pub reconciling_sig : Bytes
  pub height : ℤ
