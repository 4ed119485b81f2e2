-- ===== src/Protocol/Txs.antt =====
-- protocol/tx/tx.go: the transaction envelope and its payloads. `data` is raw JSON, which a codec
-- decodes (Voting/Env.antt).

pub mod Validate
use community.Base.{ℕ, List}
use community.Data.Bytes.{Bytes, bytes}
use community.Data.Int64.{ℤ}

abbrev pub tx_type_poll_create : ℕ
tx_type_poll_create = 1

abbrev pub tx_type_ballot_cast : ℕ
tx_type_ballot_cast = 2

abbrev pub tx_type_poll_close : ℕ
tx_type_poll_close = 3

abbrev pub tx_type_register_validator : ℕ
tx_type_register_validator = 4

abbrev pub tx_type_confirm_receipt : ℕ
tx_type_confirm_receipt = 5

abbrev pub tx_type_update_ballot : ℕ
tx_type_update_ballot = 6

abbrev pub tx_type_batch_flush : ℕ
tx_type_batch_flush = 7

abbrev pub tx_type_reseal_vote : ℕ
tx_type_reseal_vote = 8

abbrev pub tx_type_authority_rescind : ℕ
tx_type_authority_rescind = 9

abbrev pub tx_type_authority_restore : ℕ
tx_type_authority_restore = 10

abbrev pub derivation_nonce_only : Bytes
derivation_nonce_only = bytes "nonce_only"

abbrev pub derivation_nonce_plus_payload : Bytes
derivation_nonce_plus_payload = bytes "nonce_plus_payload"

-- `Tx.Type` is a `uint8`.
pub record Tx : Type 0 where
  pub type : ℕ
  pub signature : Bytes
  pub payload : Bytes

pub record PollCreateData : Type 0 where
  pub poll_id : Bytes
  pub question : Bytes
  pub options : List Bytes
  pub voting_method : Bytes
  pub start_time : ℤ
  pub end_time : ℤ
  pub eligibility_authority_pub_key_base64 : Bytes
  pub reconciling_authority_pub_key_base64 : Bytes

pub record BallotCastData : Type 0 where
  pub poll_id : Bytes
  pub choices : List Bytes
  pub ballot_nonce : Bytes
  pub beacon_block_hash : Bytes
  pub beacon_block_height : ℤ
  pub submission_identifier_derivation : Bytes
  pub timestamp : ℤ
  pub partition_id : Bytes
  pub voter_pub_key : Bytes
  pub voter_sig : Bytes
  pub idv_attestation_sig : Bytes
  pub zk_nullifier : Bytes
  pub zk_nullifier_proof : Bytes
  pub zk_commitment : Bytes
  pub didit_commitment_sig : Bytes
  pub wallet_address : Bytes

pub record PollCloseData : Type 0 where
  pub poll_id : Bytes
  pub closing_height : ℤ

pub record BatchFlushData : Type 0 where
  pub poll_id : Bytes
  pub submissions : List Tx

pub record BallotUpdateData : Type 0 where
  pub poll_id : Bytes
  pub old_ballot_id : Bytes
  pub new_ballot_nonce : Bytes
  pub beacon_block_hash : Bytes
  pub beacon_block_height : ℤ
  pub submission_identifier_derivation : Bytes
  pub new_choices : List Bytes
  pub timestamp : ℤ
  pub voter_pub_key : Bytes
  pub voter_sig : Bytes
  pub idv_attestation_sig : Bytes
  pub zk_nullifier : Bytes
  pub zk_nullifier_proof : Bytes
  pub zk_commitment : Bytes
  pub didit_commitment_sig : Bytes
  pub wallet_address : Bytes

pub record ConfirmReceiptData : Type 0 where
  pub poll_id : Bytes
  pub identity_hash : Bytes
  pub voter_pub_key : Bytes
  pub idv_attestation_sig : Bytes
  pub zk_nullifier : Bytes
  pub zk_nullifier_proof : Bytes
  pub zk_commitment : Bytes
  pub didit_commitment_sig : Bytes
  pub wallet_address : Bytes

pub record ValidatorRegistrationData : Type 0 where
  pub pub_key_base64 : Bytes
  pub power : ℤ
  pub name : Bytes

pub record AuthorityRescindData : Type 0 where
  pub poll_id : Bytes
  pub ballot_id : Bytes
  pub identity_hash : Bytes
  pub revocation_ref : Bytes
  pub eligibility_sig : Bytes
  pub reconciling_sig : Bytes

pub record ResealVoteData : Type 0 where
  pub poll_id : Bytes
  pub ballot_id : Bytes
  pub voter_pub_key : Bytes
  pub migration_sig : Bytes
  pub timestamp : ℤ

pub record AuthorityRestoreData : Type 0 where
  pub poll_id : Bytes
  pub ballot_id : Bytes
  pub identity_hash : Bytes
  pub revocation_ref : Bytes
  pub eligibility_sig : Bytes
  pub reconciling_sig : Bytes
