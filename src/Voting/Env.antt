-- ===== src/Voting/Env.antt =====
-- What the state machine calls and does not implement: cryptography, the JSON codec, the identity
-- verifier (services/identity/identity.go) and the signer (services/signer/signer.go).
use community.Base.{Bool, Option, List}
use community.Data.Bytes.{Bytes}
use community.Protocol.Txs.{
  Tx, PollCreateData, BallotCastData, PollCloseData, BatchFlushData, BallotUpdateData,
  ConfirmReceiptData, ValidatorRegistrationData, AuthorityRescindData, ResealVoteData,
  AuthorityRestoreData,
}

-- `none` is a decoding error.
pub record Env : Type 0 where
  -- crypto/sha256, crypto/ed25519 (public key, message, signature)
  pub sha256 : Bytes → Bytes
  pub ed25519_verify : Bytes → Bytes → Bytes → Bool
  -- encoding/json
  pub marshal_choices : List Bytes → Bytes
  pub decode_tx : Bytes → Option Tx
  pub decode_poll_create : Bytes → Option PollCreateData
  pub decode_ballot_cast : Bytes → Option BallotCastData
  pub decode_poll_close : Bytes → Option PollCloseData
  pub decode_batch_flush : Bytes → Option BatchFlushData
  pub decode_ballot_update : Bytes → Option BallotUpdateData
  pub decode_confirm_receipt : Bytes → Option ConfirmReceiptData
  pub decode_validator_registration : Bytes → Option ValidatorRegistrationData
  pub decode_authority_rescind : Bytes → Option AuthorityRescindData
  pub decode_reseal_vote : Bytes → Option ResealVoteData
  pub decode_authority_restore : Bytes → Option AuthorityRestoreData

-- `identity.IdentityVerifier`: the identity hash, or `none` for an error.
pub record IdentityVerifier : Type 0 where
  pub verify_and_identify : BallotCastData → Option Bytes
  pub verify_and_identify_update : BallotUpdateData → Option Bytes
  pub verify_and_identify_confirm : ConfirmReceiptData → Option Bytes

-- `signer.Signer`: `none` is a signing error.
pub record Signer : Type 0 where
  pub sign : Bytes → Option Bytes
  pub public_key_der : Bytes
