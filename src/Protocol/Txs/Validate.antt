-- ===== src/Protocol/Txs/Validate.antt =====
-- protocol/tx/tx.go, `Validate`: the stateless tests of each payload. The decoder of each payload
-- is passed in.
use community.Base.{
  Bool, true, false, not, ◌&&◌, ◌||◌, Option, List, [], ◌∷◌, eqb, ltb, length, is_empty,
  if◌then◌else◌,
}
use community.Base.Result.{Result, ok, ◌>>=◌, ◌>>◌, check, reject, or_err}
use community.Data.Base64.{base64_decode}
use community.Data.Bytes.{Bytes, ◌==◌}
use community.Data.Hex.{hex_decode}
use community.Data.Int64.{pos, ltb_ℤ}
use community.Protocol.Errors.{
  Error, missing_signature, missing_data, missing_scoping_id, missing_question, too_few_options,
  missing_choices, missing_nonce, invalid_derivation, missing_voter_pub_key, missing_voter_sig,
  missing_attestation, missing_identity_hash, missing_name, negative_power, missing_submission_id,
  missing_submissions, missing_migration_sig, missing_revocation_ref, missing_eligibility_sig,
  missing_reconciling_sig, keys_not_both, invalid_base64, wrong_key_length, invalid_voter_pub_key,
  not_ballot_cast, invalid_payload,
}
use community.Protocol.Txs.{
  Tx, PollCreateData, BallotCastData, PollCloseData, BatchFlushData, BallotUpdateData,
  ConfirmReceiptData, ValidatorRegistrationData, AuthorityRescindData, ResealVoteData,
  AuthorityRestoreData, derivation_nonce_only, derivation_nonce_plus_payload, tx_type_ballot_cast,
}

abbrev require : Bytes → Error → Result Error (Unit {0})
require s e = reject (is_empty s) e

-- An authority key is empty, or base64 of 32 bytes.
unfoldable pub check_key : Bytes → Result Error (Unit {0})
check_key key = if is_empty key then ok tt else do
  raw ← or_err (base64_decode key) invalid_base64
  check (eqb (length raw) 32) wrong_key_length

-- `a != b` on tests
abbrev pub differ : Bool → Bool → Bool
differ true b = not b
differ false b = b

unfoldable pub check_poll_create_data : PollCreateData → Result Error (Unit {0})
unfolding check_key
check_poll_create_data d = do
  require d.poll_id missing_scoping_id
  require d.question missing_question
  reject (ltb (length d.options) 2) too_few_options
  reject
      (differ (is_empty d.eligibility_authority_pub_key_base64)
        (is_empty d.reconciling_authority_pub_key_base64))
      keys_not_both
  check_key d.eligibility_authority_pub_key_base64
  check_key d.reconciling_authority_pub_key_base64

is_derivation : Bytes → Bool
is_derivation mode =
    is_empty mode || mode == derivation_nonce_only || mode == derivation_nonce_plus_payload

-- one of the two attestation paths is there: all four ZK fields, or an attestation signature
has_attestation : Bytes → Bytes → Bytes → Bytes → Bytes → Bool
has_attestation nullifier proof commitment commitment_sig attestation_sig =
    (not (is_empty nullifier)
      && not (is_empty proof)
      && not (is_empty commitment)
      && not (is_empty commitment_sig))
    || not (is_empty attestation_sig)

unfoldable pub check_ballot_cast_data : BallotCastData → Result Error (Unit {0})
unfolding is_derivation has_attestation
check_ballot_cast_data d = do
  require d.poll_id missing_scoping_id
  reject (is_empty d.choices) missing_choices
  require d.ballot_nonce missing_nonce
  check (is_derivation d.submission_identifier_derivation) invalid_derivation
  require d.voter_pub_key missing_voter_pub_key
  require d.voter_sig missing_voter_sig
  check
      (has_attestation d.zk_nullifier d.zk_nullifier_proof d.zk_commitment d.didit_commitment_sig
        d.idv_attestation_sig)
      missing_attestation

unfoldable pub check_confirm_receipt_data : ConfirmReceiptData → Result Error (Unit {0})
check_confirm_receipt_data d = do
  require d.poll_id missing_scoping_id
  require d.identity_hash missing_identity_hash

unfoldable pub check_poll_close_data : PollCloseData → Result Error (Unit {0})
check_poll_close_data d = require d.poll_id missing_scoping_id

unfoldable pub check_validator_data : ValidatorRegistrationData → Result Error (Unit {0})
check_validator_data d = do
  raw ← or_err (base64_decode d.pub_key_base64) invalid_base64
  check (eqb (length raw) 32) wrong_key_length
  require d.name missing_name
  reject (ltb_ℤ d.power (pos 0)) negative_power

unfoldable pub check_ballot_update_data : BallotUpdateData → Result Error (Unit {0})
unfolding is_derivation has_attestation
check_ballot_update_data d = do
  require d.poll_id missing_scoping_id
  require d.old_ballot_id missing_submission_id
  require d.new_ballot_nonce missing_nonce
  check (is_derivation d.submission_identifier_derivation) invalid_derivation
  require d.voter_pub_key missing_voter_pub_key
  require d.voter_sig missing_voter_sig
  check
      (has_attestation d.zk_nullifier d.zk_nullifier_proof d.zk_commitment d.didit_commitment_sig
        d.idv_attestation_sig)
      missing_attestation

unfoldable pub check_reseal_data : ResealVoteData → Result Error (Unit {0})
check_reseal_data d = do
  require d.poll_id missing_scoping_id
  require d.ballot_id missing_submission_id
  require d.voter_pub_key missing_voter_pub_key
  require d.migration_sig missing_migration_sig
  raw ← or_err (hex_decode d.voter_pub_key) invalid_voter_pub_key
  check (eqb (length raw) 32) invalid_voter_pub_key

unfoldable pub check_authority_data :
    Bytes → Bytes → Bytes → Bytes → Bytes → Bytes → Result Error (Unit {0})
check_authority_data poll_id ballot_id identity_hash ref elig_sig reconcile_sig = do
  require poll_id missing_scoping_id
  require ballot_id missing_submission_id
  require identity_hash missing_identity_hash
  require ref missing_revocation_ref
  require elig_sig missing_eligibility_sig
  require reconcile_sig missing_reconciling_sig

unfoldable pub check_rescind_data : AuthorityRescindData → Result Error (Unit {0})
unfolding check_authority_data
check_rescind_data d =
    check_authority_data d.poll_id d.ballot_id d.identity_hash d.revocation_ref d.eligibility_sig
      d.reconciling_sig

unfoldable pub check_restore_data : AuthorityRestoreData → Result Error (Unit {0})
unfolding check_authority_data
check_restore_data d =
    check_authority_data d.poll_id d.ballot_id d.identity_hash d.revocation_ref d.eligibility_sig
      d.reconciling_sig

-- the tests of the envelope, after the one of the type
unfoldable pub check_envelope : Tx → Result Error (Unit {0})
check_envelope t = do require t.signature missing_signature; require t.payload missing_data

-- A submission in a batch is a ballot cast, so its `Validate` takes that branch.
unfoldable pub check_submissions :
    (Bytes → Option BallotCastData) → List Tx → Result Error (Unit {0})
unfolding check_envelope check_ballot_cast_data
check_submissions decode [] = ok tt
check_submissions decode (t ∷ ts) =
    let rest = check_submissions decode ts in
    do
      check (eqb t.type tx_type_ballot_cast) not_ballot_cast
      check_envelope t
      d ← or_err (decode t.payload) invalid_payload
      check_ballot_cast_data d
      rest

unfoldable pub check_batch_data :
    (Bytes → Option BallotCastData) → BatchFlushData → Result Error (Unit {0})
unfolding check_submissions
check_batch_data decode d = do
  require d.poll_id missing_scoping_id
  reject (is_empty d.submissions) missing_submissions
  check_submissions decode d.submissions
