-- ===== src/Wire/Errors.antt =====
-- The errors of embodiments/shywire, one for each message of the source without its arguments.
-- `panic` is a nil dereference, which ends the process.

pub data Error : Type 0 where
  panic : Error
  -- tx/tx.go
  invalid_type missing_signature missing_data invalid_payload : Error
  missing_identity invalid_amounts missing_proof enrollment_not_both : Error
  no_parties missing_commitment missing_source_ref missing_nonce : Error
  no_policy_members missing_mechanics zero_factor missing_evidence : Error
  missing_reason missing_timestamp unknown_action_type missing_auth : Error
  -- state
  unknown_type keys_not_distinct : Error
  unknown_asset asset_exists duplicate_transfer : Error
  account_missing account_exists account_disabled account_frozen insufficient_balance : Error
  wallet_proof_rejected wallet_proof_mismatch : Error
  enrollment_required enrollment_used enrollment_invalid : Error
  contract_exists unknown_contract contract_not_pending contract_not_active contract_expired : Error
  asset_mismatch party_missing counterparty_missing : Error
  operator_exists sku_class_exists policy_exists lot_exists : Error
  unknown_operator operator_not_active unknown_sku_class sku_class_not_active : Error
  unknown_policy policy_not_active warehouse_mismatch : Error
  operator_not_allowed sku_class_not_allowed : Error
  request_exists unknown_request request_not_pending settlement_exists : Error
  warehouse_not_active insufficient_inventory quantity_exceeds_request amount_exceeds_request :
      Error
  assessment_exists invalid_base64 : Error
  no_authority_keys action_id_mismatch action_exists reference_missing : Error
  eligibility_sig_failed reconciling_sig_failed : Error
