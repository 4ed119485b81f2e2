-- ===== src/Wire/Txs/Validate.antt =====
-- embodiments/shywire/tx/tx.go, `Validate`: the stateless tests of each payload.
use community.Base.{Bool, true, false, not, ◌||◌, List, [], ◌∷◌, eqb, is_empty}
use community.Base.Result.{Result, ok, ◌>>◌, check, reject}
use community.Data.Bytes.{Bytes, bytes, ◌==◌}
use community.Data.Int64.{ℤ, pos, leb_ℤ}
use community.Wire.Errors.{
  Error, missing_identity, invalid_amounts, missing_proof, enrollment_not_both, no_parties,
  missing_commitment, missing_source_ref, missing_nonce, no_policy_members, missing_mechanics,
  zero_factor, missing_evidence, missing_reason, missing_timestamp, unknown_action_type,
  missing_auth,
}
use community.Wire.Txs.{
  MintData, TransferData, RegisterAccountData, ContractParty, RegisterContractData,
  ActivateContractData, ExecuteContractData, RegisterConsortiumPolicyData,
  RegisterWarehouseOperatorData, RegisterAcceptedSkuClassData, RecordCustodyIntakeLotData,
  RequestCustodyRedemptionData, SettleCustodyRedemptionData, ApplyCustodyDemurrageData,
  AdverseActionData,
}

-- `n <= 0`
abbrev pub not_positive : ℤ → Bool
not_positive n = leb_ℤ n (pos 0)

unfoldable pub check_mint_data : MintData → Result Error (Unit {0})
check_mint_data d =
    reject (is_empty d.asset_id || is_empty d.account_commitment || not_positive d.amount)
      invalid_amounts

unfoldable pub check_transfer_data : TransferData → Result Error (Unit {0})
check_transfer_data d = do
  reject (is_empty d.asset_id || is_empty d.sender_commitment || is_empty d.recipient_commitment)
      missing_identity
  reject (not_positive d.amount || is_empty d.nullifier || is_empty d.transfer_nonce)
      invalid_amounts

-- `a != b` on tests
abbrev differ : Bool → Bool → Bool
differ true b = not b
differ false b = b

unfoldable pub check_register_account_data : RegisterAccountData → Result Error (Unit {0})
check_register_account_data d = do
  reject (is_empty d.account_commitment || is_empty d.wallet_proof) missing_proof
  reject (differ (is_empty d.enrollment_token) (is_empty d.enrollment_proof)) enrollment_not_both

-- the loop over the parties
unfoldable pub check_commitments : List ContractParty → Result Error (Unit {0})
check_commitments [] = ok tt
check_commitments (p ∷ ps) =
    let rest = check_commitments ps in do reject (is_empty p.commitment) missing_commitment; rest

unfoldable pub check_register_contract_data : RegisterContractData → Result Error (Unit {0})
unfolding check_commitments
check_register_contract_data d = do
  reject (is_empty d.contract_id) missing_identity
  reject (is_empty d.contract_hash) missing_identity
  reject (is_empty d.contract_type) missing_identity
  reject (is_empty d.parties) no_parties
  check_commitments d.parties

unfoldable pub check_activate_contract_data : ActivateContractData → Result Error (Unit {0})
check_activate_contract_data d =
    reject (is_empty d.contract_id || is_empty d.evidence_hash) missing_identity

-- The amount of an execution is not looked at.
unfoldable pub check_execute_contract_data : ExecuteContractData → Result Error (Unit {0})
check_execute_contract_data d = do
  reject (is_empty d.contract_id || is_empty d.party_commitment) missing_identity
  reject (is_empty d.source_ref) missing_source_ref
  reject (is_empty d.nullifier || is_empty d.transfer_nonce) missing_nonce

unfoldable pub check_policy_data : RegisterConsortiumPolicyData → Result Error (Unit {0})
check_policy_data d = do
  reject (is_empty d.policy_id || is_empty d.asset_id || is_empty d.name) missing_identity
  reject (is_empty d.active_operator_ids || is_empty d.accepted_sku_class_ids) no_policy_members
  reject
      (is_empty d.unit_of_measure
        || is_empty d.quantity_normalization
        || is_empty d.redemption_mode
        || is_empty d.redemption_routing)
      missing_mechanics

unfoldable pub check_operator_data : RegisterWarehouseOperatorData → Result Error (Unit {0})
check_operator_data d =
    reject
      (is_empty d.operator_id || is_empty d.name || is_empty d.warehouse_id || is_empty d.status)
      missing_identity

unfoldable pub check_sku_class_data : RegisterAcceptedSkuClassData → Result Error (Unit {0})
check_sku_class_data d = do
  reject
      (is_empty d.sku_class_id
        || is_empty d.name
        || is_empty d.grade_band
        || is_empty d.unit_of_measure
        || is_empty d.status)
      missing_identity
  reject (eqb d.normalized_factor_bps 0) zero_factor

unfoldable pub check_lot_data : RecordCustodyIntakeLotData → Result Error (Unit {0})
check_lot_data d = do
  reject
      (is_empty d.lot_id
        || is_empty d.policy_id
        || is_empty d.asset_id
        || is_empty d.operator_id
        || is_empty d.warehouse_id
        || is_empty d.account_commitment
        || is_empty d.sku_class_id)
      missing_identity
  reject (not_positive d.quantity || not_positive d.minted_amount) invalid_amounts
  reject (is_empty d.video_session_ref || is_empty d.evidence_refs) missing_evidence

unfoldable pub check_redemption_data : RequestCustodyRedemptionData → Result Error (Unit {0})
check_redemption_data d = do
  reject
      (is_empty d.request_id
        || is_empty d.asset_id
        || is_empty d.account_commitment
        || is_empty d.warehouse_id
        || is_empty d.sku_class_id)
      missing_identity
  reject (not_positive d.silo_amount || not_positive d.requested_quantity) invalid_amounts

unfoldable pub check_settlement_data : SettleCustodyRedemptionData → Result Error (Unit {0})
check_settlement_data d = do
  reject
      (is_empty d.settlement_id
        || is_empty d.request_id
        || is_empty d.operator_id
        || is_empty d.warehouse_id
        || is_empty d.fulfillment_ref)
      missing_identity
  reject
      (not_positive d.burn_amount || not_positive d.settled_quantity || not_positive d.settled_at)
      invalid_amounts

unfoldable pub check_demurrage_data : ApplyCustodyDemurrageData → Result Error (Unit {0})
check_demurrage_data d = do
  reject
      (is_empty d.assessment_id
        || is_empty d.asset_id
        || is_empty d.account_commitment
        || is_empty d.policy_id
        || is_empty d.reason)
      missing_identity
  reject (not_positive d.amount || not_positive d.applied_at || leb_ℤ d.period_end d.period_start)
      invalid_amounts

abbrev pub is_action_type : Bytes → Bool
is_action_type type =
    type == bytes "disable"
    || type == bytes "freeze"
    || type == bytes "rescind"
    || type == bytes "restore"
    || type == bytes "redeem_forced"

unfoldable pub check_adverse_action_data : AdverseActionData → Result Error (Unit {0})
check_adverse_action_data d = do
  reject (is_empty d.action_id || is_empty d.action_nonce) missing_identity
  reject (is_empty d.account_commitment) missing_identity
  reject (is_empty d.reason) missing_reason
  reject (not_positive d.timestamp) missing_timestamp
  check (is_action_type d.action_type) unknown_action_type
  reject (is_empty d.eligibility_auth || is_empty d.reconciliation_auth) missing_auth
