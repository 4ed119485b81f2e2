-- ===== src/Wire/Env.antt =====
-- What embodiments/shywire calls and does not implement: hashes, signatures and the JSON codec.
use community.Base.{Bool, Option}
use community.Data.Bytes.{Bytes}
use community.Wire.Txs.{
  Tx, RegisterAssetData, MintData, BurnData, TransferData, RegisterAccountData,
  ValidatorRegistrationData, RegisterContractData, ActivateContractData, ExecuteContractData,
  RegisterConsortiumPolicyData, RegisterWarehouseOperatorData, RegisterAcceptedSkuClassData,
  RecordCustodyIntakeLotData, RequestCustodyRedemptionData, SettleCustodyRedemptionData,
  ApplyCustodyDemurrageData, AdverseActionData,
}

-- `none` is an error.
pub record Env : Type 0 where
  -- crypto/sha256, golang.org/x/crypto/sha3, crypto/ed25519 (public key, message, signature)
  pub sha256 : Bytes → Bytes
  pub keccak256 : Bytes → Bytes
  pub ed25519_verify : Bytes → Bytes → Bytes → Bool
  -- `ecdsa.RecoverCompact` (signature, hash), then `SerializeUncompressed`
  pub recover_compact : Bytes → Bytes → Option Bytes
  -- `strings.TrimSpace`, `strings.ToLower`
  pub trim_space : Bytes → Bytes
  pub to_lower : Bytes → Bytes
  -- encoding/json
  pub decode_tx : Bytes → Option Tx
  pub decode_register_asset : Bytes → Option RegisterAssetData
  pub decode_mint : Bytes → Option MintData
  pub decode_burn : Bytes → Option BurnData
  pub decode_transfer : Bytes → Option TransferData
  pub decode_register_account : Bytes → Option RegisterAccountData
  pub decode_validator_registration : Bytes → Option ValidatorRegistrationData
  pub decode_register_contract : Bytes → Option RegisterContractData
  pub decode_activate_contract : Bytes → Option ActivateContractData
  pub decode_execute_contract : Bytes → Option ExecuteContractData
  pub decode_register_consortium_policy : Bytes → Option RegisterConsortiumPolicyData
  pub decode_register_warehouse_operator : Bytes → Option RegisterWarehouseOperatorData
  pub decode_register_accepted_sku_class : Bytes → Option RegisterAcceptedSkuClassData
  pub decode_record_custody_intake_lot : Bytes → Option RecordCustodyIntakeLotData
  pub decode_request_custody_redemption : Bytes → Option RequestCustodyRedemptionData
  pub decode_settle_custody_redemption : Bytes → Option SettleCustodyRedemptionData
  pub decode_apply_custody_demurrage : Bytes → Option ApplyCustodyDemurrageData
  pub decode_adverse_action : Bytes → Option AdverseActionData
