-- ===== src/Wire/Txs.antt =====
-- embodiments/shywire/tx/tx.go: the payloads of the transactions.
pub mod Validate
use community.Base.{ℕ, zero, suc, Bool, List, [], ◌∷◌}
use community.Data.Bytes.{Bytes}
use community.Data.Int64.{ℤ}

pub record RegisterAssetData : Type 0 where
  pub asset_id : Bytes
  pub name : Bytes
  pub decimals : ℕ

pub record MintData : Type 0 where
  pub asset_id : Bytes
  pub account_commitment : Bytes
  pub amount : ℤ
  pub timestamp : ℤ

pub record BurnData : Type 0 where
  pub asset_id : Bytes
  pub account_commitment : Bytes
  pub amount : ℤ
  pub timestamp : ℤ

pub record TransferData : Type 0 where
  pub asset_id : Bytes
  pub sender_commitment : Bytes
  pub recipient_commitment : Bytes
  pub amount : ℤ
  pub nullifier : Bytes
  pub transfer_nonce : Bytes
  pub sender_proof : Bytes
  pub timestamp : ℤ

pub record RegisterAccountData : Type 0 where
  pub account_commitment : Bytes
  pub wallet_proof : Bytes
  pub enrollment_token : Bytes
  pub enrollment_proof : Bytes

pub record ValidatorRegistrationData : Type 0 where
  pub pub_key_base64 : Bytes
  pub power : ℤ
  pub name : Bytes

pub record ContractParty : Type 0 where
  pub role : Bytes
  pub commitment : Bytes
  pub allocation_bps : ℕ
  pub seniority : ℕ

pub record RegisterContractData : Type 0 where
  pub contract_id : Bytes
  pub asset_id : Bytes
  pub contract_type : Bytes
  pub contract_hash : Bytes
  pub parties : List ContractParty
  pub metadata : Bytes
  pub pending_condition : Bool
  pub expiry_timestamp : ℤ
  pub timestamp : ℤ

pub record ActivateContractData : Type 0 where
  pub contract_id : Bytes
  pub evidence_hash : Bytes
  pub evidence_type : Bytes
  pub activated_at : ℤ

pub record ExecuteContractData : Type 0 where
  pub contract_id : Bytes
  pub asset_id : Bytes
  pub party_commitment : Bytes
  pub counterparty_commitment : Bytes
  pub execution_type : Bytes
  pub source_ref : Bytes
  pub amount : ℤ
  pub payload : Bytes
  pub nullifier : Bytes
  pub transfer_nonce : Bytes
  pub timestamp : ℤ

pub record RegisterConsortiumPolicyData : Type 0 where
  pub policy_id : Bytes
  pub asset_id : Bytes
  pub name : Bytes
  pub active_operator_ids : List Bytes
  pub accepted_sku_class_ids : List Bytes
  pub unit_of_measure : Bytes
  pub quantity_normalization : Bytes
  pub shipping_adjustment_ref : Bytes
  pub demurrage_rate_bps : ℕ
  pub operator_fee_bps : ℕ
  pub redemption_mode : Bytes
  pub redemption_routing : Bytes
  pub evidence_requirements : List Bytes
  pub timestamp : ℤ

pub record RegisterWarehouseOperatorData : Type 0 where
  pub operator_id : Bytes
  pub name : Bytes
  pub warehouse_id : Bytes
  pub region : Bytes
  pub video_stream_ref : Bytes
  pub status : Bytes
  pub timestamp : ℤ

pub record RegisterAcceptedSkuClassData : Type 0 where
  pub sku_class_id : Bytes
  pub name : Bytes
  pub grade_band : Bytes
  pub unit_of_measure : Bytes
  pub normalized_factor_bps : ℕ
  pub storage_class : Bytes
  pub status : Bytes
  pub timestamp : ℤ

pub record RecordCustodyIntakeLotData : Type 0 where
  pub lot_id : Bytes
  pub policy_id : Bytes
  pub asset_id : Bytes
  pub operator_id : Bytes
  pub warehouse_id : Bytes
  pub account_commitment : Bytes
  pub sku_class_id : Bytes
  pub quantity : ℤ
  pub minted_amount : ℤ
  pub operator_fee_amount : ℤ
  pub shipping_cost_amount : ℤ
  pub storage_reserve_amount : ℤ
  pub video_session_ref : Bytes
  pub evidence_refs : List Bytes
  pub timestamp : ℤ

pub record RequestCustodyRedemptionData : Type 0 where
  pub request_id : Bytes
  pub asset_id : Bytes
  pub account_commitment : Bytes
  pub warehouse_id : Bytes
  pub sku_class_id : Bytes
  pub silo_amount : ℤ
  pub requested_quantity : ℤ
  pub destination_ref : Bytes
  pub timestamp : ℤ

pub record SettleCustodyRedemptionData : Type 0 where
  pub settlement_id : Bytes
  pub request_id : Bytes
  pub operator_id : Bytes
  pub warehouse_id : Bytes
  pub fulfillment_ref : Bytes
  pub burn_amount : ℤ
  pub settled_quantity : ℤ
  pub settled_at : ℤ

pub record AdverseActionData : Type 0 where
  pub action_id : Bytes
  pub action_nonce : Bytes
  pub account_commitment : Bytes
  pub asset_id : Bytes
  pub action_type : Bytes
  pub referenced_action_id : Bytes
  pub eligibility_auth : Bytes
  pub reconciliation_auth : Bytes
  pub reason : Bytes
  pub timestamp : ℤ

pub record ApplyCustodyDemurrageData : Type 0 where
  pub assessment_id : Bytes
  pub asset_id : Bytes
  pub account_commitment : Bytes
  pub policy_id : Bytes
  pub amount : ℤ
  pub period_start : ℤ
  pub period_end : ℤ
  pub reason : Bytes
  pub applied_at : ℤ

pub record Tx : Type 0 where
  pub type : ℕ
  pub signature : Bytes
  pub payload : Bytes

-- The type of a transaction: one constructor for each discriminator, 1 to 17.
pub data Kind : Type 0 where
  register_asset mint burn transfer register_account register_validator : Kind
  register_contract execute_contract activate_contract : Kind
  register_policy register_operator register_sku_class : Kind
  record_lot request_redemption settle_redemption apply_demurrage : Kind
  adverse_action unknown : Kind

abbrev pub kinds : List Kind
kinds =
    register_asset ∷ mint ∷ burn ∷ transfer ∷ register_account ∷ register_validator
    ∷ register_contract ∷ execute_contract ∷ activate_contract ∷ register_policy ∷ register_operator
    ∷ register_sku_class ∷ record_lot ∷ request_redemption ∷ settle_redemption ∷ apply_demurrage
    ∷ adverse_action ∷ []

abbrev nth : List Kind → ℕ → Kind
nth [] n = unknown
nth (k ∷ ks) zero = k
nth (k ∷ ks) (suc n) = nth ks n

-- the `switch` on `transaction.Type`
unfoldable pub kind_of : Tx → Kind
kind_of t = elim t.type [ zero ↦ unknown | suc n ↦ nth kinds n ]
