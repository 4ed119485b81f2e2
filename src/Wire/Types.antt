-- ===== src/Wire/Types.antt =====
-- embodiments/shywire/types: the records of the transfer ledger, its contracts and its custody. A
-- `json.RawMessage` is its bytes.
use community.Base.{ℕ, Bool, List}
use community.Data.Bytes.{Bytes}
use community.Data.Int64.{ℤ}

pub record AssetRecord : Type 0 where
  pub asset_id : Bytes
  pub name : Bytes
  pub decimals : ℕ
  pub total_supply : ℤ
  pub created_at : ℤ

pub record TransferRecord : Type 0 where
  pub transfer_id : Bytes
  pub asset_id : Bytes
  pub amount : ℤ
  pub timestamp : ℤ
  pub height : ℤ

pub record ParticipantRecord : Type 0 where
  pub transfer_id : Bytes
  pub identity_hash : Bytes
  pub height : ℤ

pub record AccountRecord : Type 0 where
  pub account_commitment : Bytes
  pub asset_id : Bytes
  pub balance : ℤ
  pub disabled : Bool
  pub frozen : Bool
  pub updated_at : ℤ
  pub height : ℤ

pub record AuthorityActionRecord : Type 0 where
  pub action_id : Bytes
  pub account_commitment : Bytes
  pub asset_id : Bytes
  pub action_type : Bytes
  pub referenced_action_id : Bytes
  pub eligibility_auth : Bytes
  pub reconciliation_auth : Bytes
  pub reason : Bytes
  pub timestamp : ℤ
  pub height : ℤ

pub record SupplyRecord : Type 0 where
  pub asset_id : Bytes
  pub total_minted : ℤ
  pub total_burned : ℤ
  pub total_supply : ℤ
  pub updated_at : ℤ

pub record EnrollmentRecord : Type 0 where
  pub token : Bytes
  pub account_commitment : Bytes
  pub height : ℤ

pub record ContractPartyRecord : Type 0 where
  pub role : Bytes
  pub commitment : Bytes
  pub allocation_bps : ℕ
  pub seniority : ℕ

pub record ContractRecord : Type 0 where
  pub contract_id : Bytes
  pub asset_id : Bytes
  pub contract_type : Bytes
  pub contract_hash : Bytes
  pub parties : List ContractPartyRecord
  pub metadata : Bytes
  pub condition_hash : Bytes
  pub condition_type : Bytes
  pub activated_at : ℤ
  pub execution_count : ℤ
  pub total_executed : ℤ
  pub expiry_timestamp : ℤ
  pub status : Bytes
  pub created_at : ℤ
  pub updated_at : ℤ
  pub height : ℤ

pub record ContractExecutionRecord : Type 0 where
  pub execution_id : Bytes
  pub contract_id : Bytes
  pub asset_id : Bytes
  pub execution_type : Bytes
  pub source_ref : Bytes
  pub amount : ℤ
  pub payload : Bytes
  pub timestamp : ℤ
  pub height : ℤ

pub record LotAllocation : Type 0 where
  pub lot_id : Bytes
  pub quantity : ℤ

pub record ConsortiumPolicyRecord : Type 0 where
  pub policy_id : Bytes
  pub asset_id : Bytes
  pub name : Bytes
  pub active_operator_ids : List Bytes
  pub accepted_sku_class_ids : List Bytes
  pub unit_of_measure : Bytes
  pub quantity_normalization : Bytes
  pub shipping_adjustment_ref : Bytes
  pub demurrage_rate_bps : ℕ
  pub operator_fee_bps : ℕ
  pub redemption_mode : Bytes
  pub redemption_routing : Bytes
  pub evidence_requirements : List Bytes
  pub status : Bytes
  pub published_at : ℤ
  pub updated_at : ℤ
  pub height : ℤ

pub record WarehouseOperatorRecord : Type 0 where
  pub operator_id : Bytes
  pub name : Bytes
  pub warehouse_id : Bytes
  pub region : Bytes
  pub video_stream_ref : Bytes
  pub status : Bytes
  pub created_at : ℤ
  pub updated_at : ℤ
  pub height : ℤ

pub record AcceptedSkuClassRecord : Type 0 where
  pub sku_class_id : Bytes
  pub name : Bytes
  pub grade_band : Bytes
  pub unit_of_measure : Bytes
  pub normalized_factor_bps : ℕ
  pub storage_class : Bytes
  pub status : Bytes
  pub created_at : ℤ
  pub updated_at : ℤ
  pub height : ℤ

pub record IntakeLotRecord : Type 0 where
  pub lot_id : Bytes
  pub policy_id : Bytes
  pub asset_id : Bytes
  pub operator_id : Bytes
  pub warehouse_id : Bytes
  pub account_commitment : Bytes
  pub sku_class_id : Bytes
  pub quantity : ℤ
  pub remaining_quantity : ℤ
  pub minted_amount : ℤ
  pub operator_fee_amount : ℤ
  pub shipping_cost_amount : ℤ
  pub storage_reserve_amount : ℤ
  pub video_session_ref : Bytes
  pub evidence_refs : List Bytes
  pub status : Bytes
  pub created_at : ℤ
  pub updated_at : ℤ
  pub height : ℤ

pub record RedemptionRequestRecord : Type 0 where
  pub request_id : Bytes
  pub asset_id : Bytes
  pub account_commitment : Bytes
  pub warehouse_id : Bytes
  pub sku_class_id : Bytes
  pub silo_amount : ℤ
  pub requested_quantity : ℤ
  pub destination_ref : Bytes
  pub status : Bytes
  pub created_at : ℤ
  pub updated_at : ℤ
  pub height : ℤ

pub record RedemptionSettlementRecord : Type 0 where
  pub settlement_id : Bytes
  pub request_id : Bytes
  pub operator_id : Bytes
  pub warehouse_id : Bytes
  pub allocated_lots : List LotAllocation
  pub fulfillment_ref : Bytes
  pub burn_amount : ℤ
  pub settled_quantity : ℤ
  pub settled_at : ℤ
  pub height : ℤ

pub record DemurrageAssessmentRecord : Type 0 where
  pub assessment_id : Bytes
  pub asset_id : Bytes
  pub account_commitment : Bytes
  pub policy_id : Bytes
  pub amount : ℤ
  pub period_start : ℤ
  pub period_end : ℤ
  pub reason : Bytes
  pub applied_at : ℤ
  pub height : ℤ
