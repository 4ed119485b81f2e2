-- ===== src/Tests/Wire.antt =====
-- Runs of the theorems on embodiments/shywire: an asset, two accounts, a contract and two lots.
mod Ledger
mod Custody
mod Executions
mod Actions
mod Reach
mod Queries
use community.Base.{ℕ, Bool, true, false, Option, none, some, List, [], ◌∷◌, eqb}
use community.Data.Bytes.{Bytes, bytes, ◌==◌}
use community.Data.Int64.{ℤ, pos}
use community.Wire.Env.{Env}
use community.Wire.State.{State, Options, empty_state, account_key, sentinel}
use community.Wire.Txs.{
  Tx, RegisterAssetData, MintData, BurnData, TransferData, ExecuteContractData, AdverseActionData,
  SettleCustodyRedemptionData, ApplyCustodyDemurrageData,
}
use community.Wire.Types.{
  AssetRecord, AccountRecord, SupplyRecord, ContractRecord, IntakeLotRecord,
  RedemptionRequestRecord, WarehouseOperatorRecord, ConsortiumPolicyRecord,
}

abbrev pub gold : Bytes
gold = bytes "gold"

abbrev pub ann : Bytes
ann = bytes "ann"

abbrev pub bob : Bytes
bob = bytes "bob"

abbrev pub asset_data : RegisterAssetData
asset_data = record { asset_id = gold; name = bytes "Gold"; decimals = 2 }

abbrev pub mint_data : MintData
mint_data = record {
  asset_id = gold;
  account_commitment = ann;
  amount = pos 100;
  timestamp = pos 1;
}

abbrev pub burn_data : BurnData
burn_data = record { asset_id = gold; account_commitment = ann; amount = pos 40; timestamp = pos 1 }

abbrev pub transfer_data : Bytes → TransferData
transfer_data nonce = record {
  asset_id = gold;
  sender_commitment = ann;
  recipient_commitment = bob;
  amount = pos 30;
  nullifier = bytes "n";
  transfer_nonce = nonce;
  sender_proof = [];
  timestamp = pos 1;
}

abbrev pub contract_data : Bytes → ExecuteContractData
contract_data counterparty = record {
  contract_id = bytes "c";
  asset_id = gold;
  party_commitment = ann;
  counterparty_commitment = counterparty;
  execution_type = bytes "fee";
  source_ref = bytes "s";
  amount = pos 25;
  payload = [];
  nullifier = bytes "n";
  transfer_nonce = bytes "t";
  timestamp = pos 1;
}

abbrev pub action_data : Bytes → AdverseActionData
action_data type = record {
  action_id = bytes "61";
  action_nonce = bytes "a";
  account_commitment = ann;
  asset_id = [];
  action_type = type;
  referenced_action_id = [];
  eligibility_auth = bytes "e";
  reconciliation_auth = bytes "r";
  reason = bytes "court order";
  timestamp = pos 1;
}

abbrev pub settle_data : SettleCustodyRedemptionData
settle_data = record {
  settlement_id = bytes "st";
  request_id = bytes "rq";
  operator_id = bytes "op";
  warehouse_id = bytes "w";
  fulfillment_ref = bytes "f";
  burn_amount = pos 20;
  settled_quantity = pos 7;
  settled_at = pos 2;
}

abbrev pub demurrage_data : ApplyCustodyDemurrageData
demurrage_data = record {
  assessment_id = bytes "as";
  asset_id = gold;
  account_commitment = ann;
  policy_id = bytes "po";
  amount = pos 5;
  period_start = pos 1;
  period_end = pos 2;
  reason = bytes "storage";
  applied_at = pos 2;
}

-- the first byte of a raw transaction is its type, and the payload decodes to the data above
abbrev pub env : Env
env = record {
  sha256 = λ x. x;
  keccak256 = λ x. x;
  ed25519_verify = λ key message sig. key == sig;
  recover_compact = λ sig hash. none;
  trim_space = λ x. x;
  to_lower = λ x. x;
  decode_tx = λ raw. elim raw [
    | [] ↦ none
    | type ∷ rest ↦ some (record { type = type; signature = 1 ∷ []; payload = 1 ∷ [] })
  ];
  decode_register_asset = λ raw. some asset_data;
  decode_mint = λ raw. some mint_data;
  decode_burn = λ raw. some (record burn_data { amount = pos 100 });
  decode_transfer = λ raw. some (transfer_data (bytes "t"));
  decode_register_account = λ raw. none;
  decode_validator_registration = λ raw. none;
  decode_register_contract = λ raw. none;
  decode_activate_contract = λ raw. none;
  decode_execute_contract = λ raw. some (contract_data bob);
  decode_register_consortium_policy = λ raw. none;
  decode_register_warehouse_operator = λ raw. none;
  decode_register_accepted_sku_class = λ raw. none;
  decode_record_custody_intake_lot = λ raw. none;
  decode_request_custody_redemption = λ raw. none;
  decode_settle_custody_redemption = λ raw. some settle_data;
  decode_apply_custody_demurrage = λ raw. some demurrage_data;
  decode_adverse_action = λ raw. some (action_data (bytes "freeze"));
}

abbrev pub options : Options
options = record {
  enrollment_authority_pub_key = [];
  eligibility_authority_pub_key = bytes "e";
  reconciliation_authority_pub_key = bytes "r";
}

abbrev pub account : Bytes → Bytes → ℤ → AccountRecord
account asset commitment amount = record {
  account_commitment = commitment;
  asset_id = asset;
  balance = amount;
  disabled = false;
  frozen = false;
  updated_at = pos 0;
  height = pos 0;
}

abbrev pub gold_record : AssetRecord
gold_record = record {
  asset_id = gold;
  name = bytes "Gold";
  decimals = 2;
  total_supply = pos 110;
  created_at = pos 0;
}

abbrev pub gold_supply : SupplyRecord
gold_supply = record {
  asset_id = gold;
  total_minted = pos 110;
  total_burned = pos 0;
  total_supply = pos 110;
  updated_at = pos 0;
}

-- Ann has 100, Bob has 10.
abbrev pub funded : State
funded = record (empty_state options) {
  assets = (gold, gold_record) ∷ [];
  supply = (gold, gold_supply) ∷ [];
  accounts =
      (bytes "gold:ann", account gold ann (pos 100))
      ∷ (bytes "gold:bob", account gold bob (pos 10))
      ∷ (bytes "_:ann", account sentinel ann (pos 0))
      ∷ [];
}

abbrev pub contract : ContractRecord
contract = record {
  contract_id = bytes "c";
  asset_id = gold;
  contract_type = bytes "fee";
  contract_hash = bytes "h";
  parties = [];
  metadata = [];
  condition_hash = [];
  condition_type = [];
  activated_at = pos 0;
  execution_count = pos 0;
  total_executed = pos 0;
  expiry_timestamp = pos 0;
  status = bytes "active";
  created_at = pos 0;
  updated_at = pos 0;
  height = pos 0;
}

abbrev pub contracted : State
contracted = record funded { contracts = (bytes "c", contract) ∷ [] }

abbrev pub lot : Bytes → ℤ → ℤ → IntakeLotRecord
lot id left created = record {
  lot_id = id;
  policy_id = bytes "po";
  asset_id = gold;
  operator_id = bytes "op";
  warehouse_id = bytes "w";
  account_commitment = ann;
  sku_class_id = bytes "sku";
  quantity = pos 9;
  remaining_quantity = left;
  minted_amount = pos 9;
  operator_fee_amount = pos 0;
  shipping_cost_amount = pos 0;
  storage_reserve_amount = pos 0;
  video_session_ref = bytes "v";
  evidence_refs = [];
  status = bytes "recorded";
  created_at = created;
  updated_at = created;
  height = pos 0;
}

abbrev pub request : RedemptionRequestRecord
request = record {
  request_id = bytes "rq";
  asset_id = gold;
  account_commitment = ann;
  warehouse_id = bytes "w";
  sku_class_id = bytes "sku";
  silo_amount = pos 20;
  requested_quantity = pos 8;
  destination_ref = bytes "d";
  status = bytes "pending";
  created_at = pos 0;
  updated_at = pos 0;
  height = pos 0;
}

abbrev pub operator : WarehouseOperatorRecord
operator = record {
  operator_id = bytes "op";
  name = bytes "Op";
  warehouse_id = bytes "w";
  region = [];
  video_stream_ref = [];
  status = bytes "active";
  created_at = pos 0;
  updated_at = pos 0;
  height = pos 0;
}

abbrev pub policy : ConsortiumPolicyRecord
policy = record {
  policy_id = bytes "po";
  asset_id = gold;
  name = bytes "Policy";
  active_operator_ids = bytes "op" ∷ [];
  accepted_sku_class_ids = bytes "sku" ∷ [];
  unit_of_measure = bytes "kg";
  quantity_normalization = bytes "n";
  shipping_adjustment_ref = [];
  demurrage_rate_bps = 0;
  operator_fee_bps = 0;
  redemption_mode = bytes "m";
  redemption_routing = bytes "r";
  evidence_requirements = [];
  status = bytes "active";
  published_at = pos 0;
  updated_at = pos 0;
  height = pos 0;
}

-- Lots of 4 and of 6 are in stock, and 7 are asked for.
abbrev pub stocked : State
stocked = record funded {
  intake_lots =
      (bytes "l2", lot (bytes "l2") (pos 6) (pos 2))
      ∷ (bytes "l1", lot (bytes "l1") (pos 4) (pos 1))
      ∷ [];
  redemption_requests = (bytes "rq", request) ∷ [];
  warehouse_operators = (bytes "op", operator) ∷ [];
  consortium_policies = (bytes "po", policy) ∷ [];
}
