-- ===== src/Wire/Custody.antt =====
-- embodiments/shywire/state/custody.go: operators, sku classes and policies of a consortium.
pub mod Inventory
pub mod Stock
pub mod Allocated
pub mod Lots
pub mod Redemption
pub mod Demurrage
use community.Base.{
  Bool, true, false, not, ◌&&◌, ◌||◌, Option, none, some, List, [], ◌∷◌, is_some, is_empty,
  if◌then◌else◌,
}
use community.Base.Result.{Result, ok, err, ◌>>=◌, ◌>>◌, check, reject, or_err}
use community.Data.Bytes.{Bytes, bytes, ◌==◌}
use community.Data.GoMap.{GoMap, lookup, insert}
use community.Data.Int64.{ℤ}
use community.Protocol.Events.{text, event, attribute}
use community.Wire.Env.{Env}
use community.Wire.Errors.{
  Error, invalid_payload, operator_exists, sku_class_exists, policy_exists, unknown_asset,
  unknown_operator, operator_not_active, unknown_sku_class, sku_class_not_active,
}
use community.Wire.State.{State, Handler}
use community.Wire.Txs.{
  Tx, RegisterWarehouseOperatorData, RegisterAcceptedSkuClassData, RegisterConsortiumPolicyData,
}
use community.Wire.Types.{WarehouseOperatorRecord, AcceptedSkuClassRecord, ConsortiumPolicyRecord}

abbrev pub active : Bytes
active = bytes "active"

unfoldable pub validate_register_operator : Env → Tx → State → Result Error (Unit {0})
validate_register_operator env t s = elim (env.decode_register_warehouse_operator t.payload) [
  | none ↦ err invalid_payload
  | some d ↦ reject (is_some (lookup d.operator_id s.warehouse_operators)) operator_exists
]

abbrev new_operator : ℤ → ℤ → RegisterWarehouseOperatorData → WarehouseOperatorRecord
new_operator now height d = record {
  operator_id = d.operator_id;
  name = d.name;
  warehouse_id = d.warehouse_id;
  region = d.region;
  video_stream_ref = d.video_stream_ref;
  status = d.status;
  created_at = now;
  updated_at = now;
  height = height;
}

unfoldable pub execute_register_operator : Env → ℤ → Tx → Handler
execute_register_operator env now t s = elim (env.decode_register_warehouse_operator t.payload) [
  | none ↦ (err invalid_payload, s)
  | some d ↦ (
    ok (
        event (bytes "register_custody_operator") (
          attribute (bytes "operator_id") (text d.operator_id) true
          ∷ attribute (bytes "warehouse_id") (text d.warehouse_id) true
          ∷ [])
        ∷ []),
    record s {
      warehouse_operators =
          insert d.operator_id (new_operator now s.height d) s.warehouse_operators;
      dirty = true;
    },
  )
]

unfoldable pub validate_register_sku_class : Env → Tx → State → Result Error (Unit {0})
validate_register_sku_class env t s = elim (env.decode_register_accepted_sku_class t.payload) [
  | none ↦ err invalid_payload
  | some d ↦ reject (is_some (lookup d.sku_class_id s.accepted_sku_classes)) sku_class_exists
]

abbrev new_sku_class : ℤ → ℤ → RegisterAcceptedSkuClassData → AcceptedSkuClassRecord
new_sku_class now height d = record {
  sku_class_id = d.sku_class_id;
  name = d.name;
  grade_band = d.grade_band;
  unit_of_measure = d.unit_of_measure;
  normalized_factor_bps = d.normalized_factor_bps;
  storage_class = d.storage_class;
  status = d.status;
  created_at = now;
  updated_at = now;
  height = height;
}

unfoldable pub execute_register_sku_class : Env → ℤ → Tx → Handler
execute_register_sku_class env now t s = elim (env.decode_register_accepted_sku_class t.payload) [
  | none ↦ (err invalid_payload, s)
  | some d ↦ (
    ok (
        event (bytes "register_custody_sku_class") (
          attribute (bytes "sku_class_id") (text d.sku_class_id) true
          ∷ attribute (bytes "grade_band") (text d.grade_band) true
          ∷ [])
        ∷ []),
    record s {
      accepted_sku_classes =
          insert d.sku_class_id (new_sku_class now s.height d) s.accepted_sku_classes;
      dirty = true;
    },
  )
]

-- the loop over the operators of a policy
unfoldable pub check_operators :
    List Bytes → GoMap WarehouseOperatorRecord → Result Error (Unit {0})
check_operators [] m = ok tt
check_operators (id ∷ ids) m =
    let rest = check_operators ids m in
    do
      o ← or_err (lookup id m) unknown_operator
      check (o.status == active) operator_not_active
      rest

-- the loop over its sku classes
unfoldable pub check_sku_classes :
    List Bytes → GoMap AcceptedSkuClassRecord → Result Error (Unit {0})
check_sku_classes [] m = ok tt
check_sku_classes (id ∷ ids) m =
    let rest = check_sku_classes ids m in
    do
      c ← or_err (lookup id m) unknown_sku_class
      check (c.status == active) sku_class_not_active
      rest

unfoldable pub check_register_policy :
    RegisterConsortiumPolicyData → State → Result Error (Unit {0})
unfolding check_operators check_sku_classes
check_register_policy d s = do
  reject (is_some (lookup d.policy_id s.consortium_policies)) policy_exists
  check (is_some (lookup d.asset_id s.assets)) unknown_asset
  check_operators d.active_operator_ids s.warehouse_operators
  check_sku_classes d.accepted_sku_class_ids s.accepted_sku_classes

unfoldable pub validate_register_policy : Env → Tx → State → Result Error (Unit {0})
unfolding check_register_policy
validate_register_policy env t s = elim (env.decode_register_consortium_policy t.payload) [
  | none ↦ err invalid_payload
  | some d ↦ check_register_policy d s
]

unfoldable pub new_policy : ℤ → ℤ → RegisterConsortiumPolicyData → ConsortiumPolicyRecord
new_policy now height d = record {
  policy_id = d.policy_id;
  asset_id = d.asset_id;
  name = d.name;
  active_operator_ids = d.active_operator_ids;
  accepted_sku_class_ids = d.accepted_sku_class_ids;
  unit_of_measure = d.unit_of_measure;
  quantity_normalization = d.quantity_normalization;
  shipping_adjustment_ref = d.shipping_adjustment_ref;
  demurrage_rate_bps = d.demurrage_rate_bps;
  operator_fee_bps = d.operator_fee_bps;
  redemption_mode = d.redemption_mode;
  redemption_routing = d.redemption_routing;
  evidence_requirements = d.evidence_requirements;
  status = active;
  published_at = now;
  updated_at = now;
  height = height;
}

-- the current policy, if there is one, is superseded
unfoldable pub supersede_current :
    ℤ → ℤ → Bytes → GoMap ConsortiumPolicyRecord → GoMap ConsortiumPolicyRecord
supersede_current now height current m = if is_empty current then m else elim (lookup current m) [
  | none ↦ m
  | some p ↦
      insert current (record p { status = bytes "superseded"; updated_at = now; height = height }) m
]

unfoldable pub register_policy_as : ℤ → RegisterConsortiumPolicyData → Handler
unfolding new_policy supersede_current
register_policy_as now d s = (
  ok (
      event (bytes "register_custody_policy") (
        attribute (bytes "policy_id") (text d.policy_id) true
        ∷ attribute (bytes "asset_id") (text d.asset_id) true
        ∷ [])
      ∷ []),
  record s {
    consortium_policies =
        insert d.policy_id (new_policy now s.height d)
          (supersede_current now s.height s.current_custody_policy_id s.consortium_policies);
    current_custody_policy_id = d.policy_id;
    dirty = true;
  },
)

unfoldable pub execute_register_policy : Env → ℤ → Tx → Handler
unfolding register_policy_as
execute_register_policy env now t s = elim (env.decode_register_consortium_policy t.payload) [
  | none ↦ (err invalid_payload, s)
  | some d ↦ register_policy_as now d s
]
