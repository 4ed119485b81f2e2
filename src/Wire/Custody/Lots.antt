-- ===== src/Wire/Custody/Lots.antt =====
-- embodiments/shywire/state/custody.go: recording the intake of a lot.
use community.Base.{true, none, some, [], ◌∷◌, is_some}
use community.Base.Result.{Result, ok, err, ◌>>=◌, ◌>>◌, check, reject, or_err}
use community.Data.Bytes.{bytes, ◌==◌}
use community.Data.GoMap.{lookup, insert}
use community.Data.Int64.{ℤ}
use community.Protocol.Events.{text, event, attribute}
use community.Wire.Custody.Inventory.{contains_string}
use community.Wire.Env.{Env}
use community.Wire.Errors.{
  Error, invalid_payload, lot_exists, unknown_policy, policy_not_active, asset_mismatch,
  unknown_asset, unknown_operator, operator_not_active, warehouse_mismatch, operator_not_allowed,
  unknown_sku_class, sku_class_not_allowed, account_missing,
}
use community.Wire.State.{State, Handler, account_key, sentinel}
use community.Wire.Txs.{Tx, RecordCustodyIntakeLotData}
use community.Wire.Types.{IntakeLotRecord}

unfoldable pub check_record_lot : RecordCustodyIntakeLotData → State → Result Error (Unit {0})
check_record_lot d s = do
  reject (is_some (lookup d.lot_id s.intake_lots)) lot_exists
  policy ← or_err (lookup d.policy_id s.consortium_policies) unknown_policy
  check (policy.status == bytes "active") policy_not_active
  check (policy.asset_id == d.asset_id) asset_mismatch
  check (is_some (lookup d.asset_id s.assets)) unknown_asset
  operator ← or_err (lookup d.operator_id s.warehouse_operators) unknown_operator
  check (operator.status == bytes "active") operator_not_active
  check (operator.warehouse_id == d.warehouse_id) warehouse_mismatch
  check (contains_string policy.active_operator_ids d.operator_id) operator_not_allowed
  check (is_some (lookup d.sku_class_id s.accepted_sku_classes)) unknown_sku_class
  check (contains_string policy.accepted_sku_class_ids d.sku_class_id) sku_class_not_allowed
  check (is_some (lookup (account_key sentinel d.account_commitment) s.accounts)) account_missing

unfoldable pub validate_record_lot : Env → Tx → State → Result Error (Unit {0})
unfolding check_record_lot
validate_record_lot env t s = elim (env.decode_record_custody_intake_lot t.payload) [
  | none ↦ err invalid_payload
  | some d ↦ check_record_lot d s
]

unfoldable pub new_lot : ℤ → ℤ → RecordCustodyIntakeLotData → IntakeLotRecord
new_lot now height d = record {
  lot_id = d.lot_id;
  policy_id = d.policy_id;
  asset_id = d.asset_id;
  operator_id = d.operator_id;
  warehouse_id = d.warehouse_id;
  account_commitment = d.account_commitment;
  sku_class_id = d.sku_class_id;
  quantity = d.quantity;
  remaining_quantity = d.quantity;
  minted_amount = d.minted_amount;
  operator_fee_amount = d.operator_fee_amount;
  shipping_cost_amount = d.shipping_cost_amount;
  storage_reserve_amount = d.storage_reserve_amount;
  video_session_ref = d.video_session_ref;
  evidence_refs = d.evidence_refs;
  status = bytes "recorded";
  created_at = now;
  updated_at = now;
  height = height;
}

unfoldable pub record_lot_as : ℤ → RecordCustodyIntakeLotData → Handler
unfolding new_lot
record_lot_as now d s = (
  ok (
      event (bytes "record_custody_intake_lot") (
        attribute (bytes "lot_id") (text d.lot_id) true
        ∷ attribute (bytes "policy_id") (text d.policy_id) true
        ∷ attribute (bytes "warehouse_id") (text d.warehouse_id) true
        ∷ [])
      ∷ []),
  record s { intake_lots = insert d.lot_id (new_lot now s.height d) s.intake_lots; dirty = true },
)

unfoldable pub execute_record_lot : Env → ℤ → Tx → Handler
unfolding record_lot_as
execute_record_lot env now t s = elim (env.decode_record_custody_intake_lot t.payload) [
  | none ↦ (err invalid_payload, s)
  | some d ↦ record_lot_as now d s
]
