-- ===== src/Wire/Custody/Redemption.antt =====
-- embodiments/shywire/state/custody.go: requests to redeem a token for stock, and their settlement.
use community.Base.{true, not, ◌||◌, none, some, List, [], ◌∷◌, is_some, if◌then◌else◌}
use community.Base.Exec.{◌>>◌, modify, pure}
use community.Base.Result.{Result, ok, err}
use community.Base.Result
use community.Data.Bytes.{bytes, ◌==◌}
use community.Data.GoMap.{lookup, insert}
use community.Data.Int64.{ℤ, ltb_ℤ}
use community.Protocol.Events.{Event, text, event, attribute}
use community.Wire.Custody.Inventory.{
  has_active_warehouse, available_custody_inventory, allocate_custody_inventory,
}
use community.Wire.Env.{Env}
use community.Wire.Errors.{
  Error, panic, invalid_payload, request_exists, unknown_asset, account_missing, unknown_sku_class,
  warehouse_not_active, insufficient_inventory, settlement_exists, unknown_request,
  request_not_pending, unknown_operator, operator_not_active, warehouse_mismatch,
  quantity_exceeds_request, amount_exceeds_request,
}
use community.Wire.State.{State, Handler, account_key, sentinel}
use community.Wire.Supply.{check_funds, burn_from}
use community.Wire.Txs.{Tx, RequestCustodyRedemptionData, SettleCustodyRedemptionData}
use community.Wire.Types.{RedemptionRequestRecord, LotAllocation, WarehouseOperatorRecord}

-- the tests of a request after those of the account
unfoldable pub check_stock : RequestCustodyRedemptionData → State → Result Error (Unit {0})
check_stock d s =
    if not (is_some (lookup d.sku_class_id s.accepted_sku_classes))
    then err unknown_sku_class
    else if not (has_active_warehouse d.warehouse_id s.warehouse_operators)
    then err warehouse_not_active
    else Result.reject
        (ltb_ℤ (available_custody_inventory d.asset_id d.warehouse_id d.sku_class_id s.intake_lots)
          d.requested_quantity)
        insufficient_inventory

unfoldable pub check_request : RequestCustodyRedemptionData → State → Result Error (Unit {0})
unfolding check_funds check_stock
check_request d s =
    if is_some (lookup d.request_id s.redemption_requests)
    then err request_exists
    else if not (is_some (lookup d.asset_id s.assets))
    then err unknown_asset
    else if not (is_some (lookup (account_key sentinel d.account_commitment) s.accounts))
    then err account_missing
    else elim (check_funds (account_key d.asset_id d.account_commitment) d.silo_amount s) [
      | err e ↦ err e
      | ok _ ↦ check_stock d s
    ]

unfoldable pub validate_request_redemption : Env → Tx → State → Result Error (Unit {0})
unfolding check_request
validate_request_redemption env t s = elim (env.decode_request_custody_redemption t.payload) [
  | none ↦ err invalid_payload
  | some d ↦ check_request d s
]

unfoldable pub new_request : ℤ → ℤ → RequestCustodyRedemptionData → RedemptionRequestRecord
new_request now height d = record {
  request_id = d.request_id;
  asset_id = d.asset_id;
  account_commitment = d.account_commitment;
  warehouse_id = d.warehouse_id;
  sku_class_id = d.sku_class_id;
  silo_amount = d.silo_amount;
  requested_quantity = d.requested_quantity;
  destination_ref = d.destination_ref;
  status = bytes "pending";
  created_at = now;
  updated_at = now;
  height = height;
}

unfoldable pub request_as : ℤ → RequestCustodyRedemptionData → Handler
unfolding new_request
request_as now d s = (
  ok (
      event (bytes "request_custody_redemption") (
        attribute (bytes "request_id") (text d.request_id) true
        ∷ attribute (bytes "warehouse_id") (text d.warehouse_id) true
        ∷ attribute (bytes "sku_class_id") (text d.sku_class_id) true
        ∷ [])
      ∷ []),
  record s {
    redemption_requests = insert d.request_id (new_request now s.height d) s.redemption_requests;
    dirty = true;
  },
)

unfoldable pub execute_request_redemption : Env → ℤ → Tx → Handler
unfolding request_as
execute_request_redemption env now t s = elim (env.decode_request_custody_redemption t.payload) [
  | none ↦ (err invalid_payload, s)
  | some d ↦ request_as now d s
]

-- the tests of a settlement that compare it with its request
unfoldable pub check_against_request :
    SettleCustodyRedemptionData
    → RedemptionRequestRecord
    → WarehouseOperatorRecord
    → State
    → Result Error (Unit {0})
unfolding check_funds
check_against_request d r o s =
    if not (o.warehouse_id == d.warehouse_id) || not (r.warehouse_id == d.warehouse_id)
    then err warehouse_mismatch
    else if ltb_ℤ r.requested_quantity d.settled_quantity
    then err quantity_exceeds_request
    else if ltb_ℤ r.silo_amount d.burn_amount
    then err amount_exceeds_request
    else if ltb_ℤ
        (available_custody_inventory r.asset_id d.warehouse_id r.sku_class_id s.intake_lots)
        d.settled_quantity
    then err insufficient_inventory
    else check_funds (account_key r.asset_id r.account_commitment) d.burn_amount s

unfoldable pub check_settle : SettleCustodyRedemptionData → State → Result Error (Unit {0})
unfolding check_against_request
check_settle d s =
    if is_some (lookup d.settlement_id s.redemption_settlements)
    then err settlement_exists
    else elim (lookup d.request_id s.redemption_requests) [
      | none ↦ err unknown_request
      | some r ↦
          if not (r.status == bytes "pending")
          then err request_not_pending
          else elim (lookup d.operator_id s.warehouse_operators) [
            | none ↦ err unknown_operator
            | some o ↦
                if not (o.status == bytes "active")
                then err operator_not_active
                else check_against_request d r o s
          ]
    ]

unfoldable pub validate_settle_redemption : Env → Tx → State → Result Error (Unit {0})
unfolding check_settle
validate_settle_redemption env t s = elim (env.decode_settle_custody_redemption t.payload) [
  | none ↦ err invalid_payload
  | some d ↦ check_settle d s
]

-- `request.Status = "settled"` and the record of the settlement
unfoldable pub record_settlement :
    ℤ → SettleCustodyRedemptionData → RedemptionRequestRecord → List LotAllocation → State → State
record_settlement now d r lots s = record s {
  redemption_requests =
      insert d.request_id
        (record r { status = bytes "settled"; updated_at = now; height = s.height })
        s.redemption_requests;
  redemption_settlements =
      insert d.settlement_id
        (record {
          settlement_id = d.settlement_id;
          request_id = d.request_id;
          operator_id = d.operator_id;
          warehouse_id = d.warehouse_id;
          allocated_lots = lots;
          fulfillment_ref = d.fulfillment_ref;
          burn_amount = d.burn_amount;
          settled_quantity = d.settled_quantity;
          settled_at = d.settled_at;
          height = s.height;
        })
        s.redemption_settlements;
  dirty = true;
}

abbrev pub settlement_events : SettleCustodyRedemptionData → List Event
settlement_events d =
    event (bytes "settle_custody_redemption") (
      attribute (bytes "settlement_id") (text d.settlement_id) true
      ∷ attribute (bytes "request_id") (text d.request_id) true
      ∷ attribute (bytes "warehouse_id") (text d.warehouse_id) true
      ∷ [])
    ∷ []

unfoldable pub settle_request : ℤ → SettleCustodyRedemptionData → RedemptionRequestRecord → Handler
unfolding burn_from record_settlement
settle_request now d r s =
    let (lots, stock) =
      allocate_custody_inventory now s.height r.asset_id d.warehouse_id r.sku_class_id
        d.settled_quantity s.intake_lots in
    (do
      modify (λ s'. record s' { intake_lots = stock })
      burn_from now r.asset_id r.account_commitment d.burn_amount
      modify (record_settlement now d r lots)
      pure (settlement_events d))
      s

unfoldable pub settle_as : ℤ → SettleCustodyRedemptionData → Handler
unfolding settle_request
settle_as now d s = elim (lookup d.request_id s.redemption_requests) [
  | none ↦ (err panic, s)
  | some r ↦ settle_request now d r s
]

unfoldable pub execute_settle_redemption : Env → ℤ → Tx → Handler
unfolding settle_as
execute_settle_redemption env now t s = elim (env.decode_settle_custody_redemption t.payload) [
  | none ↦ (err invalid_payload, s)
  | some d ↦ settle_as now d s
]
