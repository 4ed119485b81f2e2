-- ===== src/Wire/Ledger/Redemption.antt =====
-- embodiments/shywire/state/custody.go: the burn of a demurrage, and the tests of a settlement.
use community.Base.{◌≡◌, refl, ◌≢◌, true, Option, none, some, is_some, arith, List}
use community.Base.Exec.{>>-ok, ◌>>◌, modify, pure}
use community.Base.Result.{ok, is_ok}
use community.Data.Bytes.{bytes, ◌==◌}
use community.Data.GoMap.{GoMap, lookup}
use community.Data.Int64.{ℤ, pos, pos_part, ◌<ℤ◌, ◌≤ℤ◌}
use community.Wire.Custody.Demurrage.{
  check_demurrage, demurrage_as, record_assessment, demurrage_events,
}
use community.Wire.Custody.Inventory.{allocate_custody_inventory, available_custody_inventory}
use community.Wire.Custody.Redemption.{
  check_settle, check_against_request, settle_request, record_settlement, settlement_events,
}
use community.Wire.Ledger.{IsBacked}
use community.Wire.Ledger.Kept.{is_there}
use community.Wire.Ledger.Operations.{burn_from-Burned, Burned-after}
use community.Wire.Ledger.Supply.{Burned}
use community.Wire.State.{State, account_key}
use community.Wire.Supply.{check_funds, burn_from}
use community.Wire.Txs.{ApplyCustodyDemurrageData, SettleCustodyRedemptionData}
use community.Wire.Types.{
  RedemptionRequestRecord, LotAllocation, IntakeLotRecord, WarehouseOperatorRecord,
}

demurrage_as-run :
    (now : ℤ) (d : ApplyCustodyDemurrageData) (s s' : State)
    → burn_from now d.asset_id d.account_commitment d.amount s ≡ (ok tt, s')
    → demurrage_as now d s ≡ (ok (demurrage_events d), record_assessment d s')
unfolding demurrage_as
demurrage_as-run now d s s' run =
    >>-ok (burn_from now d.asset_id d.account_commitment d.amount)
      (modify (record_assessment d) >> pure (demurrage_events d)) s s' tt run refl

check_demurrage-funds :
    (d : ApplyCustodyDemurrageData) (s : State)
    → check_demurrage d s ≡ ok tt
    → check_funds (account_key d.asset_id d.account_commitment) d.amount s ≡ ok tt
unfolding check_demurrage
check_demurrage-funds d s h = ground arith

pub some_of : {V : Type 0} (o : Option V) → is_some o ≡ true → (v : V) × (o ≡ some v)
some_of none h = absurd (ground arith)
some_of (some v) h = (v, refl)

-- A demurrage of a positive amount that its tests accept, on a registered asset, in a backed state:
-- it succeeds, and burns its amount.
pub demurrage_as-Burned :
    (now : ℤ) (d : ApplyCustodyDemurrageData) (s : State)
    → IsBacked s
    → is_some (lookup d.asset_id s.assets) ≡ true
    → check_demurrage d s ≡ ok tt
    → pos 0 <ℤ d.amount
    → (is_ok (demurrage_as now d s).0 ≡ true)
      × Burned d.asset_id (pos_part d.amount) s (demurrage_as now d s).1
demurrage_as-Burned now d s backed registered tests positive =
    let (r, recorded) = some_of (lookup d.asset_id s.assets) registered in
    let (s', run, burned, _) =
      burn_from-Burned now d.asset_id d.account_commitment d.amount r s backed recorded
        (check_demurrage-funds d s tests) positive in
    rw (demurrage_as-run now d s s' run) (
      refl,
      unfold record_assessment in
          Burned-after d.asset_id (pos_part d.amount) s s' (record_assessment d s')
            (refl, refl, refl) burned,
    )

-- the lots that are allocated, and the stock that is left
abbrev pub allocated :
    ℤ
    → SettleCustodyRedemptionData
    → RedemptionRequestRecord
    → State
    → List LotAllocation × GoMap IntakeLotRecord
allocated now d r s =
    allocate_custody_inventory now s.height r.asset_id d.warehouse_id r.sku_class_id
      d.settled_quantity s.intake_lots

pub settle_request-run :
    (now : ℤ) (d : SettleCustodyRedemptionData) (r : RedemptionRequestRecord) (s s' : State)
    → burn_from now r.asset_id r.account_commitment d.burn_amount
        (record s { intake_lots = (allocated now d r s).1 })
      ≡ (ok tt, s')
    → settle_request now d r s
      ≡ (ok (settlement_events d), record_settlement now d r (allocated now d r s).0 s')
unfolding settle_request
settle_request-run now d r s s' run =
    >>-ok (burn_from now r.asset_id r.account_commitment d.burn_amount)
      (modify (record_settlement now d r (allocated now d r s).0) >> pure (settlement_events d))
      (record s { intake_lots = (allocated now d r s).1 }) s' tt run refl

-- What the tests of a settlement have shown.
pub record Settleable (d : SettleCustodyRedemptionData) (s : State) : Type 0 where
  pub request : RedemptionRequestRecord
  pub found : lookup d.request_id s.redemption_requests ≡ some request
  pub pending : (request.status == bytes "pending") ≡ true
  pub within : d.settled_quantity ≤ℤ request.requested_quantity
  pub affordable : d.burn_amount ≤ℤ request.silo_amount
  pub in_stock :
      d.settled_quantity
      ≤ℤ available_custody_inventory request.asset_id d.warehouse_id request.sku_class_id
          s.intake_lots
  pub funds :
      check_funds (account_key request.asset_id request.account_commitment) d.burn_amount s ≡ ok tt

check_settle-there :
    (d : SettleCustodyRedemptionData) (s : State)
    → check_settle d s ≡ ok tt
    → lookup d.request_id s.redemption_requests ≢ none
unfolding check_settle
check_settle-there d s h e = absurd (ground arith)

check_settle-operator :
    (d : SettleCustodyRedemptionData) (s : State)
    → check_settle d s ≡ ok tt
    → lookup d.operator_id s.warehouse_operators ≢ none
unfolding check_settle
check_settle-operator d s h e = absurd (ground arith)

check_against_request-Settleable :
    (d : SettleCustodyRedemptionData) (r : RedemptionRequestRecord) (o : WarehouseOperatorRecord)
    (s : State)
    → lookup d.request_id s.redemption_requests ≡ some r
    → (r.status == bytes "pending") ≡ true
    → check_against_request d r o s ≡ ok tt
    → Settleable d s
unfolding check_against_request
check_against_request-Settleable d r o s found pending h = record {
  request = r;
  found = found;
  pending = pending;
  within = ground arith;
  affordable = ground arith;
  in_stock = ground arith;
  funds = ground arith;
}

pub check_settle-Settleable :
    (d : SettleCustodyRedemptionData) (s : State) → check_settle d s ≡ ok tt → Settleable d s
unfolding check_settle
check_settle-Settleable d s h =
    let (r, found) =
      is_there (lookup d.request_id s.redemption_requests) (check_settle-there d s h) in
    let (o, o_found) =
      is_there (lookup d.operator_id s.warehouse_operators) (check_settle-operator d s h) in
    check_against_request-Settleable d r o s found (ground arith) (ground arith)
