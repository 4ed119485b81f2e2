-- ===== src/Wire/Ledger/Settlement.antt =====
-- embodiments/shywire/state/custody.go: the settlement of a redemption in a backed state.
use community.Base.{
  ◌+◌, ◌<◌, ◌^◌, ◌≡◌, refl, ◌≢◌, sym, ap, ◌∙◌, subst, true, false, some, is_some, arith,
}
use community.Base.Result.{ok, is_ok}
use community.Data.Bytes.{bytes, ◌==◌}
use community.Data.GoMap.{lookup, Unique}
use community.Data.GoMap.Laws.{lookup-insert_self}
use community.Data.Int64.{ℤ, pos, pos_part, ◌<ℤ◌, ◌≤ℤ◌}
use community.Wire.Custody.Allocated.{Allocated, allocate_custody_inventory-Allocated}
use community.Wire.Custody.Inventory.{allocate_custody_inventory, available_custody_inventory}
use community.Wire.Custody.Redemption.{
  check_settle, settle_as, settle_request, record_settlement, settlement_events,
}
use community.Wire.Custody.Stock.{stock}
use community.Wire.Ledger.{IsBacked}
use community.Wire.Ledger.Kept.{of_positive}
use community.Wire.Ledger.Operations.{burn_from-Burned, Burned-after, SameLedger-IsBacked}
use community.Wire.Ledger.Redemption.{
  check_settle-Settleable, settle_request-run, allocated, some_of,
}
use community.Wire.Ledger.Supply.{Burned}
use community.Wire.State.{State, account_key}
use community.Wire.Supply.{check_funds}
use community.Wire.Txs.{SettleCustodyRedemptionData}
use community.Wire.Types.{RedemptionRequestRecord}

settle_as-found :
    (now : ℤ) (d : SettleCustodyRedemptionData) (r : RedemptionRequestRecord) (s : State)
    → lookup d.request_id s.redemption_requests ≡ some r
    → settle_as now d s ≡ settle_request now d r s
unfolding settle_as
settle_as-found now d r s found = rw (found, settle_as) refl

-- the tests of a settlement, about the request that it names
request_tests :
    (d : SettleCustodyRedemptionData) (r : RedemptionRequestRecord) (s : State)
    → lookup d.request_id s.redemption_requests ≡ some r
    → check_settle d s ≡ ok tt
    → (d.settled_quantity
        ≤ℤ available_custody_inventory r.asset_id d.warehouse_id r.sku_class_id s.intake_lots)
      × (check_funds (account_key r.asset_id r.account_commitment) d.burn_amount s ≡ ok tt)
request_tests d r s found tests =
    let settleable = check_settle-Settleable d s tests in
    let same : settleable.request ≡ r = ground (arith, found, settleable.found) in
    subst
      (λ q.
        (d.settled_quantity
          ≤ℤ available_custody_inventory q.asset_id d.warehouse_id q.sku_class_id s.intake_lots)
        × (check_funds (account_key q.asset_id q.account_commitment) d.burn_amount s ≡ ok tt))
      same (settleable.in_stock, settleable.funds)

check_settle-closed :
    (d : SettleCustodyRedemptionData) (r : RedemptionRequestRecord) (s : State)
    → lookup d.request_id s.redemption_requests ≡ some r
    → (r.status == bytes "pending") ≡ false
    → check_settle d s ≢ ok tt
unfolding check_settle
check_settle-closed d r s found closed h = absurd (ground arith)

-- What a settlement of a request does.
pub record Settled (d : SettleCustodyRedemptionData) (r : RedemptionRequestRecord) (s s' : State)
    : Type 0 where
  pub burned : Burned r.asset_id (pos_part d.burn_amount) s s'
  pub given_out : stock s'.intake_lots + pos_part d.settled_quantity ≡ stock s.intake_lots
  pub closed :
      (d' : SettleCustodyRedemptionData) → d'.request_id ≡ d.request_id → check_settle d' s' ≢ ok tt

record_settlement-Settled :
    (now : ℤ) (d : SettleCustodyRedemptionData) (r : RedemptionRequestRecord) (s s' : State)
    → Burned r.asset_id (pos_part d.burn_amount) s s'
    → s'.intake_lots ≡ (allocated now d r s).1
    → Allocated (pos_part d.settled_quantity) s.intake_lots (allocated now d r s)
    → Settled d r s (record_settlement now d r (allocated now d r s).0 s')
unfolding record_settlement ◌==◌
record_settlement-Settled now d r s s' burned lots given_out =
    let s'' = record_settlement now d r (allocated now d r s).0 s' in
    let closed = record r { status = bytes "settled"; updated_at = now; height = s'.height } in
    record {
      burned = Burned-after r.asset_id (pos_part d.burn_amount) s s' s'' (refl, refl, refl) burned;
      given_out = ap (λ m. stock m + pos_part d.settled_quantity) lots ∙ given_out.taken;
      closed = λ d' same.
          check_settle-closed d' closed s''
            (ap (λ k. lookup k s''.redemption_requests) same
              ∙ lookup-insert_self d.request_id closed s'.redemption_requests)
            refl;
    }

-- A settlement that its tests accept, of a positive amount of a registered asset, in a backed state:
-- it runs to its end, and what it burns it burns from the state whose lots are written.
settle_as-run :
    (now : ℤ) (d : SettleCustodyRedemptionData) (r : RedemptionRequestRecord) (s : State)
    → IsBacked s
    → lookup d.request_id s.redemption_requests ≡ some r
    → is_some (lookup r.asset_id s.assets) ≡ true
    → check_settle d s ≡ ok tt
    → pos 0 <ℤ d.burn_amount
    → (s' : State) × (settle_as now d s
        ≡ (ok (settlement_events d), record_settlement now d r (allocated now d r s).0 s'))
      × Burned r.asset_id (pos_part d.burn_amount) s s'
      × (s'.intake_lots ≡ (allocated now d r s).1)
unfolding check_funds
settle_as-run now d r s backed found registered tests positive =
    let (a, recorded) = some_of (lookup r.asset_id s.assets) registered in
    let s0 = record s { intake_lots = (allocated now d r s).1 } in
    let (s', run, burned, kept) =
      burn_from-Burned now r.asset_id r.account_commitment d.burn_amount a s0
        (SameLedger-IsBacked s s0 (refl, refl, refl) backed) recorded
        (request_tests d r s found tests).1 positive in
    (
      s',
      settle_as-found now d r s found ∙ settle_request-run now d r s s' run,
      record { backed = burned.backed; less = burned.less; others = burned.others },
      kept,
    )

pub settle_as-IsBacked :
    (now : ℤ) (d : SettleCustodyRedemptionData) (r : RedemptionRequestRecord) (s : State)
    → IsBacked s
    → lookup d.request_id s.redemption_requests ≡ some r
    → is_some (lookup r.asset_id s.assets) ≡ true
    → check_settle d s ≡ ok tt
    → pos 0 <ℤ d.burn_amount
    → (is_ok (settle_as now d s).0 ≡ true) × IsBacked (settle_as now d s).1
unfolding record_settlement
settle_as-IsBacked now d r s backed found registered tests positive =
    let (s', run, burned, _) = settle_as-run now d r s backed found registered tests positive in
    let s'' = record_settlement now d r (allocated now d r s).0 s' in
    rw run (refl, SameLedger-IsBacked s' s'' (refl, refl, refl) burned.backed)

pub check_settle-found :
    (d : SettleCustodyRedemptionData) (s : State)
    → check_settle d s ≡ ok tt
    → (r : RedemptionRequestRecord) × (lookup d.request_id s.redemption_requests ≡ some r)
check_settle-found d s tests =
    let settleable = check_settle-Settleable d s tests in (settleable.request, settleable.found)

-- A settlement that its tests accept, of positive amounts, in a backed state with distinct lots whose
-- quantities add up to less than 2^63, on a registered asset: it succeeds, burns its amount of the
-- asset of the request, takes its quantity out of the stock, and no settlement of the request is
-- accepted afterwards.
pub settle_as-Settled :
    (now : ℤ) (d : SettleCustodyRedemptionData) (r : RedemptionRequestRecord) (s : State)
    → IsBacked s
    → Unique s.intake_lots
    → stock s.intake_lots < 2 ^ 63
    → lookup d.request_id s.redemption_requests ≡ some r
    → is_some (lookup r.asset_id s.assets) ≡ true
    → check_settle d s ≡ ok tt
    → pos 0 <ℤ d.burn_amount
    → pos 0 <ℤ d.settled_quantity
    → (is_ok (settle_as now d s).0 ≡ true) × Settled d r s (settle_as now d s).1
settle_as-Settled now d r s backed unique room found registered tests positive some_quantity =
    let (q, quantity) = of_positive d.settled_quantity some_quantity in
    let given_out : Allocated (pos_part d.settled_quantity) s.intake_lots (allocated now d r s) =
      subst
        (λ z.
          z ≤ℤ available_custody_inventory r.asset_id d.warehouse_id r.sku_class_id s.intake_lots
          → Allocated (pos_part z) s.intake_lots (
              allocate_custody_inventory now s.height r.asset_id d.warehouse_id r.sku_class_id z
                s.intake_lots))
        (sym quantity)
        (allocate_custody_inventory-Allocated now s.height r.asset_id d.warehouse_id r.sku_class_id
          q s.intake_lots unique room)
        (request_tests d r s found tests).0 in
    let (s', run, burned, kept) = settle_as-run now d r s backed found registered tests positive in
    rw run (refl, record_settlement-Settled now d r s s' burned kept given_out)
