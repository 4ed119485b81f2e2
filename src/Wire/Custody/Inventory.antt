-- ===== src/Wire/Custody/Inventory.antt =====
-- embodiments/shywire/state/custody.go: the pooled inventory of a warehouse and its allocation.
use community.Base.{Bool, false, not, ◌&&◌, ◌||◌, List, [], ◌∷◌, if◌then◌else◌}
use community.Data.Bytes.{Bytes, bytes, ◌==◌}
use community.Data.Bytes.Order.{leb_bytes}
use community.Data.GoMap.{GoMap, insert}
use community.Data.Int64.{ℤ, pos, ◌+ℤ◌, ◌-ℤ◌, leb_ℤ, ltb_ℤ, eqb_ℤ}
use community.Wire.Types.{IntakeLotRecord, LotAllocation, WarehouseOperatorRecord}

unfoldable pub contains_string : List Bytes → Bytes → Bool
contains_string [] target = false
contains_string (v ∷ vs) target = v == target || contains_string vs target

unfoldable pub has_active_warehouse : Bytes → GoMap WarehouseOperatorRecord → Bool
has_active_warehouse id [] = false
has_active_warehouse id ((k, o) ∷ m) =
    (o.warehouse_id == id && o.status == bytes "active") || has_active_warehouse id m

-- the tests of the loop in `inventoryLots`
unfoldable pub is_in_stock : Bytes → Bytes → Bytes → IntakeLotRecord → Bool
is_in_stock asset_id warehouse_id sku_class_id lot =
    lot.asset_id == asset_id
    && lot.warehouse_id == warehouse_id
    && lot.sku_class_id == sku_class_id
    && not (leb_ℤ lot.remaining_quantity (pos 0) || lot.status == bytes "exhausted")

-- older lots first, and lots of one second by their ids
unfoldable pub is_before : IntakeLotRecord → IntakeLotRecord → Bool
is_before a b =
    if eqb_ℤ a.created_at b.created_at
    then leb_bytes a.lot_id b.lot_id
    else ltb_ℤ a.created_at b.created_at

-- `sort.Slice`, over the entries of the map: the key of an entry is where its lot is written back
unfoldable pub insert_lot : Bytes × IntakeLotRecord → GoMap IntakeLotRecord → GoMap IntakeLotRecord
unfolding is_before
insert_lot e [] = e ∷ []
insert_lot e (f ∷ m) =
    let rest = insert_lot e m in if is_before e.1 f.1 then e ∷ f ∷ m else f ∷ rest

unfoldable pub inventory_lots :
    Bytes → Bytes → Bytes → GoMap IntakeLotRecord → GoMap IntakeLotRecord
unfolding is_in_stock insert_lot
inventory_lots asset_id warehouse_id sku_class_id [] = []
inventory_lots asset_id warehouse_id sku_class_id (e ∷ m) =
    let rest = inventory_lots asset_id warehouse_id sku_class_id m in
    if is_in_stock asset_id warehouse_id sku_class_id e.1 then insert_lot e rest else rest

unfoldable pub sum_remaining : GoMap IntakeLotRecord → ℤ → ℤ
sum_remaining [] total = total
sum_remaining ((k, lot) ∷ m) total = sum_remaining m (total +ℤ lot.remaining_quantity)

unfoldable pub available_custody_inventory : Bytes → Bytes → Bytes → GoMap IntakeLotRecord → ℤ
unfolding inventory_lots sum_remaining
available_custody_inventory asset_id warehouse_id sku_class_id m =
    sum_remaining (inventory_lots asset_id warehouse_id sku_class_id m) (pos 0)

unfoldable pub refresh_lot_status : IntakeLotRecord → IntakeLotRecord
refresh_lot_status lot = record lot {
  status =
      if leb_ℤ lot.remaining_quantity (pos 0)
      then bytes "exhausted"
      else if ltb_ℤ lot.remaining_quantity lot.quantity
      then bytes "partially_allocated"
      else bytes "recorded";
}

-- how much of a lot is taken
unfoldable pub consume_from : ℤ → IntakeLotRecord → ℤ
consume_from remaining lot =
    if ltb_ℤ remaining lot.remaining_quantity then remaining else lot.remaining_quantity

unfoldable pub take_from_lot : ℤ → ℤ → ℤ → IntakeLotRecord → IntakeLotRecord
unfolding refresh_lot_status consume_from
take_from_lot now height remaining lot = refresh_lot_status (record lot {
  remaining_quantity = lot.remaining_quantity -ℤ consume_from remaining lot;
  updated_at = now;
  height = height;
})

abbrev also_allocated :
    LotAllocation
    → List LotAllocation × GoMap IntakeLotRecord
    → List LotAllocation × GoMap IntakeLotRecord
also_allocated x (xs, m) = (x ∷ xs, m)

-- the loop of `allocateCustodyInventory`, over the lots and what is still to be taken
unfoldable pub allocate_lots :
    ℤ
    → ℤ
    → ℤ
    → GoMap IntakeLotRecord
    → GoMap IntakeLotRecord
    → List LotAllocation × GoMap IntakeLotRecord
unfolding take_from_lot
allocate_lots now height remaining [] m = ([], m)
allocate_lots now height remaining ((k, lot) ∷ lots) m =
    let rest =
      allocate_lots now height (remaining -ℤ consume_from remaining lot) lots
        (insert k (take_from_lot now height remaining lot) m) in
    if eqb_ℤ remaining (pos 0)
    then ([], m)
    else also_allocated (record { lot_id = lot.lot_id; quantity = consume_from remaining lot }) rest

unfoldable pub allocate_custody_inventory :
    ℤ
    → ℤ
    → Bytes
    → Bytes
    → Bytes
    → ℤ
    → GoMap IntakeLotRecord
    → List LotAllocation × GoMap IntakeLotRecord
unfolding allocate_lots
allocate_custody_inventory now height asset_id warehouse_id sku_class_id quantity m =
    if leb_ℤ quantity (pos 0)
    then ([], m)
    else allocate_lots now height quantity (inventory_lots asset_id warehouse_id sku_class_id m) m
