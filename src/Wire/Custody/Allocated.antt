-- ===== src/Wire/Custody/Allocated.antt =====
-- embodiments/shywire/state/custody.go, `allocateCustodyInventory`: a quantity that is shared out over
-- the lots of a pool.
use community.Base.{
  ℕ, ◌+◌, ◌-◌, ◌<◌, ◌≤◌, ◌^◌, ◌≡◌, ◌≢◌, sym, ap, ap₂, ◌∙◌, subst, some, List, [], ◌∷◌, arith,
  Bool-cases, inl, inr, if◌then◌else◌,
}
use community.Data.Bytes.{Bytes, ==_iff}
use community.Data.GoMap.{GoMap, lookup, insert, Unique}
use community.Data.GoMap.Entries.{Entries, Entries-both}
use community.Data.GoMap.Laws.{lookup-insert}
use community.Data.GoMap.Sum.{sum, sum-insert_old, le-sum}
use community.Data.Int64.{
  ℤ, pos, pos_part, neg_part, ◌-ℤ◌, -ℤ_pos, of_pos_part, eqb_ℤ, ltb_ℤ, leb_ℤ, ◌≤ℤ◌,
}
use community.Wire.Custody.Inventory.{
  consume_from, take_from_lot, allocate_lots, allocate_custody_inventory, inventory_lots,
  available_custody_inventory,
}
use community.Wire.Custody.Stock.{
  remaining, stock, Distinct, Stands, inventory_lots-Distinct, inventory_lots-Stands,
  available_custody_inventory-stock, stock-inventory_lots,
}
use community.Wire.Types.{IntakeLotRecord, LotAllocation}

-- what a list of allocations gives out
unfoldable pub given : List LotAllocation → ℕ
given [] = 0
given (x ∷ xs) = pos_part x.quantity + given xs

-- A quantity is given out whole, and the stock shrinks by it.
pub record Allocated (q : ℕ) (m : GoMap IntakeLotRecord)
    (r : List LotAllocation × GoMap IntakeLotRecord) : Type 0 where
  pub whole : given r.0 ≡ q
  pub taken : stock r.1 + q ≡ stock m

-- how much of a lot is taken, as a number
abbrev part : ℕ → IntakeLotRecord → ℕ
part q lot = if ltb_ℤ (pos q) lot.remaining_quantity then q else remaining lot

consume_from-part :
    (q : ℕ) (lot : IntakeLotRecord)
    → neg_part lot.remaining_quantity ≡ 0
    → consume_from (pos q) lot ≡ pos (part q lot)
unfolding consume_from
consume_from-part q lot owes = ground (arith, of_pos_part lot.remaining_quantity owes)

part-le :
    (q : ℕ) (lot : IntakeLotRecord)
    → neg_part lot.remaining_quantity ≡ 0
    → (part q lot ≤ remaining lot) × (part q lot ≤ q)
part-le q lot owes = ground arith

take_from_lot-remaining :
    (now h : ℤ) (q : ℕ) (lot : IntakeLotRecord)
    → neg_part lot.remaining_quantity ≡ 0
    → remaining lot < 2 ^ 63
    → (take_from_lot now h (pos q) lot).remaining_quantity ≡ pos (remaining lot - part q lot)
unfolding take_from_lot
take_from_lot-remaining now h q lot owes room =
    ap₂ ◌-ℤ◌ (of_pos_part lot.remaining_quantity owes) (consume_from-part q lot owes)
    ∙ -ℤ_pos (remaining lot) (part q lot) room (part-le q lot owes).0

still_due :
    (q : ℕ) (lot : IntakeLotRecord)
    → neg_part lot.remaining_quantity ≡ 0
    → q < 2 ^ 63
    → pos q -ℤ consume_from (pos q) lot ≡ pos (q - part q lot)
still_due q lot owes room =
    ap (λ z. pos q -ℤ z) (consume_from-part q lot owes)
    ∙ -ℤ_pos q (part q lot) room (part-le q lot owes).1

-- What stands in a map stands in it after a write under another key.
Stands-insert :
    (k : Bytes) (lot : IntakeLotRecord) (m lots : GoMap IntakeLotRecord)
    → Entries (λ j _. j ≢ k) lots
    → Entries (Stands m) lots
    → Entries (Stands (insert k lot m)) lots
Stands-insert k lot m lots apart stands =
    Entries-both (λ j _. j ≢ k) (Stands m) (Stands (insert k lot m)) lots
      (λ j l differ (found, owes). (
        ground (arith, lookup-insert j k lot m, ==_iff k j, found, λ (e : k ≡ j). differ (sym e)),
        owes,
      ))
      apart stands

-- the rest of the loop, and the lot that was taken from
Allocated-cons :
    (q : ℕ) (k : Bytes) (lot lot' : IntakeLotRecord) (x : LotAllocation) (m : GoMap IntakeLotRecord)
    (r : List LotAllocation × GoMap IntakeLotRecord)
    → lookup k m ≡ some lot
    → neg_part lot.remaining_quantity ≡ 0
    → remaining lot' ≡ remaining lot - part q lot
    → pos_part x.quantity ≡ part q lot
    → Allocated (q - part q lot) (insert k lot' m) r
    → Allocated q m (x ∷ r.0, r.1)
unfolding stock given
Allocated-cons q k lot lot' x m r found owes left own rest = record {
  whole = omega (arith, rest.whole, own, part-le q lot owes);
  taken =
      omega
        (arith, rest.taken, left, part-le q lot owes, sum-insert_old remaining k lot' lot m found);
}

part-rest : (q : ℕ) (lot : IntakeLotRecord) (n : ℕ) → q ≤ remaining lot + n → q - part q lot ≤ n
part-rest q lot n enough = ground arith

stock-taken :
    (q : ℕ) (k : Bytes) (lot lot' : IntakeLotRecord) (m : GoMap IntakeLotRecord)
    → lookup k m ≡ some lot
    → remaining lot' ≡ remaining lot - part q lot
    → stock (insert k lot' m) ≤ stock m
unfolding stock
stock-taken q k lot lot' m found left =
    omega (arith, left, sum-insert_old remaining k lot' lot m found)

allocate_lots-Allocated :
    (now h : ℤ) (q : ℕ) (lots m : GoMap IntakeLotRecord)
    → Distinct lots
    → Entries (Stands m) lots
    → q ≤ stock lots
    → stock m < 2 ^ 63
    → q < 2 ^ 63
    → Allocated q m (allocate_lots now h (pos q) lots m)
unfolding allocate_lots
allocate_lots-Allocated now h q [] m d stands enough room small = record {
  whole = unfold given in unfold stock in unfold sum in omega (arith, enough);
  taken = unfold stock in unfold sum in omega (arith, enough);
}
allocate_lots-Allocated now h q ((k, lot) ∷ lots) m d stands enough room small =
    let (found, owes) = stands.0 in
    let lot' = take_from_lot now h (pos q) lot in
    let own : remaining lot < 2 ^ 63 =
      unfold stock in omega (arith, room, le-sum remaining k lot m found) in
    let left = ap pos_part (take_from_lot-remaining now h q lot owes own) in
    let rest =
      subst
        (λ z.
          Allocated (q - part q lot) (insert k lot' m)
            (allocate_lots now h z lots (insert k lot' m)))
        (sym (still_due q lot owes small))
        (allocate_lots-Allocated now h (q - part q lot) lots (insert k lot' m) d.1
          (Stands-insert k lot' m lots d.0 stands.1)
          (unfold stock in part-rest q lot (stock lots) (unfold sum in enough))
          (omega (arith, room, stock-taken q k lot lot' m found left)) (omega (arith, small))) in
    elim (Bool-cases (eqb_ℤ (pos q) (pos 0))) [
      | inl e ↦
          rw (e, allocate_lots)
            (record { whole = unfold given in ground (arith, e); taken = ground (arith, e) })
      | inr e ↦
          rw (e, allocate_lots)
            (Allocated-cons q k lot lot'
              (record { lot_id = lot.lot_id; quantity = consume_from (pos q) lot }) m _ found owes
              left (ap pos_part (consume_from-part q lot owes)) rest)
    ]

-- A quantity that is available in a pool, where the lots are distinct and hold less than 2^63 in all:
-- the allocations add up to all of it, and the stock that is left is the stock less the quantity.
pub allocate_custody_inventory-Allocated :
    (now h : ℤ) (a w c : Bytes) (q : ℕ) (m : GoMap IntakeLotRecord)
    → Unique m
    → stock m < 2 ^ 63
    → pos q ≤ℤ available_custody_inventory a w c m
    → Allocated q m (allocate_custody_inventory now h a w c (pos q) m)
unfolding allocate_custody_inventory
allocate_custody_inventory-Allocated now h a w c q m u room available =
    let enough : q ≤ stock (inventory_lots a w c m) = omega (
      arith,
      subst (λ z. pos q ≤ℤ z) (available_custody_inventory-stock a w c m u room) available,
    ) in
    let run =
      allocate_lots-Allocated now h q (inventory_lots a w c m) m (inventory_lots-Distinct a w c m u)
        (inventory_lots-Stands a w c m u) enough room
        (omega (arith, enough, room, stock-inventory_lots a w c m)) in
    elim (Bool-cases (leb_ℤ (pos q) (pos 0))) [
      | inl e ↦
          rw (e, allocate_custody_inventory)
            (record { whole = unfold given in ground (arith, e); taken = ground (arith, e) })
      | inr e ↦ rw (e, allocate_custody_inventory) run
    ]
