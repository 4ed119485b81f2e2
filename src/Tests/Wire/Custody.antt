-- ===== src/Tests/Wire/Custody.antt =====
-- Runs of the theorems on custody.
use community.Base.{◌<◌, ◌^◌, ◌≡◌, refl, true, some, is_some, arith}
use community.Base.Result.{ok, is_ok}
use community.Data.Bytes.{bytes, ◌==◌}
use community.Data.GoMap.{lookup, Unique}
use community.Data.GoMap.Sum.{sum}
use community.Data.Int64.{pos, ◌≤ℤ◌, ◌+ℤ◌}
use community.Tests.Wire.{gold, stocked, funded, settle_data, demurrage_data, request}
use community.Tests.Wire.Ledger.{funded-IsBacked}
use community.Wire.Custody.Allocated.{Allocated, allocate_custody_inventory-Allocated}
use community.Wire.Custody.Demurrage.{check_demurrage, demurrage_as}
use community.Wire.Custody.Inventory.{
  allocate_custody_inventory, available_custody_inventory, inventory_lots, insert_lot, is_before,
  is_in_stock, sum_remaining,
}
use community.Wire.Custody.Redemption.{check_settle, check_against_request, settle_as}
use community.Wire.Custody.Stock.{stock}
use community.Wire.Ledger.{IsBacked}
use community.Wire.Ledger.Operations.{SameLedger-IsBacked}
use community.Wire.Ledger.Redemption.{demurrage_as-Burned}
use community.Wire.Ledger.Settlement.{Settled, settle_as-Settled}
use community.Wire.Ledger.Supply.{Burned}
use community.Wire.State.{account_key}
use community.Wire.Supply.{check_funds}

stocked-IsBacked : IsBacked stocked
stocked-IsBacked = SameLedger-IsBacked funded stocked (refl, refl, refl) funded-IsBacked

stocked-Unique : Unique stocked.intake_lots
unfolding lookup ◌==◌
stocked-Unique = (refl, (refl, tt))

stocked-room : stock stocked.intake_lots < 2 ^ 63
unfolding stock sum
stocked-room = omega arith

requested : lookup settle_data.request_id stocked.redemption_requests ≡ some request
unfolding lookup ◌==◌
requested = refl

gold_registered : is_some (lookup gold stocked.assets) ≡ true
unfolding lookup ◌==◌
gold_registered = refl

stocked-check_settle : check_settle settle_data stocked ≡ ok tt
unfolding check_settle check_against_request check_funds lookup ◌==◌ account_key
    available_custody_inventory inventory_lots insert_lot is_before is_in_stock sum_remaining ◌+ℤ◌
stocked-check_settle = refl

settle_as-Settled_example :
    (is_ok (settle_as (pos 5) settle_data stocked).0 ≡ true)
    × Settled settle_data request stocked (settle_as (pos 5) settle_data stocked).1
settle_as-Settled_example =
    settle_as-Settled (pos 5) settle_data request stocked stocked-IsBacked stocked-Unique
      stocked-room requested gold_registered stocked-check_settle (omega arith) (omega arith)

stocked-check_demurrage : check_demurrage demurrage_data stocked ≡ ok tt
unfolding check_demurrage check_funds lookup ◌==◌ account_key
stocked-check_demurrage = refl

demurrage_as-Burned_run :
    (is_ok (demurrage_as (pos 5) demurrage_data stocked).0 ≡ true)
    × Burned gold 5 stocked (demurrage_as (pos 5) demurrage_data stocked).1
demurrage_as-Burned_run =
    demurrage_as-Burned (pos 5) demurrage_data stocked stocked-IsBacked gold_registered
      stocked-check_demurrage (omega arith)

seven_in_stock :
    pos 7 ≤ℤ available_custody_inventory gold (bytes "w") (bytes "sku") stocked.intake_lots
unfolding ◌==◌ available_custody_inventory inventory_lots insert_lot is_before is_in_stock
    sum_remaining ◌+ℤ◌
seven_in_stock = omega arith

allocate_custody_inventory-Allocated_example : Allocated 7 stocked.intake_lots (
    allocate_custody_inventory
      (pos 5)
      (pos 0)
      gold
      (bytes "w")
      (bytes "sku")
      (pos 7)
      stocked.intake_lots)
allocate_custody_inventory-Allocated_example =
    allocate_custody_inventory-Allocated (pos 5) (pos 0) gold (bytes "w") (bytes "sku") 7
      stocked.intake_lots stocked-Unique stocked-room seven_in_stock
