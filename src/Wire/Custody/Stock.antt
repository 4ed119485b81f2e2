-- ===== src/Wire/Custody/Stock.antt =====
-- embodiments/shywire/state/custody.go, `inventoryLots` and `availableCustodyInventory`: the lots of a
-- pool and their sum.
use community.Base.{
  ℕ, ◌+◌, ◌<◌, ◌≤◌, ◌^◌, ◌≡◌, refl, ◌≢◌, sym, ap, ◌∙◌, true, none, some, [], ◌∷◌, arith, Bool-cases,
  inl, inr,
}
use community.Data.Bytes.{Bytes, ==_iff, ==_refl}
use community.Data.GoMap.{GoMap, lookup, Unique}
use community.Data.GoMap.Entries.{Entries, Entries-both}
use community.Data.GoMap.Sum.{sum}
use community.Data.Int64.{pos, pos_part, neg_part, ◌+ℤ◌, +ℤ_pos, of_pos_part}
use community.Wire.Custody.Inventory.{
  is_before, is_in_stock, insert_lot, inventory_lots, sum_remaining, available_custody_inventory,
}
use community.Wire.Types.{IntakeLotRecord}

-- what is left of a lot
abbrev pub remaining : IntakeLotRecord → ℕ
remaining lot = pos_part lot.remaining_quantity

unfoldable pub stock : GoMap IntakeLotRecord → ℕ
stock m = sum remaining m

-- the entries of a list have different keys
abbrev pub Distinct : GoMap IntakeLotRecord → Type 0
Distinct [] = Unit
Distinct ((k, lot) ∷ m) = Entries (λ j _. j ≢ k) m × Distinct m

stock-insert_lot :
    (k : Bytes) (lot : IntakeLotRecord) (m : GoMap IntakeLotRecord)
    → stock (insert_lot (k, lot) m) ≡ remaining lot + stock m
unfolding insert_lot stock sum
stock-insert_lot k lot [] = refl
stock-insert_lot k lot ((j, other) ∷ m) = ground (arith, stock-insert_lot k lot m)

module _ (P : Bytes → IntakeLotRecord → Type 0) where
  insert_lot-Entries :
      (k : Bytes) (lot : IntakeLotRecord) (m : GoMap IntakeLotRecord)
      → P k lot
      → Entries P m
      → Entries P (insert_lot (k, lot) m)
  unfolding insert_lot
  insert_lot-Entries k lot [] p h = (p, tt)
  insert_lot-Entries k lot ((j, other) ∷ m) p h = elim (Bool-cases (is_before lot other)) [
    | inl e ↦ rw (e, insert_lot) (p, h)
    | inr e ↦ rw (e, insert_lot) (h.0, insert_lot-Entries k lot m p h.1)
  ]

-- What holds of every lot, and of a lot in stock, holds of the pool.
inventory_lots-Entries :
    (P Q : Bytes → IntakeLotRecord → Type 0) (a w c : Bytes) (m : GoMap IntakeLotRecord)
    → ((k : Bytes) (lot : IntakeLotRecord) → is_in_stock a w c lot ≡ true → P k lot → Q k lot)
    → Entries P m
    → Entries Q (inventory_lots a w c m)
unfolding inventory_lots
inventory_lots-Entries P Q a w c [] q h = tt
inventory_lots-Entries P Q a w c ((k, lot) ∷ m) q h =
    let rest = inventory_lots-Entries P Q a w c m q h.1 in
    elim (Bool-cases (is_in_stock a w c lot)) [
      | inl e ↦
          rw (e, inventory_lots)
            (insert_lot-Entries Q k lot (inventory_lots a w c m) (q k lot e h.0) rest)
      | inr e ↦ rw (e, inventory_lots) rest
    ]

insert_lot-Distinct :
    (k : Bytes) (lot : IntakeLotRecord) (m : GoMap IntakeLotRecord)
    → Entries (λ j _. j ≢ k) m
    → Distinct m
    → Distinct (insert_lot (k, lot) m)
unfolding insert_lot
insert_lot-Distinct k lot [] h d = (tt, tt)
insert_lot-Distinct k lot ((j, other) ∷ m) h d = elim (Bool-cases (is_before lot other)) [
  | inl e ↦ rw (e, insert_lot) (h, d)
  | inr e ↦
      rw (e, insert_lot)
        (
          insert_lot-Entries (λ i _. i ≢ j) k lot m (λ s. h.0 (sym s)) d.0,
          insert_lot-Distinct k lot m h.1 d.1,
        )
]

absent-Entries :
    (k : Bytes) (m : GoMap IntakeLotRecord) → lookup k m ≡ none → Entries (λ j _. j ≢ k) m
unfolding lookup
absent-Entries k [] h = tt
absent-Entries k ((j, lot) ∷ m) h =
    (λ e. absurd (ground (arith, ==_iff j k)), absent-Entries k m (ground (arith, ==_iff j k)))

pub inventory_lots-Distinct :
    (a w c : Bytes) (m : GoMap IntakeLotRecord) → Unique m → Distinct (inventory_lots a w c m)
unfolding inventory_lots
inventory_lots-Distinct a w c [] u = tt
inventory_lots-Distinct a w c ((k, lot) ∷ m) u =
    let rest = inventory_lots-Distinct a w c m u.1 in
    let apart =
      inventory_lots-Entries (λ j _. j ≢ k) (λ j _. j ≢ k) a w c m (λ j l e h. h)
        (absent-Entries k m u.0) in
    elim (Bool-cases (is_in_stock a w c lot)) [
      | inl e ↦
          rw (e, inventory_lots) (insert_lot-Distinct k lot (inventory_lots a w c m) apart rest)
      | inr e ↦ rw (e, inventory_lots) rest
    ]

-- a lot of a list that is in the map under its key
abbrev pub Stands : GoMap IntakeLotRecord → Bytes → IntakeLotRecord → Type 0
Stands m k lot = (lookup k m ≡ some lot) × (neg_part lot.remaining_quantity ≡ 0)

in_stock-positive :
    (a w c : Bytes) (lot : IntakeLotRecord)
    → is_in_stock a w c lot ≡ true
    → neg_part lot.remaining_quantity ≡ 0
unfolding is_in_stock
in_stock-positive a w c lot h = ground arith

skip_head :
    (k : Bytes) (lot : IntakeLotRecord) (m : GoMap IntakeLotRecord) (j : Bytes)
    (l : IntakeLotRecord)
    → lookup j m ≡ some l
    → j ≢ k
    → lookup j ((k, lot) ∷ m) ≡ some l
unfolding lookup
skip_head k lot m j l found apart = ground (arith, ==_iff k j)

all_there : (m : GoMap IntakeLotRecord) → Unique m → Entries (λ k lot. lookup k m ≡ some lot) m
unfolding lookup
all_there [] u = tt
all_there ((k, lot) ∷ m) u = (
  ground (arith, ==_refl k),
  Entries-both (λ j l. lookup j m ≡ some l) (λ j _. j ≢ k) (λ j l. lookup j ((k, lot) ∷ m) ≡ some l)
      m (skip_head k lot m) (all_there m u.1) (absent-Entries k m u.0),
)

-- Every lot of a pool stands in the map, and has something left.
pub inventory_lots-Stands :
    (a w c : Bytes) (m : GoMap IntakeLotRecord)
    → Unique m
    → Entries (Stands m) (inventory_lots a w c m)
inventory_lots-Stands a w c m u =
    inventory_lots-Entries (λ k lot. lookup k m ≡ some lot) (Stands m) a w c m
      (λ k lot e found. (found, in_stock-positive a w c lot e)) (all_there m u)

pub stock-inventory_lots :
    (a w c : Bytes) (m : GoMap IntakeLotRecord) → stock (inventory_lots a w c m) ≤ stock m
unfolding inventory_lots stock sum
stock-inventory_lots a w c [] = omega arith
stock-inventory_lots a w c ((k, lot) ∷ m) =
    let counted = stock-insert_lot k lot (inventory_lots a w c m) in
    let rest = stock-inventory_lots a w c m in
    elim (Bool-cases (is_in_stock a w c lot)) [
      | inl e ↦ rw (e, inventory_lots) (omega (arith, counted, rest))
      | inr e ↦ rw (e, inventory_lots) (omega (arith, rest))
    ]

-- The loop that adds up a pool is exact while the sum stays below 2^63.
sum_remaining-stock :
    (n : GoMap IntakeLotRecord) (m : GoMap IntakeLotRecord) (t : ℕ)
    → Entries (Stands n) m
    → t + stock m < 2 ^ 63
    → sum_remaining m (pos t) ≡ pos (t + stock m)
unfolding sum_remaining stock sum
sum_remaining-stock n [] t h room = ap pos (omega arith)
sum_remaining-stock n ((k, lot) ∷ m) t h room =
    let own = of_pos_part lot.remaining_quantity h.0.1 in
    let step = ap (λ z. pos t +ℤ z) own ∙ +ℤ_pos t (remaining lot) (omega (arith, room)) in
    ap (sum_remaining m) step
    ∙ (sum_remaining-stock n m (t + remaining lot) h.1 (omega (arith, room)) ∙ ap pos (omega arith))

pub available_custody_inventory-stock :
    (a w c : Bytes) (m : GoMap IntakeLotRecord)
    → Unique m
    → stock m < 2 ^ 63
    → available_custody_inventory a w c m ≡ pos (stock (inventory_lots a w c m))
unfolding available_custody_inventory
available_custody_inventory-stock a w c m u room =
    sum_remaining-stock m (inventory_lots a w c m) 0 (inventory_lots-Stands a w c m u)
      (omega (arith, room, stock-inventory_lots a w c m))
    ∙ ap pos (omega arith)
