-- ===== src/Wire/Ledger/Abstract.antt =====
-- The abstract ledger: an amount at each key, with no records and no order.
use community.Base.{◌≡◌, none, some, true, if◌then◌else◌, arith}
use community.Data.Bytes.{Bytes, ◌==◌, ==_iff}
use community.Data.GoMap.{GoMap, lookup, insert}
use community.Data.GoMap.Laws.{lookup-insert}
use community.Data.Int64.{ℤ, pos, ◌+ℤ◌, ◌-ℤ◌}
use community.Wire.Types.{AccountRecord}

abbrev pub Balances : Type 0
Balances = Bytes → ℤ

unfoldable pub balance_of : GoMap AccountRecord → Balances
balance_of m k = elim (lookup k m) [ none ↦ pos 0 | some a ↦ a.balance ]

abbrev pub subtract_at : Bytes → ℤ → Balances → Balances
subtract_at k amount l j = if k == j then l j -ℤ amount else l j

abbrev pub add_at : Bytes → ℤ → Balances → Balances
add_at k amount l j = if k == j then l j +ℤ amount else l j

balance_of-insert :
    (j k : Bytes) (a : AccountRecord) (m : GoMap AccountRecord)
    → balance_of (insert k a m) j ≡ (if k == j then a.balance else balance_of m j)
unfolding balance_of
balance_of-insert j k a m = ground (arith, lookup-insert j k a m)

balance_of-found :
    (j k : Bytes) (a : AccountRecord) (m : GoMap AccountRecord)
    → lookup k m ≡ some a
    → (k == j) ≡ true
    → balance_of m j ≡ a.balance
unfolding balance_of
balance_of-found j k a m found same = ground (arith, ==_iff k j)

pub balance_of-debit :
    (j k : Bytes) (amount : ℤ) (a b : AccountRecord) (m : GoMap AccountRecord)
    → lookup k m ≡ some a
    → b.balance ≡ a.balance -ℤ amount
    → balance_of (insert k b m) j ≡ subtract_at k amount (balance_of m) j
balance_of-debit j k amount a b m found written =
    ground (arith, balance_of-insert j k b m, balance_of-found j k a m found)

pub balance_of-credit :
    (j k : Bytes) (amount : ℤ) (a b : AccountRecord) (m : GoMap AccountRecord)
    → lookup k m ≡ some a
    → b.balance ≡ a.balance +ℤ amount
    → balance_of (insert k b m) j ≡ add_at k amount (balance_of m) j
balance_of-credit j k amount a b m found written =
    ground (arith, balance_of-insert j k b m, balance_of-found j k a m found)
