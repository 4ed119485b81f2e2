-- ===== src/Wire/Ledger/Payments.antt =====
-- A debit of one account and a credit of one account, seen from the totals.
use community.Base.{ℕ, ◌+◌, ◌-◌, ◌<◌, ◌≤◌, ◌^◌, ◌≡◌, ap, ◌∙◌, subst, some, arith}
use community.Data.Bytes.{Bytes}
use community.Data.GoMap.{GoMap, lookup, insert, Unique}
use community.Data.GoMap.Entries.{Entries, lookup-Entries}
use community.Data.GoMap.Laws.{insert-Unique}
use community.Data.Int64.{pos, pos_part, neg_part, ◌+ℤ◌, ◌-ℤ◌, +ℤ_pos, -ℤ_pos, of_pos_part}
use community.Wire.Ledger.{NoColon, total, IsFiledAccount}
use community.Wire.Ledger.Accounts.{
  found_asset, share, total-debit, total-credit, keeps-filed, held-le-total,
}
use community.Wire.State.{account_key}
use community.Wire.Types.{AccountRecord}

-- An amount of one asset has left the accounts, or has come to them.
pub record Paid (x : Bytes) (v : ℕ) (m m' : GoMap AccountRecord) : Type 0 where
  pub filed : Entries IsFiledAccount m'
  pub unique : Unique m'
  pub less : (y : Bytes) → total y m' + share x y v ≡ total y m

pub record Received (x : Bytes) (v : ℕ) (m m' : GoMap AccountRecord) : Type 0 where
  pub filed : Entries IsFiledAccount m'
  pub unique : Unique m'
  pub more : (y : Bytes) → total y m' ≡ total y m + share x y v

module _ (x c : Bytes) (v : ℕ) (a b : AccountRecord) (m : GoMap AccountRecord) (named : NoColon x)
    (filed : Entries IsFiledAccount m) (unique : Unique m)
    (found : lookup (account_key x c) m ≡ some a) (same : b.asset_id ≡ a.asset_id)
    (same' : b.account_commitment ≡ a.account_commitment) where
  own_asset : a.asset_id ≡ x
  own_asset = found_asset x c a m named filed found

  own_balance : a.balance ≡ pos (pos_part a.balance)
  own_balance =
      of_pos_part a.balance
        (lookup-Entries IsFiledAccount (account_key x c) a m found filed).no_debt

  le_total : pos_part a.balance ≤ total x m
  le_total =
      subst (λ y. pos_part a.balance ≤ total y m) own_asset
        (held-le-total m (account_key x c) a found)

  pub insert-Paid :
      b.balance ≡ a.balance -ℤ pos v
      → v ≤ pos_part a.balance
      → total x m < 2 ^ 63
      → Paid x v m (insert (account_key x c) b m)
  insert-Paid written enough room =
      let debited : b.balance ≡ pos (pos_part a.balance - v) =
        written
        ∙ (ap (λ z. z -ℤ pos v) own_balance
            ∙ -ℤ_pos (pos_part a.balance) v (omega (arith, le_total)) enough) in
      record {
        filed = keeps-filed m (account_key x c) a b v found filed same same' (ap neg_part debited);
        unique = insert-Unique (account_key x c) b m unique;
        less = λ y.
            subst (λ z. total y (insert (account_key x c) b m) + share z y v ≡ total y m) own_asset
              (total-debit m (account_key x c) a b v found filed same debited enough y);
      }

  pub insert-Received :
      b.balance ≡ a.balance +ℤ pos v
      → total x m + v < 2 ^ 63
      → Received x v m (insert (account_key x c) b m)
  insert-Received written room =
      let credited : b.balance ≡ pos (pos_part a.balance + v) =
        written
        ∙ (ap (λ z. z +ℤ pos v) own_balance
            ∙ +ℤ_pos (pos_part a.balance) v (omega (arith, le_total))) in
      record {
        filed = keeps-filed m (account_key x c) a b v found filed same same' (ap neg_part credited);
        unique = insert-Unique (account_key x c) b m unique;
        more = λ y.
            subst (λ z. total y (insert (account_key x c) b m) ≡ total y m + share z y v) own_asset
              (total-credit m (account_key x c) a b v found filed same credited y);
      }
