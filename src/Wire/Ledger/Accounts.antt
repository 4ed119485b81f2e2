-- ===== src/Wire/Ledger/Accounts.antt =====
-- What a write to one account does to the totals.
use community.Base.{
  ℕ, ◌+◌, ◌-◌, ◌≤◌, ◌≡◌, refl, sym, ap₂, ◌∙◌, subst, none, some, [], ◌∷◌, if◌then◌else◌, arith,
}
use community.Data.Bytes.{Bytes, ◌==◌, ==_refl}
use community.Data.GoMap.{GoMap, lookup, insert}
use community.Data.GoMap.Entries.{Entries, lookup-Entries, insert-Entries}
use community.Data.GoMap.Sum.{sum-insert_old, sum-insert_new, le-sum}
use community.Data.Int64.{pos, pos_part, neg_part}
use community.Wire.Ledger.{NoColon, held, total, IsFiledAccount}
use community.Wire.State.{account_key}
use community.Wire.Types.{AccountRecord}

-- Names without a colon are read off a key.
pub account_key-asset :
    (x y : Bytes) (c e : Bytes) → NoColon x → NoColon y → account_key x c ≡ account_key y e → x ≡ y
unfolding account_key
account_key-asset [] [] c e h k q = refl
account_key-asset [] (b ∷ y) c e h k q = absurd (k.0 (ground arith))
account_key-asset (a ∷ x) [] c e h k q = absurd (h.0 (ground arith))
account_key-asset (a ∷ x) (b ∷ y) c e h k q = ground (arith, account_key-asset x y c e h.1 k.1)

-- the account under the key of an asset is one of the asset
pub found_asset :
    (x c : Bytes) (a : AccountRecord) (m : GoMap AccountRecord)
    → NoColon x
    → Entries IsFiledAccount m
    → lookup (account_key x c) m ≡ some a
    → a.asset_id ≡ x
found_asset x c a m h filed found =
    let own = lookup-Entries IsFiledAccount (account_key x c) a m found filed in
    account_key-asset a.asset_id x a.account_commitment c own.no_colon h (sym own.own_key)

-- how much of an amount counts for an asset
abbrev pub share : Bytes → Bytes → ℕ → ℕ
share x asset_id v = if x == asset_id then v else 0

module _ (m : GoMap AccountRecord) (k : Bytes) (a b : AccountRecord) (v : ℕ)
    (found : lookup k m ≡ some a) (filed : Entries IsFiledAccount m)
    (same : b.asset_id ≡ a.asset_id) where
  pub total-debit :
      b.balance ≡ pos (pos_part a.balance - v)
      → v ≤ pos_part a.balance
      → (x : Bytes) → total x (insert k b m) + share a.asset_id x v ≡ total x m
  unfolding total
  total-debit less enough x = let moved = sum-insert_old (held x) k b a m found in ground arith

  pub total-credit :
      b.balance ≡ pos (pos_part a.balance + v)
      → (x : Bytes) → total x (insert k b m) ≡ total x m + share a.asset_id x v
  unfolding total
  total-credit more x = let moved = sum-insert_old (held x) k b a m found in ground arith

  -- The account stays filed, whatever is written to its other fields.
  pub keeps-filed :
      b.account_commitment ≡ a.account_commitment
      → neg_part b.balance ≡ 0
      → Entries IsFiledAccount (insert k b m)
  keeps-filed same' owes =
      let own = lookup-Entries IsFiledAccount k a m found filed in
      insert-Entries IsFiledAccount k b m
        (record {
          own_key = own.own_key ∙ ap₂ account_key (sym same) (sym same');
          no_colon = subst NoColon (sym same) own.no_colon;
          no_debt = owes;
        })
        filed

pub held-le-total :
    (m : GoMap AccountRecord) (k : Bytes) (a : AccountRecord)
    → lookup k m ≡ some a
    → pos_part a.balance ≤ total a.asset_id m
unfolding total
held-le-total m k a found = ground (arith, le-sum (held a.asset_id) k a m found, ==_refl a.asset_id)

pub total-opened :
    (x c : Bytes) (m : GoMap AccountRecord) (k : Bytes) (b : AccountRecord)
    → lookup k m ≡ none
    → b.balance ≡ pos 0
    → total x (insert k b m) ≡ total x m
unfolding total
total-opened x c m k b new zero = ground (arith, sum-insert_new (held x) k b m new)
