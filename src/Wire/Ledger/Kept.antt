-- ===== src/Wire/Ledger/Kept.antt =====
-- An amount that leaves one account and comes to another, seen from the totals.
use community.Base.{
  ℕ, ◌+◌, ◌<◌, ◌≤◌, ◌^◌, ◌≡◌, refl, ◌≢◌, sym, ◌∙◌, subst, Option, none, some, arith, Bool-cases,
  inl, inr,
}
use community.Data.Bytes.{Bytes, ◌==◌, ==_refl}
use community.Data.GoMap.{GoMap, lookup, insert, Unique}
use community.Data.GoMap.Entries.{Entries}
use community.Data.GoMap.Laws.{lookup-insert}
use community.Data.Int64.{ℤ, pos, negsuc, pos_part, ◌<ℤ◌, ◌+ℤ◌, ◌-ℤ◌}
use community.Wire.Ledger.{NoColon, total, IsFiledAccount, IsBacked}
use community.Wire.Ledger.Payments.{Paid, Received, insert-Paid, insert-Received}
use community.Wire.State.{State, account_key}
use community.Wire.Types.{AccountRecord}

-- Accounts whose totals are those of others.
pub record Kept (m m' : GoMap AccountRecord) : Type 0 where
  pub filed : Entries IsFiledAccount m'
  pub unique : Unique m'
  pub same : (y : Bytes) → total y m' ≡ total y m

pub Paid-Received :
    {x : Bytes} {v : ℕ} {m m' m'' : GoMap AccountRecord}
    → Paid x v m m'
    → Received x v m' m''
    → Kept m m''
Paid-Received {x} {v} {m} {m'} {m''} p r = record {
  filed = r.filed;
  unique = r.unique;
  same = λ y. r.more y ∙ p.less y;
}

pub Kept-IsBacked :
    (s s' : State)
    → IsBacked s
    → Kept s.accounts s'.accounts
    → s'.assets ≡ s.assets
    → s'.supply ≡ s.supply
    → IsBacked s'
Kept-IsBacked s s' backed kept assets supply = record {
  filed = kept.filed;
  unique = kept.unique;
  named = subst (Entries (λ k _. NoColon k)) (sym assets) backed.named;
  backing = λ y. rw (assets, supply, kept.same y) (backed.backing y);
}

pub is_there : {V : Type 0} (o : Option V) → o ≢ none → (v : V) × (o ≡ some v)
is_there none h = absurd (h refl)
is_there (some v) h = (v, refl)

pub of_positive : (z : ℤ) → pos 0 <ℤ z → (v : ℕ) × (z ≡ pos v)
of_positive (pos n) h = (n, refl)
of_positive (negsuc n) h = absurd (omega (arith, h))

-- A key that is there stays there.
pub still_there :
    (j k : Bytes) (a b : AccountRecord) (m : GoMap AccountRecord)
    → lookup j m ≡ some b
    → (b' : AccountRecord) × (lookup j (insert k a m) ≡ some b')
still_there j k a b m found = elim (Bool-cases (k == j)) [
  | inl e ↦ (a, rw (lookup-insert j k a m, e) refl)
  | inr e ↦ (b, rw (lookup-insert j k a m, e) found)
]

-- `a` pays and `b` receives; they may be one account.
pub move-Kept :
    (x c c' : Bytes) (v : ℕ) (a a' b b' : AccountRecord) (m : GoMap AccountRecord)
    → NoColon x
    → Entries IsFiledAccount m
    → Unique m
    → total x m < 2 ^ 63
    → lookup (account_key x c) m ≡ some a
    → v ≤ pos_part a.balance
    → a'.asset_id ≡ a.asset_id
    → a'.account_commitment ≡ a.account_commitment
    → a'.balance ≡ a.balance -ℤ pos v
    → lookup (account_key x c') (insert (account_key x c) a' m) ≡ some b
    → b'.asset_id ≡ b.asset_id
    → b'.account_commitment ≡ b.account_commitment
    → b'.balance ≡ b.balance +ℤ pos v
    → Kept m (insert (account_key x c') b' (insert (account_key x c) a' m))
move-Kept x c c' v a a' b b' m named filed unique room found enough same same' less found' own own'
      more =
    let m' = insert (account_key x c) a' m in
    let paid = insert-Paid x c v a a' m named filed unique found same same' less enough room in
    let own_share : total x m' + v ≡ total x m = ground (arith, paid.less x, ==_refl x) in
    Paid-Received paid (
      insert-Received x c' v b b' m' named paid.filed paid.unique found' own own' more
        (omega (arith, own_share)))
