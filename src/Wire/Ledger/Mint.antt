-- ===== src/Wire/Ledger/Mint.antt =====
-- A mint within the range of `int64`: to a balance and to the supply alike.
use community.Base.{
  ℕ, ◌+◌, ◌<◌, ◌^◌, ◌≡◌, refl, sym, subst, false, none, some, arith, Option-cases, inl, inr,
}
use community.Data.Bytes.{Bytes, ◌==◌, ==_iff, ==_refl}
use community.Data.GoMap.{lookup, insert}
use community.Data.GoMap.Entries.{lookup-Entries, insert-Entries}
use community.Data.GoMap.Laws.{insert-Unique, lookup-insert_self}
use community.Data.Int64.{ℤ, pos, pos_part}
use community.Wire.Ledger.{NoColon, total, IsFiledAccount, Backing, IsBacked}
use community.Wire.Ledger.Accounts.{total-opened}
use community.Wire.Ledger.Supply.{Backing-insert, Backing-minted, Backing-of}
use community.Wire.Ledger.Payments.{Received, insert-Received}
use community.Wire.State.{State, account_key, add_minted, credit, touch}
use community.Wire.Supply.{open_account, new_account}
use community.Wire.Types.{AccountRecord, AssetRecord, SupplyRecord}

-- What is minted is in one account, and the totals of the other assets stay.
pub record Minted (asset_id : Bytes) (v : ℕ) (s s' : State) : Type 0 where
  pub backed : IsBacked s'
  pub more : total asset_id s'.accounts ≡ total asset_id s.accounts + v
  pub others : (x : Bytes) → (asset_id == x) ≡ false → total x s'.accounts ≡ total x s.accounts

abbrev pub minted_state :
    ℤ → ℤ → Bytes → Bytes → ℤ → AccountRecord → SupplyRecord → AssetRecord → State → State
minted_state now h asset_id commitment amount a sup r s = record s {
  accounts = insert (account_key asset_id commitment) (touch now h (credit amount a)) s.accounts;
  supply = insert asset_id (add_minted now amount sup) s.supply;
  assets =
      insert asset_id (record r { total_supply = (add_minted now amount sup).total_supply })
        s.assets;
}

module _ (now h : ℤ) (x c : Bytes) (v : ℕ) (a : AccountRecord) (sup : SupplyRecord)
    (r : AssetRecord) (s : State) (backed : IsBacked s)
    (found : lookup (account_key x c) s.accounts ≡ some a) (supplied : lookup x s.supply ≡ some sup)
    (recorded : lookup x s.assets ≡ some r)
    (room : total x s.accounts + v + pos_part sup.total_burned < 2 ^ 63) where
  named_asset : NoColon x
  named_asset = lookup-Entries (λ k _. NoColon k) x r s.assets recorded backed.named

  paid : AccountRecord
  paid = touch now h (credit (pos v) a)

  paid-Received : Received x v s.accounts (insert (account_key x c) paid s.accounts)
  unfolding paid
  paid-Received =
      insert-Received x c v a paid s.accounts named_asset backed.filed backed.unique found refl refl
        refl (omega (arith, room))

  more_own : total x (insert (account_key x c) paid s.accounts) ≡ total x s.accounts + v
  more_own = ground (arith, paid-Received.more x, ==_refl x)

  same_others :
      (y : Bytes)
      → (x == y) ≡ false
      → total y (insert (account_key x c) paid s.accounts) ≡ total y s.accounts
  same_others y e = ground (arith, paid-Received.more y)

  minted-Backing :
      (y : Bytes)
      → Backing
          (lookup y (minted_state now h x c (pos v) a sup r s).assets)
          (lookup y (minted_state now h x c (pos v) a sup r s).supply)
          (total y (insert (account_key x c) paid s.accounts))
  minted-Backing y =
      let m = insert (account_key x c) paid s.accounts in
      let sup' = add_minted now (pos v) sup in
      let r' = record r { total_supply = sup'.total_supply } in
      let own = Backing-of x r sup s backed recorded supplied in
      Backing-insert x y r' sup' s.assets s.supply (total y m)
        (λ e.
          subst (λ z. Backing (some r') (some sup') (total z m)) ((==_iff x y).0 e)
            (Backing-minted now v (total x s.accounts) (total x m) r sup own more_own
              (omega (arith, more_own))))
        (λ e.
          subst (Backing (lookup y s.assets) (lookup y s.supply)) (sym (same_others y e))
            (backed.backing y))

  pub minted_state-Minted : Minted x v s (minted_state now h x c (pos v) a sup r s)
  unfolding paid
  minted_state-Minted = record {
    backed = record {
      filed = paid-Received.filed;
      unique = paid-Received.unique;
      named = insert-Entries (λ k _. NoColon k) x _ s.assets named_asset backed.named;
      backing = minted-Backing;
    };
    more = more_own;
    others = same_others;
  }

-- An account that is opened has nothing.
pub record Opened (x c : Bytes) (s s' : State) : Type 0 where
  pub backed : IsBacked s'
  pub same : (y : Bytes) → total y s'.accounts ≡ total y s.accounts
  pub account : AccountRecord
  pub found : lookup (account_key x c) s'.accounts ≡ some account
  pub supply_kept : s'.supply ≡ s.supply
  pub assets_kept : s'.assets ≡ s.assets

pub insert-new-Opened :
    (x c : Bytes) (h : ℤ) (s : State)
    → IsBacked s
    → NoColon x
    → lookup (account_key x c) s.accounts ≡ none
    → Opened x c s (record s { accounts = insert (account_key x c) (new_account x c h) s.accounts })
insert-new-Opened x c h s backed named new =
    let m = insert (account_key x c) (new_account x c h) s.accounts in
    let same =
      λ (y : Bytes). total-opened y c s.accounts (account_key x c) (new_account x c h) new refl in
    record {
      backed = record {
        filed =
            insert-Entries IsFiledAccount (account_key x c) (new_account x c h) s.accounts
              (record { own_key = refl; no_colon = named; no_debt = refl }) backed.filed;
        unique = insert-Unique (account_key x c) (new_account x c h) s.accounts backed.unique;
        named = backed.named;
        backing = λ y.
            subst (Backing (lookup y s.assets) (lookup y s.supply)) (sym (same y))
              (backed.backing y);
      };
      same = same;
      account = new_account x c h;
      found = lookup-insert_self (account_key x c) (new_account x c h) s.accounts;
      supply_kept = refl;
      assets_kept = refl;
    }

pub open_account-Opened :
    (x c : Bytes) (s : State) → IsBacked s → NoColon x → Opened x c s (open_account x c s)
unfolding open_account
open_account-Opened x c s backed named = elim (Option-cases (lookup (account_key x c) s.accounts)) [
  | inl new ↦ rw (new, open_account) (insert-new-Opened x c s.height s backed named new)
  | inr (a, found) ↦
      rw (found, open_account)
        (record {
          backed = backed;
          same = λ y. refl;
          account = a;
          found = found;
          supply_kept = refl;
          assets_kept = refl;
        })
]
