-- ===== src/Wire/Ledger/Burn.antt =====
-- A burn of tokens that an account has: from its balance and from the supply alike.
use community.Base.{ℕ, ◌+◌, ◌≤◌, ◌≡◌, refl, sym, subst, false, some, arith}
use community.Data.Bytes.{Bytes, ◌==◌, ==_iff, ==_refl}
use community.Data.GoMap.{lookup, insert}
use community.Data.GoMap.Entries.{lookup-Entries, insert-Entries}
use community.Data.Int64.{ℤ, pos, pos_part}
use community.Wire.Ledger.{NoColon, total, Backing, IsBacked}
use community.Wire.Ledger.Supply.{Burned, burned_state, Backing-insert, Backing-burned, Backing-of}
use community.Wire.Ledger.Payments.{Paid, insert-Paid}
use community.Wire.State.{State, account_key, add_burned, debit, touch}
use community.Wire.Types.{AccountRecord, AssetRecord, SupplyRecord}

module _ (now : ℤ) (x c : Bytes) (v : ℕ) (a : AccountRecord) (sup : SupplyRecord) (r : AssetRecord)
    (s : State) (backed : IsBacked s) (found : lookup (account_key x c) s.accounts ≡ some a)
    (supplied : lookup x s.supply ≡ some sup) (recorded : lookup x s.assets ≡ some r)
    (enough : v ≤ pos_part a.balance) where
  named_asset : NoColon x
  named_asset = lookup-Entries (λ k _. NoColon k) x r s.assets recorded backed.named

  paid : AccountRecord
  paid = touch now s.height (debit (pos v) a)

  paid-Paid : Paid x v s.accounts (insert (account_key x c) paid s.accounts)
  unfolding paid
  paid-Paid =
      insert-Paid x c v a paid s.accounts named_asset backed.filed backed.unique found refl refl
        refl enough (omega (arith, (Backing-of x r sup s backed recorded supplied).2))

  less_own : total x (insert (account_key x c) paid s.accounts) + v ≡ total x s.accounts
  less_own = ground (arith, paid-Paid.less x, ==_refl x)

  same_others :
      (y : Bytes)
      → (x == y) ≡ false
      → total y (insert (account_key x c) paid s.accounts) ≡ total y s.accounts
  same_others y e = ground (arith, paid-Paid.less y)

  burned-Backing :
      (y : Bytes)
      → Backing
          (lookup y (burned_state now x c (pos v) a sup r s).assets)
          (lookup y (burned_state now x c (pos v) a sup r s).supply)
          (total y (insert (account_key x c) paid s.accounts))
  burned-Backing y =
      let m = insert (account_key x c) paid s.accounts in
      let sup' = add_burned now (pos v) sup in
      let r' = record r { total_supply = sup'.total_supply } in
      Backing-insert x y r' sup' s.assets s.supply (total y m)
        (λ e.
          subst (λ z. Backing (some r') (some sup') (total z m)) ((==_iff x y).0 e)
            (Backing-burned now v (total x s.accounts) (total x m) r sup
              (Backing-of x r sup s backed recorded supplied) less_own))
        (λ e.
          subst (Backing (lookup y s.assets) (lookup y s.supply)) (sym (same_others y e))
            (backed.backing y))

  pub burned_state-Burned : Burned x v s (burned_state now x c (pos v) a sup r s)
  unfolding paid
  burned_state-Burned = record {
    backed = record {
      filed = paid-Paid.filed;
      unique = paid-Paid.unique;
      named = insert-Entries (λ k _. NoColon k) x _ s.assets named_asset backed.named;
      backing = burned-Backing;
    };
    less = less_own;
    others = same_others;
  }
