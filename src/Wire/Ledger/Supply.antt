-- ===== src/Wire/Ledger/Supply.antt =====
-- embodiments/shywire/state/supply.go: the supply record of an asset beside the balances.
use community.Base.{
  ℕ, ◌+◌, ◌<◌, ◌^◌, ◌≡◌, refl, ap, ◌∙◌, subst, true, false, some, arith, Bool-cases, Option-cases,
  inl, inr,
}
use community.Base.Exec.{>>-ok}
use community.Base.Result.{ok}
use community.Data.Bytes.{Bytes, ◌==◌}
use community.Data.GoMap.{GoMap, lookup, insert}
use community.Data.GoMap.Laws.{lookup-insert}
use community.Data.Int64.{ℤ, pos, pos_part, ◌+ℤ◌, ◌-ℤ◌, +ℤ_pos, -ℤ_pos, of_pos_part}
use community.Wire.Ledger.{total, Backing, IsBacked}
use community.Wire.State.{
  State, account_key, update_account, update_supply, add_minted, add_burned, debit, touch,
}
use community.Wire.Supply.{burn_from}
use community.Wire.Types.{AccountRecord, AssetRecord, SupplyRecord}

-- an asset and its supply record that are both written, seen from any asset
pub Backing-insert :
    (x y : Bytes) (r : AssetRecord) (sup : SupplyRecord) (assets : GoMap AssetRecord)
    (supply : GoMap SupplyRecord) (t : ℕ)
    → ((x == y) ≡ true → Backing (some r) (some sup) t)
    → ((x == y) ≡ false → Backing (lookup y assets) (lookup y supply) t)
    → Backing (lookup y (insert x r assets)) (lookup y (insert x sup supply)) t
Backing-insert x y r sup assets supply t own other = elim (Bool-cases (x == y)) [
  | inl e ↦ rw (lookup-insert y x r assets, lookup-insert y x sup supply, e) (own e)
  | inr e ↦ rw (lookup-insert y x r assets, lookup-insert y x sup supply, e) (other e)
]

pub Backing-burned :
    (now : ℤ) (v t t' : ℕ) (r : AssetRecord) (sup : SupplyRecord)
    → Backing (some r) (some sup) t
    → t' + v ≡ t
    → Backing
        (some (record r { total_supply = (add_burned now (pos v) sup).total_supply }))
        (some (add_burned now (pos v) sup))
        t'
Backing-burned now v t t' r sup (minted, owes, fits, supplied, recorded) less =
    let b = pos_part sup.total_burned in
    let burned : sup.total_burned +ℤ pos v ≡ pos (b + v) =
      ap (λ z. z +ℤ pos v) (of_pos_part sup.total_burned owes) ∙ +ℤ_pos b v (omega arith) in
    let rest : sup.total_minted -ℤ pos (b + v) ≡ pos t' =
      ap (λ z. z -ℤ pos (b + v)) minted
      ∙ (-ℤ_pos (t + b) (b + v) fits (omega arith) ∙ ap pos (omega arith)) in
    rw burned (minted ∙ ap pos (omega arith), refl, omega arith, rest, rest)

pub Backing-minted :
    (now : ℤ) (v t t' : ℕ) (r : AssetRecord) (sup : SupplyRecord)
    → Backing (some r) (some sup) t
    → t' ≡ t + v
    → t' + pos_part sup.total_burned < 2 ^ 63
    → Backing
        (some (record r { total_supply = (add_minted now (pos v) sup).total_supply }))
        (some (add_minted now (pos v) sup))
        t'
Backing-minted now v t t' r sup (minted, owes, fits, supplied, recorded) more room =
    let b = pos_part sup.total_burned in
    let grown : sup.total_minted +ℤ pos v ≡ pos (t' + b) =
      ap (λ z. z +ℤ pos v) minted ∙ (+ℤ_pos (t + b) v (omega arith) ∙ ap pos (omega arith)) in
    let rest : pos (t' + b) -ℤ sup.total_burned ≡ pos t' =
      ap (λ z. pos (t' + b) -ℤ z) (of_pos_part sup.total_burned owes)
      ∙ (-ℤ_pos (t' + b) b room (omega arith) ∙ ap pos (omega arith)) in
    rw grown (refl, owes, room, rest, rest)

-- What is burned leaves one account, and the totals of the other assets stay.
pub record Burned (asset_id : Bytes) (v : ℕ) (s s' : State) : Type 0 where
  pub backed : IsBacked s'
  pub less : total asset_id s'.accounts + v ≡ total asset_id s.accounts
  pub others : (x : Bytes) → (asset_id == x) ≡ false → total x s'.accounts ≡ total x s.accounts

-- the account, the supply and the asset after a burn
abbrev pub burned_state :
    ℤ → Bytes → Bytes → ℤ → AccountRecord → SupplyRecord → AssetRecord → State → State
burned_state now asset_id commitment amount a sup r s = record s {
  accounts =
      insert (account_key asset_id commitment) (touch now s.height (debit amount a)) s.accounts;
  supply = insert asset_id (add_burned now amount sup) s.supply;
  assets =
      insert asset_id (record r { total_supply = (add_burned now amount sup).total_supply })
        s.assets;
}

pub update_account-run :
    (key : Bytes) (f : AccountRecord → AccountRecord) (a : AccountRecord) (s : State)
    → lookup key s.accounts ≡ some a
    → update_account key f s ≡ (ok tt, record s { accounts = insert key (f a) s.accounts })
unfolding update_account
update_account-run key f a s found = rw (found, update_account) refl

pub update_supply-run :
    (x : Bytes) (f : SupplyRecord → SupplyRecord) (sup : SupplyRecord) (r : AssetRecord) (s : State)
    → lookup x s.supply ≡ some sup
    → lookup x s.assets ≡ some r
    → update_supply x f s ≡ (
      ok tt,
      record s {
        supply = insert x (f sup) s.supply;
        assets = insert x (record r { total_supply = (f sup).total_supply }) s.assets;
      },
    )
unfolding update_supply
update_supply-run x f sup r s supplied recorded = rw (supplied, recorded, update_supply) refl

pub burn_from-run :
    (now : ℤ) (x c : Bytes) (amount : ℤ) (a : AccountRecord) (sup : SupplyRecord) (r : AssetRecord)
    (s : State)
    → lookup (account_key x c) s.accounts ≡ some a
    → lookup x s.supply ≡ some sup
    → lookup x s.assets ≡ some r
    → burn_from now x c amount s ≡ (ok tt, burned_state now x c amount a sup r s)
unfolding burn_from
burn_from-run now x c amount a sup r s found supplied recorded =
    let paid = λ (b : AccountRecord). touch now s.height (debit amount b) in
    let s' = record s { accounts = insert (account_key x c) (paid a) s.accounts } in
    >>-ok (update_account (account_key x c) paid) (update_supply x (add_burned now amount)) s s' tt
      (update_account-run (account_key x c) paid a s found)
      (update_supply-run x (add_burned now amount) sup r s' supplied recorded)

-- the supply record of an asset that is there
pub supply_of :
    (x : Bytes) (r : AssetRecord) (s : State)
    → IsBacked s
    → lookup x s.assets ≡ some r
    → (sup : SupplyRecord) × (lookup x s.supply ≡ some sup)
supply_of x r s backed recorded = elim (Option-cases (lookup x s.supply)) [
  | inl e ↦ absurd (
      subst (λ o. Backing (some r) o (total x s.accounts)) e
        (subst (λ o. Backing o (lookup x s.supply) (total x s.accounts)) recorded
          (backed.backing x)))
  | inr found ↦ found
]

pub Backing-of :
    (x : Bytes) (r : AssetRecord) (sup : SupplyRecord) (s : State)
    → IsBacked s
    → lookup x s.assets ≡ some r
    → lookup x s.supply ≡ some sup
    → Backing (some r) (some sup) (total x s.accounts)
Backing-of x r sup s backed recorded supplied =
    subst (λ o. Backing (some r) o (total x s.accounts)) supplied
      (subst (λ o. Backing o (lookup x s.supply) (total x s.accounts)) recorded (backed.backing x))
