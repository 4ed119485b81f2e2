-- ===== src/Wire/Ledger/Operations.antt =====
-- embodiments/shywire/state/supply.go: mints and burns in a backed state.
use community.Base.{
  ℕ, ◌+◌, ◌<◌, ◌≤◌, ◌^◌, ◌≡◌, refl, ◌≢◌, sym, ap, ◌∙◌, subst, true, none, some, [], ◌∷◌, arith,
}
use community.Base.Exec.{>>-ok, ◌>>◌}
use community.Base.Result.{ok, is_ok}
use community.Data.Bytes.{Bytes, bytes}
use community.Data.GoMap.{lookup, insert, Unique}
use community.Data.GoMap.Entries.{Entries, lookup-Entries}
use community.Data.Int64.{ℤ, pos, pos_part, ◌≤ℤ◌, ◌<ℤ◌}
use community.Wire.Ledger.{NoColon, total, IsBacked, IsFiledAccount}
use community.Wire.Ledger.Burn.{burned_state-Burned}
use community.Wire.Ledger.Kept.{is_there, of_positive}
use community.Wire.Ledger.Mint.{Minted, minted_state, minted_state-Minted, open_account-Opened}
use community.Wire.Ledger.Supply.{
  Burned, burned_state, burn_from-run, update_account-run, update_supply-run, supply_of, Backing-of,
}
use community.Wire.State.{
  State, account_key, update_account, update_supply, add_minted, credit, touch, done,
}
use community.Wire.Supply.{
  check_mint, mint_as, check_burn, check_funds, burn_as, burn_from, open_account, asset_event,
}
use community.Wire.Txs.{MintData, BurnData}
use community.Wire.Types.{AccountRecord, AssetRecord, SupplyRecord}

mint_as-run :
    (now : ℤ) (d : MintData) (a : AccountRecord) (sup : SupplyRecord) (r : AssetRecord) (s : State)
    → lookup
        (account_key d.asset_id d.account_commitment)
        (open_account d.asset_id d.account_commitment s).accounts
      ≡ some a
    → lookup d.asset_id (open_account d.asset_id d.account_commitment s).supply ≡ some sup
    → lookup d.asset_id (open_account d.asset_id d.account_commitment s).assets ≡ some r
    → mint_as now d s ≡ (
      ok (asset_event (bytes "mint") d.asset_id ∷ []),
      record (minted_state now s.height d.asset_id d.account_commitment d.amount a sup r
          (open_account d.asset_id d.account_commitment s)) { dirty = true },
    )
unfolding mint_as
mint_as-run now d a sup r s found supplied recorded =
    let key = account_key d.asset_id d.account_commitment in
    let opened = open_account d.asset_id d.account_commitment s in
    let paid = λ (b : AccountRecord). touch now s.height (credit d.amount b) in
    let s' = record opened { accounts = insert key (paid a) opened.accounts } in
    let last = done (asset_event (bytes "mint") d.asset_id ∷ []) in
    let final = minted_state now s.height d.asset_id d.account_commitment d.amount a sup r opened in
    >>-ok (update_account key paid) (update_supply d.asset_id (add_minted now d.amount) >> last)
      opened s' tt (update_account-run key paid a opened found)
      (>>-ok (update_supply d.asset_id (add_minted now d.amount)) last s' final tt
        (update_supply-run d.asset_id (add_minted now d.amount) sup r s' supplied recorded) refl)

-- the parts of a state that the ledger is about
abbrev pub SameLedger : State → State → Type 0
SameLedger s s' = (s'.accounts ≡ s.accounts) × (s'.supply ≡ s.supply) × (s'.assets ≡ s.assets)

pub SameLedger-IsBacked : (s s' : State) → SameLedger s s' → IsBacked s → IsBacked s'
SameLedger-IsBacked s s' (accounts, supply, assets) b = record {
  filed = subst (Entries IsFiledAccount) (sym accounts) b.filed;
  unique = subst Unique (sym accounts) b.unique;
  named = subst (Entries (λ k _. NoColon k)) (sym assets) b.named;
  backing = λ y. rw (assets, supply, accounts) (b.backing y);
}

-- Writes to the rest of the state do not undo a burn.
pub Burned-after :
    (x : Bytes) (v : ℕ) (s s' s'' : State) → SameLedger s' s'' → Burned x v s s' → Burned x v s s''
Burned-after x v s s' s'' same b = record {
  backed = SameLedger-IsBacked s' s'' same b.backed;
  less = ap (λ m. total x m + v) same.0 ∙ b.less;
  others = λ y e. ap (total y) same.0 ∙ b.others y e;
}

check_mint-there :
    (d : MintData) (s : State) → check_mint d s ≡ ok tt → lookup d.asset_id s.assets ≢ none
unfolding check_mint
check_mint-there d s h e = absurd (ground arith)

-- a mint into the state in which the account is open
Minted-opened :
    (x : Bytes) (v : ℕ) (s s' s'' : State)
    → ((y : Bytes) → total y s'.accounts ≡ total y s.accounts)
    → Minted x v s' s''
    → Minted x v s (record s'' { dirty = true })
Minted-opened x v s s' s'' same m = record {
  backed = SameLedger-IsBacked s'' (record s'' { dirty = true }) (refl, refl, refl) m.backed;
  more = m.more ∙ ap (λ n. n + v) (same x);
  others = λ y e. m.others y e ∙ same y;
}

-- A mint of a positive amount whose asset is registered, in a backed state: while the amount minted
-- in all stays below 2^63, it succeeds, the total of the asset grows by the amount, the other totals
-- stay, and the state is backed.
pub mint_as-Minted :
    (now : ℤ) (d : MintData) (s : State)
    → IsBacked s
    → check_mint d s ≡ ok tt
    → pos 0 <ℤ d.amount
    → ((sup : SupplyRecord)
        → lookup d.asset_id s.supply ≡ some sup
        → pos_part sup.total_minted + pos_part d.amount < 2 ^ 63)
    → (is_ok (mint_as now d s).0 ≡ true)
      × Minted d.asset_id (pos_part d.amount) s (mint_as now d s).1
mint_as-Minted now d s backed tests positive room =
    let (v, amount) = of_positive d.amount positive in
    let (r, recorded) = is_there (lookup d.asset_id s.assets) (check_mint-there d s tests) in
    let named = lookup-Entries (λ x _. NoColon x) d.asset_id r s.assets recorded backed.named in
    let opened = open_account-Opened d.asset_id d.account_commitment s backed named in
    let (sup, supplied) = supply_of d.asset_id r s backed recorded in
    let own = Backing-of d.asset_id r sup s backed recorded supplied in
    let s' = open_account d.asset_id d.account_commitment s in
    let a = opened.account in
    let supplied' = ap (lookup d.asset_id) opened.supply_kept ∙ supplied in
    let recorded' = ap (lookup d.asset_id) opened.assets_kept ∙ recorded in
    let fits : total d.asset_id s'.accounts + v + pos_part sup.total_burned < 2 ^ 63 =
      omega
        (arith, ap pos_part own.0, room sup supplied, ap pos_part amount, opened.same d.asset_id) in
    rw (mint_as-run now d a sup r s opened.found supplied' recorded') (
      refl,
      subst
          (λ z.
            Minted d.asset_id (pos_part z) s
              (record (minted_state now s.height d.asset_id d.account_commitment z a sup r s') {
                dirty = true;
              }))
          (sym amount)
          (Minted-opened d.asset_id v s s'
            (minted_state now s.height d.asset_id d.account_commitment (pos v) a sup r s')
            opened.same
            (minted_state-Minted now s.height d.asset_id d.account_commitment v a sup r s'
              opened.backed opened.found supplied' recorded' fits)),
    )

check_funds-there :
    (k : Bytes) (amount : ℤ) (s : State)
    → check_funds k amount s ≡ ok tt
    → lookup k s.accounts ≢ none
unfolding check_funds
check_funds-there k amount s h e = absurd (ground arith)

-- the account has the amount
pub check_funds-enough :
    (k : Bytes) (amount : ℤ) (s : State)
    → check_funds k amount s ≡ ok tt
    → (a : AccountRecord) × (lookup k s.accounts ≡ some a) × (amount ≤ℤ a.balance)
unfolding check_funds
check_funds-enough k amount s h =
    let (a, found) = is_there (lookup k s.accounts) (check_funds-there k amount s h) in
    (a, found, ground arith)

-- what an accepted burn, settlement or demurrage takes from the account and from the supply
pub burn_from-Burned :
    (now : ℤ) (x c : Bytes) (amount : ℤ) (r : AssetRecord) (s : State)
    → IsBacked s
    → lookup x s.assets ≡ some r
    → check_funds (account_key x c) amount s ≡ ok tt
    → pos 0 <ℤ amount
    → (s' : State) × (burn_from now x c amount s ≡ (ok tt, s'))
      × Burned x (pos_part amount) s s'
      × (s'.intake_lots ≡ s.intake_lots)
burn_from-Burned now x c amount r s backed recorded funds positive =
    let (v, same) = of_positive amount positive in
    let (a, found, enough) = check_funds-enough (account_key x c) amount s funds in
    let (sup, supplied) = supply_of x r s backed recorded in
    let pays : v ≤ pos_part a.balance = omega (arith, subst (λ z. z ≤ℤ a.balance) same enough) in
    (
      burned_state now x c amount a sup r s,
      burn_from-run now x c amount a sup r s found supplied recorded,
      subst (λ z. Burned x (pos_part z) s (burned_state now x c z a sup r s)) (sym same)
          (burned_state-Burned now x c v a sup r s backed found supplied recorded pays),
      refl,
    )

check_burn-there :
    (d : BurnData) (s : State) → check_burn d s ≡ ok tt → lookup d.asset_id s.assets ≢ none
unfolding check_burn
check_burn-there d s h e = absurd (ground arith)

check_burn-funds :
    (d : BurnData) (s : State)
    → check_burn d s ≡ ok tt
    → check_funds (account_key d.asset_id d.account_commitment) d.amount s ≡ ok tt
unfolding check_burn
check_burn-funds d s h = ground arith

burn_as-run :
    (now : ℤ) (d : BurnData) (s s' : State)
    → burn_from now d.asset_id d.account_commitment d.amount s ≡ (ok tt, s')
    → burn_as now d s
      ≡ (ok (asset_event (bytes "burn") d.asset_id ∷ []), record s' { dirty = true })
unfolding burn_as
burn_as-run now d s s' run =
    >>-ok (burn_from now d.asset_id d.account_commitment d.amount)
      (done (asset_event (bytes "burn") d.asset_id ∷ [])) s s' tt run refl

-- A burn of a positive amount that its tests accept, in a backed state: it succeeds, the total of the
-- asset shrinks by the amount, the other totals stay, and the state is backed.
pub burn_as-Burned :
    (now : ℤ) (d : BurnData) (s : State)
    → IsBacked s
    → check_burn d s ≡ ok tt
    → pos 0 <ℤ d.amount
    → (is_ok (burn_as now d s).0 ≡ true)
      × Burned d.asset_id (pos_part d.amount) s (burn_as now d s).1
burn_as-Burned now d s backed tests positive =
    let (r, recorded) = is_there (lookup d.asset_id s.assets) (check_burn-there d s tests) in
    let (s', run, burned, _) =
      burn_from-Burned now d.asset_id d.account_commitment d.amount r s backed recorded
        (check_burn-funds d s tests) positive in
    rw (burn_as-run now d s s' run) (
      refl,
      Burned-after d.asset_id (pos_part d.amount) s s' (record s' { dirty = true })
          (refl, refl, refl) burned,
    )
