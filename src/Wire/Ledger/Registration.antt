-- ===== src/Wire/Ledger/Registration.antt =====
-- embodiments/shywire/state/supply.go, transfers.go and adverse_action.go: registrations and actions
-- in a backed state.
use community.Base.{
  ℕ, ◌≡◌, refl, sym, ap, ap₂, ◌∙◌, subst, Bool, true, false, Option, none, some, [], ◌∷◌, arith,
  if◌then◌else◌,
}
use community.Base.Result.{ok}
use community.Data.Bytes.{Bytes, bytes, ◌==◌, ==_iff}
use community.Data.GoMap.{GoMap, lookup, insert, Unique}
use community.Data.GoMap.Entries.{Entries, insert-Entries}
use community.Data.GoMap.Sum.{sum}
use community.Data.Int64.{ℤ, neg_part}
use community.Wire.AdverseAction.{apply_action, is_target, apply_to_accounts, adverse_action_as}
use community.Wire.Env.{Env}
use community.Wire.Ledger.{NoColon, total, IsFiledAccount, Backing, IsBacked}
use community.Wire.Ledger.Kept.{Kept, Kept-IsBacked}
use community.Wire.Ledger.Mint.{insert-new-Opened}
use community.Wire.Ledger.Operations.{SameLedger-IsBacked}
use community.Wire.Ledger.Supply.{Backing-insert}
use community.Wire.State.{State, account_key, sentinel}
use community.Wire.Supply.{check_register_asset, register_asset_as, new_account}
use community.Wire.Transfers.{check_register_account, register_account_as}
use community.Wire.Txs.{RegisterAssetData, RegisterAccountData, AdverseActionData}
use community.Wire.Types.{AccountRecord, AssetRecord, SupplyRecord}

Backing-none :
    (o : Option AssetRecord) (o' : Option SupplyRecord) (t : ℕ) → o ≡ none → Backing o o' t → t ≡ 0
Backing-none none none t e h = h
Backing-none none (some sup) t e h = absurd h
Backing-none (some r) o' t e h = absurd (ground arith)

check_register_asset-new :
    (d : RegisterAssetData) (s : State)
    → check_register_asset d s ≡ ok tt
    → lookup d.asset_id s.assets ≡ none
unfolding check_register_asset
check_register_asset-new d s h = ground arith

pub register_asset_as-IsBacked :
    (now : ℤ) (d : RegisterAssetData) (s : State)
    → IsBacked s
    → check_register_asset d s ≡ ok tt
    → NoColon d.asset_id
    → IsBacked (register_asset_as now d s).1
unfolding register_asset_as
register_asset_as-IsBacked now d s b tests named =
    let new = check_register_asset-new d s tests in
    let nothing =
      Backing-none (lookup d.asset_id s.assets) (lookup d.asset_id s.supply)
        (total d.asset_id s.accounts) new (b.backing d.asset_id) in
    record {
      filed = b.filed;
      unique = b.unique;
      named = insert-Entries (λ k _. NoColon k) d.asset_id _ s.assets named b.named;
      backing = λ y.
          Backing-insert d.asset_id y _ _ s.assets s.supply (total y s.accounts)
            (λ e.
              let zero_total =
                subst (λ z. total z s.accounts ≡ 0) ((==_iff d.asset_id y).0 e) nothing in
              rw zero_total (refl, refl, omega arith, refl, refl))
            (λ e. b.backing y);
    }

check_register_account-new :
    (env : Env) (d : RegisterAccountData) (s : State)
    → check_register_account env d s ≡ ok tt
    → lookup (account_key sentinel d.account_commitment) s.accounts ≡ none
unfolding check_register_account
check_register_account-new env d s h = ground arith

pub register_account_as-IsBacked :
    (env : Env) (d : RegisterAccountData) (s : State)
    → IsBacked s
    → check_register_account env d s ≡ ok tt
    → IsBacked (register_account_as d s).1
unfolding register_account_as
register_account_as-IsBacked env d s b tests =
    let new = check_register_account-new env d s tests in
    let named : NoColon sentinel = (λ (e : ◌≡◌ {A = ℕ} 95 58). absurd (omega (arith, e)), tt) in
    SameLedger-IsBacked
      (record s {
        accounts =
            insert (account_key sentinel d.account_commitment)
              (new_account sentinel d.account_commitment s.height) s.accounts;
      })
      (register_account_as d s).1 (refl, refl, refl)
      (insert-new-Opened sentinel d.account_commitment s.height s b named new).backed

IsFiledAccount-same :
    (k : Bytes) (a b : AccountRecord)
    → (b.asset_id ≡ a.asset_id)
      × (b.account_commitment ≡ a.account_commitment)
      × (b.balance ≡ a.balance)
    → IsFiledAccount k a
    → IsFiledAccount k b
IsFiledAccount-same k a b (asset, commitment, balance) f = record {
  own_key = f.own_key ∙ ap₂ account_key (sym asset) (sym commitment);
  no_colon = subst NoColon (sym asset) f.no_colon;
  no_debt = ap neg_part balance ∙ f.no_debt;
}

IsFiledAccount-if :
    (t : Bool) (k : Bytes) (a b : AccountRecord)
    → IsFiledAccount k b
    → IsFiledAccount k a
    → IsFiledAccount k (if t then b else a)
IsFiledAccount-if true k a b h f = h
IsFiledAccount-if false k a b h f = f

-- an action that takes no balance
abbrev pub TakesNothing : AdverseActionData → Type 0
TakesNothing d = (d.action_type == bytes "redeem_forced") ≡ false

module _ (h : ℤ) (d : AdverseActionData) (harmless : TakesNothing d) where
  pub apply_action-same :
      (a : AccountRecord)
      → ((apply_action d.action_type a).asset_id ≡ a.asset_id)
        × ((apply_action d.action_type a).account_commitment ≡ a.account_commitment)
        × ((apply_action d.action_type a).balance ≡ a.balance)
  unfolding apply_action
  apply_action-same a = ground arith

  applied-filed :
      (m : GoMap AccountRecord)
      → Entries IsFiledAccount m
      → Entries IsFiledAccount (apply_to_accounts h d m)
  unfolding apply_to_accounts
  applied-filed [] f = tt
  applied-filed ((k, a) ∷ m) f = (
    IsFiledAccount-if (is_target d a) k a (record (apply_action d.action_type a) { height = h })
        (IsFiledAccount-same k a (record (apply_action d.action_type a) { height = h })
          (apply_action-same a) f.0)
        f.0,
    applied-filed m f.1,
  )

  pub applied-lookup :
      (j : Bytes) (m : GoMap AccountRecord)
      → lookup j m ≡ none
      → lookup j (apply_to_accounts h d m) ≡ none
  unfolding apply_to_accounts lookup
  applied-lookup j [] e = refl
  applied-lookup j ((k, a) ∷ m) e = ground (arith, applied-lookup j m)

  applied-Unique : (m : GoMap AccountRecord) → Unique m → Unique (apply_to_accounts h d m)
  unfolding apply_to_accounts
  applied-Unique [] u = tt
  applied-Unique ((k, a) ∷ m) u = (applied-lookup k m u.0, applied-Unique m u.1)

  applied-total :
      (x : Bytes) (m : GoMap AccountRecord) → total x (apply_to_accounts h d m) ≡ total x m
  unfolding apply_to_accounts total sum
  applied-total x [] = refl
  applied-total x ((k, a) ∷ m) = ground (arith, applied-total x m, apply_action-same a)

  applied-Kept :
      (m : GoMap AccountRecord)
      → Entries IsFiledAccount m
      → Unique m
      → Kept m (apply_to_accounts h d m)
  applied-Kept m f u = record {
    filed = applied-filed m f;
    unique = applied-Unique m u;
    same = λ y. applied-total y m;
  }

pub adverse_action_as-IsBacked :
    (now : ℤ) (d : AdverseActionData) (s : State)
    → IsBacked s
    → TakesNothing d
    → IsBacked (adverse_action_as now d s).1
unfolding adverse_action_as
adverse_action_as-IsBacked now d s b harmless =
    Kept-IsBacked s (adverse_action_as now d s).1 b
      (applied-Kept s.height d harmless s.accounts b.filed b.unique) refl refl
