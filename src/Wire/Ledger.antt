-- ===== src/Wire/Ledger.antt =====
-- The ledger of embodiments/shywire: the balances of an asset, and its supply.
pub mod Accounts
pub mod Payments
pub mod Supply
pub mod Burn
pub mod Mint
pub mod Kept
pub mod Abstract
pub mod Accepted
pub mod Transfer
pub mod Operations
pub mod Registration
pub mod Redemption
pub mod Settlement
pub mod Moves
pub mod Executions
pub mod Quiet
pub mod Sound
pub mod Steps
pub mod Dispatched
pub mod Reach
pub mod Forced
pub mod Flags
use community.Base.{
  ℕ, ◌+◌, ◌<◌, ◌^◌, ◌≡◌, ◌≢◌, Bool, Option, none, some, List, if◌then◌else◌, All, is_some, true,
}
use community.Data.Bytes.{Bytes, ◌==◌}
use community.Data.GoMap.{GoMap, lookup, Unique}
use community.Data.GoMap.Entries.{Entries}
use community.Data.GoMap.Sum.{sum}
use community.Data.Int64.{ℤ, pos, pos_part, neg_part}
use community.Wire.State.{State, account_key}
use community.Wire.Types.{AccountRecord, AssetRecord, SupplyRecord}

abbrev pub NoColon : Bytes → Type 0
NoColon s = All (λ c. c ≢ 58) s

-- what an account holds of an asset
abbrev pub held : Bytes → AccountRecord → ℕ
held asset_id a = if a.asset_id == asset_id then pos_part a.balance else 0

unfoldable pub total : Bytes → GoMap AccountRecord → ℕ
total asset_id m = sum (held asset_id) m

-- An account stands under its own asset and commitment, and owes nothing.
pub record IsFiledAccount (k : Bytes) (a : AccountRecord) : Type 0 where
  pub own_key : k ≡ account_key a.asset_id a.account_commitment
  pub no_colon : NoColon a.asset_id
  pub no_debt : neg_part a.balance ≡ 0

-- An asset and its supply record agree with a total; what is not registered has none.
abbrev pub Backing : Option AssetRecord → Option SupplyRecord → ℕ → Type 0
Backing none none t = t ≡ 0
Backing none (some sup) t = ⊥
Backing (some r) none t = ⊥
Backing (some r) (some sup) t =
    (sup.total_minted ≡ pos (t + pos_part sup.total_burned))
    × (neg_part sup.total_burned ≡ 0)
    × (t + pos_part sup.total_burned < 2 ^ 63)
    × (sup.total_supply ≡ pos t)
    × (r.total_supply ≡ pos t)

pub record IsBacked (s : State) : Type 0 where
  pub filed : Entries IsFiledAccount s.accounts
  pub unique : Unique s.accounts
  pub named : Entries (λ k _. NoColon k) s.assets
  pub backing :
      (asset_id : Bytes)
      → Backing (lookup asset_id s.assets) (lookup asset_id s.supply) (total asset_id s.accounts)
