-- ===== src/Wire/Ledger/Forced.antt =====
-- embodiments/shywire/state/adverse_action.go and supply.go: a forced redemption, and a burn after it.
use community.Base.{◌≡◌, ◌≢◌, refl, true, some, [], ◌∷◌, arith, if◌then◌else◌}
use community.Base.Result.{ok}
use community.Data.Bytes.{Bytes, bytes, ◌==◌}
use community.Data.GoMap.{GoMap, lookup}
use community.Data.Int64.{ℤ, pos, ◌<ℤ◌}
use community.Wire.AdverseAction.{apply_action, is_target, apply_to_accounts, adverse_action_as}
use community.Wire.State.{State, account_key}
use community.Wire.Supply.{check_burn, check_funds}
use community.Wire.Txs.{AdverseActionData, BurnData}
use community.Wire.Types.{AccountRecord}

-- what an action makes of an account
abbrev pub applied : ℤ → AdverseActionData → AccountRecord → AccountRecord
applied h d a = if is_target d a then record (apply_action d.action_type a) { height = h } else a

pub lookup-apply_to_accounts :
    (h : ℤ) (d : AdverseActionData) (k : Bytes) (a : AccountRecord) (m : GoMap AccountRecord)
    → lookup k m ≡ some a
    → lookup k (apply_to_accounts h d m) ≡ some (applied h d a)
unfolding lookup apply_to_accounts
lookup-apply_to_accounts h d k a [] e = absurd (ground arith)
lookup-apply_to_accounts h d k a ((j, b) ∷ m) e = ground (arith, lookup-apply_to_accounts h d k a m)

apply_action-zeroed : (a : AccountRecord) → (apply_action (bytes "redeem_forced") a).balance ≡ pos 0
unfolding apply_action ◌==◌
apply_action-zeroed a = refl

applied-zeroed :
    (h : ℤ) (d : AdverseActionData) (a : AccountRecord)
    → d.action_type ≡ bytes "redeem_forced"
    → is_target d a ≡ true
    → (applied h d a).balance ≡ pos 0
applied-zeroed h d a forced target = rw (target, forced) (apply_action-zeroed a)

check_funds-zero :
    (k : Bytes) (amount : ℤ) (a : AccountRecord) (s : State)
    → lookup k s.accounts ≡ some a
    → a.balance ≡ pos 0
    → pos 0 <ℤ amount
    → check_funds k amount s ≢ ok tt
unfolding check_funds
check_funds-zero k amount a s found zeroed positive h = absurd (ground arith)

check_burn-funds :
    (b : BurnData) (s : State)
    → check_burn b s ≡ ok tt
    → check_funds (account_key b.asset_id b.account_commitment) b.amount s ≡ ok tt
unfolding check_burn
check_burn-funds b s h = ground arith

-- A forced redemption of an account: the supply records stay as they are, and no burn of a positive
-- amount from the account is accepted in the state that it leaves.
pub redeem_forced-unsettled :
    (now : ℤ) (d : AdverseActionData) (a : AccountRecord) (b : BurnData) (s : State)
    → d.action_type ≡ bytes "redeem_forced"
    → is_target d a ≡ true
    → lookup (account_key b.asset_id b.account_commitment) s.accounts ≡ some a
    → pos 0 <ℤ b.amount
    → ((adverse_action_as now d s).1.supply ≡ s.supply)
      × (check_burn b (adverse_action_as now d s).1 ≢ ok tt)
unfolding adverse_action_as
redeem_forced-unsettled now d a b s forced target found positive = (
  refl,
  λ h.
      check_funds-zero (account_key b.asset_id b.account_commitment) b.amount (applied s.height d a)
        (adverse_action_as now d s).1
        (lookup-apply_to_accounts s.height d (account_key b.asset_id b.account_commitment) a
          s.accounts found)
        (applied-zeroed s.height d a forced target) positive
        (check_burn-funds b (adverse_action_as now d s).1 h),
)
