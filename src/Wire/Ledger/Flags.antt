-- ===== src/Wire/Ledger/Flags.antt =====
-- embodiments/shywire/state/adverse_action.go and financing.go: the flags of an account, and what
-- reads them.
use community.Base.{◌≡◌, refl, sym, ap, ◌∙◌, is_some, arith, Option-cases, inl, inr}
use community.Data.Bytes.{Bytes}
use community.Data.GoMap.{lookup}
use community.Data.Int64.{ℤ}
use community.Wire.AdverseAction.{adverse_action_as}
use community.Wire.Contracts.Execution.{check_execute_contract, check_value}
use community.Wire.Ledger.Forced.{applied, lookup-apply_to_accounts}
use community.Wire.Ledger.Registration.{TakesNothing, apply_action-same, applied-lookup}
use community.Wire.State.{State, account_key}
use community.Wire.Supply.{check_burn, check_funds}
use community.Wire.Txs.{AdverseActionData, ExecuteContractData, BurnData}
use community.Wire.Types.{AccountRecord, ContractRecord}

module _ (now : ℤ) (d : AdverseActionData) (s : State) (harmless : TakesNothing d) where
  still_known :
      (k : Bytes)
      → is_some (lookup k (adverse_action_as now d s).1.accounts) ≡ is_some (lookup k s.accounts)
  unfolding adverse_action_as check_funds
  still_known k = elim (Option-cases (lookup k s.accounts)) [
    | inl e ↦ ap is_some (applied-lookup s.height d harmless k s.accounts e ∙ sym e)
    | inr (a, e) ↦
        ap is_some (lookup-apply_to_accounts s.height d k a s.accounts e) ∙ ap is_some (sym e)
  ]

  applied-balance : (a : AccountRecord) → (applied s.height d a).balance ≡ a.balance
  applied-balance a = ground (arith, apply_action-same s.height d harmless a)

  check_funds-same :
      (k : Bytes) (amount : ℤ)
      → check_funds k amount (adverse_action_as now d s).1 ≡ check_funds k amount s
  unfolding adverse_action_as check_funds
  check_funds-same k amount = elim (Option-cases (lookup k s.accounts)) [
    | inl e ↦ rw (check_funds, e, applied-lookup s.height d harmless k s.accounts e) refl
    | inr (a, e) ↦
        rw (check_funds, lookup-apply_to_accounts s.height d k a s.accounts e, e, applied-balance a)
          refl
  ]

-- Two states that agree on what the tests of a contract's execution read accept the same ones.
check_value-alike :
    (x : ExecuteContractData) (c : ContractRecord) (s s' : State)
    → ((k : Bytes) → is_some (lookup k s'.accounts) ≡ is_some (lookup k s.accounts))
    → ((k : Bytes) (amount : ℤ) → check_funds k amount s' ≡ check_funds k amount s)
    → check_value x c s' ≡ check_value x c s
unfolding check_value
check_value-alike x c s s' known funds = ground (
  arith,
  known (account_key x.asset_id x.counterparty_commitment),
  funds (account_key x.asset_id x.party_commitment) x.amount,
)

check_execute_contract-alike :
    (x : ExecuteContractData) (s s' : State)
    → s'.contracts ≡ s.contracts
    → s'.participants ≡ s.participants
    → ((c : ContractRecord) → check_value x c s' ≡ check_value x c s)
    → check_execute_contract x s' ≡ check_execute_contract x s
unfolding check_execute_contract
check_execute_contract-alike x s s' contracts participants value =
    let same = ap (lookup x.contract_id) contracts in
    elim (Option-cases (lookup x.contract_id s.contracts)) [
      | inl e ↦ ground (arith, same, e)
      | inr (c, e) ↦ ground (arith, same, e, value c, participants)
    ]

check_burn-alike :
    (b : BurnData) (s s' : State)
    → s'.assets ≡ s.assets
    → ((k : Bytes) (amount : ℤ) → check_funds k amount s' ≡ check_funds k amount s)
    → check_burn b s' ≡ check_burn b s
unfolding check_burn
check_burn-alike b s s' assets funds =
    let same = ap (lookup b.asset_id) assets in
    ground (arith, same, funds (account_key b.asset_id b.account_commitment) b.amount)

-- An action other than a forced redemption changes neither which executions of contracts are
-- accepted nor which burns are, whatever account it disables or freezes.
pub adverse_action_as-unhindered :
    (now : ℤ) (d : AdverseActionData) (s : State) (x : ExecuteContractData) (b : BurnData)
    → TakesNothing d
    → (check_execute_contract x (adverse_action_as now d s).1 ≡ check_execute_contract x s)
      × (check_burn b (adverse_action_as now d s).1 ≡ check_burn b s)
adverse_action_as-unhindered now d s x b harmless =
    let s' = (adverse_action_as now d s).1 in
    let funds = check_funds-same now d s harmless in
    let known = still_known now d s harmless in
    (
      check_execute_contract-alike x s s' (unfold adverse_action_as in refl)
          (unfold adverse_action_as in refl) (λ c. check_value-alike x c s s' known funds),
      check_burn-alike b s s' (unfold adverse_action_as in refl) funds,
    )
