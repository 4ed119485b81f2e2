-- ===== src/Tests/Wire/Actions.antt =====
-- Runs of the theorems on what two authorities do to an account.
use community.Base.{◌≡◌, ◌≢◌, ◌↔◌, refl, true, false, some, [], ◌∷◌, is_some, arith}
use community.Base.Result.{ok}
use community.Data.Bytes.{bytes, ◌==◌}
use community.Data.GoMap.{lookup}
use community.Data.Hex.{hex_encode}
use community.Data.Int64.{pos}
use community.Tests.Wire.{
  gold, ann, bob, env, account, contracted, funded, action_data, burn_data, contract_data,
  transfer_data,
}
use community.Wire.AdverseAction.{
  validate_adverse_action, check_adverse_action, adverse_action_as, is_target, action_record,
}
use community.Wire.AdverseAction.Signed.{
  Authorised, validate_adverse_action_iff, adverse_action_as-once,
  check_adverse_action-any_reference,
}
use community.Wire.Contracts.Execution.{check_execute_contract}
use community.Wire.Ledger.Accepted.{Accepted, check_transfer_iff}
use community.Wire.Ledger.Flags.{adverse_action_as-unhindered}
use community.Wire.Ledger.Forced.{redeem_forced-unsettled}
use community.Wire.State.{State, account_key}
use community.Wire.Supply.{check_burn}
use community.Wire.Transfers.{check_transfer, hash_nonce}
use community.Wire.Txs.{Tx}

abbrev freeze : Tx
freeze = record { type = 17; signature = []; payload = [] }

validate_adverse_action_iff_example :
    (validate_adverse_action env freeze funded ≡ ok tt) ↔ Authorised env freeze funded
validate_adverse_action_iff_example = validate_adverse_action_iff env freeze funded

adverse_action_as-once_run :
    check_adverse_action env
      (action_data (bytes "restore"))
      (adverse_action_as (pos 5) (action_data (bytes "freeze")) funded).1
    ≢ ok tt
adverse_action_as-once_run =
    adverse_action_as-once env (pos 5) (action_data (bytes "freeze"))
      (action_data (bytes "restore")) funded refl

-- one action is recorded
abbrev acted : State
acted = record funded {
  authority_actions =
      (bytes "old", action_record (pos 1) (pos 0) (action_data (bytes "freeze"))) ∷ [];
}

acted-check : check_adverse_action env (action_data (bytes "restore")) acted ≡ ok tt
unfolding check_adverse_action lookup ◌==◌ account_key hash_nonce hex_encode
acted-check = refl

old_recorded : is_some (lookup (bytes "old") acted.authority_actions) ≡ true
unfolding lookup ◌==◌
old_recorded = refl

check_adverse_action-any_reference_run :
    check_adverse_action env
      (record (action_data (bytes "restore")) {
        referenced_action_id = bytes "old";
        reason = bytes "another";
      })
      acted
    ≡ ok tt
check_adverse_action-any_reference_run =
    check_adverse_action-any_reference env (action_data (bytes "restore")) acted (bytes "old")
      (bytes "another") acted-check old_recorded

ann_target : is_target (action_data (bytes "redeem_forced")) (account gold ann (pos 100)) ≡ true
unfolding is_target ◌==◌
ann_target = refl

ann_there : lookup (account_key gold ann) funded.accounts ≡ some (account gold ann (pos 100))
unfolding lookup ◌==◌ account_key
ann_there = refl

redeem_forced-unsettled_example :
    let s' = (adverse_action_as (pos 5) (action_data (bytes "redeem_forced")) funded).1 in
    (s'.supply ≡ funded.supply) × (check_burn burn_data s' ≢ ok tt)
redeem_forced-unsettled_example =
    redeem_forced-unsettled (pos 5) (action_data (bytes "redeem_forced"))
      (account gold ann (pos 100)) burn_data funded refl ann_target ann_there (omega arith)

freeze_takes_nothing : (bytes "freeze" == bytes "redeem_forced") ≡ false
unfolding ◌==◌
freeze_takes_nothing = refl

adverse_action_as-unhindered_example :
    let s' = (adverse_action_as (pos 5) (action_data (bytes "freeze")) contracted).1 in
    (check_execute_contract (contract_data bob) s'
      ≡ check_execute_contract (contract_data bob) contracted)
    × (check_burn burn_data s' ≡ check_burn burn_data contracted)
adverse_action_as-unhindered_example =
    adverse_action_as-unhindered (pos 5) (action_data (bytes "freeze")) contracted
      (contract_data bob) burn_data freeze_takes_nothing

check_transfer_iff_example :
    (check_transfer (transfer_data (bytes "t")) funded ≡ ok tt)
    ↔ Accepted (transfer_data (bytes "t")) funded
check_transfer_iff_example = check_transfer_iff (transfer_data (bytes "t")) funded
