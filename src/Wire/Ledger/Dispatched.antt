-- ===== src/Wire/Ledger/Dispatched.antt =====
-- embodiments/shywire/state/state.go, `ExecuteTx` after `Validate` and `ValidateTx`: the types of
-- transactions together.
use community.Wire.Errors.{Error, panic}
use community.Wire.Custody.Redemption.{execute_request_redemption, request_as}
use community.Wire.Custody.Lots.{execute_record_lot, record_lot_as}
use community.Wire.Custody.{
  execute_register_operator, execute_register_sku_class, execute_register_policy,
  register_policy_as,
}
use community.Wire.Contracts.{
  execute_register_contract, check_activate_contract, validate_activate_contract,
  execute_activate_contract, activate_contract_as, update_contract,
}
use community.Protocol.Events.{Event}
use community.Data.Bytes.{Bytes}
use community.Data.Base64.{base64_decode}
use community.Base.{◌≡◌, ◌≢◌, List, Option, none, some, arith}
use community.Base.Result.{ok, Result, err}
use community.Data.Int64.{ℤ}
use community.Wire.Dispatch.{
  validate_kind, execute_kind, check_kind, execute_register_validator, register_with_key,
}
use community.Wire.Env.{Env}
use community.Wire.Ledger.{IsBacked}
use community.Wire.Ledger.Operations.{SameLedger-IsBacked}
use community.Wire.Ledger.Quiet.{IsQuiet, execute_kind-quiet, after_decode}
use community.Wire.State.{State, done}
use community.Wire.Txs.{Tx, Kind, ValidatorRegistrationData, ActivateContractData}
use community.Wire.Ledger.Sound.{
  BurnReadsAsMint, Conserving, Sound, invalid_is_no_panic, opened_tests,
}
use community.Wire.Ledger.Steps.{
  register_asset_step, mint_step, burn_step, transfer_step, register_account_step,
  execute_contract_step, settle_step, demurrage_step, adverse_action_step,
}

-- a handler that ends without a panic
abbrev Calm : Result Error (List Event) × State → Type 0
Calm r = r.0 ≢ err panic

register_with_key-Calm :
    (d : ValidatorRegistrationData) (key : Option Bytes) (s : State)
    → Calm (register_with_key d key s)
unfolding register_with_key
register_with_key-Calm d none s e = absurd (ground arith)
register_with_key-Calm d (some raw) s e = absurd (ground arith)

activate_contract_as-Calm :
    (now : ℤ) (d : ActivateContractData) (s : State)
    → check_activate_contract d s ≡ ok tt
    → Calm (activate_contract_as now d s)
unfolding activate_contract_as update_contract done check_activate_contract
activate_contract_as-Calm now d s h e = absurd (ground arith)

module _ (env : Env) (now : ℤ) (t : Tx) (s : State) where
  register_validator-Calm : Calm (execute_register_validator env t s)
  unfolding execute_register_validator
  register_validator-Calm =
      after_decode Calm (env.decode_validator_registration t.payload)
        (λ d. register_with_key d (base64_decode d.pub_key_base64)) s invalid_is_no_panic
        (λ d e. register_with_key-Calm d (base64_decode d.pub_key_base64) s)

  activate_contract-Calm :
      validate_activate_contract env t s ≡ ok tt → Calm (execute_activate_contract env now t s)
  unfolding execute_activate_contract validate_activate_contract
  activate_contract-Calm h =
      let o = env.decode_activate_contract t.payload in
      after_decode Calm o (activate_contract_as now) s invalid_is_no_panic (λ d e.
        activate_contract_as-Calm now d s (opened_tests o (λ x. check_activate_contract x s) d h e))

  register_contract-Calm : Calm (execute_register_contract env now t s)
  unfolding execute_register_contract
  register_contract-Calm e = absurd (ground arith)

  register_policy-Calm : Calm (execute_register_policy env now t s)
  unfolding execute_register_policy register_policy_as
  register_policy-Calm e = absurd (ground arith)

  register_operator-Calm : Calm (execute_register_operator env now t s)
  unfolding execute_register_operator
  register_operator-Calm e = absurd (ground arith)

  register_sku_class-Calm : Calm (execute_register_sku_class env now t s)
  unfolding execute_register_sku_class
  register_sku_class-Calm e = absurd (ground arith)

  record_lot-Calm : Calm (execute_record_lot env now t s)
  unfolding execute_record_lot record_lot_as
  record_lot-Calm e = absurd (ground arith)

  request_redemption-Calm : Calm (execute_request_redemption env now t s)
  unfolding execute_request_redemption request_as
  request_redemption-Calm e = absurd (ground arith)

quiet_step :
    (k : Kind) (env : Env) (now : ℤ) (t : Tx) (s : State)
    → IsQuiet k
    → IsBacked s
    → Calm (execute_kind k env now t s)
    → Sound (execute_kind k env now t s)
quiet_step k env now t s q b calm = (
  calm,
  SameLedger-IsBacked s (execute_kind k env now t s).1 (execute_kind-quiet k env now t s q) b,
)

-- A transaction that both validations accept, in a backed state and under the side condition of its
-- type: its execution does not panic, and the state is backed afterwards.
pub execute_kind-Sound :
    (kind : Kind) (env : Env) (now : ℤ) (t : Tx) (s : State)
    → BurnReadsAsMint env
    → IsBacked s
    → check_kind kind env t.payload ≡ ok tt
    → validate_kind kind env t s ≡ ok tt
    → Conserving kind env t.payload s
    → Sound (execute_kind kind env now t s)
unfolding check_kind validate_kind execute_kind
execute_kind-Sound Kind.register_asset env now t s codec b k h c =
    register_asset_step env now t s b h c
execute_kind-Sound Kind.mint env now t s codec b k h c = mint_step env now t s b k h c
execute_kind-Sound Kind.burn env now t s codec b k h c = burn_step env now t s b codec k h
execute_kind-Sound Kind.transfer env now t s codec b k h c = transfer_step env now t s b k h
execute_kind-Sound Kind.register_account env now t s codec b k h c =
    register_account_step env now t s b h
execute_kind-Sound Kind.register_validator env now t s codec b k h c =
    quiet_step Kind.register_validator env now t s tt b (register_validator-Calm env now t s)
execute_kind-Sound Kind.register_contract env now t s codec b k h c =
    quiet_step Kind.register_contract env now t s tt b (register_contract-Calm env now t s)
execute_kind-Sound Kind.execute_contract env now t s codec b k h c =
    execute_contract_step env now t s b h c
execute_kind-Sound Kind.activate_contract env now t s codec b k h c =
    quiet_step Kind.activate_contract env now t s tt b (activate_contract-Calm env now t s h)
execute_kind-Sound Kind.register_policy env now t s codec b k h c =
    quiet_step Kind.register_policy env now t s tt b (register_policy-Calm env now t s)
execute_kind-Sound Kind.register_operator env now t s codec b k h c =
    quiet_step Kind.register_operator env now t s tt b (register_operator-Calm env now t s)
execute_kind-Sound Kind.register_sku_class env now t s codec b k h c =
    quiet_step Kind.register_sku_class env now t s tt b (register_sku_class-Calm env now t s)
execute_kind-Sound Kind.record_lot env now t s codec b k h c =
    quiet_step Kind.record_lot env now t s tt b (record_lot-Calm env now t s)
execute_kind-Sound Kind.request_redemption env now t s codec b k h c =
    quiet_step Kind.request_redemption env now t s tt b (request_redemption-Calm env now t s)
execute_kind-Sound Kind.settle_redemption env now t s codec b k h c =
    settle_step env now t s b k h c
execute_kind-Sound Kind.apply_demurrage env now t s codec b k h c =
    demurrage_step env now t s b k h c
execute_kind-Sound Kind.adverse_action env now t s codec b k h c =
    adverse_action_step env now t s b c
execute_kind-Sound Kind.unknown env now t s codec b k h c =
    quiet_step Kind.unknown env now t s tt b (λ e. absurd (ground arith))
