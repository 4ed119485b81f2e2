-- ===== src/Wire/Ledger/Quiet.antt =====
-- embodiments/shywire/state/state.go, `ExecuteTx`: the transactions that do not write accounts,
-- assets or supply.
use community.Base.{◌≡◌, refl, Option, none, some, List, arith}
use community.Base.Result.{Result, err}
use community.Data.Base64.{base64_decode}
use community.Data.Bytes.{Bytes}
use community.Data.Int64.{ℤ}
use community.Protocol.Events.{Event}
use community.Wire.Contracts.{
  execute_register_contract, execute_activate_contract, activate_contract_as, update_contract,
}
use community.Wire.Custody.{
  execute_register_operator, execute_register_sku_class, execute_register_policy,
  register_policy_as,
}
use community.Wire.Custody.Lots.{execute_record_lot, record_lot_as}
use community.Wire.Custody.Redemption.{execute_request_redemption, request_as}
use community.Wire.Dispatch.{execute_register_validator, register_with_key, execute_kind}
use community.Wire.Env.{Env}
use community.Wire.Errors.{Error, invalid_payload}
use community.Wire.Ledger.Operations.{SameLedger}
use community.Wire.State.{State, Handler, done}
use community.Wire.Txs.{
  Tx, Kind, ValidatorRegistrationData, ActivateContractData, RegisterConsortiumPolicyData,
}

-- what a handler does with a payload, whether it decodes or not
pub after_decode :
    {D : Type 0} (P : Result Error (List Event) × State → Type 0) (o : Option D) (f : D → Handler)
    (s : State)
    → P (err invalid_payload, s)
    → ((d : D) → o ≡ some d → P (f d s))
    → P (elim o as (λ _. Result Error (List Event) × State) [
      | none ↦ (err invalid_payload, s)
      | some d ↦ f d s
    ])
after_decode P none f s b h = b
after_decode P (some d) f s b h = h d refl

abbrev pub IsQuiet : Kind → Type 0
IsQuiet Kind.register_validator = Unit
IsQuiet Kind.register_contract = Unit
IsQuiet Kind.activate_contract = Unit
IsQuiet Kind.register_policy = Unit
IsQuiet Kind.register_operator = Unit
IsQuiet Kind.register_sku_class = Unit
IsQuiet Kind.record_lot = Unit
IsQuiet Kind.request_redemption = Unit
IsQuiet Kind.unknown = Unit
IsQuiet Kind.mint = ⊥
IsQuiet _ = ⊥

register_with_key-quiet :
    (d : ValidatorRegistrationData) (key : Option Bytes) (s : State)
    → SameLedger s (register_with_key d key s).1
unfolding register_with_key
register_with_key-quiet d none s = (refl, refl, refl)
register_with_key-quiet d (some raw) s = (refl, refl, refl)

activate_contract_as-quiet :
    (now : ℤ) (d : ActivateContractData) (s : State) → SameLedger s (activate_contract_as now d s).1
unfolding activate_contract_as update_contract done
activate_contract_as-quiet now d s = (ground arith, ground arith, ground arith)

register_policy_as-quiet :
    (now : ℤ) (d : RegisterConsortiumPolicyData) (s : State)
    → SameLedger s (register_policy_as now d s).1
unfolding register_policy_as
register_policy_as-quiet now d s = (refl, refl, refl)

module _ (env : Env) (now : ℤ) (t : Tx) (s : State) where
  register_validator-quiet : SameLedger s (execute_register_validator env t s).1
  unfolding execute_register_validator
  register_validator-quiet =
      after_decode (λ r. SameLedger s r.1) (env.decode_validator_registration t.payload)
        (λ d. register_with_key d (base64_decode d.pub_key_base64)) s (refl, refl, refl)
        (λ d e. register_with_key-quiet d (base64_decode d.pub_key_base64) s)

  register_contract-quiet : SameLedger s (execute_register_contract env now t s).1
  unfolding execute_register_contract
  register_contract-quiet = (ground arith, ground arith, ground arith)

  activate_contract-quiet : SameLedger s (execute_activate_contract env now t s).1
  unfolding execute_activate_contract
  activate_contract-quiet =
      after_decode (λ r. SameLedger s r.1) (env.decode_activate_contract t.payload)
        (activate_contract_as now) s (refl, refl, refl) (λ d e. activate_contract_as-quiet now d s)

  register_policy-quiet : SameLedger s (execute_register_policy env now t s).1
  unfolding execute_register_policy
  register_policy-quiet =
      after_decode (λ r. SameLedger s r.1) (env.decode_register_consortium_policy t.payload)
        (register_policy_as now) s (refl, refl, refl) (λ d e. register_policy_as-quiet now d s)

  register_operator-quiet : SameLedger s (execute_register_operator env now t s).1
  unfolding execute_register_operator
  register_operator-quiet = (ground arith, ground arith, ground arith)

  register_sku_class-quiet : SameLedger s (execute_register_sku_class env now t s).1
  unfolding execute_register_sku_class
  register_sku_class-quiet = (ground arith, ground arith, ground arith)

  record_lot-quiet : SameLedger s (execute_record_lot env now t s).1
  unfolding execute_record_lot record_lot_as
  record_lot-quiet = (ground arith, ground arith, ground arith)

  request_redemption-quiet : SameLedger s (execute_request_redemption env now t s).1
  unfolding execute_request_redemption request_as
  request_redemption-quiet = (ground arith, ground arith, ground arith)

pub execute_kind-quiet :
    (k : Kind) (env : Env) (now : ℤ) (t : Tx) (s : State)
    → IsQuiet k
    → SameLedger s (execute_kind k env now t s).1
unfolding execute_kind
execute_kind-quiet Kind.register_validator env now t s q = register_validator-quiet env now t s
execute_kind-quiet Kind.register_contract env now t s q = register_contract-quiet env now t s
execute_kind-quiet Kind.activate_contract env now t s q = activate_contract-quiet env now t s
execute_kind-quiet Kind.register_policy env now t s q = register_policy-quiet env now t s
execute_kind-quiet Kind.register_operator env now t s q = register_operator-quiet env now t s
execute_kind-quiet Kind.register_sku_class env now t s q = register_sku_class-quiet env now t s
execute_kind-quiet Kind.record_lot env now t s q = record_lot-quiet env now t s
execute_kind-quiet Kind.request_redemption env now t s q = request_redemption-quiet env now t s
execute_kind-quiet Kind.unknown env now t s q = (refl, refl, refl)
execute_kind-quiet Kind.mint env now t s q = absurd q
execute_kind-quiet Kind.burn env now t s q = absurd q
execute_kind-quiet Kind.transfer env now t s q = absurd q
execute_kind-quiet Kind.register_asset env now t s q = absurd q
execute_kind-quiet Kind.register_account env now t s q = absurd q
execute_kind-quiet Kind.execute_contract env now t s q = absurd q
execute_kind-quiet Kind.settle_redemption env now t s q = absurd q
execute_kind-quiet Kind.apply_demurrage env now t s q = absurd q
execute_kind-quiet Kind.adverse_action env now t s q = absurd q
