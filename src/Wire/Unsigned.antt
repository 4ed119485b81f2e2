-- ===== src/Wire/Unsigned.antt =====
-- embodiments/shywire/tx/tx.go: the signature of a transaction.
use community.Base.{◌≡◌, refl, false, is_empty, arith}
use community.Data.Bytes.{Bytes}
use community.Data.Int64.{ℤ}
use community.Wire.Dispatch.{
  execute_register_validator, tx_validate, validate_tx, execute_tx, validate_kind, execute_kind,
}
use community.Wire.Supply.{
  validate_register_asset, validate_mint, validate_burn, execute_register_asset, execute_mint,
  execute_burn,
}
use community.Wire.Transfers.{
  validate_transfer, validate_register_account, execute_transfer, execute_register_account,
}
use community.Wire.Contracts.{
  validate_register_contract, validate_activate_contract, execute_register_contract,
  execute_activate_contract,
}
use community.Wire.Contracts.Execution.{validate_execute_contract, execute_execute_contract}
use community.Wire.Custody.{
  validate_register_policy, validate_register_operator, validate_register_sku_class,
  execute_register_policy, execute_register_operator, execute_register_sku_class,
}
use community.Wire.Custody.Lots.{validate_record_lot, execute_record_lot}
use community.Wire.Custody.Redemption.{
  validate_request_redemption, validate_settle_redemption, execute_request_redemption,
  execute_settle_redemption,
}
use community.Wire.Custody.Demurrage.{validate_demurrage, execute_demurrage}
use community.Wire.AdverseAction.{validate_adverse_action, execute_adverse_action}
use community.Wire.Env.{Env}
use community.Wire.State.{State}
use community.Wire.Txs.{Tx, Kind, kind_of}

abbrev signed : Bytes → Tx → Tx
signed sig t = record t { signature = sig }

validate_kind-unsigned :
    (k : Kind) (env : Env) (sig : Bytes) (t : Tx) (s : State)
    → validate_kind k env (signed sig t) s ≡ validate_kind k env t s
unfolding validate_kind validate_register_asset validate_mint validate_burn validate_transfer
    validate_register_account validate_register_contract validate_activate_contract
    validate_execute_contract validate_register_policy validate_register_operator
    validate_register_sku_class validate_record_lot validate_request_redemption
    validate_settle_redemption validate_demurrage validate_adverse_action
validate_kind-unsigned Kind.register_asset env sig t s = refl
validate_kind-unsigned Kind.mint env sig t s = refl
validate_kind-unsigned Kind.burn env sig t s = refl
validate_kind-unsigned Kind.transfer env sig t s = refl
validate_kind-unsigned Kind.register_account env sig t s = refl
validate_kind-unsigned Kind.register_validator env sig t s = refl
validate_kind-unsigned Kind.register_contract env sig t s = refl
validate_kind-unsigned Kind.execute_contract env sig t s = refl
validate_kind-unsigned Kind.activate_contract env sig t s = refl
validate_kind-unsigned Kind.register_policy env sig t s = refl
validate_kind-unsigned Kind.register_operator env sig t s = refl
validate_kind-unsigned Kind.register_sku_class env sig t s = refl
validate_kind-unsigned Kind.record_lot env sig t s = refl
validate_kind-unsigned Kind.request_redemption env sig t s = refl
validate_kind-unsigned Kind.settle_redemption env sig t s = refl
validate_kind-unsigned Kind.apply_demurrage env sig t s = refl
validate_kind-unsigned Kind.adverse_action env sig t s = refl
validate_kind-unsigned Kind.unknown env sig t s = refl

execute_kind-unsigned :
    (k : Kind) (env : Env) (now : ℤ) (sig : Bytes) (t : Tx) (s : State)
    → execute_kind k env now (signed sig t) s ≡ execute_kind k env now t s
unfolding execute_kind execute_register_asset execute_mint execute_burn execute_transfer
    execute_register_account execute_register_contract execute_activate_contract
    execute_execute_contract execute_register_policy execute_register_operator
    execute_register_sku_class execute_record_lot execute_request_redemption
    execute_settle_redemption execute_demurrage execute_adverse_action execute_register_validator
execute_kind-unsigned Kind.register_asset env now sig t s = refl
execute_kind-unsigned Kind.mint env now sig t s = refl
execute_kind-unsigned Kind.burn env now sig t s = refl
execute_kind-unsigned Kind.transfer env now sig t s = refl
execute_kind-unsigned Kind.register_account env now sig t s = refl
execute_kind-unsigned Kind.register_validator env now sig t s = refl
execute_kind-unsigned Kind.register_contract env now sig t s = refl
execute_kind-unsigned Kind.execute_contract env now sig t s = refl
execute_kind-unsigned Kind.activate_contract env now sig t s = refl
execute_kind-unsigned Kind.register_policy env now sig t s = refl
execute_kind-unsigned Kind.register_operator env now sig t s = refl
execute_kind-unsigned Kind.register_sku_class env now sig t s = refl
execute_kind-unsigned Kind.record_lot env now sig t s = refl
execute_kind-unsigned Kind.request_redemption env now sig t s = refl
execute_kind-unsigned Kind.settle_redemption env now sig t s = refl
execute_kind-unsigned Kind.apply_demurrage env now sig t s = refl
execute_kind-unsigned Kind.adverse_action env now sig t s = refl
execute_kind-unsigned Kind.unknown env now sig t s = refl

tx_validate-unsigned :
    (env : Env) (sig : Bytes) (t : Tx)
    → is_empty t.signature ≡ false
    → is_empty sig ≡ false
    → tx_validate env (signed sig t) ≡ tx_validate env t
unfolding tx_validate kind_of
tx_validate-unsigned env sig t h h' = ground (arith, h, h')

-- A signed transaction under any other signature that is not empty is validated and executed the
-- same, whatever its type.
pub execute_tx-unsigned :
    (env : Env) (now : ℤ) (sig : Bytes) (t : Tx) (s : State)
    → is_empty t.signature ≡ false
    → is_empty sig ≡ false
    → (tx_validate env (record t { signature = sig }) ≡ tx_validate env t)
      × (validate_tx env (record t { signature = sig }) s ≡ validate_tx env t s)
      × (execute_tx env now (record t { signature = sig }) s ≡ execute_tx env now t s)
unfolding validate_tx execute_tx kind_of
execute_tx-unsigned env now sig t s h h' = (
  tx_validate-unsigned env sig t h h',
  validate_kind-unsigned (kind_of t) env sig t s,
  execute_kind-unsigned (kind_of t) env now sig t s,
)
