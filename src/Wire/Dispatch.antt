-- ===== src/Wire/Dispatch.antt =====
-- embodiments/shywire/state/state.go, `ValidateTx` and `ExecuteTx`; tx/tx.go, `Validate`; and
-- state/validators.go.
use community.Base.{Bool, true, false, Option, none, some, [], ◌∷◌, ◌++◌, is_empty, if◌then◌else◌}
use community.Base.Result.{Result, ok, err, ◌>>◌, reject}
use community.Data.Base64.{base64_decode}
use community.Data.Bytes.{Bytes, bytes}
use community.Data.GoMap.{insert}
use community.Data.Int64.{ℤ}
use community.Protocol.Events.{text, dec, event, attribute}
use community.Wire.AdverseAction.{validate_adverse_action, execute_adverse_action}
use community.Wire.Contracts.{
  validate_register_contract, execute_register_contract, validate_activate_contract,
  execute_activate_contract,
}
use community.Wire.Contracts.Execution.{validate_execute_contract, execute_execute_contract}
use community.Wire.Custody.{
  validate_register_operator, execute_register_operator, validate_register_sku_class,
  execute_register_sku_class, validate_register_policy, execute_register_policy,
}
use community.Wire.Custody.Demurrage.{validate_demurrage, execute_demurrage}
use community.Wire.Custody.Lots.{validate_record_lot, execute_record_lot}
use community.Wire.Custody.Redemption.{
  validate_request_redemption, execute_request_redemption, validate_settle_redemption,
  execute_settle_redemption,
}
use community.Wire.Env.{Env}
use community.Wire.Errors.{
  Error, unknown_type, invalid_type, missing_signature, missing_data, invalid_payload,
  missing_identity, invalid_base64,
}
use community.Wire.State.{State, Handler}
use community.Wire.Supply.{
  validate_register_asset, execute_register_asset, validate_mint, execute_mint, validate_burn,
  execute_burn,
}
use community.Wire.Transfers.{
  validate_transfer, execute_transfer, validate_register_account, execute_register_account,
}
use community.Wire.Txs.{Tx, Kind, kind_of, ValidatorRegistrationData}
use community.Wire.Txs.Validate.{
  check_mint_data, check_transfer_data, check_register_account_data, check_register_contract_data,
  check_activate_contract_data, check_execute_contract_data, check_policy_data, check_operator_data,
  check_sku_class_data, check_lot_data, check_redemption_data, check_settlement_data,
  check_demurrage_data, check_adverse_action_data,
}

unfoldable pub register_with_key : ValidatorRegistrationData → Option Bytes → Handler
register_with_key d none s = (err invalid_base64, s)
register_with_key d (some raw) s = (
  ok (
      event (bytes "validator_update") (
        attribute (bytes "name") (text d.name) false
        ∷ attribute (bytes "power") (dec d.power) false
        ∷ [])
      ∷ []),
  record s {
    validators =
        insert d.pub_key_base64
          (record { pub_key_base64 = d.pub_key_base64; power = d.power; name = d.name })
          s.validators;
    pending_validator_updates =
        s.pending_validator_updates ++ (record { pub_key = raw; power = d.power }) ∷ [];
    dirty = true;
  },
)

unfoldable pub execute_register_validator : Env → Tx → Handler
unfolding register_with_key
execute_register_validator env t s = elim (env.decode_validator_registration t.payload) [
  | none ↦ (err invalid_payload, s)
  | some d ↦ register_with_key d (base64_decode d.pub_key_base64) s
]

unfoldable pub validate_kind : Kind → Env → Tx → State → Result Error (Unit {0})
validate_kind Kind.register_asset env t s = validate_register_asset env t s
validate_kind Kind.mint env t s = validate_mint env t s
validate_kind Kind.burn env t s = validate_burn env t s
validate_kind Kind.transfer env t s = validate_transfer env t s
validate_kind Kind.register_account env t s = validate_register_account env t s
validate_kind Kind.register_validator env t s = ok tt
validate_kind Kind.register_contract env t s = validate_register_contract env t s
validate_kind Kind.execute_contract env t s = validate_execute_contract env t s
validate_kind Kind.activate_contract env t s = validate_activate_contract env t s
validate_kind Kind.register_policy env t s = validate_register_policy env t s
validate_kind Kind.register_operator env t s = validate_register_operator env t s
validate_kind Kind.register_sku_class env t s = validate_register_sku_class env t s
validate_kind Kind.record_lot env t s = validate_record_lot env t s
validate_kind Kind.request_redemption env t s = validate_request_redemption env t s
validate_kind Kind.settle_redemption env t s = validate_settle_redemption env t s
validate_kind Kind.apply_demurrage env t s = validate_demurrage env t s
validate_kind Kind.adverse_action env t s = validate_adverse_action env t s
validate_kind Kind.unknown env t s = err unknown_type

unfoldable pub execute_kind : Kind → Env → ℤ → Tx → Handler
execute_kind Kind.register_asset env now t = execute_register_asset env now t
execute_kind Kind.mint env now t = execute_mint env now t
execute_kind Kind.burn env now t = execute_burn env now t
execute_kind Kind.transfer env now t = execute_transfer env now t
execute_kind Kind.register_account env now t = execute_register_account env t
execute_kind Kind.register_validator env now t = execute_register_validator env t
execute_kind Kind.register_contract env now t = execute_register_contract env now t
execute_kind Kind.execute_contract env now t = execute_execute_contract env now t
execute_kind Kind.activate_contract env now t = execute_activate_contract env now t
execute_kind Kind.register_policy env now t = execute_register_policy env now t
execute_kind Kind.register_operator env now t = execute_register_operator env now t
execute_kind Kind.register_sku_class env now t = execute_register_sku_class env now t
execute_kind Kind.record_lot env now t = execute_record_lot env now t
execute_kind Kind.request_redemption env now t = execute_request_redemption env now t
execute_kind Kind.settle_redemption env now t = execute_settle_redemption env now t
execute_kind Kind.apply_demurrage env now t = execute_demurrage env now t
execute_kind Kind.adverse_action env now t = execute_adverse_action env now t
execute_kind Kind.unknown env now t = λ s. (err unknown_type, s)

unfoldable pub validate_tx : Env → Tx → State → Result Error (Unit {0})
unfolding kind_of validate_kind
validate_tx env t s = validate_kind (kind_of t) env t s

unfoldable pub execute_tx : Env → ℤ → Tx → Handler
unfolding kind_of execute_kind
execute_tx env now t = execute_kind (kind_of t) env now t

-- a payload that decodes, and passes its tests
abbrev pub decoded :
    {D : Type 0} → Option D → (D → Result Error (Unit {0})) → Result Error (Unit {0})
decoded none f = err invalid_payload
decoded (some d) f = f d

-- The `switch` of `Tx.Validate`; a burn is read as a mint, and a validator is not looked at.
unfoldable pub check_kind : Kind → Env → Bytes → Result Error (Unit {0})
check_kind Kind.register_asset env raw =
    decoded (env.decode_register_asset raw) (λ d. reject (is_empty d.asset_id) missing_identity)
check_kind Kind.mint env raw = decoded (env.decode_mint raw) check_mint_data
check_kind Kind.burn env raw = decoded (env.decode_mint raw) check_mint_data
check_kind Kind.transfer env raw = decoded (env.decode_transfer raw) check_transfer_data
check_kind Kind.register_account env raw =
    decoded (env.decode_register_account raw) check_register_account_data
check_kind Kind.register_validator env raw = ok tt
check_kind Kind.register_contract env raw =
    decoded (env.decode_register_contract raw) check_register_contract_data
check_kind Kind.execute_contract env raw =
    decoded (env.decode_execute_contract raw) check_execute_contract_data
check_kind Kind.activate_contract env raw =
    decoded (env.decode_activate_contract raw) check_activate_contract_data
check_kind Kind.register_policy env raw =
    decoded (env.decode_register_consortium_policy raw) check_policy_data
check_kind Kind.register_operator env raw =
    decoded (env.decode_register_warehouse_operator raw) check_operator_data
check_kind Kind.register_sku_class env raw =
    decoded (env.decode_register_accepted_sku_class raw) check_sku_class_data
check_kind Kind.record_lot env raw =
    decoded (env.decode_record_custody_intake_lot raw) check_lot_data
check_kind Kind.request_redemption env raw =
    decoded (env.decode_request_custody_redemption raw) check_redemption_data
check_kind Kind.settle_redemption env raw =
    decoded (env.decode_settle_custody_redemption raw) check_settlement_data
check_kind Kind.apply_demurrage env raw =
    decoded (env.decode_apply_custody_demurrage raw) check_demurrage_data
check_kind Kind.adverse_action env raw =
    decoded (env.decode_adverse_action raw) check_adverse_action_data
check_kind Kind.unknown env raw = err invalid_type

abbrev is_unknown : Kind → Bool
is_unknown Kind.unknown = true
is_unknown Kind.mint = false
is_unknown _ = false

unfoldable pub tx_validate : Env → Tx → Result Error (Unit {0})
unfolding kind_of check_kind
tx_validate env t = if is_unknown (kind_of t) then err invalid_type else do
  reject (is_empty t.signature) missing_signature
  reject (is_empty t.payload) missing_data
  check_kind (kind_of t) env t.payload
