-- ===== src/Wire/Ledger/Sound.antt =====
-- embodiments/shywire/state/state.go, `ExecuteTx`: what each type of transaction needs, and what
-- its handler then does.
use community.Base.{
  ◌+◌, ◌<◌, ◌^◌, ◌≡◌, subst, true, false, Option, none, some, is_some, is_empty, arith, ◌≢◌, List,
}
use community.Base.Result.{Result, ok, err, is_ok}
use community.Data.Bytes.{Bytes}
use community.Data.GoMap.{lookup}
use community.Data.Int64.{ℤ, pos, pos_part, ◌<ℤ◌}
use community.Protocol.Events.{Event}
use community.Wire.Contracts.Execution.{bears_value}
use community.Wire.Dispatch.{decoded}
use community.Wire.Env.{Env}
use community.Wire.Errors.{Error, invalid_payload, panic}
use community.Wire.Ledger.{NoColon, IsBacked}
use community.Wire.Ledger.Registration.{TakesNothing}
use community.Wire.State.{State}
use community.Wire.Txs.{
  Kind, MintData, BurnData, RegisterAssetData, ExecuteContractData, AdverseActionData, TransferData,
  SettleCustodyRedemptionData, ApplyCustodyDemurrageData,
}
use community.Wire.Txs.Validate.{
  not_positive, check_mint_data, check_transfer_data, check_settlement_data, check_demurrage_data,
}
use community.Wire.Types.{SupplyRecord, RedemptionRequestRecord}

-- the tests of a payload, once it is decoded
pub decoded_tests :
    {D : Type 0} (o : Option D) (f : D → Result Error (Unit {0})) (d : D)
    → decoded o f ≡ ok tt
    → o ≡ some d
    → f d ≡ ok tt
decoded_tests o f d h e = subst (λ z. decoded z f ≡ ok tt) e h

-- the same, where the tests of a payload are written out
pub opened_tests :
    {D : Type 0} (o : Option D) (f : D → Result Error (Unit {0})) (d : D)
    → elim o as (λ _. Result Error (Unit {0})) [ none ↦ err invalid_payload | some x ↦ f x ] ≡ ok tt
    → o ≡ some d
    → f d ≡ ok tt
opened_tests o f d h e =
    subst
      (λ z.
        elim z as (λ _. Result Error (Unit {0})) [ none ↦ err invalid_payload | some x ↦ f x ]
        ≡ ok tt)
      e h

positive : (z : ℤ) → not_positive z ≡ false → pos 0 <ℤ z
positive z h = ground arith

-- `json.Unmarshal` reads a burn as it reads a mint: the structures have the same fields.
pub record BurnReadsAsMint (env : Env) : Type 0 where
  pub alike :
      (raw : Bytes) (d : BurnData)
      → env.decode_burn raw ≡ some d
      → (d' : MintData) × (env.decode_mint raw ≡ some d') × (d'.amount ≡ d.amount)

-- The side conditions under which a transaction of a type keeps a state backed.
abbrev pub Conserving : Kind → Env → Bytes → State → Type 0
Conserving Kind.register_asset env raw s =
    (d : RegisterAssetData) → env.decode_register_asset raw ≡ some d → NoColon d.asset_id
Conserving Kind.mint env raw s =
    (d : MintData)
    → env.decode_mint raw ≡ some d
    → (sup : SupplyRecord) → lookup d.asset_id s.supply ≡ some sup
    → pos_part sup.total_minted + pos_part d.amount < 2 ^ 63
Conserving Kind.execute_contract env raw s =
    (d : ExecuteContractData)
    → env.decode_execute_contract raw ≡ some d
    → NoColon d.asset_id × (bears_value d ≡ true → is_empty d.counterparty_commitment ≡ false)
Conserving Kind.settle_redemption env raw s =
    (d : SettleCustodyRedemptionData) (r : RedemptionRequestRecord)
    → env.decode_settle_custody_redemption raw ≡ some d
    → lookup d.request_id s.redemption_requests ≡ some r
    → is_some (lookup r.asset_id s.assets) ≡ true
Conserving Kind.apply_demurrage env raw s =
    (d : ApplyCustodyDemurrageData)
    → env.decode_apply_custody_demurrage raw ≡ some d
    → is_some (lookup d.asset_id s.assets) ≡ true
Conserving Kind.adverse_action env raw s =
    (d : AdverseActionData) → env.decode_adverse_action raw ≡ some d → TakesNothing d
Conserving Kind.burn env raw s = Unit
Conserving _ env raw s = Unit

pub check_mint_data-positive : (d : MintData) → check_mint_data d ≡ ok tt → pos 0 <ℤ d.amount
unfolding check_mint_data
check_mint_data-positive d h = positive d.amount (ground arith)

pub check_transfer_data-positive :
    (d : TransferData) → check_transfer_data d ≡ ok tt → pos 0 <ℤ d.amount
unfolding check_transfer_data
check_transfer_data-positive d h = positive d.amount (ground arith)

pub check_settlement_data-positive :
    (d : SettleCustodyRedemptionData) → check_settlement_data d ≡ ok tt → pos 0 <ℤ d.burn_amount
unfolding check_settlement_data
check_settlement_data-positive d h = positive d.burn_amount (ground arith)

pub check_demurrage_data-positive :
    (d : ApplyCustodyDemurrageData) → check_demurrage_data d ≡ ok tt → pos 0 <ℤ d.amount
unfolding check_demurrage_data
check_demurrage_data-positive d h = positive d.amount (ground arith)

-- A handler that ends without a panic, in a backed state.
abbrev pub Sound : Result Error (List Event) × State → Type 0
Sound r = (r.0 ≢ err panic) × IsBacked r.1

ok_is_no_panic : (r : Result Error (List Event)) → is_ok r ≡ true → r ≢ err panic
ok_is_no_panic (ok events) h e = absurd (ground arith)
ok_is_no_panic (err x) h e = absurd (ground arith)

pub invalid_is_no_panic : ◌≢◌ {A = Result Error (List Event)} (err invalid_payload) (err panic)
invalid_is_no_panic e = absurd (ground arith)

pub succeeds : (r : Result Error (List Event) × State) → is_ok r.0 ≡ true → IsBacked r.1 → Sound r
succeeds r h b = (ok_is_no_panic r.0 h, b)
