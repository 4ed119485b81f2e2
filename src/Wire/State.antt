-- ===== src/Wire/State.antt =====
-- embodiments/shywire/state/state.go: the in-memory state and the writes that the handlers share. A
-- Go map of pointers is a map of the records: no two entries share one.
use community.Base.{
  Bool, true, false, ◌&&◌, not, none, some, List, [], ◌∷◌, ◌++◌, if◌then◌else◌, is_empty,
}
use community.Base.Exec.{Exec}
use community.Base.Result.{Result, ok, err}
use community.Data.Bytes.{Bytes, ◌==◌}
use community.Data.GoMap.{GoMap, lookup, insert}
use community.Data.Int64.{ℤ, pos, ◌+ℤ◌, ◌-ℤ◌}
use community.Protocol.Events.{Event}
use community.Wire.Errors.{Error, panic, keys_not_distinct}
use community.Wire.Types.{
  AssetRecord, AccountRecord, SupplyRecord, TransferRecord, ParticipantRecord, ContractRecord,
  ContractExecutionRecord, ConsortiumPolicyRecord, WarehouseOperatorRecord, AcceptedSkuClassRecord,
  IntakeLotRecord, RedemptionRequestRecord, RedemptionSettlementRecord, DemurrageAssessmentRecord,
  EnrollmentRecord, AuthorityActionRecord,
}

-- state/validators.go
pub record ValidatorRecord : Type 0 where
  pub pub_key_base64 : Bytes
  pub power : ℤ
  pub name : Bytes

-- `abcitypes.ValidatorUpdate` with an Ed25519 key
pub record ValidatorUpdate : Type 0 where
  pub pub_key : Bytes
  pub power : ℤ

pub record Options : Type 0 where
  pub enrollment_authority_pub_key : Bytes
  pub eligibility_authority_pub_key : Bytes
  pub reconciliation_authority_pub_key : Bytes

pub record State : Type 0 where
  pub options : Options
  pub assets : GoMap AssetRecord
  pub accounts : GoMap AccountRecord
  pub supply : GoMap SupplyRecord
  pub transfer_records : GoMap TransferRecord
  pub participants : GoMap ParticipantRecord
  pub contracts : GoMap ContractRecord
  pub contract_executions : GoMap ContractExecutionRecord
  pub consortium_policies : GoMap ConsortiumPolicyRecord
  pub warehouse_operators : GoMap WarehouseOperatorRecord
  pub accepted_sku_classes : GoMap AcceptedSkuClassRecord
  pub intake_lots : GoMap IntakeLotRecord
  pub redemption_requests : GoMap RedemptionRequestRecord
  pub redemption_settlements : GoMap RedemptionSettlementRecord
  pub demurrage_assessments : GoMap DemurrageAssessmentRecord
  pub enrollment_records : GoMap EnrollmentRecord
  pub authority_actions : GoMap AuthorityActionRecord
  pub validators : GoMap ValidatorRecord
  pub current_custody_policy_id : Bytes
  pub pending_validator_updates : List ValidatorUpdate
  pub height : ℤ
  pub app_hash : Bytes
  pub dirty : Bool

abbrev pub Handler : Type 0
Handler = Exec Error State (List Event)

abbrev pub empty_state : Options → State
empty_state options = record {
  options = options;
  assets = [];
  accounts = [];
  supply = [];
  transfer_records = [];
  participants = [];
  contracts = [];
  contract_executions = [];
  consortium_policies = [];
  warehouse_operators = [];
  accepted_sku_classes = [];
  intake_lots = [];
  redemption_requests = [];
  redemption_settlements = [];
  demurrage_assessments = [];
  enrollment_records = [];
  authority_actions = [];
  validators = [];
  current_custody_policy_id = [];
  pending_validator_updates = [];
  height = pos 0;
  app_hash = [];
  dirty = false;
}

-- `NewStateWithOptions` over an empty database
unfoldable pub new_state_with_options : Options → Result Error State
new_state_with_options o =
    if not (is_empty o.eligibility_authority_pub_key)
      && not (is_empty o.reconciliation_authority_pub_key)
      && o.eligibility_authority_pub_key == o.reconciliation_authority_pub_key
    then err keys_not_distinct
    else ok (empty_state o)

-- `assetID + ":" + commitment`, the key of an account
unfoldable pub account_key : Bytes → Bytes → Bytes
account_key asset_id commitment = asset_id ++ 58 ∷ commitment

-- the asset id under which a commitment is registered
abbrev pub sentinel : Bytes
sentinel = 95 ∷ []

-- `s.accounts[key]` with writes to its fields; a missing key is a nil dereference
unfoldable pub update_account :
    Bytes → (AccountRecord → AccountRecord) → Exec Error State (Unit {0})
update_account key f s = elim (lookup key s.accounts) [
  | none ↦ (err panic, s)
  | some a ↦ (ok tt, record s { accounts = insert key (f a) s.accounts })
]

-- `acct.Balance += amount`, `acct.Balance -= amount`
abbrev pub credit : ℤ → AccountRecord → AccountRecord
credit amount a = record a { balance = a.balance +ℤ amount }

abbrev pub debit : ℤ → AccountRecord → AccountRecord
debit amount a = record a { balance = a.balance -ℤ amount }

-- `acct.UpdatedAt = now; acct.Height = s.height`
abbrev pub touch : ℤ → ℤ → AccountRecord → AccountRecord
touch now height a = record a { updated_at = now; height = height }

-- `s.dirty = true; return events, nil`
unfoldable pub done : List Event → Handler
done events s = (ok events, record s { dirty = true })

-- the supply record of an asset, and the total of the asset beside it
unfoldable pub update_supply : Bytes → (SupplyRecord → SupplyRecord) → Exec Error State (Unit {0})
update_supply asset_id f s = elim (lookup asset_id s.supply) [
  | none ↦ (err panic, s)
  | some sup ↦
      let sup' = f sup in
      let s' = record s { supply = insert asset_id sup' s.supply } in
      elim (lookup asset_id s.assets) [
        | none ↦ (err panic, s')
        | some a ↦ (
          ok tt,
          record s' {
            assets = insert asset_id (record a { total_supply = sup'.total_supply }) s.assets;
          },
        )
      ]
]

-- the three writes of a mint, and those of a burn
abbrev pub add_minted : ℤ → ℤ → SupplyRecord → SupplyRecord
add_minted now amount sup =
    let minted = sup.total_minted +ℤ amount in
    record sup {
      total_minted = minted;
      total_supply = minted -ℤ sup.total_burned;
      updated_at = now;
    }

abbrev pub add_burned : ℤ → ℤ → SupplyRecord → SupplyRecord
add_burned now amount sup =
    let burned = sup.total_burned +ℤ amount in
    record sup {
      total_burned = burned;
      total_supply = sup.total_minted -ℤ burned;
      updated_at = now;
    }
