-- ===== src/Wire/Query.antt =====
-- embodiments/shywire/state/state.go, `Query`, before the JSON; and types/transfer.go, the record of a
-- transfer that it shows. The actions of an account are listed in the order of the map.
pub mod Paths
use community.Base.{
  ℕ, Bool, true, false, not, ◌&&◌, ◌||◌, Option, none, some, List, [], ◌∷◌, ◌++◌, is_some, is_empty,
  eqb, if◌then◌else◌,
}
use community.Data.Bytes.{Bytes, bytes, ◌==◌, has_prefix}
use community.Data.GoMap.{GoMap, lookup}
use community.Data.Int64.{ℤ}
use community.Data.Sort.{sort_strings}
use community.Voting.Storage.{map_keys, drop_bytes}
use community.Wire.State.{State, account_key}
use community.Wire.Types.{
  AssetRecord, SupplyRecord, AccountRecord, TransferRecord, ContractRecord, ContractExecutionRecord,
  ConsortiumPolicyRecord, WarehouseOperatorRecord, AcceptedSkuClassRecord, IntakeLotRecord,
  RedemptionRequestRecord, RedemptionSettlementRecord, DemurrageAssessmentRecord,
  AuthorityActionRecord,
}

pub record PublicTransferRecord : Type 0 where
  pub transfer_id : Bytes
  pub asset_id : Bytes
  pub timestamp : ℤ
  pub height : ℤ

-- what is marshalled
pub data Answer : Type 0 where
  one_asset : AssetRecord → Answer
  one_supply : SupplyRecord → Answer
  one_account : AccountRecord → Answer
  presence : Bool → Answer
  public_transfer : PublicTransferRecord → Answer
  one_contract : ContractRecord → Answer
  one_execution : ContractExecutionRecord → Answer
  all_policies : List ConsortiumPolicyRecord → Answer
  one_policy : ConsortiumPolicyRecord → Answer
  all_operators : List WarehouseOperatorRecord → Answer
  one_operator : WarehouseOperatorRecord → Answer
  all_skus : List AcceptedSkuClassRecord → Answer
  one_sku : AcceptedSkuClassRecord → Answer
  all_lots : List IntakeLotRecord → Answer
  one_lot : IntakeLotRecord → Answer
  all_redemptions : List RedemptionRequestRecord → Answer
  one_redemption : RedemptionRequestRecord → Answer
  all_settlements : List RedemptionSettlementRecord → Answer
  one_settlement : RedemptionSettlementRecord → Answer
  all_assessments : List DemurrageAssessmentRecord → Answer
  one_assessment : DemurrageAssessmentRecord → Answer
  account_actions : List AuthorityActionRecord → Answer

-- a record that is looked up, or the error that it is not found
abbrev pub found_as : {V : Type 0} → (V → Answer) → Option V → Option Answer
found_as f none = none
found_as f (some v) = some (f v)

module _ {V : Type 0} where
  abbrev add_found : Option V → List V → List V
  add_found none vs = vs
  add_found (some v) vs = v ∷ vs

  abbrev at_keys : GoMap V → List Bytes → List V
  at_keys m [] = []
  at_keys m (k ∷ ks) = add_found (lookup k m) (at_keys m ks)

  -- `sortedRecords`
  unfoldable pub sorted_records : GoMap V → List V
  unfolding map_keys
  sorted_records m = at_keys m (sort_strings (map_keys m))

abbrev push_first : ℕ → Option (Bytes × Bytes) → Option (Bytes × Bytes)
push_first c none = none
push_first c (some (a, b)) = some (c ∷ a, b)

-- `strings.SplitN(s, "/", 2)`, where it has two parts
unfoldable pub split_slash : Bytes → Option (Bytes × Bytes)
split_slash [] = none
split_slash (c ∷ s) =
    let rest = split_slash s in if eqb c 47 then some ([], s) else push_first c rest

unfoldable pub is_action_of : Bytes → Bytes → AuthorityActionRecord → Bool
is_action_of asset_id commitment r =
    r.account_commitment == commitment && (r.asset_id == asset_id || is_empty r.asset_id)

-- the loop over the actions
unfoldable pub actions_of : Bytes → Bytes → GoMap AuthorityActionRecord → List AuthorityActionRecord
unfolding is_action_of
actions_of asset_id commitment [] = []
actions_of asset_id commitment ((k, r) ∷ m) =
    let rest = actions_of asset_id commitment m in
    if is_action_of asset_id commitment r then r ∷ rest else rest

abbrev query_account : Option (Bytes × Bytes) → GoMap AccountRecord → Option Answer
query_account none m = none
query_account (some (asset_id, commitment)) m =
    found_as one_account (lookup (account_key asset_id commitment) m)

abbrev pub query_actions : Option (Bytes × Bytes) → GoMap AuthorityActionRecord → Option Answer
query_actions none m = none
query_actions (some (asset_id, commitment)) m =
    if is_empty asset_id || is_empty commitment
    then none
    else some (account_actions (actions_of asset_id commitment m))

abbrev pub public_record : TransferRecord → PublicTransferRecord
public_record r = record {
  transfer_id = r.transfer_id;
  asset_id = r.asset_id;
  timestamp = r.timestamp;
  height = r.height;
}

-- the cases from "/custody/policies" on
unfoldable pub query_custody : Bytes → State → Option Answer
unfolding sorted_records drop_bytes has_prefix split_slash actions_of
query_custody path s =
    if path == bytes "/custody/policies"
    then some (all_policies (sorted_records s.consortium_policies))
    else if path == bytes "/custody/policies/current"
    then (if is_empty s.current_custody_policy_id
        then none
        else found_as one_policy (lookup s.current_custody_policy_id s.consortium_policies))
    else if has_prefix path (bytes "/custody/policies/")
    then found_as one_policy
        (lookup (drop_bytes (bytes "/custody/policies/") path) s.consortium_policies)
    else if path == bytes "/custody/operators"
    then some (all_operators (sorted_records s.warehouse_operators))
    else if has_prefix path (bytes "/custody/operators/")
    then found_as one_operator
        (lookup (drop_bytes (bytes "/custody/operators/") path) s.warehouse_operators)
    else if path == bytes "/custody/skus"
    then some (all_skus (sorted_records s.accepted_sku_classes))
    else if has_prefix path (bytes "/custody/skus/")
    then found_as one_sku (lookup (drop_bytes (bytes "/custody/skus/") path) s.accepted_sku_classes)
    else if path == bytes "/custody/lots"
    then some (all_lots (sorted_records s.intake_lots))
    else if has_prefix path (bytes "/custody/lots/")
    then found_as one_lot (lookup (drop_bytes (bytes "/custody/lots/") path) s.intake_lots)
    else if path == bytes "/custody/redemptions"
    then some (all_redemptions (sorted_records s.redemption_requests))
    else if has_prefix path (bytes "/custody/redemptions/")
    then found_as one_redemption
        (lookup (drop_bytes (bytes "/custody/redemptions/") path) s.redemption_requests)
    else if path == bytes "/custody/settlements"
    then some (all_settlements (sorted_records s.redemption_settlements))
    else if has_prefix path (bytes "/custody/settlements/")
    then found_as one_settlement
        (lookup (drop_bytes (bytes "/custody/settlements/") path) s.redemption_settlements)
    else if path == bytes "/custody/demurrage"
    then some (all_assessments (sorted_records s.demurrage_assessments))
    else if has_prefix path (bytes "/custody/demurrage/")
    then found_as one_assessment
        (lookup (drop_bytes (bytes "/custody/demurrage/") path) s.demurrage_assessments)
    else if has_prefix path (bytes "/authority_actions/")
    then query_actions (split_slash (drop_bytes (bytes "/authority_actions/") path))
        s.authority_actions
    else none

unfoldable pub query : Bytes → State → Option Answer
unfolding query_custody drop_bytes has_prefix split_slash
query path s =
    if has_prefix path (bytes "/asset/")
    then found_as one_asset (lookup (drop_bytes (bytes "/asset/") path) s.assets)
    else if has_prefix path (bytes "/supply/")
    then found_as one_supply (lookup (drop_bytes (bytes "/supply/") path) s.supply)
    else if has_prefix path (bytes "/balance/")
    then query_account (split_slash (drop_bytes (bytes "/balance/") path)) s.accounts
    else if has_prefix path (bytes "/transfer_exists/")
    then some (
        presence
          (is_some (lookup (drop_bytes (bytes "/transfer_exists/") path) s.transfer_records)))
    else if has_prefix path (bytes "/transfer/")
    then found_as (λ r. public_transfer (public_record r))
        (lookup (drop_bytes (bytes "/transfer/") path) s.transfer_records)
    else if has_prefix path (bytes "/contract/")
    then found_as one_contract (lookup (drop_bytes (bytes "/contract/") path) s.contracts)
    else if has_prefix path (bytes "/contract/execution/")
    then found_as one_execution
        (lookup (drop_bytes (bytes "/contract/execution/") path) s.contract_executions)
    else query_custody path s
