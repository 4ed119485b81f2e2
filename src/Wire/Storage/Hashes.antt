-- ===== src/Wire/Storage/Hashes.antt =====
-- embodiments/shywire/state/state.go, `computeAppHash`: what the application hash depends on.
use community.Base.{◌≡◌, ap, ap₂, ◌++◌}
use community.Data.Bytes.{Bytes}
use community.Voting.Storage.Hashes.{SameMap, hash_map-SameMap}
use community.Wire.State.{State}
use community.Wire.Storage.{Codecs, compute_app_hash}

-- The sixteen maps that the hash covers are the same, in any arrangement, and so is the policy.
pub record SameMaps (s t : State) : Type 0 where
  pub assets : SameMap s.assets t.assets
  pub supply : SameMap s.supply t.supply
  pub accounts : SameMap s.accounts t.accounts
  pub transfer_records : SameMap s.transfer_records t.transfer_records
  pub participants : SameMap s.participants t.participants
  pub contracts : SameMap s.contracts t.contracts
  pub contract_executions : SameMap s.contract_executions t.contract_executions
  pub consortium_policies : SameMap s.consortium_policies t.consortium_policies
  pub warehouse_operators : SameMap s.warehouse_operators t.warehouse_operators
  pub accepted_sku_classes : SameMap s.accepted_sku_classes t.accepted_sku_classes
  pub intake_lots : SameMap s.intake_lots t.intake_lots
  pub redemption_requests : SameMap s.redemption_requests t.redemption_requests
  pub redemption_settlements : SameMap s.redemption_settlements t.redemption_settlements
  pub demurrage_assessments : SameMap s.demurrage_assessments t.demurrage_assessments
  pub enrollment_records : SameMap s.enrollment_records t.enrollment_records
  pub authority_actions : SameMap s.authority_actions t.authority_actions
  pub policy : s.current_custody_policy_id ≡ t.current_custody_policy_id

-- Two states whose sixteen hashed maps have the same entries, arranged in any way, and that have the
-- same current policy, have the same application hash; their validators may differ at will.
pub app_hash-SameMaps :
    (sha256 : Bytes → Bytes) (c : Codecs) (s t : State)
    → SameMaps s t
    → compute_app_hash sha256 c s ≡ compute_app_hash sha256 c t
unfolding compute_app_hash
app_hash-SameMaps sha256 c s t same = ap sha256 (
    ap₂ ◌++◌ (hash_map-SameMap c.asset s.assets t.assets same.assets) (
      ap₂ ◌++◌ (hash_map-SameMap c.supply s.supply t.supply same.supply) (
        ap₂ ◌++◌ (hash_map-SameMap c.account s.accounts t.accounts same.accounts) (
          ap₂ ◌++◌
            (hash_map-SameMap c.transfer s.transfer_records t.transfer_records
              same.transfer_records)
            (ap₂ ◌++◌
              (hash_map-SameMap c.participant s.participants t.participants same.participants)
              (ap₂ ◌++◌ (hash_map-SameMap c.contract s.contracts t.contracts same.contracts) (
                ap₂ ◌++◌
                  (hash_map-SameMap c.execution s.contract_executions t.contract_executions
                    same.contract_executions)
                  (ap₂ ◌++◌
                    (hash_map-SameMap c.policy s.consortium_policies t.consortium_policies
                      same.consortium_policies)
                    (ap₂ ◌++◌
                      (hash_map-SameMap c.operator s.warehouse_operators t.warehouse_operators
                        same.warehouse_operators)
                      (ap₂ ◌++◌
                        (hash_map-SameMap c.sku s.accepted_sku_classes t.accepted_sku_classes
                          same.accepted_sku_classes)
                        (ap₂ ◌++◌
                          (hash_map-SameMap c.lot s.intake_lots t.intake_lots same.intake_lots)
                          (ap₂ ◌++◌
                            (hash_map-SameMap c.request s.redemption_requests t.redemption_requests
                              same.redemption_requests)
                            (ap₂ ◌++◌
                              (hash_map-SameMap c.settlement s.redemption_settlements
                                t.redemption_settlements same.redemption_settlements)
                              (ap₂ ◌++◌
                                (hash_map-SameMap c.assessment s.demurrage_assessments
                                  t.demurrage_assessments same.demurrage_assessments)
                                (ap₂ ◌++◌
                                  (hash_map-SameMap c.enrollment s.enrollment_records
                                    t.enrollment_records same.enrollment_records)
                                  (ap₂ ◌++◌
                                    (hash_map-SameMap c.action s.authority_actions
                                      t.authority_actions same.authority_actions)
                                    (same.policy)))))))))))))))))
