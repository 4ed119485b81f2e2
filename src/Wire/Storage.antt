-- ===== src/Wire/Storage.antt =====
-- embodiments/shywire/state/state.go, `Commit` and `computeAppHash`: the key-value store under the
-- state. The store keeps what it is given; its own errors are left out, and so is the failure of JSON.
pub mod Durable
pub mod Hashes
use community.Base.{Bool, true, false, List, [], ◌∷◌, ◌++◌, if◌then◌else◌}
use community.Data.Bytes.{Bytes, bytes}
use community.Data.Decimal.{format_dec}
use community.Data.GoMap.{GoMap, insert}
use community.Data.Int64.{ℤ, pos, ◌+ℤ◌}
use community.Voting.Storage.{Codec, Database, put_all, hash_map}
use community.Wire.State.{State, ValidatorRecord}
use community.Wire.Types.{
  AssetRecord, AccountRecord, SupplyRecord, TransferRecord, ParticipantRecord, ContractRecord,
  ContractExecutionRecord, ConsortiumPolicyRecord, WarehouseOperatorRecord, AcceptedSkuClassRecord,
  IntakeLotRecord, RedemptionRequestRecord, RedemptionSettlementRecord, DemurrageAssessmentRecord,
  EnrollmentRecord, AuthorityActionRecord,
}

-- encoding/json for each type of record
pub record Codecs : Type 0 where
  pub asset : Codec AssetRecord
  pub account : Codec AccountRecord
  pub supply : Codec SupplyRecord
  pub transfer : Codec TransferRecord
  pub participant : Codec ParticipantRecord
  pub contract : Codec ContractRecord
  pub execution : Codec ContractExecutionRecord
  pub policy : Codec ConsortiumPolicyRecord
  pub operator : Codec WarehouseOperatorRecord
  pub sku : Codec AcceptedSkuClassRecord
  pub lot : Codec IntakeLotRecord
  pub request : Codec RedemptionRequestRecord
  pub settlement : Codec RedemptionSettlementRecord
  pub assessment : Codec DemurrageAssessmentRecord
  pub enrollment : Codec EnrollmentRecord
  pub action : Codec AuthorityActionRecord
  pub validator : Codec ValidatorRecord

-- the loops over assets, accounts and supply
unfoldable pub put_ledger : Codecs → State → Database → Database
unfolding put_all
put_ledger c s db =
    put_all c.supply (bytes "supply:") s.supply (
      put_all c.account (bytes "account:") s.accounts
        (put_all c.asset (bytes "asset:") s.assets db))

-- the loops over the two lists and the contracts
unfoldable pub put_lists : Codecs → State → Database → Database
unfolding put_all
put_lists c s db = put_all c.execution (bytes "contract_execution:") s.contract_executions (
    put_all c.contract (bytes "contract:") s.contracts (
      put_all c.participant (bytes "participant:") s.participants
        (put_all c.transfer (bytes "transfer:") s.transfer_records db)))

-- the loops over the custody
unfoldable pub put_custody : Codecs → State → Database → Database
unfolding put_all
put_custody c s db = put_all c.assessment (bytes "custody_demurrage:") s.demurrage_assessments (
    put_all c.settlement (bytes "custody_settlement:") s.redemption_settlements (
      put_all c.request (bytes "custody_redemption:") s.redemption_requests (
        put_all c.lot (bytes "custody_lot:") s.intake_lots (
          put_all c.sku (bytes "custody_sku:") s.accepted_sku_classes (
            put_all c.operator (bytes "custody_operator:") s.warehouse_operators
              (put_all c.policy (bytes "custody_policy:") s.consortium_policies db))))))

-- the loops over enrolments, actions of the authorities and validators
unfoldable pub put_authority : Codecs → State → Database → Database
unfolding put_all
put_authority c s db = put_all c.validator (bytes "validator:") s.validators (
    put_all c.action (bytes "authority_action:") s.authority_actions
      (put_all c.enrollment (bytes "enrollment:") s.enrollment_records db))

unfoldable pub put_state : Codecs → State → Database → Database
unfolding put_ledger put_lists put_custody put_authority
put_state c s db = put_authority c s (put_custody c s (put_lists c s (put_ledger c s db)))

-- `computeAppHash`: the validators are not among the maps.
unfoldable pub compute_app_hash : (Bytes → Bytes) → Codecs → State → Bytes
unfolding hash_map
compute_app_hash sha256 c s = sha256 (
    hash_map c.asset s.assets
    ++ (hash_map c.supply s.supply
        ++ (hash_map c.account s.accounts
            ++ (hash_map c.transfer s.transfer_records
                ++ (hash_map c.participant s.participants
                    ++ (hash_map c.contract s.contracts
                        ++ (hash_map c.execution s.contract_executions
                            ++ (hash_map c.policy s.consortium_policies
                                ++ (hash_map c.operator s.warehouse_operators
                                    ++ (hash_map c.sku s.accepted_sku_classes
                                        ++ (hash_map c.lot s.intake_lots
                                            ++ (hash_map c.request s.redemption_requests
                                                ++ (hash_map c.settlement s.redemption_settlements
                                                    ++ (hash_map c.assessment
                                                          s.demurrage_assessments
                                                        ++ (hash_map c.enrollment
                                                            s.enrollment_records
                                                            ++ (hash_map c.action
                                                            s.authority_actions
                                                            ++ (s.current_custody_policy_id)))))))))))))))))

-- the last three writes
unfoldable pub put_state_and_hash : Codecs → Bytes → ℤ → State → Database → Database
unfolding put_state
put_state_and_hash c hash height s db =
    insert (bytes "custody_policy_current") s.current_custody_policy_id (
      insert (bytes "app_hash") hash
        (insert (bytes "height") (format_dec height) (put_state c s db)))

-- `Commit`: the application hash, the state and the store. Without a change nothing happens.
unfoldable pub commit : (Bytes → Bytes) → Codecs → State → Database → Bytes × State × Database
unfolding put_state_and_hash compute_app_hash
commit sha256 c s db =
    let hash = compute_app_hash sha256 c s in
    let height = s.height +ℤ pos 1 in
    if s.dirty
    then (
      hash,
      record s { app_hash = hash; height = height; dirty = false },
      put_state_and_hash c hash height s db,
    )
    else (s.app_hash, s, db)
