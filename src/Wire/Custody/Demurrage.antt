-- ===== src/Wire/Custody/Demurrage.antt =====
-- embodiments/shywire/state/custody.go: the storage charge on an account.
use community.Base.{List, true, false, none, some, [], ◌∷◌}
use community.Base.Exec.{◌>>◌, modify, pure}
use community.Base.Result.{Result, err}
use community.Data.Bytes.{bytes, ◌==◌}
use community.Data.GoMap.{lookup, insert}
use community.Data.Int64.{ℤ}
use community.Protocol.Events.{Event, text, event, attribute}
use community.Wire.Env.{Env}
use community.Wire.Errors.{
  Error, invalid_payload, assessment_exists, unknown_policy, asset_mismatch,
}
use community.Wire.State.{State, Handler, account_key}
use community.Wire.Supply.{check_funds, burn_from}
use community.Wire.Txs.{Tx, ApplyCustodyDemurrageData}
use community.Wire.Types.{DemurrageAssessmentRecord}

unfoldable pub check_demurrage : ApplyCustodyDemurrageData → State → Result Error (Unit {0})
unfolding check_funds
check_demurrage d s = elim (lookup d.assessment_id s.demurrage_assessments) [
  | some _ ↦ err assessment_exists
  | none ↦ elim (lookup d.policy_id s.consortium_policies) [
    | none ↦ err unknown_policy
    | some p ↦ elim (p.asset_id == d.asset_id) [
      | false ↦ err asset_mismatch
      | true ↦ check_funds (account_key d.asset_id d.account_commitment) d.amount s
    ]
  ]
]

unfoldable pub validate_demurrage : Env → Tx → State → Result Error (Unit {0})
unfolding check_demurrage
validate_demurrage env t s = elim (env.decode_apply_custody_demurrage t.payload) [
  | none ↦ err invalid_payload
  | some d ↦ check_demurrage d s
]

abbrev assessment : ℤ → ApplyCustodyDemurrageData → DemurrageAssessmentRecord
assessment height d = record {
  assessment_id = d.assessment_id;
  asset_id = d.asset_id;
  account_commitment = d.account_commitment;
  policy_id = d.policy_id;
  amount = d.amount;
  period_start = d.period_start;
  period_end = d.period_end;
  reason = d.reason;
  applied_at = d.applied_at;
  height = height;
}

unfoldable pub record_assessment : ApplyCustodyDemurrageData → State → State
record_assessment d s = record s {
  demurrage_assessments = insert d.assessment_id (assessment s.height d) s.demurrage_assessments;
  dirty = true;
}

abbrev pub demurrage_events : ApplyCustodyDemurrageData → List Event
demurrage_events d =
    event (bytes "apply_custody_demurrage") (
      attribute (bytes "assessment_id") (text d.assessment_id) true
      ∷ attribute (bytes "asset_id") (text d.asset_id) true
      ∷ [])
    ∷ []

unfoldable pub demurrage_as : ℤ → ApplyCustodyDemurrageData → Handler
unfolding burn_from record_assessment
demurrage_as now d = do
  burn_from now d.asset_id d.account_commitment d.amount
  modify (record_assessment d)
  pure (demurrage_events d)

unfoldable pub execute_demurrage : Env → ℤ → Tx → Handler
unfolding demurrage_as
execute_demurrage env now t s = elim (env.decode_apply_custody_demurrage t.payload) [
  | none ↦ (err invalid_payload, s)
  | some d ↦ demurrage_as now d s
]
