-- ===== src/Wire/Contracts.antt =====
-- embodiments/shywire/state/financing.go: contracts and their activation.
pub mod Execution
use community.Base.{
  Bool, true, not, ◌&&◌, none, some, List, [], ◌∷◌, map, is_some, is_empty, if◌then◌else◌,
}
use community.Base.Exec.{Exec, ◌>>◌, modify, pure}
use community.Base.Result.{Result, ok, err}
use community.Base.Result
use community.Data.Bytes.{Bytes, bytes, ◌==◌}
use community.Data.GoMap.{lookup, insert}
use community.Data.Int64.{ℤ, pos, ◌+ℤ◌, ltb_ℤ}
use community.Protocol.Events.{Event, text, event, attribute}
use community.Wire.Env.{Env}
use community.Wire.Errors.{
  Error, panic, invalid_payload, contract_exists, unknown_asset, party_missing, unknown_contract,
  contract_not_pending, contract_not_active, contract_expired, duplicate_transfer, asset_mismatch,
  counterparty_missing,
}
use community.Wire.State.{
  State, Handler, account_key, sentinel, update_account, credit, debit, touch, done,
}
use community.Wire.Supply.{check_funds}
use community.Wire.Transfers.{hash_nonce, write_lists}
use community.Wire.Txs.{
  Tx, RegisterContractData, ContractParty, ActivateContractData, ExecuteContractData,
}
use community.Wire.Types.{ContractRecord, ContractPartyRecord}

-- the loop over the parties; a party without a commitment is passed over
unfoldable pub check_parties : Bytes → List ContractParty → State → Result Error (Unit {0})
check_parties asset_id [] s = ok tt
check_parties asset_id (p ∷ ps) s =
    let rest = check_parties asset_id ps s in
    let scope = if is_empty asset_id then sentinel else asset_id in
    if is_empty p.commitment
    then rest
    else if is_some (lookup (account_key scope p.commitment) s.accounts)
    then rest
    else err party_missing

unfoldable pub check_register_contract : RegisterContractData → State → Result Error (Unit {0})
unfolding check_parties
check_register_contract d s =
    if is_some (lookup d.contract_id s.contracts)
    then err contract_exists
    else if not (is_empty d.asset_id) && not (is_some (lookup d.asset_id s.assets))
    then err unknown_asset
    else check_parties d.asset_id d.parties s

unfoldable pub validate_register_contract : Env → Tx → State → Result Error (Unit {0})
unfolding check_register_contract
validate_register_contract env t s = elim (env.decode_register_contract t.payload) [
  | none ↦ err invalid_payload
  | some d ↦ check_register_contract d s
]

abbrev party_record : ContractParty → ContractPartyRecord
party_record p = record {
  role = p.role;
  commitment = p.commitment;
  allocation_bps = p.allocation_bps;
  seniority = p.seniority;
}

unfoldable pub new_contract : ℤ → ℤ → RegisterContractData → ContractRecord
new_contract now height d = record {
  contract_id = d.contract_id;
  asset_id = d.asset_id;
  contract_type = d.contract_type;
  contract_hash = d.contract_hash;
  parties = map party_record d.parties;
  metadata = d.metadata;
  condition_hash = [];
  condition_type = [];
  activated_at = pos 0;
  execution_count = pos 0;
  total_executed = pos 0;
  expiry_timestamp = d.expiry_timestamp;
  status = if d.pending_condition then bytes "pending_condition" else bytes "active";
  created_at = now;
  updated_at = now;
  height = height;
}

unfoldable pub execute_register_contract : Env → ℤ → Tx → Handler
unfolding new_contract
execute_register_contract env now t s = elim (env.decode_register_contract t.payload) [
  | none ↦ (err invalid_payload, s)
  | some d ↦ (
    ok (
        event (bytes "register_contract") (
          attribute (bytes "contract_id") (text d.contract_id) true
          ∷ attribute (bytes "contract_type") (text d.contract_type) true
          ∷ attribute (bytes "asset_id") (text d.asset_id) true
          ∷ [])
        ∷ []),
    record s {
      contracts = insert d.contract_id (new_contract now s.height d) s.contracts;
      dirty = true;
    },
  )
]

unfoldable pub check_activate_contract : ActivateContractData → State → Result Error (Unit {0})
check_activate_contract d s = elim (lookup d.contract_id s.contracts) [
  | none ↦ err unknown_contract
  | some c ↦ Result.check (c.status == bytes "pending_condition") contract_not_pending
]

unfoldable pub validate_activate_contract : Env → Tx → State → Result Error (Unit {0})
unfolding check_activate_contract
validate_activate_contract env t s = elim (env.decode_activate_contract t.payload) [
  | none ↦ err invalid_payload
  | some d ↦ check_activate_contract d s
]

-- `s.contracts[id]` with writes to its fields; a missing one is a nil dereference
unfoldable pub update_contract :
    Bytes → (ContractRecord → ContractRecord) → Exec Error State (Unit {0})
update_contract id f s = elim (lookup id s.contracts) [
  | none ↦ (err panic, s)
  | some c ↦ (ok tt, record s { contracts = insert id (f c) s.contracts })
]

abbrev pub activate : ℤ → ℤ → ActivateContractData → ContractRecord → ContractRecord
activate now height d c = record c {
  condition_hash = d.evidence_hash;
  condition_type = d.evidence_type;
  activated_at = d.activated_at;
  status = bytes "active";
  updated_at = now;
  height = height;
}

abbrev pub activate_events : ActivateContractData → List Event
activate_events d =
    event (bytes "activate_contract") (
      attribute (bytes "contract_id") (text d.contract_id) true
      ∷ attribute (bytes "evidence_type") (text d.evidence_type) true
      ∷ [])
    ∷ []

unfoldable pub activate_contract_as : ℤ → ActivateContractData → Handler
unfolding update_contract done
activate_contract_as now d s =
    (do update_contract d.contract_id (activate now s.height d); done (activate_events d)) s

unfoldable pub execute_activate_contract : Env → ℤ → Tx → Handler
unfolding activate_contract_as
execute_activate_contract env now t s = elim (env.decode_activate_contract t.payload) [
  | none ↦ (err invalid_payload, s)
  | some d ↦ activate_contract_as now d s
]
