-- ===== src/Wire/Contracts/Execution.antt =====
-- embodiments/shywire/state/financing.go: the executions of contracts.
use community.Base.{
  Bool, true, not, ◌&&◌, none, some, List, [], ◌∷◌, is_some, is_empty, if◌then◌else◌,
}
use community.Base.Exec.{Exec, ◌>>◌, modify, pure}
use community.Base.Result.{Result, ok, err}
use community.Base.Result
use community.Data.Bytes.{bytes, ◌==◌}
use community.Data.GoMap.{lookup, insert}
use community.Data.Int64.{ℤ, pos, ◌+ℤ◌, ltb_ℤ}
use community.Protocol.Events.{Event, text, event, attribute}
use community.Wire.Env.{Env}
use community.Wire.Errors.{
  Error, invalid_payload, unknown_contract, contract_not_active, contract_expired,
  duplicate_transfer, asset_mismatch, counterparty_missing,
}
use community.Wire.State.{State, Handler, account_key, update_account, credit, debit, touch, done}
use community.Wire.Supply.{check_funds}
use community.Wire.Transfers.{hash_nonce, write_lists}
use community.Wire.Txs.{Tx, ExecuteContractData}
use community.Wire.Types.{ContractRecord}
use community.Wire.Contracts.{update_contract}

-- `d.AssetID != "" && d.Amount > 0`
abbrev pub bears_value : ExecuteContractData → Bool
bears_value d = not (is_empty d.asset_id) && ltb_ℤ (pos 0) d.amount

unfoldable pub check_value : ExecuteContractData → ContractRecord → State → Result Error (Unit {0})
unfolding check_funds
check_value d c s =
    if not (is_empty c.asset_id) && not (c.asset_id == d.asset_id)
    then err asset_mismatch
    else elim (check_funds (account_key d.asset_id d.party_commitment) d.amount s) [
      | err e ↦ err e
      | ok _ ↦
          if is_empty d.counterparty_commitment
          then ok tt
          else Result.check
              (is_some (lookup (account_key d.asset_id d.counterparty_commitment) s.accounts))
              counterparty_missing
    ]

unfoldable pub check_execute_contract : ExecuteContractData → State → Result Error (Unit {0})
unfolding check_value
check_execute_contract d s = elim (lookup d.contract_id s.contracts) [
  | none ↦ err unknown_contract
  | some c ↦
      if not (c.status == bytes "active")
      then err contract_not_active
      else if ltb_ℤ (pos 0) c.expiry_timestamp && ltb_ℤ c.expiry_timestamp d.timestamp
      then err contract_expired
      else if is_some (lookup d.nullifier s.participants)
      then err duplicate_transfer
      else if bears_value d
      then check_value d c s
      else ok tt
]

unfoldable pub validate_execute_contract : Env → Tx → State → Result Error (Unit {0})
unfolding check_execute_contract
validate_execute_contract env t s = elim (env.decode_execute_contract t.payload) [
  | none ↦ err invalid_payload
  | some d ↦ check_execute_contract d s
]

-- the indexed overlay
unfoldable pub write_execution : Env → ℤ → ExecuteContractData → State → State
write_execution env now d s = record s {
  contract_executions =
      insert (hash_nonce env d.transfer_nonce)
        (record {
          execution_id = hash_nonce env d.transfer_nonce;
          contract_id = d.contract_id;
          asset_id = d.asset_id;
          execution_type = d.execution_type;
          source_ref = d.source_ref;
          amount = d.amount;
          payload = d.payload;
          timestamp = now;
          height = s.height;
        })
        s.contract_executions;
}

-- the movement of value: from the party, and to the counterparty if one is named
unfoldable pub move_value : ℤ → ExecuteContractData → Exec Error State (Unit {0})
unfolding update_account
move_value now d s =
    if bears_value d
    then (do
      update_account (account_key d.asset_id d.party_commitment)
          (λ a. touch now s.height (debit d.amount a))
      (if is_empty d.counterparty_commitment
          then pure tt
          else update_account (account_key d.asset_id d.counterparty_commitment)
              (λ a. touch now s.height (credit d.amount a))))
        s
    else (ok tt, s)

abbrev pub count_execution : ℤ → ℤ → ℤ → ContractRecord → ContractRecord
count_execution now height amount c = record c {
  execution_count = c.execution_count +ℤ pos 1;
  total_executed = c.total_executed +ℤ amount;
  updated_at = now;
  height = height;
}

abbrev pub execution_events : Env → ExecuteContractData → List Event
execution_events env d =
    event (bytes "contract_execution") (
      attribute (bytes "contract_id") (text d.contract_id) true
      ∷ attribute (bytes "execution_id") (text (hash_nonce env d.transfer_nonce)) true
      ∷ attribute (bytes "execution_type") (text d.execution_type) true
      ∷ attribute (bytes "source_ref") (text d.source_ref) true
      ∷ [])
    ∷ []

unfoldable pub execute_contract_as : Env → ℤ → ExecuteContractData → Handler
unfolding write_lists write_execution move_value update_contract done
execute_contract_as env now d s =
    (do
      modify (write_lists env now d.transfer_nonce d.nullifier d.asset_id d.amount)
      modify (write_execution env now d)
      move_value now d
      update_contract d.contract_id (count_execution now s.height d.amount)
      done (execution_events env d))
      s

unfoldable pub execute_execute_contract : Env → ℤ → Tx → Handler
unfolding execute_contract_as
execute_execute_contract env now t s = elim (env.decode_execute_contract t.payload) [
  | none ↦ (err invalid_payload, s)
  | some d ↦ execute_contract_as env now d s
]
