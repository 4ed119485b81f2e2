-- ===== src/Voting/App.antt =====
-- app/app.go: `CheckTx` and `FinalizeBlock` over the state machine.
pub mod Laws
use community.Base.{ℕ, Bool, true, false, Option, none, some, List, [], ◌∷◌, if◌then◌else◌}
use community.Base.Result.{Result, ok, err, ◌>>=◌, ◌>>◌, or_err}
use community.Base.Exec.{Exec}
use community.Data.Bytes.{Bytes}
use community.Data.Hex.{hex_encode}
use community.Data.Int64.{ℤ}
use community.Protocol.Errors.{Error, panic, invalid_payload, invalid_type}
use community.Protocol.Events.{Event}
use community.Protocol.Nonce.{record_beacon}
use community.Protocol.Txs.{Tx}
use community.Protocol.Txs.Validate.{
  check_envelope, check_poll_create_data, check_ballot_cast_data, check_poll_close_data,
  check_validator_data, check_confirm_receipt_data, check_ballot_update_data, check_batch_data,
  check_reseal_data, check_rescind_data, check_restore_data,
}
use community.Voting.Dispatch.{
  Kind, poll_create, ballot_cast, poll_close, register_validator, confirm_receipt, update_ballot,
  batch_flush, reseal_vote, authority_rescind, authority_restore, unknown, kind_of, validate_tx,
  execute_tx,
}
use community.Voting.Env.{Env}
use community.Voting.State.{State, ValidatorUpdate, Validator}
use community.Voting.Validators.{get_pending_validator_updates}

abbrev decoded : {A : Type 0} → Option A → (A → Result Error (Unit {0})) → Result Error (Unit {0})
decoded none f = err invalid_payload
decoded (some a) f = f a

-- the type-specific part of `Tx.Validate`
unfoldable pub check_kind : Kind → Env → Tx → Result Error (Unit {0})
check_kind poll_create env t = decoded (env.decode_poll_create t.payload) check_poll_create_data
check_kind ballot_cast env t = decoded (env.decode_ballot_cast t.payload) check_ballot_cast_data
check_kind confirm_receipt env t =
    decoded (env.decode_confirm_receipt t.payload) check_confirm_receipt_data
check_kind poll_close env t = decoded (env.decode_poll_close t.payload) check_poll_close_data
check_kind register_validator env t =
    decoded (env.decode_validator_registration t.payload) check_validator_data
check_kind update_ballot env t =
    decoded (env.decode_ballot_update t.payload) check_ballot_update_data
check_kind batch_flush env t =
    decoded (env.decode_batch_flush t.payload) (check_batch_data env.decode_ballot_cast)
check_kind reseal_vote env t = decoded (env.decode_reseal_vote t.payload) check_reseal_data
check_kind authority_rescind env t =
    decoded (env.decode_authority_rescind t.payload) check_rescind_data
check_kind authority_restore env t =
    decoded (env.decode_authority_restore t.payload) check_restore_data
check_kind unknown env t = err invalid_type

abbrev is_unknown : Kind → Bool
is_unknown unknown = true
is_unknown poll_create = false
is_unknown _ = false

-- `Tx.Validate`
unfoldable pub tx_validate : Env → Tx → Result Error (Unit {0})
unfolding kind_of check_envelope
tx_validate env t =
    if is_unknown (kind_of t)
    then err invalid_type
    else do check_envelope t; check_kind (kind_of t) env t

-- The response codes of the application: 0 accepted, 1 encoding, 2 stateless, 3 stateful, 4 executed
-- with an error.
abbrev pub checked : Result Error (Unit {0}) × State → Option ℕ × State
checked (ok _, s) = (some 0, s)
checked (err panic, s) = (none, s)
checked (err e, s) = (some 3, s)

-- `CheckTx`: the response code, or `none` where the process ends.
unfoldable pub check_tx : Env → ℤ → Bytes → State → Option ℕ × State
check_tx env now raw s = elim (env.decode_tx raw) [
  | none ↦ (some 1, s)
  | some t ↦ elim (tx_validate env t) [
    | err _ ↦ (some 2, s)
    | ok _ ↦ checked (validate_tx env now t s)
  ]
]

pub record ExecTxResult : Type 0 where
  pub code : ℕ
  pub events : List Event

-- Only a panic leaves the loop over the transactions.
abbrev pub tx_result : Result Error (List Event) → Option ExecTxResult
tx_result (ok events) = some (record { code = 0; events = events })
tx_result (err panic) = none
tx_result (err e) = some (record { code = 4; events = [] })

unfoldable pub execute_raw : Env → ℤ → Bytes → State → Option ExecTxResult × State
execute_raw env now raw s = elim (env.decode_tx raw) [
  | none ↦ (some (record { code = 1; events = [] }), s)
  | some t ↦ let (r, s') = execute_tx env now t s in (tx_result r, s')
]

abbrev cons_result : ExecTxResult → Option (List ExecTxResult) → Option (List ExecTxResult)
cons_result r none = none
cons_result r (some rs) = some (r ∷ rs)

-- The loop of `FinalizeBlock`: every transaction is executed, and none is validated again.
unfoldable pub execute_txs : Env → ℤ → List Bytes → State → Option (List ExecTxResult) × State
unfolding execute_raw
execute_txs env now [] s = (some [], s)
execute_txs env now (raw ∷ raws) s =
    let (r, s') = execute_raw env now raw s in
    elim r [
      | none ↦ (none, s')
      | some res ↦ let (rs, s'') = execute_txs env now raws s' in (cons_result res rs, s'')
    ]

-- `FinalizeBlock` up to `Commit`: the results, the validator updates and the state to commit.
unfoldable pub finalize_block :
    Env
    → ℤ
    → ℤ
    → Bytes
    → List Bytes
    → State
    → Option (List ExecTxResult × List ValidatorUpdate) × State
unfolding execute_txs get_pending_validator_updates
finalize_block env now height hash raws s =
    let (rs, s') =
      execute_txs env now raws
        (record s { beacon_window = record_beacon height (hex_encode hash) s.beacon_window }) in
    elim rs [
      | none ↦ (none, s')
      | some results ↦
          let (updates, s'') = get_pending_validator_updates s' in (some (results, updates), s'')
    ]
