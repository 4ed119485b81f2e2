-- ===== src/Wire/App.antt =====
-- embodiments/shywire/app/app.go: `CheckTx` and `FinalizeBlock`.
use community.Base.{ℕ, Option, none, some, List, [], ◌∷◌}
use community.Base.Result.{Result, ok, err}
use community.Data.Bytes.{Bytes}
use community.Data.Int64.{ℤ}
use community.Protocol.Events.{Event}
use community.Wire.Dispatch.{tx_validate, validate_tx, execute_tx}
use community.Wire.Env.{Env}
use community.Wire.Errors.{Error, panic}
use community.Voting.Storage.{Database}
use community.Wire.Storage.{Codecs, commit}
use community.Wire.State.{State, ValidatorUpdate}

-- The response code: 0 accepted, 1 encoding, 2 stateless, 3 stateful. `ValidateTx` changes nothing.
unfoldable pub check_tx : Env → Bytes → State → ℕ
check_tx env raw s = elim (env.decode_tx raw) [
  | none ↦ 1
  | some t ↦ elim (tx_validate env t) [
    | err _ ↦ 2
    | ok _ ↦ elim (validate_tx env t s) [ err _ ↦ 3 | ok _ ↦ 0 ]
  ]
]

pub record ExecTxResult : Type 0 where
  pub code : ℕ
  pub events : List Event

-- Only a panic leaves the loop over the transactions.
abbrev pub tx_result : Result Error (List Event) → Option ExecTxResult
tx_result (ok events) = some (record { code = 0; events = events })
tx_result (err panic) = none
tx_result (err e) = some (record { code = 4; events = [] })

unfoldable pub execute_raw : Env → ℤ → Bytes → State → Option ExecTxResult × State
execute_raw env now raw s = elim (env.decode_tx raw) [
  | none ↦ (some (record { code = 1; events = [] }), s)
  | some t ↦ let (r, s') = execute_tx env now t s in (tx_result r, s')
]

abbrev cons_result : ExecTxResult → Option (List ExecTxResult) → Option (List ExecTxResult)
cons_result r none = none
cons_result r (some rs) = some (r ∷ rs)

unfoldable pub execute_txs : Env → ℤ → List Bytes → State → Option (List ExecTxResult) × State
unfolding execute_raw
execute_txs env now [] s = (some [], s)
execute_txs env now (raw ∷ raws) s =
    let (r, s') = execute_raw env now raw s in
    elim r [
      | none ↦ (none, s')
      | some res ↦ let (rs, s'') = execute_txs env now raws s' in (cons_result res rs, s'')
    ]

-- The results, the validator updates and the hash; and the state and the store.
unfoldable pub finalize_block :
    Env
    → Codecs
    → ℤ
    → List Bytes
    → State
    → Database
    → Option (List ExecTxResult × List ValidatorUpdate × Bytes) × State × Database
unfolding execute_txs commit
finalize_block env c now raws s db =
    let (rs, s') = execute_txs env now raws s in
    elim rs [
      | none ↦ (none, s', db)
      | some results ↦
          let (hash, s'', db') =
            commit env.sha256 c (record s' { pending_validator_updates = [] }) db in
          (some (results, s'.pending_validator_updates, hash), s'', db')
    ]
