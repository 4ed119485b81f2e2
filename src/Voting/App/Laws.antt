-- ===== src/Voting/App/Laws.antt =====
-- What a block returns, and what checking a transaction can change.
use community.Base.{
  suc, ◌≡◌, refl, ap, Option, some, none, List, [], ◌∷◌, arith, length, Option-cases, inl, inr,
}
use community.Data.Bytes.{Bytes}
use community.Data.Hex.{hex_encode}
use community.Data.Int64.{ℤ}
use community.Protocol.Nonce.{record_beacon}
use community.Voting.App.{ExecTxResult, execute_raw, cons_result, execute_txs, finalize_block}
use community.Voting.Env.{Env}
use community.Voting.State.{State, ValidatorUpdate}
use community.Voting.Validators.{get_pending_validator_updates}

-- As many results as transactions, where there are results.
abbrev pub ResultFor : List Bytes → Option (List ExecTxResult) → Type 0
ResultFor raws none = Unit
ResultFor raws (some results) = length results ≡ length raws

cons-ResultFor :
    (raw : Bytes) (raws : List Bytes) (r : ExecTxResult) (rs : Option (List ExecTxResult))
    → ResultFor raws rs
    → ResultFor (raw ∷ raws) (cons_result r rs)
cons-ResultFor raw raws r none h = tt
cons-ResultFor raw raws r (some rs) h = ap suc h

execute_txs-ResultFor :
    (env : Env) (now : ℤ) (raws : List Bytes) (s : State)
    → ResultFor raws (execute_txs env now raws s).0
unfolding execute_txs
execute_txs-ResultFor env now [] s = refl
execute_txs-ResultFor env now (raw ∷ raws) s =
    let one = execute_raw env now raw s in
    elim (Option-cases one.0) [
      | inl e ↦ rw (e, execute_txs) tt
      | inr (r, e) ↦
          rw (e, execute_txs)
            (cons-ResultFor raw raws r _ (execute_txs-ResultFor env now raws one.1))
    ]

-- A block that does not end the process returns one result for each of its transactions, in a state
-- with no validator update left for the next block.
pub length-finalize_block :
    (env : Env) (now height : ℤ) (hash : Bytes) (raws : List Bytes) (results : List ExecTxResult)
    (updates : List ValidatorUpdate) (s : State)
    → (finalize_block env now height hash raws s).0 ≡ some (results, updates)
    → (length results ≡ length raws)
      × ((finalize_block env now height hash raws s).1.pending_validator_updates ≡ [])
unfolding finalize_block get_pending_validator_updates
length-finalize_block env now height hash raws results updates s h =
    let start : State = record s {
      beacon_window = record_beacon height (hex_encode hash) s.beacon_window;
    } in
    let each = execute_txs-ResultFor env now raws start in
    elim (Option-cases (execute_txs env now raws start).0) [
      | inl e ↦ absurd (ground arith)
      | inr (rs, e) ↦ (ground arith, rw (e, finalize_block) refl)
    ]
