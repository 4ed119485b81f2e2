-- ===== src/Voting/Invariant/Reachable.antt =====
-- The states that CheckTx and FinalizeBlock reach, in any order, from the empty state.
use community.Base.{refl, Option, List, [], ◌∷◌, arith, Option-cases, inl, inr}
use community.Data.Hex.{hex_encode}
use community.Protocol.Nonce.{record_beacon}
use community.Base.Result.{Result, ok, err, Result-cases}
use community.Data.Bytes.{Bytes}
use community.Data.Int64.{ℤ}
use community.Protocol.Errors.{Error}
use community.Protocol.Txs.{Tx, BatchFlushData}
use community.Voting.App.{tx_validate, checked, check_tx, execute_raw, execute_txs, finalize_block}
use community.Voting.Ballots.Accepted.{SameBut, SameBut-refl}
use community.Voting.Batch.Checks.{validate_batch_flush, batch_poll, validate_batch_of}
use community.Voting.Batch.Unchanged.{validate_submissions-SameBut}
use community.Voting.Dispatch.{
  Kind, poll_create, ballot_cast, poll_close, register_validator, confirm_receipt, update_ballot,
  batch_flush, reseal_vote, authority_rescind, authority_restore, unknown, kind_of, validate_kind,
  execute_kind, validate_tx, execute_tx,
}
use community.Voting.Env.{Env, Signer, IdentityVerifier}
use community.Voting.Invariant.{IsFiled}
use community.Voting.Invariant.Handlers.{
  IsFiled-same, execute_batch_flush-IsFiled, execute_ballot_update-IsFiled,
}
use community.Voting.Invariant.Removals.{
  execute_reseal_vote-IsFiled, execute_authority_rescind-IsFiled, execute_poll_create-SameTwo,
  execute_poll_close-SameTwo, execute_validator_register-SameTwo, execute_confirm_receipt-SameTwo,
  execute_authority_restore-SameTwo,
}
use community.Voting.State.{State, new_state}
use community.Voting.Validators.{get_pending_validator_updates}

execute_kind-IsFiled :
    (k : Kind) (env : Env) (now : ℤ) (t : Tx) (s : State)
    → IsFiled s
    → IsFiled (execute_kind k env now t s).1
unfolding execute_kind
execute_kind-IsFiled poll_create env now t s f =
    IsFiled-same s _ (execute_poll_create-SameTwo env now t s) f
execute_kind-IsFiled ballot_cast env now t s f = f
execute_kind-IsFiled poll_close env now t s f =
    IsFiled-same s _ (execute_poll_close-SameTwo env now t s) f
execute_kind-IsFiled register_validator env now t s f =
    IsFiled-same s _ (execute_validator_register-SameTwo env t s) f
execute_kind-IsFiled confirm_receipt env now t s f =
    IsFiled-same s _ (execute_confirm_receipt-SameTwo env t s) f
execute_kind-IsFiled update_ballot env now t s f = execute_ballot_update-IsFiled env t s f
execute_kind-IsFiled batch_flush env now t s f = execute_batch_flush-IsFiled env now t s f
execute_kind-IsFiled reseal_vote env now t s f = execute_reseal_vote-IsFiled env t s f
execute_kind-IsFiled authority_rescind env now t s f = execute_authority_rescind-IsFiled env t s f
execute_kind-IsFiled authority_restore env now t s f =
    IsFiled-same s _ (execute_authority_restore-SameTwo env t s) f
execute_kind-IsFiled unknown env now t s f = f

batch_of-SameBut :
    (env : Env) (now : ℤ) (r : Result Error BatchFlushData) (s : State)
    → SameBut s (validate_batch_of env now r s).1
unfolding validate_batch_of
batch_of-SameBut env now (ok d) s =
    validate_submissions-SameBut env now d.poll_id [] [] d.submissions s
batch_of-SameBut env now (err e) s = SameBut-refl s

validate_kind-SameBut :
    (k : Kind) (env : Env) (now : ℤ) (t : Tx) (s : State)
    → SameBut s (validate_kind k env now t s).1
unfolding validate_kind validate_batch_flush
validate_kind-SameBut poll_create env now t s = SameBut-refl s
validate_kind-SameBut ballot_cast env now t s = SameBut-refl s
validate_kind-SameBut poll_close env now t s = SameBut-refl s
validate_kind-SameBut register_validator env now t s = SameBut-refl s
validate_kind-SameBut confirm_receipt env now t s = SameBut-refl s
validate_kind-SameBut update_ballot env now t s = SameBut-refl s
validate_kind-SameBut batch_flush env now t s = batch_of-SameBut env now (batch_poll env t s) s
validate_kind-SameBut reseal_vote env now t s = SameBut-refl s
validate_kind-SameBut authority_rescind env now t s = SameBut-refl s
validate_kind-SameBut authority_restore env now t s = SameBut-refl s
validate_kind-SameBut unknown env now t s = SameBut-refl s

-- Validation of any transaction, whatever its outcome, keeps the signer, the verifier, both lists and
-- the restore grants.
pub validate_tx-SameBut :
    (env : Env) (now : ℤ) (t : Tx) (s : State) → SameBut s (validate_tx env now t s).1
unfolding validate_tx
validate_tx-SameBut env now t s = validate_kind-SameBut (kind_of t) env now t s

checked-SameBut :
    (s : State) (r : Result Error (Unit {0}) × State) → SameBut s r.1 → SameBut s (checked r).1
checked-SameBut s (ok tt, u) same = same
checked-SameBut s (err e, u) same = ground arith

-- `CheckTx` keeps them too.
pub check_tx-SameBut :
    (env : Env) (now : ℤ) (raw : Bytes) (s : State) → SameBut s (check_tx env now raw s).1
unfolding check_tx
check_tx-SameBut env now raw s = elim (Option-cases (env.decode_tx raw)) [
  | inl e ↦ rw (e, check_tx) (SameBut-refl s)
  | inr (t, e) ↦ elim (Result-cases (tx_validate env t)) [
    | inl (x, g) ↦ rw (e, g, check_tx) (SameBut-refl s)
    | inr (u, g) ↦
        rw (e, g, check_tx)
          (checked-SameBut s (validate_tx env now t s) (validate_tx-SameBut env now t s))
  ]
]

execute_raw-IsFiled :
    (env : Env) (now : ℤ) (raw : Bytes) (s : State)
    → IsFiled s
    → IsFiled (execute_raw env now raw s).1
unfolding execute_raw execute_tx
execute_raw-IsFiled env now raw s f = elim (Option-cases (env.decode_tx raw)) [
  | inl e ↦ rw (e, execute_raw) f
  | inr (t, e) ↦ rw (e, execute_raw) (execute_kind-IsFiled (kind_of t) env now t s f)
]

execute_txs-IsFiled :
    (env : Env) (now : ℤ) (raws : List Bytes) (s : State)
    → IsFiled s
    → IsFiled (execute_txs env now raws s).1
unfolding execute_txs
execute_txs-IsFiled env now [] s f = f
execute_txs-IsFiled env now (raw ∷ raws) s f =
    let one = execute_raw-IsFiled env now raw s f in
    elim (Option-cases (execute_raw env now raw s).0) [
      | inl e ↦ rw (e, execute_txs) one
      | inr (r, e) ↦ rw (e, execute_txs) (execute_txs-IsFiled env now raws _ one)
    ]

pub finalize_block-IsFiled :
    (env : Env) (now height : ℤ) (hash : Bytes) (raws : List Bytes) (s : State)
    → IsFiled s
    → IsFiled (finalize_block env now height hash raws s).1
unfolding finalize_block get_pending_validator_updates
finalize_block-IsFiled env now height hash raws s f =
    let start : State = record s {
      beacon_window = record_beacon height (hex_encode hash) s.beacon_window;
    } in
    let ran = execute_txs-IsFiled env now raws start (IsFiled-same s start (refl, refl) f) in
    elim (Option-cases (execute_txs env now raws start).0) [
      | inl e ↦ rw (e, finalize_block) ran
      | inr (r, e) ↦ rw (e, finalize_block) (IsFiled-same _ _ (refl, refl) ran)
    ]

-- The runs of a node: checks of transactions and blocks in any order, at any clock reading.
pub data Runs (env : Env) (s : State) : State → Type 0 where
  start : Runs env s s
  check : (now : ℤ) (raw : Bytes) {u : State} → Runs env s u → Runs env s (check_tx env now raw u).1
  block :
      (now height : ℤ) (hash : Bytes) (raws : List Bytes) {u : State}
      → Runs env s u
      → Runs env s (finalize_block env now height hash raws u).1

Runs-IsFiled : (env : Env) (s u : State) → IsFiled s → Runs env s u → IsFiled u
Runs-IsFiled env s u f start = f
Runs-IsFiled env s u f (check now raw {u = u'} r) =
    let same = check_tx-SameBut env now raw u' in
    IsFiled-same u' _ (same.votes, same.registry) (Runs-IsFiled env s u' f r)
Runs-IsFiled env s u f (block now height hash raws {u = u'} r) =
    finalize_block-IsFiled env now height hash raws u' (Runs-IsFiled env s u' f r)

-- In every state that checks and blocks reach from the empty state, in any order and whatever the
-- transactions are, each list holds a key once, and each record stands under its own ballot id or
-- identity hash.
pub reachable-IsFiled :
    (env : Env) (signer : Option Signer) (verifier : Option IdentityVerifier) (u : State)
    → Runs env (new_state signer verifier) u
    → IsFiled u
reachable-IsFiled env signer verifier u r =
    Runs-IsFiled env (new_state signer verifier) u
      (record { votes_unique = tt; registry_unique = tt; votes = tt; registry = tt }) r
