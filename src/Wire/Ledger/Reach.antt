-- ===== src/Wire/Ledger/Reach.antt =====
-- embodiments/shywire/app/app.go and state/state.go: the states that accepted transactions lead to.
use community.Wire.Errors.{Error, panic}
use community.Protocol.Events.{Event}
use community.Base.{◌+◌, ◌≡◌, refl, sym, ◌∙◌, subst, [], some, arith, ◌≢◌, List, none}
use community.Base.Result.{ok, Result, err}
use community.Data.Bytes.{Bytes}
use community.Data.GoMap.{lookup}
use community.Data.GoMap.Sum.{sum}
use community.Data.Int64.{ℤ, pos, pos_part}
use community.Wire.App.{check_tx, execute_raw, tx_result}
use community.Wire.Dispatch.{tx_validate, validate_tx, execute_tx, check_kind, execute_kind}
use community.Wire.Env.{Env}
use community.Wire.Ledger.{IsBacked, total}
use community.Wire.Ledger.Operations.{SameLedger-IsBacked}
use community.Wire.Ledger.Dispatched.{execute_kind-Sound}
use community.Wire.Ledger.Sound.{BurnReadsAsMint, Conserving}
use community.Wire.Ledger.Supply.{supply_of, Backing-of}
use community.Wire.State.{State, Options, new_state_with_options, empty_state}
use community.Voting.Storage.{Database}
use community.Wire.Storage.{Codecs, commit}
use community.Wire.Txs.{Tx, kind_of}
use community.Wire.Types.{AssetRecord, SupplyRecord}

tx_validate-kind :
    (env : Env) (t : Tx) → tx_validate env t ≡ ok tt → check_kind (kind_of t) env t.payload ≡ ok tt
unfolding tx_validate
tx_validate-kind env t h = ground arith

-- A transaction that `CheckTx` accepts passes both validations.
check_tx-accepts :
    (env : Env) (raw : Bytes) (t : Tx) (s : State)
    → env.decode_tx raw ≡ some t
    → check_tx env raw s ≡ 0
    → (tx_validate env t ≡ ok tt) × (validate_tx env t s ≡ ok tt)
unfolding check_tx
check_tx-accepts env raw t s decoded h = (ground arith, ground arith)

-- The states from a new one on: by a transaction that `CheckTx` accepts in the state it is executed
-- in, under the side condition of its type, by handing over the validator updates, or by a commit.
pub data Reached (env : Env) : State → Type 0 where
  start : (o : Options) (s : State) → new_state_with_options o ≡ ok s → Reached env s
  accepted :
      (now : ℤ) (raw : Bytes) (t : Tx) (s : State)
      → Reached env s
      → env.decode_tx raw ≡ some t
      → check_tx env raw s ≡ 0
      → Conserving (kind_of t) env t.payload s
      → Reached env (execute_raw env now raw s).1
  handed_over :
      (s : State) → Reached env s → Reached env (record s { pending_validator_updates = [] })
  commits :
      (c : Codecs) (db : Database) (s : State)
      → Reached env s
      → Reached env (commit env.sha256 c s db).1

new_state-IsBacked : (o : Options) (s : State) → new_state_with_options o ≡ ok s → IsBacked s
unfolding new_state_with_options lookup total sum
new_state-IsBacked o s h =
    let empty : IsBacked (empty_state o) = record {
      filed = tt;
      unique = tt;
      named = tt;
      backing = λ y. refl;
    } in
    subst IsBacked (ground arith) empty

tx_result-none : (r : Result Error (List Event)) → tx_result r ≡ none → r ≡ err panic
tx_result-none r h = ground arith

execute_raw-Sound :
    (env : Env) (now : ℤ) (raw : Bytes) (t : Tx) (s : State)
    → BurnReadsAsMint env
    → IsBacked s
    → env.decode_tx raw ≡ some t
    → check_tx env raw s ≡ 0
    → Conserving (kind_of t) env t.payload s
    → ((execute_raw env now raw s).0 ≢ none) × IsBacked (execute_raw env now raw s).1
unfolding execute_raw execute_tx
execute_raw-Sound env now raw t s codec b decoded h c =
    let (stateless, stateful) = check_tx-accepts env raw t s decoded h in
    let sound =
      execute_kind-Sound (kind_of t) env now t s codec b (tx_validate-kind env t stateless)
        (unfold validate_tx in stateful) c in
    rw (decoded, execute_raw)
      (λ e. sound.0 (tx_result-none (execute_kind (kind_of t) env now t s).0 e), sound.1)

commit-IsBacked :
    (sha256 : Bytes → Bytes) (c : Codecs) (db : Database) (s : State)
    → IsBacked s
    → IsBacked (commit sha256 c s db).1
unfolding commit
commit-IsBacked sha256 c db s b =
    SameLedger-IsBacked s (commit sha256 c s db).1 (ground arith, ground arith, ground arith) b

pub Reached-IsBacked : (env : Env) (s : State) → BurnReadsAsMint env → Reached env s → IsBacked s
Reached-IsBacked env _ codec (start o s h) = new_state-IsBacked o s h
Reached-IsBacked env _ codec (accepted now raw t s r decoded h c) =
    (execute_raw-Sound env now raw t s codec (Reached-IsBacked env s codec r) decoded h c).1
Reached-IsBacked env _ codec (handed_over s r) =
    SameLedger-IsBacked s (record s { pending_validator_updates = [] }) (refl, refl, refl)
      (Reached-IsBacked env s codec r)
Reached-IsBacked env _ codec (commits c db s r) =
    commit-IsBacked env.sha256 c db s (Reached-IsBacked env s codec r)

-- A transaction that `CheckTx` accepts in a reached state, under the side condition of its type and
-- with a codec that reads the bytes of a burn as a mint of the same amount: its execution ends with
-- a result, and not with a panic, and the next state is reached.
pub Reached-executes :
    (env : Env) (now : ℤ) (raw : Bytes) (t : Tx) (s : State)
    → BurnReadsAsMint env
    → Reached env s
    → env.decode_tx raw ≡ some t
    → check_tx env raw s ≡ 0
    → Conserving (kind_of t) env t.payload s
    → ((execute_raw env now raw s).0 ≢ none) × Reached env (execute_raw env now raw s).1
Reached-executes env now raw t s codec r decoded h c = (
  (execute_raw-Sound env now raw t s codec (Reached-IsBacked env s codec r) decoded h c).0,
  accepted now raw t s r decoded h c,
)

-- What the supply of an asset says of the balances.
pub record Conservation (x : Bytes) (r : AssetRecord) (s : State) : Type 0 where
  pub supply : SupplyRecord
  pub supplied : lookup x s.supply ≡ some supply
  pub minted : supply.total_minted ≡ pos (total x s.accounts + pos_part supply.total_burned)
  pub left : supply.total_supply ≡ pos (total x s.accounts)
  pub shown : r.total_supply ≡ supply.total_supply

-- A state that is reached from a new one by transactions that `CheckTx` accepts, by commits and by
-- handing over validator updates, where every transaction meets the condition of its type: an asset
-- is registered without a colon in its name; what is minted of an asset in all stays below 2^63; a
-- contract execution is of an asset without a colon and, if it bears value, names a counterparty; a
-- settlement and a demurrage are of a registered asset; no action is a forced redemption. The codec
-- reads the bytes of a burn as a mint of the same amount. Then for every registered asset: the
-- balances add up to the supply, in the supply record and in the asset, and with what was burned
-- they add up to what was minted.
pub Reached-Conservation :
    (env : Env) (x : Bytes) (r : AssetRecord) (s : State)
    → BurnReadsAsMint env
    → Reached env s
    → lookup x s.assets ≡ some r
    → Conservation x r s
Reached-Conservation env x r s codec reached recorded =
    let backed = Reached-IsBacked env s codec reached in
    let (sup, supplied) = supply_of x r s backed recorded in
    let (minted, owes, fits, left, shown) = Backing-of x r sup s backed recorded supplied in
    record {
      supply = sup;
      supplied = supplied;
      minted = minted;
      left = left;
      shown = shown ∙ sym left;
    }
