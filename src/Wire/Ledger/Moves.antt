-- ===== src/Wire/Ledger/Moves.antt =====
-- embodiments/shywire/state/financing.go: what the execution of a contract moves between accounts.
use community.Base.{
  ℕ, ◌<◌, ◌^◌, ◌≡◌, refl, ◌≢◌, true, false, Option, none, some, is_some, is_empty, arith,
}
use community.Base.Exec.{>>-ok, ◌>>◌, pure}
use community.Base.Result.{ok}
use community.Data.Bytes.{Bytes}
use community.Data.GoMap.{lookup, insert}
use community.Data.Int64.{ℤ}
use community.Wire.Contracts.{update_contract}
use community.Wire.Contracts.Execution.{
  bears_value, check_execute_contract, check_value, move_value, count_execution,
  execute_contract_as, execution_events, write_execution,
}
use community.Wire.Env.{Env}
use community.Wire.Ledger.{total, Backing, IsBacked}
use community.Wire.Ledger.Supply.{update_account-run}
use community.Wire.State.{State, account_key, update_account, credit, debit, touch, done}
use community.Wire.Supply.{check_funds}
use community.Wire.Transfers.{write_lists}
use community.Wire.Txs.{ExecuteContractData}
use community.Wire.Types.{AccountRecord, AssetRecord, SupplyRecord, ContractRecord}

-- the state in which the lists and the indexed overlay are written
abbrev pub listed : Env → ℤ → ExecuteContractData → State → State
listed env now d s =
    write_execution env now d
      (write_lists env now d.transfer_nonce d.nullifier d.asset_id d.amount s)

-- the totals of a backed state are below 2^63
Backing-room :
    (o : Option AssetRecord) (o' : Option SupplyRecord) (t : ℕ) → Backing o o' t → t < 2 ^ 63
Backing-room none none t h = omega (arith, h)
Backing-room none (some sup) t h = absurd h
Backing-room (some r) none t h = absurd h
Backing-room (some r) (some sup) t h = omega (arith, h.2)

pub total-room : (x : Bytes) (s : State) → IsBacked s → total x s.accounts < 2 ^ 63
total-room x s b =
    Backing-room (lookup x s.assets) (lookup x s.supply) (total x s.accounts) (b.backing x)

pub check_execute_contract-there :
    (d : ExecuteContractData) (s : State)
    → check_execute_contract d s ≡ ok tt
    → lookup d.contract_id s.contracts ≢ none
unfolding check_execute_contract
check_execute_contract-there d s h e = absurd (ground arith)

pub check_value-funds :
    (d : ExecuteContractData) (c : ContractRecord) (s : State)
    → check_value d c s ≡ ok tt
    → check_funds (account_key d.asset_id d.party_commitment) d.amount s ≡ ok tt
unfolding check_value
check_value-funds d c s h = ground arith

pub check_value-counterparty :
    (d : ExecuteContractData) (c : ContractRecord) (s : State)
    → check_value d c s ≡ ok tt
    → is_empty d.counterparty_commitment ≡ false
    → is_some (lookup (account_key d.asset_id d.counterparty_commitment) s.accounts) ≡ true
unfolding check_value
check_value-counterparty d c s h named = ground arith

pub check_execute_contract-value :
    (d : ExecuteContractData) (c : ContractRecord) (s : State)
    → lookup d.contract_id s.contracts ≡ some c
    → check_execute_contract d s ≡ ok tt
    → bears_value d ≡ true
    → check_value d c s ≡ ok tt
unfolding check_execute_contract
check_execute_contract-value d c s found h valued = ground arith

-- the run of a contract, given what its movement of value does
pub execute_contract_as-run :
    (env : Env) (now : ℤ) (d : ExecuteContractData) (c : ContractRecord) (s s' : State)
    → move_value now d (
        write_execution env now d
          (write_lists env now d.transfer_nonce d.nullifier d.asset_id d.amount s))
      ≡ (ok tt, s')
    → lookup d.contract_id s'.contracts ≡ some c
    → execute_contract_as env now d s ≡ (
      ok (execution_events env d),
      record s' {
        contracts = insert d.contract_id (count_execution now s.height d.amount c) s'.contracts;
        dirty = true;
      },
    )
unfolding execute_contract_as
execute_contract_as-run env now d c s s' moved found =
    let last = done (execution_events env d) in
    let count = update_contract d.contract_id (count_execution now s.height d.amount) in
    >>-ok (move_value now d) (count >> last) (listed env now d s) s' tt moved (
      >>-ok count last s'
        (record s' {
          contracts = insert d.contract_id (count_execution now s.height d.amount c) s'.contracts;
        })
        tt (rw (found, update_contract) refl) (unfold done in refl))

pub move_value-nothing :
    (now : ℤ) (d : ExecuteContractData) (s : State)
    → bears_value d ≡ false
    → move_value now d s ≡ (ok tt, s)
unfolding move_value
move_value-nothing now d s free = rw (free, move_value) refl

-- the account that pays, and the one that is paid
abbrev pub debited : ℤ → ℤ → ExecuteContractData → AccountRecord → AccountRecord
debited now height d a = touch now height (debit d.amount a)

abbrev pub credited : ℤ → ℤ → ExecuteContractData → AccountRecord → AccountRecord
credited now height d a = touch now height (credit d.amount a)

abbrev pub after_debit : ℤ → ExecuteContractData → AccountRecord → State → State
after_debit now d a s = record s {
  accounts =
      insert (account_key d.asset_id d.party_commitment) (debited now s.height d a) s.accounts;
}

abbrev pub after_move : ℤ → ExecuteContractData → AccountRecord → AccountRecord → State → State
after_move now d a b s = record s {
  accounts =
      insert (account_key d.asset_id d.counterparty_commitment) (credited now s.height d b)
        (after_debit now d a s).accounts;
}

pub move_value-one_sided :
    (now : ℤ) (d : ExecuteContractData) (a : AccountRecord) (s : State)
    → bears_value d ≡ true
    → is_empty d.counterparty_commitment ≡ true
    → lookup (account_key d.asset_id d.party_commitment) s.accounts ≡ some a
    → move_value now d s ≡ (ok tt, after_debit now d a s)
unfolding move_value
move_value-one_sided now d a s valued alone found =
    rw (valued, alone, move_value)
      (>>-ok (update_account (account_key d.asset_id d.party_commitment) (debited now s.height d))
        (pure tt) s (after_debit now d a s) tt
        (update_account-run (account_key d.asset_id d.party_commitment) (debited now s.height d) a s
          found)
        refl)

pub move_value-run :
    (now : ℤ) (d : ExecuteContractData) (a b : AccountRecord) (s : State)
    → bears_value d ≡ true
    → is_empty d.counterparty_commitment ≡ false
    → lookup (account_key d.asset_id d.party_commitment) s.accounts ≡ some a
    → lookup (account_key d.asset_id d.counterparty_commitment) (after_debit now d a s).accounts
      ≡ some b
    → move_value now d s ≡ (ok tt, after_move now d a b s)
unfolding move_value
move_value-run now d a b s valued named found found' =
    rw (valued, named, move_value)
      (>>-ok (update_account (account_key d.asset_id d.party_commitment) (debited now s.height d))
        (update_account (account_key d.asset_id d.counterparty_commitment)
          (credited now s.height d))
        s (after_debit now d a s) tt
        (update_account-run (account_key d.asset_id d.party_commitment) (debited now s.height d) a s
          found)
        (update_account-run (account_key d.asset_id d.counterparty_commitment)
          (credited now s.height d) b (after_debit now d a s) found'))
