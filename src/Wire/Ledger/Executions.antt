-- ===== src/Wire/Ledger/Executions.antt =====
-- embodiments/shywire/state/financing.go: the executions of contracts in a backed state.
use community.Base.{
  ℕ, ◌+◌, ◌≡◌, refl, ap, ◌∙◌, subst, true, false, some, is_empty, arith, Bool-cases, inl, inr,
}
use community.Base.Result.{ok, is_ok}
use community.Data.Bytes.{Bytes, ==_refl}
use community.Data.GoMap.{lookup, insert}
use community.Data.Int64.{ℤ, pos, pos_part, ◌+ℤ◌, ◌-ℤ◌, ◌≤ℤ◌, ◌<ℤ◌}
use community.Wire.Contracts.Execution.{
  bears_value, check_execute_contract, count_execution, execute_contract_as, write_execution,
}
use community.Wire.Env.{Env}
use community.Wire.Ledger.{NoColon, total, IsBacked}
use community.Wire.Ledger.Kept.{Kept-IsBacked, is_there, of_positive, still_there, move-Kept}
use community.Wire.Ledger.Operations.{SameLedger-IsBacked, check_funds-enough}
use community.Wire.Ledger.Payments.{insert-Paid}
use community.Wire.Ledger.Redemption.{some_of}
use community.Wire.State.{State, account_key}
use community.Wire.Transfers.{write_lists}
use community.Wire.Txs.{ExecuteContractData}
use community.Wire.Types.{AccountRecord, ContractRecord}
use community.Wire.Ledger.Moves.{
  listed, total-room, check_execute_contract-there, check_value-funds, check_value-counterparty,
  check_execute_contract-value, execute_contract_as-run, move_value-nothing, debited, credited,
  after_debit, after_move, move_value-one_sided, move_value-run,
}

amount-positive : (d : ExecuteContractData) → bears_value d ≡ true → pos 0 <ℤ d.amount
amount-positive d h = ground arith

-- What an execution keeps: the totals, the supply, and the balance between the two.
pub record Conserved (s s' : State) : Type 0 where
  pub backed : IsBacked s'
  pub totals : (y : Bytes) → total y s'.accounts ≡ total y s.accounts
  pub supply : s'.supply ≡ s.supply

-- the last writes of an execution
abbrev pub counted : ℤ → ℤ → ExecuteContractData → ContractRecord → State → State
counted now height d c s = record s {
  contracts = insert d.contract_id (count_execution now height d.amount c) s.contracts;
  dirty = true;
}

free-Conserved :
    (env : Env) (now : ℤ) (d : ExecuteContractData) (c : ContractRecord) (s : State)
    → IsBacked s
    → bears_value d ≡ false
    → lookup d.contract_id s.contracts ≡ some c
    → (is_ok (execute_contract_as env now d s).0 ≡ true)
      × Conserved s (execute_contract_as env now d s).1
unfolding write_execution write_lists
free-Conserved env now d c s backed free found =
    rw
      (execute_contract_as-run env now d c s (listed env now d s)
        (move_value-nothing now d (listed env now d s) free) found)
      (
        refl,
        record {
          backed =
              SameLedger-IsBacked s (counted now s.height d c (listed env now d s))
                (refl, refl, refl) backed;
          totals = λ y. refl;
          supply = refl;
        },
      )

moved-Conserved :
    (env : Env) (now : ℤ) (d : ExecuteContractData) (c : ContractRecord) (a b : AccountRecord)
    (v : ℕ) (s : State)
    → IsBacked s
    → NoColon d.asset_id
    → d.amount ≡ pos v
    → pos v ≤ℤ a.balance
    → lookup (account_key d.asset_id d.party_commitment) s.accounts ≡ some a
    → lookup (account_key d.asset_id d.counterparty_commitment) (after_debit now d a s).accounts
      ≡ some b
    → Conserved s (counted now s.height d c (after_move now d a b (listed env now d s)))
unfolding write_execution write_lists
moved-Conserved env now d c a b v s backed named amount enough from to =
    let a' = debited now s.height d a in
    let b' = credited now s.height d b in
    let kept =
      move-Kept d.asset_id d.party_commitment d.counterparty_commitment v a a' b b' s.accounts named
        backed.filed backed.unique (total-room d.asset_id s backed) from (omega (arith, enough))
        refl refl (ap (λ z. a.balance -ℤ z) amount) to refl refl
        (ap (λ z. b.balance +ℤ z) amount) in
    let s' = counted now s.height d c (after_move now d a b (listed env now d s)) in
    record { backed = Kept-IsBacked s s' backed kept refl refl; totals = kept.same; supply = refl }

valued-Conserved :
    (env : Env) (now : ℤ) (d : ExecuteContractData) (c : ContractRecord) (s : State)
    → IsBacked s
    → NoColon d.asset_id
    → check_execute_contract d s ≡ ok tt
    → lookup d.contract_id s.contracts ≡ some c
    → bears_value d ≡ true
    → is_empty d.counterparty_commitment ≡ false
    → (is_ok (execute_contract_as env now d s).0 ≡ true)
      × Conserved s (execute_contract_as env now d s).1
unfolding write_execution write_lists
valued-Conserved env now d c s backed named tests found valued paired =
    let value = check_execute_contract-value d c s found tests valued in
    let (a, from, enough) =
      check_funds-enough (account_key d.asset_id d.party_commitment) d.amount s
        (check_value-funds d c s value) in
    let (b0, there) =
      some_of (lookup (account_key d.asset_id d.counterparty_commitment) s.accounts)
        (check_value-counterparty d c s value paired) in
    let (b, to) =
      still_there (account_key d.asset_id d.counterparty_commitment)
        (account_key d.asset_id d.party_commitment) (debited now s.height d a) b0 s.accounts
        there in
    let (v, amount) = of_positive d.amount (amount-positive d valued) in
    let moved = move_value-run now d a b (listed env now d s) valued paired from to in
    rw
      (execute_contract_as-run env now d c s (after_move now d a b (listed env now d s)) moved
        found)
      (
        refl,
        moved-Conserved env now d c a b v s backed named amount
            (subst (λ z. z ≤ℤ a.balance) amount enough) from to,
      )

-- An execution that its tests accept, in a backed state, of a contract of an asset without a colon in
-- its name: if it bears no value, or names a counterparty, it succeeds and conserves the ledger.
pub execute_contract_as-Conserved :
    (env : Env) (now : ℤ) (d : ExecuteContractData) (s : State)
    → IsBacked s
    → NoColon d.asset_id
    → check_execute_contract d s ≡ ok tt
    → (bears_value d ≡ true → is_empty d.counterparty_commitment ≡ false)
    → (is_ok (execute_contract_as env now d s).0 ≡ true)
      × Conserved s (execute_contract_as env now d s).1
execute_contract_as-Conserved env now d s backed named tests paired =
    let (c, found) =
      is_there (lookup d.contract_id s.contracts) (check_execute_contract-there d s tests) in
    elim (Bool-cases (bears_value d)) [
      | inl e ↦ valued-Conserved env now d c s backed named tests found e (paired e)
      | inr e ↦ free-Conserved env now d c s backed e found
    ]

one_sided-less :
    (now h : ℤ) (d : ExecuteContractData) (a : AccountRecord) (v : ℕ) (s : State)
    → IsBacked s
    → NoColon d.asset_id
    → d.amount ≡ pos v
    → pos v ≤ℤ a.balance
    → lookup (account_key d.asset_id d.party_commitment) s.accounts ≡ some a
    → total d.asset_id
          (insert (account_key d.asset_id d.party_commitment) (debited now h d a) s.accounts)
        + v
      ≡ total d.asset_id s.accounts
one_sided-less now h d a v s backed named amount enough from =
    let paid =
      insert-Paid d.asset_id d.party_commitment v a (debited now h d a) s.accounts named
        backed.filed backed.unique from refl refl (ap (λ z. a.balance -ℤ z) amount)
        (omega (arith, enough)) (total-room d.asset_id s backed) in
    ground (arith, paid.less d.asset_id, ==_refl d.asset_id)

-- An execution that its tests accept, in a backed state, of a contract of an asset without a colon in
-- its name, that bears value and names no counterparty: it succeeds, the total of the asset falls by
-- the amount, and no supply record changes.
pub execute_contract_as-one_sided :
    (env : Env) (now : ℤ) (d : ExecuteContractData) (s : State)
    → IsBacked s
    → NoColon d.asset_id
    → check_execute_contract d s ≡ ok tt
    → bears_value d ≡ true
    → is_empty d.counterparty_commitment ≡ true
    → (is_ok (execute_contract_as env now d s).0 ≡ true)
      × (total d.asset_id (execute_contract_as env now d s).1.accounts + pos_part d.amount
          ≡ total d.asset_id s.accounts)
      × ((execute_contract_as env now d s).1.supply ≡ s.supply)
unfolding write_execution write_lists
execute_contract_as-one_sided env now d s backed named tests valued alone =
    let (c, found) =
      is_there (lookup d.contract_id s.contracts) (check_execute_contract-there d s tests) in
    let value = check_execute_contract-value d c s found tests valued in
    let (a, from, enough) =
      check_funds-enough (account_key d.asset_id d.party_commitment) d.amount s
        (check_value-funds d c s value) in
    let (v, amount) = of_positive d.amount (amount-positive d valued) in
    let moved = move_value-one_sided now d a (listed env now d s) valued alone from in
    let less =
      one_sided-less now s.height d a v s backed named amount
        (subst (λ z. z ≤ℤ a.balance) amount enough) from in
    rw
      (execute_contract_as-run env now d c s (after_debit now d a (listed env now d s)) moved found)
      (
        refl,
        ap
              (λ z.
                total d.asset_id (
                  insert (account_key d.asset_id d.party_commitment) (debited now s.height d a)
                    s.accounts)
                + pos_part z)
              amount
            ∙ less,
        refl,
      )
