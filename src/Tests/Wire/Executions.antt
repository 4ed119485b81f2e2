-- ===== src/Tests/Wire/Executions.antt =====
-- Runs of the theorems on the execution of contracts.
use community.Base.{◌+◌, ◌≡◌, refl, true, []}
use community.Base.Result.{ok, is_ok}
use community.Data.Bytes.{◌==◌}
use community.Data.GoMap.{lookup}
use community.Data.Int64.{pos}
use community.Tests.Wire.{gold, bob, env, contracted, funded, contract_data}
use community.Tests.Wire.Ledger.{funded-IsBacked, gold-NoColon}
use community.Wire.Contracts.Execution.{check_execute_contract, check_value, execute_contract_as}
use community.Wire.Ledger.{IsBacked, total}
use community.Wire.Ledger.Executions.{
  Conserved, execute_contract_as-Conserved, execute_contract_as-one_sided,
}
use community.Wire.Ledger.Operations.{SameLedger-IsBacked}
use community.Wire.State.{account_key}
use community.Wire.Supply.{check_funds}

contracted-IsBacked : IsBacked contracted
contracted-IsBacked = SameLedger-IsBacked funded contracted (refl, refl, refl) funded-IsBacked

paired-check : check_execute_contract (contract_data bob) contracted ≡ ok tt
unfolding check_execute_contract check_value check_funds lookup ◌==◌ account_key
paired-check = refl

execute_contract_as-Conserved_example :
    (is_ok (execute_contract_as env (pos 5) (contract_data bob) contracted).0 ≡ true)
    × Conserved contracted (execute_contract_as env (pos 5) (contract_data bob) contracted).1
execute_contract_as-Conserved_example =
    execute_contract_as-Conserved env (pos 5) (contract_data bob) contracted contracted-IsBacked
      gold-NoColon paired-check (λ e. refl)

alone-check : check_execute_contract (contract_data []) contracted ≡ ok tt
unfolding check_execute_contract check_value check_funds lookup ◌==◌ account_key
alone-check = refl

execute_contract_as-one_sided_example :
    let s' = (execute_contract_as env (pos 5) (contract_data []) contracted).1 in
    (is_ok (execute_contract_as env (pos 5) (contract_data []) contracted).0 ≡ true)
    × (total gold s'.accounts + 25 ≡ total gold contracted.accounts)
    × (s'.supply ≡ contracted.supply)
execute_contract_as-one_sided_example =
    execute_contract_as-one_sided env (pos 5) (contract_data []) contracted contracted-IsBacked
      gold-NoColon alone-check refl refl
