-- ===== src/Tests/Wire/Queries.antt =====
-- Runs of the theorems on queries.
use community.Base.{◌≡◌, refl, some, List, [], ◌∷◌, ◌++◌}
use community.Data.Bytes.{bytes}
use community.Data.Int64.{pos}
use community.Tests.Wire.{gold, ann, funded, action_data}
use community.Wire.AdverseAction.{action_record}
use community.Wire.Query.{account_actions, query}
use community.Wire.Query.Paths.{query-with_amounts, query-authority_actions, with_amounts, Audit}
use community.Wire.State.{State}
use community.Wire.Types.{AuthorityActionRecord}

abbrev shown : State
shown = record funded {
  transfer_records =
      (
        bytes "x",
        record {
          transfer_id = bytes "x";
          asset_id = gold;
          amount = pos 30;
          timestamp = pos 1;
          height = pos 0;
        },
      )
      ∷ [];
  authority_actions =
      (bytes "a", action_record (pos 1) (pos 0) (action_data (bytes "freeze")))
      ∷ (
        bytes "b",
        action_record (pos 1) (pos 0)
            (record (action_data (bytes "freeze")) { asset_id = bytes "silver" }),
      )
      ∷ [];
}

query-with_amounts_example :
    query (bytes "/transfer/x") (record shown {
      transfer_records = with_amounts (λ k. pos 7) shown.transfer_records;
      contract_executions = [];
    })
    ≡ query (bytes "/transfer/x") shown
query-with_amounts_example = query-with_amounts (λ k. pos 7) [] (bytes "/transfer/x") shown

query-authority_actions_example :
    (rs : List AuthorityActionRecord) × (query
        (bytes "/authority_actions/" ++ gold ++ 47 ∷ ann)
        shown
      ≡ some (account_actions rs))
    × Audit gold ann shown.authority_actions rs
query-authority_actions_example =
    query-authority_actions gold ann shown (refl, (refl, (refl, (refl, tt)))) refl refl
