-- ===== src/Wire/Query/Paths.antt =====
-- embodiments/shywire/state/state.go, `Query`: what a path shows, and what no path shows.
use community.Base.{
  true, false, List, ◌||◌, ◌⊎◌, ◌↔◌, &&-true, ◌≡◌, refl, some, [], ◌∷◌, ◌++◌, is_some, is_empty,
  All, eqb, arith, Bool-cases, inl, inr,
}
use community.Data.Bytes.{Bytes, bytes, ◌==◌, ==_iff, has_prefix, has_prefix-shorter}
use community.Data.GoMap.{GoMap, lookup}
use community.Data.Int64.{ℤ}
use community.Voting.Storage.{drop_bytes}
use community.Wire.Query.{
  one_contract, public_transfer, account_actions, found_as, split_slash, is_action_of, actions_of,
  query_custody, query, public_record,
}
use community.Wire.State.{State}
use community.Wire.Types.{TransferRecord, AuthorityActionRecord, ContractExecutionRecord}

-- The path of an execution is taken for that of a contract.
pub query-execution :
    (id : Bytes) (s : State)
    → query (bytes "/contract/execution/" ++ id) s
      ≡ found_as one_contract (lookup (bytes "execution/" ++ id) s.contracts)
unfolding query has_prefix drop_bytes
query-execution id s = refl

abbrev pub NoSlash : Bytes → Type 0
NoSlash s = All (λ c. eqb c 47 ≡ false) s

split_slash-append : (a c : Bytes) → NoSlash a → split_slash (a ++ 47 ∷ c) ≡ some (a, c)
unfolding split_slash
split_slash-append [] c h = refl
split_slash-append (x ∷ a) c h = rw (split_slash, h.0, split_slash-append a c h.1) refl

-- The audited actions: those of the account, on the asset or on all assets.
pub record IsAudited (a c : Bytes) (r : AuthorityActionRecord) : Type 0 where
  pub of_account : r.account_commitment ≡ c
  pub on_asset : (r.asset_id ≡ a) ⊎ (r.asset_id ≡ [])

asset_test : (a x : Bytes) → ((x == a || is_empty x) ≡ true) ↔ ((x ≡ a) ⊎ (x ≡ []))
asset_test a [] = (λ h. inr refl, λ h. ground arith)
asset_test a (n ∷ x) = (
  λ h. inl ((==_iff (n ∷ x) a).0 (ground arith)),
  λ h. elim h [ inl e ↦ ground (arith, (==_iff (n ∷ x) a).1 e) | inr e ↦ absurd (ground arith) ],
)

is_action_of_iff :
    (a c : Bytes) (r : AuthorityActionRecord) → (is_action_of a c r ≡ true) ↔ IsAudited a c r
unfolding is_action_of
is_action_of_iff a c r = (
  λ h.
      let (account, asset) =
        &&-true (r.account_commitment == c) (r.asset_id == a || is_empty r.asset_id) h in
      record {
        of_account = (==_iff r.account_commitment c).0 account;
        on_asset = (asset_test a r.asset_id).0 asset;
      },
  λ h.
      rw ((==_iff r.account_commitment c).1 h.of_account, (asset_test a r.asset_id).1 h.on_asset)
        refl,
)

-- The audit of a map of actions: of its records in turn, those that are audited and no other.
pub data Audit (a c : Bytes)
    : GoMap AuthorityActionRecord → List AuthorityActionRecord → Type 0 where
  over : Audit a c [] []
  listed :
      (k : Bytes) (r : AuthorityActionRecord) {m : GoMap AuthorityActionRecord}
      {rs : List AuthorityActionRecord}
      → IsAudited a c r
      → Audit a c m rs
      → Audit a c ((k, r) ∷ m) (r ∷ rs)
  passed :
      (k : Bytes) (r : AuthorityActionRecord) {m : GoMap AuthorityActionRecord}
      {rs : List AuthorityActionRecord}
      → ¬ IsAudited a c r
      → Audit a c m rs
      → Audit a c ((k, r) ∷ m) rs

actions_of-Audit : (a c : Bytes) (m : GoMap AuthorityActionRecord) → Audit a c m (actions_of a c m)
unfolding actions_of
actions_of-Audit a c [] = over
actions_of-Audit a c ((k, r) ∷ m) =
    let rest = actions_of-Audit a c m in
    elim (Bool-cases (is_action_of a c r)) [
      | inl e ↦ rw (e, actions_of) (listed k r ((is_action_of_iff a c r).0 e) rest)
      | inr e ↦
          rw (e, actions_of)
            (passed k r (λ h. absurd (ground (arith, (is_action_of_iff a c r).1 h))) rest)
    ]

-- The audit path of an asset and an account, neither of them empty, the asset without a slash: the
-- answer lists, of the recorded actions in turn, those whose commitment is the account and whose
-- asset is the asset or empty, and no other.
pub query-authority_actions :
    (a c : Bytes) (s : State)
    → NoSlash a
    → is_empty a ≡ false
    → is_empty c ≡ false
    → (rs : List AuthorityActionRecord) × (query (bytes "/authority_actions/" ++ a ++ 47 ∷ c) s
        ≡ some (account_actions rs))
      × Audit a c s.authority_actions rs
unfolding query query_custody has_prefix drop_bytes ◌==◌
query-authority_actions a c s h ne ne' = (
  actions_of a c s.authority_actions,
  rw (split_slash-append a c h, ne, ne') refl,
  actions_of-Audit a c s.authority_actions,
)

-- the same transfers, with other amounts
unfoldable pub with_amounts : (Bytes → ℤ) → GoMap TransferRecord → GoMap TransferRecord
with_amounts f [] = []
with_amounts f ((k, r) ∷ m) = (k, record r { amount = f k }) ∷ with_amounts f m

module _ (f : Bytes → ℤ) where
  still_present :
      (k : Bytes) (m : GoMap TransferRecord)
      → is_some (lookup k (with_amounts f m)) ≡ is_some (lookup k m)
  unfolding with_amounts lookup
  still_present k [] = refl
  still_present k ((j, r) ∷ m) = ground (arith, still_present k m)

  same_public :
      (k : Bytes) (m : GoMap TransferRecord)
      → found_as (λ r. public_transfer (public_record r)) (lookup k (with_amounts f m))
        ≡ found_as (λ r. public_transfer (public_record r)) (lookup k m)
  unfolding with_amounts lookup
  same_public k [] = refl
  same_public k ((j, r) ∷ m) = elim (Bool-cases (j == k)) [
    | inl e ↦ rw (lookup, e) refl
    | inr e ↦ rw (lookup, e) (same_public k m)
  ]

-- The paths of executions begin as those of contracts do.
contract_path :
    (path : Bytes)
    → has_prefix path (bytes "/contract/") ≡ false
    → has_prefix path (bytes "/contract/execution/") ≡ false
contract_path path h = elim (Bool-cases (has_prefix path (bytes "/contract/execution/"))) [
  | inr e ↦ e
  | inl e ↦
      absurd (ground (arith, has_prefix-shorter (bytes "/contract/") (bytes "execution/") path e))
]

-- Every query has the same answer when the records of List 1 have other amounts and the records of
-- executions are any others: no path reads an amount there, or an execution. The balances and what
-- a contract has executed in all, which other paths do show, are left as they are.
pub query-with_amounts :
    (f : Bytes → ℤ) (executions : GoMap ContractExecutionRecord) (path : Bytes) (s : State)
    → query path (record s {
      transfer_records = with_amounts f s.transfer_records;
      contract_executions = executions;
    })
      ≡ query path s
unfolding query query_custody
query-with_amounts f executions path s = elim (Bool-cases (has_prefix path (bytes "/contract/"))) [
  | inl e ↦
      rw
        (
          query,
          e,
          still_present f (drop_bytes (bytes "/transfer_exists/") path) s.transfer_records,
          same_public f (drop_bytes (bytes "/transfer/") path) s.transfer_records,
        )
        refl
  | inr e ↦
      rw
        (
          query,
          contract_path path e,
          still_present f (drop_bytes (bytes "/transfer_exists/") path) s.transfer_records,
          same_public f (drop_bytes (bytes "/transfer/") path) s.transfer_records,
        )
        refl
]
