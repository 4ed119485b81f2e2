-- ===== src/Wire/Storage/Durable.antt =====
-- embodiments/shywire/state/state.go, `Commit`: what of the ledger is in the store afterwards.
use community.Base.{◌≡◌, refl, ◌∙◌, true, false, some, ◌++◌}
use community.Data.Bytes.{Bytes, bytes, ◌==◌, has_prefix}
use community.Data.GoMap.{lookup, Unique}
use community.Data.GoMap.Laws.{lookup-insert}
use community.Voting.Storage.{Database}
use community.Voting.Storage.Laws.{lookup-put_all, lookup-put_all_other}
use community.Wire.State.{State}
use community.Wire.Storage.{
  Codecs, put_ledger, put_lists, put_custody, put_authority, put_state, put_state_and_hash, commit,
}
use community.Wire.Types.{AccountRecord, SupplyRecord}

-- a key that none of a group of loops writes
put_lists-other :
    (c : Codecs) (key : Bytes) (s : State) (db : Database)
    → has_prefix key (bytes "transfer:") ≡ false
    → has_prefix key (bytes "participant:") ≡ false
    → has_prefix key (bytes "contract:") ≡ false
    → has_prefix key (bytes "contract_execution:") ≡ false
    → lookup key (put_lists c s db) ≡ lookup key db
unfolding put_lists
put_lists-other c key s db h0 h1 h2 h3 =
    lookup-put_all_other c.execution (bytes "contract_execution:") key s.contract_executions _ h3
    ∙ (lookup-put_all_other c.contract (bytes "contract:") key s.contracts _ h2
        ∙ (lookup-put_all_other c.participant (bytes "participant:") key s.participants _ h1
            ∙ (lookup-put_all_other c.transfer (bytes "transfer:") key s.transfer_records _ h0)))

put_custody-other :
    (c : Codecs) (key : Bytes) (s : State) (db : Database)
    → has_prefix key (bytes "custody_policy:") ≡ false
    → has_prefix key (bytes "custody_operator:") ≡ false
    → has_prefix key (bytes "custody_sku:") ≡ false
    → has_prefix key (bytes "custody_lot:") ≡ false
    → has_prefix key (bytes "custody_redemption:") ≡ false
    → has_prefix key (bytes "custody_settlement:") ≡ false
    → has_prefix key (bytes "custody_demurrage:") ≡ false
    → lookup key (put_custody c s db) ≡ lookup key db
unfolding put_custody
put_custody-other c key s db h0 h1 h2 h3 h4 h5 h6 =
    lookup-put_all_other c.assessment (bytes "custody_demurrage:") key s.demurrage_assessments _ h6
    ∙ (lookup-put_all_other c.settlement (bytes "custody_settlement:") key s.redemption_settlements
          _ h5
        ∙ (lookup-put_all_other c.request (bytes "custody_redemption:") key s.redemption_requests _
              h4
            ∙ (lookup-put_all_other c.lot (bytes "custody_lot:") key s.intake_lots _ h3
                ∙ (lookup-put_all_other c.sku (bytes "custody_sku:") key s.accepted_sku_classes _ h2
                    ∙ (lookup-put_all_other c.operator (bytes "custody_operator:") key
                          s.warehouse_operators _ h1
                        ∙ (lookup-put_all_other c.policy (bytes "custody_policy:") key
                            s.consortium_policies _ h0))))))

put_authority-other :
    (c : Codecs) (key : Bytes) (s : State) (db : Database)
    → has_prefix key (bytes "enrollment:") ≡ false
    → has_prefix key (bytes "authority_action:") ≡ false
    → has_prefix key (bytes "validator:") ≡ false
    → lookup key (put_authority c s db) ≡ lookup key db
unfolding put_authority
put_authority-other c key s db h0 h1 h2 =
    lookup-put_all_other c.validator (bytes "validator:") key s.validators _ h2
    ∙ (lookup-put_all_other c.action (bytes "authority_action:") key s.authority_actions _ h1
        ∙ (lookup-put_all_other c.enrollment (bytes "enrollment:") key s.enrollment_records _ h0))

module _ (c : Codecs) (s : State) (db : Database) where
  put_state-account :
      (k : Bytes)
      → lookup (bytes "account:" ++ k) (put_state c s db)
        ≡ lookup (bytes "account:" ++ k) (put_ledger c s db)
  unfolding put_state has_prefix
  put_state-account k =
      put_authority-other c (bytes "account:" ++ k) s _ refl refl refl
      ∙ (put_custody-other c (bytes "account:" ++ k) s _ refl refl refl refl refl refl refl
          ∙ put_lists-other c (bytes "account:" ++ k) s _ refl refl refl refl)

  put_state-supply :
      (k : Bytes)
      → lookup (bytes "supply:" ++ k) (put_state c s db)
        ≡ lookup (bytes "supply:" ++ k) (put_ledger c s db)
  unfolding put_state has_prefix
  put_state-supply k =
      put_authority-other c (bytes "supply:" ++ k) s _ refl refl refl
      ∙ (put_custody-other c (bytes "supply:" ++ k) s _ refl refl refl refl refl refl refl
          ∙ put_lists-other c (bytes "supply:" ++ k) s _ refl refl refl refl)

  put_ledger-account :
      (k : Bytes) (a : AccountRecord)
      → Unique s.accounts
      → lookup k s.accounts ≡ some a
      → lookup (bytes "account:" ++ k) (put_ledger c s db) ≡ some (c.account.encode a)
  unfolding put_ledger has_prefix
  put_ledger-account k a u found =
      lookup-put_all_other c.supply (bytes "supply:") (bytes "account:" ++ k) s.supply _ refl
      ∙ (lookup-put_all c.account (bytes "account:") k s.accounts _ u ∙ rw found refl)

  put_ledger-supply :
      (x : Bytes) (sup : SupplyRecord)
      → Unique s.supply
      → lookup x s.supply ≡ some sup
      → lookup (bytes "supply:" ++ x) (put_ledger c s db) ≡ some (c.supply.encode sup)
  unfolding put_ledger
  put_ledger-supply x sup u found =
      lookup-put_all c.supply (bytes "supply:") x s.supply _ u ∙ rw found refl

  commit-other :
      (sha256 : Bytes → Bytes) (key : Bytes)
      → s.dirty ≡ true
      → (bytes "height" == key) ≡ false
      → (bytes "app_hash" == key) ≡ false
      → (bytes "custody_policy_current" == key) ≡ false
      → lookup key (commit sha256 c s db).2 ≡ lookup key (put_state c s db)
  unfolding commit put_state_and_hash
  commit-other sha256 key dirty h g p = rw dirty (
      lookup-insert key (bytes "custody_policy_current") _ _
      ∙ rw p (
          lookup-insert key (bytes "app_hash") _ _
          ∙ rw g (lookup-insert key (bytes "height") _ _ ∙ rw h refl)))

-- After the commit of a changed state whose accounts and supply records have different keys, the store
-- has every account and every supply record under its key, as it is in the state, whatever the store
-- had before.
pub commit-durable :
    (sha256 : Bytes → Bytes) (c : Codecs) (s : State) (db : Database) (k x : Bytes)
    (a : AccountRecord) (sup : SupplyRecord)
    → s.dirty ≡ true
    → Unique s.accounts
    → Unique s.supply
    → lookup k s.accounts ≡ some a
    → lookup x s.supply ≡ some sup
    → (lookup (bytes "account:" ++ k) (commit sha256 c s db).2 ≡ some (c.account.encode a))
      × (lookup (bytes "supply:" ++ x) (commit sha256 c s db).2 ≡ some (c.supply.encode sup))
unfolding ◌==◌
commit-durable sha256 c s db k x a sup dirty u u' found found' = (
  commit-other c s db sha256 (bytes "account:" ++ k) dirty refl refl refl
      ∙ (put_state-account c s db k ∙ put_ledger-account c s db k a u found),
  commit-other c s db sha256 (bytes "supply:" ++ x) dirty refl refl refl
      ∙ (put_state-supply c s db x ∙ put_ledger-supply c s db x sup u' found'),
)
