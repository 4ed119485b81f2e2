-- ===== src/Wire/AdverseAction.antt =====
-- embodiments/shywire/state/adverse_action.go: what two authorities do to an account together.
pub mod Signed
use community.Base.{
  Bool, true, false, not, ◌&&◌, ◌||◌, none, some, [], ◌∷◌, ◌++◌, is_some, is_empty, if◌then◌else◌,
}
use community.Base.Result.{Result, ok, err, ◌>>◌, check, reject}
use community.Data.Bytes.{Bytes, bytes, ◌==◌}
use community.Data.Decimal.{format_dec}
use community.Data.GoMap.{GoMap, lookup, insert}
use community.Data.Int64.{ℤ, pos}
use community.Protocol.Events.{text, event, attribute}
use community.Wire.Env.{Env}
use community.Wire.Errors.{
  Error, invalid_payload, no_authority_keys, action_id_mismatch, action_exists, account_missing,
  reference_missing, eligibility_sig_failed, reconciling_sig_failed,
}
use community.Wire.State.{State, Handler, account_key, sentinel}
use community.Wire.Transfers.{hash_nonce}
use community.Wire.Txs.{Tx, AdverseActionData}
use community.Wire.Types.{AccountRecord, AuthorityActionRecord}

abbrev pub then_colon : Bytes → Bytes → Bytes
then_colon s rest = s ++ 58 ∷ rest

-- what is hashed into the message that both authorities sign
unfoldable pub adverse_action_text : AdverseActionData → Bytes
adverse_action_text d = then_colon (bytes "shyware-adverse-action") (
    then_colon d.action_type (
      then_colon d.account_commitment
        (then_colon d.asset_id (then_colon d.action_id (format_dec d.timestamp)))))

unfoldable pub adverse_action_canonical_message : Env → AdverseActionData → Bytes
unfolding adverse_action_text
adverse_action_canonical_message env d = env.sha256 (adverse_action_text d)

unfoldable pub check_adverse_action : Env → AdverseActionData → State → Result Error (Unit {0})
unfolding adverse_action_canonical_message
check_adverse_action env d s = do
  check (d.action_id == hash_nonce env d.action_nonce) action_id_mismatch
  reject (is_some (lookup d.action_id s.authority_actions)) action_exists
  check (is_some (lookup (account_key sentinel d.account_commitment) s.accounts)) account_missing
  reject
      (d.action_type == bytes "restore"
        && not (is_empty d.referenced_action_id)
        && not (is_some (lookup d.referenced_action_id s.authority_actions)))
      reference_missing
  check
      (env.ed25519_verify s.options.eligibility_authority_pub_key
        (adverse_action_canonical_message env d) d.eligibility_auth)
      eligibility_sig_failed
  check
      (env.ed25519_verify s.options.reconciliation_authority_pub_key
        (adverse_action_canonical_message env d) d.reconciliation_auth)
      reconciling_sig_failed

unfoldable pub validate_adverse_action : Env → Tx → State → Result Error (Unit {0})
unfolding check_adverse_action
validate_adverse_action env t s =
    if is_empty s.options.eligibility_authority_pub_key
      || is_empty s.options.reconciliation_authority_pub_key
    then err no_authority_keys
    else elim (env.decode_adverse_action t.payload) [
      | none ↦ err invalid_payload
      | some d ↦ check_adverse_action env d s
    ]

-- the `switch` on the type of the action; an unknown type changes no flag
unfoldable pub apply_action : Bytes → AccountRecord → AccountRecord
apply_action type a =
    if type == bytes "disable" || type == bytes "rescind"
    then record a { disabled = true; frozen = false }
    else if type == bytes "freeze"
    then (if a.disabled then a else record a { frozen = true })
    else if type == bytes "restore"
    then record a { disabled = false; frozen = false }
    else if type == bytes "redeem_forced"
    then record a { disabled = true; balance = pos 0 }
    else a

unfoldable pub is_target : AdverseActionData → AccountRecord → Bool
is_target d a =
    a.account_commitment == d.account_commitment
    && (is_empty d.asset_id || a.asset_id == d.asset_id)

-- the loop over all accounts
unfoldable pub apply_to_accounts : ℤ → AdverseActionData → GoMap AccountRecord → GoMap AccountRecord
unfolding apply_action is_target
apply_to_accounts height d [] = []
apply_to_accounts height d ((k, a) ∷ m) =
    (k, if is_target d a then record (apply_action d.action_type a) { height = height } else a)
    ∷ apply_to_accounts height d m

unfoldable pub action_record : ℤ → ℤ → AdverseActionData → AuthorityActionRecord
action_record now height d = record {
  action_id = d.action_id;
  account_commitment = d.account_commitment;
  asset_id = d.asset_id;
  action_type = d.action_type;
  referenced_action_id = d.referenced_action_id;
  eligibility_auth = d.eligibility_auth;
  reconciliation_auth = d.reconciliation_auth;
  reason = d.reason;
  timestamp = now;
  height = height;
}

unfoldable pub adverse_action_as : ℤ → AdverseActionData → Handler
unfolding action_record apply_to_accounts
adverse_action_as now d s = (
  ok (
      event (bytes "adverse_action") (
        attribute (bytes "action_id") (text d.action_id) true
        ∷ attribute (bytes "action_type") (text d.action_type) true
        ∷ [])
      ∷ []),
  record s {
    authority_actions = insert d.action_id (action_record now s.height d) s.authority_actions;
    accounts = apply_to_accounts s.height d s.accounts;
    dirty = true;
  },
)

unfoldable pub execute_adverse_action : Env → ℤ → Tx → Handler
unfolding adverse_action_as
execute_adverse_action env now t s = elim (env.decode_adverse_action t.payload) [
  | none ↦ (err invalid_payload, s)
  | some d ↦ adverse_action_as now d s
]
