-- ===== src/Wire/AdverseAction/Signed.antt =====
-- embodiments/shywire/state/adverse_action.go: what two authorities have signed when an action is
-- accepted.
use community.Base.{
  ◌≡◌, ◌≢◌, ◌↔◌, ap, ◌∙◌, true, false, none, some, is_some, is_empty, arith, Option-cases, inl, inr,
}
use community.Base.Result.{ok}
use community.Data.Bytes.{Bytes, bytes, ◌==◌}
use community.Data.GoMap.{lookup}
use community.Data.GoMap.Laws.{lookup-insert_self}
use community.Data.Int64.{ℤ}
use community.Wire.AdverseAction.{
  check_adverse_action, adverse_action_canonical_message, adverse_action_text, adverse_action_as,
  action_record, validate_adverse_action,
}
use community.Wire.Env.{Env}
use community.Wire.State.{State, account_key, sentinel}
use community.Wire.Transfers.{hash_nonce}
use community.Wire.Txs.{Tx, AdverseActionData}

-- What the tests of an action have shown.
pub record Signed (env : Env) (d : AdverseActionData) (s : State) : Type 0 where
  pub bound : (d.action_id == hash_nonce env d.action_nonce) ≡ true
  pub fresh : lookup d.action_id s.authority_actions ≡ none
  pub registered : is_some (lookup (account_key sentinel d.account_commitment) s.accounts) ≡ true
  pub refers :
      (d.action_type == bytes "restore") ≡ true
      → is_empty d.referenced_action_id ≡ false
      → is_some (lookup d.referenced_action_id s.authority_actions) ≡ true
  pub eligibility :
      env.ed25519_verify s.options.eligibility_authority_pub_key
        (adverse_action_canonical_message env d)
        d.eligibility_auth
      ≡ true
  pub reconciliation :
      env.ed25519_verify s.options.reconciliation_authority_pub_key
        (adverse_action_canonical_message env d)
        d.reconciliation_auth
      ≡ true

check_adverse_action-Signed :
    (env : Env) (d : AdverseActionData) (s : State)
    → check_adverse_action env d s ≡ ok tt
    → Signed env d s
unfolding check_adverse_action
check_adverse_action-Signed env d s h = record {
  bound = ground arith;
  fresh = ground arith;
  registered = ground arith;
  refers = λ e e'. ground arith;
  eligibility = ground arith;
  reconciliation = ground arith;
}

Signed-check_adverse_action :
    (env : Env) (d : AdverseActionData) (s : State)
    → Signed env d s
    → check_adverse_action env d s ≡ ok tt
unfolding check_adverse_action
Signed-check_adverse_action env d s a =
    ground (arith, a.bound, a.fresh, a.registered, a.refers, a.eligibility, a.reconciliation)

-- What the validation of an action transaction has shown.
pub record Authorised (env : Env) (t : Tx) (s : State) : Type 0 where
  pub eligibility_key : is_empty s.options.eligibility_authority_pub_key ≡ false
  pub reconciliation_key : is_empty s.options.reconciliation_authority_pub_key ≡ false
  pub action : AdverseActionData
  pub decodes : env.decode_adverse_action t.payload ≡ some action
  pub signed : Signed env action s

validate_adverse_action-Authorised :
    (env : Env) (t : Tx) (s : State) → validate_adverse_action env t s ≡ ok tt → Authorised env t s
unfolding validate_adverse_action
validate_adverse_action-Authorised env t s h =
    elim (Option-cases (env.decode_adverse_action t.payload)) [
      | inl e ↦ absurd (ground (arith, e))
      | inr (d, e) ↦ record {
        eligibility_key = ground arith;
        reconciliation_key = ground arith;
        action = d;
        decodes = e;
        signed = check_adverse_action-Signed env d s (ground (arith, e));
      }
    ]

Authorised-validate_adverse_action :
    (env : Env) (t : Tx) (s : State) → Authorised env t s → validate_adverse_action env t s ≡ ok tt
unfolding validate_adverse_action
Authorised-validate_adverse_action env t s a =
    rw (validate_adverse_action, a.eligibility_key, a.reconciliation_key, a.decodes)
      (Signed-check_adverse_action env a.action s a.signed)

-- An action transaction is accepted exactly if the keys of both authorities are configured, its
-- payload decodes, the id of the action is the hash of its nonce and is new, the commitment is
-- registered, a restoration that refers to an action refers to one that is recorded, and both
-- authorities have signed the message of the action.
pub validate_adverse_action_iff :
    (env : Env) (t : Tx) (s : State)
    → (validate_adverse_action env t s ≡ ok tt) ↔ Authorised env t s
validate_adverse_action_iff env t s =
    (validate_adverse_action-Authorised env t s, Authorised-validate_adverse_action env t s)

check_adverse_action-taken :
    (env : Env) (d : AdverseActionData) (s : State)
    → is_some (lookup d.action_id s.authority_actions) ≡ true
    → check_adverse_action env d s ≢ ok tt
check_adverse_action-taken env d s taken h =
    absurd (ground (arith, (check_adverse_action-Signed env d s h).fresh))

-- After an action has been executed, no action with its id is accepted.
pub adverse_action_as-once :
    (env : Env) (now : ℤ) (d d' : AdverseActionData) (s : State)
    → d'.action_id ≡ d.action_id
    → check_adverse_action env d' (adverse_action_as now d s).1 ≢ ok tt
unfolding adverse_action_as
adverse_action_as-once env now d d' s same =
    check_adverse_action-taken env d' (adverse_action_as now d s).1 (
      ap (λ k. is_some (lookup k (adverse_action_as now d s).1.authority_actions)) same
      ∙ ap is_some
          (lookup-insert_self d.action_id (action_record now s.height d) s.authority_actions))

-- An accepted action is accepted with any other recorded action as its reference, and with any
-- reason, under the same two signatures.
pub check_adverse_action-any_reference :
    (env : Env) (d : AdverseActionData) (s : State) (id reason : Bytes)
    → check_adverse_action env d s ≡ ok tt
    → is_some (lookup id s.authority_actions) ≡ true
    → check_adverse_action env (record d { referenced_action_id = id; reason = reason }) s ≡ ok tt
unfolding adverse_action_canonical_message adverse_action_text
check_adverse_action-any_reference env d s id reason h recorded =
    let signed = check_adverse_action-Signed env d s h in
    Signed-check_adverse_action env (record d { referenced_action_id = id; reason = reason }) s
      (record {
        bound = signed.bound;
        fresh = signed.fresh;
        registered = signed.registered;
        refers = λ e e'. recorded;
        eligibility = signed.eligibility;
        reconciliation = signed.reconciliation;
      })
