-- ===== src/Voting/Authority/Restore.antt =====
-- domain/state/authority_rescind.go: restoration.
use community.Base.{true, false, none, some, List, [], ◌∷◌, is_some}
use community.Base.Result.{Result, ok, err, ◌>>=◌, ◌>>◌, check, reject, or_err}
use community.Data.Bytes.{bytes}
use community.Data.GoMap.{lookup, insert}
use community.Data.Int64.{ℤ}
use community.Protocol.Errors.{Error, invalid_payload, not_rescinded, already_restored}
use community.Protocol.Events.{Event, text, dec, event, attribute}
use community.Protocol.Txs.{Tx, AuthorityRestoreData}
use community.Voting.Env.{Env}
use community.Voting.State.{State, Handler, store_key}
use community.Voting.Authority.{authority_keys, check_signatures, restore_message}

unfoldable pub check_restore : Env → AuthorityRestoreData → State → Result Error (Unit {0})
check_restore env d s = do
  keys ← authority_keys d.poll_id s
  check (is_some (lookup (store_key d.poll_id d.ballot_id) s.rescissions)) not_rescinded
  reject (is_some (lookup (store_key d.poll_id d.identity_hash) s.restores)) already_restored
  check_signatures env keys (restore_message d.poll_id d.ballot_id d.identity_hash d.revocation_ref)
      d.eligibility_sig d.reconciling_sig

unfoldable pub validate_authority_restore : Env → Tx → State → Result Error (Unit {0})
unfolding check_restore
validate_authority_restore env t s = do
  d ← or_err (env.decode_authority_restore t.payload) invalid_payload
  check_restore env d s

restore_events : AuthorityRestoreData → ℤ → List Event
restore_events d height =
    event (bytes "authority_restore") (
      attribute (bytes "scoping_id") (text d.poll_id) true
      ∷ attribute (bytes "submission_id") (text d.ballot_id) true
      ∷ attribute (bytes "revocation_ref") (text d.revocation_ref) true
      ∷ attribute (bytes "height") (dec height) false
      ∷ [])
    ∷ []

unfoldable pub execute_authority_restore : Env → Tx → Handler
unfolding restore_events
execute_authority_restore env t s = elim (env.decode_authority_restore t.payload) [
  | none ↦ (err invalid_payload, s)
  | some d ↦ (
    ok (restore_events d s.height),
    record s {
      restores =
          insert (store_key d.poll_id d.identity_hash)
            (record {
              poll_id = d.poll_id;
              ballot_id = d.ballot_id;
              identity_hash = d.identity_hash;
              revocation_ref = d.revocation_ref;
              eligibility_sig = d.eligibility_sig;
              reconciling_sig = d.reconciling_sig;
              height = s.height;
            })
            s.restores;
      dirty = true;
    },
  )
]
