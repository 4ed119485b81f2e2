-- ===== src/Voting/Confirms.antt =====
-- domain/state/confirms.go: confirming a receipt.
use community.Base.{true, Option, none, some, [], ◌∷◌, is_some}
use community.Base.Result.{Result, ok, err, ◌>>=◌, ◌>>◌, check, reject, or_err}
use community.Data.Bytes.{Bytes, bytes}
use community.Data.GoMap.{lookup, insert}
use community.Data.Int64.{ℤ, pos, ◌+ℤ◌, ltb_ℤ}
use community.Protocol.Errors.{
  Error, panic, invalid_payload, poll_missing, poll_not_started, no_verifier, identity_failed,
  voter_missing, already_confirmed,
}
use community.Protocol.Events.{text, event, attribute}
use community.Protocol.Txs.{Tx, ConfirmReceiptData}
use community.Protocol.Types.{Poll}
use community.Voting.Ballots.{refresh_confirmed}
use community.Voting.Env.{Env}
use community.Voting.State.{State, Handler, store_key, update}

abbrev pub identify_confirm : State → ConfirmReceiptData → Option Bytes
identify_confirm s d = elim s.verifier [ none ↦ none | some v ↦ v.verify_and_identify_confirm d ]

unfoldable pub check_confirm : ℤ → ConfirmReceiptData → State → Result Error (Unit {0})
check_confirm now d s = do
  poll ← or_err (lookup d.poll_id s.polls) poll_missing
  reject (ltb_ℤ now poll.start_time) poll_not_started
  check (is_some s.verifier) no_verifier
  identity_hash ← or_err (identify_confirm s d) identity_failed
  check (is_some (lookup (store_key d.poll_id identity_hash) s.voter_registry)) voter_missing
  reject (is_some (lookup (store_key d.poll_id identity_hash) s.confirms)) already_confirmed

unfoldable pub validate_confirm_receipt : Env → ℤ → Tx → State → Result Error (Unit {0})
unfolding check_confirm
validate_confirm_receipt env now t s = do
  d ← or_err (env.decode_confirm_receipt t.payload) invalid_payload
  check_confirm now d s

abbrev count_reattestation : Poll → Poll
count_reattestation p = record p { reattestation_count = p.reattestation_count +ℤ pos 1 }

unfoldable pub write_confirm : ConfirmReceiptData → Bytes → State → State
unfolding refresh_confirmed
write_confirm d identity_hash s = refresh_confirmed d.poll_id (record s {
  confirms =
      insert (store_key d.poll_id identity_hash)
        (record { poll_id = d.poll_id; identity_hash = identity_hash; height = s.height +ℤ pos 1 })
        s.confirms;
  polls = update d.poll_id count_reattestation s.polls;
  dirty = true;
})

unfoldable pub confirm_as : ConfirmReceiptData → Option Bytes → Handler
unfolding write_confirm
confirm_as d none s = (err identity_failed, s)
confirm_as d (some identity_hash) s = (
  ok (
      event (bytes "confirmation_processed")
        (attribute (bytes "scoping_id") (text d.poll_id) true ∷ [])
      ∷ []),
  write_confirm d identity_hash s,
)

unfoldable pub execute_confirm_receipt : Env → Tx → Handler
unfolding confirm_as
execute_confirm_receipt env t s = elim (env.decode_confirm_receipt t.payload) [
  | none ↦ (err invalid_payload, s)
  | some d ↦ elim s.verifier [
    | none ↦ (err panic, s)
    | some v ↦ confirm_as d (v.verify_and_identify_confirm d) s
  ]
]
