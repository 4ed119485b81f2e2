-- ===== src/Voting/Validators.antt =====
-- domain/state/validators.go: registering and removing a consensus validator.
use community.Base.{true, false, Option, none, some, List, [], ◌∷◌, ◌++◌, is_some, if◌then◌else◌}
use community.Base.Result.{Result, ok, err, check}
use community.Data.Base64.{base64_decode}
use community.Data.Bytes.{Bytes, bytes}
use community.Data.GoMap.{GoMap, insert, delete}
use community.Data.Int64.{ℤ, pos, eqb_ℤ}
use community.Protocol.Errors.{Error, invalid_payload, invalid_base64}
use community.Protocol.Events.{text, dec, event, attribute}
use community.Protocol.Txs.{Tx, ValidatorRegistrationData}
use community.Voting.Env.{Env}
use community.Voting.State.{State, Handler, ValidatorRecord, ValidatorUpdate}

unfoldable pub validate_validator_register : Env → Tx → Result Error (Unit {0})
validate_validator_register env t =
    check (is_some (env.decode_validator_registration t.payload)) invalid_payload

-- Power zero removes the validator, any other power sets it.
unfoldable pub set_validator :
    ValidatorRegistrationData → ℤ → GoMap ValidatorRecord → GoMap ValidatorRecord
set_validator d height m =
    if eqb_ℤ d.power (pos 0)
    then delete d.pub_key_base64 m
    else insert d.pub_key_base64
        (record {
          pub_key_base64 = d.pub_key_base64;
          power = d.power;
          name = d.name;
          height = height;
        })
        m

unfoldable pub register_with_key : ValidatorRegistrationData → Option Bytes → Handler
unfolding set_validator
register_with_key d none s = (err invalid_base64, s)
register_with_key d (some raw) s = (
  ok (
      event (bytes "validator_registered") (
        attribute (bytes "pub_key") (text d.pub_key_base64) false
        ∷ attribute (bytes "power") (dec d.power) false
        ∷ attribute (bytes "name") (text d.name) false
        ∷ [])
      ∷ []),
  record s {
    validators = set_validator d s.height s.validators;
    pending_validator_updates =
        s.pending_validator_updates ++ (record { pub_key = raw; power = d.power }) ∷ [];
    dirty = true;
  },
)

unfoldable pub execute_validator_register : Env → Tx → Handler
unfolding register_with_key
execute_validator_register env t s = elim (env.decode_validator_registration t.payload) [
  | none ↦ (err invalid_payload, s)
  | some d ↦ register_with_key d (base64_decode d.pub_key_base64) s
]

-- `GetPendingValidatorUpdates`
unfoldable pub get_pending_validator_updates : State → List ValidatorUpdate × State
get_pending_validator_updates s =
    (s.pending_validator_updates, record s { pending_validator_updates = [] })
