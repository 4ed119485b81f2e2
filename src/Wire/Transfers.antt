-- ===== src/Wire/Transfers.antt =====
-- embodiments/shywire/state/transfers.go: transfers and the registration of accounts.
use community.Base.{true, Option, none, some, List, [], ◌∷◌, is_some, is_empty, if◌then◌else◌}
use community.Base.Exec.{◌>>◌, modify}
use community.Base.Result.{Result, ok, err}
use community.Base.Result
use community.Data.Bytes.{Bytes, bytes}
use community.Data.GoMap.{lookup, insert}
use community.Data.Hex.{hex_encode}
use community.Data.Int64.{ℤ, ltb_ℤ}
use community.Protocol.Events.{Event, text, event, attribute}
use community.Wire.AccountAuth.{
  verify_register_account_wallet_proof, verify_register_account_enrollment,
}
use community.Wire.Env.{Env}
use community.Wire.Errors.{
  Error, invalid_payload, unknown_asset, duplicate_transfer, account_missing, account_disabled,
  account_frozen, insufficient_balance, account_exists,
}
use community.Wire.State.{
  State, Handler, account_key, sentinel, update_account, credit, debit, done,
}
use community.Wire.Supply.{new_account}
use community.Wire.Txs.{Tx, TransferData, RegisterAccountData}
use community.Wire.Types.{AccountRecord}

unfoldable pub hash_nonce : Env → Bytes → Bytes
hash_nonce env nonce = hex_encode (env.sha256 nonce)

-- the tests of the sender's account
unfoldable pub check_sender : ℤ → Option AccountRecord → Result Error (Unit {0})
check_sender amount none = err account_missing
check_sender amount (some a) =
    if a.disabled
    then err account_disabled
    else if a.frozen
    then err account_frozen
    else Result.reject (ltb_ℤ a.balance amount) insufficient_balance

unfoldable pub check_recipient : Option AccountRecord → Result Error (Unit {0})
check_recipient none = err account_missing
check_recipient (some a) = Result.reject a.disabled account_disabled

unfoldable pub check_transfer : TransferData → State → Result Error (Unit {0})
unfolding check_sender check_recipient
check_transfer d s =
    if is_some (lookup d.asset_id s.assets)
    then if is_some (lookup d.nullifier s.participants)
      then err duplicate_transfer
      else elim (check_sender d.amount
          (lookup (account_key d.asset_id d.sender_commitment) s.accounts)) [
            | err e ↦ err e
            | ok _ ↦
                check_recipient (lookup (account_key d.asset_id d.recipient_commitment) s.accounts)
          ]
    else err unknown_asset

unfoldable pub validate_transfer : Env → Tx → State → Result Error (Unit {0})
unfolding check_transfer
validate_transfer env t s = elim (env.decode_transfer t.payload) [
  | none ↦ err invalid_payload
  | some d ↦ check_transfer d s
]

-- List 1 and List 2: what was moved, and who moved it
unfoldable pub write_lists : Env → ℤ → Bytes → Bytes → Bytes → ℤ → State → State
write_lists env now nonce nullifier asset_id amount s = record s {
  transfer_records =
      insert (hash_nonce env nonce)
        (record {
          transfer_id = hash_nonce env nonce;
          asset_id = asset_id;
          amount = amount;
          timestamp = now;
          height = s.height;
        })
        s.transfer_records;
  participants =
      insert nullifier
        (record {
          transfer_id = hash_nonce env nonce;
          identity_hash = nullifier;
          height = s.height;
        })
        s.participants;
}

-- `acct.Height = s.height`
abbrev pub set_height : ℤ → AccountRecord → AccountRecord
set_height height a = record a { height = height }

-- never the amount, the sender or the recipient
abbrev pub transfer_events : Env → TransferData → List Event
transfer_events env d =
    event (bytes "transfer") (
      attribute (bytes "asset_id") (text d.asset_id) true
      ∷ attribute (bytes "transfer_id") (text (hash_nonce env d.transfer_nonce)) true
      ∷ [])
    ∷ []

unfoldable pub transfer_as : Env → ℤ → TransferData → Handler
unfolding write_lists update_account done
transfer_as env now d s =
    (do
      modify (write_lists env now d.transfer_nonce d.nullifier d.asset_id d.amount)
      update_account (account_key d.asset_id d.sender_commitment)
          (λ a. set_height s.height (debit d.amount a))
      update_account (account_key d.asset_id d.recipient_commitment)
          (λ a. set_height s.height (credit d.amount a))
      done (transfer_events env d))
      s

unfoldable pub execute_transfer : Env → ℤ → Tx → Handler
unfolding transfer_as
execute_transfer env now t s = elim (env.decode_transfer t.payload) [
  | none ↦ (err invalid_payload, s)
  | some d ↦ transfer_as env now d s
]

unfoldable pub check_register_account : Env → RegisterAccountData → State → Result Error (Unit {0})
check_register_account env d s = elim (verify_register_account_wallet_proof env d) [
  | err e ↦ err e
  | ok _ ↦
      elim (verify_register_account_enrollment env d s.options.enrollment_authority_pub_key
        s.enrollment_records) [
          | err e ↦ err e
          | ok _ ↦
              Result.reject
                (is_some (lookup (account_key sentinel d.account_commitment) s.accounts))
                account_exists
        ]
]

unfoldable pub validate_register_account : Env → Tx → State → Result Error (Unit {0})
unfolding check_register_account
validate_register_account env t s = elim (env.decode_register_account t.payload) [
  | none ↦ err invalid_payload
  | some d ↦ check_register_account env d s
]

unfoldable pub register_account_as : RegisterAccountData → Handler
register_account_as d s = (
  ok (
      event (bytes "register_account")
        (attribute (bytes "account_commitment") (text d.account_commitment) true ∷ [])
      ∷ []),
  record s {
    accounts =
        insert (account_key sentinel d.account_commitment)
          (new_account sentinel d.account_commitment s.height) s.accounts;
    enrollment_records =
        if is_empty d.enrollment_token
        then s.enrollment_records
        else insert d.enrollment_token
            (record {
              token = d.enrollment_token;
              account_commitment = d.account_commitment;
              height = s.height;
            })
            s.enrollment_records;
    dirty = true;
  },
)

unfoldable pub execute_register_account : Env → Tx → Handler
unfolding register_account_as
execute_register_account env t s = elim (env.decode_register_account t.payload) [
  | none ↦ (err invalid_payload, s)
  | some d ↦ register_account_as d s
]
