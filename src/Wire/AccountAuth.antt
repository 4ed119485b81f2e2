-- ===== src/Wire/AccountAuth.antt =====
-- embodiments/shywire/state/account_auth.go: the proofs that go with registering an account.
use community.Base.{
  ℕ, zero, suc, ◌+◌, ◌-◌, ◌||◌, Option, none, some, [], ◌∷◌, ◌++◌, eqb, is_empty, is_some, length,
  if◌then◌else◌,
}
use community.Base.Result.{Result, ok, ◌>>=◌, ◌>>◌, check, reject, or_err}
use community.Data.Bytes.{Bytes, bytes, ◌==◌, has_prefix}
use community.Data.Decimal.{format_dec}
use community.Data.GoMap.{GoMap, lookup}
use community.Data.Hex.{hex_encode}
use community.Data.Int64.{pos}
use community.Wire.Env.{Env}
use community.Wire.Errors.{
  Error, wallet_proof_rejected, wallet_proof_mismatch, enrollment_required, enrollment_used,
  enrollment_invalid,
}
use community.Wire.Txs.{RegisterAccountData}
use community.Wire.Types.{EnrollmentRecord}

-- slices
unfoldable pub take_bytes : ℕ → Bytes → Bytes
take_bytes zero s = []
take_bytes (suc n) [] = []
take_bytes (suc n) (c ∷ s) = c ∷ take_bytes n s

unfoldable pub skip_bytes : ℕ → Bytes → Bytes
skip_bytes zero s = s
skip_bytes (suc n) [] = []
skip_bytes (suc n) (c ∷ s) = skip_bytes n s

unfoldable pub register_account_wallet_message : Env → Bytes → Bytes
register_account_wallet_message env commitment =
    env.sha256 (bytes "shyware-register-account:" ++ commitment)

unfoldable pub register_account_enrollment_message : Env → Bytes → Bytes → Bytes
register_account_enrollment_message env commitment token =
    env.sha256 (bytes "shyware-enroll-account:" ++ (commitment ++ 58 ∷ token))

-- the first byte of the compact form, from the recovery id
abbrev header_byte : Bytes → Option ℕ
header_byte [] = none
header_byte (id ∷ _) =
    if eqb id 27 || eqb id 28
    then some id
    else if eqb id 0 || eqb id 1
    then some (27 + id)
    else none

unfoldable pub ethereum_sig_to_compact : Bytes → Option Bytes
unfolding take_bytes skip_bytes
ethereum_sig_to_compact sig =
    if eqb (length sig) 65
    then (elim (header_byte (skip_bytes 64 sig)) [
      | none ↦ none
      | some h ↦ some (h ∷ take_bytes 64 sig)
    ])
    else none

-- 25 is the byte "\x19", 10 the line feed
unfoldable pub ethereum_personal_sign_hash : Env → Bytes → Bytes
ethereum_personal_sign_hash env message =
    env.keccak256
      (25 ∷ bytes "Ethereum Signed Message:" ++ (10 ∷ format_dec (pos (length message)) ++ message))

-- the key in the uncompressed form, by one of three readings of the proof
unfoldable pub recover_register_account_pub_key : Env → Bytes → Bytes → Option Bytes
unfolding register_account_wallet_message ethereum_sig_to_compact ethereum_personal_sign_hash
recover_register_account_pub_key env proof commitment =
    let msg = register_account_wallet_message env commitment in
    elim (env.recover_compact proof msg) [
      | some key ↦ some key
      | none ↦ elim (ethereum_sig_to_compact proof) [
        | none ↦ none
        | some compact ↦ elim (env.recover_compact compact msg) [
          | some key ↦ some key
          | none ↦ env.recover_compact compact (ethereum_personal_sign_hash env msg)
        ]
      ]
    ]

unfoldable pub evm_address_from_pub_key : Env → Bytes → Bytes
unfolding skip_bytes
evm_address_from_pub_key env uncompressed =
    let sum = env.keccak256 (skip_bytes 1 uncompressed) in
    bytes "0x" ++ hex_encode (skip_bytes (length sum - 20) sum)

unfoldable pub hash_account_commitment : Env → Bytes → Bytes
hash_account_commitment env address =
    hex_encode (env.sha256 (env.to_lower (env.trim_space address)))

-- `strings.TrimPrefix(address, "0x")`
abbrev trim_0x : Bytes → Bytes
trim_0x s = if has_prefix s (bytes "0x") then skip_bytes 2 s else s

unfoldable pub verify_register_account_wallet_proof :
    Env → RegisterAccountData → Result Error (Unit {0})
unfolding recover_register_account_pub_key evm_address_from_pub_key hash_account_commitment
verify_register_account_wallet_proof env d = do
  key ←
      or_err (recover_register_account_pub_key env d.wallet_proof d.account_commitment)
        wallet_proof_rejected
  check
      (hash_account_commitment env (evm_address_from_pub_key env key) == d.account_commitment
        || hash_account_commitment env (trim_0x (evm_address_from_pub_key env key))
          == d.account_commitment)
      wallet_proof_mismatch

unfoldable pub verify_register_account_enrollment :
    Env → RegisterAccountData → Bytes → GoMap EnrollmentRecord → Result Error (Unit {0})
unfolding register_account_enrollment_message
verify_register_account_enrollment env d authority used = if is_empty authority then ok tt else do
  reject (is_empty d.enrollment_token || is_empty d.enrollment_proof) enrollment_required
  reject (is_some (lookup d.enrollment_token used)) enrollment_used
  check
      (env.ed25519_verify authority
        (register_account_enrollment_message env d.account_commitment d.enrollment_token)
        d.enrollment_proof)
      enrollment_invalid
