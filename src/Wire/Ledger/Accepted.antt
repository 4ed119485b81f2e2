-- ===== src/Wire/Ledger/Accepted.antt =====
-- embodiments/shywire/state/transfers.go: when a transfer is accepted.
use community.Base.{◌↔◌, ◌≡◌, ◌≢◌, false, none, some, arith}
use community.Base.Result.{ok}
use community.Data.GoMap.{lookup}
use community.Data.Int64.{◌≤ℤ◌}
use community.Wire.Ledger.Kept.{is_there}
use community.Wire.State.{State, account_key}
use community.Wire.Transfers.{check_transfer}
use community.Wire.Txs.{TransferData}
use community.Wire.Types.{AccountRecord, AssetRecord}

-- What the tests of a transfer have shown.
pub record Accepted (d : TransferData) (s : State) : Type 0 where
  pub asset : AssetRecord
  pub sender : AccountRecord
  pub recipient : AccountRecord
  pub recorded : lookup d.asset_id s.assets ≡ some asset
  pub fresh : lookup d.nullifier s.participants ≡ none
  pub from : lookup (account_key d.asset_id d.sender_commitment) s.accounts ≡ some sender
  pub enabled : sender.disabled ≡ false
  pub thawed : sender.frozen ≡ false
  pub enough : d.amount ≤ℤ sender.balance
  pub to : lookup (account_key d.asset_id d.recipient_commitment) s.accounts ≡ some recipient
  pub receives : recipient.disabled ≡ false

check_transfer-asset :
    (d : TransferData) (s : State) → check_transfer d s ≡ ok tt → lookup d.asset_id s.assets ≢ none
unfolding check_transfer
check_transfer-asset d s h e = absurd (ground arith)

check_transfer-sender :
    (d : TransferData) (s : State)
    → check_transfer d s ≡ ok tt
    → lookup (account_key d.asset_id d.sender_commitment) s.accounts ≢ none
unfolding check_transfer
check_transfer-sender d s h e = absurd (ground arith)

check_transfer-recipient :
    (d : TransferData) (s : State)
    → check_transfer d s ≡ ok tt
    → lookup (account_key d.asset_id d.recipient_commitment) s.accounts ≢ none
unfolding check_transfer
check_transfer-recipient d s h e = absurd (ground arith)

pub check_transfer-Accepted :
    (d : TransferData) (s : State) → check_transfer d s ≡ ok tt → Accepted d s
unfolding check_transfer
check_transfer-Accepted d s h =
    let (asset, recorded) = is_there (lookup d.asset_id s.assets) (check_transfer-asset d s h) in
    let (sender, from) =
      is_there (lookup (account_key d.asset_id d.sender_commitment) s.accounts)
        (check_transfer-sender d s h) in
    let (recipient, to) =
      is_there (lookup (account_key d.asset_id d.recipient_commitment) s.accounts)
        (check_transfer-recipient d s h) in
    record {
      asset = asset;
      sender = sender;
      recipient = recipient;
      recorded = recorded;
      fresh = ground arith;
      from = from;
      enabled = ground arith;
      thawed = ground arith;
      enough = ground arith;
      to = to;
      receives = ground arith;
    }

pub Accepted-check_transfer :
    (d : TransferData) (s : State) → Accepted d s → check_transfer d s ≡ ok tt
unfolding check_transfer
Accepted-check_transfer d s a = ground arith

-- A transfer is accepted exactly if its asset is registered, its nullifier is unspent, the sender is
-- there, neither disabled nor frozen, and has the amount, and the recipient is there and not disabled.
pub check_transfer_iff :
    (d : TransferData) (s : State) → (check_transfer d s ≡ ok tt) ↔ Accepted d s
check_transfer_iff d s = (check_transfer-Accepted d s, Accepted-check_transfer d s)
