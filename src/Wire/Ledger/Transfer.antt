-- ===== src/Wire/Ledger/Transfer.antt =====
-- embodiments/shywire/state/transfers.go: an accepted transfer, and the abstract ledger.
use community.Base.{ℕ, ◌≡◌, refl, ◌≢◌, ap, ◌∙◌, subst, true, some, if◌then◌else◌, is_some, arith}
use community.Base.Exec.{>>-ok, ◌>>◌}
use community.Base.Result.{ok, is_ok}
use community.Data.Bytes.{Bytes, ◌==◌}
use community.Data.GoMap.{lookup, insert}
use community.Data.GoMap.Entries.{lookup-Entries}
use community.Data.GoMap.Laws.{lookup-insert_self}
use community.Data.Int64.{ℤ, pos, ◌≤ℤ◌, ◌<ℤ◌, ◌+ℤ◌, ◌-ℤ◌}
use community.Wire.Env.{Env}
use community.Wire.Ledger.{NoColon, total, IsBacked}
use community.Wire.Ledger.Accepted.{Accepted, check_transfer-Accepted}
use community.Wire.Ledger.Abstract.{
  balance_of, subtract_at, add_at, balance_of-debit, balance_of-credit,
}
use community.Wire.Ledger.Kept.{Kept-IsBacked, of_positive, still_there, move-Kept}
use community.Wire.Ledger.Supply.{update_account-run, Backing-of, supply_of}
use community.Wire.State.{State, account_key, update_account, credit, debit, done}
use community.Wire.Transfers.{
  check_transfer, transfer_as, write_lists, set_height, transfer_events, hash_nonce,
}
use community.Wire.Txs.{TransferData}
use community.Wire.Types.{AccountRecord}

-- the account of the sender, and then that of the recipient
abbrev pub paid_sender : ℤ → ℤ → AccountRecord → AccountRecord
paid_sender h amount a = set_height h (debit amount a)

abbrev pub paid_recipient : ℤ → ℤ → AccountRecord → AccountRecord
paid_recipient h amount a = set_height h (credit amount a)

-- the state after a transfer
abbrev pub transferred : Env → ℤ → TransferData → AccountRecord → AccountRecord → State → State
transferred env now d a b s =
    record (write_lists env now d.transfer_nonce d.nullifier d.asset_id d.amount s) {
      accounts =
          insert (account_key d.asset_id d.recipient_commitment)
            (paid_recipient s.height d.amount b)
            (insert (account_key d.asset_id d.sender_commitment) (paid_sender s.height d.amount a)
              s.accounts);
      dirty = true;
    }

transfer_as-run :
    (env : Env) (now : ℤ) (d : TransferData) (a b : AccountRecord) (s : State)
    → lookup (account_key d.asset_id d.sender_commitment) s.accounts ≡ some a
    → lookup (account_key d.asset_id d.recipient_commitment) (
        insert
          (account_key d.asset_id d.sender_commitment)
          (paid_sender s.height d.amount a)
          s.accounts)
      ≡ some b
    → transfer_as env now d s ≡ (ok (transfer_events env d), transferred env now d a b s)
unfolding transfer_as
transfer_as-run env now d a b s from to =
    let pay =
      update_account (account_key d.asset_id d.sender_commitment) (paid_sender s.height d.amount) in
    let receive =
      update_account (account_key d.asset_id d.recipient_commitment)
        (paid_recipient s.height d.amount) in
    let listed = write_lists env now d.transfer_nonce d.nullifier d.asset_id d.amount s in
    let paid = record listed {
      accounts =
          insert (account_key d.asset_id d.sender_commitment) (paid_sender s.height d.amount a)
            s.accounts;
    } in
    >>-ok pay (receive >> done (transfer_events env d)) listed paid tt
      (update_account-run (account_key d.asset_id d.sender_commitment)
        (paid_sender s.height d.amount) a listed from)
      (>>-ok receive (done (transfer_events env d)) paid
        (record paid {
          accounts =
              insert (account_key d.asset_id d.recipient_commitment)
                (paid_recipient s.height d.amount b) paid.accounts;
        })
        tt
        (update_account-run (account_key d.asset_id d.recipient_commitment)
          (paid_recipient s.height d.amount) b paid to)
        refl)

-- What a transfer does to the ledger: the balances are those of an abstract ledger in which the amount
-- is moved, and nothing else of it changes.
pub record Transferred (env : Env) (d : TransferData) (s s' : State) : Type 0 where
  pub backed : IsBacked s'
  pub totals : (y : Bytes) → total y s'.accounts ≡ total y s.accounts
  pub supply : s'.supply ≡ s.supply
  pub moved :
      (k : Bytes)
      → balance_of s'.accounts k
        ≡ add_at
            (account_key d.asset_id d.recipient_commitment)
            d.amount
            (subtract_at
              (account_key d.asset_id d.sender_commitment)
              d.amount
              (balance_of s.accounts))
            k
  pub listed : is_some (lookup (hash_nonce env d.transfer_nonce) s'.transfer_records) ≡ true
  pub spent : is_some (lookup d.nullifier s'.participants) ≡ true

transferred-Transferred :
    (env : Env) (now : ℤ) (d : TransferData) (a b : AccountRecord) (v : ℕ) (s : State)
    → IsBacked s
    → Accepted d s
    → d.amount ≡ pos v
    → lookup (account_key d.asset_id d.sender_commitment) s.accounts ≡ some a
    → pos v ≤ℤ a.balance
    → lookup (account_key d.asset_id d.recipient_commitment) (
        insert
          (account_key d.asset_id d.sender_commitment)
          (paid_sender s.height d.amount a)
          s.accounts)
      ≡ some b
    → Transferred env d s (transferred env now d a b s)
unfolding write_lists
transferred-Transferred env now d a b v s backed accepted amount from enough to =
    let k = account_key d.asset_id d.sender_commitment in
    let k' = account_key d.asset_id d.recipient_commitment in
    let a' = paid_sender s.height d.amount a in
    let b' = paid_recipient s.height d.amount b in
    let named =
      lookup-Entries (λ x _. NoColon x) d.asset_id accepted.asset s.assets accepted.recorded
        backed.named in
    let (sup, supplied) = supply_of d.asset_id accepted.asset s backed accepted.recorded in
    let own = Backing-of d.asset_id accepted.asset sup s backed accepted.recorded supplied in
    let kept =
      move-Kept d.asset_id d.sender_commitment d.recipient_commitment v a a' b b' s.accounts named
        backed.filed backed.unique (omega (arith, own.2)) from (omega (arith, enough)) refl refl
        (ap (λ z. a.balance -ℤ z) amount) to refl refl (ap (λ z. b.balance +ℤ z) amount) in
    record {
      backed = Kept-IsBacked s (transferred env now d a b s) backed kept refl refl;
      totals = kept.same;
      supply = refl;
      moved = λ j.
          balance_of-credit j k' d.amount b b' (insert k a' s.accounts) to refl
          ∙ ap (λ z. if k' == j then z +ℤ d.amount else z)
              (balance_of-debit j k d.amount a a' s.accounts from refl);
      listed =
          ap is_some (lookup-insert_self (hash_nonce env d.transfer_nonce) _ s.transfer_records);
      spent = ap is_some (lookup-insert_self d.nullifier _ s.participants);
    }

-- A transfer that its tests accept, of a positive amount, in a backed state: it succeeds; the balances
-- afterwards are those of the abstract ledger with the amount subtracted from the sender and added to
-- the recipient; no total and no supply changes, the state is backed, the record is in List 1, and the
-- nullifier is in List 2.
pub transfer_as-Transferred :
    (env : Env) (now : ℤ) (d : TransferData) (s : State)
    → IsBacked s
    → check_transfer d s ≡ ok tt
    → pos 0 <ℤ d.amount
    → (is_ok (transfer_as env now d s).0 ≡ true) × Transferred env d s (transfer_as env now d s).1
transfer_as-Transferred env now d s backed tests positive =
    let accepted = check_transfer-Accepted d s tests in
    let (v, amount) = of_positive d.amount positive in
    let a = accepted.sender in
    let (b, to) =
      still_there (account_key d.asset_id d.recipient_commitment)
        (account_key d.asset_id d.sender_commitment) (paid_sender s.height d.amount a)
        accepted.recipient s.accounts accepted.to in
    rw (transfer_as-run env now d a b s accepted.from to) (
      refl,
      transferred-Transferred env now d a b v s backed accepted amount accepted.from
          (subst (λ z. z ≤ℤ a.balance) amount accepted.enough) to,
    )

check_transfer-spent :
    (d : TransferData) (s : State)
    → is_some (lookup d.nullifier s.participants) ≡ true
    → check_transfer d s ≢ ok tt
check_transfer-spent d s spent h = absurd (ground (arith, (check_transfer-Accepted d s h).fresh))

-- After an accepted transfer of a positive amount, in a backed state, no transfer with its nullifier
-- is accepted.
pub transfer_as-once :
    (env : Env) (now : ℤ) (d d' : TransferData) (s : State)
    → IsBacked s
    → check_transfer d s ≡ ok tt
    → pos 0 <ℤ d.amount
    → d'.nullifier ≡ d.nullifier
    → check_transfer d' (transfer_as env now d s).1 ≢ ok tt
transfer_as-once env now d d' s backed tests positive same =
    let s' = (transfer_as env now d s).1 in
    check_transfer-spent d' s' (
      ap (λ k. is_some (lookup k s'.participants)) same
      ∙ (transfer_as-Transferred env now d s backed tests positive).1.spent)
