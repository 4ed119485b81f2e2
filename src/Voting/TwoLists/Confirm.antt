-- ===== src/Voting/TwoLists/Confirm.antt =====
-- What a confirmation does: neither list, one confirm and one re-attestation more.
use community.Base.{suc, ◌≡◌, refl, true, some, none, arith, Option-cases, inl, inr}
use community.Base.Result.{ok, is_ok}
use community.Data.Bytes.{Bytes}
use community.Data.GoMap.{lookup}
use community.Data.GoMap.Count.{count-insert_new}
use community.Data.GoMap.Laws.{lookup-insert_self}
use community.Data.Int64.{ℤ, pos, ◌+ℤ◌}
use community.Protocol.Txs.{Tx, ConfirmReceiptData}
use community.Protocol.Types.{Poll, ConfirmRecord}
use community.Voting.Ballots.{refresh_confirmed}
use community.Voting.Confirms.{
  identify_confirm, check_confirm, validate_confirm_receipt, write_confirm, confirm_as,
  execute_confirm_receipt,
}
use community.Voting.Env.{Env}
use community.Voting.State.{State, store_key, in_poll, confirmed_count_for_poll, update}
use community.Voting.TwoLists.Keys.{in_poll-store_key}

record Confirmable (d : ConfirmReceiptData) (s : State) : Type 0 where
  identity : Bytes
  identified : identify_confirm s d ≡ some identity
  poll : Poll
  found : lookup d.poll_id s.polls ≡ some poll
  unconfirmed : lookup (store_key d.poll_id identity) s.confirms ≡ none

check_confirm-Confirmable :
    (now : ℤ) (d : ConfirmReceiptData) (s : State) → check_confirm now d s ≡ ok tt → Confirmable d s
unfolding check_confirm
check_confirm-Confirmable now d s h = elim (Option-cases (identify_confirm s d)) [
  | inl e ↦ absurd (ground arith)
  | inr (i, e) ↦ elim (Option-cases (lookup d.poll_id s.polls)) [
    | inl f ↦ absurd (ground arith)
    | inr (poll, f) ↦ record {
      identity = i;
      identified = e;
      poll = poll;
      found = f;
      unconfirmed = ground arith;
    }
  ]
]

-- One confirm and one re-attestation more, and the same lists.
pub record Confirmed (p : Bytes) (s s' : State) : Type 0 where
  pub one_confirm : confirmed_count_for_poll p s' ≡ suc (confirmed_count_for_poll p s)
  pub before : Poll
  pub after : Poll
  pub found : (lookup p s.polls ≡ some before) × (lookup p s'.polls ≡ some after)
  pub one_reattestation : after.reattestation_count ≡ before.reattestation_count +ℤ pos 1
  pub votes : s'.vote_directions ≡ s.vote_directions
  pub registry : s'.voter_registry ≡ s.voter_registry

write_confirm-Confirmed :
    (d : ConfirmReceiptData) (i : Bytes) (poll : Poll) (s : State)
    → lookup d.poll_id s.polls ≡ some poll
    → lookup (store_key d.poll_id i) s.confirms ≡ none
    → Confirmed d.poll_id s (write_confirm d i s)
unfolding write_confirm refresh_confirmed confirmed_count_for_poll update
write_confirm-Confirmed d i poll s found new =
    let p = d.poll_id in
    let after : Poll = record poll { reattestation_count = poll.reattestation_count +ℤ pos 1 } in
    record {
      one_confirm = ground (
        arith,
        count-insert_new (λ key (_ : ConfirmRecord). in_poll p key) (store_key p i)
            (record { poll_id = p; identity_hash = i; height = s.height +ℤ pos 1 }) s.confirms new,
        in_poll-store_key p i,
      );
      before = poll;
      after = after;
      found = (found, ground (arith, lookup-insert_self p after s.polls));
      one_reattestation = refl;
      votes = refl;
      registry = refl;
    }

execute-confirm :
    (env : Env) (t : Tx) (d : ConfirmReceiptData) (i : Bytes) (s : State)
    → env.decode_confirm_receipt t.payload ≡ some d
    → identify_confirm s d ≡ some i
    → (is_ok (execute_confirm_receipt env t s).0 ≡ true)
      × ((execute_confirm_receipt env t s).1 ≡ write_confirm d i s)
unfolding execute_confirm_receipt confirm_as
execute-confirm env t d i s decoded identified = ground arith

accepted_confirm :
    (env : Env) (now : ℤ) (t : Tx) (d : ConfirmReceiptData) (s : State)
    → env.decode_confirm_receipt t.payload ≡ some d
    → validate_confirm_receipt env now t s ≡ ok tt
    → check_confirm now d s ≡ ok tt
unfolding validate_confirm_receipt
accepted_confirm env now t d s decoded accepted = ground arith

-- A confirmation that is accepted succeeds when it is executed in the same state: the poll has one
-- confirm more, its count of re-attestations is one higher, and both lists are the same.
pub execute_confirm_receipt-Confirmed :
    (env : Env) (now : ℤ) (t : Tx) (d : ConfirmReceiptData) (s : State)
    → env.decode_confirm_receipt t.payload ≡ some d
    → validate_confirm_receipt env now t s ≡ ok tt
    → (is_ok (execute_confirm_receipt env t s).0 ≡ true)
      × Confirmed d.poll_id s (execute_confirm_receipt env t s).1
execute_confirm_receipt-Confirmed env now t d s decoded accepted =
    let c = check_confirm-Confirmable now d s (accepted_confirm env now t d s decoded accepted) in
    let run = execute-confirm env t d c.identity s decoded c.identified in
    (run.0, rw run.1 (write_confirm-Confirmed d c.identity c.poll s c.found c.unconfirmed))
