-- ===== src/Voting/Authority/Accepted.antt =====
-- What an accepted rescission and an accepted restoration are.
use community.Base.{
  ◌≡◌, ◌↔◌, true, false, some, arith, length, is_some, is_empty, Option-cases, inl, inr,
}
use community.Base.Result.{ok}
use community.Data.Bytes.{Bytes}
use community.Data.GoMap.{lookup}
use community.Protocol.Txs.{AuthorityRescindData, AuthorityRestoreData}
use community.Protocol.Types.{Poll}
use community.Voting.Authority.{
  authority_key, authority_keys, check_signatures, rescind_message, restore_message, check_rescind,
}
use community.Voting.Authority.Restore.{check_restore}
use community.Voting.Env.{Env}
use community.Voting.State.{State, store_key}

authority_key-length : (k raw : Bytes) → authority_key k ≡ some raw → length raw ≡ 32
unfolding authority_key
authority_key-length k raw h = ground arith

-- The keys of a poll, where both decode: they are 32 bytes each, and neither of the poll's texts is
-- empty.
pub authority_keys-found :
    (p elig reconcile : Bytes) (s : State)
    → authority_keys p s ≡ ok (elig, reconcile)
    → (length elig ≡ 32)
      × (length reconcile ≡ 32)
      × ((poll : Poll) × (lookup p s.polls ≡ some poll)
          × (is_empty poll.eligibility_authority_pub_key ≡ false)
          × (is_empty poll.reconciling_authority_pub_key ≡ false))
unfolding authority_keys authority_key
authority_keys-found p elig reconcile s h = elim (Option-cases (lookup p s.polls)) [
  | inl e ↦ absurd (ground arith)
  | inr (poll, e) ↦ (ground arith, ground arith, (poll, e, ground arith, ground arith))
]

-- Both keys verify their signature of one message.
abbrev pub BothSign : Env → Bytes → Bytes → Bytes → Bytes → Bytes → Type 0
BothSign env elig reconcile message elig_sig reconcile_sig =
    (env.ed25519_verify elig message elig_sig ≡ true)
    × (env.ed25519_verify reconcile message reconcile_sig ≡ true)

-- In a poll whose two authority keys are 32 bytes each, a rescission is accepted exactly if both
-- verify their signature of its message, the ballot and the identity are in the lists, and the
-- ballot is not rescinded already.
pub check_rescind_iff :
    (env : Env) (d : AuthorityRescindData) (elig reconcile : Bytes) (s : State)
    → authority_keys d.poll_id s ≡ ok (elig, reconcile)
    → (check_rescind env d s ≡ ok tt) ↔ (
        BothSign env elig reconcile
          (rescind_message d.poll_id d.ballot_id d.identity_hash d.revocation_ref)
          d.eligibility_sig
          d.reconciling_sig
        × (is_some (lookup (store_key d.poll_id d.ballot_id) s.vote_directions) ≡ true)
        × (is_some (lookup (store_key d.poll_id d.identity_hash) s.voter_registry) ≡ true)
        × (is_some (lookup (store_key d.poll_id d.ballot_id) s.rescissions) ≡ false))
unfolding check_rescind check_signatures
check_rescind_iff env d elig reconcile s keys = (λ h. ground arith, λ h. ground arith)

-- In such a poll, a restoration is accepted exactly if both verify their signature of its message,
-- the ballot is rescinded, and the identity holds no grant.
pub check_restore_iff :
    (env : Env) (d : AuthorityRestoreData) (elig reconcile : Bytes) (s : State)
    → authority_keys d.poll_id s ≡ ok (elig, reconcile)
    → (check_restore env d s ≡ ok tt) ↔ (
        BothSign env elig reconcile
          (restore_message d.poll_id d.ballot_id d.identity_hash d.revocation_ref)
          d.eligibility_sig
          d.reconciling_sig
        × (is_some (lookup (store_key d.poll_id d.ballot_id) s.rescissions) ≡ true)
        × (is_some (lookup (store_key d.poll_id d.identity_hash) s.restores) ≡ false))
unfolding check_restore check_signatures
check_restore_iff env d elig reconcile s keys = (λ h. ground arith, λ h. ground arith)
