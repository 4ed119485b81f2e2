-- ===== src/Voting/Attestation.antt =====
-- domain/state/tallies.go and verify/verify.go: collecting the two lists of a poll, their Merkle
-- roots, the signing payload and its signature, and the rolling checkpoint.
pub mod Merkle
pub mod Collect
use community.Base.{
  ℕ, ◌+◌, ◌-◌, ◌/◌, ◌%◌, ◌^◌, Bool, true, false, Option, none, some, List, [], ◌∷◌, ◌++◌, length,
  eqb, if◌then◌else◌,
}
use community.Base.Result.{ok, err}
use community.Base.Exec.{Exec}
use community.Data.Bytes.{Bytes, bytes}
use community.Data.GoMap.{GoMap, lookup, insert}
use community.Data.Int64.{ℤ, pos, ◌+ℤ◌, to_bits}
use community.Data.Sort.{sort_strings}
use community.Protocol.Errors.{Error, panic, count_mismatch}
use community.Protocol.Events.{text, dec, hex, event, attribute}
use community.Protocol.Types.{Poll, VoteRecord, VoterRecord, AttestationCheckpoint}
use community.Voting.Attestation.Collect.{collect_votes, collect_identity_hashes, zero_counts}
use community.Voting.Attestation.Merkle.{compute_merkle_root}
use community.Voting.Choices.{effective_method}
use community.Voting.Env.{Env, Signer}
use community.Voting.State.{State, Handler}

-- eight bytes, big-endian
unfoldable pub enc64 : ℤ → Bytes
unfolding to_bits
enc64 z =
    let n = to_bits z in
    n / 2 ^ 56
    ∷ n / 2 ^ 48 % 256
    ∷ n / 2 ^ 40 % 256
    ∷ n / 2 ^ 32 % 256
    ∷ n / 2 ^ 24 % 256
    ∷ n / 2 ^ 16 % 256
    ∷ n / 2 ^ 8 % 256
    ∷ n % 256
    ∷ []

keys : GoMap ℤ → List Bytes
keys [] = []
keys ((k, v) ∷ m) = k ∷ keys m

-- `counts[k]`, zero where there is no entry
unfoldable pub count_of : GoMap ℤ → Bytes → ℤ
count_of m k = elim (lookup k m) [ none ↦ pos 0 | some n ↦ n ]

encode_counts : GoMap ℤ → List Bytes → Bytes
encode_counts m [] = []
encode_counts m (k ∷ ks) = k ++ (enc64 (count_of m k) ++ encode_counts m ks)

unfoldable pub build_signing_payload : Env → Bytes → Bytes → ℤ → GoMap ℤ → Bytes
unfolding keys encode_counts enc64 count_of
build_signing_payload env vote_root voter_root total counts = env.sha256 (
    vote_root ++ (voter_root ++ (enc64 total ++ encode_counts counts (sort_strings (keys counts)))))

-- The signature, and whether it is degraded: the payload stands in where the signer fails.
unfoldable pub sign_tally_payload : Option Signer → Bytes → Bytes × Bool
sign_tally_payload none payload = (payload, false)
sign_tally_payload (some s) payload = elim (s.sign payload) [
  | none ↦ (payload, true)
  | some sig ↦ (sig, false)
]

unfoldable pub public_key_for : Option Signer → Bool → Bytes
public_key_for none degraded = []
public_key_for (some s) degraded = if degraded then [] else s.public_key_der

unfoldable pub checkpoints_for : State → Bytes → List AttestationCheckpoint
checkpoints_for s poll_id = elim (lookup poll_id s.checkpoints) [ none ↦ [] | some l ↦ l ]

-- the body of `commitRollingAttestation` once the poll is found
unfoldable pub attest_poll : Env → ℤ → Bytes → Poll → Handler
attest_poll env now poll_id poll s =
    let method = effective_method poll.voting_method in
    let collected = collect_votes poll_id method s.vote_directions (zero_counts poll.options []) in
    let ballot_ids = collected.0 in
    let identity_hashes = collect_identity_hashes poll_id s.voter_registry in
    let total = length ballot_ids in
    let l1 = compute_merkle_root env.sha256 ballot_ids in
    let l2 = compute_merkle_root env.sha256 identity_hashes in
    let signed = sign_tally_payload s.signer (build_signing_payload env l1 l2 (pos total) []) in
    let old = checkpoints_for s poll_id in
    let cp : AttestationCheckpoint = record {
      poll_id = poll_id;
      sequence_number = pos (length old);
      total_submissions = pos total;
      l1_commitment = l1;
      l2_commitment = l2;
      signature = signed.0;
      public_key = public_key_for s.signer signed.1;
      attestation_degraded = signed.1;
      committed_at = now;
      height = s.height +ℤ pos 1;
    } in
    if eqb (length identity_hashes) total
    then (
      ok (
          event (bytes "rolling_attestation") (
            attribute (bytes "scoping_id") (text poll_id) true
            ∷ attribute (bytes "sequence") (dec (pos (length old))) false
            ∷ attribute (bytes "total_submissions") (dec (pos total)) false
            ∷ attribute (bytes "l1_commitment") (hex l1) false
            ∷ attribute (bytes "l2_commitment") (hex l2) false
            ∷ [])
          ∷ []),
      record s { checkpoints = insert poll_id (old ++ cp ∷ []) s.checkpoints; dirty = true },
    )
    else (err count_mismatch, s)

-- A poll that does not exist is a nil dereference.
unfoldable pub commit_rolling_attestation : Env → ℤ → Bytes → Handler
commit_rolling_attestation env now poll_id s = elim (lookup poll_id s.polls) [
  | none ↦ (err panic, s)
  | some poll ↦ attest_poll env now poll_id poll s
]
