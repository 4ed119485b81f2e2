-- ===== src/Tests/Blocks.antt =====
-- Runs of the theorems on blocks, batches, checkpoints and Merkle roots.
use mathlib.Core.List.{Perm}
use community.Base.{ℕ, zero, suc, ◌≡◌, ◌⊎◌, refl, some, none, List, [], ◌∷◌, length, arith}
use community.Base.Result.{ok}
use community.Data.Bytes.{Bytes, bytes, ◌==◌}
use community.Data.GoMap.{lookup}
use community.Data.Hex.{hex_decode, hex_encode}
use community.Data.Int64.{pos}
use community.Protocol.Nonce.{derive_submission_id}
use community.Tests.{
  p, env, opened, voted, tx, cast, cast_1, cast_2, nonce_1, ballot_1, ballot_2, batch, batch_back,
  batch_exchanged, batch_opposed, nonce_2, verifier,
}
use community.Voting.App.{ExecTxResult, execute_raw, execute_txs, finalize_block, check_tx}
use community.Voting.App.Laws.{length-finalize_block}
use community.Voting.Attestation.Merkle.{merkle_loop, compute_merkle_root}
use community.Voting.Attestation.Merkle.Laws.{length-merkle_loop}
use community.Voting.Attestation.Merkle.Binding.{RootCollision, compute_merkle_root-binds}
use community.Voting.Ballots.{
  cast_ballot_id, derive_ballot_id_with_beacon, compute_ballot_id_with_beacon, submission_count,
}
use community.Voting.Ballots.Accepted.{SameBut}
use community.Voting.Batch.{Candidate, to_candidates, execute_batch_flush, roll_batch}
use community.Voting.Batch.Permuted.{Reordered, AllDiffer, execute_batch_flush-Reordered}
use community.Voting.Batch.Rolling.{Ended, roll_batch-Ended}
use community.Voting.Batch.Unlinked.{
  execute_batch_flush-votes_unlinked, execute_batch_flush-registry_unlinked,
}
use community.Voting.Invariant.{IsFiled}
use community.Voting.Invariant.Reachable.{Runs, reachable-IsFiled, check_tx-SameBut}
use community.Voting.State.{State, new_state}
use community.Voting.Validators.{get_pending_validator_updates}

-- a node checks a poll's creation and then finalizes a block with it and with bytes that are none
abbrev raws : List Bytes
raws = (1 ∷ 1 ∷ []) ∷ [] ∷ []

reachable-IsFiled_example :
    IsFiled
      (finalize_block env
        (pos 1)
        (pos 1)
        nonce_1
        raws
        (check_tx env (pos 0) (1 ∷ 1 ∷ []) (new_state none (some verifier))).1).1
reachable-IsFiled_example =
    reachable-IsFiled env none (some verifier) _
      (Runs.block (pos 1) (pos 1) nonce_1 raws (Runs.check (pos 0) (1 ∷ 1 ∷ []) Runs.start))

check_tx-SameBut_run : SameBut opened (check_tx env (pos 50) (7 ∷ 1 ∷ []) opened).1
check_tx-SameBut_run = check_tx-SameBut env (pos 50) (7 ∷ 1 ∷ []) opened

-- two raw transactions that do not decode
abbrev undecoded : List ExecTxResult
undecoded = (record { code = 1; events = [] }) ∷ (record { code = 1; events = [] }) ∷ []

block_done :
    (finalize_block env (pos 1) (pos 1) nonce_1 ([] ∷ [] ∷ []) opened).0 ≡ some (undecoded, [])
unfolding finalize_block execute_txs execute_raw get_pending_validator_updates
block_done = refl

length-finalize_block_run :
    (length undecoded ≡ 2)
    × ((finalize_block env
          (pos 1)
          (pos 1)
          nonce_1
          ([] ∷ [] ∷ [])
          opened).1.pending_validator_updates
        ≡ [])
length-finalize_block_run =
    length-finalize_block env (pos 1) (pos 1) nonce_1 ([] ∷ [] ∷ []) undecoded [] opened block_done

abbrev candidate_1 : Candidate
candidate_1 = record { cast = cast_1; ballot_id = ballot_1; identity_hash = bytes "ann" }

abbrev candidate_2 : Candidate
candidate_2 = record { cast = cast_2; ballot_id = ballot_2; identity_hash = bytes "bob" }

batch_candidates :
    to_candidates env opened.verifier batch.submissions ≡ ok (candidate_1 ∷ candidate_2 ∷ [])
unfolding to_candidates cast_ballot_id derive_ballot_id_with_beacon compute_ballot_id_with_beacon
    derive_submission_id hex_decode hex_encode ◌==◌
batch_candidates = refl

back_candidates :
    to_candidates env opened.verifier batch_back.submissions ≡ ok (candidate_2 ∷ candidate_1 ∷ [])
unfolding to_candidates cast_ballot_id derive_ballot_id_with_beacon compute_ballot_id_with_beacon
    derive_submission_id hex_decode hex_encode ◌==◌
back_candidates = refl

ids_differ : AllDiffer (candidate_1 ∷ candidate_2 ∷ [])
ids_differ = (((λ e. absurd (ground (arith, e))), tt), (tt, tt))

execute_batch_flush-Reordered_example :
    execute_batch_flush env (pos 50) (tx 7 (1 ∷ [])) opened
    ≡ execute_batch_flush env (pos 50) (tx 7 (2 ∷ [])) opened
execute_batch_flush-Reordered_example =
    execute_batch_flush-Reordered env (pos 50) (tx 7 (1 ∷ [])) (tx 7 (2 ∷ [])) batch batch_back
      (candidate_1 ∷ candidate_2 ∷ []) (candidate_2 ∷ candidate_1 ∷ []) opened refl refl refl
      batch_candidates back_candidates (Reordered.swap candidate_1 candidate_2 []) ids_differ

-- the same ballots, the voters exchanged
abbrev yes_by_bob : Candidate
yes_by_bob = record {
  cast = cast nonce_1 (bytes "yes") (bytes "bob");
  ballot_id = ballot_1;
  identity_hash = bytes "bob";
}

abbrev no_by_ann : Candidate
no_by_ann = record {
  cast = cast nonce_2 (bytes "no") (bytes "ann");
  ballot_id = ballot_2;
  identity_hash = bytes "ann";
}

-- the same voters, the choices exchanged
abbrev no_first : Candidate
no_first = record {
  cast = cast nonce_1 (bytes "no") (bytes "ann");
  ballot_id = ballot_1;
  identity_hash = bytes "ann";
}

abbrev yes_second : Candidate
yes_second = record {
  cast = cast nonce_2 (bytes "yes") (bytes "bob");
  ballot_id = ballot_2;
  identity_hash = bytes "bob";
}

exchanged_candidates :
    to_candidates env opened.verifier batch_exchanged.submissions ≡ ok (yes_by_bob ∷ no_by_ann ∷ [])
unfolding to_candidates cast_ballot_id derive_ballot_id_with_beacon compute_ballot_id_with_beacon
    derive_submission_id hex_decode hex_encode ◌==◌
exchanged_candidates = refl

opposed_candidates :
    to_candidates env opened.verifier batch_opposed.submissions ≡ ok (no_first ∷ yes_second ∷ [])
unfolding to_candidates cast_ballot_id derive_ballot_id_with_beacon compute_ballot_id_with_beacon
    derive_submission_id hex_decode hex_encode ◌==◌
opposed_candidates = refl

execute_batch_flush-votes_unlinked_example :
    (execute_batch_flush env (pos 50) (tx 7 (1 ∷ [])) opened).1.vote_directions
    ≡ (execute_batch_flush env (pos 50) (tx 7 (3 ∷ [])) opened).1.vote_directions
execute_batch_flush-votes_unlinked_example =
    execute_batch_flush-votes_unlinked env (pos 50) (tx 7 (1 ∷ [])) (tx 7 (3 ∷ [])) batch
      batch_exchanged (candidate_1 ∷ candidate_2 ∷ []) (yes_by_bob ∷ no_by_ann ∷ []) opened refl
      refl batch_candidates exchanged_candidates
      (
        record { same_poll = refl; same_id = refl; same_choices = refl; same_key = refl },
        (record { same_poll = refl; same_id = refl; same_choices = refl; same_key = refl }, tt),
      )

execute_batch_flush-registry_unlinked_example :
    (execute_batch_flush env (pos 50) (tx 7 (1 ∷ [])) opened).1.voter_registry
    ≡ (execute_batch_flush env (pos 50) (tx 7 (4 ∷ [])) opened).1.voter_registry
execute_batch_flush-registry_unlinked_example =
    execute_batch_flush-registry_unlinked env (pos 50) (tx 7 (1 ∷ [])) (tx 7 (4 ∷ [])) batch
      batch_opposed (candidate_1 ∷ candidate_2 ∷ []) (no_first ∷ yes_second ∷ []) opened refl refl
      batch_candidates opposed_candidates
      (
        record { same_poll = refl; same_id = refl; same_identity = refl },
        (record { same_poll = refl; same_id = refl; same_identity = refl }, tt),
      )

-- five submissions against a threshold of two
abbrev counted : State
counted = record voted {
  attestation_mode = bytes "rolling";
  rolling_threshold = pos 2;
  submission_counts = (p, pos 5) ∷ [];
}

counted_five : submission_count p counted ≡ pos 5
unfolding submission_count lookup ◌==◌
counted_five = refl

roll_batch-Ended_example : Ended env (pos 50) p (roll_batch 5 env (pos 50) p counted)
roll_batch-Ended_example =
    roll_batch-Ended env (pos 50) p 5 counted 5 1 refl counted_five (omega arith) (omega arith)

length-merkle_loop_example :
    length (merkle_loop env.sha256 3 (bytes "a" ∷ bytes "b" ∷ bytes "c" ∷ [])) ≡ 1
length-merkle_loop_example =
    length-merkle_loop env.sha256 3 (bytes "a") (bytes "b" ∷ bytes "c" ∷ []) (omega arith)

-- a stand-in for a hash: the first 32 bytes, filled up with zeros
abbrev cut : ℕ → Bytes → Bytes
cut zero x = []
cut (suc n) [] = 0 ∷ cut n []
cut (suc n) (c ∷ x) = c ∷ cut n x

length-cut : (n : ℕ) (x : Bytes) → length (cut n x) ≡ n
length-cut zero x = refl
length-cut (suc n) [] = omega (arith, length-cut n [])
length-cut (suc n) (c ∷ x) = omega (arith, length-cut n x)

abbrev two_ids : List Bytes
two_ids = bytes "a" ∷ bytes "b" ∷ []

abbrev two_others : List Bytes
two_others = bytes "b" ∷ bytes "a" ∷ []

compute_merkle_root-binds_example :
    (Perm two_ids two_others
      → compute_merkle_root (cut 32) two_ids ≡ compute_merkle_root (cut 32) two_others)
    × (compute_merkle_root (cut 32) two_ids ≡ compute_merkle_root (cut 32) two_others
        → Perm two_ids two_others ⊎ RootCollision (cut 32) two_ids two_others)
compute_merkle_root-binds_example =
    compute_merkle_root-binds (cut 32) (length-cut 32) two_ids two_others refl
