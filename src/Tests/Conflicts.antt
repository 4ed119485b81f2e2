-- ===== src/Tests/Conflicts.antt =====
-- Runs of the theorems on what breaks the match of the lists, or tells too little apart.
use community.Base.{◌≡◌, refl, true, false, some, none, [], ◌∷◌, ◌++◌, suc}
use community.Base.Result.{ok, err, is_ok}
use community.Data.Base64.{base64_decode}
use community.Data.Bytes.{bytes, ◌==◌, has_prefix}
use community.Data.GoMap.{lookup, count, Unique}
use community.Data.Int64.{pos}
use community.Protocol.Errors.{panic, count_mismatch}
use community.Protocol.Txs.Validate.{check_key}
use community.Protocol.Types.{Tally}
use community.Tests.{
  p, env, opened, voted, tx, cast, cast_1, nonce_1, nonce_2, ballot_1, ballot_2, vote, voter,
  close_data, update_data, rescind_data, reseal_data, authority,
}
use community.Voting.Authority.{rescind_message, execute_authority_rescind}
use community.Voting.Authority.Messages.{rescind_message-collides}
use community.Voting.Ballots.Checks.{check_identity, check_update, has_restore_grant}
use community.Voting.Batch.{Candidate, write_candidate}
use community.Voting.Close.{execute_poll_close}
use community.Voting.Polls.{check_keys}
use community.Voting.Polls.Laws.{check_keys-newline}
use community.Voting.Reseal.{execute_reseal_vote, reseal_vote, seal_in_poll}
use community.Voting.State.{State, store_key, in_poll, voter_count_for_poll}
use community.Voting.TwoLists.{ballots, voters, CountMatch}
use community.Voting.TwoLists.Recast.{
  check_identity-grant, write_candidate-taken, write_candidate-foreign,
}
use community.Voting.TwoLists.Rescind.{execute_authority_rescind-twice}
use community.Voting.TwoLists.Seal.{Sealed, execute_reseal_vote-Sealed, execute_poll_close-sealed}
use community.Voting.TwoLists.Update.{check_update-any_ballot}

voted_match : CountMatch p voted
unfolding ballots voters voter_count_for_poll count in_poll has_prefix
voted_match = refl

seal_done : is_ok (execute_reseal_vote env (tx 8 []) voted).0 ≡ true
unfolding execute_reseal_vote reseal_vote seal_in_poll lookup ◌==◌ store_key
seal_done = refl

execute_reseal_vote-Sealed_example : Sealed p voted (execute_reseal_vote env (tx 8 []) voted).1
execute_reseal_vote-Sealed_example =
    execute_reseal_vote-Sealed env (tx 8 []) reseal_data voted refl seal_done

execute_poll_close-sealed_run :
    execute_poll_close env (pos 101) (tx 3 []) (execute_reseal_vote env (tx 8 []) voted).1
    ≡ (err count_mismatch, (execute_reseal_vote env (tx 8 []) voted).1)
execute_poll_close-sealed_run =
    execute_poll_close-sealed env (pos 101) (tx 8 []) (tx 3 []) reseal_data close_data voted refl
      refl refl voted_match seal_done

-- ann votes again, with another nonce
abbrev second : Candidate
second = record {
  cast = cast nonce_2 (bytes "no") (bytes "ann");
  ballot_id = ballot_2;
  identity_hash = bytes "ann";
}

abbrev restored : State
restored = record voted {
  restores =
      (
        bytes "p:ann",
        record {
          poll_id = p;
          ballot_id = ballot_1;
          identity_hash = bytes "ann";
          revocation_ref = bytes "r";
          eligibility_sig = [];
          reconciling_sig = [];
          height = pos 1;
        },
      )
      ∷ [];
}

ann_registered :
    lookup (store_key p (bytes "ann")) restored.voter_registry ≡ some (voter (bytes "ann"))
unfolding lookup store_key ◌==◌
ann_registered = refl

ann_granted : has_restore_grant p (bytes "ann") restored ≡ true
unfolding has_restore_grant lookup store_key ◌==◌
ann_granted = refl

second_new : lookup (store_key p ballot_2) restored.vote_directions ≡ none
unfolding lookup store_key ◌==◌
second_new = refl

restored_match : CountMatch p restored
unfolding ballots voters voter_count_for_poll count in_poll has_prefix
restored_match = refl

check_identity-grant_run :
    (check_identity second.cast restored ≡ ok tt)
    × ¬ CountMatch p (write_candidate env second restored)
check_identity-grant_run =
    check_identity-grant env second (voter (bytes "ann")) restored refl ann_registered ann_granted
      second_new restored_match

-- bob casts a ballot under the id of ann's
abbrev taken : Candidate
taken = record {
  cast = cast nonce_1 (bytes "no") (bytes "bob");
  ballot_id = ballot_1;
  identity_hash = bytes "bob";
}

bob_unregistered : lookup (store_key p (bytes "bob")) voted.voter_registry ≡ none
unfolding lookup store_key ◌==◌
bob_unregistered = refl

id_taken : lookup (store_key p ballot_1) voted.vote_directions ≡ some (vote ballot_1)
unfolding lookup store_key ◌==◌
id_taken = refl

write_candidate-taken_run : ¬ CountMatch p (write_candidate env taken voted)
write_candidate-taken_run =
    write_candidate-taken env taken (vote ballot_1) voted bob_unregistered id_taken voted_match

-- a ballot of the poll "p:q"
abbrev foreign : Candidate
foreign = record {
  cast = record cast_1 { poll_id = bytes "p:q" };
  ballot_id = ballot_1;
  identity_hash = bytes "ann";
}

write_candidate-foreign_run :
    (ballots p (write_candidate env foreign opened) ≡ suc (ballots p opened))
    × (voters p (write_candidate env foreign opened) ≡ suc (voters p opened))
write_candidate-foreign_run =
    write_candidate-foreign env p (bytes "q") foreign opened refl (unfold lookup in refl)
      (unfold lookup in refl)

-- ann and bob have a ballot each
abbrev two : State
two = record voted {
  vote_directions =
      (bytes "p:" ++ ballot_1, vote ballot_1) ∷ (bytes "p:" ++ ballot_2, vote ballot_2) ∷ [];
  voter_registry = (bytes "p:ann", voter (bytes "ann")) ∷ (bytes "p:bob", voter (bytes "bob")) ∷ [];
}

first_there : lookup (store_key p ballot_1) two.vote_directions ≡ some (vote ballot_1)
unfolding lookup store_key ◌==◌
first_there = refl

other_there : lookup (store_key p ballot_2) two.vote_directions ≡ some (vote ballot_2)
unfolding lookup store_key ◌==◌
other_there = refl

check_update-any_ballot_run :
    check_update env (pos 50) (record (update_data []) { old_ballot_id = ballot_2 }) two
    ≡ check_update env (pos 50) (update_data []) two
check_update-any_ballot_run =
    check_update-any_ballot env (pos 50) (update_data []) ballot_2 (vote ballot_1) (vote ballot_2)
      two first_there other_there refl

abbrev tally : Tally
tally = record {
  poll_id = p;
  voting_method = bytes "plurality";
  counts = (bytes "yes", pos 1) ∷ (bytes "no", pos 0) ∷ [];
  total_votes = pos 1;
  confirmed_count = pos 0;
  vote_merkle_root = [];
  voter_merkle_root = [];
  signature = [];
  public_key = [];
  finalized_at = pos 101;
  height = pos 1;
  attestation_degraded = false;
  rescission_count = pos 0;
}

abbrev closed : State
closed = record voted { tallies = (p, tally) ∷ [] }

tally_there : lookup p closed.tallies ≡ some tally
unfolding lookup ◌==◌
tally_there = refl

closed-Unique : Unique closed.vote_directions
unfolding lookup
closed-Unique = (refl, tt)

execute_authority_rescind-twice_example :
    (execute_authority_rescind env (tx 9 []) (execute_authority_rescind env (tx 9 []) closed).1).0
    ≡ err panic
execute_authority_rescind-twice_example =
    execute_authority_rescind-twice env (tx 9 []) rescind_data (vote ballot_1) tally closed refl
      id_taken tally_there closed-Unique

rescind_message-collides_run :
    rescind_message (bytes "p" ++ 58 ∷ bytes "x") (bytes "b") (bytes "i") (bytes "r")
    ≡ rescind_message (bytes "p") (bytes "x" ++ 58 ∷ bytes "b") (bytes "i") (bytes "r")
rescind_message-collides_run =
    rescind_message-collides (bytes "p") (bytes "x") (bytes "b") (bytes "i") (bytes "r")

authority_valid : check_key authority ≡ ok tt
unfolding check_key base64_decode
authority_valid = refl

check_keys-newline_run :
    (check_keys authority (10 ∷ authority) ≡ ok tt)
    × (base64_decode (10 ∷ authority) ≡ base64_decode authority)
check_keys-newline_run = check_keys-newline authority refl authority_valid
