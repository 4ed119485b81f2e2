-- ===== src/Voting/Authority.antt =====
-- domain/state/authority_rescind.go: rescission and restoration under two signatures.
pub mod Messages
pub mod Restore
pub mod Accepted
use community.Base.{
  Bool, true, false, not, ◌&&◌, ◌||◌, Option, none, some, List, [], ◌∷◌, ◌++◌, eqb, length,
  is_empty, is_some, if◌then◌else◌,
}
use community.Base.Result.{Result, ok, err, ◌>>=◌, ◌>>◌, check, reject, or_err}
use community.Data.Base64.{base64_decode}
use community.Data.Bytes.{Bytes, bytes, ◌==◌}
use community.Data.GoMap.{GoMap, lookup, insert, delete}
use community.Data.Int64.{ℤ, pos, negsuc, ◌+ℤ◌, ◌-ℤ◌, ltb_ℤ}
use community.Protocol.Errors.{
  Error, panic, invalid_payload, poll_missing, no_authority_keys, invalid_authority_key,
  ballot_missing, voter_missing, eligibility_sig_failed, reconciling_sig_failed, already_rescinded,
  not_rescinded, already_restored,
}
use community.Protocol.Events.{Event, text, dec, event, attribute}
use community.Protocol.Txs.{Tx, AuthorityRescindData, AuthorityRestoreData}
use community.Protocol.Types.{
  Poll, VoteRecord, Tally, RescindRecord, RestoreRecord, partition_sealed, voting_method_ranked,
}
use community.Voting.Attestation.Collect.{add_all, add_first}
use community.Voting.Env.{Env}
use community.Voting.State.{State, Handler, store_key, update}

-- the four fields that both messages bind, joined by colons
unfoldable pub bound_fields : Bytes → Bytes → Bytes → Bytes → Bytes
bound_fields poll_id ballot_id identity_hash ref =
    poll_id ++ (58 ∷ (ballot_id ++ (58 ∷ (identity_hash ++ (58 ∷ ref)))))

unfoldable pub rescind_message : Bytes → Bytes → Bytes → Bytes → Bytes
rescind_message p b i r = bytes "authority-rescind:" ++ bound_fields p b i r

unfoldable pub restore_message : Bytes → Bytes → Bytes → Bytes → Bytes
restore_message p b i r = bytes "authority-restore:" ++ bound_fields p b i r

-- base64 of a 32-byte Ed25519 key
unfoldable pub authority_key : Bytes → Option Bytes
authority_key key = elim (base64_decode key) [
  | none ↦ none
  | some raw ↦ if eqb (length raw) 32 then some raw else none
]

-- Both keys of the poll, decoded.
unfoldable pub authority_keys : Bytes → State → Result Error (Bytes × Bytes)
unfolding authority_key
authority_keys poll_id s = do
  poll ← or_err (lookup poll_id s.polls) poll_missing
  reject
      (is_empty poll.eligibility_authority_pub_key || is_empty poll.reconciling_authority_pub_key)
      no_authority_keys
  elig ← or_err (authority_key poll.eligibility_authority_pub_key) invalid_authority_key
  reconcile ← or_err (authority_key poll.reconciling_authority_pub_key) invalid_authority_key
  ok (elig, reconcile)

unfoldable pub check_signatures :
    Env → Bytes × Bytes → Bytes → Bytes → Bytes → Result Error (Unit {0})
check_signatures env (elig, reconcile) message elig_sig reconcile_sig = do
  check (env.ed25519_verify elig message elig_sig) eligibility_sig_failed
  check (env.ed25519_verify reconcile message reconcile_sig) reconciling_sig_failed

unfoldable pub check_rescind : Env → AuthorityRescindData → State → Result Error (Unit {0})
check_rescind env d s = do
  keys ← authority_keys d.poll_id s
  check (is_some (lookup (store_key d.poll_id d.ballot_id) s.vote_directions)) ballot_missing
  check (is_some (lookup (store_key d.poll_id d.identity_hash) s.voter_registry)) voter_missing
  check_signatures env keys (rescind_message d.poll_id d.ballot_id d.identity_hash d.revocation_ref)
      d.eligibility_sig d.reconciling_sig
  reject (is_some (lookup (store_key d.poll_id d.ballot_id) s.rescissions)) already_rescinded

unfoldable pub validate_authority_rescind : Env → Tx → State → Result Error (Unit {0})
unfolding check_rescind
validate_authority_rescind env t s = do
  d ← or_err (env.decode_authority_rescind t.payload) invalid_payload
  check_rescind env d s

-- the guarded decrements of the poll's counters
abbrev pub uncount_reattestation : Poll → Poll
uncount_reattestation p = record p {
  reattestation_count =
      if ltb_ℤ (pos 0) p.reattestation_count
      then p.reattestation_count -ℤ pos 1
      else p.reattestation_count;
}

abbrev pub uncount_sealed : Poll → Poll
uncount_sealed p = record p {
  sealed_count = if ltb_ℤ (pos 0) p.sealed_count then p.sealed_count -ℤ pos 1 else p.sealed_count;
}

unfoldable pub drop_confirm : Bytes → Bytes → State → State
drop_confirm poll_id identity_hash s =
    if is_some (lookup (store_key poll_id identity_hash) s.confirms)
    then record s {
      confirms = delete (store_key poll_id identity_hash) s.confirms;
      polls = update poll_id uncount_reattestation s.polls;
    }
    else s

unfoldable pub unseal : Bytes → Option VoteRecord → State → State
unseal poll_id none s = s
unseal poll_id (some vote) s =
    if vote.partition_id == partition_sealed
    then record s { polls = update poll_id uncount_sealed s.polls }
    else s

abbrev is_ranked : Option Poll → Bool
is_ranked none = false
is_ranked (some p) = p.voting_method == voting_method_ranked

-- the final tally without one vote
unfoldable pub uncount_vote : Bool → VoteRecord → Tally → Tally
uncount_vote ranked vote tally = record tally {
  total_votes = tally.total_votes -ℤ pos 1;
  counts =
      if ranked
      then add_first vote.choices (negsuc 0) tally.counts
      else add_all vote.choices (negsuc 0) tally.counts;
  rescission_count = tally.rescission_count +ℤ pos 1;
  attestation_degraded = true;
}

rescind_record : AuthorityRescindData → ℤ → RescindRecord
rescind_record d height = record {
  poll_id = d.poll_id;
  ballot_id = d.ballot_id;
  identity_hash = d.identity_hash;
  revocation_ref = d.revocation_ref;
  height = height;
}

-- steps 2 to 5: both entries, the confirm and the poll's counters
unfoldable pub remove_pair : AuthorityRescindData → Option VoteRecord → State → State
unfolding drop_confirm unseal
remove_pair d vote s = unseal d.poll_id vote (
    drop_confirm d.poll_id d.identity_hash (record s {
      vote_directions = delete (store_key d.poll_id d.ballot_id) s.vote_directions;
      voter_registry = delete (store_key d.poll_id d.identity_hash) s.voter_registry;
    }))

rescind_events : AuthorityRescindData → ℤ → List Event
rescind_events d height =
    event (bytes "authority_rescind") (
      attribute (bytes "scoping_id") (text d.poll_id) true
      ∷ attribute (bytes "submission_id") (text d.ballot_id) true
      ∷ attribute (bytes "identity_hash") (text d.identity_hash) false
      ∷ attribute (bytes "revocation_ref") (text d.revocation_ref) true
      ∷ attribute (bytes "height") (dec height) false
      ∷ [])
    ∷ []

-- steps 7 and 8
unfoldable pub record_rescission : AuthorityRescindData → State → State
unfolding rescind_record
record_rescission d s = record s {
  rescissions = insert (store_key d.poll_id d.ballot_id) (rescind_record d s.height) s.rescissions;
  dirty = true;
}

-- Step 6 reads the vote record only where there is a tally; without the record it is a nil
-- dereference, after `TotalVotes` is lowered.
unfoldable pub rescind_tally : AuthorityRescindData → Option VoteRecord → Option Tally → Handler
unfolding uncount_vote record_rescission rescind_events
rescind_tally d vote none s = (ok (rescind_events d s.height), record_rescission d s)
rescind_tally d none (some tally) s = (
  err panic,
  record s {
    tallies =
        insert d.poll_id (record tally { total_votes = tally.total_votes -ℤ pos 1 }) s.tallies;
  },
)
rescind_tally d (some vote) (some tally) s = (
  ok (rescind_events d s.height),
  record_rescission d (record s {
    tallies =
        insert d.poll_id (uncount_vote (is_ranked (lookup d.poll_id s.polls)) vote tally) s.tallies;
  }),
)

unfoldable pub rescind : AuthorityRescindData → Option VoteRecord → Handler
unfolding rescind_tally remove_pair
rescind d vote s =
    let s' = remove_pair d vote s in rescind_tally d vote (lookup d.poll_id s'.tallies) s'

unfoldable pub execute_authority_rescind : Env → Tx → Handler
unfolding rescind
execute_authority_rescind env t s = elim (env.decode_authority_rescind t.payload) [
  | none ↦ (err invalid_payload, s)
  | some d ↦ rescind d (lookup (store_key d.poll_id d.ballot_id) s.vote_directions) s
]
