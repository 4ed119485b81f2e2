-- ===== src/Tests.antt =====
-- Concrete inputs: an environment whose hash is the identity and whose signatures are the messages
-- themselves, a running poll, and the transactions of two voters. The first byte of a raw
-- transaction is its type, the rest its payload.
mod Lists
mod Validation
mod Blocks
mod Conflicts
mod Storage
mod Wire
use community.Base.{
  ℕ, Bool, true, false, Option, some, none, List, [], ◌∷◌, ◌++◌, replicate, eqb, if◌then◌else◌,
}
use community.Data.Bytes.{Bytes, bytes, ◌==◌}
use community.Data.GoMap.{GoMap}
use community.Data.Int64.{ℤ, pos}
use community.Protocol.Txs.{
  Tx, PollCreateData, BallotCastData, PollCloseData, BatchFlushData, BallotUpdateData,
  ConfirmReceiptData, ValidatorRegistrationData, AuthorityRescindData, ResealVoteData,
  AuthorityRestoreData,
}
use community.Protocol.Types.{Poll, VoteRecord, VoterRecord, Tally, RescindRecord, RestoreRecord}
use community.Voting.Env.{Env, IdentityVerifier}
use community.Voting.State.{State, new_state}

abbrev pub p : Bytes
p = bytes "p"

-- 64 hex digits each
abbrev pub nonce_1 : Bytes
nonce_1 = bytes "0123456789abcdef0123456789abcdef0123456789abcdef0123456789abcdef"

abbrev pub nonce_2 : Bytes
nonce_2 = bytes "1123456789abcdef0123456789abcdef0123456789abcdef0123456789abcdef"

abbrev pub beacon : Bytes
beacon = bytes "ffff456789abcdef0123456789abcdef0123456789abcdef0123456789abcdef"

abbrev pub device : Bytes
device = bytes "aaaa456789abcdef0123456789abcdef0123456789abcdef0123456789abcdef"

abbrev pub cast : Bytes → Bytes → Bytes → BallotCastData
cast nonce choice person = record {
  poll_id = p;
  choices = choice ∷ [];
  ballot_nonce = nonce;
  beacon_block_hash = beacon;
  beacon_block_height = pos 5;
  submission_identifier_derivation = [];
  timestamp = pos 0;
  partition_id = [];
  voter_pub_key = device;
  voter_sig = nonce ++ (58 ∷ p);
  idv_attestation_sig = bytes "idv";
  zk_nullifier = [];
  zk_nullifier_proof = [];
  zk_commitment = [];
  didit_commitment_sig = [];
  wallet_address = person;
}

abbrev pub cast_1 : BallotCastData
cast_1 = cast nonce_1 (bytes "yes") (bytes "ann")

abbrev pub cast_2 : BallotCastData
cast_2 = cast nonce_2 (bytes "no") (bytes "bob")

-- with the identity as the hash, the id of a ballot is its beacon and its nonce
abbrev pub ballot_1 : Bytes
ballot_1 = beacon ++ nonce_1

abbrev pub ballot_2 : Bytes
ballot_2 = beacon ++ nonce_2

abbrev pub tx : ℕ → Bytes → Tx
tx type payload = record { type = type; signature = 1 ∷ []; payload = payload }

abbrev pub update_data : List Bytes → BallotUpdateData
update_data choices = record {
  poll_id = p;
  old_ballot_id = ballot_1;
  new_ballot_nonce = nonce_2;
  beacon_block_hash = beacon;
  beacon_block_height = pos 5;
  submission_identifier_derivation = [];
  new_choices = choices;
  timestamp = pos 0;
  voter_pub_key = device;
  voter_sig = bytes "update:" ++ (nonce_2 ++ (58 ∷ p));
  idv_attestation_sig = bytes "idv";
  zk_nullifier = [];
  zk_nullifier_proof = [];
  zk_commitment = [];
  didit_commitment_sig = [];
  wallet_address = bytes "ann";
}

abbrev pub confirm_data : ConfirmReceiptData
confirm_data = record {
  poll_id = p;
  identity_hash = bytes "ann";
  voter_pub_key = device;
  idv_attestation_sig = bytes "idv";
  zk_nullifier = [];
  zk_nullifier_proof = [];
  zk_commitment = [];
  didit_commitment_sig = [];
  wallet_address = bytes "ann";
}

abbrev pub close_data : PollCloseData
close_data = record { poll_id = p; closing_height = pos 9 }

abbrev pub batch : BatchFlushData
batch = record { poll_id = p; submissions = tx 2 (1 ∷ []) ∷ tx 2 (2 ∷ []) ∷ [] }

-- the ballots of the batch, the voters exchanged
abbrev pub batch_exchanged : BatchFlushData
batch_exchanged = record { poll_id = p; submissions = tx 2 (3 ∷ []) ∷ tx 2 (4 ∷ []) ∷ [] }

-- the voters of the batch, the choices exchanged
abbrev pub batch_opposed : BatchFlushData
batch_opposed = record { poll_id = p; submissions = tx 2 (5 ∷ []) ∷ tx 2 (6 ∷ []) ∷ [] }

abbrev pub batch_back : BatchFlushData
batch_back = record { poll_id = p; submissions = tx 2 (2 ∷ []) ∷ tx 2 (1 ∷ []) ∷ [] }

-- base64 of 32 bytes
abbrev pub authority : Bytes
authority = replicate 42 65 ++ bytes "A="

abbrev pub authority_raw : Bytes
authority_raw = replicate 32 0

abbrev pub create_data : PollCreateData
create_data = record {
  poll_id = p;
  question = bytes "?";
  options = bytes "yes" ∷ bytes "no" ∷ [];
  voting_method = [];
  start_time = pos 10;
  end_time = pos 100;
  eligibility_authority_pub_key_base64 = [];
  reconciling_authority_pub_key_base64 = [];
}

abbrev pub rescind_data : AuthorityRescindData
rescind_data = record {
  poll_id = p;
  ballot_id = ballot_1;
  identity_hash = bytes "ann";
  revocation_ref = bytes "r";
  eligibility_sig = bytes "authority-rescind:p:" ++ (ballot_1 ++ bytes ":ann:r");
  reconciling_sig = bytes "authority-rescind:p:" ++ (ballot_1 ++ bytes ":ann:r");
}

abbrev pub restore_data : AuthorityRestoreData
restore_data = record {
  poll_id = p;
  ballot_id = ballot_1;
  identity_hash = bytes "ann";
  revocation_ref = bytes "r";
  eligibility_sig = bytes "authority-restore:p:" ++ (ballot_1 ++ bytes ":ann:r");
  reconciling_sig = bytes "authority-restore:p:" ++ (ballot_1 ++ bytes ":ann:r");
}

abbrev pub reseal_data : ResealVoteData
reseal_data = record {
  poll_id = p;
  ballot_id = ballot_1;
  voter_pub_key = device;
  migration_sig = bytes "migrate:" ++ (ballot_1 ++ (58 ∷ p));
  timestamp = pos 0;
}

abbrev raw_tx : Bytes → Option Tx
raw_tx [] = none
raw_tx (type ∷ payload) = some (tx type payload)

abbrev cast_of : Bytes → Option BallotCastData
cast_of [] = none
cast_of (n ∷ rest) =
    if eqb n 1
    then some cast_1
    else if eqb n 2
    then some cast_2
    else if eqb n 3
    then some (cast nonce_1 (bytes "yes") (bytes "bob"))
    else if eqb n 4
    then some (cast nonce_2 (bytes "no") (bytes "ann"))
    else if eqb n 5
    then some (cast nonce_1 (bytes "no") (bytes "ann"))
    else if eqb n 6
    then some (cast nonce_2 (bytes "yes") (bytes "bob"))
    else none

abbrev batch_of : Bytes → Option BatchFlushData
batch_of [] = none
batch_of (n ∷ rest) =
    if eqb n 1
    then some batch
    else if eqb n 2
    then some batch_back
    else if eqb n 3
    then some batch_exchanged
    else if eqb n 4
    then some batch_opposed
    else none

abbrev update_of : Bytes → Option BallotUpdateData
update_of [] = none
update_of (n ∷ rest) =
    if eqb n 1
    then some (update_data [])
    else if eqb n 2
    then some (update_data (bytes "no" ∷ []))
    else none

abbrev pub env : Env
env = record {
  sha256 = λ x. x;
  ed25519_verify = λ key message sig. message == sig;
  marshal_choices = λ choices. [];
  decode_tx = raw_tx;
  decode_poll_create = λ _. some create_data;
  decode_ballot_cast = cast_of;
  decode_poll_close = λ _. some close_data;
  decode_batch_flush = batch_of;
  decode_ballot_update = update_of;
  decode_confirm_receipt = λ _. some confirm_data;
  decode_validator_registration = λ _. none;
  decode_authority_rescind = λ _. some rescind_data;
  decode_reseal_vote = λ _. some reseal_data;
  decode_authority_restore = λ _. some restore_data;
}

abbrev pub verifier : IdentityVerifier
verifier = record {
  verify_and_identify = λ d. some d.wallet_address;
  verify_and_identify_update = λ d. some d.wallet_address;
  verify_and_identify_confirm = λ d. some d.wallet_address;
}

abbrev pub poll : Poll
poll = record {
  poll_id = p;
  poll_hash = [];
  question = bytes "?";
  options = bytes "yes" ∷ bytes "no" ∷ [];
  voting_method = [];
  start_time = pos 10;
  end_time = pos 100;
  status = bytes "open";
  created_at = pos 0;
  eligibility_authority_pub_key = authority;
  reconciling_authority_pub_key = authority;
  sealed_count = pos 0;
  reattestation_count = pos 0;
  idv_cast_count = pos 0;
}

abbrev pub vote : Bytes → VoteRecord
vote id = record {
  ballot_id = id;
  choices = bytes "yes" ∷ [];
  partition_id = [];
  superseded = false;
  voter_pub_key_hash = bytes "h";
}

abbrev pub voter : Bytes → VoterRecord
voter person = record { identity_hash = person }

-- the poll is running, nobody has voted
abbrev pub opened : State
opened = record (new_state none (some verifier)) {
  polls = (p, poll) ∷ [];
  beacon_window = (pos 5, beacon) ∷ [];
  attestation_mode = bytes "none";
}

-- one ballot by ann
abbrev pub voted : State
voted = record opened {
  vote_directions = (bytes "p:" ++ ballot_1, vote ballot_1) ∷ [];
  voter_registry = (bytes "p:ann", voter (bytes "ann")) ∷ [];
}
