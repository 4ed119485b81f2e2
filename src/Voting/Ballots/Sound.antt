-- ===== src/Voting/Ballots/Sound.antt =====
-- What an accepted ballot cast has shown.
use community.Base.{◌≡◌, ◌≢◌, refl, true, false, some, none, arith, Option-cases, inl, inr}
use community.Base.Result.{Result, ok, err}
use community.Data.Bytes.{Bytes, ◌==◌}
use community.Data.GoMap.{lookup}
use community.Data.Int64.{ℤ, ◌≤ℤ◌, ◌<ℤ◌}
use community.Protocol.Errors.{Error}
use community.Protocol.Nonce.{validate_nonce, validate_beacon}
use community.Protocol.Txs.{Tx, BallotCastData}
use community.Protocol.Types.{Poll, status_closed}
use community.Voting.Ballots.{validate_ballot_cast, validate_open_cast}
use community.Voting.Ballots.Checks.{
  decode_voter_key, voter_device_sig_message, running_poll, check_cast, check_choice_and_identity,
}
use community.Voting.Choices.{validate_choices}
use community.Voting.Env.{Env}
use community.Voting.State.{State}

-- A well-formed cast, signed by the device it names, into a running poll.
pub record Sound (env : Env) (now : ℤ) (t : Tx) (s : State) : Type 0 where
  pub cast : BallotCastData
  pub poll : Poll
  pub key : Bytes
  pub decoded : env.decode_ballot_cast t.payload ≡ some cast
  pub nonce : validate_nonce cast.ballot_nonce ≡ ok tt
  pub beacon :
      validate_beacon cast.beacon_block_hash cast.beacon_block_height s.beacon_window ≡ ok tt
  pub keyed : decode_voter_key cast.voter_pub_key ≡ some key
  pub signed :
      env.ed25519_verify key
        (voter_device_sig_message cast.ballot_nonce cast.poll_id)
        cast.voter_sig
      ≡ true
  pub found : lookup cast.poll_id s.polls ≡ some poll
  pub started : poll.start_time ≤ℤ now
  pub running : now <ℤ poll.end_time
  pub not_closed : (poll.status == status_closed) ≡ false
  pub choices : validate_choices poll cast.choices ≡ ok tt

abbrev Checked : Env → ℤ → Tx → State → BallotCastData → Poll → Bytes → Type 0
Checked env now t s d poll key =
    (env.decode_ballot_cast t.payload ≡ some d)
    × (validate_nonce d.ballot_nonce ≡ ok tt)
    × (validate_beacon d.beacon_block_hash d.beacon_block_height s.beacon_window ≡ ok tt)
    × (env.ed25519_verify key (voter_device_sig_message d.ballot_nonce d.poll_id) d.voter_sig
        ≡ true)
    × (lookup d.poll_id s.polls ≡ some poll)
    × (poll.start_time ≤ℤ now)
    × (now <ℤ poll.end_time)
    × ((poll.status == status_closed) ≡ false)

check_cast-Checked :
    (env : Env) (now : ℤ) (t : Tx) (s : State) (d : BallotCastData) (poll : Poll) (key : Bytes)
    → decode_voter_key d.voter_pub_key ≡ some key
    → check_cast env now t s ≡ ok (d, poll)
    → Checked env now t s d poll key
unfolding check_cast running_poll
check_cast-Checked env now t s d poll key k h = (
  ground arith,
  ground arith,
  ground arith,
  ground arith,
  ground arith,
  ground arith,
  ground arith,
  ground arith,
)

check_cast-key :
    (env : Env) (now : ℤ) (t : Tx) (s : State) (d : BallotCastData) (poll : Poll)
    → check_cast env now t s ≡ ok (d, poll)
    → decode_voter_key d.voter_pub_key ≢ none
unfolding check_cast
check_cast-key env now t s d poll h none_key = absurd (ground arith)

validate_open_cast-Sound :
    (env : Env) (now : ℤ) (t : Tx) (s : State) (r : Result Error (BallotCastData × Poll))
    → check_cast env now t s ≡ r
    → (validate_open_cast now r s).0 ≡ ok tt
    → Sound env now t s
unfolding validate_open_cast check_choice_and_identity
validate_open_cast-Sound env now t s (err e) c h = absurd (ground arith)
validate_open_cast-Sound env now t s (ok (d, poll)) c h =
    elim (Option-cases (decode_voter_key d.voter_pub_key)) [
      | inl e ↦ absurd (check_cast-key env now t s d poll c e)
      | inr (key, e) ↦
          let (decoded, nonce, beacon, signed, found, started, running, not_closed) =
            check_cast-Checked env now t s d poll key e c in
          record {
            cast = d;
            poll = poll;
            key = key;
            decoded = decoded;
            nonce = nonce;
            beacon = beacon;
            keyed = e;
            signed = signed;
            found = found;
            started = started;
            running = running;
            not_closed = not_closed;
            choices = ground arith;
          }
    ]

-- A ballot cast that validation accepts decodes, has an accepted nonce and beacon, is signed by the
-- device whose 32-byte key it names, and goes with accepted choices into a poll that exists, has
-- begun, has not ended and is not closed.
pub validate_ballot_cast-Sound :
    (env : Env) (now : ℤ) (t : Tx) (s : State)
    → (validate_ballot_cast env now t s).0 ≡ ok tt
    → Sound env now t s
unfolding validate_ballot_cast
validate_ballot_cast-Sound env now t s h =
    validate_open_cast-Sound env now t s (check_cast env now t s) refl h
