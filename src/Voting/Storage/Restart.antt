-- ===== src/Voting/Storage/Restart.antt =====
-- domain/state/state.go, `NewState` and `loadState`: what a node knows of the beacons when it starts.
use community.Base.{
  ◌≡◌, ◌≢◌, refl, subst, true, false, [], arith, Bool-cases, Option-cases, inl, inr, Option,
}
use community.Base.Result.{Result, ok, err, is_ok}
use community.Data.Bytes.{Bytes}
use community.Data.Int64.{ℤ}
use community.Protocol.Errors.{Error}
use community.Protocol.Nonce.{BeaconWindow, validate_beacon, window_lookup}
use community.Protocol.Nonce.Laws.{validate_beacon_iff}
use community.Protocol.Txs.{Tx, BallotUpdateData}
use community.Voting.Ballots.{validate_ballot_cast, validate_ballot_update}
use community.Voting.Ballots.Checks.{check_update}
use community.Voting.Ballots.Sound.{validate_ballot_cast-Sound}
use community.Voting.Env.{Env, Signer, IdentityVerifier}
use community.Voting.State.{State, new_state}
use community.Voting.Storage.{Codecs, Database, load_state}

load_state-beacon_window :
    (c : Codecs) (db : Database) (s s' : State)
    → load_state c db s ≡ ok s'
    → s'.beacon_window ≡ s.beacon_window
unfolding load_state
load_state-beacon_window c db s s' h = ground arith

accepted_result : (r : Result Error (Unit {0})) → is_ok r ≡ true → r ≡ ok tt
accepted_result (ok tt) h = refl
accepted_result (err e) h = absurd (ground arith)

abbrev Accepts : Bytes → ℤ → BeaconWindow → Type 0
Accepts hash height window = validate_beacon hash height window ≡ ok tt

-- no beacon is accepted against an empty window
empty_window : (hash : Bytes) (height : ℤ) → ¬ Accepts hash height []
unfolding window_lookup
empty_window hash height h = absurd (ground (arith, ((validate_beacon_iff hash height []).0 h).3))

check_update-beacon :
    (env : Env) (now : ℤ) (d : BallotUpdateData) (s : State)
    → check_update env now d s ≡ ok tt
    → validate_beacon d.beacon_block_hash d.beacon_block_height s.beacon_window ≡ ok tt
unfolding check_update
check_update-beacon env now d s h = ground arith

validate_ballot_update-beacon :
    (env : Env) (now : ℤ) (t : Tx) (s : State)
    → s.beacon_window ≡ []
    → validate_ballot_update env now t s ≢ ok tt
unfolding validate_ballot_update
validate_ballot_update-beacon env now t s empty h =
    elim (Option-cases (env.decode_ballot_update t.payload)) [
      | inl e ↦ absurd (ground (arith, e))
      | inr (d, e) ↦
          let accepted : check_update env now d s ≡ ok tt = ground (arith, e) in
          empty_window d.beacon_block_hash d.beacon_block_height (
            subst (Accepts d.beacon_block_hash d.beacon_block_height) empty
              (check_update-beacon env now d s accepted))
    ]

-- A state that is loaded into a new one, from whatever store, accepts no ballot cast and no ballot
-- update: the blocks whose hashes they name are not in its window.
pub load_state-refuses :
    (env : Env) (c : Codecs) (now : ℤ) (t t' : Tx) (db : Database) (signer : Option Signer)
    (verifier : Option IdentityVerifier) (s' : State)
    → load_state c db (new_state signer verifier) ≡ ok s'
    → (is_ok (validate_ballot_cast env now t s').0 ≡ false)
      × (is_ok (validate_ballot_update env now t' s') ≡ false)
load_state-refuses env c now t t' db signer verifier s' loaded =
    let empty = load_state-beacon_window c db (new_state signer verifier) s' loaded in
    (
      elim (Bool-cases (is_ok (validate_ballot_cast env now t s').0)) [
        | inl e ↦
            let sound = validate_ballot_cast-Sound env now t s' (accepted_result _ e) in
            absurd (
              empty_window sound.cast.beacon_block_hash sound.cast.beacon_block_height (
                subst (Accepts sound.cast.beacon_block_hash sound.cast.beacon_block_height) empty
                  sound.beacon))
        | inr e ↦ e
      ],
      elim (Bool-cases (is_ok (validate_ballot_update env now t' s'))) [
        | inl e ↦ absurd (validate_ballot_update-beacon env now t' s' empty (accepted_result _ e))
        | inr e ↦ e
      ],
    )
