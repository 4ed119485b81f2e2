-- ===== src/Tests/Storage.antt =====
-- Runs of the theorems on the store.
use mathlib.Core.List.{Permᴰ}
use mathlib.Core.List.Perm
use community.Base.{arith, ◌≡◌, refl, true, false, none, some, [], ◌∷◌, ◌++◌}
use community.Base.Result.{Result, ok, err, is_ok}
use community.Data.Bytes.{Bytes, bytes, ◌==◌, ==_iff, has_prefix}
use community.Data.Decimal.{format_dec}
use community.Data.GoMap.{GoMap, lookup, insert, delete}
use community.Data.Int64.{pos}
use community.Protocol.Errors.{Error}
use community.Tests.{p, env, tx, voted, poll, vote, voter, ballot_1, update_data, verifier}
use community.Voting.Ballots.{
  withdraw, refresh_confirmed, validate_ballot_cast, validate_ballot_update,
}
use community.Voting.Invariant.{IsFiled}
use community.Voting.State.{State, new_state, store_key, update}
use community.Voting.Storage.{
  Codecs, Database, put_all, put_state, map_keys, compute_app_hash, commit, drop_bytes, load_prefix,
  load_state,
}
use community.Voting.Storage.Hashes.{SameMap, SameMaps, compute_app_hash-SameMaps}
use community.Voting.Storage.Recovery.{load_state-commit, load_state-withdraw}
use community.Voting.Storage.Restart.{load_state-refuses}

-- reads back the records of the tests
abbrev codecs : Codecs
codecs = record {
  poll = record { encode = λ v. []; decode = λ raw. some poll };
  vote = record { encode = λ v. v.ballot_id; decode = λ raw. some (vote raw) };
  voter = record { encode = λ v. v.identity_hash; decode = λ raw. some (voter raw) };
  tally = record { encode = λ v. []; decode = λ raw. none };
  validator = record { encode = λ v. []; decode = λ raw. none };
  confirm = record { encode = λ v. []; decode = λ raw. none };
  rescind = record { encode = λ v. []; decode = λ raw. none };
  restore = record { encode = λ v. []; decode = λ raw. none };
  scan_int = λ raw. some (pos 1);
}

abbrev digest : Bytes → Bytes
digest x = 7 ∷ []

abbrev changed : State
changed = record voted { dirty = true }

abbrev fresh : State
fresh = new_state none (some verifier)

abbrev state_of : Result Error State → State
state_of (ok s) = s
state_of (err e) = fresh

abbrev key : Bytes
key = bytes "p:" ++ ballot_1

changed-IsFiled : IsFiled changed
unfolding lookup store_key
changed-IsFiled = record {
  votes_unique = (refl, tt);
  registry_unique = (refl, tt);
  votes = ((p, refl), tt);
  registry = ((p, refl), tt);
}

abbrev first : Bytes × State × Database
first = commit digest codecs changed []

loads : load_state codecs first.2 fresh ≡ ok (state_of (load_state codecs first.2 fresh))
unfolding load_state load_prefix drop_bytes commit put_state put_all lookup insert has_prefix ◌==◌
    format_dec
loads = refl

key_voted : lookup key changed.vote_directions ≡ some (vote ballot_1)
unfolding lookup ◌==◌
key_voted = refl

load_state-commit_example :
    (lookup key (state_of (load_state codecs first.2 fresh)).vote_directions
      ≡ lookup key changed.vote_directions)
    × (lookup key (state_of (load_state codecs first.2 fresh)).voter_registry
        ≡ lookup key changed.voter_registry)
unfolding lookup ◌==◌
load_state-commit_example =
    load_state-commit digest codecs changed fresh (state_of (load_state codecs first.2 fresh)) []
      key refl changed-IsFiled refl tt tt refl loads

abbrev second : Bytes × State × Database
second = commit digest codecs (withdraw (update_data []) (bytes "ann") first.1) first.2

loads_again : load_state codecs second.2 fresh ≡ ok (state_of (load_state codecs second.2 fresh))
unfolding load_state load_prefix drop_bytes commit put_state put_all lookup insert has_prefix ◌==◌
    format_dec withdraw refresh_confirmed delete store_key update
loads_again = refl

key_voted_again : lookup (store_key p ballot_1) changed.vote_directions ≡ some (vote ballot_1)
unfolding lookup ◌==◌ store_key
key_voted_again = refl

load_state-withdraw_example :
    lookup (store_key p ballot_1) (state_of (load_state codecs second.2 fresh)).vote_directions
    ≡ some (vote ballot_1)
load_state-withdraw_example =
    load_state-withdraw digest codecs (update_data []) (bytes "ann") (vote ballot_1) changed fresh
      (state_of (load_state codecs second.2 fresh)) [] refl changed-IsFiled.votes_unique
      key_voted_again refl loads_again

-- two voters, in either arrangement
abbrev ann_bob : State
ann_bob = record voted {
  voter_registry = (bytes "p:ann", voter (bytes "ann")) ∷ (bytes "p:bob", voter (bytes "bob")) ∷ [];
}

abbrev bob_ann : State
bob_ann = record voted {
  voter_registry = (bytes "p:bob", voter (bytes "bob")) ∷ (bytes "p:ann", voter (bytes "ann")) ∷ [];
}

voters_arranged : SameMap ann_bob.voter_registry bob_ann.voter_registry
unfolding map_keys lookup ◌==◌
voters_arranged = record {
  same_keys = ∣ Permᴰ.swap refl refl ∣₁;
  same_values = λ k. ground (
    arith,
    ==_iff (bytes "p:ann") k,
    ==_iff (bytes "p:bob") k,
    ==_iff (bytes "p:ann") (bytes "p:bob"),
  );
}

rearranged : {V : Type 0} (m : GoMap V) → SameMap m m
rearranged m = record { same_keys = Perm.refl (map_keys m); same_values = λ k. refl }

ann_bob-SameMaps : SameMaps ann_bob bob_ann
ann_bob-SameMaps = record {
  polls = rearranged ann_bob.polls;
  votes = rearranged ann_bob.vote_directions;
  voters = voters_arranged;
  tallies = rearranged ann_bob.tallies;
  validators = rearranged ann_bob.validators;
  confirms = rearranged ann_bob.confirms;
  rescissions = rearranged ann_bob.rescissions;
}

compute_app_hash-SameMaps_example :
    compute_app_hash digest codecs ann_bob ≡ compute_app_hash digest codecs bob_ann
compute_app_hash-SameMaps_example =
    compute_app_hash-SameMaps digest codecs ann_bob bob_ann ann_bob-SameMaps

load_state-refuses_run :
    let s' = state_of (load_state codecs second.2 fresh) in
    (is_ok (validate_ballot_cast env (pos 50) (tx 2 (1 ∷ [])) s').0 ≡ false)
    × (is_ok (validate_ballot_update env (pos 50) (tx 6 (1 ∷ [])) s') ≡ false)
load_state-refuses_run =
    load_state-refuses env codecs (pos 50) (tx 2 (1 ∷ [])) (tx 6 (1 ∷ [])) second.2 none
      (some verifier) (state_of (load_state codecs second.2 fresh)) loads_again
