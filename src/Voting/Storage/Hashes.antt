-- ===== src/Voting/Storage/Hashes.antt =====
-- The application hash does not depend on the order in which the maps are traversed.
use mathlib.Core.List.{Perm}
use community.Base.{◌≡◌, refl, ap, ap₂, ◌∙◌, none, some, List, [], ◌∷◌, ◌++◌}
use community.Data.Bytes.{Bytes}
use community.Data.GoMap.{GoMap, lookup}
use community.Data.Sort.{sort_strings, sort_strings-perm}
use community.Voting.State.{State}
use community.Voting.Storage.{
  Codec, Codecs, map_keys, entry_bytes, hash_keys, hash_map, compute_app_hash,
}

-- Two arrangements of the same entries.
pub record SameMap {V : Type 0} (m n : GoMap V) : Type 0 where
  pub same_keys : Perm (map_keys m) (map_keys n)
  pub same_values : (k : Bytes) → lookup k m ≡ lookup k n

module _ {V : Type 0} (c : Codec V) where
  entry_bytes-same :
      (m n : GoMap V) (k : Bytes) → lookup k m ≡ lookup k n → entry_bytes c m k ≡ entry_bytes c n k
  unfolding entry_bytes
  entry_bytes-same m n k e = ap (λ o. elim o [ none ↦ [] | some v ↦ c.encode v ]) e

  hash_keys-same :
      (m n : GoMap V) (ks : List Bytes)
      → ((k : Bytes) → lookup k m ≡ lookup k n)
      → hash_keys c m ks ≡ hash_keys c n ks
  unfolding hash_keys
  hash_keys-same m n [] e = refl
  hash_keys-same m n (k ∷ ks) e = ap₂ ◌++◌ (entry_bytes-same m n k (e k)) (hash_keys-same m n ks e)

  pub hash_map-SameMap : (m n : GoMap V) → SameMap m n → hash_map c m ≡ hash_map c n
  unfolding hash_map
  hash_map-SameMap m n same =
      ap (hash_keys c m) (sort_strings-perm same.same_keys)
      ∙ hash_keys-same m n (sort_strings (map_keys n)) same.same_values

-- The seven maps that the hash covers are the same, in any arrangement.
pub record SameMaps (s t : State) : Type 0 where
  pub polls : SameMap s.polls t.polls
  pub votes : SameMap s.vote_directions t.vote_directions
  pub voters : SameMap s.voter_registry t.voter_registry
  pub tallies : SameMap s.tallies t.tallies
  pub validators : SameMap s.validators t.validators
  pub confirms : SameMap s.confirms t.confirms
  pub rescissions : SameMap s.rescissions t.rescissions

-- Two states whose seven hashed maps have the same entries, arranged in any way, and whose restore
-- grants may differ at will, have the same application hash.
pub compute_app_hash-SameMaps :
    (sha256 : Bytes → Bytes) (c : Codecs) (s t : State)
    → SameMaps s t
    → compute_app_hash sha256 c s ≡ compute_app_hash sha256 c t
unfolding compute_app_hash
compute_app_hash-SameMaps sha256 c s t same = ap sha256 (
    ap₂ ◌++◌ (hash_map-SameMap c.poll s.polls t.polls same.polls) (
      ap₂ ◌++◌ (hash_map-SameMap c.vote s.vote_directions t.vote_directions same.votes) (
        ap₂ ◌++◌ (hash_map-SameMap c.voter s.voter_registry t.voter_registry same.voters) (
          ap₂ ◌++◌ (hash_map-SameMap c.tally s.tallies t.tallies same.tallies) (
            ap₂ ◌++◌ (hash_map-SameMap c.validator s.validators t.validators same.validators) (
              ap₂ ◌++◌ (hash_map-SameMap c.confirm s.confirms t.confirms same.confirms)
                (hash_map-SameMap c.rescind s.rescissions t.rescissions same.rescissions)))))))
