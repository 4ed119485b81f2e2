-- ===== src/Voting/Storage.antt =====
-- domain/state/state.go, `Commit`, `computeAppHash` and `loadState`: the key-value store under the
-- state. The store keeps what it is given; its own errors are left out.
pub mod Laws
pub mod Hashes
pub mod Recovery
pub mod Restart
use community.Base.Result.{Result, ok, err, ◌>>=◌, ◌>>◌, or_err}
use community.Protocol.Errors.{Error, corrupt_store}
use community.Base.{
  ℕ, ◌-◌, Bool, true, false, Option, none, some, List, [], ◌∷◌, ◌++◌, if◌then◌else◌,
}
use community.Data.Bytes.{Bytes, bytes, has_prefix}
use community.Data.Decimal.{format_dec}
use community.Data.GoMap.{GoMap, lookup, insert}
use community.Data.Int64.{ℤ, pos, negsuc, ◌+ℤ◌, ◌-ℤ◌}
use community.Data.Sort.{sort_strings}
use community.Protocol.Types.{
  Poll, VoteRecord, VoterRecord, Tally, RescindRecord, ConfirmRecord, RestoreRecord,
}
use community.Voting.State.{State, ValidatorRecord, store_key}

-- encoding/json for one type. Marshalling these types does not fail.
pub record Codec (V : Type 0) : Type 0 where
  pub encode : V → Bytes
  pub decode : Bytes → Option V

pub record Codecs : Type 0 where
  pub poll : Codec Poll
  pub vote : Codec VoteRecord
  pub voter : Codec VoterRecord
  pub tally : Codec Tally
  pub validator : Codec ValidatorRecord
  pub confirm : Codec ConfirmRecord
  pub rescind : Codec RescindRecord
  pub restore : Codec RestoreRecord
  -- `fmt.Sscanf` with "%d"
  pub scan_int : Bytes → Option ℤ

abbrev pub Database : Type 0
Database = GoMap Bytes

module _ {V : Type 0} (c : Codec V) where
  -- one loop of `Commit`: every entry of the map is set, and nothing is deleted
  unfoldable pub put_all : Bytes → GoMap V → Database → Database
  put_all prefix [] db = db
  put_all prefix ((k, v) ∷ m) db = put_all prefix m (insert (prefix ++ k) (c.encode v) db)

-- all loops of `Commit`
unfoldable pub put_state : Codecs → State → Database → Database
unfolding put_all
put_state c s db = put_all c.restore (bytes "restore:") s.restores (
    put_all c.rescind (bytes "rescind:") s.rescissions (
      put_all c.confirm (bytes "confirm:") s.confirms (
        put_all c.validator (bytes "validator:") s.validators (
          put_all c.tally (bytes "tally:") s.tallies (
            put_all c.voter (bytes "voter:") s.voter_registry (
              put_all c.vote (bytes "vote:") s.vote_directions
                (put_all c.poll (bytes "poll:") s.polls db)))))))

-- `sortedKeys`, before the sort
unfoldable pub map_keys : {V : Type 0} → GoMap V → List Bytes
map_keys [] = []
map_keys ((k, v) ∷ m) = k ∷ map_keys m

module _ {V : Type 0} (c : Codec V) where
  unfoldable pub entry_bytes : GoMap V → Bytes → Bytes
  entry_bytes m k = elim (lookup k m) [ none ↦ [] | some v ↦ c.encode v ]

  unfoldable pub hash_keys : GoMap V → List Bytes → Bytes
  unfolding entry_bytes
  hash_keys m [] = []
  hash_keys m (k ∷ ks) = entry_bytes m k ++ hash_keys m ks

  -- one loop of `computeAppHash`
  unfoldable pub hash_map : GoMap V → Bytes
  unfolding hash_keys map_keys
  hash_map m = hash_keys m (sort_strings (map_keys m))

-- `computeAppHash`: seven of the eight maps, the restores are not among them.
unfoldable pub compute_app_hash : (Bytes → Bytes) → Codecs → State → Bytes
unfolding hash_map
compute_app_hash sha256 c s = sha256 (
    hash_map c.poll s.polls
    ++ (hash_map c.vote s.vote_directions
        ++ (hash_map c.voter s.voter_registry
            ++ (hash_map c.tally s.tallies
                ++ (hash_map c.validator s.validators
                    ++ (hash_map c.confirm s.confirms ++ hash_map c.rescind s.rescissions))))))

-- `Commit`: the application hash, the state and the store. Without a change nothing happens, and
-- the height stays.
unfoldable pub commit : (Bytes → Bytes) → Codecs → State → Database → Bytes × State × Database
unfolding put_state compute_app_hash
commit sha256 c s db =
    let hash = compute_app_hash sha256 c s in
    let height = s.height +ℤ pos 1 in
    if s.dirty
    then (
      hash,
      record s { app_hash = hash; height = height; dirty = false },
      insert (bytes "app_hash") hash
          (insert (bytes "height") (format_dec height) (put_state c s db)),
    )
    else (s.app_hash, s, db)

-- `strings.TrimPrefix`, where the prefix is there
unfoldable pub drop_bytes : Bytes → Bytes → Bytes
drop_bytes [] s = s
drop_bytes (p ∷ ps) [] = []
drop_bytes (p ∷ ps) (c ∷ s) = drop_bytes ps s

abbrev add_entry :
    {V : Type 0} → Bytes → Option V → Option (GoMap V) → (V → Bytes) → Option (GoMap V)
add_entry key none rest key_of = none
add_entry key (some v) none key_of = none
add_entry key (some v) (some m) key_of = some (insert (key_of v) v m)

module _ {V : Type 0} (c : Codec V) where
  -- `loadPrefix` with one of the functions of `loadState`: `key_of` is the key that it files the
  -- record under, from the rest of the store's key and the record. `none` is a decoding error.
  unfoldable pub load_prefix : Bytes → (Bytes → V → Bytes) → Database → Option (GoMap V)
  unfolding drop_bytes
  load_prefix prefix key_of [] = some []
  load_prefix prefix key_of ((k, raw) ∷ db) =
      let rest = load_prefix prefix key_of db in
      if has_prefix k prefix
      then add_entry k (c.decode raw) rest (key_of (drop_bytes prefix k))
      else rest

abbrev load_height : Codecs → Option Bytes → ℤ → Option ℤ
load_height c none height = some height
load_height c (some raw) height = c.scan_int raw

abbrev load_hash : Option Bytes → Bytes → Bytes
load_hash none hash = hash
load_hash (some raw) hash = raw

abbrev given_key : {V : Type 0} → Bytes → V → Bytes
given_key key v = key

-- The eight maps of `loadState`, into an empty state.
unfoldable pub load_state : Codecs → Database → State → Result Error State
unfolding load_prefix
load_state c db s = do
  height ← or_err (load_height c (lookup (bytes "height") db) s.height) corrupt_store
  polls ← or_err (load_prefix c.poll (bytes "poll:") (λ _ v. v.poll_id) db) corrupt_store
  votes ← or_err (load_prefix c.vote (bytes "vote:") given_key db) corrupt_store
  voters ← or_err (load_prefix c.voter (bytes "voter:") given_key db) corrupt_store
  tallies ← or_err (load_prefix c.tally (bytes "tally:") (λ _ v. v.poll_id) db) corrupt_store
  validators ←
      or_err (load_prefix c.validator (bytes "validator:") (λ _ v. v.pub_key_base64) db)
        corrupt_store
  confirms ←
      or_err
        (load_prefix c.confirm (bytes "confirm:") (λ _ v. store_key v.poll_id v.identity_hash) db)
        corrupt_store
  rescissions ←
      or_err (load_prefix c.rescind (bytes "rescind:") (λ _ v. store_key v.poll_id v.ballot_id) db)
        corrupt_store
  restores ←
      or_err
        (load_prefix c.restore (bytes "restore:") (λ _ v. store_key v.poll_id v.identity_hash) db)
        corrupt_store
  ok (record s {
    height = height;
    app_hash = load_hash (lookup (bytes "app_hash") db) s.app_hash;
    polls = polls;
    vote_directions = votes;
    voter_registry = voters;
    tallies = tallies;
    validators = validators;
    confirms = confirms;
    rescissions = rescissions;
    restores = restores;
  })
