-- ===== src/Voting/Storage/Recovery.antt =====
-- A restart: what the state is after it is loaded from the store that `Commit` wrote.
use community.Base.{◌≡◌, refl, sym, ap, ◌∙◌, subst, true, false, Option, none, some, ◌++◌, arith}
use community.Base.Result.{ok}
use community.Data.Bytes.{Bytes, bytes, ◌==◌, ==_refl, has_prefix}
use community.Data.GoMap.{lookup, Unique}
use community.Data.GoMap.Laws.{lookup-insert, lookup-delete, delete-Unique}
use community.Protocol.Types.{VoteRecord}
use community.Voting.Invariant.{IsFiled}
use community.Protocol.Txs.{BallotUpdateData}
use community.Voting.Ballots.{withdraw, refresh_confirmed}
use community.Voting.State.{State, store_key}
use community.Voting.Storage.{
  Codec, Codecs, Database, put_all, put_state, commit, load_prefix, load_state, given_key,
}
use community.Voting.Storage.Laws.{
  overlay, decoded, lookup-put_all, lookup-put_all_other, lookup-load_prefix,
}

put_state-vote :
    (c : Codecs) (k : Bytes) (s : State) (db : Database)
    → Unique s.vote_directions
    → lookup (bytes "vote:" ++ k) (put_state c s db)
      ≡ overlay c.vote
          (bytes "vote:" ++ k)
          (lookup k s.vote_directions)
          (put_all c.poll (bytes "poll:") s.polls db)
unfolding put_state has_prefix
put_state-vote c k s db u =
    lookup-put_all_other c.restore (bytes "restore:") (bytes "vote:" ++ k) s.restores _ refl
    ∙ (lookup-put_all_other c.rescind (bytes "rescind:") (bytes "vote:" ++ k) s.rescissions _ refl
        ∙ (lookup-put_all_other c.confirm (bytes "confirm:") (bytes "vote:" ++ k) s.confirms _ refl
            ∙ (lookup-put_all_other c.validator (bytes "validator:") (bytes "vote:" ++ k)
                  s.validators _ refl
                ∙ (lookup-put_all_other c.tally (bytes "tally:") (bytes "vote:" ++ k) s.tallies _
                      refl
                    ∙ (lookup-put_all_other c.voter (bytes "voter:") (bytes "vote:" ++ k)
                          s.voter_registry _ refl
                        ∙ lookup-put_all c.vote (bytes "vote:") k s.vote_directions _ u)))))

put_state-voter :
    (c : Codecs) (k : Bytes) (s : State) (db : Database)
    → Unique s.voter_registry
    → lookup (bytes "voter:" ++ k) (put_state c s db)
      ≡ overlay c.voter (bytes "voter:" ++ k) (lookup k s.voter_registry) (
          put_all c.vote
            (bytes "vote:")
            s.vote_directions
            (put_all c.poll (bytes "poll:") s.polls db))
unfolding put_state has_prefix
put_state-voter c k s db u =
    lookup-put_all_other c.restore (bytes "restore:") (bytes "voter:" ++ k) s.restores _ refl
    ∙ (lookup-put_all_other c.rescind (bytes "rescind:") (bytes "voter:" ++ k) s.rescissions _ refl
        ∙ (lookup-put_all_other c.confirm (bytes "confirm:") (bytes "voter:" ++ k) s.confirms _ refl
            ∙ (lookup-put_all_other c.validator (bytes "validator:") (bytes "voter:" ++ k)
                  s.validators _ refl
                ∙ (lookup-put_all_other c.tally (bytes "tally:") (bytes "voter:" ++ k) s.tallies _
                      refl
                    ∙ lookup-put_all c.voter (bytes "voter:") k s.voter_registry _ u))))

module _ (sha256 : Bytes → Bytes) (c : Codecs) (s : State) (db : Database) where
  commit-other :
      (key : Bytes)
      → s.dirty ≡ true
      → (bytes "height" == key) ≡ false
      → (bytes "app_hash" == key) ≡ false
      → lookup key (commit sha256 c s db).2 ≡ lookup key (put_state c s db)
  unfolding commit
  commit-other key dirty h g = rw dirty (
      lookup-insert key (bytes "app_hash") _ _
      ∙ rw g (lookup-insert key (bytes "height") _ _ ∙ rw h refl))

  overlay_cong :
      {V : Type 0} (v : Codec V) (key : Bytes) (o : Option V) (a b : Database)
      → lookup key a ≡ lookup key b
      → overlay v key o a ≡ overlay v key o b
  overlay_cong v key none a b e = e
  overlay_cong v key (some x) a b e = refl

  -- the store after a commit, at a ballot and at a voter
  stored_vote :
      (k : Bytes)
      → s.dirty ≡ true
      → Unique s.vote_directions
      → lookup (bytes "vote:" ++ k) (commit sha256 c s db).2
        ≡ overlay c.vote (bytes "vote:" ++ k) (lookup k s.vote_directions) db
  unfolding ◌==◌ has_prefix
  stored_vote k dirty u =
      let key = bytes "vote:" ++ k in
      commit-other key dirty refl refl
      ∙ (put_state-vote c k s db u
          ∙ overlay_cong c.vote key (lookup k s.vote_directions) _ db
              (lookup-put_all_other c.poll (bytes "poll:") key s.polls db refl))

  stored_voter :
      (k : Bytes)
      → s.dirty ≡ true
      → Unique s.voter_registry
      → lookup (bytes "voter:" ++ k) (commit sha256 c s db).2
        ≡ overlay c.voter (bytes "voter:" ++ k) (lookup k s.voter_registry) db
  unfolding ◌==◌ has_prefix
  stored_voter k dirty u =
      let key = bytes "voter:" ++ k in
      commit-other key dirty refl refl
      ∙ (put_state-voter c k s db u
          ∙ overlay_cong c.voter key (lookup k s.voter_registry) _ db (
              lookup-put_all_other c.vote (bytes "vote:") key s.vote_directions _ refl
              ∙ lookup-put_all_other c.poll (bytes "poll:") key s.polls db refl))

-- Both lists of a loaded state come from the entries with their prefixes.
load_state-lists :
    (c : Codecs) (db : Database) (s s' : State)
    → load_state c db s ≡ ok s'
    → (load_prefix c.vote (bytes "vote:") given_key db ≡ some s'.vote_directions)
      × (load_prefix c.voter (bytes "voter:") given_key db ≡ some s'.voter_registry)
unfolding load_state
load_state-lists c db s s' h = (ground arith, ground arith)

-- The codec reads back what it wrote for one entry of a map, if that is there.
abbrev pub ReadsBack : {V : Type 0} → Codec V → Option V → Type 0
ReadsBack v none = Unit
ReadsBack v (some x) = v.decode (v.encode x) ≡ some x

-- Where the map has no entry, the store has none either.
abbrev pub NotStale : {V : Type 0} → Option V → Option Bytes → Type 0
NotStale none stored = stored ≡ none
NotStale (some x) stored = Unit

reads_back :
    {V : Type 0} (v : Codec V) (key : Bytes) (o : Option V) (db : Database)
    → ReadsBack v o
    → NotStale o (lookup key db)
    → decoded v (overlay v key o db) ≡ o
reads_back v key none db r n = ap (decoded v) n
reads_back v key (some x) db r n = r

module _ (sha256 : Bytes → Bytes) (c : Codecs) (s start s' : State) (db : Database) where
  -- A changed state is committed, and a state is loaded from that store: at every key whose record
  -- the codec reads back, and where the store had no entry that the state has not, both lists hold
  -- what they held.
  pub load_state-commit :
      (k : Bytes)
      → s.dirty ≡ true
      → IsFiled s
      → ReadsBack c.vote (lookup k s.vote_directions)
      → ReadsBack c.voter (lookup k s.voter_registry)
      → NotStale (lookup k s.vote_directions) (lookup (bytes "vote:" ++ k) db)
      → NotStale (lookup k s.voter_registry) (lookup (bytes "voter:" ++ k) db)
      → load_state c (commit sha256 c s db).2 start ≡ ok s'
      → (lookup k s'.vote_directions ≡ lookup k s.vote_directions)
        × (lookup k s'.voter_registry ≡ lookup k s.voter_registry)
  load_state-commit k dirty filed vote voter fresh fresh' loaded =
      let store = (commit sha256 c s db).2 in
      let (votes, voters) = load_state-lists c store start s' loaded in
      (
        lookup-load_prefix c.vote (bytes "vote:") k s'.vote_directions store votes
            ∙ (ap (decoded c.vote) (stored_vote sha256 c s db k dirty filed.votes_unique)
                ∙ reads_back c.vote (bytes "vote:" ++ k) (lookup k s.vote_directions) db vote
                    fresh),
        lookup-load_prefix c.voter (bytes "voter:") k s'.voter_registry store voters
            ∙ (ap (decoded c.voter) (stored_voter sha256 c s db k dirty filed.registry_unique)
                ∙ reads_back c.voter (bytes "voter:" ++ k) (lookup k s.voter_registry) db voter
                    fresh'),
      )

commit-lists :
    (sha256 : Bytes → Bytes) (c : Codecs) (s : State) (db : Database)
    → (commit sha256 c s db).1.vote_directions ≡ s.vote_directions
unfolding commit
commit-lists sha256 c s db = ground arith

withdrawn :
    (d : BallotUpdateData) (i : Bytes) (u : State)
    → Unique u.vote_directions
    → ((withdraw d i u).dirty ≡ true)
      × Unique (withdraw d i u).vote_directions
      × (lookup (store_key d.poll_id d.old_ballot_id) (withdraw d i u).vote_directions ≡ none)
unfolding withdraw refresh_confirmed
withdrawn d i u unique =
    let key = store_key d.poll_id d.old_ballot_id in
    (
      refl,
      delete-Unique key u.vote_directions unique,
      lookup-delete key key u.vote_directions unique ∙ rw (==_refl key) refl,
    )

-- A ballot is committed, withdrawn, and the withdrawal is committed: a node that loads the store
-- afterwards has the ballot in List 1 again.
pub load_state-withdraw :
    (sha256 : Bytes → Bytes) (c : Codecs) (d : BallotUpdateData) (i : Bytes) (v : VoteRecord)
    (s start s' : State) (db : Database)
    → s.dirty ≡ true
    → Unique s.vote_directions
    → lookup (store_key d.poll_id d.old_ballot_id) s.vote_directions ≡ some v
    → c.vote.decode (c.vote.encode v) ≡ some v
    → load_state c
        (commit sha256 c (withdraw d i (commit sha256 c s db).1) (commit sha256 c s db).2).2
        start
      ≡ ok s'
    → lookup (store_key d.poll_id d.old_ballot_id) s'.vote_directions ≡ some v
load_state-withdraw sha256 c d i v s start s' db dirty unique voted codec loaded =
    let key = store_key d.poll_id d.old_ballot_id in
    let before = commit sha256 c s db in
    let (dirty', unique', gone) =
      withdrawn d i before.1 (subst Unique (sym (commit-lists sha256 c s db)) unique) in
    let store = (commit sha256 c (withdraw d i before.1) before.2).2 in
    lookup-load_prefix c.vote (bytes "vote:") key s'.vote_directions store
      (load_state-lists c store start s' loaded).0
    ∙ (ap (decoded c.vote) (
          stored_vote sha256 c (withdraw d i before.1) before.2 key dirty' unique'
          ∙ (ap (λ o. overlay c.vote (bytes "vote:" ++ key) o before.2) gone
              ∙ (stored_vote sha256 c s db key dirty unique
                  ∙ ap (λ o. overlay c.vote (bytes "vote:" ++ key) o db) voted)))
        ∙ codec)
