-- ===== src/Voting/TwoLists/Cast.antt =====
-- What writing a ballot and its identity does to the sizes of the two lists.
use community.Base.{◌+◌, ◌≡◌, ◌≢◌, true, none, some, List, [], ◌∷◌, arith, length, to_nat, All}
use community.Data.Bytes.{Bytes, ==_iff}
use community.Data.GoMap.{lookup}
use community.Data.GoMap.Laws.{lookup-insert}
use community.Data.GoMap.Count.{count-insert_new, count-insert_old}
use community.Protocol.Types.{VoteRecord, VoterRecord}
use community.Voting.Batch.{Candidate, write_candidate, write_candidates}
use community.Voting.Env.{Env}
use community.Voting.State.{State, store_key, in_poll}
use community.Voting.TwoLists.{ballots, voters}
use community.Voting.TwoLists.Keys.{in_poll-store_key}

-- Neither key of a candidate is taken.
pub record IsFresh (c : Candidate) (s : State) : Type 0 where
  pub ballot : lookup (store_key c.cast.poll_id c.ballot_id) s.vote_directions ≡ none
  pub identity : lookup (store_key c.cast.poll_id c.identity_hash) s.voter_registry ≡ none

module _ (env : Env) (q : Bytes) (c : Candidate) (s : State) where
  pub ballots-write_new :
      lookup (store_key c.cast.poll_id c.ballot_id) s.vote_directions ≡ none
      → ballots q (write_candidate env c s)
        ≡ to_nat (in_poll q (store_key c.cast.poll_id c.ballot_id)) + ballots q s
  unfolding ballots write_candidate
  ballots-write_new h = count-insert_new _ _ _ _ h

  pub ballots-write_old :
      {old : VoteRecord}
      → lookup (store_key c.cast.poll_id c.ballot_id) s.vote_directions ≡ some old
      → ballots q (write_candidate env c s) ≡ ballots q s
  unfolding ballots write_candidate
  ballots-write_old h =
      omega (arith, count-insert_old (λ key (_ : VoteRecord). in_poll q key) _ _ _ _ h)

  pub voters-write_new :
      lookup (store_key c.cast.poll_id c.identity_hash) s.voter_registry ≡ none
      → voters q (write_candidate env c s)
        ≡ to_nat (in_poll q (store_key c.cast.poll_id c.identity_hash)) + voters q s
  unfolding voters write_candidate
  voters-write_new h = count-insert_new _ _ _ _ h

  pub voters-write_old :
      {old : VoterRecord}
      → lookup (store_key c.cast.poll_id c.identity_hash) s.voter_registry ≡ some old
      → voters q (write_candidate env c s) ≡ voters q s
  unfolding voters write_candidate
  voters-write_old h =
      omega (arith, count-insert_old (λ key (_ : VoterRecord). in_poll q key) _ _ _ _ h)

-- Two candidates write to different keys of either list.
pub record Apart (c d : Candidate) : Type 0 where
  pub ballots_apart : store_key c.cast.poll_id c.ballot_id ≢ store_key d.cast.poll_id d.ballot_id
  pub identities_apart :
      store_key c.cast.poll_id c.identity_hash ≢ store_key d.cast.poll_id d.identity_hash

abbrev pub Distinct : List Candidate → Type 0
Distinct [] = Unit
Distinct (c ∷ cs) = All (Apart c) cs × Distinct cs

IsFresh-write :
    (env : Env) (c d : Candidate) (s : State)
    → Apart c d
    → IsFresh d s
    → IsFresh d (write_candidate env c s)
unfolding write_candidate
IsFresh-write env c d s a f = record {
  ballot = rw lookup-insert (
      ground (
        arith,
        ==_iff (store_key c.cast.poll_id c.ballot_id) (store_key d.cast.poll_id d.ballot_id),
      ));
  identity = rw lookup-insert (
      ground (
        arith,
        ==_iff (store_key c.cast.poll_id c.identity_hash)
            (store_key d.cast.poll_id d.identity_hash),
      ));
}

All-IsFresh-write :
    (env : Env) (c : Candidate) (cs : List Candidate) (s : State)
    → All (Apart c) cs
    → All (λ d. IsFresh d s) cs
    → All (λ d. IsFresh d (write_candidate env c s)) cs
All-IsFresh-write env c [] s a f = tt
All-IsFresh-write env c (d ∷ cs) s a f =
    (IsFresh-write env c d s a.0 f.0, All-IsFresh-write env c cs s a.1 f.1)

-- the same shape for both lists
in_own_poll :
    (p : Bytes) (c : Candidate) (x : Bytes)
    → c.cast.poll_id ≡ p
    → in_poll p (store_key c.cast.poll_id x) ≡ true
in_own_poll p c x e = rw e (in_poll-store_key p x)

pub ballots-write_candidates :
    (env : Env) (p : Bytes) (cs : List Candidate) (s : State)
    → All (λ c. c.cast.poll_id ≡ p) cs
    → All (λ c. IsFresh c s) cs
    → Distinct cs
    → (ballots p (write_candidates env cs s) ≡ length cs + ballots p s)
      × (voters p (write_candidates env cs s) ≡ length cs + voters p s)
unfolding write_candidates
ballots-write_candidates env p [] s own fresh apart = (omega arith, omega arith)
ballots-write_candidates env p (c ∷ cs) s own fresh apart =
    let ih =
      ballots-write_candidates env p cs (write_candidate env c s) own.1
        (All-IsFresh-write env c cs s apart.0 fresh.1) apart.1 in
    ground (
      arith,
      ih,
      ballots-write_new env p c s fresh.0.ballot,
      voters-write_new env p c s fresh.0.identity,
      in_own_poll p c c.ballot_id own.0,
      in_own_poll p c c.identity_hash own.0,
    )
