-- ===== src/Voting/TwoLists/Flush.antt =====
-- A batch that is validated and then executed adds as many ballots as identities.
use community.Base.{
  subst, ◌+◌, ◌≡◌, sym, ap, ◌∙◌, ◌≢◌, true, false, some, none, List, [], ◌∷◌, arith, length, All,
}
use community.Base.Result.{Result, ok, err}
use community.Data.Bytes.{Bytes, ==_iff}
use community.Data.GoMap.{lookup}
use community.Data.Int64.{ℤ}
use community.Protocol.Errors.{Error}
use community.Protocol.Txs.{Tx, BatchFlushData}
use community.Voting.Ballots.Checks.{has_restore_grant}
use community.Voting.Batch.{Candidate, to_candidates, sort_candidates, execute_batch_flush}
use community.Voting.Batch.Checks.{
  batch_poll, validate_batch_of, validate_batch_flush, validate_submissions,
}
use community.Voting.Batch.Written.{flush-SameTwo, execute_batch_flush-sorted}
use community.Voting.Ballots.Accepted.{SameBut, SameBut-refl}
use community.Voting.Batch.Accepted.{Allowed, Accepted, validate_submissions-Accepted}
use community.Voting.Batch.Unchanged.{validate_submissions-SameBut}
use community.Voting.Batch.Order.{
  All-sort_candidates, Distinct-sort_candidates, length-sort_candidates,
}
use community.Voting.Choices.{contains}
use community.Voting.Env.{Env}
use community.Voting.State.{State, store_key, voter_count_for_poll}
use community.Voting.TwoLists.{ballots, voters}
use community.Voting.TwoLists.Cast.{IsFresh, Apart, Distinct, ballots-write_candidates}
use community.Voting.TwoLists.Keys.{store_key_injective}

contains-ne : (l : List Bytes) (a b : Bytes) → contains l a ≡ true → contains l b ≡ false → a ≢ b
contains-ne l a b h k e = cc

contains-head : (l : List Bytes) (a : Bytes) → contains (a ∷ l) a ≡ true
unfolding contains
contains-head l a = ground (arith, ==_iff a a)

contains-tail : (l : List Bytes) (x a : Bytes) → contains l a ≡ true → contains (x ∷ l) a ≡ true
unfolding contains
contains-tail l x a h = ground arith

Apart-Accepted :
    (p : Bytes) (s : State) (c : Candidate) (bs ks : List Bytes) (cs : List Candidate)
    → c.cast.poll_id ≡ p
    → contains bs c.ballot_id ≡ true
    → contains ks (store_key p c.identity_hash) ≡ true
    → Accepted p bs ks s cs
    → All (Apart c) cs
Apart-Accepted p s c bs ks [] own b k a = tt
Apart-Accepted p s c bs ks (d ∷ cs) own b k (own', nb, nk, al, rest) = (
  record {
    ballots_apart = λ e. contains-ne bs c.ballot_id d.ballot_id b nb (
        store_key_injective p _ _ (
          ap (λ x. store_key x c.ballot_id) (sym own)
          ∙ (e ∙ ap (λ x. store_key x d.ballot_id) own')));
    identities_apart = λ e.
        contains-ne ks (store_key p c.identity_hash) (store_key p d.identity_hash) k nk (
          ap (λ x. store_key x c.identity_hash) (sym own)
          ∙ (e ∙ ap (λ x. store_key x d.identity_hash) own'));
  },
  Apart-Accepted p s c (d.ballot_id ∷ bs) (store_key p d.identity_hash ∷ ks) cs own
      (contains-tail bs d.ballot_id c.ballot_id b)
      (contains-tail ks (store_key p d.identity_hash) (store_key p c.identity_hash) k) rest,
)

pub Accepted-Distinct :
    (p : Bytes) (s : State) (bs ks : List Bytes) (cs : List Candidate)
    → Accepted p bs ks s cs
    → Distinct cs
Accepted-Distinct p s bs ks [] a = tt
Accepted-Distinct p s bs ks (c ∷ cs) (own, nb, nk, al, rest) = (
  Apart-Accepted p s c (c.ballot_id ∷ bs) (store_key p c.identity_hash ∷ ks) cs own
      (contains-head bs c.ballot_id) (contains-head ks (store_key p c.identity_hash)) rest,
  Accepted-Distinct p s (c.ballot_id ∷ bs) (store_key p c.identity_hash ∷ ks) cs rest,
)

-- Nothing is known of the ballot ids but that the batch holds each once: that no earlier ballot has
-- one of them, and that no identity holds a restore grant, are conditions.
abbrev pub IsNew : Candidate → State → Type 0
IsNew c s =
    (lookup (store_key c.cast.poll_id c.ballot_id) s.vote_directions ≡ none)
    × (has_restore_grant c.cast.poll_id c.identity_hash s ≡ false)

unregistered :
    (c : Candidate) (s : State)
    → Allowed c s
    → has_restore_grant c.cast.poll_id c.identity_hash s ≡ false
    → lookup (store_key c.cast.poll_id c.identity_hash) s.voter_registry ≡ none
unregistered c s a g = ground arith

IsFresh-Accepted :
    (p : Bytes) (s : State) (bs ks : List Bytes) (cs : List Candidate)
    → Accepted p bs ks s cs
    → All (λ c. IsNew c s) cs
    → All (λ c. c.cast.poll_id ≡ p) cs × All (λ c. IsFresh c s) cs
IsFresh-Accepted p s bs ks [] a n = (tt, tt)
IsFresh-Accepted p s bs ks (c ∷ cs) (own, nb, nk, al, rest) (n, ns) =
    let (owns, fresh) =
      IsFresh-Accepted p s (c.ballot_id ∷ bs) (store_key p c.identity_hash ∷ ks) cs rest ns in
    ((own, owns), ((record { ballot = n.0; identity = unregistered c s al n.1 }), fresh))

pub ballots-cong :
    (p : Bytes) (s s' : State) → s'.vote_directions ≡ s.vote_directions → ballots p s' ≡ ballots p s
unfolding ballots
ballots-cong p s s' e = cc

pub voters-cong :
    (p : Bytes) (s s' : State) → s'.voter_registry ≡ s.voter_registry → voters p s' ≡ voters p s
unfolding voters voter_count_for_poll
voters-cong p s s' e = cc

-- What an accepted batch of new candidates does, once it is executed in `s'`.
module _ (env : Env) (now : ℤ) (t : Tx) (d : BatchFlushData) (cs : List Candidate) (s : State) where
  flushed :
      env.decode_batch_flush t.payload ≡ some d
      → to_candidates env s.verifier d.submissions ≡ ok cs
      → All (λ c. c.cast.poll_id ≡ d.poll_id) cs
      → All (λ c. IsFresh c s) cs
      → Distinct cs
      → (ballots d.poll_id (execute_batch_flush env now t s).1 ≡ length cs + ballots d.poll_id s)
        × (voters d.poll_id (execute_batch_flush env now t s).1 ≡ length cs + voters d.poll_id s)
  flushed decoded candidates own fresh distinct =
      let p = d.poll_id in
      let sorted = sort_candidates cs in
      let same = flush-SameTwo env now p sorted s in
      let written =
        ballots-write_candidates env p sorted s (All-sort_candidates _ cs own)
          (All-sort_candidates (λ c. IsFresh c s) cs fresh)
          (Distinct-sort_candidates cs distinct) in
      rw (execute_batch_flush-sorted env now t d cs s decoded candidates) (
        ballots-cong p _ _ same.0
            ∙ (written.0 ∙ ap (λ n. n + ballots p s) (length-sort_candidates cs)),
        voters-cong p _ _ same.1
            ∙ (written.1 ∙ ap (λ n. n + voters p s) (length-sort_candidates cs)),
      )

batch_ok :
    (env : Env) (now : ℤ) (t : Tx) (d : BatchFlushData) (s : State)
    → env.decode_batch_flush t.payload ≡ some d
    → (validate_batch_flush env now t s).0 ≡ ok tt
    → (validate_submissions env now d.poll_id [] [] d.submissions s).0 ≡ ok tt
unfolding validate_batch_flush validate_batch_of batch_poll
batch_ok env now t d s decoded accepted = ground arith

batch_state :
    (env : Env) (now : ℤ) (t : Tx) (s : State) (r : Result Error BatchFlushData)
    → SameBut s (validate_batch_of env now r s).1
unfolding validate_batch_of
batch_state env now t s (ok d) =
    validate_submissions-SameBut env now d.poll_id [] [] d.submissions s
batch_state env now t s (err e) = SameBut-refl s

IsFresh-same :
    (cs : List Candidate) (s s' : State)
    → SameBut s s'
    → All (λ c. IsFresh c s) cs
    → All (λ c. IsFresh c s') cs
IsFresh-same [] s s' same f = tt
IsFresh-same (c ∷ cs) s s' same (f, fs) = (
  record {
    ballot = ap (lookup _) same.votes ∙ f.ballot;
    identity = ap (lookup _) same.registry ∙ f.identity;
  },
  IsFresh-same cs s s' same fs,
)

-- A batch of the poll of `d` that its validation accepts, and that turns into the candidates `cs`,
-- none of which has the id of an earlier ballot or an identity with a restore grant: executed in
-- the state that validation leaves, both lists of the poll have grown by the length of `cs`.
pub validate-execute_batch_flush :
    (env : Env) (now : ℤ) (t : Tx) (d : BatchFlushData) (cs : List Candidate) (s : State)
    → env.decode_batch_flush t.payload ≡ some d
    → to_candidates env s.verifier d.submissions ≡ ok cs
    → (validate_batch_flush env now t s).0 ≡ ok tt
    → All (λ c. IsNew c s) cs
    → let s' = (execute_batch_flush env now t (validate_batch_flush env now t s).1).1 in
      (ballots d.poll_id s' ≡ length cs + ballots d.poll_id s)
      × (voters d.poll_id s' ≡ length cs + voters d.poll_id s)
unfolding validate_batch_flush
validate-execute_batch_flush env now t d cs s decoded candidates accepted new =
    let p = d.poll_id in
    let u = (validate_batch_flush env now t s).1 in
    let same : SameBut s u = batch_state env now t s (batch_poll env t s) in
    let (cs', candidates', acc') =
      validate_submissions-Accepted env now p [] [] d.submissions s s (SameBut-refl s)
        (batch_ok env now t d s decoded accepted) in
    let e : cs' ≡ cs = ok_injective (sym candidates' ∙ candidates) in
    let acc = subst (Accepted p [] [] s) e acc' in
    let (own, fresh) = IsFresh-Accepted p s [] [] cs acc new in
    let grown =
      flushed env now t d cs u decoded
        (ap (λ v. to_candidates env v d.submissions) same.verifier ∙ candidates) own
        (IsFresh-same cs s u same fresh) (Accepted-Distinct p s [] [] cs acc) in
    (
      grown.0 ∙ ap (λ n. length cs + n) (ballots-cong p s u same.votes),
      grown.1 ∙ ap (λ n. length cs + n) (voters-cong p s u same.registry),
    )
  where
    ok_injective :
        {x y : List Candidate} → let r : Result Error (List Candidate) = ok x in r ≡ ok y → x ≡ y
    ok_injective h = ground arith
