-- ===== src/Voting/Batch/Unlinked.antt =====
-- Neither list of a batch depends on the other's part of the submissions.
use community.Base.{◌≡◌, refl, sym, ap₂, ◌∙◌, List, [], ◌∷◌, some, Bool-cases, inl, inr}
use community.Base.Result.{ok}
use community.Data.Bytes.{Bytes}
use community.Data.Bytes.Order.{leb_bytes}
use community.Data.Int64.{ℤ}
use community.Protocol.Txs.{Tx, BatchFlushData}
use community.Voting.Batch.{
  Candidate, insert_candidate, sort_candidates, write_candidate, write_candidates, flush,
  to_candidates, execute_batch_flush,
}
use community.Voting.Batch.Written.{flush-SameTwo, execute_batch_flush-sorted}
use community.Voting.Env.{Env}
use community.Voting.State.{State}

-- Candidates that may differ in everything of the person but the device key: the identity hash, the
-- attestation, the signature.
pub record SameBallot (c d : Candidate) : Type 0 where
  pub same_poll : c.cast.poll_id ≡ d.cast.poll_id
  pub same_id : c.ballot_id ≡ d.ballot_id
  pub same_choices : c.cast.choices ≡ d.cast.choices
  pub same_key : c.cast.voter_pub_key ≡ d.cast.voter_pub_key

-- Candidates that may differ in everything of the ballot but its id: the choices, the device key.
pub record SameVoter (c d : Candidate) : Type 0 where
  pub same_poll : c.cast.poll_id ≡ d.cast.poll_id
  pub same_id : c.ballot_id ≡ d.ballot_id
  pub same_identity : c.identity_hash ≡ d.identity_hash

abbrev pub Pairwise : (Candidate → Candidate → Type 0) → List Candidate → List Candidate → Type 0
Pairwise R [] [] = Unit
Pairwise R [] (d ∷ ds) = ⊥
Pairwise R (c ∷ cs) [] = ⊥
Pairwise R (c ∷ cs) (d ∷ ds) = R c d × Pairwise R cs ds

module _ (R : Candidate → Candidate → Type 0)
    (ids : (c d : Candidate) → R c d → c.ballot_id ≡ d.ballot_id) where
  Pairwise-insert_candidate :
      (c d : Candidate) (cs ds : List Candidate)
      → R c d
      → Pairwise R cs ds
      → Pairwise R (insert_candidate c cs) (insert_candidate d ds)
  unfolding insert_candidate
  Pairwise-insert_candidate c d [] [] r h = (r, tt)
  Pairwise-insert_candidate c d [] (y ∷ ds) r h = absurd h
  Pairwise-insert_candidate c d (x ∷ cs) [] r h = absurd h
  Pairwise-insert_candidate c d (x ∷ cs) (y ∷ ds) r h =
      let same = ap₂ leb_bytes (ids c d r) (ids x y h.0) in
      elim (Bool-cases (leb_bytes c.ballot_id x.ballot_id)) [
        | inl e ↦ rw (e, sym same ∙ e, insert_candidate) (r, h)
        | inr e ↦
            rw (e, sym same ∙ e, insert_candidate) (h.0, Pairwise-insert_candidate c d cs ds r h.1)
      ]

  pub Pairwise-sort_candidates :
      (cs ds : List Candidate)
      → Pairwise R cs ds
      → Pairwise R (sort_candidates cs) (sort_candidates ds)
  unfolding sort_candidates
  Pairwise-sort_candidates [] [] h = tt
  Pairwise-sort_candidates [] (d ∷ ds) h = absurd h
  Pairwise-sort_candidates (c ∷ cs) [] h = absurd h
  Pairwise-sort_candidates (c ∷ cs) (d ∷ ds) h =
      Pairwise-insert_candidate c d (sort_candidates cs) (sort_candidates ds) h.0
        (Pairwise-sort_candidates cs ds h.1)

write-votes :
    (env : Env) (c d : Candidate) (s s' : State)
    → SameBallot c d
    → s.vote_directions ≡ s'.vote_directions
    → (write_candidate env c s).vote_directions ≡ (write_candidate env d s').vote_directions
unfolding write_candidate
write-votes env c d s s' r h = rw (r.same_poll, r.same_id, r.same_choices, r.same_key, h) refl

writes-votes :
    (env : Env) (cs ds : List Candidate) (s s' : State)
    → Pairwise SameBallot cs ds
    → s.vote_directions ≡ s'.vote_directions
    → (write_candidates env cs s).vote_directions ≡ (write_candidates env ds s').vote_directions
unfolding write_candidates
writes-votes env [] [] s s' r h = h
writes-votes env [] (d ∷ ds) s s' r h = absurd r
writes-votes env (c ∷ cs) [] s s' r h = absurd r
writes-votes env (c ∷ cs) (d ∷ ds) s s' r h =
    writes-votes env cs ds (write_candidate env c s) (write_candidate env d s') r.1
      (write-votes env c d s s' r.0 h)

write-registry :
    (env : Env) (c d : Candidate) (s s' : State)
    → SameVoter c d
    → s.voter_registry ≡ s'.voter_registry
    → (write_candidate env c s).voter_registry ≡ (write_candidate env d s').voter_registry
unfolding write_candidate
write-registry env c d s s' r h = rw (r.same_poll, r.same_identity, h) refl

writes-registry :
    (env : Env) (cs ds : List Candidate) (s s' : State)
    → Pairwise SameVoter cs ds
    → s.voter_registry ≡ s'.voter_registry
    → (write_candidates env cs s).voter_registry ≡ (write_candidates env ds s').voter_registry
unfolding write_candidates
writes-registry env [] [] s s' r h = h
writes-registry env [] (d ∷ ds) s s' r h = absurd r
writes-registry env (c ∷ cs) [] s s' r h = absurd r
writes-registry env (c ∷ cs) (d ∷ ds) s s' r h =
    writes-registry env cs ds (write_candidate env c s) (write_candidate env d s') r.1
      (write-registry env c d s s' r.0 h)

flush-votes :
    (env : Env) (now : ℤ) (p q : Bytes) (cs ds : List Candidate) (s : State)
    → Pairwise SameBallot cs ds
    → (flush env now p (sort_candidates cs) s).1.vote_directions
      ≡ (flush env now q (sort_candidates ds) s).1.vote_directions
flush-votes env now p q cs ds s r =
    let sorted = Pairwise-sort_candidates SameBallot (λ c d h. h.same_id) cs ds r in
    (flush-SameTwo env now p (sort_candidates cs) s).0
    ∙ (writes-votes env (sort_candidates cs) (sort_candidates ds) s s sorted refl
        ∙ sym (flush-SameTwo env now q (sort_candidates ds) s).0)

flush-registry :
    (env : Env) (now : ℤ) (p q : Bytes) (cs ds : List Candidate) (s : State)
    → Pairwise SameVoter cs ds
    → (flush env now p (sort_candidates cs) s).1.voter_registry
      ≡ (flush env now q (sort_candidates ds) s).1.voter_registry
flush-registry env now p q cs ds s r =
    let sorted = Pairwise-sort_candidates SameVoter (λ c d h. h.same_id) cs ds r in
    (flush-SameTwo env now p (sort_candidates cs) s).1
    ∙ (writes-registry env (sort_candidates cs) (sort_candidates ds) s s sorted refl
        ∙ sym (flush-SameTwo env now q (sort_candidates ds) s).1)

module _ (env : Env) (now : ℤ) (t t' : Tx) (d d' : BatchFlushData) (cs cs' : List Candidate)
    (s : State) (decoded : env.decode_batch_flush t.payload ≡ some d)
    (decoded' : env.decode_batch_flush t'.payload ≡ some d')
    (from : to_candidates env s.verifier d.submissions ≡ ok cs)
    (from' : to_candidates env s.verifier d'.submissions ≡ ok cs') where
  -- Two batches whose submissions become candidates that agree one by one in poll, ballot id,
  -- choices and device key, and may differ in the identities: executed in one state, they leave the
  -- same List 1.
  pub execute_batch_flush-votes_unlinked :
      Pairwise SameBallot cs cs'
      → (execute_batch_flush env now t s).1.vote_directions
        ≡ (execute_batch_flush env now t' s).1.vote_directions
  execute_batch_flush-votes_unlinked r =
      rw
        (
          execute_batch_flush-sorted env now t d cs s decoded from,
          execute_batch_flush-sorted env now t' d' cs' s decoded' from',
        )
        (flush-votes env now d.poll_id d'.poll_id cs cs' s r)

  -- Two batches whose submissions become candidates that agree one by one in poll, ballot id and
  -- identity hash, and may differ in the choices: executed in one state, they leave the same List 2.
  pub execute_batch_flush-registry_unlinked :
      Pairwise SameVoter cs cs'
      → (execute_batch_flush env now t s).1.voter_registry
        ≡ (execute_batch_flush env now t' s).1.voter_registry
  execute_batch_flush-registry_unlinked r =
      rw
        (
          execute_batch_flush-sorted env now t d cs s decoded from,
          execute_batch_flush-sorted env now t' d' cs' s decoded' from',
        )
        (flush-registry env now d.poll_id d'.poll_id cs cs' s r)
