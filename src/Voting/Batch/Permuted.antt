-- ===== src/Voting/Batch/Permuted.antt =====
-- The order in which a batch lists its submissions leaves no trace.
use community.Base.{◌≡◌, ◌≢◌, refl, sym, ap, ap₂, ◌∙◌, List, [], ◌∷◌, arith, All, some}
use community.Base.Result.{ok}
use community.Data.Bytes.Order.{leb_bytes_total, leb_bytes_antisym, leb_bytes_trans}
use community.Data.Int64.{ℤ}
use community.Protocol.Txs.{Tx, BatchFlushData}
use community.Voting.Batch.{
  Candidate, insert_candidate, sort_candidates, to_candidates, execute_batch_flush, flush,
}
use community.Voting.Batch.Written.{execute_batch_flush-sorted}
use community.Voting.Env.{Env}
use community.Voting.State.{State}

-- candidates with different ballot ids
abbrev pub Differ : Candidate → Candidate → Type 0
Differ c d = c.ballot_id ≢ d.ballot_id

abbrev pub AllDiffer : List Candidate → Type 0
AllDiffer [] = Unit
AllDiffer (c ∷ cs) = All (Differ c) cs × AllDiffer cs

insert_candidate_comm :
    (x y : Candidate) (l : List Candidate)
    → Differ x y
    → insert_candidate x (insert_candidate y l) ≡ insert_candidate y (insert_candidate x l)
unfolding insert_candidate
insert_candidate_comm x y [] d = ground (
  arith,
  leb_bytes_total x.ballot_id y.ballot_id,
  leb_bytes_total y.ballot_id x.ballot_id,
  leb_bytes_antisym x.ballot_id y.ballot_id,
)
insert_candidate_comm x y (z ∷ l) d = ground (
  arith,
  insert_candidate_comm x y l d,
  leb_bytes_total x.ballot_id y.ballot_id,
  leb_bytes_total y.ballot_id x.ballot_id,
  leb_bytes_antisym x.ballot_id y.ballot_id,
  leb_bytes_total x.ballot_id z.ballot_id,
  leb_bytes_total y.ballot_id z.ballot_id,
  leb_bytes_trans x.ballot_id y.ballot_id z.ballot_id,
  leb_bytes_trans y.ballot_id x.ballot_id z.ballot_id,
)

-- the same candidates, in another order
pub data Reordered : List Candidate → List Candidate → Type 0 where
  nil : Reordered [] []
  cons : (c : Candidate) {l r : List Candidate} → Reordered l r → Reordered (c ∷ l) (c ∷ r)
  swap : (c d : Candidate) (l : List Candidate) → Reordered (c ∷ d ∷ l) (d ∷ c ∷ l)
  trans : {l m r : List Candidate} → Reordered l m → Reordered m r → Reordered l r

All-Reordered : (P : Candidate → Type 0) {l r : List Candidate} → Reordered l r → All P l → All P r
All-Reordered P nil h = h
All-Reordered P (cons c p) h = (h.0, All-Reordered P p h.1)
All-Reordered P (swap c d l) (hc, (hd, h)) = (hd, (hc, h))
All-Reordered P (trans p q) h = All-Reordered P q (All-Reordered P p h)

AllDiffer-Reordered : {l r : List Candidate} → Reordered l r → AllDiffer l → AllDiffer r
AllDiffer-Reordered nil h = h
AllDiffer-Reordered (cons c p) h = (All-Reordered (Differ c) p h.0, AllDiffer-Reordered p h.1)
AllDiffer-Reordered (swap c d l) ((hcd, hc), (hd, h)) = ((λ e. hcd (sym e), hd), (hc, h))
AllDiffer-Reordered (trans p q) h = AllDiffer-Reordered q (AllDiffer-Reordered p h)

pub sort_candidates-Reordered :
    {l r : List Candidate} → Reordered l r → AllDiffer l → sort_candidates l ≡ sort_candidates r
unfolding sort_candidates
sort_candidates-Reordered nil h = refl
sort_candidates-Reordered (cons c p) h = ap (insert_candidate c) (sort_candidates-Reordered p h.1)
sort_candidates-Reordered (swap c d l) ((hcd, hc), (hd, h)) =
    insert_candidate_comm c d (sort_candidates l) hcd
sort_candidates-Reordered (trans p q) h =
    sort_candidates-Reordered p h ∙ sort_candidates-Reordered q (AllDiffer-Reordered p h)

-- Two batches for one poll, whose submissions become the same candidates in a different order and
-- with a ballot id each: executing either gives the same events and the same state.
pub execute_batch_flush-Reordered :
    (env : Env) (now : ℤ) (t t' : Tx) (d d' : BatchFlushData) (cs cs' : List Candidate) (s : State)
    → env.decode_batch_flush t.payload ≡ some d
    → env.decode_batch_flush t'.payload ≡ some d'
    → d.poll_id ≡ d'.poll_id
    → to_candidates env s.verifier d.submissions ≡ ok cs
    → to_candidates env s.verifier d'.submissions ≡ ok cs'
    → Reordered cs cs'
    → AllDiffer cs
    → execute_batch_flush env now t s ≡ execute_batch_flush env now t' s
execute_batch_flush-Reordered env now t t' d d' cs cs' s decoded decoded' same from from' order
      differ =
    execute_batch_flush-sorted env now t d cs s decoded from
    ∙ (ap₂ (λ p l. flush env now p l s) same (sort_candidates-Reordered order differ)
        ∙ sym (execute_batch_flush-sorted env now t' d' cs' s decoded' from'))
