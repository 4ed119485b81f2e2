-- ===== src/Voting/Batch/Order.antt =====
-- Sorting the candidates loses none and keeps them apart.
use community.Base.{suc, ◌≡◌, refl, sym, List, [], ◌∷◌, arith, length, All, Bool-cases, inl, inr}
use community.Data.Bytes.Order.{leb_bytes}
use community.Voting.Batch.{Candidate, insert_candidate, sort_candidates}
use community.Voting.TwoLists.Cast.{Apart, Distinct}

All-insert_candidate :
    (P : Candidate → Type 0) (x : Candidate) (l : List Candidate)
    → P x
    → All P l
    → All P (insert_candidate x l)
unfolding insert_candidate
All-insert_candidate P x [] px pl = (px, tt)
All-insert_candidate P x (y ∷ l) px pl = elim (Bool-cases (leb_bytes x.ballot_id y.ballot_id)) [
  | inl e ↦ rw (e, insert_candidate) (px, pl)
  | inr e ↦ rw (e, insert_candidate) (pl.0, All-insert_candidate P x l px pl.1)
]

pub All-sort_candidates :
    (P : Candidate → Type 0) (l : List Candidate) → All P l → All P (sort_candidates l)
unfolding sort_candidates
All-sort_candidates P [] h = tt
All-sort_candidates P (x ∷ l) h =
    All-insert_candidate P x (sort_candidates l) h.0 (All-sort_candidates P l h.1)

Apart-sym : {c d : Candidate} → Apart c d → Apart d c
Apart-sym a = record {
  ballots_apart = λ e. a.ballots_apart (sym e);
  identities_apart = λ e. a.identities_apart (sym e);
}

Distinct-insert_candidate :
    (x : Candidate) (l : List Candidate)
    → All (Apart x) l
    → Distinct l
    → Distinct (insert_candidate x l)
unfolding insert_candidate
Distinct-insert_candidate x [] a d = (tt, tt)
Distinct-insert_candidate x (y ∷ l) a d = elim (Bool-cases (leb_bytes x.ballot_id y.ballot_id)) [
  | inl e ↦ rw (e, insert_candidate) (a, d)
  | inr e ↦
      rw (e, insert_candidate)
        (
          All-insert_candidate (Apart y) x l (Apart-sym a.0) d.0,
          Distinct-insert_candidate x l a.1 d.1,
        )
]

pub Distinct-sort_candidates : (l : List Candidate) → Distinct l → Distinct (sort_candidates l)
unfolding sort_candidates
Distinct-sort_candidates [] d = tt
Distinct-sort_candidates (x ∷ l) d =
    Distinct-insert_candidate x (sort_candidates l) (All-sort_candidates (Apart x) l d.0)
      (Distinct-sort_candidates l d.1)

length-insert_candidate :
    (x : Candidate) (l : List Candidate) → length (insert_candidate x l) ≡ suc (length l)
unfolding insert_candidate
length-insert_candidate x [] = refl
length-insert_candidate x (y ∷ l) = ground (arith, length-insert_candidate x l)

pub length-sort_candidates : (l : List Candidate) → length (sort_candidates l) ≡ length l
unfolding sort_candidates
length-sort_candidates [] = refl
length-sort_candidates (x ∷ l) =
    ground (arith, length-insert_candidate x (sort_candidates l), length-sort_candidates l)
