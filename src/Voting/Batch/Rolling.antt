-- ===== src/Voting/Batch/Rolling.antt =====
-- The checkpoint loop: it ends by its test, and touches neither list.
use community.Base.{
  ℕ, zero, suc, ◌-◌, ◌^◌, ◌≤◌, ◌<◌, ◌≡◌, refl, ap₂, ◌∙◌, true, false, List, arith, Option-cases,
  Bool-cases, inl, inr,
}
use community.Base.Result.{Result, ok, err}
use community.Data.Bytes.{Bytes}
use community.Data.GoMap.{lookup}
use community.Data.GoMap.Laws.{lookup-insert_self}
use community.Protocol.Errors.{Error}
use community.Protocol.Events.{Event}
use community.Data.Int64.{ℤ, pos, ◌-ℤ◌, -ℤ_pos, leb_ℤ}
use community.Protocol.Types.{Poll}
use community.Voting.Attestation.{commit_rolling_attestation, attest_poll}
use community.Voting.Ballots.{submission_count, set_submission_count}
use community.Voting.Batch.{roll_batch, take_checkpoint, after_checkpoint, prepend}
use community.Voting.Env.{Env}
use community.Voting.State.{State, Handler}

-- What is left of a state when its checkpoints, submission counts and dirty flag are set aside.
pub record SameLists (s s' : State) : Type 0 where
  pub votes : s'.vote_directions ≡ s.vote_directions
  pub registry : s'.voter_registry ≡ s.voter_registry
  pub same_polls : s'.polls ≡ s.polls
  pub threshold : s'.rolling_threshold ≡ s.rolling_threshold

attest_poll-SameLists :
    (env : Env) (now : ℤ) (p : Bytes) (poll : Poll) (s : State)
    → SameLists s (attest_poll env now p poll s).1
unfolding attest_poll
attest_poll-SameLists env now p poll s = ground arith

pub commit_rolling_attestation-SameLists :
    (env : Env) (now : ℤ) (p : Bytes) (s : State)
    → SameLists s (commit_rolling_attestation env now p s).1
unfolding commit_rolling_attestation
commit_rolling_attestation-SameLists env now p s = elim (Option-cases (lookup p s.polls)) [
  | inl e ↦
      rw (e, commit_rolling_attestation)
        (record { votes = refl; registry = refl; same_polls = refl; threshold = refl })
  | inr (poll, e) ↦ rw (e, commit_rolling_attestation) (attest_poll-SameLists env now p poll s)
]

SameLists-trans : {s t u : State} → SameLists s t → SameLists t u → SameLists s u
SameLists-trans a b = record {
  votes = b.votes ∙ a.votes;
  registry = b.registry ∙ a.registry;
  same_polls = b.same_polls ∙ a.same_polls;
  threshold = b.threshold ∙ a.threshold;
}

SameLists-refl : (s : State) → SameLists s s
SameLists-refl s = record { votes = refl; registry = refl; same_polls = refl; threshold = refl }

take_checkpoint-SameLists :
    (env : Env) (now : ℤ) (p : Bytes) (s : State) → SameLists s (take_checkpoint env now p s).1
unfolding take_checkpoint
take_checkpoint-SameLists env now p s =
    let c = submission_count p s -ℤ s.rolling_threshold in
    SameLists-trans {t = set_submission_count p c s}
      (record { votes = refl; registry = refl; same_polls = refl; threshold = refl })
      (commit_rolling_attestation-SameLists env now p (set_submission_count p c s))

prepend-SameLists :
    (s : State) (events : List Event) (r : Result Error (List Event) × State)
    → SameLists s r.1
    → SameLists s (prepend events r).1
prepend-SameLists s events (ok more, t) h = h
prepend-SameLists s events (err e, t) h = h

after_checkpoint-SameLists :
    (more : Handler) (s : State) (r : Result Error (List Event) × State)
    → ((t : State) → SameLists t (more t).1)
    → SameLists s r.1
    → SameLists s (after_checkpoint more r).1
after_checkpoint-SameLists more s (ok events, t) keep h =
    prepend-SameLists s events (more t) (SameLists-trans h (keep t))
after_checkpoint-SameLists more s (err e, t) keep h = h

pub roll_batch-SameLists :
    (fuel : ℕ) (env : Env) (now : ℤ) (p : Bytes) (s : State)
    → SameLists s (roll_batch fuel env now p s).1
unfolding roll_batch
roll_batch-SameLists zero env now p s = SameLists-refl s
roll_batch-SameLists (suc fuel) env now p s =
    let round =
      after_checkpoint-SameLists (roll_batch fuel env now p) s (take_checkpoint env now p s)
        (roll_batch-SameLists fuel env now p) (take_checkpoint-SameLists env now p s) in
    elim (Bool-cases (leb_ℤ s.rolling_threshold (submission_count p s))) [
      | inl e ↦ rw (e, roll_batch) round
      | inr e ↦ rw (e, roll_batch) (SameLists-refl s)
    ]

commit-submission_count :
    (env : Env) (now : ℤ) (p : Bytes) (s : State)
    → (commit_rolling_attestation env now p s).1.submission_counts ≡ s.submission_counts
unfolding commit_rolling_attestation attest_poll
commit-submission_count env now p s = elim (Option-cases (lookup p s.polls)) [
  | inl e ↦ rw (e, commit_rolling_attestation)
  | inr (poll, e) ↦ rw (e, commit_rolling_attestation) (ground arith)
]

take_checkpoint-count :
    (env : Env) (now : ℤ) (p : Bytes) (s : State)
    → submission_count p (take_checkpoint env now p s).1
      ≡ submission_count p s -ℤ s.rolling_threshold
unfolding submission_count take_checkpoint
take_checkpoint-count env now p s =
    let c = submission_count p s -ℤ s.rolling_threshold in
    ground (
      arith,
      commit-submission_count env now p (set_submission_count p c s),
      lookup-insert_self p c s.submission_counts,
    )

-- How the loop ends: by its test, the count below the threshold; or with the error of a checkpoint
-- that was taken while its test held.
abbrev pub Ended : Env → ℤ → Bytes → Result Error (List Event) × State → Type 0
Ended env now p (ok events, s) = leb_ℤ s.rolling_threshold (submission_count p s) ≡ false
Ended env now p (err e, s) =
    (u : State) × (leb_ℤ u.rolling_threshold (submission_count p u) ≡ true)
    × (take_checkpoint env now p u ≡ (err e, s))

module _ (env : Env) (now : ℤ) (p : Bytes) where
  prepend-Ended :
      (events : List Event) (r : Result Error (List Event) × State)
      → Ended env now p r
      → Ended env now p (prepend events r)
  prepend-Ended events (ok more, t) h = h
  prepend-Ended events (err e, t) h = h

  after_checkpoint-Ended :
      (more : Handler) (s : State) (r : Result Error (List Event) × State)
      → leb_ℤ s.rolling_threshold (submission_count p s) ≡ true
      → take_checkpoint env now p s ≡ r
      → Ended env now p (more r.1)
      → Ended env now p (after_checkpoint more r)
  after_checkpoint-Ended more s (ok events, t) e taken h = prepend-Ended events (more t) h
  after_checkpoint-Ended more s (err x, t) e taken h = (s, e, taken)

  -- With a positive threshold, a count below 2^63 and as much fuel as the count, the loop runs to
  -- its end: by its test, with a count below the threshold, or with the error of a checkpoint that
  -- it took while the test held.
  pub roll_batch-Ended :
      (fuel : ℕ) (s : State) (n t : ℕ)
      → s.rolling_threshold ≡ pos (suc t)
      → submission_count p s ≡ pos n
      → n < 2 ^ 63
      → n ≤ fuel
      → Ended env now p (roll_batch fuel env now p s)
  unfolding roll_batch
  roll_batch-Ended zero s n t et en small enough = ground arith
  roll_batch-Ended (suc fuel) s n t et en small enough =
      let s' = (take_checkpoint env now p s).1 in
      let et' : s'.rolling_threshold ≡ pos (suc t) =
        (take_checkpoint-SameLists env now p s).threshold ∙ et in
      elim (Bool-cases (leb_ℤ s.rolling_threshold (submission_count p s))) [
        | inl e ↦
            let fits : suc t ≤ n = threshold_le e et en in
            rw (e, roll_batch)
              (after_checkpoint-Ended (roll_batch fuel env now p) s (take_checkpoint env now p s) e
                refl
                (roll_batch-Ended fuel s' (n - suc t) t et'
                  (take_checkpoint-count env now p s
                    ∙ (ap₂ ◌-ℤ◌ en et ∙ -ℤ_pos n (suc t) small fits))
                  (omega arith) (omega arith)))
        | inr e ↦ rw (e, roll_batch) e
      ]
    where
      threshold_le :
          leb_ℤ s.rolling_threshold (submission_count p s) ≡ true
          → s.rolling_threshold ≡ pos (suc t)
          → submission_count p s ≡ pos n
          → suc t ≤ n
      threshold_le e et en = ground arith
