-- ===== src/QueueRunner/Drain.antt =====
-- `run` of token_bench/queue_runner.py with `exit_when_empty` ends.
use claude_code_token_saving.Base.{
  ℕ, ◌+◌, ◌≤◌, ◌<◌, ◌≡◌, refl, true, false, Option, none, some, List, [], ◌∷◌, ◌⊎◌, inl, inr, ok,
  err, count, keep, find, length, All, arith, Option-cases,
}
use claude_code_token_saving.JobStore.{
  Status, Store, queued_row, running_row, start_job, claim_next_queued, requeue_orphaned_running,
}
use claude_code_token_saving.JobStore.Valid.{IsValid}
use claude_code_token_saving.JobStore.Claim.{claimed_store, claim_found, claim_none, keep-eq-nil}
use claude_code_token_saving.JobStore.Orphans.{orphans_requeued}
use claude_code_token_saving.JobRunner.{ended, rate_limited, Outcome, process_job}
use claude_code_token_saving.QueueRunner.{
  Mode, Runner, Round, Exit, code, raised, still_running, State, begin_job, end_job, after_job,
  after_process, after_claim, serve_all, loop, run,
}
use claude_code_token_saving.QueueRunner.Rounds.{Worked, process_claimed}
use claude_code_token_saving.QueueRunner.Safe.{AnswersWell, IsResting, recovered-IsResting}

-- Nothing comes from outside between the claims.
abbrev pub IsQuiet : Round → Type 0
IsQuiet round = (round.requests ≡ []) × (round.stopped ≡ false)

-- Exit code 0 with no job left in the queue, or exit code 1.
abbrev pub HasEnded : Exit × State → Type 0
HasEnded (code c, (r, s)) = (c ≡ 1) ⊎ ((c ≡ 0) × (keep queued_row s.jobs ≡ []))
HasEnded (raised x, state) = ⊥
HasEnded (still_running, state) = ⊥

after_ended :
    (mode : Mode)
    → mode.once ≡ false
    → (st : Status) → (after_job mode (ended st) ≡ none) ⊎ (after_job mode (ended st) ≡ some 1)
unfolding after_job
after_ended mode on st = ground arith

after_rate_limited :
    (mode : Mode)
    → mode.once ≡ false
    → mode.exit_when_empty ≡ true
    → after_job mode rate_limited ≡ some 1
unfolding after_job
after_rate_limited mode on empties = rw on (rw empties)

-- a round in which nothing comes from outside
loop_round :
    (mode : Mode) (round : Round) (rounds : List Round) (r : Runner) (s : Store)
    → IsQuiet round
    → r.shutdown ≡ false
    → loop mode (round ∷ rounds) (r, s)
      ≡ after_claim mode round r (claim_next_queued round.now s) (loop mode rounds)
unfolding loop serve_all
loop_round mode round rounds r s quiet up = simp (quiet.0, quiet.1, up)

module _ (mode : Mode) (on : mode.once ≡ false) (empties : mode.exit_when_empty ≡ true) where
  module _ (bound : ℕ) (rest : State → Exit × State)
      (goes : (r : Runner) (s : Store)
        → IsResting (r, s)
        → r.shutdown ≡ false
        → count queued_row s.jobs < bound
        → HasEnded (rest (r, s))) where
    job_ends :
        (r : Runner) (t : Store)
        → IsResting (r, t)
        → r.shutdown ≡ false
        → count queued_row t.jobs < bound
        → (o : Option ℕ) → (o ≡ none) ⊎ (o ≡ some 1)
        → HasEnded (elim o [ none ↦ rest (r, t) | some c ↦ (code c, (r, t)) ])
    job_ends r t h up less none m = goes r t h up less
    job_ends r t h up less (some c) (inl e) = cc
    job_ends r t h up less (some c) (inr e) = inl cc

    job_stops :
        (r : Runner) (t : Store) (o : Option ℕ)
        → o ≡ some 1
        → HasEnded (elim o [ none ↦ rest (r, t) | some c ↦ (code c, (r, t)) ])
    job_stops r t none e = cc
    job_stops r t (some c) e = inl cc

    process_ends :
        (r : Runner) (s : Store) (o : Outcome)
        → r.shutdown ≡ false
        → count queued_row s.jobs ≤ bound
        → Worked s o
        → HasEnded (after_process mode r o rest)
    unfolding after_process end_job
    process_ends r s (ok (ended st), t) up few (v, idle, less) =
        job_ends (end_job r) t (v, idle, refl) up (omega arith) (after_job mode (ended st))
          (after_ended mode on st)
    process_ends r s (ok rate_limited, t) up few w =
        job_stops (end_job r) t (after_job mode rate_limited) (after_rate_limited mode on empties)
    process_ends r s (err x, t) up few w = absurd w

    round_ends :
        (round : Round) (r : Runner) (s : Store)
        → AnswersWell round
        → IsResting (r, s)
        → r.shutdown ≡ false
        → count queued_row s.jobs ≤ bound
        → HasEnded (after_claim mode round r (claim_next_queued round.now s) rest)
    unfolding after_claim begin_job
    round_ends round r s well (v, idle, free) up few =
        elim (Option-cases (find queued_row s.jobs)) [
          | inl e ↦
              rw (claim_none round.now s v e)
                (rw on (rw empties (inr (refl, keep-eq-nil queued_row s.jobs e))))
          | inr (j, e) ↦
              let job = start_job round.now j in
              rw (claim_found round.now s v j e) (
                process_ends (begin_job job.run_id r) s
                  (process_job job (round.answers job) (claimed_store round.now j s)) up few
                  (process_claimed round.now s v idle j e (round.answers job) (well job).0
                    (well job).1))
        ]

  loop_ends :
      (rounds : List Round) (r : Runner) (s : Store)
      → All AnswersWell rounds
      → All IsQuiet rounds
      → IsResting (r, s)
      → r.shutdown ≡ false
      → count queued_row s.jobs < length rounds
      → HasEnded (loop mode rounds (r, s))
  loop_ends [] r s well quiet resting up few =
      let none_left : ⊥ = omega (arith, few) in absurd none_left
  loop_ends (round ∷ rounds) r s well quiet resting up few =
      rw (loop_round mode round rounds r s quiet.0 up) (
        round_ends (length rounds) (loop mode rounds)
          (λ q t h running less. loop_ends rounds q t well.1 quiet.1 h running less) round r s
          well.0 resting up (omega arith))

-- A worker that is to exit on an empty queue, and is neither stopped nor given new jobs, returns
-- within one round more than there are jobs that wait or run: with exit code 1, or with exit code 0
-- when no job is left in the queue.
pub run_drains :
    (mode : Mode) (rounds : List Round) (r : Runner) (s : Store)
    → mode.once ≡ false
    → mode.exit_when_empty ≡ true
    → IsValid s
    → r.current_run_id ≡ none
    → r.shutdown ≡ false
    → All AnswersWell rounds
    → All IsQuiet rounds
    → count queued_row s.jobs + count running_row s.jobs < length rounds
    → HasEnded (run mode false rounds (r, s))
unfolding run
run_drains mode rounds r s on empties v free up well quiet few =
    loop_ends mode on empties rounds r (requeue_orphaned_running s).1 well quiet
      (recovered-IsResting r s v free) up (omega (arith, (orphans_requeued s).2))
