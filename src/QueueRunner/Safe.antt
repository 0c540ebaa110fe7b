-- ===== src/QueueRunner/Safe.antt =====
-- `run` of token_bench/queue_runner.py leaves no job running.
use claude_code_token_saving.Base.{
  ℕ, ◌≡◌, refl, Bool, true, false, ◌||◌, Option, none, some, List, [], ◌∷◌, inl, inr, ok, err, any,
  count, find, All, arith, Option-cases, if◌then◌else◌,
}
use claude_code_token_saving.JobStore.{
  JobRecord, Store, queued_row, running_row, start_job, claim_next_queued, requeue_orphaned_running,
}
use claude_code_token_saving.JobStore.Valid.{IsValid}
use claude_code_token_saving.JobStore.Steps.{requeue_orphaned-IsValid}
use claude_code_token_saving.JobStore.Claim.{claimed_store, claim_found, claim_none}
use claude_code_token_saving.JobStore.Orphans.{orphans_requeued}
use claude_code_token_saving.JobRunner.{JobEnd, ended, rate_limited, Outcome, process_job}
use claude_code_token_saving.JobRunner.Endings.{FinalRun, if_ind}
use claude_code_token_saving.JobRunner.Settles.{IsHandled}
use claude_code_token_saving.QueueRunner.{
  Mode, Runner, Round, Exit, code, raised, still_running, State, stop, begin_job, end_job,
  after_job, after_process, after_claim, serve_all, loop, run,
}
use claude_code_token_saving.QueueRunner.Requests.{IsIdle, serve_all-keeps}
use claude_code_token_saving.QueueRunner.Rounds.{Worked, process_claimed}

-- The calls of a round raise only what `process_job` handles, and a run ends with a final status.
abbrev pub AnswersWell : Round → Type 0
AnswersWell round =
    (j : JobRecord) → FinalRun (round.answers j).run_once × IsHandled (round.answers j)

abbrev pub IsResting : State → Type 0
IsResting (r, s) = IsValid s × IsIdle s × (r.current_run_id ≡ none)

-- No exception, and no job that runs.
abbrev pub IsSafe : Exit × State → Type 0
IsSafe (code c, state) = IsResting state
IsSafe (raised x, state) = ⊥
IsSafe (still_running, state) = IsResting state

module _ (mode : Mode) (rest : State → Exit × State)
    (on : (state : State) → IsResting state → IsSafe (rest state)) where
  job-IsSafe :
      (e : JobEnd) (r : Runner) (t : Store)
      → IsValid t
      → IsIdle t
      → IsSafe (after_process mode r (ok e, t) rest)
  unfolding after_process end_job
  job-IsSafe e r t v idle = go (after_job mode e)
    where
      go :
          (o : Option ℕ)
          → IsSafe (elim o [ none ↦ rest (end_job r, t) | some c ↦ (code c, (end_job r, t)) ])
      go none = on (end_job r, t) (v, idle, refl)
      go (some c) = (v, idle, refl)

  process-IsSafe :
      (r : Runner) (s : Store) (o : Outcome) → Worked s o → IsSafe (after_process mode r o rest)
  process-IsSafe r s (ok (ended st), t) w = job-IsSafe (ended st) r t w.0 w.1
  process-IsSafe r s (ok rate_limited, t) w = job-IsSafe rate_limited r t w.0 w.1
  process-IsSafe r s (err x, t) w = absurd w

  round-IsSafe :
      (round : Round) (r : Runner) (s : Store)
      → AnswersWell round
      → IsResting (r, s)
      → IsSafe (after_claim mode round r (claim_next_queued round.now s) rest)
  unfolding after_claim
  round-IsSafe round r s well (v, idle, free) = elim (Option-cases (find queued_row s.jobs)) [
    | inl e ↦ rw (claim_none round.now s v e) (
        if_ind IsSafe (mode.once || mode.exit_when_empty) _ _ (v, idle, free)
          (on (r, s) (v, idle, free)))
    | inr (j, e) ↦
        let job = start_job round.now j in
        rw (claim_found round.now s v j e) (
          process-IsSafe (begin_job job.run_id r) s
            (process_job job (round.answers job) (claimed_store round.now j s))
            (process_claimed round.now s v idle j e (round.answers job) (well job).0 (well job).1))
  ]

loop-IsSafe :
    (mode : Mode) (rounds : List Round) (state : State)
    → All AnswersWell rounds
    → IsResting state
    → IsSafe (loop mode rounds state)
unfolding loop stop
loop-IsSafe mode [] state well resting = resting
loop-IsSafe mode (round ∷ rounds) (r, s) well (v, idle, free) =
    let (v', idle') = serve_all-keeps round.now round.requests s v idle in
    let free' = stopped round.stopped in
    if_ind IsSafe (if round.stopped then stop r else r).shutdown _ _ (v', idle', free')
      (round-IsSafe mode (loop mode rounds) (λ state h. loop-IsSafe mode rounds state well.1 h)
        round (if round.stopped then stop r else r) (serve_all round.now round.requests s) well.0
        (v', idle', free'))
  where
    stopped : (b : Bool) → (if b then stop r else r).current_run_id ≡ none
    stopped true = free
    stopped false = free

count-eq-zero_of_any :
    (jobs : List JobRecord) → any running_row jobs ≡ false → count running_row jobs ≡ 0
count-eq-zero_of_any [] h = refl
count-eq-zero_of_any (j ∷ jobs) h = ground (arith, count-eq-zero_of_any jobs)

pub recovered-IsResting :
    (r : Runner) (s : Store)
    → IsValid s
    → r.current_run_id ≡ none
    → IsResting (r, (requeue_orphaned_running s).1)
recovered-IsResting r s v free = (
  requeue_orphaned-IsValid s v,
  count-eq-zero_of_any (requeue_orphaned_running s).1.jobs (orphans_requeued s).1,
  free,
)

-- A worker that holds the lock, in any mode, with any requests of the web server and any stop
-- between its claims, raises nothing if the calls for its jobs raise only what `process_job`
-- handles; when it ends, and after any number of rounds, the database is valid and no job runs.
pub run-IsSafe :
    (mode : Mode) (rounds : List Round) (r : Runner) (s : Store)
    → IsValid s
    → r.current_run_id ≡ none
    → All AnswersWell rounds
    → IsSafe (run mode false rounds (r, s))
unfolding run
run-IsSafe mode rounds r s v free well =
    loop-IsSafe mode rounds (r, (requeue_orphaned_running s).1) well
      (recovered-IsResting r s v free)
