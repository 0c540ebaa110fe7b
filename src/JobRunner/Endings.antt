-- ===== src/JobRunner/Endings.antt =====
-- How `process_job` of token_bench/job_runner.py leaves the row of its job.
use claude_code_token_saving.Base.{
  String, ◌≡◌, refl, Bool, true, false, not, some, ◌⊎◌, inl, inr, ok, err, find, arith, ◌==◌,
  string_eq, list_eq, if◌then◌else◌,
}
use claude_code_token_saving.Authorization.{fingerprint_eq}
use claude_code_token_saving.JobStore.{
  Status, blocked, is_succeeded, JobRecord, Ending, Store, has_id, running_row, end_job,
  requeue_row, finish_job, requeue_job, not_running,
}
use claude_code_token_saving.JobStore.Steps.{IsFinal}
use claude_code_token_saving.JobStore.Update.{after_update, update_job_lem}
use claude_code_token_saving.JobRunner.{
  ProcessOutcome, LogReport, PreflightReport, Reply, answered, refused, escaped, Environment,
  other_exception, ended, rate_limited, Outcome, end_without_run, is_limited, row_status,
  run_ending, reply_end, report, after_run, run_stage, preflight_stage, process_job,
}

-- `run_once` returns only what ends a process.
abbrev pub FinalRun : Reply (ProcessOutcome × LogReport) → Type 0
FinalRun (answered (outcome, log)) = IsFinal outcome.status
FinalRun _ = Unit

abbrev pub ended_store : JobRecord → Ending → Store → Store
ended_store job e = after_update job.run_id running_row (end_job e) (λ k. refl)

abbrev pub requeued_store : JobRecord → Store → Store
requeued_store job = after_update job.run_id running_row requeue_row (λ k. refl)

abbrev pub Settles : JobRecord → Store → Store → Type 0
Settles job s t = (e : Ending) × IsFinal e.status × (t ≡ ended_store job e s)

-- A return leaves the job ended or waiting; an exception may leave it as it was.
abbrev pub Ends : JobRecord → Store → Outcome → Type 0
Ends job s (ok (ended st), t) = Settles job s t
Ends job s (ok rate_limited, t) = t ≡ requeued_store job s
Ends job s (err x, t) = (t ≡ s) ⊎ Settles job s t

row_status-IsFinal :
    (outcome : ProcessOutcome) (log : LogReport)
    → IsFinal outcome.status
    → IsFinal (row_status outcome log)
unfolding row_status
row_status-IsFinal outcome log h = ground arith

-- A property of the three ways in which a call ends.
pub reply_end_ind :
    {A : Type 0} (P : Outcome → Type 0) (r : Reply A) (s : Store) (rest : A → Outcome)
    (handler : Outcome)
    → ((a : A) → r ≡ answered a → P (rest a))
    → (r ≡ refused → P handler)
    → (r ≡ escaped → P (err other_exception, s))
    → P (reply_end r s rest handler)
reply_end_ind P (answered a) s rest handler good bad other = good a refl
reply_end_ind P refused s rest handler good bad other = bad refl
reply_end_ind P escaped s rest handler good bad other = other refl

pub if_ind {ℓ} :
    {A : Type ℓ} (P : A → Type 0) (b : Bool) (x y : A) → P x → P y → P (if b then x else y)
if_ind P true x y hx hy = hx
if_ind P false x y hx hy = hy

-- The job of the call, whose row is running.
module _ (job : JobRecord) (s : Store) (here : find (has_id job.run_id) s.jobs ≡ some job)
    (runs : running_row job ≡ true) where
  pub finish_running :
      (e : Ending) → finish_job job.run_id e s ≡ (ok (end_job e job), ended_store job e s)
  unfolding finish_job
  finish_running e =
      update_job_lem job.run_id running_row (end_job e) (λ k. refl) not_running s here runs

  pub requeue_running : requeue_job job.run_id s ≡ (ok (requeue_row job), requeued_store job s)
  unfolding requeue_job
  requeue_running =
      update_job_lem job.run_id running_row requeue_row (λ k. refl) not_running s here runs

  end_without_run-Ends :
      (st : Status) (now : String) → IsFinal st → Ends job s (end_without_run job st now s)
  unfolding end_without_run
  end_without_run-Ends st now final = rw (finish_running _) (_, final, refl)

  report-Ends :
      (env : Environment) (outcome : ProcessOutcome) (t : Store)
      → Settles job s t
      → Ends job s (report env outcome t)
  unfolding report
  report-Ends env outcome t settled =
      reply_end_ind (Ends job s) env.result t _ _
        (λ _ _.
          if_ind (Ends job s) (is_succeeded outcome.status) _ _
            (reply_end_ind (Ends job s) env.sync_published t _ _ (λ _ _. settled) (λ _. inr settled)
              (λ _. inr settled))
            settled)
        (λ _. inr settled) (λ _. inr settled)

  after_run-Ends :
      (env : Environment) (outcome : ProcessOutcome) (log : LogReport)
      → IsFinal outcome.status
      → Ends job s (after_run job env (outcome, log) s)
  unfolding after_run
  after_run-Ends env outcome log final =
      if_ind (Ends job s) (is_limited outcome log) _ _ (rw requeue_running refl) (
        rw (finish_running (run_ending outcome log)) (
          report-Ends env outcome (ended_store job (run_ending outcome log) s)
            (run_ending outcome log, row_status-IsFinal outcome log final, refl)))

  run_stage-Ends : (env : Environment) → FinalRun env.run_once → Ends job s (run_stage job env s)
  unfolding run_stage
  run_stage-Ends env final =
      reply_end_ind (Ends job s) env.run_once s _ _
        (λ answer e. after_run-Ends env answer.0 answer.1 (rw e at final))
        (λ _. end_without_run-Ends Status.worker_error env.now (refl, refl)) (λ _. inl refl)

  preflight_stage-Ends :
      (env : Environment) (preflight : PreflightReport)
      → FinalRun env.run_once
      → Ends job s (preflight_stage job env s preflight)
  unfolding preflight_stage
  preflight_stage-Ends env preflight final =
      let blocks = end_without_run-Ends blocked env.now (refl, refl) in
      if_ind (Ends job s) (not preflight.ok) _ _ blocks (
        if_ind (Ends job s) (not (preflight.tool_fingerprints == job.tool_fingerprints)) _ _ blocks
          (reply_end_ind (Ends job s) env.prompt s _ _ (λ _ _. run_stage-Ends env final)
            (λ _. inl refl) (λ _. inl refl)))

  pub process_job-Ends :
      (env : Environment) → FinalRun env.run_once → Ends job s (process_job job env s)
  unfolding process_job
  process_job-Ends env final =
      reply_end_ind (Ends job s) env.snapshot s _ _
        (λ _ _.
          reply_end_ind (Ends job s) env.preflight s _ _
            (λ preflight _. preflight_stage-Ends env preflight final) (λ _. inl refl)
            (λ _. inl refl))
        (λ _. end_without_run-Ends Status.config_error env.now (refl, refl)) (λ _. inl refl)
