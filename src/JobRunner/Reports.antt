-- ===== src/JobRunner/Reports.antt =====
-- What `process_job` of token_bench/job_runner.py returns, beside what it records in the row.
use claude_code_token_saving.Base.{
  ◌≡◌, refl, ap, ◌∙◌, Bool, true, false, not, ◌||◌, some, ok, find, arith, ==_refl, string_eq,
  list_eq, if◌then◌else◌,
}
use claude_code_token_saving.Authorization.{fingerprint_eq}
use claude_code_token_saving.JobStore.{
  failed, blocked, is_succeeded, JobRecord, Store, has_id, running_row, end_job, get_job,
}
use claude_code_token_saving.JobStore.Update.{find-after_update}
use claude_code_token_saving.JobRunner.{
  ProcessOutcome, LogReport, answered, Environment, ended, is_set, is_limited, row_status,
  run_ending, report, after_run, run_stage, preflight_stage, process_job,
}
use claude_code_token_saving.JobRunner.Endings.{ended_store, finish_running}

-- The job came to a run that was measured and published.
pub record IsMeasured (job : JobRecord) (env : Environment) (outcome : ProcessOutcome)
    (log : LogReport) : Type 0 where
  pub snapshot : env.snapshot ≡ answered tt
  pub preflight :
      env.preflight ≡ answered (record { ok = true; tool_fingerprints = job.tool_fingerprints })
  pub prompt : env.prompt ≡ answered tt
  pub run_once : env.run_once ≡ answered (outcome, log)
  pub result : env.result ≡ answered tt
  pub sync_published : env.sync_published ≡ answered tt

module _ (job : JobRecord) (env : Environment) (s : Store) (outcome : ProcessOutcome)
    (log : LogReport) (m : IsMeasured job env outcome log) where
  to_run : process_job job env s ≡ after_run job env (outcome, log) s
  unfolding process_job preflight_stage run_stage
  to_run =
      rw m.snapshot
        (rw m.preflight (rw (==_refl job.tool_fingerprints) (rw m.prompt (rw m.run_once))))

  reported : (t : Store) → report env outcome t ≡ (ok (ended outcome.status), t)
  unfolding report
  reported t = rw m.result (rw m.sync_published (if_same (is_succeeded outcome.status)))
    where
      if_same : {A : Type 0} {a : A} (b : Bool) → (if b then a else a) ≡ a
      if_same true = refl
      if_same false = refl

  module _ (here : find (has_id job.run_id) s.jobs ≡ some job) (runs : running_row job ≡ true)
      (measured : is_limited outcome log ≡ false) where
    to_report :
        process_job job env s
        ≡ (ok (ended outcome.status), ended_store job (run_ending outcome log) s)
    to_report =
        to_run
        ∙ unfold after_run in
          rw measured (
            rw (finish_running job s here runs (run_ending outcome log))
              (reported (ended_store job (run_ending outcome log) s)))

    recorded :
        get_job job.run_id (ended_store job (run_ending outcome log) s)
        ≡ some (end_job (run_ending outcome log) job)
    unfolding get_job
    recorded =
        rw
          (find-after_update job.run_id running_row (end_job (run_ending outcome log)) (λ k. refl)
            job.run_id s here runs)
          (rw (==_refl job.run_id))

blocked_row :
    (outcome : ProcessOutcome) (log : LogReport)
    → outcome.status ≡ failed
    → (is_set log.interrupted_reason || not log.has_output) ≡ true
    → row_status outcome log ≡ blocked
unfolding row_status
blocked_row outcome log f cut = ground arith

-- A failed run that was cut short by something other than the usage limit, or that left no output,
-- is recorded as blocked, but the call returns 'failed'.
pub process_job_misreports :
    (job : JobRecord) (env : Environment) (s : Store) (outcome : ProcessOutcome) (log : LogReport)
    → get_job job.run_id s ≡ some job
    → running_row job ≡ true
    → IsMeasured job env outcome log
    → outcome.status ≡ failed
    → is_limited outcome log ≡ false
    → (is_set log.interrupted_reason || not log.has_output) ≡ true
    → let (r, t) = process_job job env s in
      (k : JobRecord) × (r ≡ ok (ended failed))
      × (get_job job.run_id t ≡ some k)
      × (k.status ≡ blocked)
unfolding get_job
process_job_misreports job env s outcome log here runs m f measured cut =
    let e = run_ending outcome log in
    rw (to_report job env s outcome log m here runs measured) (
      end_job e job,
      ap (λ st. ok (ended st)) f,
      recorded job env s outcome log m here runs measured,
      blocked_row outcome log f cut,
    )
