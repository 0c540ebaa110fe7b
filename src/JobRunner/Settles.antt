-- ===== src/JobRunner/Settles.antt =====
-- `process_job` of token_bench/job_runner.py returns, and its job does not stay running.
use claude_code_token_saving.Base.{
  String, ◌≡◌, refl, true, false, not, some, ok, err, find, ◌==◌, ==_refl, string_eq, list_eq,
  if◌then◌else◌,
}
use claude_code_token_saving.Authorization.{fingerprint_eq}
use claude_code_token_saving.JobStore.{
  Status, blocked, is_succeeded, JobRecord, Store, has_id, running_row, end_job, requeue_row,
  get_job,
}
use claude_code_token_saving.JobStore.Update.{after_update, find-after_update}
use claude_code_token_saving.JobRunner.{
  ProcessOutcome, LogReport, PreflightReport, Reply, answered, refused, escaped, Environment,
  JobEnd, ended, rate_limited, Outcome, end_without_run, is_limited, run_ending, reply_end, report,
  after_run, run_stage, preflight_stage, process_job,
}
use claude_code_token_saving.JobRunner.Endings.{
  FinalRun, Ends, ended_store, if_ind, finish_running, requeue_running, process_job-Ends,
}

abbrev pub Answers : {A : Type 0} → Reply A → Type 0
Answers (answered a) = Unit
Answers _ = ⊥

abbrev pub Stays : {A : Type 0} → Reply A → Type 0
Stays escaped = ⊥
Stays _ = Unit

-- No call raises what `process_job` does not handle there.
pub record IsHandled (env : Environment) : Type 0 where
  pub snapshot : Stays env.snapshot
  pub preflight : Answers env.preflight
  pub prompt : Answers env.prompt
  pub run_once : Stays env.run_once
  pub result : Answers env.result
  pub sync_published : Answers env.sync_published

abbrev pub Returns : Outcome → Type 0
Returns (ok e, t) = Unit
Returns (err x, t) = ⊥

-- A call that answers, and one whose exception has a handler.
answer-Returns :
    {A : Type 0} (r : Reply A) (s : Store) (rest : A → Outcome) (handler : Outcome)
    → Answers r
    → ((a : A) → r ≡ answered a → Returns (rest a))
    → Returns (reply_end r s rest handler)
answer-Returns (answered a) s rest handler h good = good a refl
answer-Returns refused s rest handler h good = absurd h
answer-Returns escaped s rest handler h good = absurd h

stay-Returns :
    {A : Type 0} (r : Reply A) (s : Store) (rest : A → Outcome) (handler : Outcome)
    → Stays r
    → ((a : A) → Returns (rest a))
    → Returns handler
    → Returns (reply_end r s rest handler)
stay-Returns (answered a) s rest handler h good bad = good a
stay-Returns refused s rest handler h good bad = bad
stay-Returns escaped s rest handler h good bad = absurd h

module _ (job : JobRecord) (s : Store) (here : find (has_id job.run_id) s.jobs ≡ some job)
    (runs : running_row job ≡ true) where
  end_without_run-Returns : (st : Status) (now : String) → Returns (end_without_run job st now s)
  unfolding end_without_run
  end_without_run-Returns st now = rw (finish_running job s here runs _) tt

  report-Returns :
      (env : Environment) (outcome : ProcessOutcome) (t : Store)
      → IsHandled env
      → Returns (report env outcome t)
  unfolding report
  report-Returns env outcome t h = answer-Returns env.result t _ _ h.result (λ _ _.
      if_ind Returns (is_succeeded outcome.status) _ _
        (answer-Returns env.sync_published t _ _ h.sync_published (λ _ _. tt)) tt)

  after_run-Returns :
      (env : Environment) (answer : ProcessOutcome × LogReport)
      → IsHandled env
      → Returns (after_run job env answer s)
  unfolding after_run
  after_run-Returns env (outcome, log) h =
      if_ind Returns (is_limited outcome log) _ _ (rw (requeue_running job s here runs) tt) (
        rw (finish_running job s here runs (run_ending outcome log))
          (report-Returns env outcome (ended_store job (run_ending outcome log) s) h))

  preflight_stage-Returns :
      (env : Environment) (preflight : PreflightReport)
      → IsHandled env
      → Returns (preflight_stage job env s preflight)
  unfolding preflight_stage run_stage
  preflight_stage-Returns env preflight h =
      let blocks = end_without_run-Returns blocked env.now in
      if_ind Returns (not preflight.ok) _ _ blocks (
        if_ind Returns (not (preflight.tool_fingerprints == job.tool_fingerprints)) _ _ blocks (
          answer-Returns env.prompt s _ _ h.prompt (λ _ _.
            stay-Returns env.run_once s _ _ h.run_once (λ a. after_run-Returns env a h)
              (end_without_run-Returns Status.worker_error env.now))))

  pub process_job-Returns : (env : Environment) → IsHandled env → Returns (process_job job env s)
  unfolding process_job
  process_job-Returns env h =
      stay-Returns env.snapshot s _ _ h.snapshot
        (λ _.
          answer-Returns env.preflight s _ _ h.preflight
            (λ preflight _. preflight_stage-Returns env preflight h))
        (end_without_run-Returns Status.config_error env.now)

  -- What is known after a return.
  abbrev pub Settled : Outcome → Type 0
  Settled (r, t) =
      (e : JobEnd) × (k : JobRecord) × (r ≡ ok e)
      × (get_job job.run_id t ≡ some k)
      × (running_row k ≡ false)
      × ((id : String) → get_job id t ≡ (if job.run_id == id then some k else get_job id s))

  Settled-row :
      (e : JobEnd) (f : JobRecord → JobRecord) (same : (k : JobRecord) → (f k).run_id ≡ k.run_id)
      → running_row (f job) ≡ false
      → Settled (ok e, after_update job.run_id running_row f same s)
  unfolding get_job
  Settled-row e f same stops =
      let others =
        λ (id : String). find-after_update job.run_id running_row f same id s here runs in
      (e, f job, refl, rw (others job.run_id) (rw (==_refl job.run_id)), stops, others)

  settled : (o : Outcome) → Ends job s o → Returns o → Settled o
  settled (ok (ended st), t) (e, final, same) h =
      rw same (Settled-row (ended st) (end_job e) (λ k. refl) final.1)
  settled (ok rate_limited, t) same h =
      rw same (Settled-row rate_limited requeue_row (λ k. refl) refl)
  settled (err x, t) m h = absurd h

-- If no call raises an exception that `process_job` does not handle, it returns, its job is no
-- longer running, and the row of every other job is as it was.
pub process_job_settles :
    (job : JobRecord) (env : Environment) (s : Store)
    → get_job job.run_id s ≡ some job
    → running_row job ≡ true
    → FinalRun env.run_once
    → IsHandled env
    → let (r, t) = process_job job env s in
      (e : JobEnd) × (k : JobRecord) × (r ≡ ok e)
      × (get_job job.run_id t ≡ some k)
      × (running_row k ≡ false)
      × ((id : String) → get_job id t ≡ (if job.run_id == id then some k else get_job id s))
unfolding get_job
process_job_settles job env s here runs final h =
    settled job s here runs (process_job job env s) (process_job-Ends job s here runs env final)
      (process_job-Returns job s here runs env h)
