-- ===== src/QueueRunner/Requests.antt =====
-- The requests of the web server (token_bench/webapi.py) beside the worker of
-- token_bench/queue_runner.py.
use claude_code_token_saving.Base.{
  ◌+◌, String, ◌≡◌, refl, Bool, not, ◌&&◌, List, [], ◌∷◌, Result, any, keep, count, count-append,
  find, arith, nat_beq, ◌==◌, string_eq,
}
use claude_code_token_saving.Authorization.{EstimatePlan, PlannedRun, plan_eq}
use claude_code_token_saving.JobStore.{
  JobRecord, Store, StoreError, not_retryable, has_id, is_consumed, jobs_for_digest, new_job,
  insert_job, insert_runs, existing_or, enqueue_body, enqueue, running_row, deletable, delete_job,
  retryable, reset_job, retry_job, update_job,
}
use claude_code_token_saving.JobStore.Table.{update_where}
use claude_code_token_saving.JobStore.Valid.{IsValid, consume}
use claude_code_token_saving.JobStore.Steps.{
  settle_keeps, if_keeps, found_keeps, enqueue-IsValid, delete-IsValid, retry-IsValid,
}
use claude_code_token_saving.QueueRunner.{WebRequest, submit, delete, retry, serve, serve_all}

-- no job runs
abbrev pub IsIdle : Store → Type 0
IsIdle s = count running_row s.jobs ≡ 0

runs_inserted :
    (now : String) (plan : EstimatePlan) (runs : List PlannedRun) (s : Store)
    → IsIdle s
    → IsIdle (insert_runs now plan runs s).1
unfolding insert_runs
runs_inserted now plan [] s h = h
runs_inserted now plan (run ∷ runs) s h =
    let job = new_job now plan run (s.last_sequence + 1) in
    if_keeps IsIdle (any (has_id run.run_id) s.jobs) _ _ h (
      runs_inserted now plan runs (insert_job now plan run s)
        (omega (arith, count-append running_row s.jobs (job ∷ []), h)))

existing_keeps :
    (js : List JobRecord) (other : Store → Result StoreError (List JobRecord) × Store) (s : Store)
    → IsIdle s
    → IsIdle (other s).1
    → IsIdle (existing_or js other s).1
existing_keeps [] other s old new = new
existing_keeps (k ∷ js) other s old new = old

kept_idle :
    (test : JobRecord → Bool) (jobs : List JobRecord)
    → count running_row jobs ≡ 0
    → count running_row (keep test jobs) ≡ 0
kept_idle test [] h = refl
kept_idle test (j ∷ jobs) h = ground (arith, kept_idle test jobs)

reset_idle :
    (test : JobRecord → Bool) (jobs : List JobRecord)
    → count running_row jobs ≡ 0
    → count running_row (update_where test reset_job jobs) ≡ 0
reset_idle test [] h = refl
reset_idle test (j ∷ jobs) h = ground (arith, reset_idle test jobs)

serve-IsIdle : (now : String) (q : WebRequest) (s : Store) → IsIdle s → IsIdle (serve now q s)
unfolding serve enqueue enqueue_body delete_job retry_job
serve-IsIdle now (submit plan approval) s h =
    if_keeps IsIdle (not (approval.digest == plan.digest)) _ _ h (
      if_keeps IsIdle (not (approval.plan == plan)) _ _ h (
        settle_keeps IsIdle s _ h (
          existing_keeps (jobs_for_digest plan.digest s) _ s h (
            if_keeps IsIdle (is_consumed plan.digest s) _ _
              (existing_keeps (jobs_for_digest plan.digest s) _ s h h)
              (runs_inserted now plan plan.runs (consume plan.digest now s) h)))))
serve-IsIdle now (delete run_id) s h = settle_keeps IsIdle s _ h (
    if_keeps IsIdle (nat_beq (count (deletable run_id) s.jobs) 0) _ _ h
      (kept_idle (λ j. not (deletable run_id j)) s.jobs h))
serve-IsIdle now (retry run_id) s h =
    let test = λ (j : JobRecord). has_id run_id j && retryable j.status in
    let t = record s { jobs = update_where test reset_job s.jobs } in
    settle_keeps IsIdle s (update_job test reset_job not_retryable run_id s) h (
      if_keeps IsIdle (nat_beq (count test s.jobs) 0) _ _ h
        (found_keeps IsIdle (find (has_id run_id) t.jobs) t (reset_idle test s.jobs h)))

serve-IsValid : (now : String) (q : WebRequest) (s : Store) → IsValid s → IsValid (serve now q s)
unfolding serve
serve-IsValid now (submit plan approval) s v = enqueue-IsValid now plan approval s v
serve-IsValid now (delete run_id) s v = delete-IsValid run_id s v
serve-IsValid now (retry run_id) s v = retry-IsValid run_id s v

pub serve_all-keeps :
    (now : String) (qs : List WebRequest) (s : Store)
    → IsValid s
    → IsIdle s
    → IsValid (serve_all now qs s) × IsIdle (serve_all now qs s)
unfolding serve_all
serve_all-keeps now [] s v h = (v, h)
serve_all-keeps now (q ∷ qs) s v h =
    serve_all-keeps now qs (serve now q s) (serve-IsValid now q s v) (serve-IsIdle now q s h)
