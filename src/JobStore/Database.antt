-- ===== src/JobStore/Database.antt =====
-- The transactions of token_bench/job_store.py. A table is kept in the order of its integer primary
-- key, so SELECT ... ORDER BY sequence reads it from the front; AUTOINCREMENT never gives a number
-- twice. BEGIN IMMEDIATE makes each transaction one step.
use claude_code_token_saving.Base.{
  ℕ, ◌+◌, String, Bool, not, ◌&&◌, ◌||◌, Option, none, some, List, [], ◌∷◌, ◌++◌, Result, ok, err,
  any, keep, count, find, nat_beq, ◌==◌, string_eq, if◌then◌else◌,
}
use claude_code_token_saving.Authorization.{EstimatePlan, PlannedRun, ApprovalRecord, plan_eq}
use claude_code_token_saving.JobStore.Table.{update_where}
use claude_code_token_saving.JobStore.Row.{
  Status, queued, running, is_queued, is_running, is_succeeded, JobRecord, Ending,
}

pub record Store : Type 0 where
  pub jobs : List JobRecord
  pub consumed_approvals : List (String × String)
  pub last_sequence : ℕ

abbrev pub empty_store : Store
empty_store = record { jobs = []; consumed_approvals = []; last_sequence = 0 }

-- `JobStoreError` by the test that raises it, `sqlite3.IntegrityError`, and the `TypeError` of a row
-- that is not there.
pub data StoreError : Type 0 where
  digest_mismatch plan_mismatch consumed_without_jobs : StoreError
  not_running not_deletable not_retryable : StoreError
  integrity_error type_error : StoreError

abbrev pub Action : Type 0 → Type 0
Action A = Store → Result StoreError A × Store

-- `_transaction`: commit on return, rollback on an exception.
abbrev pub settle : {A : Type 0} → Store → Result StoreError A × Store → Result StoreError A × Store
settle s (ok a, t) = (ok a, t)
settle s (err e, t) = (err e, s)

abbrev pub transaction : {A : Type 0} → Action A → Action A
transaction body s = settle s (body s)

abbrev pub has_id : String → JobRecord → Bool
has_id run_id j = j.run_id == run_id

abbrev pub has_digest : String → JobRecord → Bool
has_digest digest j = j.digest == digest

abbrev pub is_consumed : String → Store → Bool
is_consumed digest s = any (λ row. row.0 == digest) s.consumed_approvals

abbrev pub jobs_for_digest : String → Store → List JobRecord
jobs_for_digest digest s = keep (has_digest digest) s.jobs

-- `_fetch`: `_row_to_record(None)` is a TypeError.
abbrev pub found : Option JobRecord → Action JobRecord
found none s = (err type_error, s)
found (some j) s = (ok j, s)

abbrev pub fetch : String → Action JobRecord
fetch run_id s = found (find (has_id run_id) s.jobs) s

-- `cursor.rowcount == 0` raises; else the row is read back.
abbrev pub update_job :
    (JobRecord → Bool) → (JobRecord → JobRecord) → StoreError → String → Action JobRecord
update_job test f e run_id s =
    if nat_beq (count test s.jobs) 0
    then (err e, s)
    else fetch run_id (record s { jobs = update_where test f s.jobs })

-- The row that INSERT writes: the columns that it does not name have their defaults.
abbrev pub new_job : String → EstimatePlan → PlannedRun → ℕ → JobRecord
new_job now plan run sequence = record {
  sequence = sequence;
  run_id = run.run_id;
  digest = plan.digest;
  batch_id = plan.batch_id;
  condition_id = run.condition_id;
  repeat_index = run.repeat_index;
  content_id = run.content_id;
  workdir = run.workdir;
  snapshot_path = run.snapshot_path;
  timeout_seconds = plan.timeout_seconds;
  isolation = plan.isolation;
  status = queued;
  enqueued_at = now;
  tool_fingerprints = run.tool_fingerprints;
  model = plan.model;
  started_at = none;
  finished_at = none;
  duration_seconds = none;
  returncode = none;
  stdout_path = none;
  stderr_path = none;
  command_json = none;
}

abbrev pub insert_job : String → EstimatePlan → PlannedRun → Store → Store
insert_job now plan run s = record s {
  jobs = s.jobs ++ new_job now plan run (s.last_sequence + 1) ∷ [];
  last_sequence = s.last_sequence + 1;
}

-- The `for run in plan.runs` of `enqueue`; `run_id` is UNIQUE.
unfoldable pub insert_runs : String → EstimatePlan → List PlannedRun → Action (List JobRecord)
insert_runs now plan [] s = (ok (jobs_for_digest plan.digest s), s)
insert_runs now plan (run ∷ runs) s =
    if any (has_id run.run_id) s.jobs
    then (err integrity_error, s)
    else insert_runs now plan runs (insert_job now plan run s)

abbrev pub existing_or : List JobRecord → Action (List JobRecord) → Action (List JobRecord)
existing_or [] other s = other s
existing_or (j ∷ js) other s = (ok (j ∷ js), s)

unfoldable pub enqueue_body : String → EstimatePlan → Action (List JobRecord)
unfolding insert_runs
enqueue_body now plan s =
    existing_or (jobs_for_digest plan.digest s)
      (λ t.
        if is_consumed plan.digest t
        then existing_or (jobs_for_digest plan.digest t) (λ u. (err consumed_without_jobs, u)) t
        else insert_runs now plan plan.runs
            (record t { consumed_approvals = t.consumed_approvals ++ (plan.digest, now) ∷ [] }))
      s

unfoldable pub enqueue : String → EstimatePlan → ApprovalRecord → Action (List JobRecord)
unfolding enqueue_body
enqueue now plan approval s =
    if not (approval.digest == plan.digest)
    then (err digest_mismatch, s)
    else if not (approval.plan == plan)
    then (err plan_mismatch, s)
    else transaction (enqueue_body now plan) s

unfoldable pub list_jobs : Store → List JobRecord
list_jobs s = s.jobs

unfoldable pub get_job : String → Store → Option JobRecord
get_job run_id s = find (has_id run_id) s.jobs

abbrev pub queued_row : JobRecord → Bool
queued_row j = is_queued j.status

abbrev pub running_row : JobRecord → Bool
running_row j = is_running j.status

abbrev pub start_job : String → JobRecord → JobRecord
start_job now j = record j { status = running; started_at = some now }

abbrev pub claimed : Result StoreError JobRecord → Result StoreError (Option JobRecord)
claimed (ok j) = ok (some j)
claimed (err e) = err e

-- The row that was found is updated if it still waits, and read back.
abbrev pub claim_row : String → Option JobRecord → Action (Option JobRecord)
claim_row now none s = (ok none, s)
claim_row now (some row) s =
    let test = λ (j : JobRecord). has_id row.run_id j && queued_row j in
    let (r, t) = fetch row.run_id (record s { jobs = update_where test (start_job now) s.jobs }) in
    if nat_beq (count test s.jobs) 0 then (ok none, s) else (claimed r, t)

unfoldable pub claim_next_queued : String → Action (Option JobRecord)
claim_next_queued now = transaction (λ s. claim_row now (find queued_row s.jobs) s)

abbrev pub end_job : Ending → JobRecord → JobRecord
end_job e j = record j {
  status = e.status;
  returncode = e.returncode;
  finished_at = some e.finished_at;
  duration_seconds = some e.duration_seconds;
  stdout_path = some e.stdout_path;
  stderr_path = some e.stderr_path;
  command_json = some e.command_json;
}

unfoldable pub finish_job : String → Ending → Action JobRecord
finish_job run_id e =
    transaction (update_job (λ j. has_id run_id j && running_row j) (end_job e) not_running run_id)

abbrev pub deletable : String → JobRecord → Bool
deletable run_id j = has_id run_id j && not (running_row j)

unfoldable pub delete_job : String → Action (Unit {0})
delete_job run_id = transaction λ s.
    if nat_beq (count (deletable run_id) s.jobs) 0
    then (err not_deletable, s)
    else (ok tt, record s { jobs = keep (λ j. not (deletable run_id j)) s.jobs })

abbrev pub retryable : Status → Bool
retryable st = not (is_queued st || is_running st || is_succeeded st)

abbrev pub reset_job : JobRecord → JobRecord
reset_job j = record j {
  status = queued;
  started_at = none;
  finished_at = none;
  returncode = none;
  duration_seconds = none;
  stdout_path = none;
  stderr_path = none;
  command_json = none;
}

unfoldable pub retry_job : String → Action JobRecord
retry_job run_id =
    transaction
      (update_job (λ j. has_id run_id j && retryable j.status) reset_job not_retryable run_id)

abbrev pub requeue_row : JobRecord → JobRecord
requeue_row j = record j { status = queued; started_at = none }

unfoldable pub requeue_job : String → Action JobRecord
requeue_job run_id =
    transaction (update_job (λ j. has_id run_id j && running_row j) requeue_row not_running run_id)

-- The rows are read before the update, so the records that come back are still 'running'.
abbrev pub requeue_rows : List JobRecord → Store → Store
requeue_rows [] s = s
requeue_rows (j ∷ js) s = record s { jobs = update_where running_row requeue_row s.jobs }

unfoldable pub requeue_orphaned_running : Action (List JobRecord)
requeue_orphaned_running =
    transaction λ s. let rows = keep running_row s.jobs in (ok rows, requeue_rows rows s)
