-- ===== src/JobRunner.antt =====
-- token_bench/job_runner.py: one claimed job, from the check of its snapshot to its row.
pub mod Endings
pub mod Settles
pub mod Reports
pub mod Samples
pub mod Tests
use claude_code_token_saving.Base.{
  ℕ, String, Bool, true, false, not, ◌&&◌, Option, none, some, List, [], ◌∷◌, Result, ok, err, ◌==◌,
  list_eq, string_eq, if◌then◌else◌,
}
use claude_code_token_saving.Base.Int.{ℤ}
use claude_code_token_saving.Authorization.{Fingerprint, fingerprint_eq}
use claude_code_token_saving.Transcript.{is_usage_limit_error}
use claude_code_token_saving.JobStore.{
  Status, failed, blocked, succeeded, config_error, worker_error, is_failed, is_succeeded,
  JobRecord, Ending, Store, StoreError, finish_job, requeue_job,
}

-- `ProcessOutcome` (token_bench/worker.py)
pub record ProcessOutcome : Type 0 where
  pub status : Status
  pub returncode : Option ℤ
  pub started_at : String
  pub finished_at : String
  pub duration_seconds : ℕ
  pub stdout_path : String
  pub stderr_path : String
  -- `json.dumps(list(outcome.command))`
  pub command_json : String

-- What `process_job` reads of the `Transcript` of the run.
pub record LogReport : Type 0 where
  pub interrupted_reason : Option String
  pub has_output : Bool

pub record PreflightReport : Type 0 where
  pub ok : Bool
  pub tool_fingerprints : List Fingerprint

-- How a call ends: with a value, with the exception that `process_job` handles there, or with any
-- other exception.
pub data Reply (A : Type 0) : Type 0 where
  answered : A → Reply A
  refused escaped : Reply A

-- The answers that the calls give for one job. `refused` is WorkspaceError for the snapshot and
-- WorkerError for the run; the other calls have no handler.
pub record Environment : Type 0 where
  pub snapshot : Reply (Unit {0})
  pub preflight : Reply PreflightReport
  pub prompt : Reply (Unit {0})
  pub run_once : Reply (ProcessOutcome × LogReport)
  -- `check_evaluation`, `collect_result` and `save_result`
  pub result : Reply (Unit {0})
  pub sync_published : Reply (Unit {0})
  pub now : String

-- An exception that leaves `process_job`.
pub data Raised : Type 0 where
  store_error : StoreError → Raised
  other_exception : Raised

-- The returned text: a status, or 'rate-limited'.
pub data JobEnd : Type 0 where
  ended : Status → JobEnd
  rate_limited : JobEnd

abbrev pub Outcome : Type 0
Outcome = Result Raised JobEnd × Store

-- The end of a block that calls the job store: its exceptions pass, its record is dropped.
abbrev pub then_end : {A : Type 0} → Result StoreError A × Store → (Store → Outcome) → Outcome
then_end (ok a, s) rest = rest s
then_end (err e, s) rest = (err (store_error e), s)

unfoldable pub end_without_run : JobRecord → Status → String → Store → Outcome
end_without_run job status now s =
    then_end
      (finish_job job.run_id
        (record {
          status = status;
          returncode = none;
          finished_at = now;
          duration_seconds = 0;
          stdout_path = "";
          stderr_path = "";
          command_json = "[]";
        })
        s)
      (λ t. (ok (ended status), t))

-- `if reason` of an optional text
abbrev pub is_set : Option String → Bool
is_set none = false
is_set (some String.[]) = false
is_set (some (String.◌∷◌ c s)) = true

-- a failed run that the log shows to be cut short by the subscription's limit
unfoldable pub is_limited : ProcessOutcome → LogReport → Bool
is_limited outcome log =
    is_failed outcome.status
    && is_set log.interrupted_reason
    && is_usage_limit_error log.interrupted_reason

-- The status that the row gets.
unfoldable pub row_status : ProcessOutcome → LogReport → Status
row_status outcome log =
    if is_failed outcome.status && is_set log.interrupted_reason
    then blocked
    else if is_failed outcome.status && not log.has_output
    then blocked
    else outcome.status

abbrev pub run_ending : ProcessOutcome → LogReport → Ending
run_ending outcome log = record {
  status = row_status outcome log;
  returncode = outcome.returncode;
  finished_at = outcome.finished_at;
  duration_seconds = outcome.duration_seconds;
  stdout_path = outcome.stdout_path;
  stderr_path = outcome.stderr_path;
  command_json = outcome.command_json;
}

abbrev pub reply_end : {A : Type 0} → Reply A → Store → (A → Outcome) → Outcome → Outcome
reply_end (answered a) s rest handler = rest a
reply_end refused s rest handler = handler
reply_end escaped s rest handler = (err other_exception, s)

-- From `check_evaluation` on; the result's status is that of the outcome.
unfoldable pub report : Environment → ProcessOutcome → Store → Outcome
report env outcome s =
    let raised : Outcome = (err other_exception, s) in
    let returned : Outcome = (ok (ended outcome.status), s) in
    reply_end env.result s
      (λ _.
        if is_succeeded outcome.status
        then reply_end env.sync_published s (λ _. returned) raised
        else returned)
      raised

unfoldable pub after_run : JobRecord → Environment → ProcessOutcome × LogReport → Store → Outcome
unfolding is_limited row_status report
after_run job env (outcome, log) s =
    if is_limited outcome log
    then then_end (requeue_job job.run_id s) (λ t. (ok rate_limited, t))
    else then_end (finish_job job.run_id (run_ending outcome log) s) (report env outcome)

unfoldable pub run_stage : JobRecord → Environment → Store → Outcome
unfolding end_without_run after_run
run_stage job env s =
    reply_end env.run_once s (λ answer. after_run job env answer s)
      (end_without_run job worker_error env.now s)

unfoldable pub preflight_stage : JobRecord → Environment → Store → PreflightReport → Outcome
unfolding run_stage
preflight_stage job env s preflight =
    let raised : Outcome = (err other_exception, s) in
    if not preflight.ok
    then end_without_run job blocked env.now s
    else if not (preflight.tool_fingerprints == job.tool_fingerprints)
    then end_without_run job blocked env.now s
    else reply_end env.prompt s (λ _. run_stage job env s) raised

unfoldable pub process_job : JobRecord → Environment → Store → Outcome
unfolding preflight_stage
process_job job env s =
    let raised : Outcome = (err other_exception, s) in
    reply_end env.snapshot s (λ _. reply_end env.preflight s (preflight_stage job env s) raised)
      (end_without_run job config_error env.now s)
