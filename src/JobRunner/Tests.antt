-- ===== src/JobRunner/Tests.antt =====
-- Runs of token_bench/job_runner.py, and of `is_usage_limit_error` on the messages that
-- token_bench/transcript.py cites.
use claude_code_token_saving.Base.{
  String, ◌≡◌, refl, true, false, some, ok, ◌==◌, string_eq, if◌then◌else◌,
}
use claude_code_token_saving.JobStore.{succeeded, failed, blocked, JobRecord, get_job, running_row}
use claude_code_token_saving.JobStore.Samples.{running_job, running_store}
use claude_code_token_saving.JobRunner.{JobEnd, ended, is_limited, process_job}
use claude_code_token_saving.JobRunner.Settles.{process_job_settles}
use claude_code_token_saving.JobRunner.Reports.{process_job_misreports}
use claude_code_token_saving.JobRunner.Samples.{
  outcome_of, whole_log, cut_log, answers, answers-IsHandled,
}
use claude_code_token_saving.Transcript.{is_usage_limit_error}

session_limit : is_usage_limit_error (some "You've hit your session limit - resets 2:50am") ≡ true
unfolding is_usage_limit_error
session_limit = refl

opus_limit : is_usage_limit_error (some "You've HIT your Opus-4 daily limit") ≡ true
unfolding is_usage_limit_error
opus_limit = refl

no_limit : is_usage_limit_error (some "hit your very own personal limit") ≡ false
unfolding is_usage_limit_error
no_limit = refl

running_found : get_job running_job.run_id running_store ≡ some running_job
unfolding get_job
running_found = refl

process_job_settles_example :
    let (r, t) = process_job running_job (answers succeeded whole_log) running_store in
    (e : JobEnd) × (k : JobRecord) × (r ≡ ok e)
    × (get_job running_job.run_id t ≡ some k)
    × (running_row k ≡ false)
    × ((id : String)
        → get_job id t ≡ (if running_job.run_id == id then some k else get_job id running_store))
process_job_settles_example =
    process_job_settles running_job (answers succeeded whole_log) running_store running_found refl
      (refl, refl) (answers-IsHandled succeeded whole_log)

overloaded : is_limited (outcome_of failed) cut_log ≡ false
unfolding is_limited is_usage_limit_error
overloaded = refl

process_job_misreports_example :
    let (r, t) = process_job running_job (answers failed cut_log) running_store in
    (k : JobRecord) × (r ≡ ok (ended failed))
    × (get_job running_job.run_id t ≡ some k)
    × (k.status ≡ blocked)
process_job_misreports_example =
    process_job_misreports running_job (answers failed cut_log) running_store (outcome_of failed)
      cut_log running_found refl
      (record {
        snapshot = refl;
        preflight = refl;
        prompt = refl;
        run_once = refl;
        result = refl;
        sync_published = refl;
      })
      refl overloaded refl
