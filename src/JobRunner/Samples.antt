-- ===== src/JobRunner/Samples.antt =====
-- The answers that the calls of a job give: for a run that succeeds, and for one that is cut short.
use claude_code_token_saving.Base.{none, some, [], true}
use claude_code_token_saving.Base.Int.{pos}
use claude_code_token_saving.JobStore.{Status}
use claude_code_token_saving.JobRunner.{ProcessOutcome, LogReport, answered, Environment}
use claude_code_token_saving.JobRunner.Settles.{IsHandled}

abbrev pub outcome_of : Status → ProcessOutcome
outcome_of status = record {
  status = status;
  returncode = some (pos 0);
  started_at = "09:02";
  finished_at = "09:07";
  duration_seconds = 300;
  stdout_path = "/runs/batch-1-base-1/stdout.jsonl";
  stderr_path = "/runs/batch-1-base-1/stderr.log";
  command_json = "[\"claude\"]";
}

abbrev pub whole_log : LogReport
whole_log = record { interrupted_reason = none; has_output = true }

abbrev pub cut_log : LogReport
cut_log = record { interrupted_reason = some "API Error: overloaded"; has_output = true }

abbrev pub answers : Status → LogReport → Environment
answers status log = record {
  snapshot = answered tt;
  preflight = answered (record { ok = true; tool_fingerprints = [] });
  prompt = answered tt;
  run_once = answered (outcome_of status, log);
  result = answered tt;
  sync_published = answered tt;
  now = "09:07";
}

pub answers-IsHandled : (status : Status) (log : LogReport) → IsHandled (answers status log)
answers-IsHandled status log = record {
  snapshot = tt;
  preflight = tt;
  prompt = tt;
  run_once = tt;
  result = tt;
  sync_published = tt;
}
