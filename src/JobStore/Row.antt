-- ===== src/JobStore/Row.antt =====
-- `JobRecord`. Every column is text, a number or NULL; a duration is in nanoseconds, the resolution
-- of the clock that measures it; `to_dict` and `_row_to_record` keep the columns as they are.
use claude_code_token_saving.Base.{ℕ, String, Bool, true, false, Option, List, string_eq}
use claude_code_token_saving.Base.Int.{ℤ}
use claude_code_token_saving.Authorization.{Fingerprint}

-- The texts that stand in the `status` column.
pub data Status : Type 0 where
  queued running succeeded failed timeout cancelled blocked config_error worker_error : Status

abbrev pub is_queued : Status → Bool
is_queued queued = true
is_queued _ = false

abbrev pub is_running : Status → Bool
is_running running = true
is_running _ = false

abbrev pub is_succeeded : Status → Bool
is_succeeded succeeded = true
is_succeeded _ = false

abbrev pub is_failed : Status → Bool
is_failed failed = true
is_failed _ = false

pub record JobRecord : Type 0 where
  pub sequence : ℕ
  pub run_id : String
  pub digest : String
  pub batch_id : String
  pub condition_id : String
  pub repeat_index : ℕ
  pub content_id : String
  pub workdir : String
  pub snapshot_path : String
  pub timeout_seconds : ℕ
  pub isolation : String
  pub status : Status
  pub enqueued_at : String
  pub tool_fingerprints : List Fingerprint
  pub model : String
  pub started_at : Option String
  pub finished_at : Option String
  pub duration_seconds : Option ℕ
  pub returncode : Option ℤ
  pub stdout_path : Option String
  pub stderr_path : Option String
  pub command_json : Option String

-- The arguments of `finish_job`.
pub record Ending : Type 0 where
  pub status : Status
  pub returncode : Option ℤ
  pub finished_at : String
  pub duration_seconds : ℕ
  pub stdout_path : String
  pub stderr_path : String
  pub command_json : String
