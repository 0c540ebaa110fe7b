-- ===== src/JobStore/Transitions.antt =====
-- The life of a job: how one transaction can change the row under a run id.
use claude_code_token_saving.Base.{
  String, ◌≡◌, Bool, true, false, not, ◌&&◌, Option, none, some, ◌⊎◌, find, string_eq,
}
use claude_code_token_saving.Authorization.{plan_eq}
use claude_code_token_saving.JobStore.Row.{
  Status, queued, running, is_queued, is_running, JobRecord,
}
use claude_code_token_saving.JobStore.Database.{Store, has_id, retryable}

-- What was approved for a run.
pub record SameInputs (j k : JobRecord) : Type 0 where
  pub sequence : k.sequence ≡ j.sequence
  pub run_id : k.run_id ≡ j.run_id
  pub digest : k.digest ≡ j.digest
  pub batch_id : k.batch_id ≡ j.batch_id
  pub condition_id : k.condition_id ≡ j.condition_id
  pub repeat_index : k.repeat_index ≡ j.repeat_index
  pub content_id : k.content_id ≡ j.content_id
  pub workdir : k.workdir ≡ j.workdir
  pub snapshot_path : k.snapshot_path ≡ j.snapshot_path
  pub timeout_seconds : k.timeout_seconds ≡ j.timeout_seconds
  pub isolation : k.isolation ≡ j.isolation
  pub model : k.model ≡ j.model
  pub tool_fingerprints : k.tool_fingerprints ≡ j.tool_fingerprints

-- The state machine: a waiting job can start, a running one can end or go back to the queue, and
-- one that ended without success can go back to the queue.
abbrev pub may_move : Status → Status → Bool
may_move queued st = is_running st
may_move running st = not (is_running st)
may_move st next = retryable st && is_queued next

-- A job that runs is not deleted.
abbrev pub Evolves : JobRecord → Option JobRecord → Type 0
Evolves j none = is_running j.status ≡ false
Evolves j (some k) = SameInputs j k × ((k ≡ j) ⊎ (may_move j.status k.status ≡ true))

module _ (id : String) (j : JobRecord) where
  abbrev Tracks : Store → Type 0
  Tracks t = Evolves j (find (has_id id) t.jobs)
