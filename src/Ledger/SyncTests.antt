-- ===== src/Ledger/SyncTests.antt =====
-- A synchronisation of token_bench/ledger.py for a job whose row in the results is there already.
use claude_code_token_saving.Base.{
  ℕ, String, ◌≡◌, refl, sym, ap, Option, none, some, List, [], ◌∷◌, Result, ok, err, map,
}
use claude_code_token_saving.Conditions.Json.{Json, null, text}
use claude_code_token_saving.JobStore.{JobRecord, succeeded}
use claude_code_token_saving.JobStore.Samples.{running_job}
use claude_code_token_saving.Results.{RunResult}
use claude_code_token_saving.Results.Tests.{result}
use claude_code_token_saving.ActivityLog.{
  extract_turns, with_context_tax, is_measurable, context, output, result_of, growth, discarded_of,
}
use claude_code_token_saving.Base.Int.{◌+ℤ◌, ◌*ℤ◌, ◌-ℤ◌}
use claude_code_token_saving.ActivityLog.Tests.{messages}
use claude_code_token_saving.Ledger.Attempts.{base_run_id}
use claude_code_token_saving.Ledger.Published.{Cells, Keys, attempt_keys, read_rows, add_jobs}
use claude_code_token_saving.Ledger.ResultRows.{publish_jobs, new_rows, row_for}
use claude_code_token_saving.Ledger.SummaryRows.{SummaryRow, Sources, collect_jobs, new_summary}
use claude_code_token_saving.Ledger.ComparisonRows.{prompts_from, rebuild_comparison}
use claude_code_token_saving.Ledger.Gaps.{washout_gaps}
use claude_code_token_saving.Ledger.Sync.{
  Tables, Synced, SyncError, Counted, end_collect, with_results, sync_published,
}
use claude_code_token_saving.Ledger.ComparisonTests.{numbers}
use claude_code_token_saving.Ledger.Keys.{Keyed, attempt_keys-Keyed}
use claude_code_token_saving.Ledger.Rest.{Proper}
use claude_code_token_saving.Ledger.Settled.{unchanged, sync_published-again}

abbrev str : Json → String
str (text s) = s
str _ = "1"

abbrev sources : Sources
sources = record {
  str = str;
  load_result = λ job. some result;
  messages = λ job. messages;
  model_usage = λ job. [];
  snapshot = λ job. none;
  condition_label = λ id. "BASE";
  seconds_between = λ a b. "90";
  tenths = λ n. "180.5";
}

abbrev done_job : JobRecord
done_job = record running_job { status = succeeded; finished_at = some "09:05" }

abbrev jobs : List JobRecord
jobs = done_job ∷ []

-- The key of the row is that of a second attempt.
abbrev half_published : Tables ℕ
half_published = record {
  results = (("run_id", "batch-1-base-1#2") ∷ ("status", "succeeded") ∷ []) ∷ [];
  summary = [];
  activity = [];
  comparison = [];
}

abbrev keys : Keys
keys = (("batch-1-base-1", "succeeded"), "batch-1-base-1#2") ∷ []

abbrev published : List Cells
published = (some "batch-1-base-1#2", some "succeeded") ∷ []

found_keys : attempt_keys jobs published [] ≡ ok keys
unfolding attempt_keys read_rows add_jobs base_run_id
found_keys = refl

abbrev counted : Result SyncError (Counted ℕ) → Counted ℕ
counted (err e) = (half_published, 0, 0)
counted (ok c) = c

abbrev after : Synced ℕ
after =
    with_results numbers sources
      (counted
        (end_collect numbers sources half_published (collect_jobs sources keys jobs ([], []))))
      (publish_jobs sources.str sources.load_result keys jobs half_published.results)

first_sync : sync_published numbers sources jobs half_published ≡ ok after
unfolding sync_published attempt_keys collect_jobs new_summary washout_gaps rebuild_comparison
    prompts_from read_rows add_jobs base_run_id is_measurable with_context_tax extract_turns ◌+ℤ◌
    ◌*ℤ◌ context output result_of growth ◌-ℤ◌ discarded_of
first_sync = refl

-- The summary takes the key of the results.
new_keys : map (λ (row : SummaryRow). row.run_id) after.tables.summary ≡ "batch-1-base-1#2" ∷ []
unfolding collect_jobs new_summary washout_gaps rebuild_comparison prompts_from base_run_id
    is_measurable with_context_tax extract_turns ◌+ℤ◌ ◌*ℤ◌ context output result_of growth ◌-ℤ◌
    discarded_of
new_keys = refl

no_new_results : after.published_rows ≡ []
unfolding publish_jobs new_rows row_for collect_jobs new_summary washout_gaps rebuild_comparison
    prompts_from base_run_id is_measurable with_context_tax extract_turns ◌+ℤ◌ ◌*ℤ◌ context output
    result_of growth ◌-ℤ◌ discarded_of
no_new_results = refl

abbrev status_of : Option RunResult → Json
status_of none = null
status_of (some r) = r.status

jobs-Proper : Proper sources jobs
unfolding base_run_id
jobs-Proper = ((refl, tt), (refl, tt), ((λ r e. sym (ap status_of e)), tt))

sync_published-again_example :
    sync_published numbers sources jobs after.tables
    ≡ ok (unchanged numbers sources jobs after.tables)
sync_published-again_example =
    sync_published-again numbers sources jobs (λ s. refl) jobs-Proper half_published after
      first_sync

attempt_keys-Keyed_example : Keyed jobs published [] (attempt_keys jobs published [])
attempt_keys-Keyed_example = attempt_keys-Keyed jobs published [] jobs-Proper.0
