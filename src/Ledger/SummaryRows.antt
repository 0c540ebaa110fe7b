-- ===== src/Ledger/SummaryRows.antt =====
-- token_bench/ledger.py: the rows of the summary and of the activity log (`_collect_jobs`).
use claude_code_token_saving.Base.{
  ℕ, zero, suc, ◌+◌, String, Bool, not, ◌&&◌, ◌||◌, Option, none, some, List, [], ◌∷◌, ◌++◌, map,
  length, Dict, lookup_or, string_eq, if◌then◌else◌,
}
use claude_code_token_saving.Base.Int.{ℤ}
use claude_code_token_saving.JobStore.{JobRecord, is_succeeded}
use claude_code_token_saving.ActivityLog.{
  Counts, Message, Turn, Shares, int_of, extract_turns, with_context_tax, reconcile, is_measurable,
  is_nil,
}
use claude_code_token_saving.ActivityLog
use claude_code_token_saving.Conditions.Json.{Json}
use claude_code_token_saving.Results.{RunResult, get}
use claude_code_token_saving.Ledger.Published.{
  Pair, Cells, Keys, pair_of, status_text, is_publishable, or_empty, read_keys, read_pairs,
  has_pair, key_for,
}
use claude_code_token_saving.Ledger.Gaps.{is_time, washout_gaps}
use claude_code_token_saving.Ledger.SummaryCells.{
  prefix, prompt_id, aux_model_tokens, sum_of, shares_of, first_cache_read, quality_of, critical_of,
  is_truthy,
}
use claude_code_token_saving.Ledger.Validity.{invalid_reason}

-- A row of the summary. An empty cell is `none`.
pub record SummaryRow : Type 0 where
  pub run_date : String
  pub run_id : String
  pub condition : String
  pub prompt_id : String
  pub cost_usd : Json
  pub quality_score : Option ℕ
  pub critical_pass : String
  pub turns : ℕ
  pub measurable : Bool
  pub invalid_reason : String
  pub reconcile_observed : ℤ
  pub reconcile_opening : ℤ
  pub reconcile_output : ℤ
  pub reconcile_tool_result : ℤ
  pub reconcile_discarded : ℤ
  pub model : String
  pub duration_seconds : String
  pub terminal_reason : String
  pub changed_files : ℕ
  pub tool_calls : ℕ
  pub first_turn_cache_read_tokens : Option ℕ
  pub washout_gap_seconds : String
  pub aux_model_tokens : ℕ
  pub processed_tokens : ℕ
  pub context_tax_tokens : ℤ

-- A row of `activity_rows`: the columns of the turn stand as the turn.
pub record ActivityRow : Type 0 where
  pub run_date : String
  pub run_id : String
  pub condition : String
  pub turn : Turn

abbrev pub activity_rows : (run_date run_id condition : String) → List Turn → List ActivityRow
activity_rows run_date run_id condition turns =
    map (λ t. record { run_date = run_date; run_id = run_id; condition = condition; turn = t })
      turns

-- What the code reads elsewhere: results, logs and snapshots, the labels of the conditions, the gap of
-- two times in seconds, a duration rounded to tenths, and `str` of a value.
pub record Sources : Type 0 where
  pub str : Json → String
  pub load_result : JobRecord → Option RunResult
  pub messages : JobRecord → List Message
  pub model_usage : JobRecord → Dict Counts
  pub snapshot : JobRecord → Option (Dict String)
  pub condition_label : String → String
  pub seconds_between : String → String → String
  pub tenths : ℕ → String

abbrev pub start_or_enqueued : JobRecord → String
start_or_enqueued job = if is_time job.started_at then or_empty job.started_at else job.enqueued_at

abbrev pub model_or_reported : Sources → RunResult → List Turn → String
model_or_reported src result [] =
    let model = get "value" result.model in if is_truthy model then src.str model else ""
model_or_reported src result (t ∷ turns) = t.model

abbrev pub duration_of : Sources → Option ℕ → String
duration_of src none = ""
duration_of src (some zero) = ""
duration_of src (some (suc n)) = src.tenths (suc n)

abbrev pub turns_of : Sources → JobRecord → List Turn
turns_of src job = with_context_tax (extract_turns (src.messages job))

abbrev pub summary_row : Sources → Dict String → JobRecord → RunResult → (key : String) → SummaryRow
summary_row src gaps job result key =
    let turns = turns_of src job in
    let shares = shares_of turns in
    let measurable = is_succeeded job.status && is_measurable turns in
    let model = model_or_reported src result turns in
    record {
      run_date = prefix 10 (start_or_enqueued job);
      run_id = key;
      condition = src.condition_label job.condition_id;
      prompt_id = prompt_id (src.snapshot job);
      cost_usd = get "value" result.cost_usd;
      quality_score = quality_of result.evaluation;
      critical_pass = critical_of result.evaluation;
      turns = length turns;
      measurable = measurable;
      invalid_reason = if measurable then "" else invalid_reason job.status turns;
      reconcile_observed = shares.observed;
      reconcile_opening = shares.opening;
      reconcile_output = shares.output;
      reconcile_tool_result = shares.tool_result;
      reconcile_discarded = shares.discarded;
      model = model;
      duration_seconds = duration_of src job.duration_seconds;
      terminal_reason = status_text job.status;
      changed_files = 0;
      tool_calls = sum_of (map (λ (t : Turn). length t.tools) turns);
      first_turn_cache_read_tokens = first_cache_read turns;
      washout_gap_seconds = lookup_or job.run_id "" gaps;
      aux_model_tokens = aux_model_tokens (src.model_usage job) model;
      processed_tokens = sum_of (map (λ (t : Turn). t.context_tokens + t.output_tokens) turns);
      context_tax_tokens = ActivityLog.sum (map (λ (t : Turn). t.context_tax_tokens) turns);
    }

abbrev pub summary_cells : SummaryRow → Cells
summary_cells row = (some row.run_id, some row.terminal_reason)

pub record Collected : Type 0 where
  pub summary : SummaryRow
  pub activity : List ActivityRow

abbrev pub collected :
    Sources → Dict String → Keys → List String → JobRecord → Option RunResult → Option Collected
collected src gaps run_ids published job none = none
collected src gaps run_ids published job (some result) =
    let key = key_for run_ids (pair_of job) job.run_id published in
    let row = summary_row src gaps job result key in
    some (record {
      summary = row;
      activity = activity_rows row.run_date key row.condition (turns_of src job);
    })

abbrev pub new_collected :
    Sources → Dict String → Keys → List Pair → List String → JobRecord → Option Collected
new_collected src gaps run_ids pairs published job =
    if has_pair pairs (pair_of job) || not (is_publishable job.status)
    then none
    else collected src gaps run_ids published job (src.load_result job)

abbrev pub collected_key : Option Collected → List String → List String
collected_key none published = published
collected_key (some c) published = c.summary.run_id ∷ published

abbrev pub collected_then : Option Collected → List Collected → List Collected
collected_then none rows = rows
collected_then (some c) rows = c ∷ rows

unfoldable pub new_summary :
    Sources → Dict String → Keys → List Pair → List String → List JobRecord → List Collected
new_summary src gaps run_ids pairs published [] = []
new_summary src gaps run_ids pairs published (job ∷ jobs) =
    let added = new_collected src gaps run_ids pairs published job in
    collected_then added (new_summary src gaps run_ids pairs (collected_key added published) jobs)

abbrev pub activity_of : List Collected → List ActivityRow
activity_of [] = []
activity_of (c ∷ cs) = c.activity ++ activity_of cs

-- `_collect_jobs`: the two tables with their new rows, and the numbers of new runs and turns
unfoldable pub collect_jobs :
    Sources
    → Keys
    → List JobRecord
    → List SummaryRow × List ActivityRow
    → (List SummaryRow × List ActivityRow) × ℕ × ℕ
unfolding new_summary washout_gaps
collect_jobs src run_ids jobs (summary, activity) =
    let cells = map summary_cells summary in
    let new =
      new_summary src (washout_gaps src.seconds_between jobs) run_ids (read_pairs cells)
        (read_keys cells) jobs in
    (
      (summary ++ map (λ (c : Collected). c.summary) new, activity ++ activity_of new),
      length new,
      length (activity_of new),
    )
