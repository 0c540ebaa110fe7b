-- ===== src/Ledger/Gaps.antt =====
-- token_bench/ledger.py: the pauses before the jobs of a batch (`_washout_gaps`).
use claude_code_token_saving.Base.{
  String, Bool, false, not, ◌&&◌, Option, none, some, List, [], ◌∷◌, ◌++◌, Dict, insert, ◌==◌,
  string_eq, if◌then◌else◌,
}
use claude_code_token_saving.JobStore.{JobRecord}
use claude_code_token_saving.Conditions.Json.{is_empty}
use claude_code_token_saving.Evaluation.{is_le}
use claude_code_token_saving.Ledger.Published.{or_empty}

abbrev pub is_time : Option String → Bool
is_time none = false
is_time (some s) = not (is_empty s)

-- `by_batch`
abbrev pub in_batch : JobRecord → Dict (List JobRecord) → Dict (List JobRecord)
in_batch job [] = (job.batch_id, job ∷ []) ∷ []
in_batch job ((batch, jobs) ∷ batches) =
    if batch == job.batch_id
    then (batch, jobs ++ job ∷ []) ∷ batches
    else (batch, jobs) ∷ in_batch job batches

abbrev pub batches_from : Dict (List JobRecord) → List JobRecord → Dict (List JobRecord)
batches_from batches [] = batches
batches_from batches (job ∷ jobs) =
    batches_from
      (if is_time job.started_at && is_time job.finished_at then in_batch job batches else batches)
      jobs

-- `sorted` by the start is stable.
abbrev pub by_start : JobRecord → List JobRecord → List JobRecord
by_start job [] = job ∷ []
by_start job (other ∷ jobs) =
    let rest = by_start job jobs in
    if is_le (or_empty job.started_at) (or_empty other.started_at)
    then job ∷ other ∷ jobs
    else other ∷ rest

abbrev pub in_order : List JobRecord → List JobRecord
in_order [] = []
in_order (job ∷ jobs) = by_start job (in_order jobs)

abbrev pub gaps_between :
    (String → String → String) → JobRecord → List JobRecord → Dict String → Dict String
gaps_between seconds_between previous [] gaps = gaps
gaps_between seconds_between previous (job ∷ jobs) gaps = gaps_between seconds_between job jobs (
    insert job.run_id (seconds_between (or_empty previous.finished_at) (or_empty job.started_at))
      gaps)

abbrev pub batch_gaps : (String → String → String) → List JobRecord → Dict String → Dict String
batch_gaps seconds_between [] gaps = gaps
batch_gaps seconds_between (job ∷ jobs) gaps =
    gaps_between seconds_between job jobs (insert job.run_id "" gaps)

abbrev pub gaps_from :
    (String → String → String) → Dict (List JobRecord) → Dict String → Dict String
gaps_from seconds_between [] gaps = gaps
gaps_from seconds_between ((batch, jobs) ∷ batches) gaps =
    gaps_from seconds_between batches (batch_gaps seconds_between (in_order jobs) gaps)

-- `_washout_gaps`
unfoldable pub washout_gaps : (String → String → String) → List JobRecord → Dict String
washout_gaps seconds_between jobs = gaps_from seconds_between (batches_from [] jobs) []
