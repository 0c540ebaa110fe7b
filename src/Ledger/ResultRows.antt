-- ===== src/Ledger/ResultRows.antt =====
-- token_bench/ledger.py: the rows of the results (`_row_for`, `_publish_jobs`).
use claude_code_token_saving.Base.{
  String, not, Option, none, some, List, [], ◌∷◌, ◌++◌, map, Dict, lookup, lookup_or, insert,
  if◌then◌else◌, string_eq,
}
use claude_code_token_saving.JobStore.{JobRecord}
use claude_code_token_saving.Conditions.Json.{Json, null, text}
use claude_code_token_saving.Results.{RunResult, get}
use claude_code_token_saving.Ledger.Published.{
  Pair, Cells, Keys, pair_of, is_publishable, read_keys, read_pairs, has_pair, key_for,
}

abbrev pub csv_columns : List String
csv_columns =
    "run_id" ∷ "batch_id" ∷ "condition_id" ∷ "repeat_index" ∷ "content_id" ∷ "auth_method"
    ∷ "api_provider" ∷ "claude_version" ∷ "model" ∷ "status" ∷ "evaluation_ran"
    ∷ "evaluation_passed" ∷ "num_turns" ∷ "cost_usd" ∷ "input_tokens" ∷ "output_tokens"
    ∷ "cache_creation_input_tokens" ∷ "cache_read_input_tokens" ∷ "started_at" ∷ "finished_at"
    ∷ "duration_seconds" ∷ []

abbrev pub row_of : JobRecord → RunResult → Dict Json
row_of job result =
    ("run_id", result.run_id)
    ∷ ("batch_id", text job.batch_id)
    ∷ ("condition_id", result.condition_id)
    ∷ ("repeat_index", result.repeat_index)
    ∷ ("content_id", result.content_id)
    ∷ ("auth_method", get "value" result.auth_method)
    ∷ ("api_provider", get "value" result.api_provider)
    ∷ ("claude_version", get "value" result.claude_version)
    ∷ ("model", get "value" result.model)
    ∷ ("status", result.status)
    ∷ ("evaluation_ran", get "ran" result.evaluation)
    ∷ ("evaluation_passed", get "passed" result.evaluation)
    ∷ ("num_turns", get "value" result.num_turns)
    ∷ ("cost_usd", get "value" result.cost_usd)
    ∷ ("input_tokens", get "value" (get "input_tokens" result.usage))
    ∷ ("output_tokens", get "value" (get "output_tokens" result.usage))
    ∷ ("cache_creation_input_tokens", get "value" (get "cache_creation_input_tokens" result.usage))
    ∷ ("cache_read_input_tokens", get "value" (get "cache_read_input_tokens" result.usage))
    ∷ ("started_at", result.started_at)
    ∷ ("finished_at", result.finished_at)
    ∷ ("duration_seconds", result.duration_seconds)
    ∷ []

-- `str` of a value, and the result that `load` reads for a job, if it raises no ResultsError.
module _ (str : Json → String) (load_result : JobRecord → Option RunResult) where
  abbrev pub cell : Json → String
  cell null = ""
  cell x = str x

  abbrev pub map_row : JobRecord → Option RunResult → Option (Dict Json)
  map_row job none = none
  map_row job (some result) = some (row_of job result)

  unfoldable pub row_for : JobRecord → Option (Dict Json)
  row_for job = if not (is_publishable job.status) then none else map_row job (load_result job)

  -- `writer.writerow`
  abbrev pub written : Dict Json → Dict String
  written row = map (λ col. (col, cell (lookup_or col null row))) csv_columns

  abbrev pub cells_of : Dict String → Cells
  cells_of row = (lookup "run_id" row, lookup "status" row)

  -- The new row of a job with its key, if it has one.
  abbrev pub keyed :
      Keys → List String → JobRecord → Option (Dict Json) → Option (String × Dict Json)
  keyed run_ids published job none = none
  keyed run_ids published job (some row) =
      let key = key_for run_ids (pair_of job) (str (lookup_or "run_id" null row)) published in
      some (key, insert "run_id" (text key) row)

  abbrev pub new_row : Keys → List Pair → List String → JobRecord → Option (String × Dict Json)
  new_row run_ids pairs published job =
      if has_pair pairs (pair_of job) then none else keyed run_ids published job (row_for job)

  abbrev pub published_with : Option (String × Dict Json) → List String → List String
  published_with none published = published
  published_with (some (key, row)) published = key ∷ published

  abbrev pub row_then : Option (String × Dict Json) → List (Dict Json) → List (Dict Json)
  row_then none rows = rows
  row_then (some (key, row)) rows = row ∷ rows

  unfoldable pub new_rows : Keys → List Pair → List String → List JobRecord → List (Dict Json)
  unfolding row_for
  new_rows run_ids pairs published [] = []
  new_rows run_ids pairs published (job ∷ jobs) =
      let added = new_row run_ids pairs published job in
      row_then added (new_rows run_ids pairs (published_with added published) jobs)

  -- `_publish_jobs`: the table with its new rows, and the new rows
  unfoldable pub publish_jobs :
      Keys → List JobRecord → List (Dict String) → List (Dict String) × List (Dict Json)
  unfolding new_rows
  publish_jobs run_ids jobs table =
      let rows =
        new_rows run_ids (read_pairs (map cells_of table)) (read_keys (map cells_of table)) jobs in
      (table ++ map written rows, rows)
