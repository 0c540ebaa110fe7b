-- ===== src/Ledger/ComparisonRows.antt =====
-- token_bench/ledger.py: the rows of the comparison (`_comparison_rows_for_date`, `rebuild_comparison`).
use claude_code_token_saving.Base.{
  String, Bool, not, ◌&&◌, Option, none, some, List, [], ◌∷◌, ◌++◌, map, keep, length, Result, ok,
  err, ◌>>=◌, Dict, lookup, lookup_or, ◌==◌, string_eq, pair_eq, option_eq, if◌then◌else◌,
}
use claude_code_token_saving.Conditions.Json.{is_empty}
use claude_code_token_saving.Evaluation.{is_le}
use claude_code_token_saving.Ledger.Comparison.{
  Floats, ComparisonError, missing_column, no_number, append_to, by_key, is_le_pair, Run,
  ComparisonRow, Prompt, is_base, window, dates_from, conditions_from,
}

module _ {F : Type 0} (num : Floats F) where
  abbrev pub mean : List F → F
  mean [] = num.nought
  mean (x ∷ xs) = num.div (num.sum (x ∷ xs)) (num.of_int (length (x ∷ xs)))

  abbrev pub spread_pct : List F → Option F
  spread_pct (x ∷ y ∷ xs) =
      let average = mean (x ∷ y ∷ xs) in
      if num.is_zero average
      then some num.nought
      else some (
          num.div (num.mul num.hundred (num.sub (num.largest x (y ∷ xs)) (num.smallest x (y ∷ xs))))
            average)
  spread_pct _ = none

  abbrev pub delta_pct : F → F → Option F
  delta_pct treatment base =
      if num.is_zero base
      then none
      else some (num.div (num.mul num.hundred (num.sub treatment base)) base)

  -- `_round`, of a value that may be missing
  abbrev pub round_option : Option F → Option F
  round_option none = none
  round_option (some x) = some (num.rounded x)

  abbrev pub mean_of : (Run F → F) → List (Run F) → F
  mean_of field runs = mean (map field runs)

  abbrev pub delta_of : (Run F → F) → List (Run F) → List (Run F) → Option F
  delta_of field group base_runs =
      round_option (delta_pct (mean_of field group) (mean_of field base_runs))

  abbrev pub noise_of : (Run F → F) → List (Run F) → Option F
  noise_of field base_runs = round_option (spread_pct (map field base_runs))

  abbrev pub group_row :
      (run_date model prompt_id : String) (base_runs : List (Run F))
      → String × List (Run F)
      → ComparisonRow F
  group_row run_date model prompt_id base_runs (condition, group) = record {
    run_date = run_date;
    prompt_id = prompt_id;
    condition = condition;
    runs = length group;
    baseline_runs = length base_runs;
    processed_delta_pct = delta_of (λ r. r.processed) group base_runs;
    cost_delta_pct = delta_of (λ r. r.cost) group base_runs;
    tax_delta_pct = delta_of (λ r. r.tax) group base_runs;
    quality_delta =
        num.rounded (num.sub (mean_of (λ r. r.quality) group) (mean_of (λ r. r.quality) base_runs));
    noise_processed_pct = noise_of (λ r. r.processed) base_runs;
    noise_cost_pct = noise_of (λ r. r.cost) base_runs;
    model = model;
  }

  -- The rows of one date, with the columns that `rebuild_comparison` puts round them.
  abbrev pub rows_for_date :
      (run_date model prompt_id : String) → List (Run F) → List (Run F) → List (ComparisonRow F)
  rows_for_date run_date model prompt_id runs [] = []
  rows_for_date run_date model prompt_id runs (base ∷ base_runs) =
      map (group_row run_date model prompt_id (base ∷ base_runs))
        (by_key is_le (conditions_from [] runs))

  abbrev pub rows_of_dates :
      (model prompt_id : String) (base_runs : List (Run F))
      → List (String × List (Run F))
      → List (ComparisonRow F)
  rows_of_dates model prompt_id base_runs [] = []
  rows_of_dates model prompt_id base_runs ((run_date, runs) ∷ dates) =
      rows_for_date run_date model prompt_id runs (window base_runs run_date)
      ++ rows_of_dates model prompt_id base_runs dates

  abbrev pub rows_of_prompt : Prompt × List (Run F) → List (Run F) → List (ComparisonRow F)
  rows_of_prompt (prompt, runs) [] = []
  rows_of_prompt ((model, prompt_id), runs) (base ∷ base_runs) =
      rows_of_dates model prompt_id (base ∷ base_runs) (by_key is_le (dates_from [] runs))

  abbrev pub rows_of_prompts : List (Prompt × List (Run F)) → List (ComparisonRow F)
  rows_of_prompts [] = []
  rows_of_prompts ((prompt, runs) ∷ prompts) =
      rows_of_prompt (prompt, runs) (keep is_base runs) ++ rows_of_prompts prompts

  abbrev pub column : Dict String → String → Result ComparisonError String
  column row name = elim (lookup name row) [ none ↦ err (missing_column name) | some x ↦ ok x ]

  abbrev pub number_in : Dict String → String → Result ComparisonError F
  number_in row name =
      column row name >>= λ s. elim (num.parse s) [ none ↦ err (no_number name) | some x ↦ ok x ]

  abbrev pub read_run : Dict String → Result ComparisonError (Run F)
  read_run row = do
    condition ← column row "condition"
    processed ← number_in row "processed_tokens"
    cost ← number_in row "cost_usd"
    tax ← number_in row "context_tax_tokens"
    run_date ← column row "run_date"
    quality ← number_in row "quality_score"
    ok (record {
      condition = condition;
      processed = processed;
      cost = cost;
      tax = tax;
      run_date = run_date;
      quality = quality;
    })

  -- The two tests with `continue`.
  abbrev pub is_compared : Dict String → Bool
  is_compared row =
      (lookup "measurable" row == some "1") && not (is_empty (lookup_or "quality_score" "" row))

  abbrev pub prompt_of : Dict String → Prompt
  prompt_of row = (lookup_or "model" "" row, lookup_or "prompt_id" "" row)

  -- `by_prompt`
  unfoldable pub prompts_from :
      List (Prompt × List (Run F))
      → List (Dict String)
      → Result ComparisonError (List (Prompt × List (Run F)))
  prompts_from prompts [] = ok prompts
  prompts_from prompts (row ∷ rows) =
      let skip = prompts_from prompts rows in
      let go = read_run row >>= λ run. prompts_from (append_to (prompt_of row) run prompts) rows in
      if is_compared row then go else skip

  -- `rebuild_comparison`: the rows that are written
  unfoldable pub rebuild_comparison :
      List (Dict String) → Result ComparisonError (List (ComparisonRow F))
  unfolding prompts_from window
  rebuild_comparison summary =
      prompts_from [] summary >>= λ prompts. ok (rows_of_prompts (by_key is_le_pair prompts))
