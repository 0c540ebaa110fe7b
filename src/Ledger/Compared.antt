-- ===== src/Ledger/Compared.antt =====
-- What the rows of the comparison of token_bench/ledger.py count (`rebuild_comparison`).
use claude_code_token_saving.Base.{◌≤◌, String, ◌≢◌, List, length, All, Result, ok, err, string_eq}
use claude_code_token_saving.Ledger.Comparison.{ComparisonError, Run, ComparisonRow}

module _ {F : Type 0} where
  -- A group of runs with a condition.
  abbrev IsGroup : String × List (Run F) → Type 0
  IsGroup (condition, runs) = (condition ≢ "BASE") × (1 ≤ length runs)

  -- A row compares at least one run of a condition other than BASE with one to ten runs of BASE.
  abbrev pub IsCompared : ComparisonRow F → Type 0
  IsCompared row =
      (row.condition ≢ "BASE") × (1 ≤ row.runs) × (1 ≤ row.baseline_runs) × (row.baseline_runs ≤ 10)

  abbrev pub AllCompared : Result ComparisonError (List (ComparisonRow F)) → Type 0
  AllCompared (err e) = Unit
  AllCompared (ok rows) = All IsCompared rows
