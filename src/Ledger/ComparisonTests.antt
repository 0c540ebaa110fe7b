-- ===== src/Ledger/ComparisonTests.antt =====
-- A comparison of token_bench/ledger.py, with natural numbers in the place of floats.
use claude_code_token_saving.Base.{
  ℕ, ◌-◌, ◌*◌, ◌/◌, String, ◌≡◌, refl, Option, none, some, List, [], ◌∷◌, keep, leb, nat_beq, ok,
  err, Dict, lookup, insert, if◌then◌else◌,
}
use claude_code_token_saving.Ledger.SummaryCells.{sum_of}
use claude_code_token_saving.Ledger.Comparison.{
  Floats, missing_column, no_number, Run, ComparisonRow, window, not_later,
}
use claude_code_token_saving.Ledger.ComparisonRows.{prompts_from, rebuild_comparison}
use claude_code_token_saving.Ledger.Window.{IsWindow, window_lem}

abbrev largest : ℕ → List ℕ → ℕ
largest x [] = x
largest x (y ∷ ys) = largest (if leb x y then y else x) ys

abbrev smallest : ℕ → List ℕ → ℕ
smallest x [] = x
smallest x (y ∷ ys) = smallest (if leb x y then x else y) ys

abbrev parse : String → Option ℕ
parse s = lookup s (("100", 100) ∷ ("150", 150) ∷ ("2", 2) ∷ [])

abbrev pub numbers : Floats ℕ
numbers = record {
  nought = 0;
  hundred = 100;
  sum = sum_of;
  of_int = λ n. n;
  sub = λ a b. a - b;
  mul = λ a b. a * b;
  div = λ a b. a / b;
  largest = largest;
  smallest = smallest;
  is_zero = λ n. nat_beq n 0;
  rounded = λ n. n;
  parse = parse;
}

abbrev summary_row : (condition run_date processed : String) → Dict String
summary_row condition run_date processed =
    ("run_date", run_date)
    ∷ ("condition", condition)
    ∷ ("prompt_id", "small")
    ∷ ("cost_usd", "2")
    ∷ ("quality_score", "100")
    ∷ ("measurable", "1")
    ∷ ("model", "opus")
    ∷ ("processed_tokens", processed)
    ∷ ("context_tax_tokens", "2")
    ∷ []

abbrev summary : List (Dict String)
summary =
    summary_row "BASE" "2026-09-20" "100"
    ∷ summary_row "RTK" "2026-09-21" "150"
    ∷ summary_row "BASE" "2026-09-22" "150"
    ∷ []

abbrev row : ComparisonRow ℕ
row = record {
  run_date = "2026-09-21";
  prompt_id = "small";
  condition = "RTK";
  runs = 1;
  baseline_runs = 1;
  processed_delta_pct = some 50;
  cost_delta_pct = some 0;
  tax_delta_pct = some 0;
  quality_delta = 0;
  noise_processed_pct = none;
  noise_cost_pct = none;
  model = "opus";
}

-- The run of BASE on a later date is not in the window.
comparison : rebuild_comparison numbers summary ≡ ok (row ∷ [])
unfolding rebuild_comparison prompts_from window
comparison = refl

missing :
    rebuild_comparison numbers ((("measurable", "1") ∷ ("quality_score", "100") ∷ []) ∷ [])
    ≡ err (missing_column "condition")
unfolding rebuild_comparison prompts_from
missing = refl

-- The cost of an evaluated run is empty.
no_cost :
    rebuild_comparison numbers (insert "cost_usd" "" (summary_row "BASE" "2026-09-20" "100") ∷ [])
    ≡ err (no_number "cost_usd")
unfolding rebuild_comparison prompts_from
no_cost = refl

abbrev run : String → Run ℕ
run run_date = record {
  condition = "BASE";
  processed = 100;
  cost = 2;
  tax = 2;
  run_date = run_date;
  quality = 100;
}

abbrev base_runs : List (Run ℕ)
base_runs = run "2026-09-20" ∷ run "2026-09-22" ∷ []

window_lem_example :
    IsWindow (keep (not_later "2026-09-21") base_runs) base_runs (window base_runs "2026-09-21")
window_lem_example = window_lem base_runs "2026-09-21"
