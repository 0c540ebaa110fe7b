-- ===== src/Collection/Tests.antt =====
-- Runs of token_bench/collect.py on three rows of run-summary.csv.
use claude_code_token_saving.Base.{
  ◌≤◌, String, ◌≡◌, refl, none, some, List, [], ◌∷◌, map, count, Pairwise, Dict, ◌==◌, string_eq,
}
use claude_code_token_saving.Conditions.{Condition}
use claude_code_token_saving.Conditions.Tests.{two_conditions}
use claude_code_token_saving.Collection.{
  Row, count_rows, successful_runs_by_condition, samples_of, place, sort_by, condition_priority,
  is_open, first_open, next_preset,
}
use claude_code_token_saving.Collection.Priority.{condition_priority_lem}

abbrev row : String → String → Row
row condition measurable =
    ("prompt_id", "small")
    ∷ ("model", "m")
    ∷ ("terminal_reason", "succeeded")
    ∷ ("measurable", measurable)
    ∷ ("condition", condition)
    ∷ []

abbrev rows : List Row
rows = row "BASE" "1" ∷ row "BRIEF" "0" ∷ row "BASE" "1" ∷ []

abbrev labels : Dict String
labels = ("base", "BASE") ∷ ("brief", "BRIEF") ∷ []

brief_first : condition_priority rows labels two_conditions "small" none ≡ "brief" ∷ "base" ∷ []
unfolding condition_priority sort_by place successful_runs_by_condition count_rows
brief_first = refl

still_small : next_preset rows labels two_conditions 1 (some "m") ≡ "small"
unfolding next_preset is_open first_open successful_runs_by_condition count_rows
still_small = refl

condition_priority_lem_example :
    let ids = condition_priority rows labels two_conditions "small" none in
    ((id : String)
      → count (λ other. other == id) ids
        ≡ count (λ other. other == id) (map (λ (c : Condition). c.id) two_conditions))
    × Pairwise
        (λ a b. samples_of rows labels "small" none a ≤ samples_of rows labels "small" none b)
        ids
condition_priority_lem_example = condition_priority_lem rows labels two_conditions "small" none
