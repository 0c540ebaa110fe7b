-- ===== src/Conditions/Expansion.antt =====
-- `expand_runs` of token_bench/conditions.py.
use claude_code_token_saving.Base.{
  ℕ, ◌+◌, leb, ◌⊎◌, String, ◌≡◌, Bool, not, ◌&&◌, List, [], ◌∷◌, ◌==◌, string_eq, nat_beq,
}
use claude_code_token_saving.Base.Int.{pos, int_beq}
use claude_code_token_saving.Conditions.{Condition, RunSpec, run_of}

-- the number of a run's condition and round
abbrev pub is_run : String → ℕ → RunSpec → Bool
is_run id i run = run.condition_id == id && int_beq run.repeat_index (pos i)

abbrev pub declares : String → ℕ → Condition → Bool
declares id i condition = condition.id == id && not (nat_beq i 0) && leb i condition.repeat

abbrev pub total : List Condition → ℕ
total [] = 0
total (c ∷ cs) = c.repeat + total cs

-- A run of a condition has the condition's inputs.
abbrev pub IsOf : Condition → RunSpec → Type 0
IsOf c run = (i : ℕ) × (run ≡ run_of c i)

abbrev pub Declared : List Condition → RunSpec → Type 0
Declared [] run = ⊥
Declared (c ∷ cs) run = IsOf c run ⊎ Declared cs run
