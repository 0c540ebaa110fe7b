-- ===== src/Ledger/SummaryCells.antt =====
-- token_bench/ledger.py: the cells of a row of the summary.
use claude_code_token_saving.Base.{
  ℕ, zero, suc, ◌+◌, String, Bool, true, false, not, Option, none, some, List, [], ◌∷◌, Dict,
  lookup, lookup_or, ◌==◌, string_eq, if◌then◌else◌,
}
use Prim.Native.String.{◌++◌ as ◌⧺◌}
use claude_code_token_saving.Base.Int.{pos}
use claude_code_token_saving.ActivityLog.{Counts, Turn, Shares, int_of, reconcile}
use claude_code_token_saving.Conditions.Json.{
  Json, null, bool, int, float, text, array, object, last, end, is_empty,
}
use claude_code_token_saving.Results.{get}

abbrev pub is_truthy : Json → Bool
is_truthy null = false
is_truthy (bool b) = b
is_truthy (int (pos zero)) = false
is_truthy (float x) = not x.is_zero
is_truthy (text s) = not (is_empty s)
is_truthy (array last) = false
is_truthy (object end) = false
is_truthy _ = true

-- `s[:n]`
abbrev pub prefix : ℕ → String → String
prefix zero s = ""
prefix (suc n) String.[] = ""
prefix (suc n) (String.◌∷◌ c s) = String.◌∷◌ c (prefix n s)

-- `_PRESET_BY_PATH`
abbrev pub preset_by_path : Dict String
preset_by_path =
    ("benchmark/prompts/master.md", "small")
    ∷ ("benchmark/prompts/preset-large.md", "large")
    ∷ ("benchmark/prompts/preset-very-large.md", "very-large")
    ∷ []

abbrev pub custom_prompt : String → String
custom_prompt sha = if is_empty sha then "custom:unknown" else "custom:" ⧺ prefix 8 sha

-- `_prompt_id`, of the texts of the snapshot; `none` if it cannot be read
abbrev pub prompt_id : Option (Dict String) → String
prompt_id none = ""
prompt_id (some snapshot) =
    elim (lookup (lookup_or "task_prompt_path" "" snapshot) preset_by_path) [
      | some name ↦ name
      | none ↦ custom_prompt (lookup_or "task_prompt_sha256" "" snapshot)
    ]

-- `_aux_model_tokens`: the tokens of the other models
abbrev pub model_tokens : Counts → ℕ
model_tokens usage =
    int_of usage "inputTokens"
    + int_of usage "outputTokens"
    + int_of usage "cacheCreationInputTokens"
    + int_of usage "cacheReadInputTokens"

abbrev pub aux_model_tokens : Dict Counts → String → ℕ
aux_model_tokens [] main = 0
aux_model_tokens ((model, usage) ∷ models) main =
    (if model == main then 0 else model_tokens usage) + aux_model_tokens models main

abbrev pub sum_of : List ℕ → ℕ
sum_of [] = 0
sum_of (n ∷ ns) = n + sum_of ns

-- `shares` of a run without turns
abbrev pub shares_of : List Turn → Shares
shares_of [] = record {
  opening = pos 0;
  output = pos 0;
  tool_result = pos 0;
  discarded = pos 0;
  observed = pos 0;
  balanced = true;
}
shares_of (t ∷ turns) = reconcile (t ∷ turns)

abbrev pub first_cache_read : List Turn → Option ℕ
first_cache_read [] = none
first_cache_read (t ∷ turns) = some t.cache_read_tokens

abbrev pub quality_of : Json → Option ℕ
quality_of evaluation =
    if not (is_truthy (get "ran" evaluation))
    then none
    else if is_truthy (get "passed" evaluation)
    then some 100
    else some 0

abbrev pub critical_of : Json → String
critical_of evaluation =
    if not (is_truthy (get "ran" evaluation))
    then ""
    else if is_truthy (get "passed" evaluation)
    then "pass"
    else "fail"
