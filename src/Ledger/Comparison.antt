-- ===== src/Ledger/Comparison.antt =====
-- token_bench/ledger.py: the comparison of the conditions with the baseline (`rebuild_comparison`).
use claude_code_token_saving.Base.{
  ℕ, zero, suc, ◌-◌, String, Bool, not, Option, List, [], ◌∷◌, ◌++◌, keep, length, HasEq, ◌==◌,
  string_eq, pair_eq, option_eq, if◌then◌else◌,
}
use claude_code_token_saving.Evaluation.{is_le}

-- Python's floats, which the model does not look into: `rounded` is `round(value, 4)`, `parse` is `float`.
pub record Floats (F : Type 0) : Type 0 where
  pub nought : F
  pub hundred : F
  pub sum : List F → F
  pub of_int : ℕ → F
  pub sub : F → F → F
  pub mul : F → F → F
  pub div : F → F → F
  pub largest : F → List F → F
  pub smallest : F → List F → F
  pub is_zero : F → Bool
  pub rounded : F → F
  pub parse : String → Option F

-- The KeyError of a column and the ValueError of a number.
pub data ComparisonError : Type 0 where
  missing_column : String → ComparisonError
  no_number : String → ComparisonError

abbrev pub baseline_window : ℕ
baseline_window = 10

-- `d.setdefault(key, []).append(x)`
abbrev pub append_to {ℓ κ} :
    {K : Type ℓ} {A : Type κ} ⦃e : HasEq K⦄ → K → A → List (K × List A) → List (K × List A)
append_to key x [] = (key, x ∷ []) ∷ []
append_to key x ((other, xs) ∷ groups) =
    if other == key then (other, xs ++ x ∷ []) ∷ groups else (other, xs) ∷ append_to key x groups

-- The groups in the order of `sorted` on their keys.
abbrev pub place_group {ℓ κ} :
    {K : Type ℓ} {A : Type κ} → (K → K → Bool) → K × A → List (K × A) → List (K × A)
place_group le group [] = group ∷ []
place_group le (key, xs) ((other, ys) ∷ groups) =
    let rest = place_group le (key, xs) groups in
    if le key other then (key, xs) ∷ (other, ys) ∷ groups else (other, ys) ∷ rest

abbrev pub by_key {ℓ κ} : {K : Type ℓ} {A : Type κ} → (K → K → Bool) → List (K × A) → List (K × A)
by_key le [] = []
by_key le (group ∷ groups) = place_group le group (by_key le groups)

-- The order of pairs of texts.
abbrev pub is_le_pair : String × String → String × String → Bool
is_le_pair (a, b) (c, d) = if a == c then is_le b d else is_le a c

-- `xs[:n]` and `xs[-n:]`
abbrev pub first_of {ℓ} : {A : Type ℓ} → ℕ → List A → List A
first_of zero xs = []
first_of (suc n) [] = []
first_of (suc n) (x ∷ xs) = x ∷ first_of n xs

abbrev pub without_first {ℓ} : {A : Type ℓ} → ℕ → List A → List A
without_first zero xs = xs
without_first (suc n) [] = []
without_first (suc n) (x ∷ xs) = without_first n xs

abbrev pub last_of {ℓ} : {A : Type ℓ} → ℕ → List A → List A
last_of n xs = without_first (length xs - n) xs

pub record Run (F : Type 0) : Type 0 where
  pub condition : String
  pub processed : F
  pub cost : F
  pub tax : F
  pub run_date : String
  pub quality : F

-- A row of `COMPARISON_COLUMNS`. An empty cell is `none`.
pub record ComparisonRow (F : Type 0) : Type 0 where
  pub run_date : String
  pub prompt_id : String
  pub condition : String
  pub runs : ℕ
  pub baseline_runs : ℕ
  pub processed_delta_pct : Option F
  pub cost_delta_pct : Option F
  pub tax_delta_pct : Option F
  pub quality_delta : F
  pub noise_processed_pct : Option F
  pub noise_cost_pct : Option F
  pub model : String

-- The model and the prompt.
abbrev pub Prompt : Type 0
Prompt = String × String

module _ {F : Type 0} where
  abbrev pub is_base : Run F → Bool
  is_base run = run.condition == "BASE"

  abbrev pub not_base : Run F → Bool
  not_base run = not (run.condition == "BASE")

  abbrev pub window_from : List (Run F) → List (Run F) → List (Run F)
  window_from [] base_runs = first_of baseline_window base_runs
  window_from (run ∷ earlier) base_runs = last_of baseline_window (run ∷ earlier)

  abbrev pub not_later : String → Run F → Bool
  not_later run_date run = is_le run.run_date run_date

  -- `_baseline_window`
  unfoldable pub window : List (Run F) → String → List (Run F)
  window base_runs run_date = window_from (keep (not_later run_date) base_runs) base_runs

  -- `by_date` and `grouped`
  abbrev pub dates_from : List (String × List (Run F)) → List (Run F) → List (String × List (Run F))
  dates_from groups [] = groups
  dates_from groups (run ∷ runs) =
      dates_from (if not_base run then append_to run.run_date run groups else groups) runs

  abbrev pub conditions_from :
      List (String × List (Run F)) → List (Run F) → List (String × List (Run F))
  conditions_from groups [] = groups
  conditions_from groups (run ∷ runs) =
      conditions_from (if not_base run then append_to run.condition run groups else groups) runs
