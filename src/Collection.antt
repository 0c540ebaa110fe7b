-- ===== src/Collection.antt =====
-- token_bench/collect.py: which condition is measured next, and with which preset. The rows are those
-- that csv.DictReader reads from run-summary.csv; the labels are those of the declared conditions.
pub mod Counts
pub mod Priority
pub mod Tests
use claude_code_token_saving.Base.{
  ℕ, zero, suc, ◌+◌, String, Bool, true, false, not, ◌&&◌, ◌||◌, Option, none, some, List, [], ◌∷◌,
  map, any, Dict, lookup, lookup_or, insert, ltb, leb, nat_beq, ◌==◌, string_eq, option_eq,
  if◌then◌else◌,
}
use claude_code_token_saving.Conditions.{Condition}

abbrev pub Row : Type 0
Row = Dict String

-- `row.get(column) == text`
abbrev pub has : String → String → Row → Bool
has column text row = lookup column row == some text

-- the three tests with `continue`; without a model the runs of all models count
abbrev pub is_model : Option String → Row → Bool
is_model none row = true
is_model (some model) row = has "model" model row

abbrev pub is_sample : String → Option String → Row → Bool
is_sample prompt_id model row =
    has "prompt_id" prompt_id row
    && is_model model row
    && has "terminal_reason" "succeeded" row
    && not (has "measurable" "0" row)

abbrev pub condition_of : Row → String
condition_of row = lookup_or "condition" "" row

-- the loop, with the dict that it fills
unfoldable pub count_rows : String → Option String → List Row → Dict ℕ → Dict ℕ
count_rows prompt_id model [] counts = counts
count_rows prompt_id model (row ∷ rows) counts =
    let name = condition_of row in
    count_rows prompt_id model rows (
      if is_sample prompt_id model row
      then insert name (lookup_or name 0 counts + 1) counts
      else counts)

unfoldable pub successful_runs_by_condition : List Row → String → Option String → Dict ℕ
unfolding count_rows
successful_runs_by_condition rows prompt_id model = count_rows prompt_id model rows []

-- `ledger.condition_label`
abbrev pub condition_label : Dict String → String → String
condition_label labels id = lookup_or id id labels

-- A stable sort by the number of samples: the ids stand in the order of their declaration, and ids
-- are distinct, so `declared.index` is their place.
unfoldable pub place : (String → ℕ) → String → List String → List String
place samples id [] = id ∷ []
place samples id (other ∷ ids) =
    let rest = place samples id ids in
    if leb (samples id) (samples other) then id ∷ other ∷ ids else other ∷ rest

unfoldable pub sort_by : (String → ℕ) → List String → List String
unfolding place
sort_by samples [] = []
sort_by samples (id ∷ ids) = place samples id (sort_by samples ids)

abbrev pub samples_of : List Row → Dict String → String → Option String → String → ℕ
samples_of rows labels preset model id =
    lookup_or (condition_label labels id) 0 (successful_runs_by_condition rows preset model)

unfoldable pub condition_priority :
    List Row → Dict String → List Condition → (preset : String) → Option String → List String
unfolding sort_by successful_runs_by_condition
condition_priority rows labels conditions preset model =
    sort_by (samples_of rows labels preset model) (map (λ c. c.id) conditions)

abbrev pub runs_per_preset : ℕ
runs_per_preset = 30

-- whether a declared condition has too few samples
unfoldable pub is_open :
    List Row → Dict String → List Condition → ℕ → Option String → (preset : String) → Bool
unfolding successful_runs_by_condition
is_open rows labels conditions needed model preset =
    any (λ (c : Condition). ltb (samples_of rows labels preset model c.id) needed) conditions

-- the loop over `PRESET_SEQUENCE`, with the last preset for its end
unfoldable pub first_open : (String → Bool) → List String → String → String
first_open test [] last = last
first_open test (preset ∷ presets) last =
    let rest = first_open test presets last in if test preset then preset else rest

unfoldable pub next_preset : List Row → Dict String → List Condition → ℕ → Option String → String
unfolding is_open first_open
next_preset rows labels conditions needed model =
    first_open (is_open rows labels conditions needed model) ("small" ∷ "large" ∷ []) "large"
