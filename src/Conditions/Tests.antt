-- ===== src/Conditions/Tests.antt =====
-- Runs of token_bench/conditions.py on two conditions.
use claude_code_token_saving.Base.{
  ℕ, String, ◌≡◌, refl, true, not, ◌&&◌, none, List, [], ◌∷◌, ok, err, keep, map, All, ◌⊎◌,
}
use claude_code_token_saving.Base.Int.{ℤ, pos}
use claude_code_token_saving.Conditions.Json.{Json, text, array, object, last, end, field}
use claude_code_token_saving.Conditions.Paths.{is_reserved, starts_with}
use claude_code_token_saving.Conditions.Parsing.{reserved_name, unhashable_type, parse_injection}
use claude_code_token_saving.Conditions.{
  Condition, RunSpec, unknown_ids, is_one_of, select_subset, repeats, expand_runs,
}
use claude_code_token_saving.Conditions.Selection.{is_declared, is_wanted, select_subset-ok}

abbrev pub condition : String → ℕ → String → Condition
condition id repeat label = record {
  id = id;
  repeat = repeat;
  requires_tools = [];
  tool_probes = [];
  injections = [];
  repository_url = none;
  label = label;
}

abbrev pub two_conditions : List Condition
two_conditions = condition "base" 2 "BASE" ∷ condition "brief" 1 "BRIEF" ∷ []

expanded :
    map {B = String × ℤ}
      (λ (r : RunSpec). (r.condition_id, r.repeat_index))
      (expand_runs two_conditions)
    ≡ ("base", pos 1) ∷ ("base", pos 2) ∷ ("brief", pos 1) ∷ []
unfolding expand_runs repeats
expanded = refl

misspelt : select_subset two_conditions ("brif" ∷ []) [] ≡ err (unknown_ids ("brif" ∷ []))
unfolding select_subset
misspelt = refl

without_brief : select_subset two_conditions [] ("brief" ∷ []) ≡ ok (condition "base" 2 "BASE" ∷ [])
unfolding select_subset
without_brief = refl

abbrev excluded : List String
excluded = "brief" ∷ []

abbrev nothing : List String
nothing = []

select_subset-ok_example :
    (condition "base" 2 "BASE" ∷ []
      ≡ keep (λ c. is_wanted [] c.id && not (is_one_of excluded c.id)) two_conditions)
    × All (λ id. is_declared two_conditions id ≡ true) []
    × All (λ id. is_declared two_conditions id ≡ true) excluded
    × ((nothing ≡ []) ⊎ (excluded ≡ []))
select_subset-ok_example = select_subset-ok two_conditions nothing excluded without_brief

abbrev one_variable : String → Json
one_variable name =
    object (field "type" (text "env") (field "name" (text name) (field "value" (text "1") end)))

reserved : parse_injection (one_variable "ANTHROPIC_MODEL") ≡ err reserved_name
unfolding parse_injection is_reserved starts_with
reserved = refl

-- the TypeError of a list where the name of a type belongs
listed_type : parse_injection (object (field "type" (array last) end)) ≡ err unhashable_type
unfolding parse_injection
listed_type = refl
