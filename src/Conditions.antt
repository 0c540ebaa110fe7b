-- ===== src/Conditions.antt =====
-- token_bench/conditions.py: declared conditions, their choice, and the runs that they expand to.
pub mod Selection
pub mod Expansion
pub mod Json
pub mod Paths
pub mod Parsing
pub mod Fields
pub mod Declarations
pub mod RunSpecs
pub mod Tests
use claude_code_token_saving.Base.{
  ℕ, zero, suc, ◌+◌, String, Bool, true, false, not, ◌&&◌, ◌||◌, Option, none, some, List, [], ◌∷◌,
  ◌++◌, Result, ok, err, any, all, keep, Dict, ◌==◌, string_eq, if◌then◌else◌,
}
use claude_code_token_saving.Base.Int.{ℤ, pos}

pub data InjectionType : Type 0 where
  prompt_overlay config_ref env plugin_dir proxy : InjectionType

pub record Injection : Type 0 where
  pub type : InjectionType
  pub path : Option String
  pub name : Option String
  pub value : Option String
  pub binary : Option String
  pub args : Option (List String)
  pub ready_path : Option String
  pub fingerprint_path : Option String

pub record Condition : Type 0 where
  pub id : String
  pub repeat : ℕ
  pub requires_tools : List String
  pub tool_probes : Dict (List String)
  pub injections : List Injection
  pub repository_url : Option String
  pub label : String

pub record RunSpec : Type 0 where
  pub condition_id : String
  pub repeat_index : ℤ
  pub repeat_total : ℕ
  pub requires_tools : List String
  pub injections : List Injection
  pub tool_probes : Dict (List String)
  pub repository_url : Option String

abbrev pub run_of : Condition → ℕ → RunSpec
run_of condition i = record {
  condition_id = condition.id;
  repeat_index = pos i;
  repeat_total = condition.repeat;
  requires_tools = condition.requires_tools;
  injections = condition.injections;
  tool_probes = condition.tool_probes;
  repository_url = condition.repository_url;
}

-- `for i in range(start, start + n)`
unfoldable pub repeats : Condition → (start n : ℕ) → List RunSpec
repeats condition start zero = []
repeats condition start (suc n) = run_of condition start ∷ repeats condition (start + 1) n

unfoldable pub expand_runs : List Condition → List RunSpec
unfolding repeats
expand_runs [] = []
expand_runs (condition ∷ conditions) =
    repeats condition 1 condition.repeat ++ expand_runs conditions

-- `ConditionError` of `select_subset`, with the ids that are not declared
pub data SelectionError : Type 0 where
  include_and_exclude : SelectionError
  unknown_ids : List String → SelectionError

abbrev pub is_one_of : List String → String → Bool
is_one_of ids id = any (λ other. other == id) ids

abbrev pub unknown : List Condition → List String → List String
unknown conditions ids = keep (λ id. not (any (λ (c : Condition). c.id == id) conditions)) ids

abbrev pub chosen :
    List String → Result SelectionError (List Condition) → Result SelectionError (List Condition)
chosen [] r = r
chosen (id ∷ ids) r = err (unknown_ids (id ∷ ids))

-- None and an empty list mean the same.
unfoldable pub select_subset :
    List Condition → (include exclude : List String) → Result SelectionError (List Condition)
select_subset conditions (i ∷ is) (e ∷ es) = err include_and_exclude
select_subset conditions (i ∷ is) [] =
    chosen (unknown conditions (i ∷ is)) (ok (keep (λ c. is_one_of (i ∷ is) c.id) conditions))
select_subset conditions [] (e ∷ es) =
    chosen (unknown conditions (e ∷ es)) (ok (keep (λ c. not (is_one_of (e ∷ es) c.id)) conditions))
select_subset conditions [] [] = ok conditions

abbrev pub is_customization : InjectionType → Bool
is_customization config_ref = true
is_customization plugin_dir = true
is_customization _ = false

unfoldable pub needs_customizations : List Injection → Bool
needs_customizations injections = any (λ (i : Injection). is_customization i.type) injections
