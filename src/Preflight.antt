-- ===== src/Preflight.antt =====
-- token_bench/preflight.py: the check of one run, and the runs that can start at once.

pub mod Ready
pub mod Available
pub mod Tests
use claude_code_token_saving.Base.{
  ℕ, String, ◌≡◌, refl, Bool, true, false, not, ◌&&◌, ◌||◌, Option, none, some, List, [], ◌∷◌, ◌++◌,
  Result, ok, err, any, all, ◌==◌, string_eq, if◌then◌else◌,
}
use claude_code_token_saving.Authorization.Plan.{Fingerprint, AuthStatus}
use claude_code_token_saving.Conditions.{
  InjectionType, prompt_overlay, config_ref, env, plugin_dir, proxy, Injection, RunSpec,
  needs_customizations,
}
use claude_code_token_saving.Conditions.Paths.{starts_with}
use claude_code_token_saving.Conditions.Json.{is_empty}

-- What the computer answers: the commands of token_bench/claude_code.py, `Path.is_file`, `shutil.which`,
-- `resolve_plugin_dir` (whether it finds a directory) and `fingerprint_tools`.
pub record Host : Type 0 where
  pub is_installed : Bool
  pub version : Result String String
  pub auth_status : Result String AuthStatus
  pub help_text : Result String String
  pub is_file : String → Bool
  pub which : String → Bool
  pub is_plugin_dir : String → Bool
  pub fingerprint_tools : RunSpec → Result String (List Fingerprint)

pub data Problem : Type 0 where
  not_installed not_logged_in api_key : Problem
  raised unknown_isolation unknown_flag not_on_path : String → Problem
  no_file no_proxy no_plugin_dir : Option String → Problem

pub record PreflightReport : Type 0 where
  pub ok : Bool
  pub claude_version : Option String
  pub auth : Option AuthStatus
  pub problems : List Problem
  pub tool_fingerprints : List Fingerprint

abbrev pub problem_if : Bool → Problem → List Problem
problem_if true p = p ∷ []
problem_if false p = []

abbrev pub raised_by : {A : Type 0} → Result String A → List Problem
raised_by (ok a) = []
raised_by (err message) = raised message ∷ []

abbrev pub answer : {A : Type 0} → Result String A → Option A
answer (ok a) = some a
answer (err message) = none

abbrev pub uses_api_key : AuthStatus → Bool
uses_api_key auth =
    is_text "apiKey" auth.auth_method
    || not (is_none auth.api_provider || is_text "firstParty" auth.api_provider)
  where
    is_none : Option String → Bool
    is_none none = true
    is_none (some s) = false

    is_text : String → Option String → Bool
    is_text s none = false
    is_text s (some t) = t == s

abbrev pub auth_problems : Result String AuthStatus → List Problem
auth_problems (err message) = raised message ∷ []
auth_problems (ok auth) =
    problem_if (not auth.logged_in) not_logged_in ++ problem_if (uses_api_key auth) api_key

-- `help_text = ""` before the command
abbrev pub text_or_empty : Result String String → String
text_or_empty (ok s) = s
text_or_empty (err message) = ""

-- `needle in s`
unfoldable pub contains : String → String → Bool
unfolding starts_with
contains needle String.[] = is_empty needle
contains needle (String.◌∷◌ c s) =
    let rest = contains needle s in starts_with (String.◌∷◌ c s) needle || rest

abbrev pub required_flag : RunSpec → String
required_flag run =
    if needs_customizations run.injections then "--setting-sources" else "--safe-mode"

abbrev pub flags_required_by_injections : List Injection → List String
flags_required_by_injections [] = []
flags_required_by_injections (i ∷ is) = elim i.type [
  | config_ref ↦ "--settings" ∷ flags_required_by_injections is
  | plugin_dir ↦ "--plugin-dir" ∷ flags_required_by_injections is
  | _ ↦ flags_required_by_injections is
]

abbrev pub lacks : String → String → Bool
lacks help flag = not (is_empty help) && not (contains flag help)

abbrev pub flag_problems : String → List String → List Problem
flag_problems help [] = []
flag_problems help (flag ∷ flags) =
    problem_if (lacks help flag) (unknown_flag flag) ++ flag_problems help flags

abbrev pub passes : (String → Bool) → Option String → Bool
passes test none = false
passes test (some s) = test s

-- An injection without the path or the program of its type is refused where conditions are read.
abbrev pub problem_with : Host → InjectionType → (path binary : Option String) → List Problem
problem_with host prompt_overlay path binary =
    problem_if (not (passes host.is_file path)) (no_file path)
problem_with host config_ref path binary =
    problem_if (not (passes host.is_file path)) (no_file path)
problem_with host proxy path binary = problem_if (not (passes host.which binary)) (no_proxy binary)
problem_with host plugin_dir path binary = []
problem_with host env path binary = []

abbrev pub injection_problem : Host → Injection → List Problem
injection_problem host i = problem_with host i.type i.path i.binary

abbrev pub injection_problems : Host → List Injection → List Problem
injection_problems host [] = []
injection_problems host (i ∷ is) = injection_problem host i ++ injection_problems host is

abbrev pub problems_of : Host → RunSpec → List Problem
problems_of host run =
    let help = text_or_empty host.help_text in
    raised_by host.version
    ++ auth_problems host.auth_status
    ++ raised_by host.help_text
    ++ problem_if (not (contains (required_flag run) help)) (unknown_isolation (required_flag run))
    ++ flag_problems help (flags_required_by_injections run.injections)
    ++ injection_problems host run.injections
    ++ raised_by (host.fingerprint_tools run)

abbrev pub no_problems : List Problem → Bool
no_problems [] = true
no_problems (p ∷ ps) = false

abbrev pub fingerprints_of : Result String (List Fingerprint) → List Fingerprint
fingerprints_of (ok fs) = fs
fingerprints_of (err message) = []

unfoldable pub check : Host → RunSpec → PreflightReport
unfolding contains needs_customizations
check host run =
    if not host.is_installed
    then record {
      ok = false;
      claude_version = none;
      auth = none;
      problems = not_installed ∷ [];
      tool_fingerprints = [];
    }
    else record {
      ok = no_problems (problems_of host run);
      claude_version = answer host.version;
      auth = answer host.auth_status;
      problems = problems_of host run;
      tool_fingerprints = fingerprints_of (host.fingerprint_tools run);
    }

abbrev pub tool_reasons : Host → List String → List Problem
tool_reasons host [] = []
tool_reasons host (tool ∷ tools) =
    problem_if (not (host.which tool)) (not_on_path tool) ++ tool_reasons host tools

abbrev pub reason_with : Host → InjectionType → (path binary : Option String) → List Problem
reason_with host plugin_dir path binary =
    problem_if (not (passes host.is_plugin_dir path)) (no_plugin_dir path)
reason_with host proxy path binary = problem_if (not (passes host.which binary)) (no_proxy binary)
reason_with host prompt_overlay path binary = []
reason_with host config_ref path binary = []
reason_with host env path binary = []

abbrev pub injection_reason : Host → Injection → List Problem
injection_reason host i = reason_with host i.type i.path i.binary

abbrev pub injection_reasons : Host → List Injection → List Problem
injection_reasons host [] = []
injection_reasons host (i ∷ is) = injection_reason host i ++ injection_reasons host is

unfoldable pub unavailable_reasons : Host → RunSpec → List Problem
unavailable_reasons host run =
    tool_reasons host run.requires_tools ++ injection_reasons host run.injections

-- one run more, before those of the rest
abbrev pub divide :
    List Problem
    → RunSpec
    → List RunSpec × List (RunSpec × List Problem)
    → List RunSpec × List (RunSpec × List Problem)
divide [] run (ready, blocked) = (run ∷ ready, blocked)
divide (p ∷ ps) run (ready, blocked) = (ready, (run, p ∷ ps) ∷ blocked)

unfoldable pub split_by_availability :
    Host → List RunSpec → List RunSpec × List (RunSpec × List Problem)
unfolding unavailable_reasons
split_by_availability host [] = ([], [])
split_by_availability host (run ∷ runs) =
    divide (unavailable_reasons host run) run (split_by_availability host runs)
