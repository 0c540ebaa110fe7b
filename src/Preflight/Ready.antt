-- ===== src/Preflight/Ready.antt =====
-- When `check` of token_bench/preflight.py finds a run ready, and which runs are available.
use claude_code_token_saving.Base.{
  String, ◌≡◌, refl, ap, ◌∙◌, Bool, true, false, not, ◌&&◌, Option, List, [], ◌∷◌, ◌++◌, Result, ok,
  err, all, string_eq,
}
use claude_code_token_saving.Authorization.Plan.{AuthStatus}
use claude_code_token_saving.Conditions.{
  InjectionType, prompt_overlay, config_ref, env, plugin_dir, proxy, Injection, RunSpec,
}
use claude_code_token_saving.Preflight.{
  Host, Problem, problem_if, uses_api_key, text_or_empty, contains, required_flag,
  flags_required_by_injections, lacks, passes, no_problems,
}

abbrev pub succeeds : {A : Type 0} → Result String A → Bool
succeeds (ok a) = true
succeeds (err message) = false

abbrev pub is_subscription : Result String AuthStatus → Bool
is_subscription (ok auth) = auth.logged_in && not (uses_api_key auth)
is_subscription (err message) = false

abbrev pub exists : Host → InjectionType → (path binary : Option String) → Bool
exists host prompt_overlay path binary = passes host.is_file path
exists host config_ref path binary = passes host.is_file path
exists host proxy path binary = passes host.which binary
exists host plugin_dir path binary = true
exists host env path binary = true

abbrev pub has_file : Host → Injection → Bool
has_file host i = exists host i.type i.path i.binary

-- what has to hold for a run of the subscription
abbrev pub is_ready : Host → RunSpec → Bool
is_ready host run =
    let help = text_or_empty host.help_text in
    host.is_installed
    && (succeeds host.version
        && is_subscription host.auth_status
        && succeeds host.help_text
        && contains (required_flag run) help
        && all (λ flag. not (lacks help flag)) (flags_required_by_injections run.injections)
        && all (has_file host) run.injections
        && succeeds (host.fingerprint_tools run))

pub no_problems-append :
    (ps qs : List Problem) {a b : Bool}
    → no_problems ps ≡ a
    → no_problems qs ≡ b
    → no_problems (ps ++ qs) ≡ (a && b)
no_problems-append [] qs {a} {b} e f = f ∙ ap (λ x. x && b) e
no_problems-append (p ∷ ps) qs {a} {b} e f = ap (λ x. x && b) e

pub no_problems-problem_if : (b : Bool) (p : Problem) → no_problems (problem_if (not b) p) ≡ b
no_problems-problem_if true p = refl
no_problems-problem_if false p = refl
