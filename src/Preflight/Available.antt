-- ===== src/Preflight/Available.antt =====
-- Which runs `split_by_availability` of token_bench/preflight.py lets start.
use claude_code_token_saving.Base.{
  String, ◌≡◌, refl, sym, ap, ◌∙◌, Bool, true, false, not, ◌&&◌, Option, List, [], ◌∷◌, all, keep,
  if◌then◌else◌, map, All,
}
use claude_code_token_saving.Conditions.{
  InjectionType, prompt_overlay, config_ref, env, plugin_dir, proxy, Injection, RunSpec,
}
use claude_code_token_saving.Preflight.{
  Host, Problem, problem_if, passes, no_problems, tool_reasons, reason_with, injection_reason,
  injection_reasons, unavailable_reasons, divide, split_by_availability, not_on_path,
}
use claude_code_token_saving.Preflight.Ready.{no_problems-append, no_problems-problem_if}

abbrev pub is_installed_with : Host → InjectionType → (path binary : Option String) → Bool
is_installed_with host plugin_dir path binary = passes host.is_plugin_dir path
is_installed_with host proxy path binary = passes host.which binary
is_installed_with host prompt_overlay path binary = true
is_installed_with host config_ref path binary = true
is_installed_with host env path binary = true

-- its tools, its proxy and its plugins are there
abbrev pub is_available : Host → RunSpec → Bool
is_available host run =
    all (λ tool. host.which tool) run.requires_tools
    && all (λ (i : Injection). is_installed_with host i.type i.path i.binary) run.injections

no_problems-tool_reasons :
    (host : Host) (tools : List String)
    → no_problems (tool_reasons host tools) ≡ all (λ tool. host.which tool) tools
no_problems-tool_reasons host [] = refl
no_problems-tool_reasons host (tool ∷ tools) =
    no_problems-append (problem_if (not (host.which tool)) (not_on_path tool))
      (tool_reasons host tools) (no_problems-problem_if (host.which tool) (not_on_path tool))
      (no_problems-tool_reasons host tools)

no_problems-reason_with :
    (host : Host) (t : InjectionType) (path binary : Option String)
    → no_problems (reason_with host t path binary) ≡ is_installed_with host t path binary
no_problems-reason_with host plugin_dir path binary = no_problems-problem_if _ _
no_problems-reason_with host proxy path binary = no_problems-problem_if _ _
no_problems-reason_with host prompt_overlay path binary = refl
no_problems-reason_with host config_ref path binary = refl
no_problems-reason_with host env path binary = refl

no_problems-injection_reasons :
    (host : Host) (is : List Injection)
    → no_problems (injection_reasons host is)
      ≡ all (λ (i : Injection). is_installed_with host i.type i.path i.binary) is
no_problems-injection_reasons host [] = refl
no_problems-injection_reasons host (i ∷ is) =
    no_problems-append (injection_reason host i) (injection_reasons host is)
      (no_problems-reason_with host i.type i.path i.binary) (no_problems-injection_reasons host is)

no_problems-unavailable_reasons :
    (host : Host) (run : RunSpec)
    → no_problems (unavailable_reasons host run) ≡ is_available host run
unfolding unavailable_reasons
no_problems-unavailable_reasons host run =
    no_problems-append (tool_reasons host run.requires_tools)
      (injection_reasons host run.injections) (no_problems-tool_reasons host run.requires_tools)
      (no_problems-injection_reasons host run.injections)

-- The runs are divided, each part in its order, and each blocked one has its reasons.
abbrev pub Divided : Host → List RunSpec → List RunSpec × List (RunSpec × List Problem) → Type 0
Divided host runs parts =
    (parts.0 ≡ keep (is_available host) runs)
    × (map (λ (b : RunSpec × List Problem). b.0) parts.1
        ≡ keep (λ run. not (is_available host run)) runs)
    × All (λ (b : RunSpec × List Problem). b.1 ≡ unavailable_reasons host b.0) parts.1

keep_at :
    (test : RunSpec → Bool) (run : RunSpec) (runs : List RunSpec) (b : Bool)
    → test run ≡ b
    → (if b then run ∷ keep test runs else keep test runs) ≡ keep test (run ∷ runs)
keep_at test run runs b e = sym (ap (λ a. if a then run ∷ keep test runs else keep test runs) e)

divide-Divided :
    (host : Host) (run : RunSpec) (runs : List RunSpec) (ps : List Problem) (a : Bool)
    (parts : List RunSpec × List (RunSpec × List Problem))
    → ps ≡ unavailable_reasons host run
    → no_problems ps ≡ a
    → is_available host run ≡ a
    → Divided host runs parts
    → Divided host (run ∷ runs) (divide ps run parts)
divide-Divided host run runs [] true (ready, blocked) same e f (r, b, all) = (
  ap (λ (rs : List RunSpec). run ∷ rs) r ∙ keep_at (is_available host) run runs true f,
  b ∙ keep_at (λ r. not (is_available host r)) run runs false (ap not f),
  all,
)
divide-Divided host run runs [] false (ready, blocked) same e f h = cc
divide-Divided host run runs (p ∷ ps) true (ready, blocked) same e f h = cc
divide-Divided host run runs (p ∷ ps) false (ready, blocked) same e f (r, b, all) = (
  r ∙ keep_at (is_available host) run runs false f,
  ap (λ (rs : List RunSpec). run ∷ rs) b
      ∙ keep_at (λ r. not (is_available host r)) run runs true (ap not f),
  (same, all),
)

-- The runs whose tools, proxy and plugins are there are ready and the others are blocked, both in the
-- order in which they were; a blocked run has the reasons for it.
pub split_by_availability_lem :
    (host : Host) (runs : List RunSpec) → Divided host runs (split_by_availability host runs)
unfolding split_by_availability
split_by_availability_lem host [] = (refl, refl, tt)
split_by_availability_lem host (run ∷ runs) =
    divide-Divided host run runs (unavailable_reasons host run) (is_available host run)
      (split_by_availability host runs) refl (no_problems-unavailable_reasons host run) refl
      (split_by_availability_lem host runs)
