-- ===== src/Worker/Tests.antt =====
-- Calls of the agent in token_bench/worker.py.
use claude_code_token_saving.Base.{
  String, ◌≡◌, refl, true, false, none, some, List, [], ◌∷◌, All, ok, err, Dict, lookup,
}
use claude_code_token_saving.Base.Int.{pos}
use claude_code_token_saving.JobStore.{timeout}
use claude_code_token_saving.Conditions.{config_ref, env, Injection}
use claude_code_token_saving.Conditions.Parsing.{blank}
use claude_code_token_saving.Conditions.Paths.{
  is_reserved, starts_with, is_repo_relative, has_parent,
}
use claude_code_token_saving.Worker.{
  unknown_isolation, ended, running, build_command, build_env, wait,
}
use claude_code_token_saving.Worker.Env.{IsHarmless, build_env-keeps}

abbrev injections : List Injection
injections =
    record (blank config_ref) { path = some "settings/rtk.json" }
    ∷ record (blank env) { name = some "RTK_MODE"; value = some "on" }
    ∷ []

command :
    build_command
      (λ path. path)
      (λ path. none)
      "do it"
      injections
      "project-settings"
      "claude"
      "opus"
    ≡ ok (
        "claude" ∷ "--print" ∷ "--output-format" ∷ "stream-json" ∷ "--verbose" ∷ "--setting-sources"
        ∷ "project" ∷ "--permission-mode" ∷ "bypassPermissions" ∷ "--model" ∷ "opus" ∷ "--settings"
        ∷ "settings/rtk.json" ∷ "do it" ∷ [])
unfolding build_command
command = refl

no_mode :
    build_command (λ path. path) (λ path. none) "do it" [] "none" "claude" ""
    ≡ err (unknown_isolation "none")
unfolding build_command
no_mode = refl

late : wait (running false false ∷ running false true ∷ ended (pos 0) ∷ []) ≡ some timeout
unfolding wait
late = refl

abbrev base_env : Dict String
base_env = ("ANTHROPIC_API_KEY", "k") ∷ []

reserved_key : is_reserved "ANTHROPIC_API_KEY" ≡ true
unfolding is_reserved
reserved_key = refl

injections-IsHarmless : All IsHarmless injections
unfolding is_reserved starts_with is_repo_relative has_parent
injections-IsHarmless = (refl, (refl, tt))

build_env-keeps_example :
    lookup "ANTHROPIC_API_KEY" (build_env injections base_env) ≡ lookup "ANTHROPIC_API_KEY" base_env
build_env-keeps_example =
    build_env-keeps injections base_env "ANTHROPIC_API_KEY" injections-IsHarmless reserved_key
