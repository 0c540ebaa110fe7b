-- ===== src/Worker.antt =====
-- token_bench/worker.py: the call of the agent (`build_command`), its environment (`build_env`), and how
-- the wait for its end comes out (`run_once`).
pub mod Env
pub mod Tests
use claude_code_token_saving.Base.{
  String, Bool, true, false, not, Option, none, some, List, [], ◌∷◌, ◌++◌, Result, ok, err, ◌>>=◌,
  Dict, lookup, insert, if◌then◌else◌,
}
use claude_code_token_saving.Base.Int.{ℤ, pos, int_beq}
use claude_code_token_saving.JobStore.{Status, succeeded, failed, timeout, cancelled}
use claude_code_token_saving.Conditions.Json.{is_empty}
use claude_code_token_saving.Conditions.{InjectionType, config_ref, plugin_dir, env, Injection}

pub data WorkerError : Type 0 where
  unknown_isolation : String → WorkerError
  no_plugin_dir : String → WorkerError

abbrev pub isolation_modes : Dict (List String)
isolation_modes =
    ("safe-mode", "--safe-mode" ∷ [])
    ∷ ("project-settings", "--setting-sources" ∷ "project" ∷ [])
    ∷ []

abbrev pub or_blank : Option String → String
or_blank none = ""
or_blank (some s) = s

-- The absolute path of a file of the repository, and the plugin's directory, if there is one. The types
-- of injections are the allowed ones.
module _ (absolute : String → String) (resolve_plugin_dir : String → Option String) where
  abbrev pub plugin_arguments : String → Option String → Result WorkerError (List String)
  plugin_arguments path none = err (no_plugin_dir path)
  plugin_arguments path (some dir) = ok ("--plugin-dir" ∷ dir ∷ [])

  abbrev pub arguments_for : InjectionType → Injection → Result WorkerError (List String)
  arguments_for config_ref i = ok ("--settings" ∷ absolute (or_blank i.path) ∷ [])
  arguments_for plugin_dir i =
      plugin_arguments (or_blank i.path) (resolve_plugin_dir (or_blank i.path))
  arguments_for _ i = ok []

  abbrev pub injection_arguments : List Injection → Result WorkerError (List String)
  injection_arguments [] = ok []
  injection_arguments (i ∷ is) = do
    first ← arguments_for i.type i
    rest ← injection_arguments is
    ok (first ++ rest)

  abbrev pub command_with :
      String → List Injection → String → String → List String → Result WorkerError (List String)
  command_with prompt injections claude_bin model mode =
      injection_arguments injections >>= λ arguments. ok (
        claude_bin ∷ "--print" ∷ "--output-format" ∷ "stream-json" ∷ "--verbose" ∷ mode
        ++ ("--permission-mode" ∷ "bypassPermissions" ∷ [])
        ++ (if is_empty model then [] else "--model" ∷ model ∷ [])
        ++ arguments
        ++ (prompt ∷ []))

  unfoldable pub build_command :
      String
      → List Injection
      → (isolation claude_bin model : String) → Result WorkerError (List String)
  build_command prompt injections isolation claude_bin model =
      elim (lookup isolation isolation_modes) [
        | none ↦ err (unknown_isolation isolation)
        | some mode ↦ command_with prompt injections claude_bin model mode
      ]

abbrev pub add_env : InjectionType → Injection → Dict String → Dict String
add_env env i vars = insert (or_blank i.name) (or_blank i.value) vars
add_env _ i vars = vars

unfoldable pub build_env : List Injection → Dict String → Dict String
build_env [] vars = vars
build_env (i ∷ is) vars = build_env is (add_env i.type i vars)

-- What one round of the wait finds: the process has ended, or runs on, and then whether the event is set
-- and whether the deadline has come.
pub data Poll : Type 0 where
  ended : (returncode : ℤ) → Poll
  running : (is_cancelled is_late : Bool) → Poll

abbrev pub exit_status : ℤ → Status
exit_status returncode = if int_beq returncode (pos 0) then succeeded else failed

-- The loop of `run_once`; `none` if the rounds end first.
unfoldable pub wait : List Poll → Option Status
wait [] = none
wait (ended returncode ∷ polls) = some (exit_status returncode)
wait (running is_cancelled is_late ∷ polls) =
    let more = wait polls in
    if is_cancelled then some cancelled else if is_late then some timeout else more
