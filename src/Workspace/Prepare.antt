-- ===== src/Workspace/Prepare.antt =====
-- token_bench/workspace.py: the preparation of runs (`prepare_run`, `prepare_batch`).
use claude_code_token_saving.Base.{
  ℕ, ◌+◌, String, Bool, true, false, not, ◌&&◌, Option, none, some, List, [], ◌∷◌, Result, ok, err,
  ◌>>=◌, Dict, lookup, if◌then◌else◌,
}
use Prim.Native.String.{◌++◌ as ◌⧺◌}
use claude_code_token_saving.Base.Int.{ℤ, pos}
use claude_code_token_saving.Conditions.{
  InjectionType, prompt_overlay, config_ref, Injection, RunSpec,
}
use claude_code_token_saving.Conditions.Json.{
  Json, text, object, Elements, last, element, field, end, is_empty,
}
use claude_code_token_saving.Conditions.RunSpecs.{type_text}

-- `WorkspaceError` of the preparation.
pub data PrepareError : Type 0 where
  preset_and_path : PrepareError
  unknown_preset : String → PrepareError
  bad_timeout no_prompt no_fixture outside_runs_root run_dir_exists : PrepareError
  no_file : InjectionType → PrepareError

abbrev pub prompt_presets : Dict String
prompt_presets =
    ("small", "benchmark/prompts/master.md")
    ∷ ("large", "benchmark/prompts/preset-large.md")
    ∷ ("very-large", "benchmark/prompts/preset-very-large.md")
    ∷ []

abbrev pub is_given : Option String → Bool
is_given none = false
is_given (some s) = not (is_empty s)

abbrev pub named_preset : Option String → Result PrepareError String
named_preset none = err (unknown_preset "")
named_preset (some preset) = elim (lookup preset prompt_presets) [
  | none ↦ err (unknown_preset preset)
  | some path ↦ ok path
]

abbrev pub path_or_default : Option String → String
path_or_default none = "benchmark/prompts/master.md"
path_or_default (some path) = path

-- A path is never falsy.
abbrev pub is_some_path : Option String → Bool
is_some_path none = false
is_some_path (some path) = true

abbrev pub resolve_prompt_path : (preset prompt_path : Option String) → Result PrepareError String
resolve_prompt_path preset prompt_path =
    if is_given preset && is_some_path prompt_path
    then err preset_and_path
    else if is_given preset
    then named_preset preset
    else ok (path_or_default prompt_path)

-- The repository: the bytes of a file, the files of a directory with their paths in order, whether the
-- directory of a run leads out of the root and whether it is there, and Python's texts: `rstrip`,
-- `strip`, the last part of a path and `str` of a number.
pub record Repository : Type 0 where
  pub file : String → Option String
  pub directory : String → Option (List (String × String))
  pub leads_out : String → Bool
  pub exists : String → Bool
  pub rstrip : String → String
  pub strip : String → String
  pub name_of : String → String
  pub str_int : ℤ → String
  pub sha256 : String → String
  pub dumps : Json → String

-- A file of an injection without a path, which the reading of conditions refuses, is not there.
abbrev pub file_of : Repository → Injection → Option String
file_of repo i = elim i.path [ none ↦ none | some path ↦ repo.file path ]

abbrev pub is_overlay : InjectionType → Bool
is_overlay prompt_overlay = true
is_overlay _ = false

abbrev pub is_asset : InjectionType → Bool
is_asset prompt_overlay = true
is_asset config_ref = true
is_asset _ = false

abbrev pub with_overlay : Repository → String → Option String → Result PrepareError String
with_overlay repo prompt none = err (no_file prompt_overlay)
with_overlay repo prompt (some overlay) =
    ok (repo.rstrip prompt ⧺ "\n\n" ⧺ repo.strip overlay ⧺ "\n")

-- the loop of `build_final_prompt`
unfoldable pub prompt_from : Repository → String → List Injection → Result PrepareError String
prompt_from repo prompt [] = ok prompt
prompt_from repo prompt (i ∷ is) =
    let skip = prompt_from repo prompt is in
    let add = with_overlay repo prompt (file_of repo i) >>= λ p. prompt_from repo p is in
    if is_overlay i.type then add else skip

unfoldable pub build_final_prompt : Repository → String → RunSpec → Result PrepareError String
unfolding prompt_from
build_final_prompt repo task_prompt run = prompt_from repo task_prompt run.injections

abbrev pub path_text : Injection → String
path_text i = elim i.path [ none ↦ "" | some path ↦ path ]

abbrev pub asset_target : Repository → ℕ → Injection → String
asset_target repo index i = "assets/" ⧺ repo.str_int (pos index) ⧺ "-" ⧺ repo.name_of (path_text i)

abbrev pub asset_json : Repository → ℕ → Injection → String → Json
asset_json repo index i bytes = object (
    field "type" (text (type_text i.type)) (
      field "source_path" (text (path_text i)) (
        field "sha256" (text (repo.sha256 bytes))
          (field "snapshot_path" (text (asset_target repo index i)) end))))

-- The injections of the run as it is executed, the list of assets, and the copies by their targets.
pub record Assets : Type 0 where
  pub injections : List Injection
  pub assets : Elements
  pub copies : Dict String

abbrev pub kept : Injection → Assets → Assets
kept i rest = record rest { injections = i ∷ rest.injections }

abbrev pub copied : Repository → ℕ → Injection → String → Assets → Assets
copied repo index i bytes rest = record {
  injections = record i { path = some (asset_target repo index i) } ∷ rest.injections;
  assets = element (asset_json repo index i bytes) rest.assets;
  copies = (asset_target repo index i, bytes) ∷ rest.copies;
}

unfoldable pub assets_from : Repository → ℕ → List Injection → Result PrepareError Assets
assets_from repo index [] = ok (record { injections = []; assets = last; copies = [] })
assets_from repo index (i ∷ is) =
    let more = assets_from repo (index + 1) is in
    let keep_it = more >>= λ rest. ok (kept i rest) in
    let copy_it = elim (file_of repo i) as (λ _. Result PrepareError Assets) [
      | none ↦ err (no_file i.type)
      | some bytes ↦ more >>= λ rest. ok (copied repo index i bytes rest)
    ] in
    if is_asset i.type then copy_it else keep_it
