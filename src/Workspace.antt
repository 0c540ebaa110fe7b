-- ===== src/Workspace.antt =====
-- token_bench/workspace.py: the reading of a run's snapshot (`load_run_snapshot`). Bytes are texts.
pub mod Bound
pub mod Prepare
pub mod Runs
pub mod Reload
pub mod Tests
use claude_code_token_saving.Base.{
  String, Bool, true, false, not, ◌&&◌, Option, none, some, List, [], ◌∷◌, Result, ok, err, ◌>>=◌,
  Dict, lookup, ◌==◌, string_eq, if◌then◌else◌,
}
use Prim.Native.String.{◌++◌ as ◌⧺◌}
use claude_code_token_saving.Conditions.{RunSpec}
use claude_code_token_saving.Conditions.Json.{
  Json, text, array, object, field, end, elements, entries_from, is_empty,
}
use claude_code_token_saving.Conditions.Declarations.{ConditionError, is_schema}
use claude_code_token_saving.Conditions.RunSpecs.{run_spec_from_dict}

-- `WorkspaceError`; `bad_snapshot` is also what the other exceptions become.
pub data WorkspaceError : Type 0 where
  no_snapshot bad_schema bad_snapshot bad_asset_path asset_differs content_id_differs :
      WorkspaceError

-- The directory of a run: the parsed snapshot and the prompt, if they can be read, the files of
-- workdir with their paths in order, and the bytes of the file that a path leads to, if it is one inside
-- the directory.
pub record RunDir : Type 0 where
  pub document : Option Json
  pub prompt : Option String
  pub workdir : List (String × String)
  pub file_at : String → Option String

-- What `_content_id` is given.
pub record Content : Type 0 where
  pub condition_id : Json
  pub repeat_index : Json
  pub final_prompt : String
  pub fixture_sha256 : String
  pub timeout_seconds : Json
  pub condition : Json
  pub execution_condition : Json
  pub assets : Json

abbrev pub content_json : Content → Json
content_json c = object (
    field "condition_id" c.condition_id (
      field "repeat_index" c.repeat_index (
        field "final_prompt" (text c.final_prompt) (
          field "fixture_sha256" (text c.fixture_sha256) (
            field "timeout_seconds" c.timeout_seconds (
              field "condition" c.condition (
                field "execution_condition" c.execution_condition
                  (field "assets" c.assets end))))))))

-- The bytes that `_sha256_tree` gives to the digest.
abbrev pub tree_bytes : List (String × String) → String
tree_bytes [] = ""
tree_bytes ((path, bytes) ∷ files) = path ⧺ bytes ⧺ tree_bytes files

abbrev pub required : Dict Json → String → Result WorkspaceError Json
required d key = elim (lookup key d) [ none ↦ err bad_snapshot | some x ↦ ok x ]

abbrev pub or_bad {ℓ} : {A : Type ℓ} → Option A → Result WorkspaceError A
or_bad none = err bad_snapshot
or_bad (some x) = ok x

abbrev pub run_or_bad : Result ConditionError RunSpec → Result WorkspaceError RunSpec
run_or_bad (err e) = err bad_snapshot
run_or_bad (ok run) = ok run

-- The values of a list of assets; an item that is no object has no keys.
abbrev pub assets_in : Json → Result WorkspaceError (List Json)
assets_in (array xs) = ok (elements xs)
assets_in (object end) = ok []
assets_in (text s) = if is_empty s then ok [] else err bad_snapshot
assets_in _ = err bad_snapshot

abbrev pub is_hash : String → Json → Bool
is_hash s (text t) = s == t
is_hash s _ = false

abbrev pub is_expected : Option String → String → Bool
is_expected none id = true
is_expected (some expected) id = id == expected

-- `hexdigest` of SHA-256, and `json.dumps` with sorted keys.
module _ (sha256 : String → String) (dumps : Json → String) where
  abbrev pub sha256_tree : List (String × String) → String
  sha256_tree files = sha256 (tree_bytes files)

  abbrev pub content_id : Content → String
  content_id c = sha256 (dumps (content_json c))

  abbrev pub check_file : RunDir → Dict Json → Json → Result WorkspaceError (Unit {0})
  check_file dir asset (text path) = elim (dir.file_at path) [
    | none ↦ err bad_asset_path
    | some bytes ↦ required asset "sha256" >>= λ hash.
        if is_hash (sha256 bytes) hash then ok tt else err asset_differs
  ]
  check_file dir asset path = err bad_snapshot

  abbrev pub check_asset : RunDir → Json → Result WorkspaceError (Unit {0})
  check_asset dir (object fields) =
      let asset = entries_from [] fields in
      required asset "snapshot_path" >>= λ path. check_file dir asset path
  check_asset dir _ = err bad_snapshot

  abbrev pub check_assets : RunDir → List Json → Result WorkspaceError (Unit {0})
  check_assets dir [] = ok tt
  check_assets dir (asset ∷ assets) = check_asset dir asset >>= λ _. check_assets dir assets

  abbrev pub content_of :
      RunDir → Dict Json → (prompt : String) (assets : Json) → Result WorkspaceError Content
  content_of dir d prompt assets = do
    condition_id ← required d "condition_id"
    repeat_index ← required d "repeat_index"
    timeout_seconds ← required d "timeout_seconds"
    condition ← required d "condition"
    execution_condition ← required d "execution_condition"
    ok (record {
      condition_id = condition_id;
      repeat_index = repeat_index;
      final_prompt = prompt;
      fixture_sha256 = sha256_tree dir.workdir;
      timeout_seconds = timeout_seconds;
      condition = condition;
      execution_condition = execution_condition;
      assets = assets;
    })

  abbrev pub accepted : Option String → RunSpec → Content → Json → Result WorkspaceError RunSpec
  accepted expected run content id =
      if is_hash (content_id content) id && is_expected expected (content_id content)
      then ok run
      else err content_id_differs

  unfoldable pub load_document : RunDir → Option String → Dict Json → Result WorkspaceError RunSpec
  unfolding run_spec_from_dict
  load_document dir expected d = do
    execution ← required d "execution_condition"
    run ← run_or_bad (run_spec_from_dict execution)
    prompt ← or_bad dir.prompt
    assets ← required d "assets"
    list ← assets_in assets
    _ ← check_assets dir list
    content ← content_of dir d prompt assets
    id ← required d "content_id"
    accepted expected run content id

  abbrev pub load_parsed : RunDir → Option String → Json → Result WorkspaceError RunSpec
  load_parsed dir expected (object fields) =
      let d = entries_from [] fields in
      let run = load_document dir expected d in
      if is_schema (lookup "schema_version" d) then run else err bad_schema
  load_parsed dir expected _ = err bad_schema

  unfoldable pub load_run_snapshot : RunDir → Option String → Result WorkspaceError RunSpec
  unfolding load_document
  load_run_snapshot dir expected = elim dir.document [
    | none ↦ err no_snapshot
    | some document ↦ load_parsed dir expected document
  ]
