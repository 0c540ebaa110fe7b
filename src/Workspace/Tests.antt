-- ===== src/Workspace/Tests.antt =====
-- A snapshot that token_bench/workspace.py accepts, and one whose asset has changed.
use claude_code_token_saving.Base.{String, false, ◌≡◌, refl, none, some, [], ◌∷◌, lookup, ok, err}
use Prim.Native.String.{◌++◌ as ◌⧺◌}
use claude_code_token_saving.Base.Int.{pos}
use claude_code_token_saving.Conditions.{RunSpec, run_of, prompt_overlay}
use claude_code_token_saving.Conditions.Json.{
  Json, int, text, array, object, element, last, field, end,
}
use claude_code_token_saving.Conditions.Fields.{all_characters, is_name}
use claude_code_token_saving.Conditions.RunSpecs.{run_spec_to_dict, run_spec_from_dict}
use claude_code_token_saving.Workspace.{
  RunDir, content_id_differs, asset_differs, load_document, load_run_snapshot,
}
use claude_code_token_saving.Workspace.Prepare.{
  Repository, build_final_prompt, prompt_from, assets_from,
}
use claude_code_token_saving.Workspace.Runs.{Batch, Prepared, prepared, prepare_run}
use claude_code_token_saving.Workspace.Reload.{dir_of, load_run_snapshot-prepare_run}
use claude_code_token_saving.Conditions.RunSpecs.Tests.{declared, headroom, headroom_accepted}
use claude_code_token_saving.Conditions.Parsing.{blank}

abbrev sha256 : String → String
sha256 s = "h" ⧺ s

abbrev dumps : Json → String
dumps document = "{}"

abbrev execution : Json
execution = object (
    field "condition_id" (text "base")
      (field "repeat_total" (int (pos 1)) (field "repeat_index" (int (pos 1)) end)))

abbrev asset : Json
asset = object (field "snapshot_path" (text "assets/0-a.md") (field "sha256" (text "hterse") end))

abbrev document : Json
document = object (
    field "schema_version" (int (pos 1)) (
      field "content_id" (text "h{}") (
        field "condition_id" (text "base") (
          field "repeat_index" (int (pos 1)) (
            field "timeout_seconds" (int (pos 900)) (
              field "condition" execution (
                field "execution_condition" execution
                  (field "assets" (array (element asset last)) end))))))))

abbrev run_dir : String → RunDir
run_dir bytes = record {
  document = some document;
  prompt = some "do it";
  workdir = ("a.py", "x = 1") ∷ [];
  file_at = λ path. lookup path (("assets/0-a.md", bytes) ∷ []);
}

abbrev run : RunSpec
run = record {
  condition_id = "base";
  repeat_index = pos 1;
  repeat_total = 1;
  requires_tools = [];
  injections = [];
  tool_probes = [];
  repository_url = none;
}

loaded : load_run_snapshot sha256 dumps (run_dir "terse") (some "h{}") ≡ ok run
unfolding load_run_snapshot load_document run_spec_from_dict all_characters is_name
loaded = refl

other_id : load_run_snapshot sha256 dumps (run_dir "terse") (some "h[]") ≡ err content_id_differs
unfolding load_run_snapshot load_document run_spec_from_dict all_characters is_name
other_id = refl

changed_asset : load_run_snapshot sha256 dumps (run_dir "long") none ≡ err asset_differs
unfolding load_run_snapshot load_document run_spec_from_dict all_characters is_name
changed_asset = refl

-- A run whose condition was read from a document, prepared and read back.
abbrev repository : Repository
repository = record {
  file = λ path. some "do it";
  directory = λ path. some (("a.py", "x = 1") ∷ []);
  leads_out = λ path. false;
  exists = λ path. false;
  rstrip = λ s. s;
  strip = λ s. s;
  name_of = λ s. s;
  str_int = λ n. "1";
  sha256 = sha256;
  dumps = dumps;
}

abbrev batch : Batch
batch = record {
  batch_id = "b1";
  timeout_seconds = pos 900;
  task_prompt_path = "benchmark/prompts/master.md";
  fixture_path = "benchmark/fixture";
  runs_root = ".token-bench/runs";
}

abbrev headroom_run : Prepared
headroom_run =
    prepared repository batch (run_of headroom 1) "do it" "do it" (("a.py", "x = 1") ∷ [])
      (record { injections = headroom.injections; assets = last; copies = [] })

headroom_prepared : prepare_run repository batch (run_of headroom 1) ≡ ok headroom_run
unfolding prepare_run build_final_prompt prompt_from assets_from run_spec_to_dict
headroom_prepared = refl

headroom_id : headroom_run.run_id ≡ "b1-headroom__r1"
headroom_id = refl

load_run_snapshot-prepare_run_example :
    load_run_snapshot sha256 dumps (dir_of headroom_run) (some headroom_run.content_id)
    ≡ ok (run_of headroom 1)
load_run_snapshot-prepare_run_example =
    load_run_snapshot-prepare_run declared 1 repository batch headroom_run headroom_accepted
      (refl, tt) headroom_prepared

overlay :
    build_final_prompt repository "do it" (record run {
      injections = record (blank prompt_overlay) { path = some "prompts/terse.md" } ∷ [];
    })
    ≡ ok "do it\n\ndo it\n"
unfolding build_final_prompt prompt_from
overlay = refl
