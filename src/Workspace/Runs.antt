-- ===== src/Workspace/Runs.antt =====
-- token_bench/workspace.py: the directory of a run (`prepare_run`) and those of a batch (`prepare_batch`).
use claude_code_token_saving.Base.{
  zero, suc, String, Bool, true, false, not, Option, none, some, List, [], ◌∷◌, Result, ok, err,
  ◌>>=◌, Dict, if◌then◌else◌,
}
use Prim.Native.String.{◌++◌ as ◌⧺◌}
use claude_code_token_saving.Base.Int.{ℤ, pos, negsuc}
use claude_code_token_saving.Conditions.{RunSpec}
use claude_code_token_saving.Conditions.Json.{Json, text, int, array, object, field, end}
use claude_code_token_saving.Conditions.RunSpecs.{run_spec_to_dict}
use claude_code_token_saving.Workspace.{Content, sha256_tree, content_id}
use claude_code_token_saving.Workspace.Prepare.{
  PrepareError, bad_timeout, no_prompt, no_fixture, outside_runs_root, run_dir_exists, Repository,
  Assets, build_final_prompt, assets_from,
}

-- The `RunWorkspace`, and what is written: snapshot.json, prompt.md, the fixture's files in workdir, and
-- the copies by their targets.
pub record Prepared : Type 0 where
  pub run_id : String
  pub content_id : String
  pub condition_id : String
  pub repeat_index : ℤ
  pub workdir : String
  pub snapshot_path : String
  pub snapshot : Json
  pub prompt : String
  pub fixture : List (String × String)
  pub copies : Dict String

abbrev pub is_positive : ℤ → Bool
is_positive (pos zero) = false
is_positive (pos (suc n)) = true
is_positive (negsuc n) = false

abbrev pub or_error {ℓ} : {A : Type ℓ} → PrepareError → Option A → Result PrepareError A
or_error e none = err e
or_error e (some x) = ok x

abbrev pub unless : Bool → PrepareError → Result PrepareError (Unit {0})
unless bad e = if bad then err e else ok tt

-- `batch_id`, `runs_root`, and the two paths; the prompt and the fixture are read under the root.
pub record Batch : Type 0 where
  pub batch_id : String
  pub timeout_seconds : ℤ
  pub task_prompt_path : String
  pub fixture_path : String
  pub runs_root : String

abbrev pub run_dir_name : Repository → RunSpec → String
run_dir_name repo run = run.condition_id ⧺ "__r" ⧺ repo.str_int run.repeat_index

abbrev pub run_dir_path : Repository → Batch → RunSpec → String
run_dir_path repo batch run = batch.runs_root ⧺ "/" ⧺ batch.batch_id ⧺ "/" ⧺ run_dir_name repo run

abbrev pub prepared_content :
    Repository → Batch → RunSpec → RunSpec → Assets → (prompt fixture_hash : String) → Content
prepared_content repo batch run execution assets prompt fixture_hash = record {
  condition_id = text run.condition_id;
  repeat_index = int run.repeat_index;
  final_prompt = prompt;
  fixture_sha256 = fixture_hash;
  timeout_seconds = int batch.timeout_seconds;
  condition = run_spec_to_dict run;
  execution_condition = run_spec_to_dict execution;
  assets = array assets.assets;
}

abbrev pub snapshot_json :
    Repository → Batch → RunSpec → Content → (run_id content_id task_prompt : String) → Json
snapshot_json repo batch run c run_id content_id task_prompt = object (
    field "schema_version" (int (pos 1)) (
      field "run_id" (text run_id) (
        field "content_id" (text content_id) (
          field "condition_id" c.condition_id (
            field "repeat_index" c.repeat_index (
              field "repeat_total" (int (pos run.repeat_total)) (
                field "timeout_seconds" c.timeout_seconds (
                  field "task_prompt_path" (text batch.task_prompt_path) (
                    field "task_prompt_sha256" (text (repo.sha256 task_prompt)) (
                      field "final_prompt_sha256" (text (repo.sha256 c.final_prompt)) (
                        field "fixture_path" (text batch.fixture_path) (
                          field "fixture_sha256" (text c.fixture_sha256) (
                            field "condition" c.condition (
                              field "execution_condition" c.execution_condition
                                (field "assets" c.assets end)))))))))))))))

abbrev pub prepared :
    Repository
    → Batch
    → RunSpec
    → (task_prompt prompt : String) → List (String × String)
    → Assets
    → Prepared
prepared repo batch run task_prompt prompt fixture assets =
    let execution = record run { injections = assets.injections } in
    let c =
      prepared_content repo batch run execution assets prompt
        (sha256_tree repo.sha256 repo.dumps fixture) in
    let id = content_id repo.sha256 repo.dumps c in
    let run_id = batch.batch_id ⧺ "-" ⧺ run_dir_name repo run in
    let run_dir = run_dir_path repo batch run in
    record {
      run_id = run_id;
      content_id = id;
      condition_id = run.condition_id;
      repeat_index = run.repeat_index;
      workdir = run_dir ⧺ "/workdir";
      snapshot_path = run_dir ⧺ "/snapshot.json";
      snapshot = snapshot_json repo batch run c run_id id task_prompt;
      prompt = prompt;
      fixture = fixture;
      copies = assets.copies;
    }

unfoldable pub prepare_run : Repository → Batch → RunSpec → Result PrepareError Prepared
unfolding build_final_prompt assets_from run_spec_to_dict
prepare_run repo batch run = do
  _ ← unless (not (is_positive batch.timeout_seconds)) bad_timeout
  task_prompt ← or_error no_prompt (repo.file batch.task_prompt_path)
  fixture ← or_error no_fixture (repo.directory batch.fixture_path)
  prompt ← build_final_prompt repo task_prompt run
  _ ← unless (repo.leads_out (run_dir_path repo batch run)) outside_runs_root
  _ ← unless (repo.exists (run_dir_path repo batch run)) run_dir_exists
  assets ← assets_from repo 0 run.injections
  ok (prepared repo batch run task_prompt prompt fixture assets)

-- Runs whose directories are made one after the other; the repository is what it is for each.
unfoldable pub prepare_batch :
    List (Repository × RunSpec) → Batch → Result PrepareError (List Prepared)
unfolding prepare_run
prepare_batch [] batch = ok []
prepare_batch ((repo, run) ∷ runs) batch = do
  first ← prepare_run repo batch run
  rest ← prepare_batch runs batch
  ok (first ∷ rest)
