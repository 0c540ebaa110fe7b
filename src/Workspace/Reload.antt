-- ===== src/Workspace/Reload.antt =====
-- A run that `prepare_run` of token_bench/workspace.py has prepared is read back by `load_run_snapshot`.
use claude_code_token_saving.Base.{
  ℕ, ◌+◌, String, false, not, ◌≡◌, refl, some, List, [], ◌∷◌, All, Result, ok, err, ◌>>=◌, if_bind,
  lookup, string_eq, ==_refl,
}
use mathlib.Core.Path.{subst}
use claude_code_token_saving.Conditions.{Injection, Condition, RunSpec, run_of}
use claude_code_token_saving.Conditions.Json.{Json, last}
use claude_code_token_saving.Conditions.Declarations.{parse_condition}
use claude_code_token_saving.Conditions.RunSpecs.{run_spec_to_dict, run_spec_from_dict}
use claude_code_token_saving.Conditions.RunSpecs.RoundTrip.{run_spec_from_dict-to_dict}
use claude_code_token_saving.Workspace.{RunDir, load_document, load_run_snapshot}
use claude_code_token_saving.Workspace.Prepare.{
  PrepareError, bad_timeout, no_prompt, no_fixture, outside_runs_root, run_dir_exists, Repository,
  Assets, is_asset, assets_from, build_final_prompt,
}
use claude_code_token_saving.Workspace.Runs.{
  Prepared, Batch, unless, or_error, is_positive, run_dir_path, prepared, prepare_run,
}

-- The directory that is left.
abbrev pub dir_of : Prepared → RunDir
dir_of p = record {
  document = some p.snapshot;
  prompt = some p.prompt;
  workdir = p.fixture;
  file_at = λ path. lookup path p.copies;
}

abbrev pub IsNoAsset : Injection → Type 0
IsNoAsset i = is_asset i.type ≡ false

abbrev no_assets : List Injection → Assets
no_assets is = record { injections = is; assets = last; copies = [] }

all_kept :
    (repo : Repository) (index : ℕ) (is : List Injection)
    → All IsNoAsset is
    → assets_from repo index is ≡ ok (no_assets is)
unfolding assets_from
all_kept repo index [] h = refl
all_kept repo index (i ∷ is) h = rw h.0 (rw (all_kept repo (index + 1) is h.1) refl)

module _ (repo : Repository) (batch : Batch) (run : RunSpec) where
  abbrev Reloads : Result PrepareError Prepared → Type 0
  Reloads (err e) = Unit
  Reloads (ok p) = load_run_snapshot repo.sha256 repo.dumps (dir_of p) (some p.content_id) ≡ ok run

  prepared-Reloads :
      (task_prompt prompt : String) (fixture : List (String × String))
      → run_spec_from_dict (run_spec_to_dict run) ≡ ok run
      → Reloads (ok (prepared repo batch run task_prompt prompt fixture (no_assets run.injections)))
  unfolding load_run_snapshot load_document
  prepared-Reloads task_prompt prompt fixture e =
      let p = prepared repo batch run task_prompt prompt fixture (no_assets run.injections) in
      rw e (rw (==_refl p.content_id) refl)

  prepare_run-Reloads :
      All IsNoAsset run.injections
      → run_spec_from_dict (run_spec_to_dict run) ≡ ok run
      → Reloads (prepare_run repo batch run)
  unfolding prepare_run
  prepare_run-Reloads plain e =
      let dir = run_dir_path repo batch run in
      if_bind Reloads (unless (not (is_positive batch.timeout_seconds)) bad_timeout) _ (λ _. tt)
        (λ _ _.
          if_bind Reloads (or_error no_prompt (repo.file batch.task_prompt_path)) _ (λ _. tt)
            (λ task_prompt _.
              if_bind Reloads (or_error no_fixture (repo.directory batch.fixture_path)) _ (λ _. tt)
                (λ fixture _.
                  if_bind Reloads (build_final_prompt repo task_prompt run) _ (λ _. tt)
                    (λ prompt _.
                      if_bind Reloads (unless (repo.leads_out dir) outside_runs_root) _ (λ _. tt)
                        (λ _ _.
                          if_bind Reloads (unless (repo.exists dir) run_dir_exists) _ (λ _. tt)
                            (λ _ _. with_assets task_prompt prompt fixture))))))
    where
      with_assets :
          (task_prompt prompt : String) (fixture : List (String × String))
          → Reloads (
              assets_from repo 0 run.injections >>= λ assets.
              ok (prepared repo batch run task_prompt prompt fixture assets))
      with_assets task_prompt prompt fixture =
          rw (all_kept repo 0 run.injections plain) (prepared-Reloads task_prompt prompt fixture e)

-- What prepare_run leaves of a run of an accepted condition is accepted by load_run_snapshot, with the
-- content id that it returns, as the same run, if no injection of the condition is a file of the repository.
pub load_run_snapshot-prepare_run :
    (raw : Json) {c : Condition} (i : ℕ) (repo : Repository) (batch : Batch) (p : Prepared)
    → parse_condition raw ≡ ok c
    → All IsNoAsset c.injections
    → prepare_run repo batch (run_of c i) ≡ ok p
    → load_run_snapshot repo.sha256 repo.dumps (dir_of p) (some p.content_id) ≡ ok (run_of c i)
load_run_snapshot-prepare_run raw {c} i repo batch p parsed plain made =
    subst (Reloads repo batch (run_of c i)) made
      (prepare_run-Reloads repo batch (run_of c i) plain (run_spec_from_dict-to_dict raw i parsed))
