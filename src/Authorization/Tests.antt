-- ===== src/Authorization/Tests.antt =====
-- Runs of token_bench/authorization.py on one workspace.
use claude_code_token_saving.Base.{String, ◌≡◌, refl, none, [], ◌∷◌, ok}
use claude_code_token_saving.Authorization.{
  RunWorkspace, EstimatePlan, DigestPayload, planned_run, digest_payload, build_estimate,
}
use claude_code_token_saving.Authorization.Digest.{
  SameMeasurement, payload_of, build_estimate-binds,
}

abbrev workspace : String → RunWorkspace
workspace run_id = record {
  run_id = run_id;
  content_id = "c1";
  condition_id = "base";
  repeat_index = 1;
  workdir = "/runs/work";
  snapshot_path = "/runs/snapshot.json";
}

-- stands for the hash
abbrev hash : DigestPayload → String
hash d = d.model

abbrev plan : String → EstimatePlan
plan batch_id = record {
  digest = "opus";
  batch_id = batch_id;
  run_count = 1;
  runs =
      record {
        run_id = batch_id;
        condition_id = "base";
        repeat_index = 1;
        content_id = "c1";
        workdir = "/runs/work";
        snapshot_path = "/runs/snapshot.json";
        tool_fingerprints = [];
      }
      ∷ [];
  timeout_seconds = 900;
  isolation = "safe-mode";
  auth = none;
  cost_disclaimer = "";
  model = "opus";
}

estimated :
    (batch_id : String)
    → build_estimate hash "" (workspace batch_id ∷ []) batch_id 900 none "safe-mode" [] "opus"
      ≡ ok (plan batch_id)
unfolding build_estimate planned_run digest_payload
estimated batch_id = refl

same_payload : payload_of (plan "b1") ≡ payload_of (plan "b2")
unfolding digest_payload
same_payload = refl

build_estimate-binds_example : SameMeasurement (plan "b1") (plan "b2")
build_estimate-binds_example =
    build_estimate-binds hash "" (workspace "b1" ∷ []) (workspace "b2" ∷ []) "b1" "b2" 900 900 none
      none "safe-mode" "safe-mode" [] [] "opus" "opus" (estimated "b1") (estimated "b2")
      (λ _. same_payload) refl
