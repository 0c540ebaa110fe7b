-- ===== src/Authorization.antt =====
-- token_bench/authorization.py: the plan of a batch, its digest and the explicit approval.
pub mod Plan
pub mod Digest
pub mod Tests
pub use Plan.*
use claude_code_token_saving.Base.{
  ℕ, String, Option, none, some, List, [], ◌∷◌, map, Result, ok, err, Dict, lookup_or, length, not,
  if◌then◌else◌, ◌==◌, string_eq,
}

-- `AuthorizationError`, by the two tests that raise it
pub data AuthorizationError : Type 0 where
  empty_runs digest_mismatch : AuthorizationError

-- the document that `_digest` prints as JSON with sorted keys and hashes
pub record DigestPayload : Type 0 where
  pub content_ids : List String
  pub auth_method : Option String
  pub api_provider : Option String
  pub timeout_seconds : ℕ
  pub isolation : String
  pub model : String
  pub tool_fingerprints : List (List Fingerprint)

abbrev pub auth_field : (AuthStatus → Option String) → Option AuthStatus → Option String
auth_field get none = none
auth_field get (some a) = get a

unfoldable pub planned_run : Dict (List Fingerprint) → RunWorkspace → PlannedRun
planned_run fingerprints ws = record {
  run_id = ws.run_id;
  condition_id = ws.condition_id;
  repeat_index = ws.repeat_index;
  content_id = ws.content_id;
  workdir = ws.workdir;
  snapshot_path = ws.snapshot_path;
  tool_fingerprints = lookup_or ws.run_id [] fingerprints;
}

unfoldable pub digest_payload :
    List PlannedRun → Option AuthStatus → ℕ → String → String → DigestPayload
digest_payload runs auth timeout_seconds isolation model = record {
  content_ids = map (λ r. r.content_id) runs;
  auth_method = auth_field (λ a. a.auth_method) auth;
  api_provider = auth_field (λ a. a.api_provider) auth;
  timeout_seconds = timeout_seconds;
  isolation = isolation;
  model = model;
  tool_fingerprints = map (λ r. r.tool_fingerprints) runs;
}

-- SHA-256 of the JSON print is outside the repository: a function of the document.
module _ (sha256_json : DigestPayload → String) (cost_disclaimer : String) where
  unfoldable pub build_estimate :
      List RunWorkspace
      → (batch_id : String) (timeout_seconds : ℕ) (auth : Option AuthStatus) (isolation : String)
        (fingerprints : Dict (List Fingerprint)) (model : String)
      → Result AuthorizationError EstimatePlan
  unfolding planned_run digest_payload
  build_estimate [] batch_id timeout_seconds auth isolation fingerprints model = err empty_runs
  build_estimate (ws ∷ rest) batch_id timeout_seconds auth isolation fingerprints model =
      let runs = map (planned_run fingerprints) (ws ∷ rest) in
      ok (record {
        digest = sha256_json (digest_payload runs auth timeout_seconds isolation model);
        batch_id = batch_id;
        run_count = length runs;
        runs = runs;
        timeout_seconds = timeout_seconds;
        isolation = isolation;
        auth = auth;
        cost_disclaimer = cost_disclaimer;
        model = model;
      })

unfoldable pub approve :
    (now : String) (plan : EstimatePlan) → String → Result AuthorizationError ApprovalRecord
approve now plan confirmed_digest =
    if not (confirmed_digest == plan.digest)
    then err digest_mismatch
    else ok (record { digest = plan.digest; approved_at = now; plan = plan })
