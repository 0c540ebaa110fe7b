-- ===== src/Authorization/Digest.antt =====
-- What a digest of token_bench/authorization.py binds.
use claude_code_token_saving.Base.{
  ℕ, String, ◌≡◌, refl, sym, ap, ◌∙◌, Option, List, [], ◌∷◌, map, Result, ok, Dict,
}
use mathlib.Core.Path.{subst}
use claude_code_token_saving.Authorization.{
  Fingerprint, AuthStatus, RunWorkspace, PlannedRun, EstimatePlan, AuthorizationError,
  DigestPayload, auth_field, digest_payload, build_estimate,
}

-- The parts of a plan that are measured.
pub record SameMeasurement (p q : EstimatePlan) : Type 0 where
  pub content_ids :
      map (λ (r : PlannedRun). r.content_id) p.runs ≡ map (λ (r : PlannedRun). r.content_id) q.runs
  pub tool_fingerprints :
      map (λ (r : PlannedRun). r.tool_fingerprints) p.runs
      ≡ map (λ (r : PlannedRun). r.tool_fingerprints) q.runs
  pub timeout_seconds : p.timeout_seconds ≡ q.timeout_seconds
  pub isolation : p.isolation ≡ q.isolation
  pub model : p.model ≡ q.model
  pub auth_method : auth_field (λ a. a.auth_method) p.auth ≡ auth_field (λ a. a.auth_method) q.auth
  pub api_provider :
      auth_field (λ a. a.api_provider) p.auth ≡ auth_field (λ a. a.api_provider) q.auth

-- the document of a plan's digest
abbrev pub payload_of : EstimatePlan → DigestPayload
payload_of p = digest_payload p.runs p.auth p.timeout_seconds p.isolation p.model

ok_inj : {p q : EstimatePlan} → Path (Result AuthorizationError EstimatePlan) (ok p) (ok q) → p ≡ q
ok_inj e = cc

module _ (sha256_json : DigestPayload → String) (cost_disclaimer : String) where
  digest_of :
      (workspaces : List RunWorkspace) (batch_id : String) (timeout_seconds : ℕ)
      (auth : Option AuthStatus) (isolation : String) (fingerprints : Dict (List Fingerprint))
      (model : String) {p : EstimatePlan}
      → build_estimate sha256_json cost_disclaimer workspaces batch_id timeout_seconds auth
          isolation fingerprints model
        ≡ ok p
      → p.digest ≡ sha256_json (payload_of p)
  unfolding build_estimate
  digest_of [] batch_id timeout_seconds auth isolation fingerprints model e = cc
  digest_of (ws ∷ rest) batch_id timeout_seconds auth isolation fingerprints model e =
      subst (λ (q : EstimatePlan). q.digest ≡ sha256_json (payload_of q)) (ok_inj e) refl

-- Two plans with one digest measure the same: the contents of their runs, the fingerprints of the
-- tools, the time limit, the isolation, the model and the way of authentication agree, if SHA-256
-- does not give one hash to two different documents of theirs.
pub build_estimate-binds :
    (sha256_json : DigestPayload → String) (cost_disclaimer : String)
    (workspaces others : List RunWorkspace) (batch other_batch : String) (timeout other_timeout : ℕ)
    (auth other_auth : Option AuthStatus) (isolation other_isolation : String)
    (fingerprints other_fingerprints : Dict (List Fingerprint)) (model other_model : String)
    {p q : EstimatePlan}
    → build_estimate sha256_json cost_disclaimer workspaces batch timeout auth isolation
        fingerprints model
      ≡ ok p
    → build_estimate sha256_json cost_disclaimer others other_batch other_timeout other_auth
        other_isolation other_fingerprints other_model
      ≡ ok q
    → (sha256_json (payload_of p) ≡ sha256_json (payload_of q) → payload_of p ≡ payload_of q)
    → p.digest ≡ q.digest
    → SameMeasurement p q
unfolding digest_payload
build_estimate-binds sha cost ws vs b c t u a d i j f g m n made made_too no_collision same =
    let e = no_collision (
      sym (digest_of sha cost ws b t a i f m made)
      ∙ same
      ∙ digest_of sha cost vs c u d j g n made_too) in
    record {
      content_ids = ap (λ (x : DigestPayload). x.content_ids) e;
      tool_fingerprints = ap (λ (x : DigestPayload). x.tool_fingerprints) e;
      timeout_seconds = ap (λ (x : DigestPayload). x.timeout_seconds) e;
      isolation = ap (λ (x : DigestPayload). x.isolation) e;
      model = ap (λ (x : DigestPayload). x.model) e;
      auth_method = ap (λ (x : DigestPayload). x.auth_method) e;
      api_provider = ap (λ (x : DigestPayload). x.api_provider) e;
    }
