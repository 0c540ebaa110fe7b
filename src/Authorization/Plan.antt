-- ===== src/Authorization/Plan.antt =====
-- The values of a plan: token_bench/authorization.py (`EstimatePlan`, `ApprovalRecord`),
-- token_bench/workspace.py (`RunWorkspace`), token_bench/claude_code.py (`AuthStatus`) and the
-- dicts of token_bench/tooling.py (`fingerprint_tools`). Their `to_dict` keeps every field, so a
-- record stands for its dict too, and dicts are compared field by field.
use claude_code_token_saving.Base.{
  ℕ, String, ◌≡◌, ◌↔◌, Bool, true, false, ◌&&◌, Option, List, arith, eq_iff, ◌==◌, HasEq, nat_eq,
  string_eq, bool_eq, option_eq, list_eq, bool_beq_iff, option_beq_iff, list_beq_iff,
}

pub data Fingerprint : Type 0 where
  binary : (name path version_output : String) → Fingerprint
  plugin_dir : (path sha256 : String) → Fingerprint

pub record AuthStatus : Type 0 where
  pub logged_in : Bool
  pub auth_method : Option String
  pub api_provider : Option String
  pub subscription_type : Option String

pub record RunWorkspace : Type 0 where
  pub run_id : String
  pub content_id : String
  pub condition_id : String
  pub repeat_index : ℕ
  pub workdir : String
  pub snapshot_path : String

pub record PlannedRun : Type 0 where
  pub run_id : String
  pub condition_id : String
  pub repeat_index : ℕ
  pub content_id : String
  pub workdir : String
  pub snapshot_path : String
  pub tool_fingerprints : List Fingerprint

pub record EstimatePlan : Type 0 where
  pub digest : String
  pub batch_id : String
  pub run_count : ℕ
  pub runs : List PlannedRun
  pub timeout_seconds : ℕ
  pub isolation : String
  pub auth : Option AuthStatus
  pub cost_disclaimer : String
  pub model : String

pub record ApprovalRecord : Type 0 where
  pub digest : String
  pub approved_at : String
  pub plan : EstimatePlan

abbrev pub fingerprint_beq : Fingerprint → Fingerprint → Bool
fingerprint_beq (binary n p v) (binary m q w) = n == m && p == q && v == w
fingerprint_beq (plugin_dir p s) (plugin_dir q t) = p == q && s == t
fingerprint_beq _ _ = false

pub fingerprint_beq_iff : (a b : Fingerprint) → (fingerprint_beq a b ≡ true) ↔ (a ≡ b)
fingerprint_beq_iff (binary n p v) (binary m q w) =
    ground (arith, eq_iff n m, eq_iff p q, eq_iff v w)
fingerprint_beq_iff (binary n p v) (plugin_dir q t) = ground arith
fingerprint_beq_iff (plugin_dir p s) (binary m q w) = ground arith
fingerprint_beq_iff (plugin_dir p s) (plugin_dir q t) = ground (arith, eq_iff p q, eq_iff s t)

instance abbrev pub fingerprint_eq : HasEq Fingerprint
fingerprint_eq = record { same = fingerprint_beq; same_iff = fingerprint_beq_iff }

abbrev pub auth_beq : AuthStatus → AuthStatus → Bool
auth_beq a b =
    a.logged_in == b.logged_in
    && a.auth_method == b.auth_method
    && a.api_provider == b.api_provider
    && a.subscription_type == b.subscription_type

pub auth_beq_iff : (a b : AuthStatus) → (auth_beq a b ≡ true) ↔ (a ≡ b)
auth_beq_iff a b = ground (
  arith,
  bool_beq_iff a.logged_in b.logged_in,
  option_beq_iff a.auth_method b.auth_method,
  option_beq_iff a.api_provider b.api_provider,
  option_beq_iff a.subscription_type b.subscription_type,
)

instance abbrev pub auth_eq : HasEq AuthStatus
auth_eq = record { same = auth_beq; same_iff = auth_beq_iff }

abbrev pub run_beq : PlannedRun → PlannedRun → Bool
run_beq a b =
    a.run_id == b.run_id
    && a.condition_id == b.condition_id
    && a.repeat_index == b.repeat_index
    && a.content_id == b.content_id
    && a.workdir == b.workdir
    && a.snapshot_path == b.snapshot_path
    && a.tool_fingerprints == b.tool_fingerprints

pub run_beq_iff : (a b : PlannedRun) → (run_beq a b ≡ true) ↔ (a ≡ b)
run_beq_iff a b = ground (
  arith,
  eq_iff a.run_id b.run_id,
  eq_iff a.condition_id b.condition_id,
  eq_iff a.content_id b.content_id,
  eq_iff a.workdir b.workdir,
  eq_iff a.snapshot_path b.snapshot_path,
  list_beq_iff a.tool_fingerprints b.tool_fingerprints,
)

instance abbrev pub run_eq : HasEq PlannedRun
run_eq = record { same = run_beq; same_iff = run_beq_iff }

abbrev runs_beq : EstimatePlan → EstimatePlan → Bool
runs_beq a b =
    a.digest == b.digest
    && a.batch_id == b.batch_id
    && a.run_count == b.run_count
    && a.runs == b.runs

abbrev terms_beq : EstimatePlan → EstimatePlan → Bool
terms_beq a b =
    a.timeout_seconds == b.timeout_seconds
    && a.isolation == b.isolation
    && a.auth == b.auth
    && a.cost_disclaimer == b.cost_disclaimer
    && a.model == b.model

abbrev pub plan_beq : EstimatePlan → EstimatePlan → Bool
plan_beq a b = runs_beq a b && terms_beq a b

runs_beq_sound :
    (a b : EstimatePlan)
    → runs_beq a b ≡ true
    → (a.digest ≡ b.digest)
      × (a.batch_id ≡ b.batch_id)
      × (a.run_count ≡ b.run_count)
      × (a.runs ≡ b.runs)
runs_beq_sound a b h = ground (
  arith,
  (eq_iff a.digest b.digest).0,
  (eq_iff a.batch_id b.batch_id).0,
  (list_beq_iff a.runs b.runs).0,
)

terms_beq_sound :
    (a b : EstimatePlan)
    → terms_beq a b ≡ true
    → (a.timeout_seconds ≡ b.timeout_seconds)
      × (a.isolation ≡ b.isolation)
      × (a.auth ≡ b.auth)
      × (a.cost_disclaimer ≡ b.cost_disclaimer)
      × (a.model ≡ b.model)
terms_beq_sound a b h = ground (
  arith,
  (eq_iff a.isolation b.isolation).0,
  (option_beq_iff a.auth b.auth).0,
  (eq_iff a.cost_disclaimer b.cost_disclaimer).0,
  (eq_iff a.model b.model).0,
)

and-eq-true : (b c : Bool) → (b && c) ≡ true → (b ≡ true) × (c ≡ true)
and-eq-true b c h = ground arith

-- one way: a plan equals itself
plan_beq_refl : (a : EstimatePlan) → plan_beq a a ≡ true
plan_beq_refl a = ground (
  arith,
  eq_iff a.digest a.digest,
  eq_iff a.batch_id a.batch_id,
  list_beq_iff a.runs a.runs,
  eq_iff a.isolation a.isolation,
  option_beq_iff a.auth a.auth,
  eq_iff a.cost_disclaimer a.cost_disclaimer,
  eq_iff a.model a.model,
)

plan_beq_sound : (a b : EstimatePlan) → plan_beq a b ≡ true → a ≡ b
plan_beq_sound a b h =
    let (same_runs, same_terms) = and-eq-true (runs_beq a b) (terms_beq a b) h in
    let (d, i, n, r) = runs_beq_sound a b same_runs in
    let (t, o, u, c, m) = terms_beq_sound a b same_terms in
    λ k. record {
      digest = d k;
      batch_id = i k;
      run_count = n k;
      runs = r k;
      timeout_seconds = t k;
      isolation = o k;
      auth = u k;
      cost_disclaimer = c k;
      model = m k;
    }

pub plan_beq_iff : (a b : EstimatePlan) → (plan_beq a b ≡ true) ↔ (a ≡ b)
plan_beq_iff a b = (plan_beq_sound a b, λ e. rw e (plan_beq_refl b))

instance abbrev pub plan_eq : HasEq EstimatePlan
plan_eq = record { same = plan_beq; same_iff = plan_beq_iff }
