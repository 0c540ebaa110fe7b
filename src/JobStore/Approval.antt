-- ===== src/JobStore/Approval.antt =====
-- From `approve` of token_bench/authorization.py to `enqueue` of token_bench/job_store.py.
use claude_code_token_saving.Base.{
  String, ◌≡◌, refl, Result, ok, Bool-cases, ◌==◌, ==_sound, string_eq, inl, inr,
}
use mathlib.Core.Path.{subst}
use claude_code_token_saving.Authorization.{
  EstimatePlan, ApprovalRecord, AuthorizationError, approve,
}
use claude_code_token_saving.JobStore.Database.{Store, transaction, enqueue_body, enqueue}
use claude_code_token_saving.JobStore.Enqueue.{Approves, approved_body}

ok_inj :
    {a b : ApprovalRecord} → Path (Result AuthorizationError ApprovalRecord) (ok a) (ok b) → a ≡ b
ok_inj e = cc

approved :
    (now : String) (plan : EstimatePlan) (digest : String) {a : ApprovalRecord}
    → approve now plan digest ≡ ok a
    → (digest ≡ plan.digest) × Approves plan a
unfolding approve
approved now plan digest e = elim (Bool-cases (digest == plan.digest)) [
  | inr other ↦ let odd = rw other at e in cc
  | inl same ↦
      let made = rw same at e in
      (==_sound digest plan.digest same, subst (Approves plan) (ok_inj made) (refl, refl))
]

-- An approval is given only for the digest of the plan itself, and a plan that is submitted with
-- the approval that was given for it passes the tests of the submission.
pub approval_enqueues :
    (now later : String) (plan : EstimatePlan) (digest : String) (s : Store) {a : ApprovalRecord}
    → approve now plan digest ≡ ok a
    → (digest ≡ plan.digest) × (enqueue later plan a s ≡ transaction (enqueue_body later plan) s)
approval_enqueues now later plan digest s {a = a} e =
    let (same, approves) = approved now plan digest e in
    (same, approved_body later plan a approves s)
