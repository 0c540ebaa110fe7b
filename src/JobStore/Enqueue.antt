-- ===== src/JobStore/Enqueue.antt =====
-- `enqueue` of token_bench/job_store.py: an approval is used once.
use claude_code_token_saving.Base.{
  String, ◌≡◌, refl, ap, ◌∙◌, Bool, true, false, not, List, [], ◌∷◌, inl, inr, Result, ok, err, any,
  arith, Bool-cases, ◌==◌, ==_refl, ==_sound, string_eq, if◌then◌else◌,
}
use claude_code_token_saving.Authorization.{
  EstimatePlan, PlannedRun, ApprovalRecord, plan_eq, plan_beq_iff,
}
use claude_code_token_saving.JobStore.Row.{JobRecord}
use claude_code_token_saving.JobStore.Database.{
  Store, StoreError, digest_mismatch, plan_mismatch, consumed_without_jobs, integrity_error, Action,
  settle, has_id, is_consumed, jobs_for_digest, insert_job, insert_runs, existing_or, enqueue_body,
  enqueue,
}
use claude_code_token_saving.JobStore.Valid.{consume}

if_ok {ℓ} :
    {A : Type ℓ} (b : Bool) (e : StoreError) (s : Store) (m : Result StoreError A × Store) {a : A}
    → (if b then (err e, s) else m).0 ≡ ok a
    → (b ≡ false) × (m.0 ≡ ok a)
if_ok true e s m h = cc
if_ok false e s m h = (refl, h)

not-eq-false : (b : Bool) → not b ≡ false → b ≡ true
not-eq-false true h = refl
not-eq-false false h = cc

settle_ok :
    {A : Type 0} (s : Store) (m : Result StoreError A × Store) {a : A}
    → (settle s m).0 ≡ ok a
    → (m.0 ≡ ok a) × ((settle s m).1 ≡ m.1)
settle_ok s (ok a, t) h = (h, refl)
settle_ok s (err e, t) h = cc

insert_runs-ok :
    (now : String) (plan : EstimatePlan) (runs : List PlannedRun) (s : Store) {js : List JobRecord}
    → (insert_runs now plan runs s).0 ≡ ok js
    → jobs_for_digest plan.digest (insert_runs now plan runs s).1 ≡ js
unfolding insert_runs
insert_runs-ok now plan [] s h = cc
insert_runs-ok now plan (run ∷ runs) s h = elim (Bool-cases (any (has_id run.run_id) s.jobs)) [
  | inl taken ↦ ground arith
  | inr fresh ↦ rw fresh (
      insert_runs-ok now plan runs (insert_job now plan run s)
        (if_ok (any (has_id run.run_id) s.jobs) integrity_error s _ h).1)
]

module _ (now : String) (plan : EstimatePlan) where
  body_existing :
      (s : Store) {j : JobRecord} {js : List JobRecord}
      → jobs_for_digest plan.digest s ≡ j ∷ js
      → enqueue_body now plan s ≡ (ok (j ∷ js), s)
  unfolding enqueue_body
  body_existing s e = rw e

  body_ok :
      (s : Store) {js : List JobRecord}
      → (enqueue_body now plan s).0 ≡ ok js
      → jobs_for_digest plan.digest (enqueue_body now plan s).1 ≡ js
  unfolding enqueue_body
  body_ok s {js = js} h = go (jobs_for_digest plan.digest s) refl h
    where
      next : Action (List JobRecord)
      next t =
          if is_consumed plan.digest t
          then existing_or (jobs_for_digest plan.digest t) (λ u. (err consumed_without_jobs, u)) t
          else insert_runs now plan plan.runs (consume plan.digest now t)

      registered :
          (b : Bool)
          → (if b
              then existing_or [] (λ u. (err consumed_without_jobs, u)) s
              else insert_runs now plan plan.runs (consume plan.digest now s)).0
            ≡ ok js
          → jobs_for_digest plan.digest
              (if b
                then existing_or [] (λ u. (err consumed_without_jobs, u)) s
                else insert_runs now plan plan.runs (consume plan.digest now s)).1
            ≡ js
      registered true k = cc
      registered false k = insert_runs-ok now plan plan.runs (consume plan.digest now s) k

      go :
          (ks : List JobRecord)
          → jobs_for_digest plan.digest s ≡ ks
          → (existing_or ks next s).0 ≡ ok js
          → jobs_for_digest plan.digest (existing_or ks next s).1 ≡ js
      go [] e k = rw e (registered (is_consumed plan.digest s) (rw e at k))
      go (j ∷ ks) e k = rw e (ground arith)

-- The guards before the transaction.
abbrev pub Approves : EstimatePlan → ApprovalRecord → Type 0
Approves plan approval = (approval.digest ≡ plan.digest) × (approval.plan ≡ plan)

module _ (now : String) (plan : EstimatePlan) (approval : ApprovalRecord) where
  pub approved_body :
      Approves plan approval
      → (s : Store) → enqueue now plan approval s ≡ settle s (enqueue_body now plan s)
  unfolding enqueue
  approved_body (d, p) s =
      rw d (rw (==_refl plan.digest) (rw p (rw ((plan_beq_iff plan plan).1 refl))))

  guards_ok :
      (s : Store) {js : List JobRecord}
      → (enqueue now plan approval s).0 ≡ ok js
      → Approves plan approval
  unfolding enqueue
  guards_ok s h =
      let (d, rest) = if_ok (not (approval.digest == plan.digest)) digest_mismatch s _ h in
      let (p, _) = if_ok (not (approval.plan == plan)) plan_mismatch s _ rest in
      (==_sound _ _ (not-eq-false _ d), ==_sound _ _ (not-eq-false _ p))

-- After an accepted approval the same approval brings back the same jobs and changes nothing.
pub enqueue_idempotent :
    (now later : String) (plan : EstimatePlan) (approval : ApprovalRecord) (s : Store)
    {j : JobRecord} {js : List JobRecord}
    → (enqueue now plan approval s).0 ≡ ok (j ∷ js)
    → enqueue later plan approval (enqueue now plan approval s).1
      ≡ (ok (j ∷ js), (enqueue now plan approval s).1)
enqueue_idempotent now later plan approval s {j = j} {js = js} h =
    let good = guards_ok now plan approval s h in
    let first = approved_body now plan approval good s in
    let (ran, kept) = settle_ok s (enqueue_body now plan s) (rw first at h) in
    let t = (enqueue now plan approval s).1 in
    let held : jobs_for_digest plan.digest t ≡ j ∷ js =
      rw (ap (λ (r : Result StoreError (List JobRecord) × Store). r.1) first ∙ kept)
        (body_ok now plan s ran) in
    approved_body later plan approval good t ∙ rw (body_existing later plan t held)
