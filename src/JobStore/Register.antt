-- ===== src/JobStore/Register.antt =====
-- What `enqueue` of token_bench/job_store.py registers for an approval that was not used before, and
-- what becomes of an approval whose jobs were all deleted.
use claude_code_token_saving.Base.{
  ℕ, ◌+◌, String, ◌≡◌, refl, sym, ap, ◌∙◌, Bool, true, false, not, ◌&&◌, ◌||◌, List, [], ◌∷◌, ◌++◌,
  inl, inr, Result, ok, err, any, length, arith, Bool-cases, eq_iff, ◌==◌, string_eq,
}
use mathlib.Core.List.{append_assoc, append-nil}
use claude_code_token_saving.Authorization.{EstimatePlan, PlannedRun, plan_eq}
use claude_code_token_saving.JobStore.Row.{JobRecord}
use claude_code_token_saving.JobStore.Database.{
  Store, StoreError, integrity_error, has_id, jobs_for_digest, new_job, insert_job, insert_runs,
}

-- The rows of a fresh plan: one for each run, in the order of the plan.
abbrev pub new_jobs : String → EstimatePlan → ℕ → List PlannedRun → List JobRecord
new_jobs now plan last [] = []
new_jobs now plan last (run ∷ runs) =
    new_job now plan run (last + 1) ∷ new_jobs now plan (last + 1) runs

-- No run id is taken, and none stands twice in the plan.
abbrev pub ids_free : List PlannedRun → List JobRecord → Bool
ids_free [] jobs = true
ids_free (run ∷ runs) jobs =
    not (any (has_id run.run_id) jobs)
    && not (any (λ (other : PlannedRun). other.run_id == run.run_id) runs)
    && ids_free runs jobs

any-append {ℓ} :
    {A : Type ℓ} (test : A → Bool) (xs ys : List A)
    → any test (xs ++ ys) ≡ (any test xs || any test ys)
any-append test [] ys = refl
any-append test (x ∷ xs) ys = ground (arith, any-append test xs ys)

ids_free-append :
    (runs : List PlannedRun) (jobs : List JobRecord) (j : JobRecord)
    → ids_free runs (jobs ++ j ∷ [])
      ≡ (not (any (λ (r : PlannedRun). r.run_id == j.run_id) runs) && ids_free runs jobs)
ids_free-append [] jobs j = refl
ids_free-append (run ∷ runs) jobs j = ground (
  arith,
  any-append (has_id run.run_id) jobs (j ∷ []),
  eq_iff j.run_id run.run_id,
  eq_iff run.run_id j.run_id,
  ids_free-append runs jobs j,
)

-- the store with the rows of the runs behind its own
abbrev pub registered : String → EstimatePlan → List PlannedRun → Store → Store
registered now plan runs s = record s {
  jobs = s.jobs ++ new_jobs now plan s.last_sequence runs;
  last_sequence = s.last_sequence + length runs;
}

module _ (now : String) (plan : EstimatePlan) where
  registered-nil : (s : Store) → registered now plan [] s ≡ s
  registered-nil s = λ i. record {
    jobs = append-nil s.jobs i;
    consumed_approvals = s.consumed_approvals;
    last_sequence = (let e : s.last_sequence + 0 ≡ s.last_sequence = omega arith in e) i;
  }

  registered-cons :
      (run : PlannedRun) (runs : List PlannedRun) (s : Store)
      → registered now plan runs (insert_job now plan run s) ≡ registered now plan (run ∷ runs) s
  registered-cons run runs s = λ i. record {
    jobs =
        append_assoc s.jobs (new_job now plan run (s.last_sequence + 1) ∷ [])
          (new_jobs now plan (s.last_sequence + 1) runs) i;
    consumed_approvals = s.consumed_approvals;
    last_sequence =
        (let e : s.last_sequence + 1 + length runs ≡ s.last_sequence + length (run ∷ runs) =
              omega arith in
            e)
          i;
  }

  abbrev answer : Store → Result StoreError (List JobRecord) × Store
  answer t = (ok (jobs_for_digest plan.digest t), t)

  pub insert_runs-eq :
      (runs : List PlannedRun) (s : Store)
      → ids_free runs s.jobs ≡ true
      → insert_runs now plan runs s ≡ answer (registered now plan runs s)
  unfolding insert_runs
  insert_runs-eq [] s free = sym (ap answer (registered-nil s))
  insert_runs-eq (run ∷ runs) s free =
      let split = ids_free-append runs s.jobs (new_job now plan run (s.last_sequence + 1)) in
      let fresh : any (has_id run.run_id) s.jobs ≡ false = ground arith in
      rw fresh (
        insert_runs-eq runs (insert_job now plan run s) (ground (arith, split))
        ∙ ap answer (registered-cons run runs s))

  pub insert_runs-taken :
      (runs : List PlannedRun) (s : Store)
      → ids_free runs s.jobs ≡ false
      → (insert_runs now plan runs s).0 ≡ err integrity_error
  unfolding insert_runs
  insert_runs-taken [] s h = cc
  insert_runs-taken (run ∷ runs) s h = elim (Bool-cases (any (has_id run.run_id) s.jobs)) [
    | inl taken ↦ rw taken
    | inr fresh ↦
        let split = ids_free-append runs s.jobs (new_job now plan run (s.last_sequence + 1)) in
        rw fresh (insert_runs-taken runs (insert_job now plan run s) (ground (arith, split)))
  ]
