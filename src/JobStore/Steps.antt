-- ===== src/JobStore/Steps.antt =====
-- Every transaction of token_bench/job_store.py keeps the invariant; histories of transactions.
use claude_code_token_saving.Base.{
  String, ◌≡◌, refl, Bool, true, false, not, ◌&&◌, Option, none, some, List, [], ◌∷◌, ◌+◌, ◌++◌,
  ==_refl, ◌==◌, string_eq, inl, inr, Result, ok, err, any, keep, count, find, arith, Bool-cases,
  nat_beq, if◌then◌else◌,
}
use claude_code_token_saving.Authorization.{EstimatePlan, PlannedRun, ApprovalRecord, plan_eq}
use claude_code_token_saving.JobStore.Row.{Status, is_queued, is_running, JobRecord, Ending}
use claude_code_token_saving.JobStore.Database.{
  Store, empty_store, StoreError, consumed_without_jobs, not_running, not_retryable, settle, has_id,
  is_consumed, jobs_for_digest, found, update_job, new_job, insert_job, insert_runs, existing_or,
  enqueue_body, enqueue, queued_row, running_row, start_job, claim_next_queued, claim_row, end_job,
  finish_job, deletable, delete_job, retryable, reset_job, retry_job, requeue_row, requeue_job,
  requeue_rows, requeue_orphaned_running,
}
use claude_code_token_saving.JobStore.Valid.{
  IsValid, empty_store-IsValid, IsRowUpdate, update-IsValid, keep-IsValid, consume, consume-IsValid,
  insert-IsValid,
}

pub settle_keeps {κ} :
    {A : Type 0} (P : Store → Type κ) (s : Store) (r : Result StoreError A × Store)
    → P s
    → P r.1
    → P (settle s r).1
settle_keeps P s (ok a, t) old new = new
settle_keeps P s (err e, t) old new = old

pub if_keeps {κ} :
    {A : Type 0} (P : Store → Type κ) (b : Bool) (x y : A × Store)
    → P x.1
    → P y.1
    → P (if b then x else y).1
if_keeps P true x y hx hy = hx
if_keeps P false x y hx hy = hy

pub found_keeps {κ} :
    (P : Store → Type κ) (o : Option JobRecord) (s : Store) → P s → P (found o s).1
found_keeps P none s h = h
found_keeps P (some j) s h = h

module _ (test : JobRecord → Bool) (f : JobRecord → JobRecord) (u : IsRowUpdate test f) where
  update_job-IsValid :
      (e : StoreError) (run_id : String) (s : Store)
      → IsValid s
      → IsValid (update_job test f e run_id s).1
  update_job-IsValid e run_id s v =
      if_keeps IsValid (nat_beq (count test s.jobs) 0) _ _ v
        (found_keeps IsValid _ _ (update-IsValid s test f u v))

start_job-update :
    (run_id now : String) → IsRowUpdate (λ j. has_id run_id j && queued_row j) (start_job now)
start_job-update run_id now = record {
  keeps_sequence = λ j. refl;
  keeps_run_id = λ j. refl;
  keeps_digest = λ j. refl;
  shapes = λ j shape hit. ground arith;
}

abbrev pub IsFinal : Status → Type 0
IsFinal st = (is_queued st ≡ false) × (is_running st ≡ false)

end_job-update :
    (run_id : String) (e : Ending)
    → IsFinal e.status
    → IsRowUpdate (λ j. has_id run_id j && running_row j) (end_job e)
end_job-update run_id e final = record {
  keeps_sequence = λ j. refl;
  keeps_run_id = λ j. refl;
  keeps_digest = λ j. refl;
  shapes = λ j shape hit. ground arith;
}

reset_job-update :
    (run_id : String) → IsRowUpdate (λ j. has_id run_id j && retryable j.status) reset_job
reset_job-update run_id = record {
  keeps_sequence = λ j. refl;
  keeps_run_id = λ j. refl;
  keeps_digest = λ j. refl;
  shapes = λ j shape hit. ground arith;
}

requeue_row-update :
    (test : JobRecord → Bool)
    → ((j : JobRecord) → test j ≡ true → is_running j.status ≡ true)
    → IsRowUpdate test requeue_row
requeue_row-update test only = record {
  keeps_sequence = λ j. refl;
  keeps_run_id = λ j. refl;
  keeps_digest = λ j. refl;
  shapes = λ j shape hit. ground (arith, only j hit);
}

-- The transactions.
enqueue_runs-IsValid :
    (now : String) (plan : EstimatePlan) (runs : List PlannedRun) (s : Store)
    → IsValid s
    → is_consumed plan.digest s ≡ true
    → IsValid (insert_runs now plan runs s).1
unfolding insert_runs
enqueue_runs-IsValid now plan [] s v used = v
enqueue_runs-IsValid now plan (run ∷ runs) s v used =
    elim (Bool-cases (any (has_id run.run_id) s.jobs)) [
      | inl taken ↦ rw taken v
      | inr fresh ↦ rw fresh (
          enqueue_runs-IsValid now plan runs (insert_job now plan run s)
            (insert-IsValid s (new_job now plan run (s.last_sequence + 1)) v refl fresh used
              (ground arith))
            used)
    ]

consumed_self : (digest now : String) (s : Store) → is_consumed digest (consume digest now s) ≡ true
consumed_self digest now s = any_last s.consumed_approvals
  where
    any_last :
        (rows : List (String × String))
        → any (λ row. row.0 == digest) (rows ++ (digest, now) ∷ []) ≡ true
    any_last [] = ground (arith, ==_refl digest)
    any_last (r ∷ rows) = ground (arith, any_last rows)

enqueue_body-IsValid :
    (now : String) (plan : EstimatePlan) (s : Store)
    → IsValid s
    → IsValid (enqueue_body now plan s).1
unfolding enqueue_body
enqueue_body-IsValid now plan s v = outer (jobs_for_digest plan.digest s)
  where
    inner :
        (js : List JobRecord) → IsValid (existing_or js (λ u. (err consumed_without_jobs, u)) s).1
    inner [] = v
    inner (j ∷ js) = v

    register :
        (b : Bool)
        → is_consumed plan.digest s ≡ b
        → IsValid
            (if b
              then existing_or
                  (jobs_for_digest plan.digest s)
                  (λ u. (err consumed_without_jobs, u))
                  s
              else insert_runs now plan plan.runs (consume plan.digest now s)).1
    register true e = inner (jobs_for_digest plan.digest s)
    register false e =
        enqueue_runs-IsValid now plan plan.runs (consume plan.digest now s)
          (consume-IsValid plan.digest now s v e) (consumed_self plan.digest now s)

    outer :
        (js : List JobRecord)
        → IsValid
            (existing_or js
              (λ t.
                if is_consumed plan.digest t
                then existing_or
                    (jobs_for_digest plan.digest t)
                    (λ u. (err consumed_without_jobs, u))
                    t
                else insert_runs now plan plan.runs (consume plan.digest now t))
              s).1
    outer [] = register (is_consumed plan.digest s) refl
    outer (j ∷ js) = v

pub enqueue-IsValid :
    (now : String) (plan : EstimatePlan) (approval : ApprovalRecord) (s : Store)
    → IsValid s
    → IsValid (enqueue now plan approval s).1
unfolding enqueue
enqueue-IsValid now plan approval s v =
    if_keeps IsValid (not (approval.digest == plan.digest)) _ _ v (
      if_keeps IsValid (not (approval.plan == plan)) _ _ v
        (settle_keeps IsValid s _ v (enqueue_body-IsValid now plan s v)))

pub claim-IsValid : (now : String) (s : Store) → IsValid s → IsValid (claim_next_queued now s).1
unfolding claim_next_queued
claim-IsValid now s v = settle_keeps IsValid s _ v (row (find queued_row s.jobs))
  where
    row : (o : Option JobRecord) → IsValid (claim_row now o s).1
    row none = v
    row (some j) =
        if_keeps IsValid (nat_beq (count (λ k. has_id j.run_id k && queued_row k) s.jobs) 0) _ _ v
          (found_keeps IsValid _ _ (update-IsValid s _ _ (start_job-update j.run_id now) v))

pub finish-IsValid :
    (run_id : String) (e : Ending) (s : Store)
    → IsFinal e.status
    → IsValid s
    → IsValid (finish_job run_id e s).1
unfolding finish_job
finish-IsValid run_id e s final v =
    settle_keeps IsValid s _ v
      (update_job-IsValid _ _ (end_job-update run_id e final) not_running run_id s v)

pub delete-IsValid : (run_id : String) (s : Store) → IsValid s → IsValid (delete_job run_id s).1
unfolding delete_job
delete-IsValid run_id s v = settle_keeps IsValid s _ v (
    if_keeps IsValid (nat_beq (count (deletable run_id) s.jobs) 0) _ _ v
      (keep-IsValid s (λ j. not (deletable run_id j)) v))

pub retry-IsValid : (run_id : String) (s : Store) → IsValid s → IsValid (retry_job run_id s).1
unfolding retry_job
retry-IsValid run_id s v =
    settle_keeps IsValid s _ v
      (update_job-IsValid _ _ (reset_job-update run_id) not_retryable run_id s v)

pub requeue-IsValid : (run_id : String) (s : Store) → IsValid s → IsValid (requeue_job run_id s).1
unfolding requeue_job
requeue-IsValid run_id s v =
    settle_keeps IsValid s _ v
      (update_job-IsValid _ _ (requeue_row-update _ (λ j h. ground arith)) not_running run_id s v)

pub requeue_orphaned-IsValid : (s : Store) → IsValid s → IsValid (requeue_orphaned_running s).1
unfolding requeue_orphaned_running
requeue_orphaned-IsValid s v = rows (keep running_row s.jobs)
  where
    rows : (js : List JobRecord) → IsValid (requeue_rows js s)
    rows [] = v
    rows (j ∷ js) = update-IsValid s _ _ (requeue_row-update running_row (λ k h. h)) v

-- One transaction of a worker, of the web server or of the command line. `finish_job` is called
-- with the status of a finished run (job_runner.py).
pub data Step : Store → Store → Type 0 where
  enqueue_step :
      (now : String) (plan : EstimatePlan) (approval : ApprovalRecord) (s : Store)
      → Step s (enqueue now plan approval s).1
  claim_step : (now : String) (s : Store) → Step s (claim_next_queued now s).1
  finish_step :
      (run_id : String) (e : Ending) (s : Store)
      → IsFinal e.status
      → Step s (finish_job run_id e s).1
  delete_step : (run_id : String) (s : Store) → Step s (delete_job run_id s).1
  retry_step : (run_id : String) (s : Store) → Step s (retry_job run_id s).1
  requeue_step : (run_id : String) (s : Store) → Step s (requeue_job run_id s).1
  orphan_step : (s : Store) → Step s (requeue_orphaned_running s).1

pub data Reach (s : Store) : Store → Type 0 where
  here : Reach s s
  next : {t u : Store} → Reach s t → Step t u → Reach s u

pub Step-IsValid : {s t : Store} → Step s t → IsValid s → IsValid t
Step-IsValid (enqueue_step now plan approval s) v = enqueue-IsValid now plan approval s v
Step-IsValid (claim_step now s) v = claim-IsValid now s v
Step-IsValid (finish_step run_id e s final) v = finish-IsValid run_id e s final v
Step-IsValid (delete_step run_id s) v = delete-IsValid run_id s v
Step-IsValid (retry_step run_id s) v = retry-IsValid run_id s v
Step-IsValid (requeue_step run_id s) v = requeue-IsValid run_id s v
Step-IsValid (orphan_step s) v = requeue_orphaned-IsValid s v

-- Whatever transactions have run since the database was empty: the run ids are distinct, the
-- sequence numbers grow, every job's approval is recorded as consumed and each approval once, and a
-- waiting or running job shows no ending of an earlier try.
pub Reach-IsValid : {t : Store} → Reach empty_store t → IsValid t
Reach-IsValid here = empty_store-IsValid
Reach-IsValid (next r st) = Step-IsValid st (Reach-IsValid r)
