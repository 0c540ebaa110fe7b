-- ===== src/JobStore/Spent.antt =====
-- An approval whose jobs were all deleted (token_bench/job_store.py: `enqueue`, `delete_job`).
use claude_code_token_saving.Base.{
  ◌+◌, String, ◌≡◌, refl, ◌∙◌, Bool, true, false, not, ◌&&◌, Option, none, some, List, [], ◌∷◌,
  ◌++◌, inl, inr, Result, err, any, keep, count, find, arith, Bool-cases, nat_beq, ◌==◌, ==_sound,
  string_eq,
}
use claude_code_token_saving.Authorization.{EstimatePlan, PlannedRun, ApprovalRecord, plan_eq}
use claude_code_token_saving.JobStore.Table.{update_where}
use claude_code_token_saving.JobStore.Row.{JobRecord}
use claude_code_token_saving.JobStore.Database.{
  Store, StoreError, consumed_without_jobs, not_running, not_retryable, transaction, has_id,
  has_digest, is_consumed, jobs_for_digest, fetch, update_job, new_job, insert_job, insert_runs,
  existing_or, enqueue_body, enqueue, queued_row, running_row, start_job, claim_next_queued,
  claim_row, end_job, finish_job, deletable, delete_job, retryable, reset_job, retry_job,
  requeue_row, requeue_job, requeue_rows, requeue_orphaned_running,
}
use claude_code_token_saving.JobStore.Valid.{consume}
use claude_code_token_saving.JobStore.Steps.{
  Step, enqueue_step, claim_step, finish_step, delete_step, retry_step, requeue_step, orphan_step,
  Reach, here, next, settle_keeps, if_keeps, found_keeps,
}
use claude_code_token_saving.JobStore.Enqueue.{Approves, approved_body}

-- used, and with no job left
pub record IsSpent (digest : String) (s : Store) : Type 0 where
  pub used : is_consumed digest s ≡ true
  pub gone : any (has_digest digest) s.jobs ≡ false

any_update :
    (digest : String) (test : JobRecord → Bool) (f : JobRecord → JobRecord)
    → ((j : JobRecord) → (f j).digest ≡ j.digest)
    → (jobs : List JobRecord) → any (has_digest digest) jobs ≡ false
    → any (has_digest digest) (update_where test f jobs) ≡ false
any_update digest test f same [] h = refl
any_update digest test f same (j ∷ jobs) h =
    ground (arith, same j, any_update digest test f same jobs)

any-keep :
    (digest : String) (test : JobRecord → Bool) (jobs : List JobRecord)
    → any (has_digest digest) jobs ≡ false
    → any (has_digest digest) (keep test jobs) ≡ false
any-keep digest test [] h = refl
any-keep digest test (j ∷ jobs) h = ground (arith, any-keep digest test jobs)

any_append_one :
    (digest : String) (jobs : List JobRecord) (j : JobRecord)
    → any (has_digest digest) jobs ≡ false
    → (j.digest == digest) ≡ false
    → any (has_digest digest) (jobs ++ j ∷ []) ≡ false
any_append_one digest [] j h d = ground arith
any_append_one digest (k ∷ jobs) j h d = ground (arith, any_append_one digest jobs j)

consumed_append :
    (digest : String) (rows : List (String × String)) (row : String × String)
    → any (λ r. r.0 == digest) rows ≡ true
    → any (λ r. r.0 == digest) (rows ++ row ∷ []) ≡ true
consumed_append digest [] row h = cc
consumed_append digest (r ∷ rows) row h = ground (arith, consumed_append digest rows row)

keep-eq-nil_of_any :
    (digest : String) (jobs : List JobRecord)
    → any (has_digest digest) jobs ≡ false
    → keep (has_digest digest) jobs ≡ []
keep-eq-nil_of_any digest [] h = refl
keep-eq-nil_of_any digest (j ∷ jobs) h = ground (arith, keep-eq-nil_of_any digest jobs)

-- the transaction of a spent approval
spent_body :
    (now : String) (plan : EstimatePlan) (s : Store)
    → IsSpent plan.digest s
    → enqueue_body now plan s ≡ (err consumed_without_jobs, s)
unfolding enqueue_body
spent_body now plan s h =
    rw (keep-eq-nil_of_any plan.digest s.jobs h.gone)
      (rw h.used (rw (keep-eq-nil_of_any plan.digest s.jobs h.gone)))

module _ (digest : String) where
  updated :
      (test : JobRecord → Bool) (f : JobRecord → JobRecord)
      → ((j : JobRecord) → (f j).digest ≡ j.digest)
      → (s : Store) → IsSpent digest s
      → IsSpent digest (record s { jobs = update_where test f s.jobs })
  updated test f same s h = record {
    used = h.used;
    gone = any_update digest test f same s.jobs h.gone;
  }

  job_updated :
      (test : JobRecord → Bool) (f : JobRecord → JobRecord) (x : StoreError) (run_id : String)
      → ((j : JobRecord) → (f j).digest ≡ j.digest)
      → (s : Store) → IsSpent digest s
      → IsSpent digest (transaction (update_job test f x run_id) s).1
  job_updated test f x run_id same s h =
      let t = record s { jobs = update_where test f s.jobs } in
      settle_keeps (IsSpent digest) s (update_job test f x run_id s) h (
        if_keeps (IsSpent digest) (nat_beq (count test s.jobs) 0) (err x, s) (fetch run_id t) h
          (found_keeps (IsSpent digest) (find (has_id run_id) t.jobs) t (updated test f same s h)))

  runs_inserted :
      (now : String) (plan : EstimatePlan) (runs : List PlannedRun) (s : Store)
      → (plan.digest == digest) ≡ false
      → IsSpent digest s
      → IsSpent digest (insert_runs now plan runs s).1
  unfolding insert_runs
  runs_inserted now plan [] s other h = h
  runs_inserted now plan (run ∷ runs) s other h =
      if_keeps (IsSpent digest) (any (has_id run.run_id) s.jobs) _ _ h (
        runs_inserted now plan runs (insert_job now plan run s) other (record {
          used = h.used;
          gone =
              any_append_one digest s.jobs (new_job now plan run (s.last_sequence + 1)) h.gone
                other;
        }))

  existing_keeps :
      (js : List JobRecord) (other : Store → Result StoreError (List JobRecord) × Store) (s : Store)
      → IsSpent digest s
      → IsSpent digest (other s).1
      → IsSpent digest (existing_or js other s).1
  existing_keeps [] other s old new = new
  existing_keeps (k ∷ js) other s old new = old

  body_keeps :
      (now : String) (plan : EstimatePlan) (s : Store)
      → IsSpent digest s
      → IsSpent digest (enqueue_body now plan s).1
  body_keeps now plan s h = elim (Bool-cases (plan.digest == digest)) [
    | inl same ↦
        let e : plan.digest ≡ digest = ==_sound _ _ same in rw (spent_body now plan s (rw e h)) h
    | inr other ↦
        unfold enqueue_body in
        existing_keeps (jobs_for_digest plan.digest s) _ s h (
          if_keeps (IsSpent digest) (is_consumed plan.digest s) _ _
            (existing_keeps (jobs_for_digest plan.digest s) _ s h h)
            (runs_inserted now plan plan.runs (consume plan.digest now s) other (record {
              used = consumed_append digest s.consumed_approvals (plan.digest, now) h.used;
              gone = h.gone;
            })))
  ]

module _ (digest : String) where
  Step-IsSpent : {s t : Store} → Step s t → IsSpent digest s → IsSpent digest t
  unfolding enqueue claim_next_queued finish_job delete_job retry_job requeue_job
      requeue_orphaned_running
  Step-IsSpent (enqueue_step now plan approval s) h =
      if_keeps (IsSpent digest) (not (approval.digest == plan.digest)) _ _ h (
        if_keeps (IsSpent digest) (not (approval.plan == plan)) _ _ h
          (settle_keeps (IsSpent digest) s _ h (body_keeps digest now plan s h)))
  Step-IsSpent (claim_step now s) h =
      settle_keeps (IsSpent digest) s _ h (row (find queued_row s.jobs))
    where
      row : (o : Option JobRecord) → IsSpent digest (claim_row now o s).1
      row none = h
      row (some k) =
          if_keeps (IsSpent digest)
            (nat_beq (count (λ i. has_id k.run_id i && queued_row i) s.jobs) 0) _ _ h
            (found_keeps (IsSpent digest) _ _ (
              updated digest (λ i. has_id k.run_id i && queued_row i) (start_job now) (λ i. refl) s
                h))
  Step-IsSpent (finish_step run_id e s final) h =
      job_updated digest (λ i. has_id run_id i && running_row i) (end_job e) not_running run_id
        (λ i. refl) s h
  Step-IsSpent (delete_step run_id s) h = settle_keeps (IsSpent digest) s _ h (
      if_keeps (IsSpent digest) (nat_beq (count (deletable run_id) s.jobs) 0) _ _ h (record {
        used = h.used;
        gone = any-keep digest (λ i. not (deletable run_id i)) s.jobs h.gone;
      }))
  Step-IsSpent (retry_step run_id s) h =
      job_updated digest (λ i. has_id run_id i && retryable i.status) reset_job not_retryable run_id
        (λ i. refl) s h
  Step-IsSpent (requeue_step run_id s) h =
      job_updated digest (λ i. has_id run_id i && running_row i) requeue_row not_running run_id
        (λ i. refl) s h
  Step-IsSpent (orphan_step s) h = rows (keep running_row s.jobs)
    where
      rows : (js : List JobRecord) → IsSpent digest (requeue_rows js s)
      rows [] = h
      rows (j ∷ js) = updated digest running_row requeue_row (λ i. refl) s h

  Reach-IsSpent : {s t : Store} → IsSpent digest s → Reach s t → IsSpent digest t
  Reach-IsSpent h here = h
  Reach-IsSpent h (next r st) = Step-IsSpent st (Reach-IsSpent h r)

-- Once the jobs of a used approval are all deleted, no later history of transactions lets the same
-- approved plan be registered again: each new submission fails and changes nothing.
pub spent_forever :
    {s t : Store} (now : String) (plan : EstimatePlan) (approval : ApprovalRecord)
    → Approves plan approval
    → IsSpent plan.digest s
    → Reach s t
    → enqueue now plan approval t ≡ (err consumed_without_jobs, t)
spent_forever {t = t} now plan approval good h r =
    approved_body now plan approval good t
    ∙ rw (spent_body now plan t (Reach-IsSpent plan.digest h r))
