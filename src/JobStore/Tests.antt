-- ===== src/JobStore/Tests.antt =====
-- Runs of token_bench/job_store.py on one plan.
use claude_code_token_saving.Base.{
  ◌+◌, String, ◌≡◌, refl, false, [], ◌∷◌, ok, err, any, keep, count, if◌then◌else◌,
}
use claude_code_token_saving.Authorization.{approve}
use claude_code_token_saving.JobStore.Approval.{approval_enqueues}
use claude_code_token_saving.JobStore.Database.{
  empty_store, transaction, consumed_without_jobs, enqueue, enqueue_body, insert_runs, get_job,
  claim_next_queued, requeue_orphaned_running, running_row, queued_row, requeue_row,
}
use claude_code_token_saving.JobStore.Valid.{IsValid}
use claude_code_token_saving.JobStore.Steps.{here, next, enqueue_step, claim_step, Reach-IsValid}
use claude_code_token_saving.JobStore.Lookup.{map_some}
use claude_code_token_saving.JobStore.Enqueue.{enqueue_idempotent}
use claude_code_token_saving.JobStore.Orphans.{orphans_requeued}
use claude_code_token_saving.JobStore.Spent.{spent_forever}
use claude_code_token_saving.JobStore.Samples.{
  one_plan, one_approval, waiting_job, waiting_store, running_store, spent_store,
}
use claude_code_token_saving.JobStore.Board.{enter, start_first}
use claude_code_token_saving.JobStore.Refines.{board}

accepted :
    enqueue "09:01" one_plan one_approval empty_store ≡ (ok (waiting_job ∷ []), waiting_store)
unfolding enqueue enqueue_body insert_runs
accepted = refl

accepted_answer : (enqueue "09:01" one_plan one_approval empty_store).0 ≡ ok (waiting_job ∷ [])
unfolding enqueue enqueue_body insert_runs
accepted_answer = refl

Reach-IsValid_example : IsValid (enqueue "09:01" one_plan one_approval empty_store).1
Reach-IsValid_example =
    Reach-IsValid (next here (enqueue_step "09:01" one_plan one_approval empty_store))

enqueue_idempotent_example :
    enqueue "09:05" one_plan one_approval (enqueue "09:01" one_plan one_approval empty_store).1
    ≡ (ok (waiting_job ∷ []), (enqueue "09:01" one_plan one_approval empty_store).1)
enqueue_idempotent_example =
    enqueue_idempotent "09:01" "09:05" one_plan one_approval empty_store accepted_answer

orphans_requeued_example :
    let (r, t) = requeue_orphaned_running running_store in
    (r ≡ ok (keep running_row running_store.jobs))
    × (any running_row t.jobs ≡ false)
    × (count queued_row t.jobs
        ≡ count queued_row running_store.jobs + count running_row running_store.jobs)
    × ((id : String)
        → get_job id t
          ≡ map_some (λ j. if running_row j then requeue_row j else j) (get_job id running_store))
orphans_requeued_example = orphans_requeued running_store

spent_forever_example :
    enqueue "09:09" one_plan one_approval (claim_next_queued "09:08" spent_store).1
    ≡ (err consumed_without_jobs, (claim_next_queued "09:08" spent_store).1)
spent_forever_example =
    spent_forever "09:09" one_plan one_approval (refl, refl) (record { used = refl; gone = refl })
      (next here (claim_step "09:08" spent_store))

approved : approve "09:00" one_plan "d1" ≡ ok one_approval
unfolding approve
approved = refl

approval_enqueues_example :
    ("d1" ≡ one_plan.digest)
    × (enqueue "09:01" one_plan one_approval empty_store
        ≡ transaction (enqueue_body "09:01" one_plan) empty_store)
approval_enqueues_example = approval_enqueues "09:00" "09:01" one_plan "d1" empty_store approved

one_active : board running_store ≡ start_first (enter "batch-1-base-1" ∷ [])
one_active = refl
