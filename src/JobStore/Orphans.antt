-- ===== src/JobStore/Orphans.antt =====
-- `requeue_orphaned_running` of token_bench/job_store.py.
use claude_code_token_saving.Base.{
  ◌+◌, String, ◌≡◌, refl, sym, Bool, false, List, [], ◌∷◌, ok, any, keep, count, arith,
  if◌then◌else◌,
}
use claude_code_token_saving.JobStore.Table.{update_where}
use claude_code_token_saving.JobStore.Row.{JobRecord}
use claude_code_token_saving.JobStore.Database.{
  Store, get_job, queued_row, running_row, requeue_row, requeue_rows, requeue_orphaned_running,
}
use claude_code_token_saving.JobStore.Lookup.{find-update, map_some}

update_none :
    (test : JobRecord → Bool) (f : JobRecord → JobRecord) (jobs : List JobRecord)
    → keep test jobs ≡ []
    → update_where test f jobs ≡ jobs
update_none test f [] h = refl
update_none test f (j ∷ jobs) h = ground (arith, update_none test f jobs)

any_requeued :
    (jobs : List JobRecord) → any running_row (update_where running_row requeue_row jobs) ≡ false
any_requeued [] = refl
any_requeued (j ∷ jobs) = ground (arith, any_requeued jobs)

count_requeued :
    (jobs : List JobRecord)
    → count queued_row (update_where running_row requeue_row jobs)
      ≡ count queued_row jobs + count running_row jobs
count_requeued [] = omega arith
count_requeued (j ∷ jobs) = ground (arith, count_requeued jobs)

requeued_jobs :
    (s : Store)
    → (requeue_rows (keep running_row s.jobs) s).jobs ≡ update_where running_row requeue_row s.jobs
requeued_jobs s = go (keep running_row s.jobs) refl
  where
    go :
        (rows : List JobRecord)
        → keep running_row s.jobs ≡ rows
        → (requeue_rows rows s).jobs ≡ update_where running_row requeue_row s.jobs
    go [] e = sym (update_none running_row requeue_row s.jobs e)
    go (j ∷ rows) e = refl

-- The recovery returns the rows that were running, as they were; afterwards no job runs, each of
-- those waits again, at its old place, and every other job is as it was.
pub orphans_requeued :
    (s : Store)
    → let (r, t) = requeue_orphaned_running s in
      (r ≡ ok (keep running_row s.jobs))
      × (any running_row t.jobs ≡ false)
      × (count queued_row t.jobs ≡ count queued_row s.jobs + count running_row s.jobs)
      × ((id : String)
          → get_job id t
            ≡ map_some (λ j. if running_row j then requeue_row j else j) (get_job id s))
unfolding requeue_orphaned_running get_job
orphans_requeued s = (
  refl,
  rw (requeued_jobs s) (any_requeued s.jobs),
  rw (requeued_jobs s) (count_requeued s.jobs),
  λ id. rw (requeued_jobs s) (find-update id running_row requeue_row (λ j. refl) s.jobs),
)
