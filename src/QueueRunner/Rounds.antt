-- ===== src/QueueRunner/Rounds.antt =====
-- One round of the loop of token_bench/queue_runner.py: a claim and the work on the claimed job.
use claude_code_token_saving.Base.{
  ◌+◌, String, ◌≡◌, refl, ap, Bool, some, ok, err, count, find, arith, string_eq,
}
use mathlib.Core.Path.{subst}
use claude_code_token_saving.JobStore.{
  JobRecord, Store, queued_row, running_row, start_job, end_job, requeue_row,
}
use claude_code_token_saving.JobStore.Valid.{IsValid}
use claude_code_token_saving.JobStore.Steps.{claim-IsValid, finish-IsValid, requeue-IsValid}
use claude_code_token_saving.JobStore.Update.{count_after_update}
use claude_code_token_saving.JobStore.Claim.{
  claimed_store, claim_own, claim_queued, claim_read_back, claim_found,
}
use claude_code_token_saving.JobRunner.{Environment, ended, rate_limited, Outcome, process_job}
use claude_code_token_saving.JobRunner.Endings.{
  FinalRun, Ends, finish_running, requeue_running, process_job-Ends,
}
use claude_code_token_saving.JobRunner.Settles.{IsHandled, Returns, process_job-Returns}
use claude_code_token_saving.QueueRunner.Requests.{IsIdle}

-- How a job is left that was waiting in `s`: one job less waits, or, at the usage limit, as many.
abbrev pub Worked : Store → Outcome → Type 0
Worked s (ok (ended st), t) =
    IsValid t × IsIdle t × (count queued_row t.jobs + 1 ≡ count queued_row s.jobs)
Worked s (ok rate_limited, t) =
    IsValid t × IsIdle t × (count queued_row t.jobs ≡ count queued_row s.jobs)
Worked s (err x, t) = ⊥

module _ (now : String) (s : Store) (v : IsValid s) (idle : IsIdle s) (j : JobRecord)
    (e : find queued_row s.jobs ≡ some j) where
  claimed-IsValid : IsValid (claimed_store now j s)
  claimed-IsValid = subst IsValid (ap (λ r. r.1) (claim_found now s v j e)) (claim-IsValid now s v)

  one_runs : count running_row (claimed_store now j s).jobs ≡ 1
  one_runs =
      let waits = claim_queued now s v j e in
      let moved =
        count_after_update j.run_id queued_row (start_job now) running_row s.jobs v.unique
          (claim_own now s v j e) waits in
      ground arith

  one_less_waits : count queued_row (claimed_store now j s).jobs + 1 ≡ count queued_row s.jobs
  one_less_waits =
      let waits = claim_queued now s v j e in
      let moved =
        count_after_update j.run_id queued_row (start_job now) queued_row s.jobs v.unique
          (claim_own now s v j e) waits in
      ground arith

  worked : (o : Outcome) → Ends (start_job now j) (claimed_store now j s) o → Returns o → Worked s o
  worked (ok (ended st), t) (d, final, same) h =
      let job = start_job now j in
      let u = claimed_store now j s in
      let there = claim_read_back now s v j e in
      let count_moved = λ (test : JobRecord → Bool).
        count_after_update j.run_id running_row (end_job d) test u.jobs claimed-IsValid.unique there
          refl in
      rw same (
        subst IsValid (ap (λ r. r.1) (finish_running job u there refl d))
            (finish-IsValid j.run_id d u final claimed-IsValid),
        ground (arith, count_moved running_row, one_runs, final),
        ground (arith, count_moved queued_row, one_less_waits, final),
      )
  worked (ok rate_limited, t) same h =
      let job = start_job now j in
      let u = claimed_store now j s in
      let there = claim_read_back now s v j e in
      let count_moved = λ (test : JobRecord → Bool).
        count_after_update j.run_id running_row requeue_row test u.jobs claimed-IsValid.unique there
          refl in
      rw same (
        subst IsValid (ap (λ r. r.1) (requeue_running job u there refl))
            (requeue-IsValid j.run_id u claimed-IsValid),
        ground (arith, count_moved running_row, one_runs),
        ground (arith, count_moved queued_row, one_less_waits),
      )
  worked (err x, t) m h = absurd h

  pub process_claimed :
      (env : Environment)
      → FinalRun env.run_once
      → IsHandled env
      → Worked s (process_job (start_job now j) env (claimed_store now j s))
  process_claimed env final handled =
      let there = claim_read_back now s v j e in
      worked (process_job (start_job now j) env (claimed_store now j s))
        (process_job-Ends (start_job now j) (claimed_store now j s) there refl env final)
        (process_job-Returns (start_job now j) (claimed_store now j s) there refl env handled)
