-- ===== src/QueueRunner.antt =====
-- token_bench/queue_runner.py: the loop of a worker, with the lock of token_bench/worker.py
-- (`worker_lock`) and the requests of the web server that arrive between its transactions.
pub mod Requests
pub mod Rounds
pub mod Safe
pub mod Drain
pub mod Tests
use claude_code_token_saving.Base.{
  ℕ, String, Bool, true, false, not, ◌&&◌, ◌||◌, Option, none, some, List, [], ◌∷◌, Result, ok, err,
  if◌then◌else◌,
}
use claude_code_token_saving.Authorization.{EstimatePlan, ApprovalRecord}
use claude_code_token_saving.JobStore.{
  Status, is_succeeded, is_failed, JobRecord, Store, StoreError, enqueue, delete_job, retry_job,
  claim_next_queued, requeue_orphaned_running,
}
use claude_code_token_saving.JobRunner.{
  Environment, Raised, store_error, JobEnd, ended, rate_limited, process_job,
}

-- The keyword arguments of `run`.
pub record Mode : Type 0 where
  pub once : Bool
  pub exit_when_empty : Bool
  pub stop_on_error : Bool

-- The fields that the threads share.
pub record Runner : Type 0 where
  pub current_run_id : Option String
  pub cancel_event : Bool
  pub shutdown : Bool

pub data WebRequest : Type 0 where
  submit : EstimatePlan → ApprovalRecord → WebRequest
  delete : String → WebRequest
  retry : String → WebRequest

-- What one round of the loop meets: requests before its claim, whether `stop` was called, the time,
-- and the answers for the job that it claims.
pub record Round : Type 0 where
  pub requests : List WebRequest
  pub stopped : Bool
  pub now : String
  pub answers : JobRecord → Environment

unfoldable pub serve : String → WebRequest → Store → Store
serve now (submit plan approval) s = (enqueue now plan approval s).1
serve now (delete run_id) s = (delete_job run_id s).1
serve now (retry run_id) s = (retry_job run_id s).1

unfoldable pub serve_all : String → List WebRequest → Store → Store
unfolding serve
serve_all now [] s = s
serve_all now (q ∷ qs) s = serve_all now qs (serve now q s)

-- `stop_current`: whether there was a job to cancel.
unfoldable pub stop_current : Runner → Bool × Runner
stop_current r = elim r.current_run_id [
  | none ↦ (false, r)
  | some _ ↦ (true, record r { cancel_event = true })
]

-- `stop`, as far as the fields go
unfoldable pub stop : Runner → Runner
stop r = record r { shutdown = true; cancel_event = true }

-- Under the lock, before and after a job: an old cancellation does not reach the next job.
unfoldable pub begin_job : String → Runner → Runner
begin_job run_id r = record r { current_run_id = some run_id; cancel_event = r.shutdown }

unfoldable pub end_job : Runner → Runner
end_job r = record r { current_run_id = none }

-- How `run` ends: with an exit code or an exception, or not within the rounds that are given.
pub data Exit : Type 0 where
  code : ℕ → Exit
  raised : Raised → Exit
  still_running : Exit

-- What the loop does after a job: it returns, or goes on.
unfoldable pub after_job : Mode → JobEnd → Option ℕ
after_job mode (ended st) =
    if mode.once
    then some (if is_succeeded st then 0 else 1)
    else if mode.stop_on_error && not (is_succeeded st || is_failed st)
    then some 1
    else none
after_job mode rate_limited =
    if mode.once then some 1 else if mode.exit_when_empty then some 1 else none

abbrev pub State : Type 0
State = Runner × Store

-- `rest` is the loop from the next round on.
unfoldable pub after_process :
    Mode → Runner → Result Raised JobEnd × Store → (State → Exit × State) → Exit × State
unfolding end_job after_job
after_process mode r (err x, s) rest = (raised x, (end_job r, s))
after_process mode r (ok e, s) rest = elim (after_job mode e) [
  | none ↦ rest (end_job r, s)
  | some c ↦ (code c, (end_job r, s))
]

unfoldable pub after_claim :
    Mode
    → Round
    → Runner
    → Result StoreError (Option JobRecord) × Store
    → (State → Exit × State)
    → Exit × State
unfolding begin_job after_process
after_claim mode round r (err x, s) rest = (raised (store_error x), (r, s))
after_claim mode round r (ok none, s) rest =
    if mode.once || mode.exit_when_empty then (code 0, (r, s)) else rest (r, s)
after_claim mode round r (ok (some job), s) rest =
    after_process mode (begin_job job.run_id r) (process_job job (round.answers job) s) rest

unfoldable pub loop : Mode → List Round → State → Exit × State
unfolding serve_all after_claim
loop mode [] state = (still_running, state)
loop mode (round ∷ rounds) (r, s) =
    let r' = if round.stopped then stop r else r in
    let s' = serve_all round.now round.requests s in
    let again = loop mode rounds in
    if r'.shutdown
    then (code 0, (r', s'))
    else after_claim mode round r' (claim_next_queued round.now s') again

-- `run`: the lock refuses a second worker; its holder first recovers the interrupted jobs.
unfoldable pub run : Mode → (locked : Bool) → List Round → State → Exit × State
unfolding loop
run mode true rounds state = (code 1, state)
run mode false rounds (r, s) = loop mode rounds (r, (requeue_orphaned_running s).1)
