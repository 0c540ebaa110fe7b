-- ===== src/JobStore/Refines.antt =====
-- The transactions of token_bench/job_store.py are moves on the board of run ids.
use claude_code_token_saving.Base.{String, List, map, string_eq}
use claude_code_token_saving.Authorization.{PlannedRun, plan_eq}
use claude_code_token_saving.JobStore.Row.{
  Status, queued, running, succeeded, failed, timeout, cancelled, blocked, config_error,
  worker_error, JobRecord,
}
use claude_code_token_saving.JobStore.Database.{Store}
use claude_code_token_saving.JobStore.Steps
use claude_code_token_saving.JobStore.Board.{
  Phase, waiting, active, done, stopped, Entry, Board, give_back_all, Move,
}
use claude_code_token_saving.JobStore.Board

abbrev pub phase : Status → Phase
phase queued = waiting
phase running = active
phase succeeded = done
phase failed = stopped
phase timeout = stopped
phase cancelled = stopped
phase blocked = stopped
phase config_error = stopped
phase worker_error = stopped

abbrev pub entry : JobRecord → Entry
entry j = (j.run_id, phase j.status)

abbrev pub board : Store → Board
board s = map entry s.jobs

run_ids : List PlannedRun → List String
run_ids runs = map (λ (r : PlannedRun). r.run_id) runs

module _ (s : Store) where
  abbrev MovesTo : Store → Type 0
  MovesTo t = Move (board s) (board t)
