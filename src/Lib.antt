-- ===== src/Lib.antt =====
-- Verification library of token_bench, the benchmark runner for Claude Code.
--
-- The program plans runs of a coding agent, has each plan approved by its digest, keeps the approved
-- runs as jobs in a SQLite database, works on them one after the other, and publishes what was
-- measured in five files.
--
-- The parts, and where they are modelled:
--
--   token_bench/authorization.py    Authorization, Authorization/Plan
--   token_bench/job_store.py        JobStore (Row: the columns; Database: the transactions; Board:
--                                   what its callers rely on)
--   token_bench/transcript.py       Transcript/Limit (`is_usage_limit_error`), ActivityLog (`Message`)
--   token_bench/job_runner.py       JobRunner (`process_job`)
--   token_bench/queue_runner.py     QueueRunner (`QueueRunner.run`, `stop`, `stop_current`)
--   token_bench/activity_log.py     ActivityLog (turns, context tax, `reconcile`)
--   token_bench/ledger.py           Ledger/Publication (`_publish_transaction`, `_restore`),
--                                   Ledger/Attempts (`attempt_run_id`), Ledger/Validity
--                                   (`_invalid_reason`), Ledger/Published (`_attempt_keys`),
--                                   Ledger/ResultRows (`_publish_jobs`), Ledger/SummaryRows
--                                   (`_collect_jobs`), Ledger/Gaps (`_washout_gaps`),
--                                   Ledger/ComparisonRows (`rebuild_comparison`), Ledger/Sync
--                                   (`sync_published`)
--   token_bench/workspace.py        Workspace (`load_run_snapshot`), Workspace/Runs (`prepare_run`)
--   token_bench/worker.py           Worker (`build_command`, `build_env`, the wait of `run_once`)
--   token_bench/results.py          Results (`collect`, `to_dict`, `load`)
--   token_bench/evaluation.py       Evaluation (`check`)
--   token_bench/conditions.py       Conditions (`select_subset`, `expand_runs`, `_parse_injection`,
--                                   `load_conditions`, `_parse_condition`)
--   token_bench/preflight.py        Preflight (`check`, `split_by_availability`)
--   token_bench/models.py           Models (`active_model`)
--   token_bench/collect.py          Collection (`condition_priority`, `next_preset`)
--
-- Base holds what they share. The modules below a part are named for what they prove; Samples and
-- Tests hold concrete states and runs.
--
-- How they interact: `enqueue` takes an `EstimatePlan` and the `ApprovalRecord` of
-- token_bench/authorization.py. `QueueRunner.run` claims a job by `claim_next_queued` and passes it to
-- `process_job`, which ends it by `finish_job` or gives it back by `requeue_job`. The web server's
-- requests (token_bench/webapi.py) come between two claims as `enqueue`, `delete_job` and `retry_job`.
-- The ledger reads the turns of token_bench/activity_log.py and the results of token_bench/results.py.
-- `sync_published` is the operation that a publication stages.
--
-- State is passed explicitly. A transaction of the job store is a function from a `Store` to a result
-- and a `Store`; `BEGIN IMMEDIATE` and the rollback make it one step. `Step` and `Reach` are the
-- transactions and their histories. The data directory of a publication changes by `Write`s, each of
-- which the file system makes atomically; a crash stops between two of them.
--
-- An argument is what is not code of this repository (the hash of a plan's document, the file system,
-- whether the lock is held, the clock, what a command answers), and for a job what the calls of its
-- handler answer: the snapshot, the preflight check, the agent's process, the evaluation and the
-- publication (`Environment`). `Reply` says for each call whether it answers, raises the exception that
-- has a handler there, or raises another.
--
-- Bounds and fuel: the queue's loop runs over a list of rounds, and one round more than there are jobs
-- is enough. The search of `attempt_run_id` has one round more than there are published keys. The
-- digits of a number have more fuel than the number. Token counts are natural numbers, differences of
-- them integers; durations are in nanoseconds.
--
-- Not modelled: processes, signals and the proxy (token_bench/worker.py), the text of a JSON file, which
-- is parsed already, the hashes, the command line, the HTTP layer, the web page, the migration of old databases, the manifest of the diagnostics (token_bench/diagnostics.py).
-- Floats are an interface (`Floats`); a CSV file is the list of its rows.
pub mod Base
pub mod Authorization
pub mod JobStore
pub mod Transcript
pub mod JobRunner
pub mod QueueRunner
pub mod Worker
pub mod Workspace
pub mod ActivityLog
pub mod Ledger
pub mod Conditions
pub mod Collection
pub mod Preflight
pub mod Models
pub mod Results
pub mod Evaluation
