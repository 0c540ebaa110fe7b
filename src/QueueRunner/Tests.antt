-- ===== src/QueueRunner/Tests.antt =====
-- Runs of token_bench/queue_runner.py on a queue of one job.
use claude_code_token_saving.Base.{refl, true, false, none, [], ◌∷◌, arith}
use claude_code_token_saving.JobStore.{succeeded}
use claude_code_token_saving.JobStore.Samples.{waiting_store, waiting_store-IsValid}
use claude_code_token_saving.JobRunner.Samples.{whole_log, answers, answers-IsHandled}
use claude_code_token_saving.QueueRunner.{Mode, Runner, Round, run}
use claude_code_token_saving.QueueRunner.Safe.{AnswersWell, IsSafe, run-IsSafe}
use claude_code_token_saving.QueueRunner.Drain.{HasEnded, run_drains}

abbrev drain_mode : Mode
drain_mode = record { once = false; exit_when_empty = true; stop_on_error = true }

abbrev idle_runner : Runner
idle_runner = record { current_run_id = none; cancel_event = false; shutdown = false }

abbrev quiet_round : Round
quiet_round = record {
  requests = [];
  stopped = false;
  now = "09:02";
  answers = λ _. answers succeeded whole_log;
}

quiet_round-AnswersWell : AnswersWell quiet_round
quiet_round-AnswersWell j = ((refl, refl), answers-IsHandled succeeded whole_log)

run-IsSafe_example :
    IsSafe (run drain_mode false (quiet_round ∷ quiet_round ∷ []) (idle_runner, waiting_store))
run-IsSafe_example =
    run-IsSafe drain_mode (quiet_round ∷ quiet_round ∷ []) idle_runner waiting_store
      waiting_store-IsValid refl (quiet_round-AnswersWell, (quiet_round-AnswersWell, tt))

run_drains_example :
    HasEnded (run drain_mode false (quiet_round ∷ quiet_round ∷ []) (idle_runner, waiting_store))
run_drains_example =
    run_drains drain_mode (quiet_round ∷ quiet_round ∷ []) idle_runner waiting_store refl refl
      waiting_store-IsValid refl refl (quiet_round-AnswersWell, (quiet_round-AnswersWell, tt))
      ((refl, refl), ((refl, refl), tt)) (omega arith)
