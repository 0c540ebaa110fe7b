-- ===== src/JobStore/Samples.antt =====
-- A plan of one run, its approval, and the states of its job.
use claude_code_token_saving.Base.{none, [], ◌∷◌, refl, arith}
use claude_code_token_saving.Authorization.{EstimatePlan, PlannedRun, ApprovalRecord}
use claude_code_token_saving.JobStore.Row.{JobRecord}
use claude_code_token_saving.JobStore.Database.{Store, new_job, start_job}
use claude_code_token_saving.JobStore.Valid.{IsValid}

abbrev pub one_run : PlannedRun
one_run = record {
  run_id = "batch-1-base-1";
  condition_id = "base";
  repeat_index = 1;
  content_id = "c1";
  workdir = "/runs/batch-1-base-1/work";
  snapshot_path = "/runs/batch-1-base-1/snapshot.json";
  tool_fingerprints = [];
}

abbrev pub one_plan : EstimatePlan
one_plan = record {
  digest = "d1";
  batch_id = "batch-1";
  run_count = 1;
  runs = one_run ∷ [];
  timeout_seconds = 900;
  isolation = "clean";
  auth = none;
  cost_disclaimer = "";
  model = "";
}

abbrev pub one_approval : ApprovalRecord
one_approval = record { digest = "d1"; approved_at = "09:00"; plan = one_plan }

abbrev pub waiting_job : JobRecord
waiting_job = new_job "09:01" one_plan one_run 1

abbrev pub waiting_store : Store
waiting_store = record {
  jobs = waiting_job ∷ [];
  consumed_approvals = ("d1", "09:01") ∷ [];
  last_sequence = 1;
}

abbrev pub running_job : JobRecord
running_job = start_job "09:02" waiting_job

abbrev pub running_store : Store
running_store = record waiting_store { jobs = running_job ∷ [] }

abbrev pub spent_store : Store
spent_store = record waiting_store { jobs = [] }

pub waiting_store-IsValid : IsValid waiting_store
waiting_store-IsValid = record {
  ordered = (tt, tt);
  bounded = (omega arith, tt);
  unique = (tt, tt);
  consumed = (refl, tt);
  once = (tt, tt);
  rows = ((refl, (refl, refl, refl, refl, refl, refl)), tt);
}
