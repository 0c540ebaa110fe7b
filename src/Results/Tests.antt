-- ===== src/Results/Tests.antt =====
-- Results of token_bench/results.py for a job whose log has a last event without a cost.
use claude_code_token_saving.Base.{◌≡◌, refl, false, Option, none, some, [], ◌∷◌, ok, err}
use claude_code_token_saving.Base.Int.{pos}
use claude_code_token_saving.Authorization.{Fingerprint}
use claude_code_token_saving.JobStore.Samples.{running_job}
use claude_code_token_saving.Conditions.Json.{
  Json, null, int, text, array, object, last, field, end,
}
use claude_code_token_saving.Results.{
  RunResult, Log, ProcessEnd, missing_field, type_error, no_field, field_of, to_dict, load, collect,
  result_with,
}
use claude_code_token_saving.Results.RoundTrip.{load-to_dict}
use claude_code_token_saving.Results.Explained.{Collects, collect-Collects}

abbrev log : Log
log = record {
  parse_error = none;
  system_event = ("model", text "opus") ∷ [];
  result_event =
      ("num_turns", int (pos 7)) ∷ ("usage", object (field "input_tokens" (int (pos 12)) end)) ∷ [];
}

abbrev outcome : ProcessEnd
outcome = record {
  status = "succeeded";
  returncode = some (pos 0);
  started_at = "09:02";
  finished_at = "09:05";
  duration_seconds = record { literal = "180.5"; is_zero = false; is_one = false };
  stdout_path = "/logs/stdout.jsonl";
  stderr_path = "/logs/stderr.log";
}

abbrev fingerprint : Fingerprint → Json
fingerprint f = text "tool"

abbrev collected : Option RunResult
collected = collect fingerprint running_job outcome [] (some "2.0.1") none log

abbrev pub result : RunResult
result =
    result_with fingerprint running_job outcome [] (some "2.0.1") none log
      (("input_tokens", int (pos 12)) ∷ [])

unknown_cost : result.cost_usd ≡ field_of null (text no_field)
unknown_cost = refl

collected_result : collected ≡ some result
unfolding collect
collected_result = refl

load-to_dict_example : load (to_dict result) ≡ ok result
load-to_dict_example = load-to_dict result

collect-Collects_example : Collects [] (some "2.0.1") log collected
collect-Collects_example =
    collect-Collects fingerprint running_job outcome [] (some "2.0.1") none log

no_content_id :
    load (
      object (
        field "run_id"
          (text "r")
          (field "condition_id" (text "c") (field "repeat_index" null end))))
    ≡ err (missing_field "content_id")
unfolding load
no_content_id = refl

a_list : load (array last) ≡ err type_error
unfolding load
a_list = refl
