-- ===== src/Results.antt =====
-- token_bench/results.py: the result of one run, from the log of its process, and its file.
pub mod RoundTrip
pub mod Explained
pub mod Tests
use claude_code_token_saving.Base.{
  ℕ, zero, String, Bool, true, false, not, ◌&&◌, Option, none, some, List, [], ◌∷◌, map, Result, ok,
  err, Dict, lookup, lookup_or, if◌then◌else◌,
}
use claude_code_token_saving.Base.Int.{ℤ, pos}
use claude_code_token_saving.Authorization.{Fingerprint}
use claude_code_token_saving.Conditions.Json.{
  Float, Json, null, bool, int, float, text, array, object, Elements, last, element, Fields, end,
  field, elements, entries_from, is_empty,
}
use claude_code_token_saving.JobStore.{JobRecord}

-- `ResultsError` with the field that is missing, and the TypeError of a document that is no object or
-- of fingerprints that are no sequence.
pub data ResultsError : Type 0 where
  missing_field : String → ResultsError
  type_error : ResultsError

-- What a `RunResult` is given is kept as it is: `load` does not look at the values.
pub record RunResult : Type 0 where
  pub run_id : Json
  pub condition_id : Json
  pub repeat_index : Json
  pub content_id : Json
  pub auth_method : Json
  pub api_provider : Json
  pub timeout_seconds : Json
  pub isolation : Json
  pub tool_fingerprints : List Json
  pub claude_version : Json
  pub model : Json
  pub status : Json
  pub returncode : Json
  pub started_at : Json
  pub finished_at : Json
  pub duration_seconds : Json
  pub stdout_path : Json
  pub stderr_path : Json
  pub num_turns : Json
  pub cost_usd : Json
  pub usage : Json
  pub evaluation : Json

abbrev pub elements_of : List Json → Elements
elements_of [] = last
elements_of (x ∷ xs) = element x (elements_of xs)

abbrev pub to_dict : RunResult → Json
to_dict r = object (
    field "run_id" r.run_id (
      field "condition_id" r.condition_id (
        field "repeat_index" r.repeat_index (
          field "content_id" r.content_id (
            field "auth_method" r.auth_method (
              field "api_provider" r.api_provider (
                field "timeout_seconds" r.timeout_seconds (
                  field "isolation" r.isolation (
                    field "tool_fingerprints" (array (elements_of r.tool_fingerprints)) (
                      field "claude_version" r.claude_version (
                        field "model" r.model (
                          field "status" r.status (
                            field "returncode" r.returncode (
                              field "started_at" r.started_at (
                                field "finished_at" r.finished_at (
                                  field "duration_seconds" r.duration_seconds (
                                    field "stdout_path" r.stdout_path (
                                      field "stderr_path" r.stderr_path (
                                        field "num_turns" r.num_turns (
                                          field "cost_usd" r.cost_usd (
                                            field "usage" r.usage (
                                              field "evaluation" r.evaluation
                                                end))))))))))))))))))))))

-- `raw[key]`
abbrev pub required :
    String → Dict Json → (Json → Result ResultsError RunResult) → Result ResultsError RunResult
required key raw rest = elim (lookup key raw) [ none ↦ err (missing_field key) | some x ↦ rest x ]

abbrev pub characters : String → List Json
characters String.[] = []
characters (String.◌∷◌ c s) = text (String.◌∷◌ c "") ∷ characters s

-- `tuple(x)`
abbrev pub tuple_of : Json → Option (List Json)
tuple_of (array xs) = some (elements xs)
tuple_of (object fields) = some (map (λ (e : String × Json). text e.0) (entries_from [] fields))
tuple_of (text s) = some (characters s)
tuple_of _ = none

abbrev pub iterated :
    Json → (List Json → Result ResultsError RunResult) → Result ResultsError RunResult
iterated x rest = elim (tuple_of x) [ none ↦ err type_error | some xs ↦ rest xs ]

abbrev pub load_fields : Dict Json → Result ResultsError RunResult
load_fields raw = required "run_id" raw λ run_id. required "condition_id" raw λ condition_id.
    required "repeat_index" raw λ repeat_index. required "content_id" raw λ content_id.
      required "auth_method" raw λ auth_method. required "api_provider" raw λ api_provider.
        required "timeout_seconds" raw λ timeout_seconds.
          iterated (lookup_or "tool_fingerprints" (array last) raw) λ tool_fingerprints.
            required "claude_version" raw λ claude_version. required "model" raw λ model.
              required "status" raw λ status. required "returncode" raw λ returncode.
                required "started_at" raw λ started_at. required "finished_at" raw λ finished_at.
                  required "duration_seconds" raw λ duration_seconds.
                    required "stdout_path" raw λ stdout_path.
                      required "stderr_path" raw λ stderr_path.
                        required "num_turns" raw λ num_turns. required "cost_usd" raw λ cost_usd.
                          required "usage" raw λ usage. ok (record {
                            run_id = run_id;
                            condition_id = condition_id;
                            repeat_index = repeat_index;
                            content_id = content_id;
                            auth_method = auth_method;
                            api_provider = api_provider;
                            timeout_seconds = timeout_seconds;
                            isolation = lookup_or "isolation" (text "safe-mode") raw;
                            tool_fingerprints = tool_fingerprints;
                            claude_version = claude_version;
                            model = model;
                            status = status;
                            returncode = returncode;
                            started_at = started_at;
                            finished_at = finished_at;
                            duration_seconds = duration_seconds;
                            stdout_path = stdout_path;
                            stderr_path = stderr_path;
                            num_turns = num_turns;
                            cost_usd = cost_usd;
                            usage = usage;
                            evaluation = lookup_or "evaluation" null raw;
                          })

-- `load`, after the file is read and parsed
unfoldable pub load : Json → Result ResultsError RunResult
load (object fields) = load_fields (entries_from [] fields)
load _ = err type_error

-- `Transcript.parse_error`, `system_event` and `result_event`; an event that is not there is empty.
pub record Log : Type 0 where
  pub parse_error : Option String
  pub system_event : Dict Json
  pub result_event : Dict Json

-- what `collect` reads of `ProcessOutcome` (token_bench/worker.py)
pub record ProcessEnd : Type 0 where
  pub status : String
  pub returncode : Option ℤ
  pub started_at : String
  pub finished_at : String
  pub duration_seconds : Float
  pub stdout_path : String
  pub stderr_path : String

abbrev pub is_null : Json → Bool
is_null null = true
is_null _ = false

-- `x.get(key)`, where an object or null stands; of null, `(x or {}).get(key)`.
abbrev pub get : String → Json → Json
get key (object fields) = lookup_or key null (entries_from [] fields)
get key _ = null

abbrev pub field_of : (value missing_reason : Json) → Json
field_of value reason = object (field "value" value (field "missing_reason" reason end))

-- `_field`
abbrev pub reported : Json → Option String → Json
reported value none = field_of value null
reported value (some reason) =
    if is_null value then field_of null (text reason) else field_of value null

-- `a or b` of an optional text
abbrev pub text_or : Option String → String → String
text_or none t = t
text_or (some s) t = if is_empty s then t else s

abbrev pub no_system_event : String
no_system_event = "stdout 로그에 'system' 초기화 이벤트가 없다."

abbrev pub no_result_event : String
no_result_event = "stdout 로그에 'result' 종료 이벤트가 없다."

abbrev pub no_field : String
no_field = "원본 로그의 종료 이벤트에 이 필드가 없다."

abbrev pub unchecked : String
unchecked = "preflight에서 확인되지 않음"

abbrev pub missing_in : Log → Dict Json → String
missing_in log [] = text_or log.parse_error no_result_event
missing_in log (e ∷ es) = no_field

-- why a value of the last event is missing, if it is
abbrev pub reason_of : Log → Json → Option String
reason_of log value = if is_null value then some (missing_in log log.result_event) else none

abbrev pub model_reason : Log → Json → Option String
model_reason log value =
    if is_null value then some (text_or log.parse_error no_system_event) else none

-- `x or {}` where a dict is needed; `none` is the AttributeError of another value.
abbrev pub dict_or_empty : Json → Option (Dict Json)
dict_or_empty (object fields) = some (entries_from [] fields)
dict_or_empty null = some []
dict_or_empty (bool b) = if b then none else some []
dict_or_empty (int (pos zero)) = some []
dict_or_empty (float x) = if x.is_zero then some [] else none
dict_or_empty (text s) = if is_empty s then some [] else none
dict_or_empty (array last) = some []
dict_or_empty _ = none

abbrev pub usage_fields : List String
usage_fields =
    "input_tokens" ∷ "output_tokens" ∷ "cache_creation_input_tokens" ∷ "cache_read_input_tokens"
    ∷ []

abbrev pub from_event : Log → Dict Json → String → Json
from_event log source key =
    let value = lookup_or key null source in reported value (reason_of log value)

abbrev pub usage_of : Log → Dict Json → List String → Fields
usage_of log usage [] = end
usage_of log usage (key ∷ keys) = field key (from_event log usage key) (usage_of log usage keys)

abbrev pub text_or_null : Option String → Json
text_or_null none = null
text_or_null (some s) = text s

abbrev pub int_or_null : Option ℤ → Json
int_or_null none = null
int_or_null (some n) = int n

abbrev pub value_or_null : Option Json → Json
value_or_null none = null
value_or_null (some x) = x

-- `FingerprintResult.to_dict` is the argument `fingerprint`: a fingerprint is kept as its dict.
abbrev pub result_with :
    (Fingerprint → Json)
    → JobRecord
    → ProcessEnd
    → Dict Json
    → Option String
    → Option Json
    → Log
    → Dict Json
    → RunResult
result_with fingerprint job outcome auth version evaluation log usage =
    let model = lookup_or "model" null log.system_event in
    record {
      run_id = text job.run_id;
      condition_id = text job.condition_id;
      repeat_index = int (pos job.repeat_index);
      content_id = text job.content_id;
      auth_method = reported (lookup_or "auth_method" null auth) (some unchecked);
      api_provider = reported (lookup_or "api_provider" null auth) (some unchecked);
      timeout_seconds = int (pos job.timeout_seconds);
      isolation = text job.isolation;
      tool_fingerprints = map fingerprint job.tool_fingerprints;
      claude_version = reported (text_or_null version) (some unchecked);
      model = reported model (model_reason log model);
      status = text outcome.status;
      returncode = int_or_null outcome.returncode;
      started_at = text outcome.started_at;
      finished_at = text outcome.finished_at;
      duration_seconds = float outcome.duration_seconds;
      stdout_path = text outcome.stdout_path;
      stderr_path = text outcome.stderr_path;
      num_turns = from_event log log.result_event "num_turns";
      cost_usd = from_event log log.result_event "total_cost_usd";
      usage = object (usage_of log usage usage_fields);
      evaluation = value_or_null evaluation;
    }

-- `none` is the AttributeError of a usage that is no object.
unfoldable pub collect :
    (Fingerprint → Json)
    → JobRecord
    → ProcessEnd
    → Dict Json
    → Option String
    → Option Json
    → Log
    → Option RunResult
collect fingerprint job outcome auth version evaluation log =
    elim (dict_or_empty (lookup_or "usage" null log.result_event)) [
      | none ↦ none
      | some usage ↦ some (result_with fingerprint job outcome auth version evaluation log usage)
    ]
