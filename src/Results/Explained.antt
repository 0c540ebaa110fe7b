-- ===== src/Results/Explained.antt =====
-- What a result says of the values in the log (token_bench/results.py).
use claude_code_token_saving.Base.{String, ◌≡◌, refl, not, Option, none, some, Dict, lookup_or, All}
use claude_code_token_saving.Authorization.{Fingerprint}
use claude_code_token_saving.Conditions.Json.{Json, null, bool, int, float, text, array, object}
use claude_code_token_saving.JobStore.{JobRecord}
use claude_code_token_saving.Results.{
  get, RunResult, Log, ProcessEnd, is_null, reported, reason_of, model_reason, unchecked,
  dict_or_empty, usage_fields, text_or_null, result_with, collect,
}

-- A field has the value, and a reason exactly if the value is missing.
abbrev pub Keeps : Json → Json → Type 0
Keeps x f = (get "value" f ≡ x) × (is_null x ≡ not (is_null (get "missing_reason" f)))

event_kept : (log : Log) (x : Json) → Keeps x (reported x (reason_of log x))
event_kept log null = (refl, refl)
event_kept log (bool b) = (refl, refl)
event_kept log (int n) = (refl, refl)
event_kept log (float x) = (refl, refl)
event_kept log (text s) = (refl, refl)
event_kept log (array xs) = (refl, refl)
event_kept log (object fs) = (refl, refl)

model_kept : (log : Log) (x : Json) → Keeps x (reported x (model_reason log x))
model_kept log null = (refl, refl)
model_kept log (bool b) = (refl, refl)
model_kept log (int n) = (refl, refl)
model_kept log (float x) = (refl, refl)
model_kept log (text s) = (refl, refl)
model_kept log (array xs) = (refl, refl)
model_kept log (object fs) = (refl, refl)

checked_kept : (x : Json) → Keeps x (reported x (some unchecked))
checked_kept null = (refl, refl)
checked_kept (bool b) = (refl, refl)
checked_kept (int n) = (refl, refl)
checked_kept (float x) = (refl, refl)
checked_kept (text s) = (refl, refl)
checked_kept (array xs) = (refl, refl)
checked_kept (object fs) = (refl, refl)

-- Each field of the result has the value of its source, where it has one.
abbrev pub Reports : Dict Json → Option String → Log → Dict Json → RunResult → Type 0
Reports auth version log usage r =
    Keeps (lookup_or "model" null log.system_event) r.model
    × Keeps (lookup_or "num_turns" null log.result_event) r.num_turns
    × Keeps (lookup_or "total_cost_usd" null log.result_event) r.cost_usd
    × All (λ key. Keeps (lookup_or key null usage) (get key r.usage)) usage_fields
    × Keeps (lookup_or "auth_method" null auth) r.auth_method
    × Keeps (lookup_or "api_provider" null auth) r.api_provider
    × Keeps (text_or_null version) r.claude_version

-- of what `collect` returns; without a result the usage is no object
abbrev pub Collects : Dict Json → Option String → Log → Option RunResult → Type 0
Collects auth version log none = dict_or_empty (lookup_or "usage" null log.result_event) ≡ none
Collects auth version log (some r) =
    (usage : Dict Json) × (dict_or_empty (lookup_or "usage" null log.result_event) ≡ some usage)
    × Reports auth version log usage r

module _ (fingerprint : Fingerprint → Json) (job : JobRecord) (outcome : ProcessEnd)
    (auth : Dict Json) (version : Option String) (evaluation : Option Json) (log : Log) where
  with_Reports :
      (usage : Dict Json)
      → Reports auth version log usage
          (result_with fingerprint job outcome auth version evaluation log usage)
  with_Reports usage = (
    model_kept log (lookup_or "model" null log.system_event),
    event_kept log (lookup_or "num_turns" null log.result_event),
    event_kept log (lookup_or "total_cost_usd" null log.result_event),
    (
      event_kept log (lookup_or "input_tokens" null usage),
      (
        event_kept log (lookup_or "output_tokens" null usage),
        (
          event_kept log (lookup_or "cache_creation_input_tokens" null usage),
          (event_kept log (lookup_or "cache_read_input_tokens" null usage), tt),
        ),
      ),
    ),
    checked_kept (lookup_or "auth_method" null auth),
    checked_kept (lookup_or "api_provider" null auth),
    checked_kept (text_or_null version),
  )

  collected :
      (o : Option (Dict Json))
      → dict_or_empty (lookup_or "usage" null log.result_event) ≡ o
      → Collects auth version log (elim o [
        | none ↦ none
        | some usage ↦ some (result_with fingerprint job outcome auth version evaluation log usage)
      ])
  collected none e = e
  collected (some usage) e = (usage, e, with_Reports usage)

  -- A result has, for the model, the turns, the cost, each count of tokens, the authentication and the
  -- version, the value that its source has, and a reason exactly if the source has none: a missing
  -- value never becomes 0. There is no result only if the usage of the last event is no object.
  pub collect-Collects :
      Collects auth version log (collect fingerprint job outcome auth version evaluation log)
  unfolding collect
  collect-Collects = collected _ refl
