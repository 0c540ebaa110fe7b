-- ===== src/Ledger/Published.antt =====
-- token_bench/ledger.py: what the published tables say of the runs (`_read_published`), and the keys of
-- the attempts that are still to be published (`_attempt_keys`).
use claude_code_token_saving.Base.{
  String, Bool, true, false, not, ◌&&◌, Option, none, some, List, [], ◌∷◌, any, Result, ok, err,
  ◌==◌, string_eq, pair_eq, if◌then◌else◌,
}
use claude_code_token_saving.JobStore.{
  JobRecord, Status, queued, running, succeeded, failed, timeout, cancelled, blocked, config_error,
  worker_error,
}
use claude_code_token_saving.Conditions.Json.{is_empty}
use claude_code_token_saving.Ledger.Attempts.{base_run_id, attempt_run_id}

-- A run id and a status.
abbrev pub Pair : Type 0
Pair = String × String

-- The cells of a row in the columns of the key and of the status; `none` for a column that is not there.
abbrev pub Cells : Type 0
Cells = Option String × Option String

abbrev pub status_text : Status → String
status_text queued = "queued"
status_text running = "running"
status_text succeeded = "succeeded"
status_text failed = "failed"
status_text timeout = "timeout"
status_text cancelled = "cancelled"
status_text blocked = "blocked"
status_text config_error = "config-error"
status_text worker_error = "worker-error"

abbrev pub pair_of : JobRecord → Pair
pair_of job = (job.run_id, status_text job.status)

-- `PUBLISHABLE_STATUSES`
abbrev pub is_publishable : Status → Bool
is_publishable succeeded = true
is_publishable failed = true
is_publishable timeout = true
is_publishable _ = false

-- `x or ""`
abbrev pub or_empty : Option String → String
or_empty none = ""
or_empty (some s) = s

abbrev pub read_keys : List Cells → List String
read_keys [] = []
read_keys ((none, status) ∷ rows) = read_keys rows
read_keys ((some key, status) ∷ rows) =
    let rest = read_keys rows in if is_empty key then rest else key ∷ rest

abbrev pub read_pairs : List Cells → List Pair
read_pairs [] = []
read_pairs ((none, status) ∷ rows) = read_pairs rows
read_pairs ((some key, status) ∷ rows) =
    let rest = read_pairs rows in
    if is_empty key then rest else (base_run_id key, or_empty status) ∷ rest

abbrev pub has_pair : List Pair → Pair → Bool
has_pair pairs pair = any (λ other. other == pair) pairs

-- `dict` with pairs as keys
abbrev pub Keys : Type 0
Keys = List (Pair × String)

abbrev pub key_at : Pair → Keys → Option String
key_at pair [] = none
key_at pair ((other, key) ∷ keys) = if other == pair then some key else key_at pair keys

abbrev pub put_key : Pair → String → Keys → Keys
put_key pair key [] = (pair, key) ∷ []
put_key pair key ((other, k) ∷ keys) =
    if other == pair then (other, key) ∷ keys else (other, k) ∷ put_key pair key keys

-- The search for a free key always ends.
abbrev pub next_key : String → List String → String
next_key run_id keys = elim (attempt_run_id run_id keys) [ none ↦ run_id | some key ↦ key ]

-- `(run_ids or {}).get(pair) or attempt_run_id(run_id, published)`
abbrev pub key_for : Keys → Pair → String → List String → String
key_for run_ids pair run_id published = elim (key_at pair run_ids) [
  | none ↦ next_key run_id published
  | some key ↦ if is_empty key then next_key run_id published else key
]

-- The ValueError of a run that has another key in the other table, and the KeyError of a column.
pub data KeyError : Type 0 where
  keys_differ : String → KeyError
  no_column : KeyError

abbrev pub is_other_key : Option String → String → Bool
is_other_key none key = false
is_other_key (some other) key = not (other == key)

-- The keys so far, and their dict.
abbrev pub Found : Type 0
Found = List String × Keys

abbrev pub read_row : Cells → Found → Result KeyError Found
read_row (some key, some status) (keys, pairs) =
    let pair : Pair = (base_run_id key, status) in
    if is_other_key (key_at pair pairs) key
    then err (keys_differ (base_run_id key))
    else ok (key ∷ keys, put_key pair key pairs)
read_row _ state = err no_column

abbrev pub and_then :
    Result KeyError Found → (Found → Result KeyError Found) → Result KeyError Found
and_then (err e) rest = err e
and_then (ok state) rest = rest state

unfoldable pub read_rows : List Cells → Found → Result KeyError Found
read_rows [] state = ok state
read_rows (row ∷ rows) state = and_then (read_row row state) (read_rows rows)

abbrev pub has_key : Option String → Bool
has_key none = false
has_key (some key) = true

abbrev pub add_job : JobRecord → Found → Found
add_job job (keys, pairs) =
    let key = next_key job.run_id keys in
    if is_publishable job.status && not (has_key (key_at (pair_of job) pairs))
    then (key ∷ keys, put_key (pair_of job) key pairs)
    else (keys, pairs)

unfoldable pub add_jobs : List JobRecord → Found → Found
add_jobs [] state = state
add_jobs (job ∷ jobs) state = add_jobs jobs (add_job job state)

abbrev pub keys_of : List JobRecord → Result KeyError Found → Result KeyError Keys
keys_of jobs (err e) = err e
keys_of jobs (ok state) = ok (add_jobs jobs state).1

-- The rows of the results are read first, then those of the summary.
unfoldable pub attempt_keys : List JobRecord → (results summary : List Cells) → Result KeyError Keys
unfolding read_rows add_jobs
attempt_keys jobs results summary =
    keys_of jobs (and_then (read_rows results ([], [])) (read_rows summary))
