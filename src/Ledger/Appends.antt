-- ===== src/Ledger/Appends.antt =====
-- The rows that token_bench/ledger.py adds to a table for a list of jobs, whichever the table.
use claude_code_token_saving.Base.{
  String, true, false, ◌||◌, ◌≡◌, refl, sym, ap, ◌∙◌, ◌⊎◌, inl, inr, Option, none, some, List, [],
  ◌∷◌, ◌++◌, All, All-map, string_eq, pair_eq, ==_refl, Bool-cases, arith,
}
use mathlib.Core.Path.{subst}
use claude_code_token_saving.JobStore.{JobRecord}
use claude_code_token_saving.Results.{RunResult}
use claude_code_token_saving.Conditions.Json.{is_empty}
use claude_code_token_saving.Ledger.Attempts.{base_run_id}
use claude_code_token_saving.Ledger.Published.{
  Pair, Cells, Keys, pair_of, status_text, is_publishable, or_empty, read_pairs, has_pair, key_for,
}
use claude_code_token_saving.Ledger.Keys.{Has, HasKey, Agrees}

-- A run id is not empty.
abbrev pub IsNamed : JobRecord → Type 0
IsNamed job = is_empty job.run_id ≡ false

-- Nothing is to be added for the job: its pair is there, its status is not published, or it has no result.
abbrev pub Done : (JobRecord → Option RunResult) → List Pair → JobRecord → Type 0
Done load pairs job =
    (has_pair pairs (pair_of job) ≡ true) ⊎ (is_publishable job.status ≡ false) ⊎ (load job ≡ none)

-- The row has the job's key and its status.
abbrev pub IsRowOf : Keys → JobRecord → Cells → Type 0
IsRowOf keys job cells =
    (key : String) × (cells ≡ (some key, some (status_text job.status)))
    × (base_run_id key ≡ job.run_id)
    × Has keys (pair_of job) key
    × (is_empty key ≡ false)

pub data Appends (keys : Keys) (load : JobRecord → Option RunResult) (pairs : List Pair)
    : List JobRecord → List Cells → Type 0 where
  nothing : Appends keys load pairs [] []
  skipped :
      {job : JobRecord} {jobs : List JobRecord} {rows : List Cells}
      → Done load pairs job
      → Appends keys load pairs jobs rows
      → Appends keys load pairs (job ∷ jobs) rows
  added :
      {job : JobRecord} {jobs : List JobRecord} {row : Cells} {rows : List Cells}
      → IsRowOf keys job row
      → Appends keys load pairs jobs rows
      → Appends keys load pairs (job ∷ jobs) (row ∷ rows)

not_empty :
    (key run_id : String)
    → base_run_id key ≡ run_id
    → is_empty run_id ≡ false
    → is_empty key ≡ false
unfolding base_run_id
not_empty String.[] run_id e h = ap is_empty e ∙ h
not_empty (String.◌∷◌ c s) run_id e h = refl

-- The key of a job's new row is that of the dict.
pub key_for-known :
    (keys : Keys) (job : JobRecord) (other : String) (published : List String)
    → HasKey keys job
    → IsNamed job
    → is_publishable job.status ≡ true
    → (key : String) × (key_for keys (pair_of job) other published ≡ key)
      × (base_run_id key ≡ job.run_id)
      × Has keys (pair_of job) key
      × (is_empty key ≡ false)
key_for-known keys job other published has named publishable =
    let (key, own, there) = has publishable in
    let full = not_empty key job.run_id own named in
    (key, rw (key_for, there) (rw full refl), own, there, full)

has_pair-append :
    (a b : List Pair) (pair : Pair) → has_pair (a ++ b) pair ≡ has_pair a pair || has_pair b pair
has_pair-append [] b pair = refl
has_pair-append (p ∷ a) b pair = ground (arith, has_pair-append a b pair)

-- Every pair of the one list is in the other.
abbrev pub Covers : List Pair → List Pair → Type 0
Covers a b = (pair : Pair) → has_pair a pair ≡ true → has_pair b pair ≡ true

pub Done-Covers :
    (load : JobRecord → Option RunResult) (a b : List Pair)
    → Covers a b
    → (job : JobRecord) → Done load a job
    → Done load b job
Done-Covers load a b covers job (inl h) = inl (covers (pair_of job) h)
Done-Covers load a b covers job (inr h) = inr h

pub read_pairs-append : (a b : List Cells) → read_pairs (a ++ b) ≡ read_pairs a ++ read_pairs b
read_pairs-append [] b = refl
read_pairs-append ((none, status) ∷ a) b = read_pairs-append a b
read_pairs-append ((some key, status) ∷ a) b = elim (Bool-cases (is_empty key)) [
  | inl e ↦ rw e (read_pairs-append a b)
  | inr e ↦ rw e (ap (λ ps. (base_run_id key, or_empty status) ∷ ps) (read_pairs-append a b))
]

in_front : (a b : List Pair) → Covers a (a ++ b)
in_front a b pair h = ground (arith, has_pair-append a b pair, h)

behind : (a b : List Pair) → Covers b (a ++ b)
behind a b pair h = ground (arith, has_pair-append a b pair, h)

-- A row of a job has its pair, and agrees with the keys.
row_pair :
    (keys : Keys) (job : JobRecord) (row : Cells) (rows : List Cells)
    → IsRowOf keys job row
    → read_pairs (row ∷ rows) ≡ pair_of job ∷ read_pairs rows
row_pair keys job row rows (key, e, own, there, full) =
    ap (λ r. read_pairs (r ∷ rows)) e
    ∙ rw full (ap (λ id. (id, status_text job.status) ∷ read_pairs rows) own)

row-Agrees : (keys : Keys) (job : JobRecord) (row : Cells) → IsRowOf keys job row → Agrees keys row
row-Agrees keys job row (key, e, own, there, full) =
    subst (Agrees keys) (sym e)
      (subst (λ id. Has keys (id, status_text job.status) key) (sym own) there)

pub Appends-Agrees :
    (keys : Keys) (load : JobRecord → Option RunResult) (pairs : List Pair) {jobs : List JobRecord}
    {rows : List Cells}
    → Appends keys load pairs jobs rows
    → All (Agrees keys) rows
Appends-Agrees keys load pairs nothing = tt
Appends-Agrees keys load pairs (skipped h more) = Appends-Agrees keys load pairs more
Appends-Agrees keys load pairs (added {job} {jobs} {row} {rows} h more) =
    (row-Agrees keys job row h, Appends-Agrees keys load pairs more)

skipping : (a b : List Pair) (p : Pair) → Covers (a ++ b) (a ++ p ∷ b)
skipping a b p pair h = ground (arith, has_pair-append a b pair, has_pair-append a (p ∷ b) pair, h)

-- With the pairs of the new rows nothing is left to be added.
pub Appends-Done :
    (keys : Keys) (load : JobRecord → Option RunResult) (pairs : List Pair) {jobs : List JobRecord}
    {rows : List Cells}
    → Appends keys load pairs jobs rows
    → All (Done load (pairs ++ read_pairs rows)) jobs
Appends-Done keys load pairs nothing = tt
Appends-Done keys load pairs (skipped {job} {jobs} {rows} h more) = (
  Done-Covers load pairs (pairs ++ read_pairs rows) (in_front pairs (read_pairs rows)) job h,
  Appends-Done keys load pairs more,
)
Appends-Done keys load pairs (added {job} {jobs} {row} {rows} h more) =
    let old = read_pairs rows in
    let pair = pair_of job in
    let here : has_pair (pair ∷ old) pair ≡ true = rw (==_refl pair) refl in
    subst (λ ps. All (Done load (pairs ++ ps)) (job ∷ jobs)) (sym (row_pair keys job row rows h))
      (
        inl (behind pairs (pair ∷ old) pair here),
        All-map (Done-Covers load (pairs ++ old) (pairs ++ pair ∷ old) (skipping pairs old pair))
            jobs (Appends-Done keys load pairs more),
      )
