-- ===== src/JobStore/Valid.antt =====
-- The invariant of the state database, and what each statement does to it.
use claude_code_token_saving.Base.{
  ◌+◌, ◌≤◌, ◌<◌, String, ◌≡◌, ◌≢◌, Bool, true, false, none, List, [], ◌∷◌, ◌++◌, any, keep, All,
  All-append, All-keep, All-map, Pairwise, Pairwise-append_one, Pairwise-keep, arith, ◌==◌,
  string_eq,
}
use claude_code_token_saving.JobStore.Table.{update_where, All-update, Pairwise-update}
use claude_code_token_saving.JobStore.Row.{Status, queued, running, JobRecord}
use claude_code_token_saving.JobStore.Database.{Store, empty_store, is_consumed, has_id}

-- Which columns are NULL, by status: the times and the ending of an earlier try are never shown for
-- a job that waits or runs.
abbrev pub NoEnding : JobRecord → Type 0
NoEnding j =
    (j.finished_at ≡ none)
    × (j.duration_seconds ≡ none)
    × (j.returncode ≡ none)
    × (j.stdout_path ≡ none)
    × (j.stderr_path ≡ none)
    × (j.command_json ≡ none)

abbrev pub RowShape : Status → JobRecord → Type 0
RowShape queued j = (j.started_at ≡ none) × NoEnding j
RowShape running j = (j.started_at ≢ none) × NoEnding j
RowShape _ j = (j.started_at ≢ none) × (j.finished_at ≢ none)

abbrev pub IsRow : JobRecord → Type 0
IsRow j = RowShape j.status j

abbrev pub Before : JobRecord → JobRecord → Type 0
Before a b = a.sequence < b.sequence

abbrev pub DiffersFrom : JobRecord → JobRecord → Type 0
DiffersFrom a b = (a.run_id == b.run_id) ≡ false

abbrev pub KeysDiffer : String × String → String × String → Type 0
KeysDiffer a b = (a.0 == b.0) ≡ false

abbrev pub IsConsumedIn : Store → JobRecord → Type 0
IsConsumedIn s j = is_consumed j.digest s ≡ true

pub record IsValid (s : Store) : Type 0 where
  pub ordered : Pairwise Before s.jobs
  pub bounded : All (λ j. j.sequence ≤ s.last_sequence) s.jobs
  pub unique : Pairwise DiffersFrom s.jobs
  pub consumed : All (IsConsumedIn s) s.jobs
  pub once : Pairwise KeysDiffer s.consumed_approvals
  pub rows : All IsRow s.jobs

pub empty_store-IsValid : IsValid empty_store
empty_store-IsValid = record {
  ordered = tt;
  bounded = tt;
  unique = tt;
  consumed = tt;
  once = tt;
  rows = tt;
}

-- An UPDATE that leaves the key columns alone, and gives the rows that it hits a valid shape.
pub record IsRowUpdate (test : JobRecord → Bool) (f : JobRecord → JobRecord) : Type 0 where
  pub keeps_sequence : (j : JobRecord) → (f j).sequence ≡ j.sequence
  pub keeps_run_id : (j : JobRecord) → (f j).run_id ≡ j.run_id
  pub keeps_digest : (j : JobRecord) → (f j).digest ≡ j.digest
  pub shapes : (j : JobRecord) → IsRow j → test j ≡ true → IsRow (f j)

module _ (s : Store) (test : JobRecord → Bool) (f : JobRecord → JobRecord) where
  pub update-IsValid :
      IsRowUpdate test f → IsValid s → IsValid (record s { jobs = update_where test f s.jobs })
  update-IsValid u v = record {
    ordered =
        Pairwise-update test f (λ x y r. rw u.keeps_sequence r) (λ x y r. rw u.keeps_sequence r)
          s.jobs v.ordered;
    bounded = All-update test f (λ x p _. rw u.keeps_sequence p) (λ x p _. p) s.jobs v.bounded;
    unique =
        Pairwise-update test f (λ x y r. rw u.keeps_run_id r) (λ x y r. rw u.keeps_run_id r) s.jobs
          v.unique;
    consumed = All-update test f (λ x p _. rw u.keeps_digest p) (λ x p _. p) s.jobs v.consumed;
    once = v.once;
    rows = All-update test f u.shapes (λ x p _. p) s.jobs v.rows;
  }

-- DELETE
pub keep-IsValid :
    (s : Store) (test : JobRecord → Bool)
    → IsValid s
    → IsValid (record s { jobs = keep test s.jobs })
keep-IsValid s test v = record {
  ordered = Pairwise-keep Before test s.jobs v.ordered;
  bounded = All-keep _ test s.jobs v.bounded;
  unique = Pairwise-keep DiffersFrom test s.jobs v.unique;
  consumed = All-keep (IsConsumedIn s) test s.jobs v.consumed;
  once = v.once;
  rows = All-keep IsRow test s.jobs v.rows;
}

-- INSERT INTO consumed_approvals
module _ (digest now : String) where
  any-append :
      (rows : List (String × String)) (d : String)
      → any (λ row. row.0 == d) rows ≡ true
      → any (λ row. row.0 == d) (rows ++ (digest, now) ∷ []) ≡ true
  any-append [] d h = cc
  any-append (r ∷ rows) d h = ground (arith, any-append rows d)

  fresh_key :
      (rows : List (String × String))
      → any (λ row. row.0 == digest) rows ≡ false
      → All (λ row. KeysDiffer row (digest, now)) rows
  fresh_key [] h = tt
  fresh_key (r ∷ rows) h = (ground arith, fresh_key rows (ground arith))

  abbrev pub consume : Store → Store
  consume s = record s { consumed_approvals = s.consumed_approvals ++ (digest, now) ∷ [] }

  pub consume-IsValid : (s : Store) → IsValid s → is_consumed digest s ≡ false → IsValid (consume s)
  consume-IsValid s v fresh = record {
    ordered = v.ordered;
    bounded = v.bounded;
    unique = v.unique;
    consumed = All-map (λ j. any-append s.consumed_approvals j.digest) s.jobs v.consumed;
    once =
        Pairwise-append_one KeysDiffer s.consumed_approvals (digest, now) v.once
          (fresh_key s.consumed_approvals fresh);
    rows = v.rows;
  }

-- INSERT INTO jobs
fresh_id :
    (run_id : String) (jobs : List JobRecord)
    → any (has_id run_id) jobs ≡ false
    → All (λ j. (j.run_id == run_id) ≡ false) jobs
fresh_id run_id [] h = tt
fresh_id run_id (j ∷ jobs) h = (ground arith, fresh_id run_id jobs (ground arith))

pub insert-IsValid :
    (s : Store) (j : JobRecord)
    → IsValid s
    → j.sequence ≡ s.last_sequence + 1
    → any (has_id j.run_id) s.jobs ≡ false
    → IsConsumedIn s j
    → IsRow j
    → IsValid (record s { jobs = s.jobs ++ j ∷ []; last_sequence = s.last_sequence + 1 })
insert-IsValid s j v next fresh used shape = record {
  ordered =
      Pairwise-append_one Before s.jobs j v.ordered
        (All-map (λ k b. omega (arith, next)) s.jobs v.bounded);
  bounded =
      All-append _ s.jobs (j ∷ []) (All-map (λ k b. omega arith) s.jobs v.bounded)
        (omega arith, tt);
  unique = Pairwise-append_one DiffersFrom s.jobs j v.unique (fresh_id j.run_id s.jobs fresh);
  consumed = All-append (IsConsumedIn s) s.jobs (j ∷ []) v.consumed (used, tt);
  once = v.once;
  rows = All-append IsRow s.jobs (j ∷ []) v.rows (shape, tt);
}
