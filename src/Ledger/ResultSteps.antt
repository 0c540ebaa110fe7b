-- ===== src/Ledger/ResultSteps.antt =====
-- `_publish_jobs` of token_bench/ledger.py adds a row of the results for each job that has none.
use claude_code_token_saving.Base.{
  String, Bool, true, false, ◌≡◌, refl, ap, ◌∙◌, ◌⊎◌, inl, inr, Option, none, some, List, [], ◌∷◌,
  map, All, Dict, insert, Bool-cases,
}
use claude_code_token_saving.JobStore.{JobRecord}
use claude_code_token_saving.Results.{RunResult}
use claude_code_token_saving.Conditions.Json.{Json, text}
use claude_code_token_saving.Ledger.Published.{
  Pair, Cells, Keys, pair_of, status_text, is_publishable, has_pair,
}
use claude_code_token_saving.Ledger.ResultRows.{
  row_of, cell, cells_of, written, row_for, new_row, new_rows, row_then, published_with,
}
use claude_code_token_saving.Ledger.Keys.{HasKey}
use claude_code_token_saving.Ledger.Appends.{
  IsNamed, Done, IsRowOf, Appends, nothing, skipped, added, key_for-known,
}

-- The result of a job has the job's status.
abbrev pub Matches : (JobRecord → Option RunResult) → JobRecord → Type 0
Matches load job = (r : RunResult) → load job ≡ some r → r.status ≡ text (status_text job.status)

abbrev pub rows_in :
    (Json → String) → (JobRecord → Option RunResult) → List (Dict Json) → List Cells
rows_in str load rows = map (λ row. cells_of str load (written str load row)) rows

-- `str` of a text is the text.
module _ (str : Json → String) (load : JobRecord → Option RunResult)
    (str_text : (s : String) → str (text s) ≡ s) where
  abbrev Step : Keys → List Pair → JobRecord → Option (String × Dict Json) → Type 0
  Step keys pairs job none = Done load pairs job
  Step keys pairs job (some (key, row)) =
      IsRowOf keys job (cells_of str load (written str load row))

  row_cells :
      (job : JobRecord) (r : RunResult) (key : String)
      → r.status ≡ text (status_text job.status)
      → cells_of str load (written str load (insert "run_id" (text key) (row_of job r)))
        ≡ (some key, some (status_text job.status))
  row_cells job r key e = λ i.
      (some (str_text key i), some ((ap (cell str load) e ∙ str_text (status_text job.status)) i))

  new_row-Step :
      (keys : Keys) (pairs : List Pair) (published : List String) (job : JobRecord)
      → HasKey keys job
      → IsNamed job
      → Matches load job
      → Step keys pairs job (new_row str load keys pairs published job)
  unfolding row_for
  new_row-Step keys pairs published job has named matches =
      go (has_pair pairs (pair_of job)) (is_publishable job.status) (load job) refl refl refl
    where
      go :
          (there publishable : Bool) (result : Option RunResult)
          → has_pair pairs (pair_of job) ≡ there
          → is_publishable job.status ≡ publishable
          → load job ≡ result
          → Step keys pairs job (new_row str load keys pairs published job)
      go true publishable result e f g = rw e (inl e)
      go false false result e f g = rw e (rw f (inr (inl f)))
      go false true none e f g = rw e (rw f (rw g (inr (inr g))))
      go false true (some r) e f g =
          let (key, known, own, held, full) =
            key_for-known keys job (str r.run_id) published has named f in
          rw e (
            rw f (
              rw g (
                key,
                ap
                      (λ k.
                        cells_of str load
                          (written str load (insert "run_id" (text k) (row_of job r))))
                      known
                    ∙ row_cells job r key (matches r g),
                own,
                held,
                full,
              )))

  step_rows :
      (keys : Keys) (pairs : List Pair) (published : List String) (job : JobRecord)
      (jobs : List JobRecord) (rest : List String → List (Dict Json))
      (new : Option (String × Dict Json))
      → Step keys pairs job new
      → ((published : List String)
          → Appends keys load pairs jobs (rows_in str load (rest published)))
      → Appends keys load pairs
          (job ∷ jobs)
          (rows_in str load (row_then str load new (rest (published_with str load new published))))
  step_rows keys pairs published job jobs rest none h more = skipped h (more published)
  step_rows keys pairs published job jobs rest (some (key, row)) h more =
      added h (more (key ∷ published))

  pub new_rows-Appends :
      (keys : Keys) (pairs : List Pair) (published : List String) (jobs : List JobRecord)
      → All (HasKey keys) jobs
      → All IsNamed jobs
      → All (Matches load) jobs
      → Appends keys load pairs jobs
          (rows_in str load (new_rows str load keys pairs published jobs))
  unfolding new_rows
  new_rows-Appends keys pairs published [] has named matches = nothing
  new_rows-Appends keys pairs published (job ∷ jobs) has named matches =
      step_rows keys pairs published job jobs (λ p. new_rows str load keys pairs p jobs)
        (new_row str load keys pairs published job)
        (new_row-Step keys pairs published job has.0 named.0 matches.0)
        (λ p. new_rows-Appends keys pairs p jobs has.1 named.1 matches.1)

-- Nothing is added for jobs that are done with.
module _ (str : Json → String) (load : JobRecord → Option RunResult) where
  Done-row_for :
      (job : JobRecord)
      → (is_publishable job.status ≡ false) ⊎ (load job ≡ none)
      → row_for str load job ≡ none
  unfolding row_for
  Done-row_for job (inl e) = rw e refl
  Done-row_for job (inr e) = elim (Bool-cases (is_publishable job.status)) [
    | inl f ↦ rw f (rw e refl)
    | inr f ↦ rw f refl
  ]

  Done-new_row :
      (keys : Keys) (pairs : List Pair) (published : List String) (job : JobRecord)
      → Done load pairs job
      → new_row str load keys pairs published job ≡ none
  Done-new_row keys pairs published job (inl e) = rw e refl
  Done-new_row keys pairs published job (inr e) = elim (Bool-cases (has_pair pairs (pair_of job))) [
    | inl f ↦ rw f refl
    | inr f ↦ rw f (rw (Done-row_for job e) refl)
  ]

  pub Done-new_rows :
      (keys : Keys) (pairs : List Pair) (published : List String) (jobs : List JobRecord)
      → All (Done load pairs) jobs
      → new_rows str load keys pairs published jobs ≡ []
  unfolding new_rows
  Done-new_rows keys pairs published [] h = refl
  Done-new_rows keys pairs published (job ∷ jobs) h =
      rw (Done-new_row keys pairs published job h.0) (Done-new_rows keys pairs published jobs h.1)
