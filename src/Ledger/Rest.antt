-- ===== src/Ledger/Rest.antt =====
-- What is left of the jobs when token_bench/ledger.py has added the rows of a table.
use claude_code_token_saving.Base.{
  String, ◌≡◌, refl, sym, ap, Option, List, [], ◌∷◌, ◌++◌, map, All, All-append, Dict,
}
use mathlib.Core.Path.{subst}
use mathlib.Core.List.{append-nil}
use claude_code_token_saving.JobStore.{JobRecord}
use claude_code_token_saving.Results.{RunResult}
use claude_code_token_saving.Conditions.Json.{Json, text}
use claude_code_token_saving.Ledger.Published.{Cells, Keys, read_pairs, read_keys}
use claude_code_token_saving.Ledger.ResultRows.{cells_of, written, new_rows, publish_jobs}
use claude_code_token_saving.Ledger.Gaps.{washout_gaps}
use claude_code_token_saving.Ledger.SummaryRows.{
  SummaryRow, ActivityRow, Sources, Collected, new_summary, summary_cells, collect_jobs,
}
use claude_code_token_saving.Ledger.Keys.{HasKey, Agrees, IsPlain}
use claude_code_token_saving.Ledger.SummarySteps.{cells_in, new_summary-Appends, Done-new_summary}
use claude_code_token_saving.Ledger.ResultSteps.{Matches, rows_in, new_rows-Appends, Done-new_rows}
use claude_code_token_saving.Ledger.Appends.{
  IsNamed, Done, Appends, Appends-Agrees, Appends-Done, read_pairs-append,
}

pub collect_again :
    (src : Sources) (keys : Keys) (jobs : List JobRecord) (summary : List SummaryRow)
    (activity : List ActivityRow)
    → All (Done src.load_result (read_pairs (map summary_cells summary))) jobs
    → collect_jobs src keys jobs (summary, activity) ≡ ((summary, activity), 0, 0)
unfolding collect_jobs
collect_again src keys jobs summary activity h =
    rw
      (Done-new_summary src (washout_gaps src.seconds_between jobs) keys
        (read_pairs (map summary_cells summary)) (read_keys (map summary_cells summary)) jobs h)
      (λ i. ((append-nil summary i, append-nil activity i), 0, 0))

module _ (src : Sources) (keys : Keys) (jobs : List JobRecord) where
  abbrev pub row_cells : List (Dict String) → List Cells
  row_cells table = map (cells_of src.str src.load_result) table

  pub publish_again :
      (table : List (Dict String))
      → All (Done src.load_result (read_pairs (row_cells table))) jobs
      → publish_jobs src.str src.load_result keys jobs table ≡ (table, [])
  unfolding publish_jobs
  publish_again table h =
      rw
        (Done-new_rows src.str src.load_result keys (read_pairs (row_cells table))
          (read_keys (row_cells table)) jobs h)
        (λ i. (append-nil table i, []))

  summary_after :
      (summary : List SummaryRow) (new : List Collected)
      → map summary_cells (summary ++ map (λ (c : Collected). c.summary) new)
        ≡ map summary_cells summary ++ cells_in new
  summary_after [] [] = refl
  summary_after [] (c ∷ new) = ap (λ cs. summary_cells c.summary ∷ cs) (summary_after [] new)
  summary_after (r ∷ rows) new = ap (λ cs. summary_cells r ∷ cs) (summary_after rows new)

  results_after :
      (table : List (Dict String)) (new : List (Dict Json))
      → row_cells (table ++ map (written src.str src.load_result) new)
        ≡ row_cells table ++ rows_in src.str src.load_result new
  results_after [] [] = refl
  results_after [] (row ∷ new) =
      ap (λ cs. cells_of src.str src.load_result (written src.str src.load_result row) ∷ cs)
        (results_after [] new)
  results_after (r ∷ rows) new =
      ap (λ cs. cells_of src.str src.load_result r ∷ cs) (results_after rows new)

-- The rows of a table and the new ones.
module _ (keys : Keys) (load : JobRecord → Option RunResult) (jobs : List JobRecord) where
  abbrev pub Settled : List Cells → Type 0
  Settled cells = All (Agrees keys) cells × All (Done load (read_pairs cells)) jobs

  rows_left :
      (old new : List Cells)
      → All (Agrees keys) old
      → Appends keys load (read_pairs old) jobs new
      → Settled (old ++ new)
  rows_left old new agrees appends = (
    All-append (Agrees keys) old new agrees (Appends-Agrees keys load (read_pairs old) appends),
    subst (λ ps. All (Done load ps) jobs) (sym (read_pairs-append old new))
        (Appends-Done keys load (read_pairs old) appends),
  )

-- What holds of the jobs: run ids are not empty and have no `#`, and a result has its job's status.
abbrev pub Proper : Sources → List JobRecord → Type 0
Proper src jobs = All IsPlain jobs × All IsNamed jobs × All (Matches src.load_result) jobs

module _ (src : Sources) (str_text : (s : String) → src.str (text s) ≡ s) (jobs : List JobRecord)
    (keys : Keys) (proper : Proper src jobs) (has : All (HasKey keys) jobs) where
  pub results_left :
      (table : List (Dict String))
      → All (Agrees keys) (row_cells src keys jobs table)
      → Settled keys src.load_result jobs
          (row_cells src keys jobs (publish_jobs src.str src.load_result keys jobs table).0)
  unfolding publish_jobs
  results_left table agrees =
      let old = row_cells src keys jobs table in
      let new = new_rows src.str src.load_result keys (read_pairs old) (read_keys old) jobs in
      subst (Settled keys src.load_result jobs) (sym (results_after src keys jobs table new)) (
        rows_left keys src.load_result jobs old (rows_in src.str src.load_result new) agrees (
          new_rows-Appends src.str src.load_result str_text keys (read_pairs old) (read_keys old)
            jobs has proper.1 proper.2))

  pub summary_left :
      (summary : List SummaryRow) (activity : List ActivityRow)
      → All (Agrees keys) (map summary_cells summary)
      → Settled keys src.load_result jobs
          (map summary_cells (collect_jobs src keys jobs (summary, activity)).0.0)
  unfolding collect_jobs
  summary_left summary activity agrees =
      let old = map summary_cells summary in
      let gaps = washout_gaps src.seconds_between jobs in
      let new = new_summary src gaps keys (read_pairs old) (read_keys old) jobs in
      subst (Settled keys src.load_result jobs) (sym (summary_after src keys jobs summary new)) (
        rows_left keys src.load_result jobs old (cells_in new) agrees
          (new_summary-Appends src gaps keys (read_pairs old) (read_keys old) jobs has proper.1))
