-- ===== src/Ledger/Settled.antt =====
-- `sync_published` of token_bench/ledger.py leaves nothing to a second run.
use claude_code_token_saving.Base.{
  ℕ, zero, suc, ◌>>=◌, String, ◌≡◌, ap, ◌∙◌, List, [], map, Result, ok, err, Dict,
}
use mathlib.Core.Path.{subst}
use claude_code_token_saving.JobStore.{JobRecord}
use claude_code_token_saving.Conditions.Json.{Json, text}
use claude_code_token_saving.Ledger.Published.{Keys, KeyError, attempt_keys}
use claude_code_token_saving.Ledger.ResultRows.{cells_of, publish_jobs}
use claude_code_token_saving.Ledger.SummaryRows.{
  SummaryRow, ActivityRow, Sources, summary_cells, collect_jobs,
}
use claude_code_token_saving.Ledger.Sync.{
  Tables, Synced, SyncError, with_comparison, end_collect, with_results, columns, sync_with,
  sync_published,
}
use claude_code_token_saving.Ledger.Comparison.{Floats, ComparisonRow, ComparisonError}
use claude_code_token_saving.Ledger.ComparisonRows.{rebuild_comparison}
use claude_code_token_saving.Ledger.Keys.{Keyed, attempt_keys-Keyed}
use claude_code_token_saving.Ledger.Reread.{attempt_keys-ok}
use claude_code_token_saving.Ledger.Rest.{
  Proper, Settled, row_cells, collect_again, publish_again, results_left, summary_left,
}

module _ {F : Type 0} (num : Floats F) (src : Sources) (jobs : List JobRecord) where
  -- The tables as they are, and nothing new.
  abbrev pub unchanged : Tables F → Synced F
  unchanged tables = record { tables = tables; runs = 0; turns = 0; published_rows = [] }

  abbrev Settles : Synced F → Type 0
  Settles s = sync_published num src jobs s.tables ≡ ok (unchanged s.tables)

  -- The tables that are left are settled, if there was no error.
  abbrev IsSettled : Result SyncError (Synced F) → Type 0
  IsSettled (err e) = Unit
  IsSettled (ok s) = Settles s

  nothing_new :
      (keys : Keys) (tables : Tables F)
      → Settled keys src.load_result jobs (row_cells src keys jobs tables.results)
      → Settled keys src.load_result jobs (map summary_cells tables.summary)
      → sync_published num src jobs tables ≡ ok (unchanged tables)
  unfolding sync_published
  nothing_new keys tables (agrees1, done1) (agrees2, done2) =
      let (keys2, read) =
        attempt_keys-ok keys jobs (map (cells_of src.str src.load_result) tables.results)
          (map summary_cells tables.summary) agrees1 agrees2 in
      let rows = publish_again src keys2 jobs tables.results done1 in
      let turns = collect_again src keys2 jobs tables.summary tables.activity done2 in
      ap (sync_with num src jobs tables) read ∙ λ i.
      end_collect num src tables (turns i) >>= λ counted. ok (with_results num src counted (rows i))

  if_compared :
      (keys : Keys) (tables : Tables F) (turns : (List SummaryRow × List ActivityRow) × ℕ × ℕ)
      (rows : List (Dict String) × List (Dict Json))
      → Settled keys src.load_result jobs (row_cells src keys jobs rows.0)
      → Settled keys src.load_result jobs (map summary_cells turns.0.0)
      → IsSettled
          (end_collect num src tables turns >>= λ counted. ok (with_results num src counted rows))
  if_compared keys tables ((summary, activity), zero, turns) rows h1 h2 =
      nothing_new keys (record tables { results = rows.0; summary = summary; activity = activity })
        h1 h2
  if_compared keys tables ((summary, activity), suc runs, turns) rows h1 h2 =
      go (rebuild_comparison num (map (columns src) summary))
    where
      go :
          (r : Result ComparisonError (List (ComparisonRow F)))
          → IsSettled (
              with_comparison num src
                (record tables { summary = summary; activity = activity })
                (suc runs)
                turns
                r
              >>= λ counted. ok (with_results num src counted rows))
      go (err e) = tt
      go (ok comparison) =
          nothing_new keys
            (record {
              results = rows.0;
              summary = summary;
              activity = activity;
              comparison = comparison;
            })
            h1 h2

  after_keys :
      ((s : String) → src.str (text s) ≡ s)
      → Proper src jobs
      → (tables : Tables F) (found : Result KeyError Keys)
      → Keyed jobs (row_cells src [] jobs tables.results) (map summary_cells tables.summary) found
      → IsSettled (sync_with num src jobs tables found)
  after_keys str_text proper tables (err e) keyed = tt
  after_keys str_text proper tables (ok keys) (fits, agrees1, agrees2, has) =
      if_compared keys tables (collect_jobs src keys jobs (tables.summary, tables.activity))
        (publish_jobs src.str src.load_result keys jobs tables.results)
        (results_left src str_text jobs keys proper has tables.results agrees1)
        (summary_left src str_text jobs keys proper has tables.summary tables.activity agrees2)

-- A second synchronisation with the same jobs raises no error, leaves the tables as the first one left
-- them and counts nothing, if the first one raised no error. Run ids are not empty and have no `#`, and
-- the result that a job has is one of the job's status.
pub sync_published-again :
    {F : Type 0} (num : Floats F) (src : Sources) (jobs : List JobRecord)
    (str_text : (s : String) → src.str (text s) ≡ s)
    → Proper src jobs
    → (tables : Tables F) (s : Synced F) → sync_published num src jobs tables ≡ ok s
    → sync_published num src jobs s.tables ≡ ok (unchanged num src jobs s.tables)
unfolding sync_published
sync_published-again num src jobs str_text proper tables s h =
    let results = map (cells_of src.str src.load_result) tables.results in
    let summary = map summary_cells tables.summary in
    subst (IsSettled num src jobs) h (
      after_keys num src jobs str_text proper tables (attempt_keys jobs results summary)
        (attempt_keys-Keyed jobs results summary proper.0))
