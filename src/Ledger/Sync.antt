-- ===== src/Ledger/Sync.antt =====
-- token_bench/ledger.py: one synchronisation of the tables with the jobs (`sync_published`), and the two
-- calls that write other files (`publish`, `collect`).
use claude_code_token_saving.Base.{
  ℕ, zero, suc, String, Bool, true, false, Option, none, some, List, [], ◌∷◌, map, Dict, Result, ok,
  err, ◌>>=◌, if◌then◌else◌,
}
use claude_code_token_saving.Base.Int.{pos}
use claude_code_token_saving.JobStore.{JobRecord}
use claude_code_token_saving.Conditions.Json.{Json, int}
use claude_code_token_saving.Ledger.Published.{Keys, KeyError, attempt_keys}
use claude_code_token_saving.Ledger.ResultRows.{cell, cells_of, publish_jobs}
use claude_code_token_saving.Ledger.Comparison.{Floats, ComparisonError, ComparisonRow}
use claude_code_token_saving.Ledger.ComparisonRows.{rebuild_comparison}
use claude_code_token_saving.Ledger.SummaryRows.{
  SummaryRow, ActivityRow, Sources, summary_cells, collect_jobs,
}

-- The columns of the summary that the comparison reads, as they are written.
abbrev pub number_or_empty : Sources → Option ℕ → String
number_or_empty src none = ""
number_or_empty src (some n) = src.str (int (pos n))

abbrev pub columns : Sources → SummaryRow → Dict String
columns src row =
    ("run_date", row.run_date)
    ∷ ("condition", row.condition)
    ∷ ("prompt_id", row.prompt_id)
    ∷ ("cost_usd", cell src.str src.load_result row.cost_usd)
    ∷ ("quality_score", number_or_empty src row.quality_score)
    ∷ ("measurable", if row.measurable then "1" else "0")
    ∷ ("model", row.model)
    ∷ ("processed_tokens", src.str (int (pos row.processed_tokens)))
    ∷ ("context_tax_tokens", src.str (int row.context_tax_tokens))
    ∷ []

pub record Tables (F : Type 0) : Type 0 where
  pub results : List (Dict String)
  pub summary : List SummaryRow
  pub activity : List ActivityRow
  pub comparison : List (ComparisonRow F)

-- The tables afterwards, and what is returned.
pub record Synced (F : Type 0) : Type 0 where
  pub tables : Tables F
  pub runs : ℕ
  pub turns : ℕ
  pub published_rows : List (Dict Json)

pub data SyncError : Type 0 where
  keys_error : KeyError → SyncError
  comparison_error : ComparisonError → SyncError

-- The tables, and the numbers of new runs and turns.
abbrev pub Counted : Type 0 → Type 0
Counted F = Tables F × ℕ × ℕ

module _ {F : Type 0} (num : Floats F) (src : Sources) where
  abbrev pub with_comparison :
      Tables F
      → ℕ
      → ℕ
      → Result ComparisonError (List (ComparisonRow F))
      → Result SyncError (Counted F)
  with_comparison tables runs turns (err e) = err (comparison_error e)
  with_comparison tables runs turns (ok rows) =
      ok (record tables { comparison = rows }, runs, turns)

  -- The end of `_collect_jobs`: the comparison is made again if there are new rows.
  abbrev pub end_collect :
      Tables F → (List SummaryRow × List ActivityRow) × ℕ × ℕ → Result SyncError (Counted F)
  end_collect tables ((summary, activity), zero, turns) =
      ok (record tables { summary = summary; activity = activity }, 0, turns)
  end_collect tables ((summary, activity), suc runs, turns) =
      with_comparison (record tables { summary = summary; activity = activity }) (suc runs) turns
        (rebuild_comparison num (map (columns src) summary))

  abbrev pub with_results : Counted F → List (Dict String) × List (Dict Json) → Synced F
  with_results (tables, runs, turns) (results, rows) = record {
    tables = record tables { results = results };
    runs = runs;
    turns = turns;
    published_rows = rows;
  }

  abbrev pub sync_with :
      List JobRecord → Tables F → Result KeyError Keys → Result SyncError (Synced F)
  sync_with jobs tables (err e) = err (keys_error e)
  sync_with jobs tables (ok run_ids) =
      end_collect tables (collect_jobs src run_ids jobs (tables.summary, tables.activity))
      >>= λ counted.
          ok (
            with_results counted (publish_jobs src.str src.load_result run_ids jobs tables.results))

  -- An error leaves the tables as they were.
  unfoldable pub sync_published : List JobRecord → Tables F → Result SyncError (Synced F)
  unfolding attempt_keys collect_jobs publish_jobs rebuild_comparison
  sync_published jobs tables = sync_with jobs tables (
      attempt_keys jobs (map (cells_of src.str src.load_result) tables.results)
        (map summary_cells tables.summary))

  -- `publish`: the file is the table of the results, at the default path or at another.
  abbrev pub publish_to :
      Tables F → List (Dict String) × List (Dict Json) → Tables F × List (Dict Json)
  publish_to tables (results, rows) = (record tables { results = results }, rows)

  unfoldable pub publish :
      (is_default : Bool)
      → List JobRecord
      → Tables F
      → Result SyncError (Tables F × List (Dict Json))
  unfolding sync_published publish_jobs
  publish true jobs tables = sync_published jobs tables >>= λ s. ok (s.tables, s.published_rows)
  publish false jobs tables =
      ok (publish_to tables (publish_jobs src.str src.load_result [] jobs tables.results))

  -- `collect`: the numbers of runs and turns
  unfoldable pub collect :
      (is_default : Bool) → List JobRecord → Tables F → Result SyncError (Counted F)
  unfolding sync_published collect_jobs rebuild_comparison
  collect true jobs tables = sync_published jobs tables >>= λ s. ok (s.tables, s.runs, s.turns)
  collect false jobs tables =
      end_collect tables (collect_jobs src [] jobs (tables.summary, tables.activity))
