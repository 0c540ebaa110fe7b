-- ===== src/Ledger/Tests.antt =====
-- Runs of token_bench/ledger.py: publications of one table, attempts, and one verdict.
use claude_code_token_saving.Base.{
  String, refl, Option, none, [], ◌∷◌, ◌⊎◌, inl, Result, ok, Dict, lookup, insert,
}
use claude_code_token_saving.Ledger.Publication.{
  output_names, DataDir, apply_all, recover, staged_copies, publication, failed_commit,
  published_view,
}
use claude_code_token_saving.Ledger.Recovery.{Holds, take}
use claude_code_token_saving.Ledger.Commit.{
  publication_atomic, publication_completes, failed_commit_restores,
}

abbrev two_tables : DataDir
two_tables = record {
  files = ("token-bench-results.csv", "a") ∷ ("run-summary.csv", "b") ∷ [];
  journal = none;
}

abbrev tables : String → Option String
tables name = lookup name two_tables.files

-- appends a row to the results and writes the comparison
abbrev publish_row : Dict String → Result (Unit {0}) (Unit {0}) × Dict String
publish_row stage =
    (ok tt, insert "comparison.csv" "c" (insert "token-bench-results.csv" "a2" stage))

two_tables-Holds : Holds tables two_tables
two_tables-Holds = (refl, (refl, (refl, (refl, (refl, (refl, tt))))))

publication_atomic_example :
    let opened = apply_all (recover two_tables) two_tables in
    let crashed = apply_all (take 3 (publication publish_row two_tables)) two_tables in
    let reopened = apply_all (recover crashed) crashed in
    Holds tables reopened
    ⊎ Holds (published_view (publish_row (staged_copies output_names opened.files)) tables) reopened
publication_atomic_example =
    publication_atomic publish_row tables two_tables 3 (inl two_tables-Holds)

publication_completes_example :
    let opened = apply_all (recover two_tables) two_tables in
    Holds
      (published_view (publish_row (staged_copies output_names opened.files)) tables)
      (apply_all (publication publish_row two_tables) two_tables)
publication_completes_example =
    publication_completes publish_row tables two_tables (inl two_tables-Holds)

failed_commit_restores_example : Holds tables (
    apply_all
      (failed_commit two_tables (("comparison.csv", "c") ∷ []) ("comparison.csv" ∷ []))
      two_tables)
failed_commit_restores_example =
    failed_commit_restores tables two_tables (("comparison.csv", "c") ∷ []) ("comparison.csv" ∷ [])
      two_tables-Holds
