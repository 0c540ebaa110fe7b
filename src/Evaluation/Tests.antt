-- ===== src/Evaluation/Tests.antt =====
-- Runs of token_bench/evaluation.py on a fixture with two test files.
use claude_code_token_saving.Base.{String, ◌≡◌, refl, [], ◌∷◌, err, Dict, lookup}
use claude_code_token_saving.Base.Int.{pos}
use claude_code_token_saving.Evaluation.{
  finished, os_error, Workdir, compare_files, sorted, cannot_run, check,
}
use claude_code_token_saving.Evaluation.Passed.{Evaluates, check-Evaluates}

abbrev original : Dict String
original = ("test_store.py", "h2") ∷ ("test_api.py", "h1") ∷ []

abbrev changed : Workdir
changed name = lookup name (("test_store.py", "h9") ∷ [])

one_changed : compare_files changed original ≡ ("test_api.py" ∷ [], "test_store.py" ∷ [])
unfolding compare_files
one_changed = refl

in_order : sorted ("test_store.py" ∷ "test_api.py" ∷ []) ≡ "test_api.py" ∷ "test_store.py" ∷ []
in_order = refl

check-Evaluates_example :
    Evaluates original changed
      (finished (pos 0) "OK" "")
      (check "python3" original changed (finished (pos 0) "OK" ""))
check-Evaluates_example = check-Evaluates "python3" original changed (finished (pos 0) "OK" "")

not_started : check "python3" original changed os_error ≡ err cannot_run
unfolding check
not_started = refl
