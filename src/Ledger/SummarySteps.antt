-- ===== src/Ledger/SummarySteps.antt =====
-- `_collect_jobs` of token_bench/ledger.py adds a row of the summary for each job that has none.
use claude_code_token_saving.Base.{
  String, Bool, true, false, ◌≡◌, refl, ap, inl, inr, Option, none, some, List, [], ◌∷◌, map, All,
  Dict, string_eq, pair_eq, Bool-cases, if◌then◌else◌,
}
use claude_code_token_saving.JobStore.{JobRecord}
use claude_code_token_saving.Results.{RunResult}
use claude_code_token_saving.Ledger.Published.{
  Pair, Cells, Keys, pair_of, status_text, is_publishable, has_pair,
}
use claude_code_token_saving.Ledger.SummaryRows.{
  Sources, Collected, collected_then, collected_key, new_collected, new_summary, summary_cells,
}
use claude_code_token_saving.Ledger.Keys.{HasKey}
use claude_code_token_saving.Ledger.Appends.{
  IsNamed, Done, IsRowOf, Appends, nothing, skipped, added, key_for-known,
}

abbrev pub cells_in : List Collected → List Cells
cells_in new = map (λ (c : Collected). summary_cells c.summary) new

-- A job of the summary is done with, or has one new row.
abbrev Step : Sources → Keys → List Pair → JobRecord → Option Collected → Type 0
Step src keys pairs job none = Done src.load_result pairs job
Step src keys pairs job (some c) = IsRowOf keys job (summary_cells c.summary)

new_collected-Step :
    (src : Sources) (gaps : Dict String) (keys : Keys) (pairs : List Pair) (published : List String)
    (job : JobRecord)
    → HasKey keys job
    → IsNamed job
    → Step src keys pairs job (new_collected src gaps keys pairs published job)
new_collected-Step src gaps keys pairs published job has named =
    go (has_pair pairs (pair_of job)) (is_publishable job.status) (src.load_result job) refl refl
      refl
  where
    go :
        (there publishable : Bool) (result : Option RunResult)
        → has_pair pairs (pair_of job) ≡ there
        → is_publishable job.status ≡ publishable
        → src.load_result job ≡ result
        → Step src keys pairs job (new_collected src gaps keys pairs published job)
    go true publishable result e f g = rw e (inl e)
    go false false result e f g = rw e (rw f (inr (inl f)))
    go false true none e f g = rw e (rw f (rw g (inr (inr g))))
    go false true (some r) e f g =
        let (key, known, own, held, full) =
          key_for-known keys job job.run_id published has named f in
        rw e (
          rw f
            (rw g (key, ap (λ k. (some k, some (status_text job.status))) known, own, held, full)))

step_summary :
    (src : Sources) (keys : Keys) (pairs : List Pair) (published : List String) (job : JobRecord)
    (jobs : List JobRecord) (rest : List String → List Collected) (new : Option Collected)
    → Step src keys pairs job new
    → ((published : List String)
        → Appends keys src.load_result pairs jobs (cells_in (rest published)))
    → Appends keys src.load_result pairs
        (job ∷ jobs)
        (cells_in (collected_then new (rest (collected_key new published))))
step_summary src keys pairs published job jobs rest none h more = skipped h (more published)
step_summary src keys pairs published job jobs rest (some c) h more =
    added h (more (c.summary.run_id ∷ published))

pub new_summary-Appends :
    (src : Sources) (gaps : Dict String) (keys : Keys) (pairs : List Pair) (published : List String)
    (jobs : List JobRecord)
    → All (HasKey keys) jobs
    → All IsNamed jobs
    → Appends keys src.load_result pairs jobs
        (cells_in (new_summary src gaps keys pairs published jobs))
unfolding new_summary
new_summary-Appends src gaps keys pairs published [] has named = nothing
new_summary-Appends src gaps keys pairs published (job ∷ jobs) has named =
    step_summary src keys pairs published job jobs (λ p. new_summary src gaps keys pairs p jobs)
      (new_collected src gaps keys pairs published job)
      (new_collected-Step src gaps keys pairs published job has.0 named.0)
      (λ p. new_summary-Appends src gaps keys pairs p jobs has.1 named.1)

Done-new_collected :
    (src : Sources) (gaps : Dict String) (keys : Keys) (pairs : List Pair) (published : List String)
    (job : JobRecord)
    → Done src.load_result pairs job
    → new_collected src gaps keys pairs published job ≡ none
Done-new_collected src gaps keys pairs published job (inl e) = rw e refl
Done-new_collected src gaps keys pairs published job (inr (inl e)) =
    elim (Bool-cases (has_pair pairs (pair_of job))) [
      | inl f ↦ rw f refl
      | inr f ↦ rw f (rw e refl)
    ]
Done-new_collected src gaps keys pairs published job (inr (inr e)) = rw e (go _)
  where
    go : (b : Bool) → let n : Option Collected = none in (if b then n else n) ≡ n
    go true = refl
    go false = refl

pub Done-new_summary :
    (src : Sources) (gaps : Dict String) (keys : Keys) (pairs : List Pair) (published : List String)
    (jobs : List JobRecord)
    → All (Done src.load_result pairs) jobs
    → new_summary src gaps keys pairs published jobs ≡ []
unfolding new_summary
Done-new_summary src gaps keys pairs published [] h = refl
Done-new_summary src gaps keys pairs published (job ∷ jobs) h =
    rw (Done-new_collected src gaps keys pairs published job h.0)
      (Done-new_summary src gaps keys pairs published jobs h.1)
