-- ===== src/JobStore/Claim.antt =====
-- `claim_next_queued` of token_bench/job_store.py.
use claude_code_token_saving.Base.{
  ◌≤◌, String, ◌≡◌, refl, Bool, true, false, ◌&&◌, Option, none, some, List, [], ◌∷◌, Result, ok,
  err, keep, count, find, All, arith, nat_beq, ◌==◌, ==_refl, string_eq, if◌then◌else◌,
}
use claude_code_token_saving.JobStore.Table.{update_where}
use claude_code_token_saving.JobStore.Row.{JobRecord, queued}
use claude_code_token_saving.JobStore.Database.{
  Store, StoreError, has_id, queued_row, start_job, claim_next_queued, get_job,
}
use claude_code_token_saving.JobStore.Valid.{IsValid, IsRow}
use claude_code_token_saving.JobStore.Lookup.{find-All, find-update, find_own_id}

abbrev pub claims : String → JobRecord → JobRecord → Bool
claims run_id j k = has_id run_id k && queued_row k

-- the store after the claim of the row `j`
abbrev pub claimed_store : String → JobRecord → Store → Store
claimed_store now j s = record s {
  jobs = update_where (λ k. has_id j.run_id k && queued_row k) (start_job now) s.jobs;
}

-- The count of an UPDATE that hits a row that can be found.
hits :
    (run_id : String) (jobs : List JobRecord) {j : JobRecord}
    → find (has_id run_id) jobs ≡ some j
    → queued_row j ≡ true
    → nat_beq (count (λ k. has_id run_id k && queued_row k) jobs) 0 ≡ false
hits run_id [] e q = cc
hits run_id (k ∷ jobs) {j = j} e q = ground (arith, hits run_id jobs {j = j})

module _ (now : String) (s : Store) (v : IsValid s) where
  module _ (j : JobRecord) (e : find queued_row s.jobs ≡ some j) where
    pub claim_own : find (has_id j.run_id) s.jobs ≡ some j
    claim_own = find_own_id queued_row s.jobs v.unique e

    pub claim_queued : queued_row j ≡ true
    claim_queued = (find-All IsRow queued_row s.jobs v.rows e).1

    pub claim_read_back :
        find (has_id j.run_id) (claimed_store now j s).jobs ≡ some (start_job now j)
    claim_read_back =
        rw
          (find-update j.run_id (λ k. has_id j.run_id k && queued_row k) (start_job now) (λ k. refl)
            s.jobs)
          (rw claim_own (rw (==_refl j.run_id) (rw claim_queued)))

    pub claim_found : claim_next_queued now s ≡ (ok (some (start_job now j)), claimed_store now j s)
    unfolding claim_next_queued
    claim_found = rw e (rw (hits j.run_id s.jobs claim_own claim_queued) (rw claim_read_back))

  pub claim_none : find queued_row s.jobs ≡ none → claim_next_queued now s ≡ (ok none, s)
  unfolding claim_next_queued
  claim_none e = rw e

-- What a claim has done: nothing, where no job waits; else it has started the waiting job with the
-- least sequence number.
abbrev pub Claims : String → Store → Result StoreError (Option JobRecord) × Store → Type 0
Claims now s (ok none, t) = (keep queued_row s.jobs ≡ []) × (t ≡ s)
Claims now s (ok (some k), t) =
    (j : JobRecord) × (get_job k.run_id s ≡ some j)
    × (j.status ≡ queued)
    × (k ≡ start_job now j)
    × All (λ i. j.sequence ≤ i.sequence) (keep queued_row s.jobs)
    × ((id : String) → get_job id t ≡ (if k.run_id == id then some k else get_job id s))
Claims now s (err e, t) = ⊥

pub keep-eq-nil :
    (test : JobRecord → Bool) (jobs : List JobRecord) → find test jobs ≡ none → keep test jobs ≡ []
keep-eq-nil test [] e = refl
keep-eq-nil test (j ∷ jobs) e = ground (arith, keep-eq-nil test jobs)
