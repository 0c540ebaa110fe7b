-- ===== src/JobStore/Update.antt =====
-- The statements of token_bench/job_store.py that change one row, on a run id that is there.
use claude_code_token_saving.Base.{
  ◌+◌, String, ◌≡◌, refl, Bool, true, false, ◌&&◌, Option, none, some, List, [], ◌∷◌, inl, inr, ok,
  count, find, All, Pairwise, arith, Bool-cases, eq_iff, nat_beq, ◌==◌, ==_sound, string_eq,
  if◌then◌else◌,
}
use claude_code_token_saving.JobStore.Table.{update_where}
use claude_code_token_saving.JobStore.Row.{JobRecord}
use claude_code_token_saving.JobStore.Database.{Store, StoreError, transaction, has_id, update_job}
use claude_code_token_saving.JobStore.Valid.{DiffersFrom}
use claude_code_token_saving.JobStore.Lookup.{find-update, map_some}

-- A row that is found by its run id has that run id.
pub found_id :
    (run_id : String) (jobs : List JobRecord) {j : JobRecord}
    → find (has_id run_id) jobs ≡ some j
    → j.run_id ≡ run_id
found_id run_id [] e = cc
found_id run_id (x ∷ jobs) {j = j} e =
    ground (arith, eq_iff x.run_id run_id, found_id run_id jobs {j = j})

hit_test :
    (run_id : String) (p : JobRecord → Bool) (jobs : List JobRecord) (j : JobRecord)
    → find (has_id run_id) jobs ≡ some j
    → p j ≡ true
    → (has_id run_id j && p j) ≡ true
hit_test run_id p jobs j e q = ground (arith, found_id run_id jobs {j = j}, eq_iff j.run_id run_id)

count_hit :
    (run_id : String) (p : JobRecord → Bool) (jobs : List JobRecord) {j : JobRecord}
    → find (has_id run_id) jobs ≡ some j
    → p j ≡ true
    → nat_beq (count (λ k. has_id run_id k && p k) jobs) 0 ≡ false
count_hit run_id p [] e q = cc
count_hit run_id p (k ∷ jobs) {j = j} e q = ground (arith, count_hit run_id p jobs {j = j})

module _ (run_id : String) (p : JobRecord → Bool) (f : JobRecord → JobRecord)
    (same : (k : JobRecord) → (f k).run_id ≡ k.run_id) where
  abbrev pub after_update : Store → Store
  after_update s = record s { jobs = update_where (λ k. has_id run_id k && p k) f s.jobs }

  pub update_job_lem :
      (x : StoreError) (s : Store) {j : JobRecord}
      → find (has_id run_id) s.jobs ≡ some j
      → p j ≡ true
      → transaction (update_job (λ k. has_id run_id k && p k) f x run_id) s
        ≡ (ok (f j), after_update s)
  update_job_lem x s {j = j} e q =
      let read_back : find (has_id run_id) (after_update s).jobs ≡ some (f j) =
        rw (find-update run_id (λ k. has_id run_id k && p k) f same s.jobs)
          (rw e (rw (hit_test run_id p s.jobs j e q))) in
      rw (count_hit run_id p s.jobs e q) (rw read_back)

  -- every other run id has the row that it had
  pub find-after_update :
      (id : String) (s : Store) {j : JobRecord}
      → find (has_id run_id) s.jobs ≡ some j
      → p j ≡ true
      → find (has_id id) (after_update s).jobs
        ≡ (if run_id == id then some (f j) else find (has_id id) s.jobs)
  find-after_update id s {j = j} e q = elim (Bool-cases (run_id == id)) [
    | inl here ↦
        let own : run_id ≡ id = ==_sound _ _ here in
        rw here (
          rw (find-update id (λ k. has_id run_id k && p k) f same s.jobs)
            (rw (← own) (rw e (rw (hit_test run_id p s.jobs j e q)))))
    | inr other ↦ rw other (
        rw (find-update id (λ k. has_id run_id k && p k) f same s.jobs)
          (untouched other (find (has_id id) s.jobs) refl))
  ]
    where
      untouched :
          (run_id == id) ≡ false
          → (o : Option JobRecord) → find (has_id id) s.jobs ≡ o
          → map_some (λ k. if has_id run_id k && p k then f k else k) o ≡ o
      untouched other none h = refl
      untouched other (some k) h =
          ground (arith, found_id id s.jobs h, eq_iff k.run_id run_id, eq_iff run_id id)

-- How many rows pass a test before and after an UPDATE that hits one row of a table with distinct
-- run ids.
module _ (run_id : String) (p : JobRecord → Bool) (f : JobRecord → JobRecord)
    (test : JobRecord → Bool) where
  misses :
      (x : JobRecord) (jobs : List JobRecord)
      → x.run_id ≡ run_id
      → All (DiffersFrom x) jobs
      → count test (update_where (λ k. has_id run_id k && p k) f jobs) ≡ count test jobs
  misses x [] own d = refl
  misses x (k ∷ jobs) own d =
      ground (arith, misses x jobs, eq_iff k.run_id run_id, eq_iff x.run_id k.run_id)

  pub count_after_update :
      (jobs : List JobRecord) {j : JobRecord}
      → Pairwise DiffersFrom jobs
      → find (has_id run_id) jobs ≡ some j
      → p j ≡ true
      → count test (update_where (λ k. has_id run_id k && p k) f jobs) + (if test j then 1 else 0)
        ≡ count test jobs + (if test (f j) then 1 else 0)
  count_after_update [] u e q = cc
  count_after_update (x ∷ jobs) {j = j} u e q = elim (Bool-cases (has_id run_id x)) [
    | inl hit ↦
        let same : x ≡ j = ground arith in
        let rest = misses x jobs (==_sound _ _ hit) u.0 in ground arith
    | inr miss ↦ let rest = count_after_update jobs {j = j} u.1 (ground arith) q in ground arith
  ]
