-- ===== src/JobStore/Lookup.antt =====
-- `get_job` after each kind of statement, and the rows that a table with distinct run ids holds.
use claude_code_token_saving.Base.{
  ◌<◌, ◌≤◌, String, ◌≡◌, refl, Bool, true, false, Option, none, some, List, [], ◌∷◌, ◌++◌, inl, inr,
  any, keep, count, find, All, All-map, All-keep, Pairwise, arith, Bool-cases, eq_iff, ==_refl,
  ==_sound, string_eq, if◌then◌else◌,
}
use mathlib.Core.Path.{subst}
use claude_code_token_saving.JobStore.Table.{update_where}
use claude_code_token_saving.JobStore.Row.{JobRecord}
use claude_code_token_saving.JobStore.Database.{has_id}
use claude_code_token_saving.JobStore.Valid.{DiffersFrom}

module _ {ℓ} {A : Type ℓ} where
  -- What is found passes the test, and has what all elements have.
  pub find-All {κ} :
      (P : A → Type κ) (test : A → Bool) (xs : List A) {a : A}
      → All P xs
      → find test xs ≡ some a
      → P a × (test a ≡ true)
  find-All P test [] h e = cc
  find-All P test (x ∷ xs) {a = a} h e = elim (Bool-cases (test x)) [
    | inl hit ↦ let same : x ≡ a = ground arith in rw (← same) (h.0, hit)
    | inr miss ↦ find-All P test xs h.1 (ground arith)
  ]

  pub find-eq-none : (test : A → Bool) (xs : List A) → find test xs ≡ none → any test xs ≡ false
  find-eq-none test [] e = refl
  find-eq-none test (x ∷ xs) e = ground (arith, find-eq-none test xs)

  pub count-pos_of_find :
      (test : A → Bool) (xs : List A) {a : A} → find test xs ≡ some a → 0 < count test xs
  count-pos_of_find test [] e = cc
  count-pos_of_find test (x ∷ xs) {a = a} e = ground (arith, count-pos_of_find test xs {a = a})

  pub find-append :
      (test : A → Bool) (xs ys : List A) {a : A}
      → find test xs ≡ some a
      → find test (xs ++ ys) ≡ some a
  find-append test [] ys e = cc
  find-append test (x ∷ xs) ys {a = a} e = ground (arith, find-append test xs ys {a = a})

  pub count-eq-zero : (test : A → Bool) (xs : List A) → count test xs ≡ 0 → any test xs ≡ false
  count-eq-zero test [] e = refl
  count-eq-zero test (x ∷ xs) e = ground (arith, count-eq-zero test xs)

abbrev pub map_some : (JobRecord → JobRecord) → Option JobRecord → Option JobRecord
map_some f none = none
map_some f (some j) = some (f j)

-- UPDATE changes the row under a run id exactly if the test hits it.
pub find-update :
    (run_id : String) (test : JobRecord → Bool) (f : JobRecord → JobRecord)
    → ((j : JobRecord) → (f j).run_id ≡ j.run_id)
    → (jobs : List JobRecord)
    → find (has_id run_id) (update_where test f jobs)
      ≡ map_some (λ j. if test j then f j else j) (find (has_id run_id) jobs)
find-update run_id test f same [] = refl
find-update run_id test f same (j ∷ jobs) =
    ground (arith, same j, find-update run_id test f same jobs)

-- In a table with distinct run ids a row that is found is the row under its own run id.
pub find_own_id :
    (test : JobRecord → Bool) (jobs : List JobRecord) {j : JobRecord}
    → Pairwise DiffersFrom jobs
    → find test jobs ≡ some j
    → find (has_id j.run_id) jobs ≡ some j
find_own_id test [] u e = cc
find_own_id test (x ∷ jobs) {j = j} u e = elim (Bool-cases (test x)) [
  | inl hit ↦ let same : x ≡ j = ground arith in rw (← same) (rw (==_refl x.run_id))
  | inr miss ↦
      let later : find test jobs ≡ some j = ground arith in
      rw ((find-All (DiffersFrom x) test jobs u.0 later).0) (find_own_id test jobs u.1 later)
]

-- The first row that passes has the least sequence number of those that pass.
pub find_least :
    (test : JobRecord → Bool) (jobs : List JobRecord) {j : JobRecord}
    → Pairwise (λ a b. a.sequence < b.sequence) jobs
    → find test jobs ≡ some j
    → All (λ k. j.sequence ≤ k.sequence) (keep test jobs)
find_least test [] o e = tt
find_least test (x ∷ jobs) {j = j} o e = elim (Bool-cases (test x)) [
  | inl hit ↦
      let same : x ≡ j = ground arith in
      rw hit (
        subst (λ (m : JobRecord). All (λ k. m.sequence ≤ k.sequence) (x ∷ keep test jobs)) same
          (
            omega arith,
            All-map (λ k b. omega (arith, b)) (keep test jobs)
                (All-keep (λ k. x.sequence < k.sequence) test jobs o.0),
          ))
  | inr miss ↦ rw miss (find_least test jobs {j = j} o.1 (ground arith))
]

-- DELETE of the rows that pass.
pub find-keep_other :
    (run_id : String) (test : JobRecord → Bool) (jobs : List JobRecord) {j : JobRecord}
    → find (has_id run_id) jobs ≡ some j
    → test j ≡ true
    → find (has_id run_id) (keep test jobs) ≡ some j
find-keep_other run_id test [] e h = cc
find-keep_other run_id test (x ∷ jobs) {j = j} e h =
    ground (arith, find-keep_other run_id test jobs {j = j})

none_of_differs :
    (x : JobRecord) (test : JobRecord → Bool) (jobs : List JobRecord)
    → All (DiffersFrom x) jobs
    → find (has_id x.run_id) (keep test jobs) ≡ none
none_of_differs x test [] d = refl
none_of_differs x test (k ∷ jobs) d =
    ground
      (arith, eq_iff x.run_id k.run_id, eq_iff k.run_id x.run_id, none_of_differs x test jobs d.1)

pub find-keep_gone :
    (run_id : String) (test : JobRecord → Bool) (jobs : List JobRecord) {j : JobRecord}
    → Pairwise DiffersFrom jobs
    → find (has_id run_id) jobs ≡ some j
    → test j ≡ false
    → find (has_id run_id) (keep test jobs) ≡ none
find-keep_gone run_id test [] u e h = cc
find-keep_gone run_id test (x ∷ jobs) {j = j} u e h = elim (Bool-cases (has_id run_id x)) [
  | inl hit ↦
      let same : x ≡ j = ground arith in
      let own : x.run_id ≡ run_id = ==_sound _ _ hit in
      let dropped : test x ≡ false = rw same h in
      rw dropped
        (subst (λ i. find (has_id i) (keep test jobs) ≡ none) own (none_of_differs x test jobs u.0))
  | inr miss ↦
      let later = find-keep_gone run_id test jobs {j = j} u.1 (ground arith) h in
      elim (Bool-cases (test x)) [
        | inl kept ↦ rw kept (rw miss later)
        | inr dropped ↦ rw dropped later
      ]
]
