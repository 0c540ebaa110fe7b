-- ===== src/Ledger/Keys.antt =====
-- The keys of `_attempt_keys` in token_bench/ledger.py: those of the tables, and one for each job.
use claude_code_token_saving.Base.{
  String, Bool, true, false, false≢true, ◌≡◌, refl, sym, ap, ◌∙◌, inl, inr, Option, none, some,
  List, [], ◌∷◌, All, All-map, Result, ok, err, ◌==◌, string_eq, pair_eq, ==_refl, ==_sound,
  Bool-cases, arith,
}
use mathlib.Core.Path.{subst}
use claude_code_token_saving.JobStore.{JobRecord}
use claude_code_token_saving.Ledger.Attempts.{base_run_id}
use claude_code_token_saving.Ledger.Fresh.{attempt_run_id_lem}
use claude_code_token_saving.Ledger.Published.{
  Pair, Cells, Keys, KeyError, Found, pair_of, is_publishable, key_at, put_key, next_key,
  is_other_key, read_row, and_then, read_rows, add_job, add_jobs, keys_of, attempt_keys,
}

-- The key is that of the pair.
abbrev pub Has : Keys → Pair → String → Type 0
Has keys pair key = key_at pair keys ≡ some key

abbrev pub Extends : Keys → Keys → Type 0
Extends a b = (pair : Pair) (key : String) → Has a pair key → Has b pair key

-- Each key is one of the run of its pair.
abbrev pub Fits : Keys → Type 0
Fits keys = (pair : Pair) (key : String) → Has keys pair key → base_run_id key ≡ pair.0

-- The row has the key of its run and its status.
abbrev pub Agrees : Keys → Cells → Type 0
Agrees keys (some key, some status) = Has keys (base_run_id key, status) key
Agrees keys _ = ⊥

pub key_at-put : (pair : Pair) (key : String) (keys : Keys) → Has (put_key pair key keys) pair key
key_at-put pair key [] = rw (==_refl pair) refl
key_at-put pair key ((other, k) ∷ keys) = elim (Bool-cases (other == pair)) [
  | inl e ↦ rw e (rw e refl)
  | inr e ↦ rw e (rw e (key_at-put pair key keys))
]

pub other_key :
    (pair other : Pair) (key : String) (keys : Keys)
    → (pair == other) ≡ false
    → key_at other (put_key pair key keys) ≡ key_at other keys
other_key pair other key [] h = rw h refl
other_key pair other key ((p, k) ∷ keys) h = elim (Bool-cases (p == pair)) [
  | inl e ↦ let same = ap (λ q. q == other) (==_sound p pair e) ∙ h in rw e (rw same refl)
  | inr e ↦ elim (Bool-cases (p == other)) [
    | inl f ↦ rw e (rw f refl)
    | inr f ↦ rw e (rw f (other_key pair other key keys h))
  ]
]

-- A new entry, of a pair that has none or has this key.
pub put-Extends :
    (pair : Pair) (key : String) (keys : Keys)
    → is_other_key (key_at pair keys) key ≡ false
    → Extends keys (put_key pair key keys)
put-Extends pair key keys h other k there = elim (Bool-cases (pair == other)) [
  | inr e ↦ other_key pair other key keys e ∙ there
  | inl e ↦
      let same = ==_sound pair other e in
      let old : Has keys pair k = ap (λ p. key_at p keys) same ∙ there in
      let agreed : (k == key) ≡ true =
        agreement k key (ap (λ x. is_other_key x key) (sym old) ∙ h) in
      ap (λ p. key_at p (put_key pair key keys)) (sym same)
      ∙ key_at-put pair key keys
      ∙ ap some (sym (==_sound k key agreed))
]
  where
    agreement : (k key : String) → is_other_key (some k) key ≡ false → (k == key) ≡ true
    agreement k key e = ground (arith, e)

pub put-Fits :
    (pair : Pair) (key : String) (keys : Keys)
    → Fits keys
    → base_run_id key ≡ pair.0
    → Fits (put_key pair key keys)
put-Fits pair key keys fits own other k there = elim (Bool-cases (pair == other)) [
  | inr e ↦ fits other k (sym (other_key pair other key keys e) ∙ there)
  | inl e ↦
      let same = ==_sound pair other e in
      let new =
        sym (key_at-put pair key keys) ∙ ap (λ p. key_at p (put_key pair key keys)) same ∙ there in
      ap base_run_id (sym (some-inj key k new)) ∙ own ∙ ap (λ (p : Pair). p.0) same
]
  where
    some-inj : (a b : String) → some a ≡ some b → a ≡ b
    some-inj a b e = cc

pub Agrees-Extends : (a b : Keys) → Extends a b → (row : Cells) → Agrees a row → Agrees b row
Agrees-Extends a b h (some key, some status) agrees = h (base_run_id key, status) key agrees
Agrees-Extends a b h (none, status) agrees = elim agrees [ ]
Agrees-Extends a b h (some key, none) agrees = elim agrees [ ]

-- The rows have been read.
abbrev pub Read : List Cells → Keys → Result KeyError Found → Type 0
Read rows before (err e) = Unit
Read rows before (ok (keys, after)) = Fits after × Extends before after × All (Agrees after) rows

read_row-Read :
    (row : Cells) (keys : List String) (pairs : Keys)
    → Fits pairs
    → Read (row ∷ []) pairs (read_row row (keys, pairs))
read_row-Read (none, status) keys pairs fits = tt
read_row-Read (some key, none) keys pairs fits = tt
read_row-Read (some key, some status) keys pairs fits =
    let pair : Pair = (base_run_id key, status) in
    elim (Bool-cases (is_other_key (key_at pair pairs) key)) [
      | inl e ↦ rw e tt
      | inr e ↦ rw e (
        put-Fits pair key pairs fits refl,
        put-Extends pair key pairs e,
        (key_at-put pair key pairs, tt),
      )
    ]

first_row :
    (row : Cells) (rows : List Cells) (before : Keys) (first : Result KeyError Found)
    → Read (row ∷ []) before first
    → ((keys : List String) (pairs : Keys)
        → Fits pairs
        → Read rows pairs (read_rows rows (keys, pairs)))
    → Read (row ∷ rows) before (and_then first (read_rows rows))
first_row row rows before (err e) h rest = tt
first_row row rows before (ok (keys, pairs)) (fits, extends, agrees) rest =
    more (read_rows rows (keys, pairs)) (rest keys pairs fits)
  where
    more : (r : Result KeyError Found) → Read rows pairs r → Read (row ∷ rows) before r
    more (err e) h = tt
    more (ok (_, after)) (fits2, extends2, agrees2) = (
      fits2,
      (λ pair key there. extends2 pair key (extends pair key there)),
      (Agrees-Extends pairs after extends2 row agrees.0, agrees2),
    )

pub read_rows-Read :
    (rows : List Cells) (keys : List String) (pairs : Keys)
    → Fits pairs
    → Read rows pairs (read_rows rows (keys, pairs))
unfolding read_rows
read_rows-Read [] keys pairs fits = (fits, (λ pair key h. h), tt)
read_rows-Read (row ∷ rows) keys pairs fits =
    first_row row rows pairs (read_row row (keys, pairs)) (read_row-Read row keys pairs fits)
      (read_rows-Read rows)

-- A job that is to be published has a key, of its run.
abbrev pub HasKey : Keys → JobRecord → Type 0
HasKey keys job =
    is_publishable job.status ≡ true
    → (key : String) × (base_run_id key ≡ job.run_id) × Has keys (pair_of job) key

HasKey-Extends : (a b : Keys) → Extends a b → (job : JobRecord) → HasKey a job → HasKey b job
HasKey-Extends a b h job has e =
    let (key, own, there) = has e in (key, own, h (pair_of job) key there)

-- A run id has no `#`.
abbrev pub IsPlain : JobRecord → Type 0
IsPlain job = base_run_id job.run_id ≡ job.run_id

next_key-base :
    (run_id : String) (keys : List String) → base_run_id (next_key run_id keys) ≡ base_run_id run_id
next_key-base run_id keys =
    let (key, found, free, own, _) = attempt_run_id_lem run_id keys in rw (next_key, found) own

-- The keys that a step makes of those before it.
abbrev pub Adds : Keys → Keys → Type 0
Adds before after = Fits after × Extends before after

add_job-Adds :
    (job : JobRecord) (keys : List String) (pairs : Keys)
    → IsPlain job
    → Fits pairs
    → Adds pairs (add_job job (keys, pairs)).1 × HasKey (add_job job (keys, pairs)).1 job
add_job-Adds job keys pairs plain fits =
    go (is_publishable job.status) (key_at (pair_of job) pairs) refl refl
  where
    key : String
    key = next_key job.run_id keys

    own : base_run_id key ≡ job.run_id
    own = next_key-base job.run_id keys ∙ plain

    settled :
        (after : Found)
        → add_job job (keys, pairs) ≡ after
        → Adds pairs after.1 × HasKey after.1 job
        → Adds pairs (add_job job (keys, pairs)).1 × HasKey (add_job job (keys, pairs)).1 job
    settled after e = subst (λ (s : Found). Adds pairs s.1 × HasKey s.1 job) (sym e)

    new :
        Fits pairs
        → is_other_key (key_at (pair_of job) pairs) key ≡ false
        → Adds pairs (put_key (pair_of job) key pairs)
          × HasKey (put_key (pair_of job) key pairs) job
    new fits h = (
      (put-Fits (pair_of job) key pairs fits own, put-Extends (pair_of job) key pairs h),
      (λ _. (key, own, key_at-put (pair_of job) key pairs)),
    )

    go :
        (publishable : Bool) (there : Option String)
        → is_publishable job.status ≡ publishable
        → key_at (pair_of job) pairs ≡ there
        → Adds pairs (add_job job (keys, pairs)).1 × HasKey (add_job job (keys, pairs)).1 job
    go false there e f =
        settled (keys, pairs) (rw e refl)
          ((fits, (λ pair k h. h)), (λ h. absurd (false≢true (sym e ∙ h))))
    go true none e f =
        settled (key ∷ keys, put_key (pair_of job) key pairs) (rw e (rw f refl))
          (new fits (rw f refl))
    go true (some k) e f =
        settled (keys, pairs) (rw e (rw f refl))
          ((fits, (λ pair j h. h)), (λ h. (k, fits (pair_of job) k f, f)))

add_jobs-Adds :
    (jobs : List JobRecord) (keys : List String) (pairs : Keys)
    → All IsPlain jobs
    → Fits pairs
    → Adds pairs (add_jobs jobs (keys, pairs)).1 × All (HasKey (add_jobs jobs (keys, pairs)).1) jobs
unfolding add_jobs
add_jobs-Adds [] keys pairs plain fits = ((fits, (λ pair key h. h)), tt)
add_jobs-Adds (job ∷ jobs) keys pairs plain fits =
    let after = add_job job (keys, pairs) in
    let ((fits1, extends1), has) = add_job-Adds job keys pairs plain.0 fits in
    let ((fits2, extends2), others) = add_jobs-Adds jobs after.0 after.1 plain.1 fits1 in
    (
      (fits2, (λ pair key h. extends2 pair key (extends1 pair key h))),
      (HasKey-Extends after.1 (add_jobs jobs after).1 extends2 job has, others),
    )

-- The keys are those of both tables, are of the runs of their pairs, and are there for each job.
abbrev pub Keyed : List JobRecord → (results summary : List Cells) → Result KeyError Keys → Type 0
Keyed jobs results summary (err e) = Unit
Keyed jobs results summary (ok keys) =
    Fits keys × All (Agrees keys) results × All (Agrees keys) summary × All (HasKey keys) jobs

after_tables :
    (jobs : List JobRecord) (results summary : List Cells) (first : Result KeyError Found)
    → All IsPlain jobs
    → Read results [] first
    → Keyed jobs results summary (keys_of jobs (and_then first (read_rows summary)))
after_tables jobs results summary (err e) plain h = tt
after_tables jobs results summary (ok (keys, pairs)) plain (fits, extends, agrees) =
    more (read_rows summary (keys, pairs)) (read_rows-Read summary keys pairs fits)
  where
    more :
        (r : Result KeyError Found)
        → Read summary pairs r
        → Keyed jobs results summary (keys_of jobs r)
    more (err e) h = tt
    more (ok (keys2, pairs2)) (fits2, extends2, agrees2) =
        let last = add_jobs jobs (keys2, pairs2) in
        let ((fits3, extends3), has) = add_jobs-Adds jobs keys2 pairs2 plain fits2 in
        let kept = λ (pair : Pair) (key : String) (h : Has pairs pair key).
          extends3 pair key (extends2 pair key h) in
        (
          fits3,
          All-map (Agrees-Extends pairs last.1 kept) results agrees,
          All-map (Agrees-Extends pairs2 last.1 extends3) summary agrees2,
          has,
        )

-- If the keys are found, each is a key of the run of its pair, each row of both tables has the key of
-- its run and status, and each job that is to be published has one. Run ids have no `#`.
pub attempt_keys-Keyed :
    (jobs : List JobRecord) (results summary : List Cells)
    → All IsPlain jobs
    → Keyed jobs results summary (attempt_keys jobs results summary)
unfolding attempt_keys
attempt_keys-Keyed jobs results summary plain =
    after_tables jobs results summary (read_rows results ([], [])) plain
      (read_rows-Read results [] [] (λ pair key h. cc))
