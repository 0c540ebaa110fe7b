-- ===== src/Ledger/Reread.antt =====
-- `_attempt_keys` of token_bench/ledger.py reads tables whose rows agree on their keys.
use claude_code_token_saving.Base.{
  String, false, not, ◌≡◌, refl, sym, ap, ◌∙◌, inl, inr, Option, none, some, List, [], ◌∷◌, All,
  Result, ok, err, ◌==◌, string_eq, pair_eq, ==_sound, ==_refl, Bool-cases,
}
use claude_code_token_saving.JobStore.{JobRecord}
use claude_code_token_saving.Ledger.Attempts.{base_run_id}
use claude_code_token_saving.Ledger.Published.{
  Pair, Cells, Keys, KeyError, Found, key_at, put_key, is_other_key, read_row, and_then, read_rows,
  add_jobs, keys_of, attempt_keys,
}
use claude_code_token_saving.Ledger.Keys.{Has, Extends, Agrees, key_at-put, other_key}

-- The rows are read, and no key is read that is not there.
abbrev pub Reads : Keys → Result KeyError Found → Type 0
Reads full (err e) = ⊥
Reads full (ok (keys, pairs)) = Extends pairs full

agreed :
    (full pairs : Keys) (pair : Pair) (key : String)
    → Extends pairs full
    → Has full pair key
    → is_other_key (key_at pair pairs) key ≡ false
agreed full pairs pair key extends h = go (key_at pair pairs) refl
  where
    some-inj : (a b : String) → some a ≡ some b → a ≡ b
    some-inj a b e = cc

    go : (there : Option String) → key_at pair pairs ≡ there → is_other_key there key ≡ false
    go none e = refl
    go (some k) e =
        let same = some-inj k key (sym (extends pair k e) ∙ h) in
        ap not (ap (λ x. x == key) same ∙ ==_refl key)

put-Reads :
    (full pairs : Keys) (pair : Pair) (key : String)
    → Extends pairs full
    → Has full pair key
    → Extends (put_key pair key pairs) full
put-Reads full pairs pair key extends h other k there = elim (Bool-cases (pair == other)) [
  | inr e ↦ extends other k (sym (other_key pair other key pairs e) ∙ there)
  | inl e ↦
      let same = ==_sound pair other e in
      ap (λ p. key_at p full) (sym same)
      ∙ h
      ∙ sym (key_at-put pair key pairs)
      ∙ ap (λ p. key_at p (put_key pair key pairs)) same
      ∙ there
]

read_row-Reads :
    (full : Keys) (row : Cells) (keys : List String) (pairs : Keys)
    → Extends pairs full
    → Agrees full row
    → Reads full (read_row row (keys, pairs))
read_row-Reads full (none, status) keys pairs extends h = elim h [ ]
read_row-Reads full (some key, none) keys pairs extends h = elim h [ ]
read_row-Reads full (some key, some status) keys pairs extends h =
    let pair : Pair = (base_run_id key, status) in
    rw (agreed full pairs pair key extends h) (put-Reads full pairs pair key extends h)

go_on :
    (full : Keys) (rest : Found → Result KeyError Found) (first : Result KeyError Found)
    → Reads full first
    → ((keys : List String) (pairs : Keys) → Extends pairs full → Reads full (rest (keys, pairs)))
    → Reads full (and_then first rest)
go_on full rest (err e) h more = elim h [ ]
go_on full rest (ok (keys, pairs)) h more = more keys pairs h

pub read_rows-Reads :
    (full : Keys) (rows : List Cells) (keys : List String) (pairs : Keys)
    → Extends pairs full
    → All (Agrees full) rows
    → Reads full (read_rows rows (keys, pairs))
unfolding read_rows
read_rows-Reads full [] keys pairs extends h = extends
read_rows-Reads full (row ∷ rows) keys pairs extends h =
    go_on full (read_rows rows) (read_row row (keys, pairs))
      (read_row-Reads full row keys pairs extends h.0)
      (λ keys pairs extends. read_rows-Reads full rows keys pairs extends h.1)

-- Tables that agree with the same keys are read without an error.
pub attempt_keys-ok :
    (full : Keys) (jobs : List JobRecord) (results summary : List Cells)
    → All (Agrees full) results
    → All (Agrees full) summary
    → (keys : Keys) × (attempt_keys jobs results summary ≡ ok keys)
unfolding attempt_keys
attempt_keys-ok full jobs results summary h1 h2 =
    done (and_then (read_rows results ([], [])) (read_rows summary)) (
      go_on full (read_rows summary) (read_rows results ([], []))
        (read_rows-Reads full results [] [] (λ pair key h. absurd (none≢some h)) h1)
        (λ keys pairs extends. read_rows-Reads full summary keys pairs extends h2))
  where
    none≢some : {key : String} → none ≡ some key → ⊥
    none≢some h = cc

    done : (r : Result KeyError Found) → Reads full r → (keys : Keys) × (keys_of jobs r ≡ ok keys)
    done (err e) h = elim h [ ]
    done (ok state) h = ((add_jobs jobs state).1, refl)
