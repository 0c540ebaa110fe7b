-- ===== src/Ledger/Commit.antt =====
-- `_publish_transaction` of token_bench/ledger.py is all or nothing, whenever it is interrupted.
use claude_code_token_saving.Base.{
  ℕ, String, ◌≡◌, refl, sym, ap, ◌∙◌, Bool, true, false, Option, none, some, List, [], ◌∷◌, ◌⊎◌,
  inl, inr, Result, ok, err, keep, All, Dict, lookup, lookup-insert, arith, Bool-cases, eq_iff,
  ◌==◌, ==_sound, string_eq, if◌then◌else◌,
}
use mathlib.Core.Path.{subst}
use claude_code_token_saving.Ledger.Publication.{
  output_names, DataDir, Write, replace_file, replace_journal, unlink_journal, apply, apply_all,
  restore, recover, snapshot, staged_copies, differs, is_changed, replace_from, replacements,
  commit_changed, commit, commit_result, publication, failed_commit, overlay, published_view,
}
use claude_code_token_saving.Ledger.Recovery.{
  View, Holds, Undoes, Shows, Throughout, take, stopped, Throughout-append, Throughout-map,
  apply_all-append, holds, Missing, less-Missing, none-Missing, restores, all-Missing, recovers,
  Records-snapshot,
}

-- the outputs as they were or as they are to be
abbrev pub Either : View → View → DataDir → Type 0
Either old new d = Shows old d ⊎ Shows new d

holds-keep :
    (test : String → Bool) (name : String) (names : List String)
    → holds name names ≡ true
    → test name ≡ true
    → holds name (keep test names) ≡ true
holds-keep test name [] h t = cc
holds-keep test name (n ∷ names) h t = elim (Bool-cases (n == name)) [
  | inl same ↦
      let e : n ≡ name = ==_sound n name same in
      let hit : test n ≡ true = rw e t in rw hit (rw same)
  | inr other ↦ let later = holds-keep test name names (ground arith) t in ground arith
]

unchanged_view :
    (s f : Option String) → differs s f ≡ false → f ≡ elim s [ some bytes ↦ some bytes | none ↦ f ]
unchanged_view none f h = refl
unchanged_view (some b) none h = cc
unchanged_view (some b) (some c) h = ground (arith, eq_iff b c)

overlaid :
    (s f : Option String) {bytes : String}
    → s ≡ some bytes
    → elim s [ some b ↦ some b | none ↦ f ] ≡ some bytes
overlaid none f e = cc
overlaid (some b) f e = e

module _ (old : View) (stage : Dict String) where
  abbrev new : View
  new = overlay stage old

  abbrev Staged : List String → Type 0
  Staged names = All (λ name. (bytes : String) × (lookup name stage ≡ some bytes)) names

  changed-Staged :
      (files : Dict String) (names : List String) → Staged (keep (is_changed stage files) names)
  changed-Staged files [] = tt
  changed-Staged files (name ∷ names) = elim (Bool-cases (is_changed stage files name)) [
    | inl hit ↦ rw hit (here (lookup name stage) refl hit, changed-Staged files names)
    | inr miss ↦ rw miss (changed-Staged files names)
  ]
    where
      here :
          (o : Option String)
          → lookup name stage ≡ o
          → is_changed stage files name ≡ true
          → (bytes : String) × (lookup name stage ≡ some bytes)
      here none e h = let odd = rw e at h in cc
      here (some bytes) e h = (bytes, e)

  -- What is not replaced is already as it is to be.
  start-Missing :
      (d : DataDir)
      → All (λ name. lookup name d.files ≡ old name) output_names
      → Missing new (keep (is_changed stage d.files) output_names) d
  start-Missing d (a, (b, (c, (e, (f, done))))) =
      (one _ refl a, (one _ refl b, (one _ refl c, (one _ refl e, (one _ refl f, tt)))))
    where
      one :
          (name : String)
          → holds name output_names ≡ true
          → lookup name d.files ≡ old name
          → (holds name (keep (is_changed stage d.files) output_names) ≡ true)
            ⊎ (lookup name d.files ≡ new name)
      one name h m = elim (Bool-cases (is_changed stage d.files name)) [
        | inl hit ↦ inl (holds-keep (is_changed stage d.files) name output_names h hit)
        | inr miss ↦ inr (
            subst
              (λ f.
                lookup name d.files
                ≡ elim (lookup name stage) [ some bytes ↦ some bytes | none ↦ f ])
              m (unchanged_view (lookup name stage) (lookup name d.files) miss))
      ]

  -- The replacements leave the journal as it is.
  replaced :
      (names : List String) (d : DataDir)
      → Staged names
      → Undoes old d
      → Missing new names d
      → Throughout (Undoes old) (replacements stage names) d
        × (Undoes old (apply_all (replacements stage names) d)
            × Missing new [] (apply_all (replacements stage names) d))
  unfolding replacements
  replaced [] d staged u m = (u, (u, m))
  replaced (name ∷ names) d ((bytes, e), staged) u m =
      let f = apply (replace_file name bytes) d in
      let (passed, rest) = replaced names f staged u (
        less-Missing new name names d f
          (λ j.
            lookup-insert name j bytes d.files
            ∙ ap (λ v. if name == j then v else lookup j d.files)
                (sym (overlaid (lookup name stage) (old name) e)))
          m) in
      rw e ((u, passed), rest)

  committed :
      (d : DataDir) (names : List String)
      → Holds old d
      → Staged names
      → Missing new names d
      → Throughout (Either old new) (commit_changed (snapshot output_names d.files) stage names) d
        × Holds new (apply_all (commit_changed (snapshot output_names d.files) stage names) d)
  committed d [] (free, m) staged missing =
      (inl (inl (free, m)), (free, none-Missing new d missing))
  committed d (name ∷ names) (free, m) staged missing =
      let before = snapshot output_names d.files in
      let opened = apply (replace_journal before) d in
      let ws = replacements stage (name ∷ names) in
      let (passed, (u, none_left)) =
        replaced (name ∷ names) opened staged (before, refl, Records-snapshot old d m) missing in
      let done : Holds new (apply unlink_journal (apply_all ws opened)) =
        (refl, none-Missing new (apply_all ws opened) none_left) in
      (
        (
          inl (inl (free, m)),
          (
            inl (inl (free, m)),
            Throughout-append (Either old new) ws (unlink_journal ∷ []) opened
                (Throughout-map (Undoes old) (Either old new) (λ e k. inl (inr k)) ws opened passed)
                (inl (inr u), inr (inl done)),
          ),
        ),
        subst (Holds new) (sym (apply_all-append ws (unlink_journal ∷ []) opened)) done,
      )

  pub commits :
      (d : DataDir)
      → Holds old d
      → Throughout (Either old new) (commit d stage) d × Holds new (apply_all (commit d stage) d)
  unfolding commit
  commits d (free, m) =
      committed d (keep (is_changed stage d.files) output_names) (free, m)
        (changed-Staged d.files output_names) (start-Missing d m)

module _ {E A : Type 0} (operation : Dict String → Result E A × Dict String) where
  either_commit :
      (old : View) (d : DataDir) (r : Result E A × Dict String)
      → Holds old d
      → Throughout (Either old (published_view r old)) (commit_result d r) d
        × Holds (published_view r old) (apply_all (commit_result d r) d)
  either_commit old d (ok a, stage) h = commits old stage d h
  either_commit old d (err e, stage) h = (inl (inl h), h)

  published :
      (old : View) (d : DataDir)
      → Shows old d
      → let opened = apply_all (recover d) d in
        let new = published_view (operation (staged_copies output_names opened.files)) old in
        Throughout (Either old new) (publication operation d) d
        × Holds new (apply_all (publication operation d) d)
  unfolding publication
  published old d shows =
      let (passed, opened_holds) = recovers old d shows in
      let opened = apply_all (recover d) d in
      let r = operation (staged_copies output_names opened.files) in
      let new = published_view r old in
      let (committing, done) = either_commit old opened r opened_holds in
      (
        Throughout-append (Either old new) (recover d) (commit_result opened r) d
            (Throughout-map (Shows old) (Either old new) (λ e k. inl k) (recover d) d passed)
            committing,
        subst (Holds new) (sym (apply_all-append (recover d) (commit_result opened r) d)) done,
      )

-- If a publication is interrupted after any number of writes, also while it brings back an earlier
-- one, then the next start finds each of the five outputs as it was, or each as the publication was
-- to leave it, and no journal.
pub publication_atomic :
    {E A : Type 0} (operation : Dict String → Result E A × Dict String) (old : View) (d : DataDir)
    (n : ℕ)
    → Shows old d
    → let opened = apply_all (recover d) d in
      let crashed = apply_all (take n (publication operation d)) d in
      let reopened = apply_all (recover crashed) crashed in
      Holds old reopened
      ⊎ Holds (published_view (operation (staged_copies output_names opened.files)) old) reopened
publication_atomic operation old d n shows =
    let opened = apply_all (recover d) d in
    let new = published_view (operation (staged_copies output_names opened.files)) old in
    let crashed = apply_all (take n (publication operation d)) d in
    again new crashed
      (stopped (Either old new) n (publication operation d) d (published operation old d shows).0)
  where
    again :
        (view : View) (e : DataDir)
        → Either old view e
        → Holds old (apply_all (recover e) e) ⊎ Holds view (apply_all (recover e) e)
    again view e (inl k) = inl (recovers old e k).1
    again view e (inr k) = inr (recovers view e k).1

-- A publication that runs to its end leaves each output as the operation staged it, or as it was
-- where the operation staged none or raised, and no journal, also after an interrupted one.
pub publication_completes :
    {E A : Type 0} (operation : Dict String → Result E A × Dict String) (old : View) (d : DataDir)
    → Shows old d
    → let opened = apply_all (recover d) d in
      Holds
        (published_view (operation (staged_copies output_names opened.files)) old)
        (apply_all (publication operation d) d)
publication_completes operation old d shows = (published operation old d shows).1

-- One replacement, and those after it.
one_replaced :
    (name : String) (o : Option String) (rest : List Write) (d : DataDir)
    → ((e : DataDir) → (apply_all rest e).journal ≡ e.journal)
    → (apply_all (replace_from name o rest) d).journal ≡ d.journal
one_replaced name none rest d next = next d
one_replaced name (some bytes) rest d next = next (apply (replace_file name bytes) d)

journal_stays :
    (stage : Dict String) (names : List String) (d : DataDir)
    → (apply_all (replacements stage names) d).journal ≡ d.journal
unfolding replacements
journal_stays stage [] d = refl
journal_stays stage (name ∷ names) d =
    one_replaced name (lookup name stage) (replacements stage names) d (journal_stays stage names)

-- If a replacement fails with an exception, whichever were made before it, the handler leaves each
-- output as it was before the publication, and no journal.
pub failed_commit_restores :
    (old : View) (d : DataDir) (stage : Dict String) (done : List String)
    → Holds old d
    → Holds old (apply_all (failed_commit d stage done) d)
unfolding failed_commit
failed_commit_restores old d stage done (free, m) =
    let before = snapshot output_names d.files in
    let opened = apply (replace_journal before) d in
    let ws = replacements stage done in
    let records = Records-snapshot old d m in
    subst (Holds old) (sym (apply_all-append ws (restore output_names before) opened))
      (restores old before output_names (apply_all ws opened) (journal_stays stage done opened)
        records records (all-Missing old (apply_all ws opened))).1
