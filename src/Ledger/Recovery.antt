-- ===== src/Ledger/Recovery.antt =====
-- What a crash leaves of a publication of token_bench/ledger.py.
use claude_code_token_saving.Base.{
  ℕ, zero, suc, String, ◌≡◌, refl, sym, ap, ◌∙◌, Bool, true, false, Option, none, some, List, [],
  ◌∷◌, ◌++◌, ◌⊎◌, inl, inr, any, All, All-map, Dict, lookup, lookup-insert, arith, Bool-cases,
  eq_iff, ◌==◌, ==_sound, string_eq, if◌then◌else◌,
}
use mathlib.Core.Path.{subst}
use claude_code_token_saving.Ledger.Publication.{
  output_names, Backup, DataDir, Write, replace_file, unlink_file, unlink_journal, remove, apply,
  apply_all, restore_file, restore, recover, recover_journal, snapshot,
}

abbrev pub View : Type 0
View = String → Option String

-- No journal, and the outputs are as the view says.
abbrev pub Holds : View → DataDir → Type 0
Holds view d = (d.journal ≡ none) × All (λ name. lookup name d.files ≡ view name) output_names

abbrev pub Records : View → Backup → List String → Type 0
Records view before names = All (λ name. lookup name before ≡ some (view name)) names

-- A journal that brings the view back.
abbrev pub Undoes : View → DataDir → Type 0
Undoes view d = (before : Backup) × (d.journal ≡ some before) × Records view before output_names

abbrev pub Shows : View → DataDir → Type 0
Shows view d = Holds view d ⊎ Undoes view d

-- before and after each write
abbrev pub Throughout : (DataDir → Type 0) → List Write → DataDir → Type 0
Throughout P [] d = P d
Throughout P (w ∷ ws) d = P d × Throughout P ws (apply w d)

abbrev pub take : ℕ → List Write → List Write
take zero ws = []
take (suc n) [] = []
take (suc n) (w ∷ ws) = w ∷ take n ws

module _ (P : DataDir → Type 0) where
  pub first : (ws : List Write) (d : DataDir) → Throughout P ws d → P d
  first [] d h = h
  first (w ∷ ws) d h = h.0

  pub stopped :
      (n : ℕ) (ws : List Write) (d : DataDir) → Throughout P ws d → P (apply_all (take n ws) d)
  stopped zero ws d h = first ws d h
  stopped (suc n) [] d h = h
  stopped (suc n) (w ∷ ws) d h = stopped n ws (apply w d) h.1

  pub Throughout-append :
      (ws vs : List Write) (d : DataDir)
      → Throughout P ws d
      → Throughout P vs (apply_all ws d)
      → Throughout P (ws ++ vs) d
  Throughout-append [] vs d h k = k
  Throughout-append (w ∷ ws) vs d h k = (h.0, Throughout-append ws vs (apply w d) h.1 k)

  pub Throughout-map :
      (Q : DataDir → Type 0)
      → ((d : DataDir) → P d → Q d)
      → (ws : List Write) (d : DataDir) → Throughout P ws d
      → Throughout Q ws d
  Throughout-map Q f [] d h = f d h
  Throughout-map Q f (w ∷ ws) d h = (f d h.0, Throughout-map Q f ws (apply w d) h.1)

pub apply_all-append :
    (ws vs : List Write) (d : DataDir) → apply_all (ws ++ vs) d ≡ apply_all vs (apply_all ws d)
apply_all-append [] vs d = refl
apply_all-append (w ∷ ws) vs d = apply_all-append ws vs (apply w d)

abbrev pub holds : String → List String → Bool
holds name names = any (λ n. n == name) names

-- The outputs outside the names are as the view says.
abbrev pub Missing : View → List String → DataDir → Type 0
Missing view names d =
    All (λ name. (holds name names ≡ true) ⊎ (lookup name d.files ≡ view name)) output_names

lookup-remove :
    (k j : String) (files : Dict String)
    → lookup j (remove k files) ≡ (if k == j then none else lookup j files)
lookup-remove k j [] = ground arith
lookup-remove k j ((i, v) ∷ files) =
    ground (arith, eq_iff i k, eq_iff i j, eq_iff k j, lookup-remove k j files)

-- One name less is missing after its file is as the view says.
module _ (view : View) (name : String) (names : List String) (d e : DataDir)
    (changed : (j : String)
      → lookup j e.files ≡ (if name == j then view name else lookup j d.files)) where
  pub less-Missing : Missing view (name ∷ names) d → Missing view names e
  less-Missing m = All-map (λ j k. one j k (Bool-cases (name == j))) output_names m
    where
      one :
          (j : String)
          → (holds j (name ∷ names) ≡ true) ⊎ (lookup j d.files ≡ view j)
          → ((name == j) ≡ true) ⊎ ((name == j) ≡ false)
          → (holds j names ≡ true) ⊎ (lookup j e.files ≡ view j)
      one j k (inl same) = inr (changed j ∙ rw same (ap view (==_sound _ _ same)))
      one j (inl waits) (inr other) = inl (ground arith)
      one j (inr set) (inr other) = inr (changed j ∙ rw other set)

pub none-Missing :
    (view : View) (d : DataDir)
    → Missing view [] d
    → All (λ name. lookup name d.files ≡ view name) output_names
none-Missing view d m = All-map (λ j k. settled j k) output_names m
  where
    settled :
        (j : String) → (holds j [] ≡ true) ⊎ (lookup j d.files ≡ view j) → lookup j d.files ≡ view j
    settled j (inl h) = cc
    settled j (inr h) = h

abbrev pub Restores : View → List Write → DataDir → Type 0
Restores view ws d = Throughout (Shows view) ws d × Holds view (apply_all ws d)

-- the writes for one file, before those that restore the others
file_restored :
    (view : View) (name : String) (rest : List Write) (d : DataDir)
    → Shows view d
    → ((e : DataDir)
        → e.journal ≡ d.journal
        → ((j : String) → lookup j e.files ≡ (if name == j then view name else lookup j d.files))
        → Restores view rest e)
    → (v : Option String) → view name ≡ v
    → Restores view (restore_file name (some v) rest) d
file_restored view name rest d shows next none h =
    let (passed, done) =
      next (apply (unlink_file name) d) refl (λ j. rw h (lookup-remove name j d.files)) in
    ((shows, passed), done)
file_restored view name rest d shows next (some bytes) h =
    let (passed, done) =
      next (apply (replace_file name bytes) d) refl
        (λ j. rw h (lookup-insert name j bytes d.files)) in
    ((shows, (shows, passed)), done)

-- `_restore`, wherever it stands
pub restores :
    (view : View) (before : Backup) (names : List String) (d : DataDir)
    → d.journal ≡ some before
    → Records view before output_names
    → Records view before names
    → Missing view names d
    → Restores view (restore names before) d
unfolding restore
restores view before [] d e all some_names m =
    let done : Holds view (apply unlink_journal d) = (refl, none-Missing view d m) in
    ((inr (before, e, all), inl done), done)
restores view before (name ∷ names) d e all some_names m = rw some_names.0 (
    file_restored view name (restore names before) d (inr (before, e, all))
      (λ f same changed.
        restores view before names f (same ∙ e) all some_names.1
          (less-Missing view name names d f changed m))
      (view name) refl)

pub all-Missing : (view : View) (d : DataDir) → Missing view output_names d
all-Missing view d = (inl refl, (inl refl, (inl refl, (inl refl, (inl refl, tt)))))

pub recovers : (view : View) (d : DataDir) → Shows view d → Restores view (recover d) d
unfolding recover recover_journal
recovers view d (inl (e, m)) =
    subst (λ o. Restores view (recover_journal o) d) (sym e) (inl (e, m), (e, m))
recovers view d (inr (before, e, all)) =
    subst (λ o. Restores view (recover_journal o) d) (sym e)
      (restores view before output_names d e all all (all-Missing view d))

-- The snapshot is a journal of the outputs as they are.
snapshot_has :
    (files : Dict String) (name : String) (names : List String)
    → holds name names ≡ true
    → lookup name (snapshot names files) ≡ some (lookup name files)
snapshot_has files name [] h = cc
snapshot_has files name (n ∷ names) h = elim (Bool-cases (n == name)) [
  | inl same ↦ rw same (rw (==_sound n name same))
  | inr other ↦ rw other (snapshot_has files name names (ground arith))
]

pub Records-snapshot :
    (view : View) (d : DataDir)
    → All (λ name. lookup name d.files ≡ view name) output_names
    → Records view (snapshot output_names d.files) output_names
Records-snapshot view d (a, (b, (c, (e, (f, done))))) =
    (known _ refl a, (known _ refl b, (known _ refl c, (known _ refl e, (known _ refl f, tt)))))
  where
    known :
        (name : String)
        → holds name output_names ≡ true
        → lookup name d.files ≡ view name
        → lookup name (snapshot output_names d.files) ≡ some (view name)
    known name h q = snapshot_has d.files name output_names h ∙ ap some q
