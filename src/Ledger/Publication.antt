-- ===== src/Ledger/Publication.antt =====
-- `_publish_transaction` and `_restore` of token_bench/ledger.py as the writes that they make in the
-- data directory, one after the other. Each write is one atomic step of the file system; a crash
-- stops the process between two of them. A file is its bytes; what stands in the journal is the
-- dict that was dumped; the lock keeps other publishers out.
use claude_code_token_saving.Base.{
  String, Bool, true, false, not, Option, none, some, List, [], ◌∷◌, ◌++◌, Result, ok, err, keep,
  Dict, lookup, insert, ◌==◌, string_eq,
}

-- `DATA_FILE_NAMES`
abbrev pub output_names : List String
output_names =
    "token-bench-results.csv" ∷ "activity-log.csv" ∷ "run-summary.csv" ∷ "comparison.csv"
    ∷ "run-diagnostics.json" ∷ []

-- `before`: the bytes of each output, or None
abbrev pub Backup : Type 0
Backup = Dict (Option String)

pub record DataDir : Type 0 where
  pub files : Dict String
  pub journal : Option Backup

pub data Write : Type 0 where
  -- the journal's or a restored file's temporary, which nothing reads after a crash
  write_temporary : Write
  replace_file : String → String → Write
  unlink_file : String → Write
  replace_journal : Backup → Write
  unlink_journal : Write

abbrev pub remove : String → Dict String → Dict String
remove name files = keep (λ row. not (row.0 == name)) files

abbrev pub apply : Write → DataDir → DataDir
apply write_temporary d = d
apply (replace_file name bytes) d = record d { files = insert name bytes d.files }
apply (unlink_file name) d = record d { files = remove name d.files }
apply (replace_journal before) d = record d { journal = some before }
apply unlink_journal d = record d { journal = none }

abbrev pub apply_all : List Write → DataDir → DataDir
apply_all [] d = d
apply_all (w ∷ ws) d = apply_all ws (apply w d)

-- `_restore` ends with a KeyError at a name that the journal does not have.
abbrev pub restore_file : String → Option (Option String) → List Write → List Write
restore_file name none rest = []
restore_file name (some none) rest = unlink_file name ∷ rest
restore_file name (some (some bytes)) rest = write_temporary ∷ replace_file name bytes ∷ rest

unfoldable pub restore : List String → Backup → List Write
restore [] before = unlink_journal ∷ []
restore (name ∷ names) before = restore_file name (lookup name before) (restore names before)

-- the first lines of a publication
unfoldable pub recover_journal : Option Backup → List Write
unfolding restore
recover_journal none = []
recover_journal (some before) = restore output_names before

unfoldable pub recover : DataDir → List Write
unfolding recover_journal
recover d = recover_journal d.journal

abbrev pub snapshot : List String → Dict String → Backup
snapshot [] files = []
snapshot (name ∷ names) files = (name, lookup name files) ∷ snapshot names files

-- the copies in the stage
abbrev pub staged_copies : List String → Dict String → Dict String
staged_copies [] files = []
staged_copies (name ∷ names) files = elim (lookup name files) [
  | none ↦ staged_copies names files
  | some bytes ↦ (name, bytes) ∷ staged_copies names files
]

-- `(stage / name).is_file() and (before[name] is None or ... != ...)`
abbrev pub differs : Option String → Option String → Bool
differs none was = false
differs (some bytes) none = true
differs (some bytes) (some was) = not (bytes == was)

abbrev pub is_changed : Dict String → Dict String → String → Bool
is_changed stage files name = differs (lookup name stage) (lookup name files)

-- `os.replace(stage / name, data_dir / name)`; a changed name is in the stage
abbrev pub replace_from : String → Option String → List Write → List Write
replace_from name none rest = rest
replace_from name (some bytes) rest = replace_file name bytes ∷ rest

unfoldable pub replacements : Dict String → List String → List Write
replacements stage [] = []
replacements stage (name ∷ names) = replace_from name (lookup name stage) (replacements stage names)

abbrev pub commit_changed : Backup → Dict String → List String → List Write
commit_changed before stage [] = []
commit_changed before stage (name ∷ names) =
    write_temporary ∷ replace_journal before ∷ replacements stage (name ∷ names)
    ++ unlink_journal ∷ []

unfoldable pub commit : DataDir → Dict String → List Write
unfolding replacements
commit d stage =
    commit_changed (snapshot output_names d.files) stage
      (keep (is_changed stage d.files) output_names)

-- An exception of the operation leaves the stage unused.
abbrev pub commit_result : {E A : Type 0} → DataDir → Result E A × Dict String → List Write
commit_result d (ok a, stage) = commit d stage
commit_result d (err e, stage) = []

-- All writes of `_publish_transaction` with the operation that is passed to it.
unfoldable pub publication :
    {E A : Type 0} → (Dict String → Result E A × Dict String) → DataDir → List Write
unfolding recover commit
publication operation d =
    let opened = apply_all (recover d) d in
    recover d ++ commit_result opened (operation (staged_copies output_names opened.files))

-- `os.replace` fails at the replacement after the given ones: the handler restores.
unfoldable pub failed_commit : DataDir → Dict String → (done : List String) → List Write
unfolding restore replacements
failed_commit d stage done =
    let before = snapshot output_names d.files in
    write_temporary ∷ replace_journal before ∷ replacements stage done
    ++ restore output_names before

-- the outputs after a publication from a directory without a journal
abbrev pub overlay : Dict String → (String → Option String) → String → Option String
overlay stage old name = elim (lookup name stage) [ some bytes ↦ some bytes | none ↦ old name ]

abbrev pub published_view :
    {E A : Type 0} → Result E A × Dict String → (String → Option String) → String → Option String
published_view (ok a, stage) old = overlay stage old
published_view (err e, stage) old = old
