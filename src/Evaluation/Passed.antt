-- ===== src/Evaluation/Passed.antt =====
-- What `check` of token_bench/evaluation.py counts as passed.
use claude_code_token_saving.Base.{
  String, ◌≡◌, refl, ap, ◌∙◌, Bool, true, false, not, ◌&&◌, Option, none, some, List, [], ◌∷◌, map,
  Result, ok, err, all, keep, Dict, arith, Bool-cases, inl, inr, ◌==◌, option_eq, string_eq,
  if◌then◌else◌,
}
use claude_code_token_saving.Base.Int.{pos, int_beq}
use claude_code_token_saving.Evaluation.{
  EvaluationError, ProcessAnswer, finished, timed_out, os_error, EvaluationReport, Workdir,
  compared, compare_files, no_files, check,
}

abbrev pub is_there : Option String → Bool
is_there none = false
is_there (some hash) = true

-- The file is there with the hash that it had.
abbrev pub is_intact : Workdir → String × String → Bool
is_intact workdir (name, hash) = workdir name == some hash

abbrev pub exits_well : ProcessAnswer → Bool
exits_well (finished returncode out errors) = int_beq returncode (pos 0)
exits_well _ = false

abbrev pub names_of : Dict String → List String
names_of = map (λ (e : String × String). e.0)

and_assoc : (a b c : Bool) → (a && b && c) ≡ (a && (b && c))
and_assoc true b c = refl
and_assoc false b c = refl

compared_intact :
    (name hash : String) (found : Option String) (rest : List String × List String)
    → (no_files (compared name hash found rest).0 && no_files (compared name hash found rest).1)
      ≡ ((found == some hash) && (no_files rest.0 && no_files rest.1))
compared_intact name hash none rest = refl
compared_intact name hash (some other) (missing, tampered) = elim (Bool-cases (other == hash)) [
  | inl same ↦ rw same
  | inr differs ↦ rw differs (ground arith)
]

all_intact :
    (workdir : Workdir) (original : Dict String)
    → (no_files (compare_files workdir original).0 && no_files (compare_files workdir original).1)
      ≡ all (is_intact workdir) original
unfolding compare_files
all_intact workdir [] = refl
all_intact workdir ((name, hash) ∷ original) =
    compared_intact name hash (workdir name) (compare_files workdir original)
    ∙ ap (λ b. (workdir name == some hash) && b) (all_intact workdir original)

compared_missing :
    (name hash : String) (found : Option String) (rest : List String × List String)
    → (compared name hash found rest).0 ≡ (if not (is_there found) then name ∷ rest.0 else rest.0)
compared_missing name hash none rest = refl
compared_missing name hash (some other) (missing, tampered) = ground arith

missing_absent :
    (workdir : Workdir) (original : Dict String)
    → (compare_files workdir original).0
      ≡ names_of (keep (λ (e : String × String). not (is_there (workdir e.0))) original)
unfolding compare_files
missing_absent workdir [] = refl
missing_absent workdir ((name, hash) ∷ original) =
    compared_missing name hash (workdir name) (compare_files workdir original)
    ∙ ground (arith, missing_absent workdir original)

-- The report of a run, or none if the tests cannot be started.
abbrev pub Evaluates :
    Dict String → Workdir → ProcessAnswer → Result EvaluationError EvaluationReport → Type 0
Evaluates original workdir answer (err e) = answer ≡ os_error
Evaluates original workdir answer (ok r) =
    (r.passed ≡ (exits_well answer && all (is_intact workdir) original))
    × (r.missing_files
        ≡ names_of (keep (λ (e : String × String). not (is_there (workdir e.0))) original))

-- The tests count as passed exactly if they exit with 0 in time and each test file of the fixture is
-- there with its hash; the missing files are those that are not there; there is no report only if the
-- tests cannot be started.
pub check-Evaluates :
    (python_bin : String) (original : Dict String) (workdir : Workdir) (answer : ProcessAnswer)
    → Evaluates original workdir answer (check python_bin original workdir answer)
unfolding check
check-Evaluates python_bin original workdir os_error = refl
check-Evaluates python_bin original workdir (timed_out out errors) =
    (refl, missing_absent workdir original)
check-Evaluates python_bin original workdir (finished returncode out errors) = (
  and_assoc (int_beq returncode (pos 0)) _ _
      ∙ ap (λ b. int_beq returncode (pos 0) && b) (all_intact workdir original),
  missing_absent workdir original,
)
