-- ===== src/Evaluation.antt =====
-- token_bench/evaluation.py: the public tests of the fixture, run on what the agent left.
pub mod Passed
pub mod Tests
use claude_code_token_saving.Base.{
  String, Bool, true, false, not, ◌&&◌, Option, none, some, List, [], ◌∷◌, map, Result, ok, err,
  Dict, ◌==◌, string_eq, if◌then◌else◌,
}
use Prim.Native.Nat.{Ordering}
use Prim.Native.String.{compare}
use claude_code_token_saving.Base.Int.{ℤ, pos, int_beq}

-- `EvaluationError`
pub data EvaluationError : Type 0 where
  cannot_run : EvaluationError

-- How `subprocess.run` ends; the texts are decoded.
pub data ProcessAnswer : Type 0 where
  finished : (returncode : ℤ) (stdout stderr : String) → ProcessAnswer
  timed_out : (stdout stderr : String) → ProcessAnswer
  os_error : ProcessAnswer

pub record EvaluationReport : Type 0 where
  pub ran : Bool
  pub passed : Bool
  pub command : List String
  pub returncode : Option ℤ
  pub stdout : String
  pub stderr : String
  pub timed_out : Bool
  pub tampered_files : List String
  pub missing_files : List String
  pub checked_test_files : List String

-- The hash of a file of the work directory's tests, if it is there.
abbrev pub Workdir : Type 0
Workdir = String → Option String

-- The two lists of the loop, `missing` and `tampered`, behind what the rest of the files adds.
abbrev pub compared :
    String → String → Option String → List String × List String → List String × List String
compared name hash none (missing, tampered) = (name ∷ missing, tampered)
compared name hash (some other) (missing, tampered) =
    if not (other == hash) then (missing, name ∷ tampered) else (missing, tampered)

unfoldable pub compare_files : Workdir → Dict String → List String × List String
compare_files workdir [] = ([], [])
compare_files workdir ((name, hash) ∷ original) =
    compared name hash (workdir name) (compare_files workdir original)

abbrev pub is_le : String → String → Bool
is_le s t = elim (compare s t) [ Ordering.gt ↦ false | _ ↦ true ]

abbrev pub place : String → List String → List String
place s [] = s ∷ []
place s (t ∷ ts) = let rest = place s ts in if is_le s t then s ∷ t ∷ ts else t ∷ rest

-- `sorted(...)`
abbrev pub sorted : List String → List String
sorted [] = []
sorted (s ∷ ss) = place s (sorted ss)

abbrev pub test_command : String → List String
test_command python_bin = python_bin ∷ "-m" ∷ "unittest" ∷ "discover" ∷ "-s" ∷ "tests" ∷ []

abbrev pub no_files : List String → Bool
no_files [] = true
no_files (f ∷ fs) = false

abbrev pub report_of :
    String
    → Dict String
    → List String × List String
    → ProcessAnswer
    → Result EvaluationError EvaluationReport
report_of python_bin original (missing, tampered) os_error = err cannot_run
report_of python_bin original (missing, tampered) (timed_out out errors) = ok (record {
  ran = true;
  passed = false;
  command = test_command python_bin;
  returncode = none;
  stdout = out;
  stderr = errors;
  timed_out = true;
  tampered_files = tampered;
  missing_files = missing;
  checked_test_files = sorted (map (λ (e : String × String). e.0) original);
})
report_of python_bin original (missing, tampered) (finished returncode out errors) = ok (record {
  ran = true;
  passed = int_beq returncode (pos 0) && no_files missing && no_files tampered;
  command = test_command python_bin;
  returncode = some returncode;
  stdout = out;
  stderr = errors;
  timed_out = false;
  tampered_files = tampered;
  missing_files = missing;
  checked_test_files = sorted (map (λ (e : String × String). e.0) original);
})

-- `check`: `original` has the hashes of the fixture's tests.
unfoldable pub check :
    String → Dict String → Workdir → ProcessAnswer → Result EvaluationError EvaluationReport
unfolding compare_files
check python_bin original workdir answer =
    report_of python_bin original (compare_files workdir original) answer
