-- ===== src/Ledger/Attempts.antt =====
-- token_bench/ledger.py: the keys under which the attempts of a run are published
-- (`base_run_id`, `attempt_run_id`, `_attempt_keys`).
use claude_code_token_saving.Base.{
  ℕ, zero, suc, ◌+◌, ◌/◌, ◌%◌, String, Bool, not, Option, none, some, List, [], ◌∷◌, any, length,
  leb, nat_beq, ◌==◌, string_eq, if◌then◌else◌, ◌≡◌, refl,
}
use Prim.Native.String.{◌++◌ as ◌⧺◌}
use Prim.Native.Char.{Char, code}

-- `run_id.split("#", 1)[0]`
unfoldable pub base_run_id : String → String
base_run_id String.[] = ""
base_run_id (String.◌∷◌ c s) =
    let rest = base_run_id s in if nat_beq (code c) 35 then "" else String.◌∷◌ c rest

abbrev pub digit : ℕ → Char
digit zero = "0"
digit (suc zero) = "1"
digit (suc (suc zero)) = "2"
digit (suc (suc (suc zero))) = "3"
digit (suc (suc (suc (suc zero)))) = "4"
digit (suc (suc (suc (suc (suc zero))))) = "5"
digit (suc (suc (suc (suc (suc (suc zero)))))) = "6"
digit (suc (suc (suc (suc (suc (suc (suc zero))))))) = "7"
digit (suc (suc (suc (suc (suc (suc (suc (suc zero)))))))) = "8"
digit _ = "9"

-- `str(n)`, from the last digit on
unfoldable pub digits : (fuel n : ℕ) → String → String
digits zero n out = out
digits (suc fuel) n out =
    let rest = digits fuel (n / 10) (String.◌∷◌ (digit (n % 10)) out) in
    if leb n 9 then String.◌∷◌ (digit n) out else rest

unfoldable pub attempt_key : String → ℕ → String
unfolding digits
attempt_key run_id attempt = run_id ⧺ "#" ⧺ digits (suc attempt) attempt ""

abbrev pub is_in : String → List String → Bool
is_in key keys = any (λ k. k == key) keys

-- the `while` of `attempt_run_id`; `none` if the fuel ends first
unfoldable pub free_key : (fuel : ℕ) → String → List String → ℕ → Option String
unfolding attempt_key
free_key zero run_id published attempt = none
free_key (suc fuel) run_id published attempt =
    let key = attempt_key run_id attempt in
    let rest = free_key fuel run_id published (attempt + 1) in
    if is_in key published then rest else some key

-- One round more than there are published keys is enough.
unfoldable pub attempt_run_id : String → List String → Option String
unfolding free_key
attempt_run_id run_id published =
    let next = free_key (suc (length published)) run_id published 2 in
    if not (is_in run_id published) then some run_id else next

three_attempts : attempt_run_id "base-1" ("base-1" ∷ "base-1#3" ∷ "base-1#2" ∷ []) ≡ some "base-1#4"
unfolding attempt_run_id free_key attempt_key digits
three_attempts = refl
