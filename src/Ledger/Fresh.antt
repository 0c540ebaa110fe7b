-- ===== src/Ledger/Fresh.antt =====
-- `attempt_run_id` of token_bench/ledger.py ends, with a key that is not published yet.
use claude_code_token_saving.Base.{
  ℕ, zero, suc, ◌+◌, ◌*◌, ◌-◌, ◌/◌, ◌%◌, ◌≤◌, ◌<◌, ◌⊎◌, inl, inr, String, ◌≡◌, ◌≢◌, refl, sym, ap,
  ◌∙◌, Bool, true, false, not, some, List, [], ◌∷◌, keep, length, leb, arith, Bool-cases, eq_iff,
  ◌==◌, string_eq,
}
use Prim.Native.String.{◌++◌ as ◌⧺◌}
use Prim.Native.String.append
use Prim.Native.Char.{code}
use text.Mathlib.TextLemmas.{append_cancel_left}
use claude_code_token_saving.Ledger.Attempts.{
  base_run_id, digit, digits, attempt_key, is_in, free_key, attempt_run_id,
}

-- the number that a text of digits writes, after one that is read already
abbrev value : ℕ → String → ℕ
value n String.[] = n
value n (String.◌∷◌ c s) = value (n * 10 + (code c - 48)) s

code_digit : (n : ℕ) → n ≤ 9 → code (digit n) ≡ n + 48
code_digit zero h = refl
code_digit (suc zero) h = refl
code_digit (suc (suc zero)) h = refl
code_digit (suc (suc (suc zero))) h = refl
code_digit (suc (suc (suc (suc zero)))) h = refl
code_digit (suc (suc (suc (suc (suc zero))))) h = refl
code_digit (suc (suc (suc (suc (suc (suc zero)))))) h = refl
code_digit (suc (suc (suc (suc (suc (suc (suc zero))))))) h = refl
code_digit (suc (suc (suc (suc (suc (suc (suc (suc zero)))))))) h = refl
code_digit (suc (suc (suc (suc (suc (suc (suc (suc (suc zero))))))))) h = refl
code_digit (suc (suc (suc (suc (suc (suc (suc (suc (suc (suc k)))))))))) h =
    let odd : ⊥ = omega (arith, h) in absurd odd

value-digits : (fuel n : ℕ) (out : String) → n < fuel → value 0 (digits fuel n out) ≡ value n out
unfolding digits
value-digits zero n out h = let odd : ⊥ = omega (arith, h) in absurd odd
value-digits (suc fuel) n out h = elim (Bool-cases (leb n 9)) [
  | inl small ↦ rw small (ap (λ k. value k out) (ground (arith, code_digit n)))
  | inr large ↦ rw large (
      value-digits fuel (n / 10) (String.◌∷◌ (digit (n % 10)) out) (ground arith)
      ∙ ap (λ k. value k out) (ground (arith, code_digit (n % 10))))
]

-- Different attempts have different keys.
attempt_key-inj : (run_id : String) (a b : ℕ) → attempt_key run_id a ≡ attempt_key run_id b → a ≡ b
unfolding attempt_key
attempt_key-inj run_id a b e =
    let same = append_cancel_left "#" _ _ (append_cancel_left run_id _ _ e) in
    sym (value-digits (suc a) a "" (omega arith))
    ∙ ap (value 0) same
    ∙ value-digits (suc b) b "" (omega arith)

-- The key of an attempt is the run's, as far as `#`.
base_of_key : (run_id rest : String) → base_run_id (run_id ⧺ "#" ⧺ rest) ≡ base_run_id run_id
unfolding base_run_id
base_of_key String.[] rest = rw (append.nil ("#" ⧺ rest)) (rw (append.cons "#" "" rest))
base_of_key (String.◌∷◌ c s) rest = rw (append.cons c s ("#" ⧺ rest)) (rw (base_of_key s rest))

-- Pigeons: `left` holds the published keys of the attempts that are still to be tried.
length-keep : (test : String → Bool) (keys : List String) → length (keep test keys) ≤ length keys
length-keep test [] = omega arith
length-keep test (k ∷ keys) = ground (arith, length-keep test keys)

taken_out :
    (key : String) (keys : List String)
    → is_in key keys ≡ true
    → length (keep (λ k. not (k == key)) keys) < length keys
taken_out key [] h = cc
taken_out key (k ∷ keys) h =
    ground (arith, taken_out key keys, length-keep (λ j. not (j == key)) keys)

still_in :
    (key other : String) (keys : List String)
    → key ≢ other
    → is_in other keys ≡ true
    → is_in other (keep (λ k. not (k == key)) keys) ≡ true
still_in key other [] n h = cc
still_in key other (k ∷ keys) n h =
    ground (arith, eq_iff k key, eq_iff k other, still_in key other keys n)

search_ends :
    (fuel : ℕ) (run_id : String) (published left : List String) (attempt : ℕ)
    → ((a : ℕ)
        → attempt ≤ a
        → is_in (attempt_key run_id a) published ≡ true
        → is_in (attempt_key run_id a) left ≡ true)
    → length left < fuel
    → (a : ℕ) × (free_key fuel run_id published attempt ≡ some (attempt_key run_id a))
      × (is_in (attempt_key run_id a) published ≡ false)
unfolding free_key
search_ends zero run_id published left attempt held few =
    let odd : ⊥ = omega (arith, few) in absurd odd
search_ends (suc fuel) run_id published left attempt held few =
    let key = attempt_key run_id attempt in
    elim (Bool-cases (is_in key published)) [
      | inr free ↦ (attempt, rw free, free)
      | inl taken ↦ rw taken (
          search_ends fuel run_id published (keep (λ k. not (k == key)) left) (attempt + 1)
            (λ a later there.
              still_in key (attempt_key run_id a) left
                (λ e. let same = attempt_key-inj run_id attempt a e in omega (arith, same, later))
                (held a (omega (arith, later)) there))
            (omega (arith, few, taken_out key left (held attempt (omega arith) taken))))
    ]

pub attempt_run_id_lem :
    (run_id : String) (published : List String)
    → (key : String) × (attempt_run_id run_id published ≡ some key)
      × (is_in key published ≡ false)
      × (base_run_id key ≡ base_run_id run_id)
      × ((is_in run_id published ≡ true) ⊎ (key ≡ run_id))
unfolding attempt_run_id attempt_key
attempt_run_id_lem run_id published = elim (Bool-cases (is_in run_id published)) [
  | inr free ↦ rw free (run_id, refl, free, refl, inr refl)
  | inl taken ↦
      let (a, found, free) =
        search_ends (suc (length published)) run_id published published 2 (λ _ _ there. there)
          (omega arith) in
      rw taken (attempt_key run_id a, found, free, base_of_key run_id _, inl refl)
]
