-- ===== src/ActivityLog/Measurable.antt =====
-- What `is_measurable` and `with_context_tax` of token_bench/activity_log.py say of a transcript.
use claude_code_token_saving.Base.{
  ℕ, suc, ◌+◌, ◌*◌, ◌≡◌, refl, ap, ◌∙◌, Bool, true, false, not, ◌&&◌, none, some, List, [], ◌∷◌,
  map, any, length, leb, arith,
}
use claude_code_token_saving.Base.Int.{
  ℤ, pos, sub_ℕ, ◌+ℤ◌, ◌-ℤ◌, ◌*ℤ◌, ltb_ℤ, +ℤ_parts, scale_parts, eq_of_parts, parts_of_eq,
}
use claude_code_token_saving.ActivityLog.{
  Message, Turn, context, output, growth, result_of, discarded_of, turns_from, extract_turns, sum,
  is_nil, is_measurable, taxed, with_context_tax,
}
use claude_code_token_saving.ActivityLog.Balance.{
  reconcile_balances, later_front, length-turns_from,
}

-- Each context holds the one before it and what was put out.
abbrev pub grows : List Message → Bool
grows [] = true
grows (m ∷ []) = true
grows (m ∷ m' ∷ rest) = leb (context m + output m) (context m') && grows (m' ∷ rest)

compacted_turn :
    (c c' out : ℕ)
    → ltb_ℤ (discarded_of (some (pos c' -ℤ pos c)) out) (pos 0) ≡ not (leb (c + out) c')
unfolding discarded_of result_of ◌-ℤ◌
compacted_turn c c' out = ground arith

last_turn : (out : ℕ) → ltb_ℤ (discarded_of none out) (pos 0) ≡ false
unfolding discarded_of
last_turn out = refl

compacted_from :
    (p : ℕ) (ms : List Message) → any (λ (t : Turn). t.compacted) (turns_from p ms) ≡ not (grows ms)
unfolding turns_from growth
compacted_from p [] = refl
compacted_from p (m ∷ []) = rw (last_turn (output m))
compacted_from p (m ∷ m' ∷ rest) =
    rw (compacted_turn (context m) (context m') (output m))
      (ground (arith, compacted_from (p + 1) (m' ∷ rest)))

any-taxed :
    (k : ℕ) (ts : List Turn)
    → any (λ (t : Turn). t.compacted) (map (taxed k) ts) ≡ any (λ (t : Turn). t.compacted) ts
any-taxed k [] = refl
any-taxed k (t ∷ ts) = rw (any-taxed k ts)

pub is_nil_taxed : (ms : List Message) → is_nil (with_context_tax (extract_turns ms)) ≡ is_nil ms
unfolding with_context_tax extract_turns turns_from
is_nil_taxed [] = refl
is_nil_taxed (m ∷ ms) = refl

pub taxed_compacted :
    (ms : List Message)
    → any (λ (t : Turn). t.compacted) (with_context_tax (extract_turns ms)) ≡ not (grows ms)
unfolding with_context_tax extract_turns
taxed_compacted ms = any-taxed (length (extract_turns ms)) (extract_turns ms) ∙ compacted_from 0 ms

-- A run is measurable exactly if it has a turn and each turn's context holds the context and the
-- output of the turn before it: the test of the balance never fails.
pub is_measurable_lem :
    (ms : List Message)
    → is_measurable (with_context_tax (extract_turns ms)) ≡ (not (is_nil ms) && grows ms)
unfolding is_measurable
is_measurable_lem ms =
    rw (is_nil_taxed ms) (rw ((reconcile_balances ms).1) (rw (taxed_compacted ms) (ground arith)))

-- Turn by turn: what each turn reads again of the tool results before it.
abbrev pub reread : ℤ → List Turn → ℤ
reread before [] = pos 0
reread before (t ∷ ts) = before +ℤ reread (before +ℤ t.result_tokens) ts

tax_step :
    (n : ℕ) (before r s t : ℤ)
    → s +ℤ (before +ℤ r) *ℤ pos n ≡ t
    → r *ℤ pos n +ℤ s +ℤ before *ℤ pos (suc n) ≡ before +ℤ t
tax_step n before r s t e =
    let parts = parts_of_eq e in
    let scaled = ap (λ k. k * n) (+ℤ_parts before r) in
    omega (arith, +ℤ_parts, eq_of_parts, scale_parts, parts, scaled)

taxes_from :
    (p total : ℕ) (before : ℤ) (ms : List Message)
    → total ≡ p + length ms
    → sum (map (λ t. t.context_tax_tokens) (map (taxed total) (turns_from p ms)))
        +ℤ before *ℤ pos (length ms)
      ≡ reread before (turns_from p ms)
unfolding turns_from
taxes_from p total before [] e = omega (arith, +ℤ_parts, eq_of_parts, scale_parts)
taxes_from p total before (m ∷ ms) e =
    let weight : sub_ℕ total (p + 1) ≡ pos (length ms) = rw e (later_front p (length ms)) in
    let r = result_of (growth m ms) (output m) in
    rw weight (
      tax_step (length ms) before r _ _
        (taxes_from (p + 1) total (before +ℤ r) ms (omega (arith, e))))

nothing_before : (n : ℕ) (s t : ℤ) → s +ℤ pos 0 *ℤ pos n ≡ t → s ≡ t
nothing_before n s t e =
    let parts = parts_of_eq e in omega (arith, +ℤ_parts, eq_of_parts, scale_parts, parts)

-- The context tax of a run is what its turns read again: each turn reads the results of all tools
-- that were called before it.
pub context_tax_rereads :
    (ms : List Message)
    → sum (map (λ t. t.context_tax_tokens) (with_context_tax (extract_turns ms)))
      ≡ reread (pos 0) (extract_turns ms)
unfolding with_context_tax extract_turns
context_tax_rereads ms =
    let long = length-turns_from 0 ms in
    let all = taxes_from 0 (length ms) (pos 0) ms (omega arith) in
    rw long (nothing_before (length ms) _ _ all)
