-- ===== src/Ledger/Validity.antt =====
-- `_invalid_reason` of token_bench/ledger.py: why a run is left out of the comparison.
use claude_code_token_saving.Base.{
  String, ◌≡◌, refl, Bool, true, false, not, ◌&&◌, List, [], ◌∷◌, ◌++◌, any, if◌then◌else◌,
}
use Prim.Native.String.{◌++◌ as ◌⧺◌}
use claude_code_token_saving.JobStore.{Status, is_succeeded}
use claude_code_token_saving.ActivityLog.{
  Message, Turn, extract_turns, with_context_tax, reconcile, is_nil, is_measurable,
}
use claude_code_token_saving.ActivityLog.Balance.{reconcile_balances}
use claude_code_token_saving.ActivityLog.Measurable.{
  grows, is_nil_taxed, taxed_compacted, is_measurable_lem,
}

abbrev pub turn_reasons : List Turn → List String
turn_reasons [] = "no_turns" ∷ []
turn_reasons (t ∷ turns) =
    (if not (reconcile (t ∷ turns)).balanced then "reconcile_unbalanced" ∷ [] else [])
    ++ (if any (λ (u : Turn). u.compacted) (t ∷ turns) then "compacted" ∷ [] else [])

-- `"+".join(reasons)`
abbrev pub joined : List String → String
joined [] = ""
joined (r ∷ []) = r
joined (r ∷ q ∷ rs) = r ⧺ "+" ⧺ joined (q ∷ rs)

abbrev pub or_unknown : List String → String
or_unknown [] = "unknown"
or_unknown (r ∷ rs) = joined (r ∷ rs)

unfoldable pub invalid_reason : Status → List Turn → String
invalid_reason status turns =
    if is_succeeded status && is_measurable turns
    then ""
    else or_unknown
        ((if not (is_succeeded status) then "execution_error" ∷ [] else []) ++ turn_reasons turns)

turn_reasons_lem :
    (ts : List Turn)
    → (reconcile ts).balanced ≡ true
    → turn_reasons ts ≡ (
        if is_nil ts
        then "no_turns" ∷ []
        else if any (λ (u : Turn). u.compacted) ts
        then "compacted" ∷ []
        else [])
turn_reasons_lem [] e = refl
turn_reasons_lem (t ∷ ts) e = rw e

-- For every transcript the reason of a run follows from its status, from whether it has a turn and
-- from whether its contexts grow; it is never that the breakdown does not balance, and never
-- 'unknown'.
pub invalid_reason_lem :
    (status : Status) (ms : List Message)
    → invalid_reason status (with_context_tax (extract_turns ms)) ≡ (
        if is_succeeded status
        then if is_nil ms then "no_turns" else if grows ms then "" else "compacted"
        else if is_nil ms
        then "execution_error+no_turns"
        else if grows ms
        then "execution_error"
        else "execution_error+compacted")
unfolding invalid_reason
invalid_reason_lem status ms = rw (is_measurable_lem ms) (
    rw (turn_reasons_lem (with_context_tax (extract_turns ms)) (reconcile_balances ms).1) (
      rw (is_nil_taxed ms)
        (rw (taxed_compacted ms) (cases (is_succeeded status) (is_nil ms) (grows ms)))))
  where
    cases :
        (s n g : Bool)
        → (if s && (not n && g)
            then ""
            else or_unknown (
                (if not s then "execution_error" ∷ [] else [])
                ++ (if n then "no_turns" ∷ [] else if not g then "compacted" ∷ [] else [])))
          ≡ (if s
              then if n then "no_turns" else if g then "" else "compacted"
              else if n
              then "execution_error+no_turns"
              else if g
              then "execution_error"
              else "execution_error+compacted")
    cases true true true = refl
    cases true true false = refl
    cases true false true = refl
    cases true false false = refl
    cases false true true = refl
    cases false true false = refl
    cases false false true = refl
    cases false false false = refl
