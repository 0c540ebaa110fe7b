-- ===== src/Results/RoundTrip.antt =====
-- A result is read back from its file (token_bench/results.py).
use claude_code_token_saving.Base.{◌≡◌, refl, ap, List, [], ◌∷◌, ok}
use claude_code_token_saving.Conditions.Json.{Json, elements}
use claude_code_token_saving.Results.{RunResult, elements_of, to_dict, load}

elements-elements_of : (xs : List Json) → elements (elements_of xs) ≡ xs
elements-elements_of [] = refl
elements-elements_of (x ∷ xs) = ap (λ (ys : List Json). x ∷ ys) (elements-elements_of xs)

-- What is saved of a result is read back as the same result.
pub load-to_dict : (r : RunResult) → load (to_dict r) ≡ ok r
unfolding load
load-to_dict r =
    λ i. ok (record r { tool_fingerprints = elements-elements_of r.tool_fingerprints i })
