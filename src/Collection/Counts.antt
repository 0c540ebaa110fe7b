-- ===== src/Collection/Counts.antt =====
-- How many samples a condition has, and the preset that follows from it (token_bench/collect.py).
use claude_code_token_saving.Base.{
  ℕ, ◌+◌, String, ◌≡◌, refl, ap, ◌∙◌, Bool, true, false, ◌&&◌, Option, none, some, List, [], ◌∷◌,
  any, count, Dict, lookup, lookup_or, insert, lookup-insert, ltb, arith, ◌==◌, ==_sound, string_eq,
  if◌then◌else◌,
}
use claude_code_token_saving.Conditions.{Condition}
use claude_code_token_saving.Collection.{
  Row, is_sample, condition_of, count_rows, successful_runs_by_condition, condition_label, is_open,
  first_open, next_preset,
}

-- a successful, measurable run of the preset, the model and the condition
abbrev pub is_sample_of : String → Option String → String → Row → Bool
is_sample_of preset model label row = is_sample preset model row && condition_of row == label

abbrev number : Option ℕ → ℕ
number o = elim o [ none ↦ 0 | some n ↦ n ]

number_if :
    (b : Bool) (v : ℕ) (o : Option ℕ)
    → number (if b then some v else o) ≡ (if b then v else number o)
number_if true v o = refl
number_if false v o = refl

lookup_or-insert :
    (k j : String) (v : ℕ) (d : Dict ℕ)
    → lookup_or j 0 (insert k v d) ≡ (if k == j then v else lookup_or j 0 d)
lookup_or-insert k j v d = ap number (lookup-insert k j v d) ∙ number_if (k == j) v (lookup j d)

-- one row more
counted :
    (hit : Bool) (name label : String) (counts : Dict ℕ)
    → lookup_or label 0 (if hit then insert name (lookup_or name 0 counts + 1) counts else counts)
      ≡ lookup_or label 0 counts + (if hit && name == label then 1 else 0)
counted false name label counts = omega arith
counted true name label counts =
    lookup_or-insert name label (lookup_or name 0 counts + 1) counts ∙ go (name == label) refl
  where
    go :
        (b : Bool)
        → (name == label) ≡ b
        → (if b then lookup_or name 0 counts + 1 else lookup_or label 0 counts)
          ≡ lookup_or label 0 counts + (if b then 1 else 0)
    go true same = ap (λ k. lookup_or k 0 counts + 1) (==_sound name label same)
    go false other = omega arith

count_rows_lem :
    (preset : String) (model : Option String) (label : String) (rows : List Row) (counts : Dict ℕ)
    → lookup_or label 0 (count_rows preset model rows counts)
      ≡ lookup_or label 0 counts + count (is_sample_of preset model label) rows
unfolding count_rows
count_rows_lem preset model label [] counts = omega arith
count_rows_lem preset model label (row ∷ rows) counts =
    let name = condition_of row in
    let hit = is_sample preset model row in
    let one = counted hit name label counts in
    count_rows_lem preset model label rows
      (if hit then insert name (lookup_or name 0 counts + 1) counts else counts)
    ∙ omega (arith, one)

pub successful_runs_lem :
    (rows : List Row) (preset : String) (model : Option String) (label : String)
    → lookup_or label 0 (successful_runs_by_condition rows preset model)
      ≡ count (is_sample_of preset model label) rows
unfolding successful_runs_by_condition
successful_runs_lem rows preset model label =
    count_rows_lem preset model label rows [] ∙ omega arith

abbrev pub has_too_few : List Row → Dict String → ℕ → Option String → String → Condition → Bool
has_too_few rows labels needed model preset c =
    ltb (count (is_sample_of preset model (condition_label labels c.id)) rows) needed

any_same :
    (p q : Condition → Bool)
    → ((c : Condition) → p c ≡ q c)
    → (cs : List Condition) → any p cs ≡ any q cs
any_same p q same [] = refl
any_same p q same (c ∷ cs) = ground (arith, same c, any_same p q same cs)

-- The preset is `small` as long as a declared condition has too few samples with it, and then
-- `large`.
pub next_preset_lem :
    (rows : List Row) (labels : Dict String) (conditions : List Condition) (needed : ℕ)
    (model : Option String)
    → next_preset rows labels conditions needed model
      ≡ (if any (has_too_few rows labels needed model "small") conditions then "small" else "large")
unfolding next_preset first_open is_open
next_preset_lem rows labels conditions needed model =
    let small =
      any_same _ (has_too_few rows labels needed model "small")
        (λ c.
          ap (λ n. ltb n needed)
            (successful_runs_lem rows "small" model (condition_label labels c.id)))
        conditions in
    rw small (
      last "small" "large" (any (has_too_few rows labels needed model "small") conditions)
        (is_open rows labels conditions needed model "large"))
  where
    last :
        (x y : String) (a b : Bool) → (if a then x else if b then y else y) ≡ (if a then x else y)
    last x y true b = refl
    last x y false true = refl
    last x y false false = refl
