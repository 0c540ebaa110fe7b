-- ===== src/Ledger/Window.antt =====
-- Which runs of the baseline `_baseline_window` of token_bench/ledger.py takes.
use claude_code_token_saving.Base.{
  ℕ, zero, suc, ◌-◌, ◌≤◌, String, ◌≡◌, refl, ap, ◌⊎◌, inl, inr, List, [], ◌∷◌, ◌++◌, true, false,
  Bool-cases, leb, keep, length, arith,
}
use claude_code_token_saving.Ledger.Comparison.{
  Run, window, window_from, not_later, first_of, without_first, last_of,
}

module _ {ℓ} {A : Type ℓ} where
  split_at : (n : ℕ) (xs : List A) → xs ≡ first_of n xs ++ without_first n xs
  split_at zero xs = refl
  split_at (suc n) [] = refl
  split_at (suc n) (x ∷ xs) = ap (λ ys. x ∷ ys) (split_at n xs)

  length-without_first : (n : ℕ) (xs : List A) → length (without_first n xs) ≡ length xs - n
  length-without_first zero xs = omega arith
  length-without_first (suc n) [] = omega arith
  length-without_first (suc n) (x ∷ xs) = omega (arith, length-without_first n xs)

  -- The first `n`, or all.
  first_of_lem : (n : ℕ) (xs : List A) → (without_first n xs ≡ []) ⊎ (length (first_of n xs) ≡ n)
  first_of_lem zero xs = inr refl
  first_of_lem (suc n) [] = inl refl
  first_of_lem (suc n) (x ∷ xs) = elim (first_of_lem n xs) [
    | inl h ↦ inl h
    | inr h ↦ inr (ap suc h)
  ]

  length-first_of : (n : ℕ) (xs : List A) → length (first_of n xs) ≤ n
  length-first_of zero xs = omega arith
  length-first_of (suc n) [] = omega arith
  length-first_of (suc n) (x ∷ xs) = omega (arith, length-first_of n xs)

  -- The window is the end of the list, and is full or the whole list.
  abbrev pub AtEnd : ℕ → List A → List A → Type ℓ
  AtEnd n xs taken =
      (before : List A) × (xs ≡ before ++ taken) × ((before ≡ []) ⊎ (length taken ≡ n))

  -- The window is the start of the list, and is full or the whole list.
  abbrev pub AtStart : ℕ → List A → List A → Type ℓ
  AtStart n xs taken =
      (after : List A) × (xs ≡ taken ++ after) × ((after ≡ []) ⊎ (length taken ≡ n))

  is_nothing : (xs : List A) → length xs ≡ 0 → xs ≡ []
  is_nothing [] e = refl
  is_nothing (x ∷ xs) e = (let odd : ⊥ = omega (arith, e) in absurd odd)

  last_of-AtEnd : (n : ℕ) (xs : List A) → AtEnd n xs (last_of n xs)
  last_of-AtEnd n xs = (
    first_of (length xs - n) xs,
    split_at (length xs - n) xs,
    full (Bool-cases (leb (length xs) n)),
  )
    where
      full :
          (leb (length xs) n ≡ true) ⊎ (leb (length xs) n ≡ false)
          → (first_of (length xs - n) xs ≡ []) ⊎ (length (last_of n xs) ≡ n)
      full (inl h) =
          let few = length-first_of (length xs - n) xs in
          inl (is_nothing (first_of (length xs - n) xs) (ground (arith, few, h)))
      full (inr h) =
          let left = length-without_first (length xs - n) xs in inr (ground (arith, left, h))

  first_of-AtStart : (n : ℕ) (xs : List A) → AtStart n xs (first_of n xs)
  first_of-AtStart n xs = (without_first n xs, split_at n xs, first_of_lem n xs)

  length-last_of : (n : ℕ) (xs : List A) → length (last_of n xs) ≤ n
  length-last_of n xs = omega (arith, length-without_first (length xs - n) xs)

module _ {F : Type 0} where
  -- The window of a date, from the runs that are not later and from all of them.
  abbrev pub IsWindow : (earlier base_runs taken : List (Run F)) → Type 0
  IsWindow earlier base_runs taken =
      (length taken ≤ 10)
      × ((base_runs ≡ []) ⊎ (1 ≤ length taken))
      × (((1 ≤ length earlier) × AtEnd 10 earlier taken)
          ⊎ ((earlier ≡ []) × AtStart 10 base_runs taken))

  -- The window holds at most ten runs, and one at least if there are runs of the baseline: the last ones
  -- that are not later than the date, or, if all are later, the first ones; it has all of these or ten.
  pub window_lem :
      (base_runs : List (Run F)) (run_date : String)
      → IsWindow (keep (not_later run_date) base_runs) base_runs (window base_runs run_date)
  unfolding window
  window_lem base_runs run_date = go (keep (not_later run_date) base_runs)
    where
      go : (earlier : List (Run F)) → IsWindow earlier base_runs (window_from earlier base_runs)
      go [] = (
        length-first_of 10 base_runs,
        some_first base_runs,
        inr (refl, first_of-AtStart 10 base_runs),
      )
        where
          some_first : (runs : List (Run F)) → (runs ≡ []) ⊎ (1 ≤ length (first_of 10 runs))
          some_first [] = inl refl
          some_first (run ∷ runs) = inr (omega arith)
      go (run ∷ earlier) =
          let left = length-without_first (length (run ∷ earlier) - 10) (run ∷ earlier) in
          (
            length-last_of 10 (run ∷ earlier),
            inr (omega (arith, left)),
            inl (omega arith, last_of-AtEnd 10 (run ∷ earlier)),
          )
