-- ===== src/JobStore/Table.antt =====
-- The SQL statements of token_bench/job_store.py over the rows of one table.
use claude_code_token_saving.Base.{
  ◌≡◌, refl, Bool, true, false, List, [], ◌∷◌, All, Pairwise, if◌then◌else◌,
}

-- UPDATE ... WHERE test
module _ {ℓ} {A : Type ℓ} where
  abbrev pub update_where : (A → Bool) → (A → A) → List A → List A
  update_where test f [] = []
  update_where test f (x ∷ xs) = (if test x then f x else x) ∷ update_where test f xs

  module _ (test : A → Bool) (f : A → A) where
    pub All-update {κ μ} :
        {P : A → Type κ} {Q : A → Type μ}
        → ((x : A) → P x → test x ≡ true → Q (f x))
        → ((x : A) → P x → test x ≡ false → Q x)
        → (xs : List A) → All P xs
        → All Q (update_where test f xs)
    All-update hit miss [] h = tt
    All-update {Q = Q} hit miss (x ∷ xs) h = (row (test x) refl, All-update hit miss xs h.1)
      where
        row : (b : Bool) → test x ≡ b → Q (if b then f x else x)
        row true e = hit x h.0 e
        row false e = miss x h.0 e

    pub Pairwise-update {κ} :
        {R : A → A → Type κ}
        → ((x y : A) → R x y → R (f x) y)
        → ((x y : A) → R x y → R x (f y))
        → (xs : List A) → Pairwise R xs
        → Pairwise R (update_where test f xs)
    Pairwise-update left right [] h = tt
    Pairwise-update {R = R} left right (x ∷ xs) h = (
      row (test x) (All-update (λ y r _. right x y r) (λ y r _. r) xs h.0),
      Pairwise-update left right xs h.1,
    )
      where
        turn : (ys : List A) → All (R x) ys → All (R (f x)) ys
        turn [] a = tt
        turn (y ∷ ys) a = (left x y a.0, turn ys a.1)

        row :
            (b : Bool)
            → All (R x) (update_where test f xs)
            → All (R (if b then f x else x)) (update_where test f xs)
        row true a = turn (update_where test f xs) a
        row false a = a
