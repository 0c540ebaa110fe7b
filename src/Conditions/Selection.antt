-- ===== src/Conditions/Selection.antt =====
-- `select_subset` of token_bench/conditions.py.
use claude_code_token_saving.Base.{
  String, ◌≡◌, refl, sym, ap, ◌∙◌, Bool, true, not, ◌&&◌, List, [], ◌∷◌, Result, ok, any, keep, All,
  arith, ◌⊎◌, inl, inr, Bool-cases, ◌==◌, string_eq,
}
use claude_code_token_saving.Conditions.{
  Condition, SelectionError, is_one_of, unknown, chosen, select_subset,
}

abbrev pub is_declared : List Condition → String → Bool
is_declared conditions id = any (λ (c : Condition). c.id == id) conditions

-- An empty list of ids to include stands for all.
abbrev pub is_wanted : List String → String → Bool
is_wanted [] id = true
is_wanted (i ∷ is) id = is_one_of (i ∷ is) id

declared :
    (conditions : List Condition) (ids : List String)
    → unknown conditions ids ≡ []
    → All (λ id. is_declared conditions id ≡ true) ids
declared conditions [] e = tt
declared conditions (id ∷ ids) e = elim (Bool-cases (is_declared conditions id)) [
  | inl known ↦ (known, declared conditions ids (rw known at e))
  | inr other ↦ let odd = rw other at e in cc
]

chosen_ok :
    (ids : List String) (r : Result SelectionError (List Condition)) {cs : List Condition}
    → chosen ids r ≡ ok cs
    → (ids ≡ []) × (r ≡ ok cs)
chosen_ok [] r e = (refl, e)
chosen_ok (id ∷ ids) r e = cc

keep_same :
    (p q : Condition → Bool)
    → ((c : Condition) → p c ≡ q c)
    → (cs : List Condition) → keep p cs ≡ keep q cs
keep_same p q same [] = refl
keep_same p q same (c ∷ cs) = ground (arith, same c, keep_same p q same cs)

keep_all :
    (p : Condition → Bool) → ((c : Condition) → p c ≡ true) → (cs : List Condition) → keep p cs ≡ cs
keep_all p every [] = refl
keep_all p every (c ∷ cs) = rw (every c) (ap (λ ds. c ∷ ds) (keep_all p every cs))

ok_inj :
    {a b : List Condition} → Path (Result SelectionError (List Condition)) (ok a) (ok b) → a ≡ b
ok_inj e = cc

-- An accepted selection has the wanted conditions that are not excluded, in the order of their
-- declaration; each id that it names is declared, and it does not name ids of both kinds.
pub select_subset-ok :
    (conditions : List Condition) (include exclude : List String) {cs : List Condition}
    → select_subset conditions include exclude ≡ ok cs
    → (cs ≡ keep (λ c. is_wanted include c.id && not (is_one_of exclude c.id)) conditions)
      × All (λ id. is_declared conditions id ≡ true) include
      × All (λ id. is_declared conditions id ≡ true) exclude
      × ((include ≡ []) ⊎ (exclude ≡ []))
unfolding select_subset
select_subset-ok conditions (i ∷ is) (e ∷ es) h = cc
select_subset-ok conditions (i ∷ is) [] h =
    let (known, same) = chosen_ok (unknown conditions (i ∷ is)) _ h in
    (
      sym (ok_inj same) ∙ keep_same _ _ (λ c. ground arith) conditions,
      declared conditions (i ∷ is) known,
      tt,
      inr refl,
    )
select_subset-ok conditions [] (e ∷ es) h =
    let (known, same) = chosen_ok (unknown conditions (e ∷ es)) _ h in
    (sym (ok_inj same), tt, declared conditions (e ∷ es) known, inl refl)
select_subset-ok conditions [] [] h =
    (sym (ok_inj h) ∙ sym (keep_all _ (λ c. refl) conditions), tt, tt, inl refl)
