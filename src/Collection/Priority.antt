-- ===== src/Collection/Priority.antt =====
-- `condition_priority` of token_bench/collect.py: the conditions with the fewest samples first.
use claude_code_token_saving.Base.{
  ℕ, ◌+◌, ◌≤◌, String, ◌≡◌, refl, ap, ◌∙◌, Bool, Option, List, [], ◌∷◌, map, count, All, All-map,
  Pairwise, Dict, leb, arith, inl, inr, Bool-cases, ◌==◌, string_eq, if◌then◌else◌,
}
use claude_code_token_saving.Conditions.{Condition}
use claude_code_token_saving.Collection.{Row, place, sort_by, samples_of, condition_priority}

module _ (samples : String → ℕ) where
  abbrev NotMore : String → String → Type 0
  NotMore a b = samples a ≤ samples b

  All-place :
      (P : String → Type 0) (id : String) (ids : List String)
      → P id
      → All P ids
      → All P (place samples id ids)
  unfolding place
  All-place P id [] p h = (p, tt)
  All-place P id (other ∷ ids) p h = elim (Bool-cases (leb (samples id) (samples other))) [
    | inl front ↦ rw front (p, h)
    | inr later ↦ rw later (h.0, All-place P id ids p h.1)
  ]

  place-sorted :
      (id : String) (ids : List String)
      → Pairwise NotMore ids
      → Pairwise NotMore (place samples id ids)
  unfolding place
  place-sorted id [] s = (tt, tt)
  place-sorted id (other ∷ ids) s = elim (Bool-cases (leb (samples id) (samples other))) [
    | inl front ↦
        let least : samples id ≤ samples other = ground arith in
        rw front (((least, All-map (λ x h. omega (arith, least, h)) ids s.0), s))
    | inr later ↦
        rw later (All-place (NotMore other) id ids (ground arith) s.0, place-sorted id ids s.1)
  ]

  count-place :
      (test : String → Bool) (id : String) (ids : List String)
      → count test (place samples id ids) ≡ (if test id then 1 else 0) + count test ids
  unfolding place
  count-place test id [] = refl
  count-place test id (other ∷ ids) = ground (arith, count-place test id ids)

  sort_by-sorted : (ids : List String) → Pairwise NotMore (sort_by samples ids)
  unfolding sort_by
  sort_by-sorted [] = tt
  sort_by-sorted (id ∷ ids) = place-sorted id (sort_by samples ids) (sort_by-sorted ids)

  count-sort_by :
      (test : String → Bool) (ids : List String) → count test (sort_by samples ids) ≡ count test ids
  unfolding sort_by
  count-sort_by test [] = refl
  count-sort_by test (id ∷ ids) =
      count-place test id (sort_by samples ids)
      ∙ ap (λ n. (if test id then 1 else 0) + n) (count-sort_by test ids)

-- The conditions are those that are declared, each as often, and none stands before one that has
-- fewer samples.
pub condition_priority_lem :
    (rows : List Row) (labels : Dict String) (conditions : List Condition) (preset : String)
    (model : Option String)
    → let ids = condition_priority rows labels conditions preset model in
      ((id : String)
        → count (λ other. other == id) ids
          ≡ count (λ other. other == id) (map (λ (c : Condition). c.id) conditions))
      × Pairwise
          (λ a b. samples_of rows labels preset model a ≤ samples_of rows labels preset model b)
          ids
unfolding condition_priority
condition_priority_lem rows labels conditions preset model =
    let samples = samples_of rows labels preset model in
    let ids = map (λ (c : Condition). c.id) conditions in
    (λ id. count-sort_by samples (λ other. other == id) ids, sort_by-sorted samples ids)
