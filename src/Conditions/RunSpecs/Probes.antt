-- ===== src/Conditions/RunSpecs/Probes.antt =====
-- The probes of tools, and other fields, as they stand in a snapshot (token_bench/conditions.py).
use claude_code_token_saving.Base.{
  String, ◌≡◌, refl, ap, ◌∙◌, Bool, true, false, none, some, List, [], ◌∷◌, map, all, All, All-map,
  Dict, lookup, lookup_or, insert, lookup-insert, arith, eq_iff, inl, inr, Bool-cases,
  if◌then◌else◌, ◌==◌, ==_refl, string_eq,
}
use claude_code_token_saving.Conditions.{is_one_of}
use claude_code_token_saving.Conditions.Json.{Json, array, elements, entries_from, is_empty}
use claude_code_token_saving.Conditions.Fields.{filled_texts, probes_from}
use claude_code_token_saving.Conditions.Declarations.{are_same_names}
use claude_code_token_saving.Conditions.RunSpecs.{items, probes_to_dict}

abbrev pub names : Dict (List String) → List String
names probes = map (λ (p : String × List String). p.0) probes

-- no empty text
abbrev pub AreFilled : List String → Type 0
AreFilled ss = All (λ s. is_empty s ≡ false) ss

pub filled_texts-items :
    (ss : List String) → AreFilled ss → filled_texts (elements (items ss)) ≡ some ss
filled_texts-items [] f = refl
filled_texts-items (s ∷ ss) f = rw f.0 (rw (filled_texts-items ss f.1))

-- arguments, at least one
abbrev pub IsArgs : List String → Type 0
IsArgs [] = ⊥
IsArgs (s ∷ ss) = AreFilled (s ∷ ss)

-- the dict with the entries of a dict put into it, in turn
abbrev pub collected : Dict (List String) → Dict (List String) → Dict (List String)
collected d [] = d
collected d ((k, v) ∷ probes) = collected (insert k v d) probes

abbrev pub printed : Dict (List String) → Dict Json
printed d = map (λ (p : String × List String). (p.0, array (items p.1))) d

insert-printed :
    (k : String) (v : List String) (d : Dict (List String))
    → insert k (array (items v)) (printed d) ≡ printed (insert k v d)
insert-printed k v [] = refl
insert-printed k v ((j, w) ∷ d) = elim (Bool-cases (j == k)) [
  | inl same ↦ rw same
  | inr other ↦ rw other (ap (λ (e : Dict Json). (j, array (items w)) ∷ e) (insert-printed k v d))
]

pub entries_from-probes :
    (d probes : Dict (List String))
    → entries_from (printed d) (probes_to_dict probes) ≡ printed (collected d probes)
entries_from-probes d [] = refl
entries_from-probes d ((k, v) ∷ probes) =
    ap (λ (e : Dict Json). entries_from e (probes_to_dict probes)) (insert-printed k v d)
    ∙ entries_from-probes (insert k v d) probes

pub probes_from-printed :
    (d : Dict (List String))
    → All (λ (p : String × List String). IsArgs p.1) d
    → probes_from (printed d) ≡ some d
probes_from-printed [] f = refl
probes_from-printed ((k, []) ∷ d) f = absurd f.0
probes_from-printed ((k, s ∷ ss) ∷ d) f =
    rw f.0.0 (rw (filled_texts-items ss f.0.1) (rw (probes_from-printed d f.1)))

insert-AllArgs :
    (k : String) (v : List String) (d : Dict (List String))
    → IsArgs v
    → All (λ (p : String × List String). IsArgs p.1) d
    → All (λ (p : String × List String). IsArgs p.1) (insert k v d)
insert-AllArgs k v [] g f = (g, tt)
insert-AllArgs k v ((j, w) ∷ d) g f = elim (Bool-cases (j == k)) [
  | inl same ↦ rw same (g, f.1)
  | inr other ↦ rw other (f.0, insert-AllArgs k v d g f.1)
]

insert-names :
    (test : String → Bool) (k : String) (v : List String) (d : Dict (List String))
    → test k ≡ true
    → all test (names d) ≡ true
    → all test (names (insert k v d)) ≡ true
insert-names test k v [] h a = ground arith
insert-names test k v ((j, w) ∷ d) h a = elim (Bool-cases (j == k)) [
  | inl same ↦ rw same a
  | inr other ↦ rw other (ground (arith, insert-names test k v d))
]

module _ (g : String → List String) where
  abbrev pub probes_for : List String → Dict (List String)
  probes_for tools = map (λ tool. (tool, g tool)) tools

  pub collected-AllArgs :
      (tools : List String) (d : Dict (List String))
      → All (λ tool. IsArgs (g tool)) tools
      → All (λ (p : String × List String). IsArgs p.1) d
      → All (λ (p : String × List String). IsArgs p.1) (collected d (probes_for tools))
  collected-AllArgs [] d f h = h
  collected-AllArgs (tool ∷ tools) d f h =
      collected-AllArgs tools (insert tool (g tool) d) f.1 (insert-AllArgs tool (g tool) d f.0 h)

  collected-names :
      (test : String → Bool) (tools : List String) (d : Dict (List String))
      → all test tools ≡ true
      → all test (names d) ≡ true
      → all test (names (collected d (probes_for tools))) ≡ true
  collected-names test [] d f h = h
  collected-names test (tool ∷ tools) d f h =
      collected-names test tools (insert tool (g tool) d) (ground arith)
        (insert-names test tool (g tool) d (ground arith) h)

  lookup-collected :
      (t : String) (tools : List String) (d : Dict (List String))
      → lookup t (collected d (probes_for tools))
        ≡ (if is_one_of tools t then some (g t) else lookup t d)
  lookup-collected t [] d = refl
  lookup-collected t (tool ∷ tools) d =
      lookup-collected t tools (insert tool (g tool) d)
      ∙ ground (arith, lookup-insert tool t (g tool) d, eq_iff tool t)

  -- Each tool of the list is found again.
  pub reread :
      (tools ts : List String)
      → All (λ t. is_one_of tools t ≡ true) ts
      → map (λ t. (t, lookup_or t [] (collected [] (probes_for tools)))) ts ≡ probes_for ts
  reread tools [] h = refl
  reread tools (t ∷ ts) h =
      let found : lookup t (collected [] (probes_for tools)) ≡ some (g t) =
        lookup-collected t tools [] ∙ ap (λ b. if b then some (g t) else none) h.0 in
      rw (found, lookup_or) (ap (λ (p : Dict (List String)). (t, g t) ∷ p) (reread tools ts h.1))

one_of_names :
    (t : String) (d : Dict (List String)) {v : List String}
    → lookup t d ≡ some v
    → is_one_of (names d) t ≡ true
one_of_names t [] e = cc
one_of_names t ((j, w) ∷ d) {v = v} e = ground (arith, one_of_names t d {v = v})

-- The elements of a list are in it.
pub self_listed :
    (tools ts : List String)
    → ((t : String) → is_one_of ts t ≡ true → is_one_of tools t ≡ true)
    → All (λ t. is_one_of tools t ≡ true) ts
self_listed tools [] h = tt
self_listed tools (t ∷ ts) h =
    (h t (rw (==_refl t)), self_listed tools ts (λ u k. h u (ground arith)))

all_of_All :
    (test : String → Bool) (ts : List String) → All (λ t. test t ≡ true) ts → all test ts ≡ true
all_of_All test [] h = refl
all_of_All test (t ∷ ts) h = ground (arith, all_of_All test ts h.1)

All_of_all :
    (test : String → Bool) (ts : List String) → all test ts ≡ true → All (λ t. test t ≡ true) ts
All_of_all test [] h = tt
All_of_all test (t ∷ ts) h = (ground arith, All_of_all test ts (ground arith))

IsArgs-found :
    (t : String) (d : Dict (List String))
    → All (λ (p : String × List String). IsArgs p.1) d
    → is_one_of (names d) t ≡ true
    → IsArgs (lookup_or t [] d)
IsArgs-found t [] f h = cc
IsArgs-found t ((j, w) ∷ d) f h = elim (Bool-cases (j == t)) [
  | inl same ↦ rw (same, lookup_or) f.0
  | inr other ↦ rw (other, lookup_or) (IsArgs-found t d f.1 (ground arith))
]

-- What the tests of the fields leave of the tools and their probes.
module _ (tools : List String) (d : Dict (List String))
    (filled : All (λ (p : String × List String). IsArgs p.1) d)
    (same : are_same_names (names d) tools ≡ true) where
  abbrev pub args : String → List String
  args tool = lookup_or tool [] d

  abbrev pub again : Dict (List String)
  again = collected [] (probes_for args tools)

  listed : All (λ t. is_one_of tools t ≡ true) tools
  listed = self_listed tools tools (λ t h. h)

  args_filled :
      (ts : List String) → all (is_one_of (names d)) ts ≡ true → All (λ t. IsArgs (args t)) ts
  args_filled [] h = tt
  args_filled (t ∷ ts) h = (IsArgs-found t d filled (ground arith), args_filled ts (ground arith))

  again_AllArgs : All (λ (p : String × List String). IsArgs p.1) again
  again_AllArgs = collected-AllArgs args tools [] (args_filled tools (ground arith)) tt

  pub probes_reread :
      probes_from (entries_from [] (probes_to_dict (probes_for args tools))) ≡ some again
  probes_reread =
      ap probes_from (entries_from-probes [] (probes_for args tools))
      ∙ probes_from-printed again again_AllArgs

  pub again-names : are_same_names (names again) tools ≡ true
  again-names =
      rw
        (collected-names args (is_one_of tools) tools [] (all_of_All (is_one_of tools) tools listed)
          refl)
        (all_of_All (is_one_of (names again)) tools (All-map found tools listed))
    where
      found : (t : String) → is_one_of tools t ≡ true → is_one_of (names again) t ≡ true
      found t h =
          one_of_names t again
            (lookup-collected args t tools [] ∙ ap (λ b. if b then some (args t) else none) h)

  pub again_args : map (λ t. (t, lookup_or t [] again)) tools ≡ probes_for args tools
  again_args = reread args tools tools listed
