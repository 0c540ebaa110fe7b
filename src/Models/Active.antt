-- ===== src/Models/Active.antt =====
-- What `active_model` of token_bench/models.py returns.
use claude_code_token_saving.Base.{
  String, ◌≡◌, refl, Bool, true, false, not, ◌&&◌, ◌||◌, Option, none, some, List, [], ◌∷◌, map,
  keep, Result, ok, err, All, Pairwise, lookup, ◌==◌, ==_refl, string_eq, if◌then◌else◌,
}
use mathlib.Core.Path.{subst}
use claude_code_token_saving.Conditions.{is_one_of}
use claude_code_token_saving.Conditions.Json.{
  Json, null, bool, int, float, text, array, object, element, last, elements, entries_from,
}
use claude_code_token_saving.Models.{
  ModelsError, Model, models_from, are_unique, only, active_of, models_field, active_model,
  duplicate_id,
}

abbrev pub IsApart : String → String → Type 0
IsApart a b = ¬ (a ≡ b)

-- The models have different ids, and the active ones are the one with the id.
abbrev pub IsOnlyActive : List Model → String → Type 0
IsOnlyActive ms id =
    Pairwise IsApart (map (λ (m : Model). m.id) ms)
    × (map (λ (m : Model). m.id) (keep (λ (m : Model). m.is_active) ms) ≡ id ∷ [])

-- of what is returned for an array `xs` of entries
abbrev Chosen : List Json → Result ModelsError String → Type 0
Chosen xs (ok id) = (ms : List Model) × (models_from xs ≡ ok ms) × IsOnlyActive ms id
Chosen xs (err e) = Unit

or_false : (a b : Bool) → (a || b) ≡ false → (a ≡ false) × (b ≡ false)
or_false false b h = (refl, h)
or_false true b h = cc

and_true : (a b : Bool) → (not a && b) ≡ true → (a ≡ false) × (b ≡ true)
and_true false b h = (refl, h)
and_true true b h = cc

different : (a b : String) → (a == b) ≡ false → IsApart b a
different a b h p = let same = ==_refl b in cc

apart : (ids : List String) (id : String) → is_one_of ids id ≡ false → All (IsApart id) ids
apart [] id h = tt
apart (other ∷ ids) id h =
    let (e, f) = or_false (other == id) (is_one_of ids id) h in
    (different other id e, apart ids id f)

are_unique-Pairwise : (ids : List String) → are_unique ids ≡ true → Pairwise IsApart ids
are_unique-Pairwise [] h = tt
are_unique-Pairwise (id ∷ ids) h =
    let (e, f) = and_true (is_one_of ids id) (are_unique ids) h in
    (apart ids id e, are_unique-Pairwise ids f)

only-Chosen :
    (xs : List Json) (ms : List Model) (ids : List String)
    → models_from xs ≡ ok ms
    → Pairwise IsApart (map (λ (m : Model). m.id) ms)
    → map (λ (m : Model). m.id) (keep (λ (m : Model). m.is_active) ms) ≡ ids
    → Chosen xs (only ids)
only-Chosen xs ms [] e p q = tt
only-Chosen xs ms (id ∷ []) e p q = (ms, e, (p, q))
only-Chosen xs ms (id ∷ other ∷ ids) e p q = tt

unique-Chosen :
    (xs : List Json) (ms : List Model) (b : Bool)
    → models_from xs ≡ ok ms
    → are_unique (map (λ (m : Model). m.id) ms) ≡ b
    → Chosen xs (
        if not b
        then err duplicate_id
        else only (map (λ (m : Model). m.id) (keep (λ (m : Model). m.is_active) ms)))
unique-Chosen xs ms true e h = only-Chosen xs ms _ e (are_unique-Pairwise _ h) refl
unique-Chosen xs ms false e h = tt

active_of-Chosen :
    (xs : List Json) (r : Result ModelsError (List Model))
    → models_from xs ≡ r
    → Chosen xs (active_of r)
active_of-Chosen xs (err x) e = tt
active_of-Chosen xs (ok ms) e = unique-Chosen xs ms _ e refl

-- the entries of the list of models
abbrev pub entries_of : Option Json → List Json
entries_of (some (array xs)) = elements xs
entries_of _ = []

abbrev pub listed_in : Json → List Json
listed_in (object fields) = entries_of (lookup "models" (entries_from [] fields))
listed_in _ = []

models_field-Chosen : (x : Option Json) → Chosen (entries_of x) (models_field x)
models_field-Chosen none = tt
models_field-Chosen (some (array (element x xs))) = active_of-Chosen (x ∷ elements xs) _ refl
models_field-Chosen (some (array last)) = tt
models_field-Chosen (some null) = tt
models_field-Chosen (some (bool b)) = tt
models_field-Chosen (some (int n)) = tt
models_field-Chosen (some (float b)) = tt
models_field-Chosen (some (text s)) = tt
models_field-Chosen (some (object fields)) = tt

active_model-Chosen : (document : Json) → Chosen (listed_in document) (active_model document)
unfolding active_model
active_model-Chosen (object fields) = models_field-Chosen (lookup "models" (entries_from [] fields))
active_model-Chosen null = tt
active_model-Chosen (bool b) = tt
active_model-Chosen (int n) = tt
active_model-Chosen (float b) = tt
active_model-Chosen (text s) = tt
active_model-Chosen (array xs) = tt

-- If a model is returned, every entry of the document is accepted, the models have different ids, and
-- it is the only one that is active.
pub active_model-ok :
    (document : Json) {id : String}
    → active_model document ≡ ok id
    → (ms : List Model) × (models_from (listed_in document) ≡ ok ms) × IsOnlyActive ms id
active_model-ok document h = subst (Chosen (listed_in document)) h (active_model-Chosen document)
