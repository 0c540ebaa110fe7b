-- ===== src/Models.antt =====
-- token_bench/models.py: the list of measured models, of which one is active.
pub mod Active
pub mod Tests
use claude_code_token_saving.Base.{
  String, Bool, true, false, not, ◌&&◌, Option, none, some, List, [], ◌∷◌, map, keep, Result, ok,
  err, any, Dict, lookup, ◌==◌, string_eq, if◌then◌else◌,
}
use claude_code_token_saving.Conditions.{is_one_of}
use claude_code_token_saving.Conditions.Json.{
  Json, text, array, object, element, elements, entries_from, is_empty,
}

-- The last two are an AttributeError and a TypeError.
pub data ModelsError : Type 0 where
  no_models no_id duplicate_id : ModelsError
  bad_status : String → ModelsError
  not_one_active : List String → ModelsError
  not_an_object unhashable_status : ModelsError

pub record Model : Type 0 where
  pub id : String
  pub is_active : Bool

abbrev pub with_status : String → Option Json → Result ModelsError Model
with_status id (some (text s)) =
    if s == "active"
    then ok (record { id = id; is_active = true })
    else if s == "frozen"
    then ok (record { id = id; is_active = false })
    else err (bad_status id)
with_status id (some (array xs)) = err unhashable_status
with_status id (some (object fields)) = err unhashable_status
with_status id _ = err (bad_status id)

abbrev pub with_id : Dict Json → Option Json → Result ModelsError Model
with_id entry (some (text id)) =
    if is_empty id then err no_id else with_status id (lookup "status" entry)
with_id entry _ = err no_id

abbrev pub model_of : Json → Result ModelsError Model
model_of (object fields) = let entry = entries_from [] fields in with_id entry (lookup "id" entry)
model_of _ = err no_id

abbrev pub listed :
    Result ModelsError Model → Result ModelsError (List Model) → Result ModelsError (List Model)
listed (err e) rest = err e
listed (ok m) (err e) = err e
listed (ok m) (ok ms) = ok (m ∷ ms)

unfoldable pub models_from : List Json → Result ModelsError (List Model)
models_from [] = ok []
models_from (x ∷ xs) = listed (model_of x) (models_from xs)

-- `len(set(ids)) == len(ids)`
abbrev pub are_unique : List String → Bool
are_unique [] = true
are_unique (id ∷ ids) = not (is_one_of ids id) && are_unique ids

abbrev pub only : List String → Result ModelsError String
only (id ∷ []) = ok id
only ids = err (not_one_active ids)

abbrev pub active_of : Result ModelsError (List Model) → Result ModelsError String
active_of (err e) = err e
active_of (ok ms) =
    if not (are_unique (map (λ (m : Model). m.id) ms))
    then err duplicate_id
    else only (map (λ (m : Model). m.id) (keep (λ (m : Model). m.is_active) ms))

abbrev pub models_field : Option Json → Result ModelsError String
models_field (some (array (element x xs))) = active_of (models_from (x ∷ elements xs))
models_field _ = err no_models

-- `active_model`, after the file is read and parsed
unfoldable pub active_model : Json → Result ModelsError String
unfolding models_from
active_model (object fields) = models_field (lookup "models" (entries_from [] fields))
active_model _ = err not_an_object
