-- ===== src/Models/Tests.antt =====
-- Runs of `active_model` of token_bench/models.py on documents with two models.
use claude_code_token_saving.Base.{String, ◌≡◌, refl, List, [], ◌∷◌, ok, err}
use claude_code_token_saving.Conditions.Json.{Json, text, array, object, element, last, field, end}
use claude_code_token_saving.Models.{Model, models_from, active_model, duplicate_id, not_one_active}
use claude_code_token_saving.Models.Active.{listed_in, IsOnlyActive, active_model-ok}

abbrev entry : (id status : String) → Json
entry id status = object (field "id" (text id) (field "status" (text status) end))

abbrev document : Json → Json → Json
document x y = object (field "models" (array (element x (element y last))) end)

abbrev two_models : Json
two_models = document (entry "opus-4" "frozen") (entry "opus-5" "active")

newest : active_model two_models ≡ ok "opus-5"
unfolding active_model models_from
newest = refl

both_active :
    active_model (document (entry "opus-4" "active") (entry "opus-5" "active"))
    ≡ err (not_one_active ("opus-4" ∷ "opus-5" ∷ []))
unfolding active_model models_from
both_active = refl

twice :
    active_model (document (entry "opus-5" "frozen") (entry "opus-5" "active")) ≡ err duplicate_id
unfolding active_model models_from
twice = refl

active_model-ok_example :
    (ms : List Model) × (models_from (listed_in two_models) ≡ ok ms) × IsOnlyActive ms "opus-5"
active_model-ok_example = active_model-ok two_models newest
