-- ===== src/Conditions/Declarations/Tests.antt =====
-- Runs of `load_conditions` of token_bench/conditions.py on a document with two conditions.
use claude_code_token_saving.Base.{◌≡◌, refl, some, none, List, [], ◌∷◌, ok, err}
use claude_code_token_saving.Base.Int.{pos}
use claude_code_token_saving.Conditions.{Condition}
use claude_code_token_saving.Conditions.Json.{
  Json, int, text, array, object, element, last, field, end, Elements,
}
use claude_code_token_saving.Conditions.Paths.{starts_with, is_reserved}
use claude_code_token_saving.Conditions.Fields.{all_characters, is_owner_and_repository}
use claude_code_token_saving.Conditions.Declarations.{
  load_conditions, duplicate_label, no_repository_url,
}
use claude_code_token_saving.Conditions.Declarations.Loading.{AreSound, load_conditions-ok}

abbrev document : Elements → Json
document conditions =
    object (field "schema_version" (int (pos 1)) (field "conditions" (array conditions) end))

abbrev base : Json
base = object (field "id" (text "base") end)

abbrev compressor : Json
compressor = object (
    field "id" (text "rtk") (
      field "label" (text "RTK-1.0") (
        field "repeat" (int (pos 3)) (
          field "requires_tools" (array (element (text "rtk") last)) (
            field "tool_probes" (object (field "rtk" (array (element (text "--version") last)) end))
              (field "repository_url" (text "https://github.com/rtk-ai/rtk.git") end))))))

abbrev without_repository : Json
without_repository = object (
    field "id" (text "rtk") (
      field "requires_tools" (array (element (text "rtk") last)) (
        field "tool_probes" (object (field "rtk" (array (element (text "--version") last)) end))
          end)))

abbrev loaded : List Condition
loaded =
    record {
      id = "base";
      repeat = 1;
      requires_tools = [];
      tool_probes = [];
      injections = [];
      repository_url = none;
      label = "base";
    }
    ∷ record {
      id = "rtk";
      repeat = 3;
      requires_tools = "rtk" ∷ [];
      tool_probes = ("rtk", "--version" ∷ []) ∷ [];
      injections = [];
      repository_url = some "https://github.com/rtk-ai/rtk.git";
      label = "RTK-1.0";
    }
    ∷ []

two_loaded : load_conditions (document (element base (element compressor last))) ≡ ok loaded
unfolding load_conditions all_characters starts_with is_owner_and_repository is_reserved
two_loaded = refl

same_label :
    load_conditions (
      document (
        element base
          (element (object (field "id" (text "other") (field "label" (text "base") end))) last)))
    ≡ err (duplicate_label "base")
unfolding load_conditions all_characters starts_with is_owner_and_repository is_reserved
same_label = refl

unknown_source :
    load_conditions (document (element without_repository last)) ≡ err no_repository_url
unfolding load_conditions all_characters starts_with is_owner_and_repository is_reserved
unknown_source = refl

load_conditions-ok_example : AreSound loaded
load_conditions-ok_example =
    load_conditions-ok (document (element base (element compressor last))) two_loaded
