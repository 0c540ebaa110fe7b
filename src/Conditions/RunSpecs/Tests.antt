-- ===== src/Conditions/RunSpecs/Tests.antt =====
-- A run of token_bench/conditions.py in a snapshot.
use claude_code_token_saving.Base.{◌≡◌, refl, some, none, [], ◌∷◌, true, ok, err}
use claude_code_token_saving.Base.Int.{pos, negsuc}
use claude_code_token_saving.Conditions.{proxy, Condition, run_of}
use claude_code_token_saving.Conditions.Json.{
  Json, int, bool, text, array, object, element, last, field, end,
}
use claude_code_token_saving.Conditions.Paths.{starts_with, is_reserved}
use claude_code_token_saving.Conditions.Parsing.{blank}
use claude_code_token_saving.Conditions.Fields.{all_characters, is_name, is_owner_and_repository}
use claude_code_token_saving.Conditions.Declarations.{parse_condition, bad_repeat_index}
use claude_code_token_saving.Conditions.RunSpecs.{run_spec_to_dict, run_spec_from_dict}
use claude_code_token_saving.Conditions.RunSpecs.RoundTrip.{run_spec_from_dict-to_dict}

abbrev pub declared : Json
declared = object (
    field "id" (text "headroom") (
      field "label" (text "HEADROOM") (
        field "requires_tools" (array (element (text "headroom") last)) (
          field "tool_probes"
            (object (field "headroom" (array (element (text "--version") last)) end))
            (field "repository_url" (text "https://github.com/chopratejas/headroom") (
              field "injections"
                (array (
                  element
                    (object (field "type" (text "proxy") (field "binary" (text "headroom") end)))
                    last))
                end))))))

abbrev pub headroom : Condition
headroom = record {
  id = "headroom";
  repeat = 1;
  requires_tools = "headroom" ∷ [];
  tool_probes = ("headroom", "--version" ∷ []) ∷ [];
  injections =
      record (blank proxy) { binary = some "headroom"; args = some []; ready_path = some "/readyz" }
      ∷ [];
  repository_url = some "https://github.com/chopratejas/headroom";
  label = "HEADROOM";
}

pub headroom_accepted : parse_condition declared ≡ ok headroom
unfolding parse_condition all_characters starts_with is_owner_and_repository is_reserved
headroom_accepted = refl

run_spec_from_dict-to_dict_example :
    run_spec_from_dict (run_spec_to_dict (run_of headroom 1)) ≡ ok (run_of headroom 1)
run_spec_from_dict-to_dict_example = run_spec_from_dict-to_dict declared 1 headroom_accepted

-- The index of a round may be negative there, but not a Boolean.
abbrev plain_run : Json → Json
plain_run index = object (
    field "condition_id" (text "base")
      (field "repeat_total" (int (pos 1)) (field "repeat_index" index end)))

negative_index :
    run_spec_from_dict (plain_run (int (negsuc 0)))
    ≡ ok (record {
      condition_id = "base";
      repeat_index = negsuc 0;
      repeat_total = 1;
      requires_tools = [];
      injections = [];
      tool_probes = [];
      repository_url = none;
    })
unfolding run_spec_from_dict all_characters is_name
negative_index = refl

boolean_index : run_spec_from_dict (plain_run (bool true)) ≡ err bad_repeat_index
unfolding run_spec_from_dict all_characters is_name
boolean_index = refl
