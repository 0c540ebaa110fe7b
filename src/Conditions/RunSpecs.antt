-- ===== src/Conditions/RunSpecs.antt =====
-- `RunSpec.to_dict` and `run_spec_from_dict` of token_bench/conditions.py: a run as it stands in a
-- snapshot.
pub mod Injections
pub mod Probes
pub mod Known
pub mod RoundTrip
pub mod Tests
use claude_code_token_saving.Base.{
  String, Option, none, some, List, [], ◌∷◌, Result, ok, err, Dict, lookup, lookup_or,
}
use claude_code_token_saving.Base.Int.{ℤ, pos}
use claude_code_token_saving.Conditions.{
  InjectionType, prompt_overlay, config_ref, env, plugin_dir, proxy, Injection, Condition, RunSpec,
}
use claude_code_token_saving.Conditions.Json.{
  Json, null, int, text, array, object, Elements, last, element, Fields, end, field, entries_from,
}
use claude_code_token_saving.Conditions.Declarations.{
  ConditionError, not_an_object, bad_repeat_index, parse_fields,
}

abbrev pub type_text : InjectionType → String
type_text prompt_overlay = "prompt_overlay"
type_text config_ref = "config_ref"
type_text env = "env"
type_text plugin_dir = "plugin_dir"
type_text proxy = "proxy"

-- `list(v)`
abbrev pub items : List String → Elements
items [] = last
items (s ∷ ss) = element (text s) (items ss)

-- `k: v ... if v is not None`
abbrev pub optional : String → Option String → Fields → Fields
optional key none rest = rest
optional key (some s) rest = field key (text s) rest

abbrev pub optional_list : String → Option (List String) → Fields → Fields
optional_list key none rest = rest
optional_list key (some ss) rest = field key (array (items ss)) rest

abbrev pub injection_to_dict : Injection → Json
injection_to_dict i = object (
    field "type" (text (type_text i.type)) (
      optional "path" i.path (
        optional "name" i.name (
          optional "value" i.value (
            optional "binary" i.binary (
              optional_list "args" i.args (
                optional "ready_path" i.ready_path
                  (optional "fingerprint_path" i.fingerprint_path end))))))))

abbrev pub injections_to_list : List Injection → Elements
injections_to_list [] = last
injections_to_list (i ∷ is) = element (injection_to_dict i) (injections_to_list is)

abbrev pub probes_to_dict : Dict (List String) → Fields
probes_to_dict [] = end
probes_to_dict ((name, args) ∷ probes) = field name (array (items args)) (probes_to_dict probes)

abbrev pub url_to_json : Option String → Json
url_to_json none = null
url_to_json (some url) = text url

unfoldable pub run_spec_to_dict : RunSpec → Json
run_spec_to_dict run = object (
    field "condition_id" (text run.condition_id) (
      field "repeat_index" (int run.repeat_index) (
        field "repeat_total" (int (pos run.repeat_total)) (
          field "requires_tools" (array (items run.requires_tools)) (
            field "tool_probes" (object (probes_to_dict run.tool_probes)) (
              field "repository_url" (url_to_json run.repository_url)
                (field "injections" (array (injections_to_list run.injections)) end)))))))

-- the document that `_parse_condition` is given
abbrev pub condition_document : Dict Json → Dict Json
condition_document raw =
    ("id", lookup_or "condition_id" null raw)
    ∷ ("repeat", lookup_or "repeat_total" null raw)
    ∷ ("requires_tools", lookup_or "requires_tools" (array last) raw)
    ∷ ("tool_probes", lookup_or "tool_probes" (object end) raw)
    ∷ ("repository_url", lookup_or "repository_url" null raw)
    ∷ ("injections", lookup_or "injections" (array last) raw)
    ∷ []

abbrev pub run_spec_of :
    Result ConditionError Condition → Option Json → Result ConditionError RunSpec
run_spec_of (err e) index = err e
run_spec_of (ok c) (some (int i)) = ok (record {
  condition_id = c.id;
  repeat_index = i;
  repeat_total = c.repeat;
  requires_tools = c.requires_tools;
  injections = c.injections;
  tool_probes = c.tool_probes;
  repository_url = c.repository_url;
})
run_spec_of (ok c) index = err bad_repeat_index

unfoldable pub run_spec_from_dict : Json → Result ConditionError RunSpec
run_spec_from_dict (object fields) =
    let raw = entries_from [] fields in
    run_spec_of (parse_fields (condition_document raw)) (lookup "repeat_index" raw)
run_spec_from_dict _ = err not_an_object
