-- ===== src/Conditions/Declarations.antt =====
-- `_parse_condition` and `load_conditions` of token_bench/conditions.py, from the parsed document on.
pub mod Accepted
pub mod Loading
pub mod Tests
use claude_code_token_saving.Base.{
  ℕ, zero, suc, String, Bool, true, false, not, ◌&&◌, ◌||◌, Option, none, some, List, [], ◌∷◌, map,
  Result, ok, err, any, all, count, Dict, lookup, lookup_or, leb, ltb, nat_beq, ◌==◌, string_eq,
  if◌then◌else◌,
}
use Prim.Native.Char.{Char, code}
use Prim.Native.String.{count as characters}
use claude_code_token_saving.Base.Int.{pos}
use claude_code_token_saving.Conditions.{
  InjectionType, plugin_dir, proxy, Injection, Condition, is_one_of,
}
use claude_code_token_saving.Conditions.Json.{
  Json, null, bool, int, float, text, array, object, element, elements, entries_from, is_empty,
}
use claude_code_token_saving.Conditions.Paths.{starts_with}
use claude_code_token_saving.Conditions.Parsing.{InjectionError, has_unknown, parse_injection}
use claude_code_token_saving.Conditions.Fields.{
  is_between, is_lower_or_digit, is_alphanumeric, or_mark, all_characters, is_name,
  is_owner_and_repository, after_prefix, is_repository_url, named, label_of, repeat_of, consed,
  filled_texts, tools_of, probe, probe_of, probes_from, probes_of, url_of,
}

pub data ConditionError : Type 0 where
  not_an_object unknown_setting bad_id bad_label bad_repeat bad_requires_tools : ConditionError
  bad_tool_probes probes_differ bad_repository_url bad_injections : ConditionError
  in_injection : InjectionError → ConditionError
  two_proxies proxy_not_required no_repository_url bad_repeat_index : ConditionError
  no_conditions bad_schema_version unknown_top_level no_condition : ConditionError
  duplicate_id duplicate_label : String → ConditionError

abbrev pub condition_keys : List String
condition_keys =
    "id" ∷ "label" ∷ "repeat" ∷ "requires_tools" ∷ "tool_probes" ∷ "repository_url" ∷ "injections"
    ∷ []

abbrev pub injected :
    Result InjectionError Injection
    → Result ConditionError (List Injection)
    → Result ConditionError (List Injection)
injected (err e) rest = err (in_injection e)
injected (ok i) (err e) = err e
injected (ok i) (ok is) = ok (i ∷ is)

abbrev pub injections_from : List Json → Result ConditionError (List Injection)
injections_from [] = ok []
injections_from (x ∷ xs) = injected (parse_injection x) (injections_from xs)

abbrev pub injections_of : Option Json → Result ConditionError (List Injection)
injections_of none = ok []
injections_of (some (array xs)) = injections_from (elements xs)
injections_of (some _) = err bad_injections

-- `set(tool_probes_raw) == set(requires_tools_raw)`
abbrev pub are_same_names : List String → List String → Bool
are_same_names xs ys = all (is_one_of ys) xs && all (is_one_of xs) ys

abbrev pub is_proxy : Injection → Bool
is_proxy i = elim i.type [ proxy ↦ true | _ ↦ false ]

abbrev pub is_external : Injection → Bool
is_external i = elim i.type [ proxy ↦ true | plugin_dir ↦ true | _ ↦ false ]

abbrev pub is_required : List String → Option String → Bool
is_required tools none = false
is_required tools (some binary) = is_one_of tools binary

abbrev pub is_nil {ℓ} : {A : Type ℓ} → List A → Bool
is_nil [] = true
is_nil (x ∷ xs) = false

abbrev pub is_none {ℓ} : {A : Type ℓ} → Option A → Bool
is_none none = true
is_none (some a) = false

abbrev pub needs_repository : Condition → Bool
needs_repository c = not (is_nil c.requires_tools) || any is_external c.injections

-- the tests on the whole condition
abbrev pub checked : Condition → Result ConditionError Condition
checked c =
    if ltb 1 (count is_proxy c.injections)
    then err two_proxies
    else if any (λ i. is_proxy i && not (is_required c.requires_tools i.binary)) c.injections
    then err proxy_not_required
    else if needs_repository c && is_none c.repository_url
    then err no_repository_url
    else ok c

-- What the tests of single fields have left, in the order of the tests.
abbrev pub assembled :
    (id label : Option String)
    → Option ℕ
    → Option (List String)
    → Option (Dict (List String))
    → Option (Option String)
    → Result ConditionError (List Injection)
    → Result ConditionError Condition
assembled none label repeat tools probes url is = err bad_id
assembled (some id) none repeat tools probes url is = err bad_label
assembled (some id) (some label) none tools probes url is = err bad_repeat
assembled (some id) (some label) (some n) none probes url is = err bad_requires_tools
assembled (some id) (some label) (some n) (some tools) none url is = err bad_tool_probes
assembled (some id) (some label) (some n) (some tools) (some probes) none is =
    if not (are_same_names (map (λ p. p.0) probes) tools)
    then err probes_differ
    else err bad_repository_url
assembled (some id) (some label) (some n) (some tools) (some probes) (some url) (err e) =
    if not (are_same_names (map (λ p. p.0) probes) tools) then err probes_differ else err e
assembled (some id) (some label) (some n) (some tools) (some probes) (some url) (ok is) =
    if not (are_same_names (map (λ p. p.0) probes) tools)
    then err probes_differ
    else checked (record {
      id = id;
      repeat = n;
      requires_tools = tools;
      tool_probes = map (λ tool. (tool, lookup_or tool [] probes)) tools;
      injections = is;
      repository_url = url;
      label = label;
    })

abbrev pub label_field : Option String → Option Json → Option String
label_field none x = none
label_field (some id) x = label_of id x

abbrev pub parse_fields : Dict Json → Result ConditionError Condition
parse_fields raw =
    let id = named (is_name is_lower_or_digit) (lookup "id" raw) in
    if has_unknown condition_keys raw
    then err unknown_setting
    else assembled id (label_field id (lookup "label" raw)) (repeat_of (lookup "repeat" raw))
        (tools_of (lookup "requires_tools" raw)) (probes_of (lookup "tool_probes" raw))
        (url_of (lookup "repository_url" raw)) (injections_of (lookup "injections" raw))

unfoldable pub parse_condition : Json → Result ConditionError Condition
unfolding is_name is_repository_url parse_injection
parse_condition (object fields) = parse_fields (entries_from [] fields)
parse_condition _ = err not_an_object

abbrev pub parsed :
    Result ConditionError Condition
    → Result ConditionError (List Condition)
    → Result ConditionError (List Condition)
parsed (err e) rest = err e
parsed (ok c) (err e) = err e
parsed (ok c) (ok cs) = ok (c ∷ cs)

unfoldable pub parse_conditions : List Json → Result ConditionError (List Condition)
unfolding parse_condition
parse_conditions [] = ok []
parse_conditions (x ∷ xs) = parsed (parse_condition x) (parse_conditions xs)

-- the loop with `seen_ids` and `seen_labels`; `all` is what is returned after it
unfoldable pub distinct :
    (ids labels : List String)
    → List Condition
    → List Condition
    → Result ConditionError (List Condition)
distinct ids labels every [] = ok every
distinct ids labels every (c ∷ cs) =
    let rest = distinct (c.id ∷ ids) (c.label ∷ labels) every cs in
    if is_one_of ids c.id
    then err (duplicate_id c.id)
    else if is_one_of labels c.label
    then err (duplicate_label c.label)
    else rest

abbrev pub all_distinct :
    Result ConditionError (List Condition) → Result ConditionError (List Condition)
all_distinct (err e) = err e
all_distinct (ok cs) = distinct [] [] cs cs

-- Python's 1, 1.0 and True are equal.
abbrev pub is_schema : Option Json → Bool
is_schema (some (int (pos n))) = nat_beq n 1
is_schema (some (float x)) = x.is_one
is_schema (some (bool b)) = b
is_schema _ = false

abbrev pub declared_in : Json → Result ConditionError (List Condition)
declared_in (array (element x xs)) = all_distinct (parse_conditions (x ∷ elements xs))
declared_in _ = err no_condition

abbrev pub load_from : Dict Json → Option Json → Result ConditionError (List Condition)
load_from document none = err no_conditions
load_from document (some conditions) =
    let loaded = declared_in conditions in
    if not (is_schema (lookup "schema_version" document))
    then err bad_schema_version
    else if has_unknown ("schema_version" ∷ "conditions" ∷ []) document
    then err unknown_top_level
    else loaded

-- `load_conditions`, after the file is read and parsed
unfoldable pub load_conditions : Json → Result ConditionError (List Condition)
unfolding parse_conditions distinct
load_conditions (object fields) =
    let document = entries_from [] fields in load_from document (lookup "conditions" document)
load_conditions _ = err no_conditions
