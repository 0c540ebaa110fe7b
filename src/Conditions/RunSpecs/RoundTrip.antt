-- ===== src/Conditions/RunSpecs/RoundTrip.antt =====
-- A run of an accepted condition is read back from its snapshot (token_bench/conditions.py).
use claude_code_token_saving.Base.{
  ℕ, String, ◌≡◌, refl, ap, ◌∙◌, Bool, true, false, not, ◌&&◌, Option, none, some, List, [], ◌∷◌,
  map, Result, ok, err, any, count, All, Dict, lookup, lookup_or, leb, ltb, arith, if◌then◌else◌,
  string_eq,
}
use mathlib.Core.Path.{subst}
use Prim.Native.Char.{code}
use claude_code_token_saving.Base.Int.{pos}
use claude_code_token_saving.Conditions.{Injection, Condition, run_of}
use claude_code_token_saving.Conditions.Json.{
  Json, null, bool, int, float, text, array, object, elements, entries_from,
}
use claude_code_token_saving.Conditions.Parsing.{has_unknown}
use claude_code_token_saving.Conditions.Fields.{
  is_lower_or_digit, is_alphanumeric, or_mark, all_characters, is_name, named, repeat_of, tools_of,
  probes_of, url_of,
}
use claude_code_token_saving.Conditions.Declarations.{
  ConditionError, unknown_setting, probes_differ, bad_repository_url, two_proxies,
  proxy_not_required, no_repository_url, condition_keys, injections_from, injections_of,
  are_same_names, is_proxy, is_required, is_none, needs_repository, checked, assembled, label_field,
  parse_fields, parse_condition,
}
use claude_code_token_saving.Conditions.RunSpecs.{
  items, injections_to_list, probes_to_dict, url_to_json, run_spec_to_dict, run_spec_of,
  run_spec_from_dict,
}
use claude_code_token_saving.Conditions.RunSpecs.Probes.{
  names, AreFilled, filled_texts-items, IsArgs, again, args, probes_for, probes_reread, again-names,
  again_args,
}
use claude_code_token_saving.Conditions.RunSpecs.Known.{
  IsNamed, IsPositive, HasTexts, HasProbes, HasUrl, HasInjections, named-IsNamed, repeat-IsPositive,
  tools-HasTexts, probes-HasProbes, url-HasUrl, injections-HasInjections,
}

and_true : (a b : Bool) → (a && b) ≡ true → (a ≡ true) × (b ≡ true)
and_true true b h = (refl, h)
and_true false b h = cc

wider : (c : ℕ) → is_lower_or_digit c ≡ true → is_alphanumeric c ≡ true
wider c h = rw h

wider_mark : (c : ℕ) → or_mark is_lower_or_digit c ≡ true → or_mark is_alphanumeric c ≡ true
wider_mark c h = ground arith

wider_all :
    (s : String)
    → all_characters (or_mark is_lower_or_digit) s ≡ true
    → all_characters (or_mark is_alphanumeric) s ≡ true
unfolding all_characters
wider_all String.[] h = refl
wider_all (String.◌∷◌ c s) h =
    let (first, rest) = and_true (or_mark is_lower_or_digit (code c)) _ h in
    rw (wider_mark (code c) first) (wider_all s rest)

-- An id can be a label.
id_is_label : (s : String) → is_name is_lower_or_digit s ≡ true → is_name is_alphanumeric s ≡ true
unfolding is_name
id_is_label String.[] h = cc
id_is_label (String.◌∷◌ c s) h =
    let (start, short) =
      and_true (is_lower_or_digit (code c) && all_characters (or_mark is_lower_or_digit) s) _ h in
    let (first, rest) = and_true (is_lower_or_digit (code c)) _ start in
    rw (wider (code c) first) (rw (wider_all s rest) short)

-- A run of the condition is read back.
abbrev Returns : Result ConditionError Condition → Type 0
Returns (ok c) = (i : ℕ) → run_spec_from_dict (run_spec_to_dict (run_of c i)) ≡ ok (run_of c i)
Returns (err e) = Unit

if_Returns :
    (b : Bool) (e : ConditionError) (r : Result ConditionError Condition)
    → (b ≡ false → Returns r)
    → Returns (if b then err e else r)
if_Returns true e r h = tt
if_Returns false e r h = h refl

not-eq-false : (b : Bool) → not b ≡ false → b ≡ true
not-eq-false true h = refl
not-eq-false false h = cc

abbrev condition :
    String
    → ℕ
    → List String
    → Option String
    → List Injection
    → (label : String) → (probes : Dict (List String)) → Condition
condition id n tools url is label probes = record {
  id = id;
  repeat = n;
  requires_tools = tools;
  tool_probes = map (λ tool. (tool, lookup_or tool [] probes)) tools;
  injections = is;
  repository_url = url;
  label = label;
}

url_reread : (url : Option String) → HasUrl (some url) → url_of (some (url_to_json url)) ≡ some url
url_reread none h = refl
url_reread (some s) h = rw h

module _ (id : String) (n : ℕ) (tools : List String) (d : Dict (List String)) (url : Option String)
    (is : List Injection) (own : is_name is_lower_or_digit id ≡ true) (positive : leb 1 n ≡ true)
    (texts : AreFilled tools) (filled : All (λ (p : String × List String). IsArgs p.1) d)
    (same : are_same_names (names d) tools ≡ true) (known : HasUrl (some url))
    (reread : injections_from (elements (injections_to_list is)) ≡ ok is) where
  abbrev reread_condition : Condition
  reread_condition = condition id n tools url is id (again tools d filled same)

  abbrev document : Dict Json
  document =
      ("id", text id)
      ∷ ("repeat", int (pos n))
      ∷ ("requires_tools", array (items tools))
      ∷ ("tool_probes", object (probes_to_dict (probes_for (args tools d filled same) tools)))
      ∷ ("repository_url", url_to_json url)
      ∷ ("injections", array (injections_to_list is))
      ∷ []

  id_reread : named (is_name is_lower_or_digit) (some (text id)) ≡ some id
  id_reread = rw own

  label_reread : label_field (named (is_name is_lower_or_digit) (some (text id))) none ≡ some id
  label_reread = ap (λ o. label_field o none) id_reread ∙ rw (id_is_label id own)

  repeat_reread : repeat_of (some (int (pos n))) ≡ some n
  repeat_reread = rw positive

  fields_reread :
      parse_fields document
      ≡ assembled
          (some id)
          (some id)
          (some n)
          (some tools)
          (some (again tools d filled same))
          (some url)
          (ok is)
  fields_reread = λ k.
      assembled (id_reread k) (label_reread k) (repeat_reread k) (filled_texts-items tools texts k)
        (probes_reread tools d filled same k) (url_reread url known k) (reread k)

  module _ (few : ltb 1 (count is_proxy is) ≡ false)
      (required : any (λ i. is_proxy i && not (is_required tools i.binary)) is ≡ false)
      (sourced : (needs_repository reread_condition && is_none url) ≡ false) where
    condition_reread : parse_fields document ≡ ok reread_condition
    condition_reread =
        fields_reread ∙ rw (again-names tools d filled same) (rw few (rw required (rw sourced)))

    run_reread :
        (label : String) (i : ℕ)
        → run_spec_from_dict (run_spec_to_dict (run_of (condition id n tools url is label d) i))
          ≡ ok (run_of (condition id n tools url is label d) i)
    unfolding run_spec_from_dict run_spec_to_dict
    run_reread label i =
        ap (λ (r : Result ConditionError Condition). run_spec_of r (some (int (pos i))))
          condition_reread
        ∙ λ k. ok (record {
          condition_id = id;
          repeat_index = pos i;
          repeat_total = n;
          requires_tools = tools;
          injections = is;
          tool_probes = again_args tools d filled same k;
          repository_url = url;
        })

assembled-Returns :
    (id label : Option String) (repeat : Option ℕ) (tools : Option (List String))
    (probes : Option (Dict (List String))) (url : Option (Option String))
    (is : Result ConditionError (List Injection))
    → IsNamed id
    → IsPositive repeat
    → HasTexts tools
    → HasProbes probes
    → HasUrl url
    → HasInjections is
    → Returns (assembled id label repeat tools probes url is)
assembled-Returns none label repeat tools probes url is own p t f k r = tt
assembled-Returns (some id) none repeat tools probes url is own p t f k r = tt
assembled-Returns (some id) (some label) none tools probes url is own p t f k r = tt
assembled-Returns (some id) (some label) (some n) none probes url is own p t f k r = tt
assembled-Returns (some id) (some label) (some n) (some tools) none url is own p t f k r = tt
assembled-Returns (some id) (some label) (some n) (some tools) (some d) none is own p t f k r =
    if_Returns (not (are_same_names (names d) tools)) probes_differ (err bad_repository_url)
      (λ e. tt)
assembled-Returns (some id) (some label) (some n) (some tools) (some d) (some url) (err x) own p t f
      k r =
    if_Returns (not (are_same_names (names d) tools)) probes_differ (err x) (λ e. tt)
assembled-Returns (some id) (some label) (some n) (some tools) (some d) (some url) (ok is) own p t f
      k r =
    let c = condition id n tools url is label d in
    if_Returns (not (are_same_names (names d) tools)) probes_differ (checked c) (λ same.
      if_Returns (ltb 1 (count is_proxy is)) two_proxies _ (λ few.
        if_Returns (any (λ i. is_proxy i && not (is_required tools i.binary)) is) proxy_not_required
          _
          (λ required.
            if_Returns (needs_repository c && is_none url) no_repository_url (ok c) (λ sourced.
              run_reread id n tools d url is own p t f (not-eq-false _ same) k r few required
                sourced label))))

parse_condition-Returns : (x : Json) → Returns (parse_condition x)
unfolding parse_condition
parse_condition-Returns (object fields) =
    let raw = entries_from [] fields in
    if_Returns (has_unknown condition_keys raw) unknown_setting _ (λ e.
      assembled-Returns (named (is_name is_lower_or_digit) (lookup "id" raw))
        (label_field (named (is_name is_lower_or_digit) (lookup "id" raw)) (lookup "label" raw))
        (repeat_of (lookup "repeat" raw)) (tools_of (lookup "requires_tools" raw))
        (probes_of (lookup "tool_probes" raw)) (url_of (lookup "repository_url" raw))
        (injections_of (lookup "injections" raw)) (named-IsNamed (lookup "id" raw))
        (repeat-IsPositive (lookup "repeat" raw)) (tools-HasTexts (lookup "requires_tools" raw))
        (probes-HasProbes (lookup "tool_probes" raw)) (url-HasUrl (lookup "repository_url" raw))
        (injections-HasInjections (lookup "injections" raw)))
parse_condition-Returns null = tt
parse_condition-Returns (int n) = tt
parse_condition-Returns (bool b) = tt
parse_condition-Returns (float b) = tt
parse_condition-Returns (text s) = tt
parse_condition-Returns (array xs) = tt

-- A run of an accepted condition, as it stands in a snapshot, is read back as the same run.
pub run_spec_from_dict-to_dict :
    (raw : Json) {c : Condition} (i : ℕ)
    → parse_condition raw ≡ ok c
    → run_spec_from_dict (run_spec_to_dict (run_of c i)) ≡ ok (run_of c i)
run_spec_from_dict-to_dict raw i h = subst Returns h (parse_condition-Returns raw) i
