-- ===== src/Conditions/Declarations/Accepted.antt =====
-- What `load_conditions` of token_bench/conditions.py accepts.
use claude_code_token_saving.Base.{
  ℕ, ◌≤◌, String, ◌≡◌, refl, ap, Bool, true, false, not, ◌&&◌, Option, none, some, List, [], ◌∷◌,
  map, Result, ok, err, any, count, All, Dict, lookup, lookup_or, leb, ltb, arith, string_eq,
  if◌then◌else◌,
}
use claude_code_token_saving.Base.Int.{pos, negsuc}
use claude_code_token_saving.Conditions.{Injection, Condition}
use claude_code_token_saving.Conditions.Json.{
  Json, null, bool, int, float, text, array, object, entries_from,
}
use claude_code_token_saving.Conditions.Parsing.{has_unknown}
use claude_code_token_saving.Conditions.Fields.{
  named, is_name, is_lower_or_digit, repeat_of, tools_of, probes_of, url_of,
}
use claude_code_token_saving.Conditions.Declarations.{
  ConditionError, unknown_setting, probes_differ, bad_repository_url, checked, assembled,
  parse_condition, parsed, parse_conditions, label_field, injections_of, is_proxy, is_required,
  needs_repository, is_none, are_same_names, condition_keys,
}

-- A positive repeat; one probe for each required tool, in their order; at most one proxy, whose
-- program is a required tool; a source repository where a tool or a plugin comes from outside.
abbrev pub IsSound : Condition → Type 0
IsSound c =
    (1 ≤ c.repeat)
    × (map (λ p. p.0) c.tool_probes ≡ c.requires_tools)
    × (count is_proxy c.injections ≤ 1)
    × (any (λ i. is_proxy i && not (is_required c.requires_tools i.binary)) c.injections ≡ false)
    × ((needs_repository c && is_none c.repository_url) ≡ false)

abbrev Accepted : Result ConditionError Condition → Type 0
Accepted (ok c) = IsSound c
Accepted (err e) = Unit

if_Accepted :
    (b : Bool) (e : ConditionError) (r : Result ConditionError Condition)
    → (b ≡ false → Accepted r)
    → Accepted (if b then err e else r)
if_Accepted true e r h = tt
if_Accepted false e r h = h refl

checked-Accepted :
    (c : Condition)
    → 1 ≤ c.repeat
    → map (λ p. p.0) c.tool_probes ≡ c.requires_tools
    → Accepted (checked c)
checked-Accepted c positive probed = if_Accepted (ltb 1 (count is_proxy c.injections)) _ _ (λ few.
    if_Accepted (any (λ i. is_proxy i && not (is_required c.requires_tools i.binary)) c.injections)
      _ _
      (λ required.
        if_Accepted (needs_repository c && is_none c.repository_url) _ _
          (λ known. (positive, probed, ground arith, required, known))))

probed_tools :
    (probes : Dict (List String)) (tools : List String)
    → map (λ (p : String × List String). p.0) (map (λ tool. (tool, lookup_or tool [] probes)) tools)
      ≡ tools
probed_tools probes [] = refl
probed_tools probes (tool ∷ tools) =
    ap (λ (ts : List String). tool ∷ ts) (probed_tools probes tools)

abbrev IsPositive : Option ℕ → Type 0
IsPositive none = Unit
IsPositive (some n) = 1 ≤ n

IsPositive-if : (n : ℕ) (b : Bool) → leb 1 n ≡ b → IsPositive (if b then some n else none)
IsPositive-if n true e = ground arith
IsPositive-if n false e = tt

repeat_of-IsPositive : (x : Option Json) → IsPositive (repeat_of x)
repeat_of-IsPositive none = ground arith
repeat_of-IsPositive (some (int (pos n))) = IsPositive-if n (leb 1 n) refl
repeat_of-IsPositive (some (int (negsuc n))) = tt
repeat_of-IsPositive (some null) = tt
repeat_of-IsPositive (some (bool b)) = tt
repeat_of-IsPositive (some (float b)) = tt
repeat_of-IsPositive (some (text s)) = tt
repeat_of-IsPositive (some (array xs)) = tt
repeat_of-IsPositive (some (object xs)) = tt

assembled-Accepted :
    (id label : Option String) (repeat : Option ℕ) (tools : Option (List String))
    (probes : Option (Dict (List String))) (url : Option (Option String))
    (is : Result ConditionError (List Injection))
    → IsPositive repeat
    → Accepted (assembled id label repeat tools probes url is)
assembled-Accepted none label repeat tools probes url is h = tt
assembled-Accepted (some id) none repeat tools probes url is h = tt
assembled-Accepted (some id) (some label) none tools probes url is h = tt
assembled-Accepted (some id) (some label) (some n) none probes url is h = tt
assembled-Accepted (some id) (some label) (some n) (some tools) none url is h = tt
assembled-Accepted (some id) (some label) (some n) (some tools) (some probes) none is h =
    if_Accepted (not (are_same_names (map (λ p. p.0) probes) tools)) probes_differ
      (err bad_repository_url) (λ e. tt)
assembled-Accepted (some id) (some label) (some n) (some tools) (some probes) (some url) (err x) h =
    if_Accepted (not (are_same_names (map (λ p. p.0) probes) tools)) probes_differ (err x) (λ e. tt)
assembled-Accepted (some id) (some label) (some n) (some tools) (some probes) (some url) (ok is) h =
    if_Accepted (not (are_same_names (map (λ p. p.0) probes) tools)) probes_differ _ (λ e.
      checked-Accepted
        (record {
          id = id;
          repeat = n;
          requires_tools = tools;
          tool_probes = map (λ tool. (tool, lookup_or tool [] probes)) tools;
          injections = is;
          repository_url = url;
          label = label;
        })
        h (probed_tools probes tools))

parse_condition-Accepted : (x : Json) → Accepted (parse_condition x)
unfolding parse_condition
parse_condition-Accepted (object fields) =
    let raw = entries_from [] fields in
    if_Accepted (has_unknown condition_keys raw) unknown_setting _ (λ e.
      assembled-Accepted (named (is_name is_lower_or_digit) (lookup "id" raw))
        (label_field (named (is_name is_lower_or_digit) (lookup "id" raw)) (lookup "label" raw))
        (repeat_of (lookup "repeat" raw)) (tools_of (lookup "requires_tools" raw))
        (probes_of (lookup "tool_probes" raw)) (url_of (lookup "repository_url" raw))
        (injections_of (lookup "injections" raw)) (repeat_of-IsPositive (lookup "repeat" raw)))
parse_condition-Accepted null = tt
parse_condition-Accepted (int n) = tt
parse_condition-Accepted (bool b) = tt
parse_condition-Accepted (float b) = tt
parse_condition-Accepted (text s) = tt
parse_condition-Accepted (array xs) = tt

abbrev pub AllAccepted : Result ConditionError (List Condition) → Type 0
AllAccepted (ok cs) = All IsSound cs
AllAccepted (err e) = Unit

parsed-AllAccepted :
    (r : Result ConditionError Condition) (rs : Result ConditionError (List Condition))
    → Accepted r
    → AllAccepted rs
    → AllAccepted (parsed r rs)
parsed-AllAccepted (err e) rs h hs = tt
parsed-AllAccepted (ok c) (err e) h hs = tt
parsed-AllAccepted (ok c) (ok cs) h hs = (h, hs)

pub parse_conditions-AllAccepted : (xs : List Json) → AllAccepted (parse_conditions xs)
unfolding parse_conditions
parse_conditions-AllAccepted [] = tt
parse_conditions-AllAccepted (x ∷ xs) =
    parsed-AllAccepted (parse_condition x) (parse_conditions xs) (parse_condition-Accepted x)
      (parse_conditions-AllAccepted xs)
