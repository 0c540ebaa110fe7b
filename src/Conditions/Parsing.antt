-- ===== src/Conditions/Parsing.antt =====
-- `_parse_injection` of token_bench/conditions.py.
pub mod Injections
use claude_code_token_saving.Base.{
  ℕ, String, Bool, true, false, not, ◌&&◌, ◌||◌, Option, none, some, List, [], ◌∷◌, Result, ok, err,
  any, Dict, lookup, ◌==◌, string_eq, if◌then◌else◌,
}
use claude_code_token_saving.Conditions.{
  InjectionType, prompt_overlay, config_ref, env, plugin_dir, proxy, Injection,
}
use claude_code_token_saving.Conditions.Json.{
  Json, null, text, array, object, Fields, elements, entries_from, texts, is_empty,
}
use claude_code_token_saving.Conditions.Paths.{is_repo_relative, is_reserved, is_rooted}

-- `ConditionError`, by the test that raises it, and the TypeError of a `type` that has no hash.
pub data InjectionError : Type 0 where
  not_an_object unknown_type unknown_setting no_binary args_not_texts bad_ready_path :
      InjectionError
  no_path path_outside bad_fingerprint_path fingerprint_path_outside : InjectionError
  no_name value_not_text reserved_name unhashable_type : InjectionError

abbrev pub type_named : String → Result InjectionError InjectionType
type_named s =
    if s == "prompt_overlay"
    then ok prompt_overlay
    else if s == "config_ref"
    then ok config_ref
    else if s == "env"
    then ok env
    else if s == "plugin_dir"
    then ok plugin_dir
    else if s == "proxy"
    then ok proxy
    else err unknown_type

abbrev pub type_of : Option Json → Result InjectionError InjectionType
type_of (some (text s)) = type_named s
type_of (some (array xs)) = err unhashable_type
type_of (some (object fields)) = err unhashable_type
type_of _ = err unknown_type

-- `_INJECTION_KEYS_BY_TYPE`
abbrev pub allowed_keys : InjectionType → List String
allowed_keys prompt_overlay = "type" ∷ "path" ∷ []
allowed_keys config_ref = "type" ∷ "path" ∷ []
allowed_keys plugin_dir = "type" ∷ "path" ∷ "fingerprint_path" ∷ []
allowed_keys env = "type" ∷ "name" ∷ "value" ∷ []
allowed_keys proxy = "type" ∷ "binary" ∷ "args" ∷ "ready_path" ∷ []

abbrev pub has_unknown : List String → Dict Json → Bool
has_unknown keys raw = any (λ entry. not (any (λ key. key == entry.0) keys)) raw

abbrev pub blank : InjectionType → Injection
blank t = record {
  type = t;
  path = none;
  name = none;
  value = none;
  binary = none;
  args = none;
  ready_path = none;
  fingerprint_path = none;
}

-- `isinstance(x, str) and x`
abbrev pub filled : Option Json → Option String
filled (some (text s)) = if is_empty s then none else some s
filled _ = none

-- `raw.get("args", [])`
abbrev pub args_of : Option Json → Option (List String)
args_of none = some []
args_of (some (array xs)) = texts (elements xs)
args_of _ = none

-- `raw.get("ready_path", "/readyz")`
abbrev pub ready_path_of : Option Json → Option String
ready_path_of none = some "/readyz"
ready_path_of (some (text s)) = if is_rooted s then some s else none
ready_path_of _ = none

abbrev pub proxy_from :
    Option String → Option (List String) → Option String → Result InjectionError Injection
proxy_from none args ready = err no_binary
proxy_from (some binary) none ready = err args_not_texts
proxy_from (some binary) (some args) none = err bad_ready_path
proxy_from (some binary) (some args) (some ready) =
    ok (record (blank proxy) { binary = some binary; args = some args; ready_path = some ready })

abbrev pub inside_from : InjectionType → Option String → Result InjectionError Injection
inside_from t none = err no_path
inside_from t (some path) =
    if not (is_repo_relative path)
    then err path_outside
    else ok (record (blank t) { path = some path })

-- null and a missing key mean the same
abbrev pub plugin_from : Option String → Option Json → Result InjectionError Injection
plugin_from none fingerprint = err no_path
plugin_from (some path) none = ok (record (blank plugin_dir) { path = some path })
plugin_from (some path) (some null) = ok (record (blank plugin_dir) { path = some path })
plugin_from (some path) (some (text s)) =
    if is_empty s
    then err bad_fingerprint_path
    else if not (is_repo_relative s)
    then err fingerprint_path_outside
    else ok (record (blank plugin_dir) { path = some path; fingerprint_path = some s })
plugin_from (some path) (some other) = err bad_fingerprint_path

abbrev pub named_env : String → Option String → Result InjectionError Injection
named_env name value =
    if is_reserved name
    then err reserved_name
    else ok (record (blank env) { name = some name; value = value })

abbrev pub env_from : Option String → Option Json → Result InjectionError Injection
env_from none value = err no_name
env_from (some name) none = named_env name none
env_from (some name) (some null) = named_env name none
env_from (some name) (some (text s)) = named_env name (some s)
env_from (some name) (some other) = err value_not_text

abbrev pub parse_typed : Dict Json → InjectionType → Result InjectionError Injection
parse_typed raw proxy =
    proxy_from (filled (lookup "binary" raw)) (args_of (lookup "args" raw))
      (ready_path_of (lookup "ready_path" raw))
parse_typed raw prompt_overlay = inside_from prompt_overlay (filled (lookup "path" raw))
parse_typed raw config_ref = inside_from config_ref (filled (lookup "path" raw))
parse_typed raw plugin_dir =
    plugin_from (filled (lookup "path" raw)) (lookup "fingerprint_path" raw)
parse_typed raw env = env_from (filled (lookup "name" raw)) (lookup "value" raw)

abbrev pub parse_known :
    Dict Json → Result InjectionError InjectionType → Result InjectionError Injection
parse_known raw (err e) = err e
parse_known raw (ok t) =
    let parsed = parse_typed raw t in
    if has_unknown (allowed_keys t) raw then err unknown_setting else parsed

unfoldable pub parse_injection : Json → Result InjectionError Injection
unfolding is_repo_relative is_reserved
parse_injection (object fields) =
    let raw = entries_from [] fields in parse_known raw (type_of (lookup "type" raw))
parse_injection _ = err not_an_object
