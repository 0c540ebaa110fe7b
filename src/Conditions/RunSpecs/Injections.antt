-- ===== src/Conditions/RunSpecs/Injections.antt =====
-- An injection that was accepted is accepted again as it stands in a snapshot, and is the same
-- (token_bench/conditions.py).
use claude_code_token_saving.Base.{
  String, ◌≡◌, refl, Bool, true, false, not, Option, none, some, List, [], ◌∷◌, Result, ok, err,
  Dict, lookup, if◌then◌else◌, string_eq,
}
use claude_code_token_saving.Conditions.{
  InjectionType, prompt_overlay, config_ref, env, plugin_dir, proxy, Injection,
}
use claude_code_token_saving.Conditions.Json.{
  Json, null, bool, int, float, text, array, object, elements, entries_from, is_empty, texts,
}
use claude_code_token_saving.Conditions.Paths.{is_repo_relative, is_reserved, is_rooted}
use claude_code_token_saving.Conditions.Parsing.{
  InjectionError, type_of, has_unknown, allowed_keys, filled, args_of, ready_path_of, proxy_from,
  inside_from, plugin_from, named_env, env_from, parse_typed, parse_known, parse_injection,
}
use claude_code_token_saving.Conditions.RunSpecs.{items, injection_to_dict}

-- It is read back as it is.
abbrev pub Rereads : Result InjectionError Injection → Type 0
Rereads (ok i) = parse_injection (injection_to_dict i) ≡ ok i
Rereads (err e) = Unit

if_Rereads :
    (b : Bool) (e : InjectionError) (r : Result InjectionError Injection)
    → (b ≡ false → Rereads r)
    → Rereads (if b then err e else r)
if_Rereads true e r h = tt
if_Rereads false e r h = h refl

texts-items : (ss : List String) → texts (elements (items ss)) ≡ some ss
texts-items [] = refl
texts-items (s ∷ ss) = rw (texts-items ss)

abbrev IsFilled : Option String → Type 0
IsFilled none = Unit
IsFilled (some s) = is_empty s ≡ false

filled-IsFilled : (x : Option Json) → IsFilled (filled x)
filled-IsFilled (some (text String.[])) = tt
filled-IsFilled (some (text (String.◌∷◌ c s))) = refl
filled-IsFilled none = tt
filled-IsFilled (some null) = tt
filled-IsFilled (some (bool b)) = tt
filled-IsFilled (some (int n)) = tt
filled-IsFilled (some (float b)) = tt
filled-IsFilled (some (array xs)) = tt
filled-IsFilled (some (object fields)) = tt

abbrev IsRooted : Option String → Type 0
IsRooted none = Unit
IsRooted (some s) = is_rooted s ≡ true

IsRooted-if : (s : String) (b : Bool) → is_rooted s ≡ b → IsRooted (if b then some s else none)
IsRooted-if s true e = e
IsRooted-if s false e = tt

ready-IsRooted : (x : Option Json) → IsRooted (ready_path_of x)
ready-IsRooted none = refl
ready-IsRooted (some (text s)) = IsRooted-if s (is_rooted s) refl
ready-IsRooted (some null) = tt
ready-IsRooted (some (bool b)) = tt
ready-IsRooted (some (int n)) = tt
ready-IsRooted (some (float b)) = tt
ready-IsRooted (some (array xs)) = tt
ready-IsRooted (some (object fields)) = tt

proxy-Rereads :
    (binary : Option String) (args : Option (List String)) (ready : Option String)
    → IsFilled binary
    → IsRooted ready
    → Rereads (proxy_from binary args ready)
unfolding parse_injection
proxy-Rereads none args ready f r = tt
proxy-Rereads (some binary) none ready f r = tt
proxy-Rereads (some binary) (some args) none f r = tt
proxy-Rereads (some binary) (some args) (some ready) f r = rw f (rw (texts-items args) (rw r))

not-eq-false : (b : Bool) → not b ≡ false → b ≡ true
not-eq-false true h = refl
not-eq-false false h = cc

overlay-Rereads : (path : Option String) → IsFilled path → Rereads (inside_from prompt_overlay path)
unfolding parse_injection
overlay-Rereads none f = tt
overlay-Rereads (some path) f =
    if_Rereads (not (is_repo_relative path)) _ _ (λ h. rw f (rw (not-eq-false _ h)))

config-Rereads : (path : Option String) → IsFilled path → Rereads (inside_from config_ref path)
unfolding parse_injection
config-Rereads none f = tt
config-Rereads (some path) f =
    if_Rereads (not (is_repo_relative path)) _ _ (λ h. rw f (rw (not-eq-false _ h)))

plugin-Rereads :
    (path : Option String) (fingerprint : Option Json)
    → IsFilled path
    → Rereads (plugin_from path fingerprint)
unfolding parse_injection
plugin-Rereads none fingerprint f = tt
plugin-Rereads (some path) none f = rw f
plugin-Rereads (some path) (some null) f = rw f
plugin-Rereads (some path) (some (text s)) f =
    if_Rereads (is_empty s) _ _
      (λ e. if_Rereads (not (is_repo_relative s)) _ _ (λ h. rw f (rw e (rw (not-eq-false _ h)))))
plugin-Rereads (some path) (some (bool b)) f = tt
plugin-Rereads (some path) (some (int n)) f = tt
plugin-Rereads (some path) (some (float b)) f = tt
plugin-Rereads (some path) (some (array xs)) f = tt
plugin-Rereads (some path) (some (object fields)) f = tt

free_env : (name : String) → is_empty name ≡ false → Rereads (named_env name none)
unfolding parse_injection
free_env name f = if_Rereads (is_reserved name) _ _ (λ h. rw f (rw h))

set_env : (name value : String) → is_empty name ≡ false → Rereads (named_env name (some value))
unfolding parse_injection
set_env name value f = if_Rereads (is_reserved name) _ _ (λ h. rw f (rw h))

env-Rereads :
    (name : Option String) (value : Option Json) → IsFilled name → Rereads (env_from name value)
env-Rereads none value f = tt
env-Rereads (some name) none f = free_env name f
env-Rereads (some name) (some null) f = free_env name f
env-Rereads (some name) (some (text s)) f = set_env name s f
env-Rereads (some name) (some (bool b)) f = tt
env-Rereads (some name) (some (int n)) f = tt
env-Rereads (some name) (some (float b)) f = tt
env-Rereads (some name) (some (array xs)) f = tt
env-Rereads (some name) (some (object fields)) f = tt

typed-Rereads : (raw : Dict Json) (t : InjectionType) → Rereads (parse_typed raw t)
typed-Rereads raw proxy =
    proxy-Rereads _ (args_of (lookup "args" raw)) _ (filled-IsFilled (lookup "binary" raw))
      (ready-IsRooted (lookup "ready_path" raw))
typed-Rereads raw prompt_overlay = overlay-Rereads _ (filled-IsFilled (lookup "path" raw))
typed-Rereads raw config_ref = config-Rereads _ (filled-IsFilled (lookup "path" raw))
typed-Rereads raw plugin_dir =
    plugin-Rereads _ (lookup "fingerprint_path" raw) (filled-IsFilled (lookup "path" raw))
typed-Rereads raw env = env-Rereads _ (lookup "value" raw) (filled-IsFilled (lookup "name" raw))

known-Rereads :
    (raw : Dict Json) (t : Result InjectionError InjectionType) → Rereads (parse_known raw t)
known-Rereads raw (err e) = tt
known-Rereads raw (ok t) =
    if_Rereads (has_unknown (allowed_keys t) raw) _ _ (λ _. typed-Rereads raw t)

pub parse-Rereads : (raw : Json) → Rereads (parse_injection raw)
unfolding parse_injection
parse-Rereads (object fields) =
    let raw = entries_from [] fields in known-Rereads raw (type_of (lookup "type" raw))
parse-Rereads null = tt
parse-Rereads (bool b) = tt
parse-Rereads (int n) = tt
parse-Rereads (float b) = tt
parse-Rereads (text s) = tt
parse-Rereads (array xs) = tt
