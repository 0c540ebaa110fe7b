-- ===== src/Conditions/Parsing/Injections.antt =====
-- What an accepted injection can do (token_bench/conditions.py).
use claude_code_token_saving.Base.{
  String, ◌≡◌, Bool, true, false, not, ◌&&◌, Option, none, some, Result, ok, err,
}
use claude_code_token_saving.Conditions.{
  InjectionType, prompt_overlay, config_ref, env, plugin_dir, proxy, Injection,
}
use claude_code_token_saving.Conditions.Json.{Json}
use claude_code_token_saving.Conditions.Paths.{is_repo_relative, is_reserved}
use claude_code_token_saving.Conditions.Parsing.{InjectionError}

abbrev pub is_some {ℓ} : {A : Type ℓ} → Option A → Bool
is_some none = false
is_some (some a) = true

abbrev pub stays_inside : Option String → Bool
stays_inside none = true
stays_inside (some path) = is_repo_relative path

abbrev pub is_free_name : Option String → Bool
is_free_name none = false
is_free_name (some name) = not (is_reserved name)

-- By type: a file of the repository, a plugin whose fingerprint is taken inside it, a variable that
-- the runner does not own, a proxy with all that its start needs.
abbrev pub is_harmless : InjectionType → Injection → Bool
is_harmless prompt_overlay i = stays_inside i.path && is_some i.path
is_harmless config_ref i = stays_inside i.path && is_some i.path
is_harmless plugin_dir i = is_some i.path && stays_inside i.fingerprint_path
is_harmless env i = is_free_name i.name
is_harmless proxy i = is_some i.binary && is_some i.args && is_some i.ready_path

-- An accepted result has the property.
abbrev pub Harmless : Result InjectionError Injection → Type 0
Harmless (ok i) = is_harmless i.type i ≡ true
Harmless (err e) = Unit
