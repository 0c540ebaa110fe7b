-- ===== src/Worker/Env.antt =====
-- What the environment of the agent in token_bench/worker.py keeps.
use claude_code_token_saving.Base.{
  String, true, false, not, ◌≡◌, refl, sym, ap, ◌∙◌, Option, none, some, List, [], ◌∷◌, All, Dict,
  lookup, lookup-insert, ◌==◌, string_eq, ==_sound, Bool-cases, false≢true, inl, inr,
}
use claude_code_token_saving.Conditions.{
  InjectionType, prompt_overlay, config_ref, env, plugin_dir, proxy, Injection,
}
use claude_code_token_saving.Conditions.Paths.{is_reserved}
use claude_code_token_saving.Conditions.Parsing.Injections.{is_free_name, is_harmless}
use claude_code_token_saving.Worker.{or_blank, add_env, build_env}

abbrev pub IsHarmless : Injection → Type 0
IsHarmless i = is_harmless i.type i ≡ true

add_env_lem :
    (name : String) (t : InjectionType) (i : Injection) (vars : Dict String)
    → is_reserved name ≡ true
    → is_harmless t i ≡ true
    → lookup name (add_env t i vars) ≡ lookup name vars
add_env_lem name prompt_overlay i vars r h = refl
add_env_lem name config_ref i vars r h = refl
add_env_lem name plugin_dir i vars r h = refl
add_env_lem name proxy i vars r h = refl
add_env_lem name env i vars r h =
    lookup-insert (or_blank i.name) name (or_blank i.value) vars ∙ rw (other_name i.name h) refl
  where
    other_name : (own : Option String) → is_free_name own ≡ true → (or_blank own == name) ≡ false
    other_name none h = absurd (false≢true h)
    other_name (some own) h = elim (Bool-cases (own == name)) [
      | inr e ↦ e
      | inl e ↦
          let same = ==_sound own name e in
          absurd (false≢true (sym (ap not (ap is_reserved same ∙ r)) ∙ h))
    ]

-- The variables that the runner owns are those of the environment that it was given, whichever variables
-- harmless injections set.
pub build_env-keeps :
    (injections : List Injection) (vars : Dict String) (name : String)
    → All IsHarmless injections
    → is_reserved name ≡ true
    → lookup name (build_env injections vars) ≡ lookup name vars
unfolding build_env
build_env-keeps [] vars name h r = refl
build_env-keeps (i ∷ is) vars name h r =
    build_env-keeps is (add_env i.type i vars) name h.1 r ∙ add_env_lem name i.type i vars r h.0
