-- ===== src/Preflight/Tests.antt =====
-- Runs of token_bench/preflight.py on a host that has no proxy.
use claude_code_token_saving.Base.{◌≡◌, refl, true, false, some, none, [], ◌∷◌, ok, ◌==◌, string_eq}
use claude_code_token_saving.Authorization.Plan.{AuthStatus}
use claude_code_token_saving.Base.Int.{pos}
use claude_code_token_saving.Conditions.{proxy, RunSpec, needs_customizations}
use claude_code_token_saving.Preflight.{
  Host, contains, check, unavailable_reasons, split_by_availability, not_on_path, no_proxy,
}
use claude_code_token_saving.Preflight.Ready.{is_ready}

abbrev subscriber : AuthStatus
subscriber = record {
  logged_in = true;
  auth_method = some "claude.ai";
  api_provider = some "firstParty";
  subscription_type = some "max";
}

abbrev host : Host
host = record {
  is_installed = true;
  version = ok "2.0.1";
  auth_status = ok subscriber;
  help_text = ok "use --safe-mode or --settings";
  is_file = λ path. path == "brief.md";
  which = λ tool. tool == "rtk";
  is_plugin_dir = λ path. false;
  fingerprint_tools = λ run. ok [];
}

abbrev plain : RunSpec
plain = record {
  condition_id = "base";
  repeat_index = pos 1;
  repeat_total = 1;
  requires_tools = [];
  injections = [];
  tool_probes = [];
  repository_url = none;
}

abbrev behind_proxy : RunSpec
behind_proxy = record plain {
  condition_id = "proxied";
  requires_tools = "headroom" ∷ [];
  injections =
      record {
        type = proxy;
        path = none;
        name = none;
        value = none;
        binary = some "headroom";
        args = some [];
        ready_path = some "/health";
        fingerprint_path = none;
      }
      ∷ [];
}

plain-is_ready : is_ready host plain ≡ true
unfolding contains needs_customizations
plain-is_ready = refl

proxied_is_not_ready : (check host behind_proxy).problems ≡ no_proxy (some "headroom") ∷ []
unfolding check contains needs_customizations
proxied_is_not_ready = refl

divided :
    split_by_availability host (behind_proxy ∷ plain ∷ [])
    ≡ (plain ∷ [], (behind_proxy, not_on_path "headroom" ∷ no_proxy (some "headroom") ∷ []) ∷ [])
unfolding split_by_availability unavailable_reasons
divided = refl
