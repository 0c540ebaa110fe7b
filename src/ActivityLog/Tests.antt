-- ===== src/ActivityLog/Tests.antt =====
-- Runs of token_bench/activity_log.py on a transcript of three messages.
use claude_code_token_saving.Base.{ℕ, ◌≡◌, refl, true, not, ◌&&◌, some, List, [], ◌∷◌, map}
use claude_code_token_saving.Base.Int.{pos, negsuc, ◌+ℤ◌, ◌-ℤ◌}
use claude_code_token_saving.ActivityLog.{
  Message, Turn, context, output, growth, result_of, discarded_of, turns_from, extract_turns,
  with_context_tax, reconcile, sum, is_nil, is_measurable,
}
use claude_code_token_saving.ActivityLog.Balance.{reconcile_balances}
use claude_code_token_saving.ActivityLog.Measurable.{
  grows, reread, is_measurable_lem, context_tax_rereads,
}

abbrev pub message : ℕ → ℕ → Message
message input out = record {
  usage = record {
    counts = ("input_tokens", some input) ∷ ("output_tokens", some out) ∷ [];
    output_tokens_details = [];
    cache_creation = [];
  };
  tools = [];
  targets = [];
  stop = "";
  model = "m";
}

-- the context grows by a result of 70, then loses 60 tokens
abbrev pub messages : List Message
messages = message 100 20 ∷ message 190 30 ∷ message 160 10 ∷ []

results : map (λ (t : Turn). t.result_tokens) (extract_turns messages) ≡ pos 70 ∷ pos 0 ∷ pos 0 ∷ []
unfolding extract_turns turns_from growth context output result_of ◌-ℤ◌
results = refl

discarded :
    map (λ (t : Turn). t.discarded_tokens) (extract_turns messages) ≡ pos 0 ∷ negsuc 59 ∷ pos 0 ∷ []
unfolding extract_turns turns_from growth context output discarded_of ◌-ℤ◌
discarded = refl

reconcile_balances_example :
    let s = reconcile (with_context_tax (extract_turns messages)) in
    (s.opening +ℤ s.output +ℤ s.tool_result +ℤ s.discarded ≡ s.observed) × (s.balanced ≡ true)
reconcile_balances_example = reconcile_balances messages

is_measurable_lem_example :
    is_measurable (with_context_tax (extract_turns messages))
    ≡ (not (is_nil messages) && grows messages)
is_measurable_lem_example = is_measurable_lem messages

context_tax_rereads_example :
    sum (map (λ t. t.context_tax_tokens) (with_context_tax (extract_turns messages)))
    ≡ reread (pos 0) (extract_turns messages)
context_tax_rereads_example = context_tax_rereads messages
