-- ===== src/ActivityLog.antt =====
-- token_bench/activity_log.py: the tokens of each turn, read from the provider's `usage` blocks. A
-- token count is a natural number; what is derived by subtraction is an integer.
pub mod Balance
pub mod Measurable
pub mod Tests
use claude_code_token_saving.Base.{
  ℕ, suc, ◌+◌, ◌-◌, ◌*◌, String, Bool, true, false, not, ◌&&◌, ◌||◌, Option, none, some, List, [],
  ◌∷◌, map, any, length, Dict, lookup, ltb, ◌==◌, string_eq, if◌then◌else◌,
}
use claude_code_token_saving.Base.Int.{ℤ, pos, negsuc, sub_ℕ, ◌+ℤ◌, ◌-ℤ◌, ◌*ℤ◌, ltb_ℤ, int_beq}

abbrev pub Counts : Type 0
Counts = Dict (Option ℕ)

-- a `usage` block; the two details are objects or missing
pub record Usage : Type 0 where
  pub counts : Counts
  pub output_tokens_details : Counts
  pub cache_creation : Counts

-- A row of `assistant_messages` (token_bench/transcript.py).
pub record Message : Type 0 where
  pub usage : Usage
  pub tools : List String
  pub targets : List String
  pub stop : String
  pub model : String

pub record Turn : Type 0 where
  pub index : ℕ
  pub tools : List String
  pub input_tokens : ℕ
  pub cache_creation_tokens : ℕ
  pub cache_read_tokens : ℕ
  pub output_tokens : ℕ
  pub context_tokens : ℕ
  pub result_tokens : ℤ
  pub targets : List String
  pub model : String
  pub thinking_tokens : ℕ
  pub cache_1h_tokens : ℕ
  pub stop_reason : String
  pub discarded_tokens : ℤ
  pub compacted : Bool
  pub context_tax_tokens : ℤ

-- `_int`: a missing key and null count as 0.
abbrev pub int_of : Counts → String → ℕ
int_of counts key = elim (lookup key counts) [ some (some n) ↦ n | _ ↦ 0 ]

unfoldable pub context : Message → ℕ
context m =
    int_of m.usage.counts "input_tokens"
    + int_of m.usage.counts "cache_creation_input_tokens"
    + int_of m.usage.counts "cache_read_input_tokens"

unfoldable pub output : Message → ℕ
output m = int_of m.usage.counts "output_tokens"

abbrev pub max_ℤ : ℤ → ℤ → ℤ
max_ℤ a b = if ltb_ℤ a b then b else a

-- The growth of the context up to the following message; `none` for the last one.
unfoldable pub growth : Message → List Message → Option ℤ
growth m [] = none
growth m (following ∷ rest) = some (pos (context following) -ℤ pos (context m))

unfoldable pub result_of : Option ℤ → ℕ → ℤ
result_of none out = pos 0
result_of (some g) out = max_ℤ (pos 0) (g -ℤ pos out)

unfoldable pub discarded_of : Option ℤ → ℕ → ℤ
unfolding result_of
discarded_of none out = pos 0
discarded_of (some g) out = g -ℤ pos out -ℤ result_of (some g) out

abbrev pub turn : ℕ → Message → List Message → Turn
turn position m rest =
    let g = growth m rest in
    record {
      index = position + 1;
      tools = m.tools;
      input_tokens = int_of m.usage.counts "input_tokens";
      cache_creation_tokens = int_of m.usage.counts "cache_creation_input_tokens";
      cache_read_tokens = int_of m.usage.counts "cache_read_input_tokens";
      output_tokens = output m;
      context_tokens = context m;
      result_tokens = result_of g (output m);
      targets = m.targets;
      model = m.model;
      thinking_tokens = int_of m.usage.output_tokens_details "thinking_tokens";
      cache_1h_tokens = int_of m.usage.cache_creation "ephemeral_1h_input_tokens";
      stop_reason = m.stop;
      discarded_tokens = discarded_of g (output m);
      compacted = ltb_ℤ (discarded_of g (output m)) (pos 0);
      context_tax_tokens = pos 0;
    }

unfoldable pub turns_from : ℕ → List Message → List Turn
turns_from position [] = []
turns_from position (m ∷ rest) = turn position m rest ∷ turns_from (position + 1) rest

unfoldable pub extract_turns : List Message → List Turn
unfolding turns_from
extract_turns messages = turns_from 0 messages

-- `total - turn.index`: how many turns come later
abbrev pub later : ℕ → Turn → ℤ
later total t = sub_ℕ total t.index

abbrev pub sum : List ℤ → ℤ
sum [] = pos 0
sum (x ∷ xs) = x +ℤ sum xs

abbrev pub taxed : ℕ → Turn → Turn
taxed total t = record t { context_tax_tokens = t.result_tokens *ℤ later total t }

unfoldable pub with_context_tax : List Turn → List Turn
with_context_tax turns = map (taxed (length turns)) turns

-- `turns[:-1]`
abbrev pub but_last {ℓ} : {A : Type ℓ} → List A → List A
but_last [] = []
but_last (x ∷ []) = []
but_last (x ∷ y ∷ xs) = x ∷ but_last (y ∷ xs)

-- `turns[1:]`
abbrev pub but_first {ℓ} : {A : Type ℓ} → List A → List A
but_first [] = []
but_first (x ∷ xs) = xs

pub record Shares : Type 0 where
  pub opening : ℤ
  pub output : ℤ
  pub tool_result : ℤ
  pub discarded : ℤ
  pub observed : ℤ
  pub balanced : Bool

abbrev pub opening_share : List Turn → ℤ
opening_share [] = pos 0
opening_share (t ∷ turns) = pos t.context_tokens *ℤ sub_ℕ (length (t ∷ turns)) 1

abbrev pub output_share : ℕ → List Turn → ℤ
output_share total turns = sum (map (λ t. pos t.output_tokens *ℤ later total t) (but_last turns))

abbrev pub result_share : ℕ → List Turn → ℤ
result_share total turns = sum (map (λ t. t.result_tokens *ℤ later total t) turns)

abbrev pub discarded_share : ℕ → List Turn → ℤ
discarded_share total turns = sum (map (λ t. t.discarded_tokens *ℤ later total t) turns)

abbrev pub observed_of : List Turn → ℤ
observed_of turns = sum (map (λ t. pos t.context_tokens) (but_first turns))

unfoldable pub reconcile : List Turn → Shares
reconcile turns =
    let total = length turns in
    let opening = opening_share turns in
    let out = output_share total turns in
    let result = result_share total turns in
    let discarded = discarded_share total turns in
    record {
      opening = opening;
      output = out;
      tool_result = result;
      discarded = discarded;
      observed = observed_of turns;
      balanced = int_beq (opening +ℤ out +ℤ result +ℤ discarded) (observed_of turns);
    }

abbrev pub is_nil {ℓ} : {A : Type ℓ} → List A → Bool
is_nil [] = true
is_nil (x ∷ xs) = false

unfoldable pub is_measurable : List Turn → Bool
unfolding reconcile
is_measurable turns =
    not (is_nil turns) && (reconcile turns).balanced && not (any (λ (t : Turn). t.compacted) turns)
