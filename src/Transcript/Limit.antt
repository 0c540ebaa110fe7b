-- ===== src/Transcript/Limit.antt =====
-- `is_usage_limit_error` of token_bench/transcript.py, on texts of ASCII characters: there
-- `str.lower`, `\w` and IGNORECASE are the tests below.
use Prim.Native.Char.{code}
use claude_code_token_saving.Base.{
  ℕ, ◌+◌, String, Bool, true, false, ◌&&◌, ◌||◌, Option, none, some, List, [], ◌∷◌, map, any, leb,
  nat_beq, if◌then◌else◌,
}

abbrev pub codes : String → List ℕ
codes String.[] = []
codes (String.◌∷◌ c s) = code c ∷ codes s

unfoldable pub lower : ℕ → ℕ
lower c = if leb b'A' c && leb c b'Z' then c + 32 else c

-- `[\w-]`
unfoldable pub is_word : ℕ → Bool
is_word c =
    (leb b'a' c && leb c b'z')
    || (leb b'A' c && leb c b'Z')
    || (leb b'0' c && leb c b'9')
    || nat_beq c b'_'
    || nat_beq c b'-'

-- what stands behind a prefix
unfoldable pub after : List ℕ → List ℕ → Option (List ℕ)
after [] t = some t
after (p ∷ ps) [] = none
after (p ∷ ps) (c ∷ t) = let rest = after ps t in if nat_beq p c then rest else none

unfoldable pub starts : List ℕ → List ℕ → Bool
unfolding after
starts p t = elim (after p t) [ none ↦ false | some _ ↦ true ]

-- `p in t`
unfoldable pub occurs : List ℕ → List ℕ → Bool
unfolding starts
occurs p [] = starts p []
occurs p (c ∷ t) = starts p (c ∷ t) || occurs p t

-- `[\w-]*`, greedy: what follows in the pattern is no word character, so it has one way to match.
unfoldable pub drop_word : List ℕ → List ℕ
unfolding is_word
drop_word [] = []
drop_word (c ∷ t) = let rest = drop_word t in if is_word c then rest else c ∷ t

-- `[\w-]+`
unfoldable pub after_word : List ℕ → Option (List ℕ)
unfolding drop_word
after_word [] = none
after_word (c ∷ t) = if is_word c then some (drop_word t) else none

abbrev or_false : Option (List ℕ) → (List ℕ → Bool) → Bool
or_false none test = false
or_false (some t) test = test t

-- `(?: [\w-]+)? limit`
unfoldable pub word_then_limit : List ℕ → Bool
unfolding starts after_word
word_then_limit t =
    starts (codes " limit") t
    || or_false (after (codes " ") t) (λ u. or_false (after_word u) (starts (codes " limit")))

-- `_HIT_LIMIT.match`, at one place
unfoldable pub hit_limit_at : List ℕ → Bool
unfolding word_then_limit
hit_limit_at t =
    or_false (after (codes "hit your ") t) (λ u. or_false (after_word u) word_then_limit)

-- `_HIT_LIMIT.search`
unfoldable pub hit_limit : List ℕ → Bool
unfolding hit_limit_at
hit_limit [] = false
hit_limit (c ∷ t) = hit_limit_at (c ∷ t) || hit_limit t

abbrev pub usage_limit_keywords : List String
usage_limit_keywords =
    "usage limit" ∷ "session limit" ∷ "weekly limit" ∷ "rate limit" ∷ "limit reached"
    ∷ "quota exceeded" ∷ []

-- `None` and the empty text are no reason.
unfoldable pub is_usage_limit_error : Option String → Bool
unfolding lower occurs hit_limit
is_usage_limit_error none = false
is_usage_limit_error (some String.[]) = false
is_usage_limit_error (some (String.◌∷◌ c s)) =
    let lowered = map lower (codes (String.◌∷◌ c s)) in
    hit_limit lowered || any (λ (k : String). occurs (codes k) lowered) usage_limit_keywords
