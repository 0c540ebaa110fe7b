-- ===== src/Conditions/Fields.antt =====
-- The tests of single fields in `_parse_condition` of token_bench/conditions.py.
use claude_code_token_saving.Base.{
  ℕ, zero, suc, String, Bool, true, false, not, ◌&&◌, ◌||◌, Option, none, some, List, [], ◌∷◌, Dict,
  leb, nat_beq, string_eq, if◌then◌else◌,
}
use Prim.Native.Char.{code}
use Prim.Native.String.{count as characters}
use claude_code_token_saving.Base.Int.{pos}
use claude_code_token_saving.Conditions.Json.{
  Json, null, int, text, array, object, elements, entries_from, is_empty,
}
use claude_code_token_saving.Conditions.Paths.{starts_with}

abbrev pub is_between : ℕ → ℕ → ℕ → Bool
is_between low high c = leb low c && leb c high

abbrev pub is_lower_or_digit : ℕ → Bool
is_lower_or_digit c = is_between 97 122 c || is_between 48 57 c

abbrev pub is_alphanumeric : ℕ → Bool
is_alphanumeric c = is_lower_or_digit c || is_between 65 90 c

-- with `.`, `_` and `-`
abbrev pub or_mark : (ℕ → Bool) → ℕ → Bool
or_mark test c = test c || nat_beq c 46 || nat_beq c 95 || nat_beq c 45

unfoldable pub all_characters : (ℕ → Bool) → String → Bool
all_characters test String.[] = true
all_characters test (String.◌∷◌ c s) = let rest = all_characters test s in test (code c) && rest

-- `[first][rest]{0,63}`
unfoldable pub is_name : (ℕ → Bool) → String → Bool
unfolding all_characters
is_name test String.[] = false
is_name test (String.◌∷◌ c s) =
    test (code c) && all_characters (or_mark test) s && leb (characters s) 63

-- The owner, which is not empty, a slash, and the repository, which is not empty.
unfoldable pub is_owner_and_repository : (started : Bool) → String → Bool
unfolding all_characters
is_owner_and_repository started String.[] = false
is_owner_and_repository started (String.◌∷◌ c s) =
    let rest = is_owner_and_repository true s in
    if nat_beq (code c) 47
    then started && not (is_empty s) && all_characters (or_mark is_alphanumeric) s
    else or_mark is_alphanumeric (code c) && rest

abbrev pub after_prefix : ℕ → String → String
after_prefix zero s = s
after_prefix (suc n) String.[] = ""
after_prefix (suc n) (String.◌∷◌ c s) = after_prefix n s

-- A repository's name may hold `.git` as it is.
unfoldable pub is_repository_url : String → Bool
unfolding starts_with is_owner_and_repository
is_repository_url s =
    starts_with s "https://github.com/" && is_owner_and_repository false (after_prefix 19 s)

abbrev pub named : (String → Bool) → Option Json → Option String
named test (some (text s)) = if test s then some s else none
named test _ = none

-- `raw.get("label", cond_id)`
abbrev pub label_of : String → Option Json → Option String
label_of id none = if is_name is_alphanumeric id then some id else none
label_of id (some x) = named (is_name is_alphanumeric) (some x)

abbrev pub repeat_of : Option Json → Option ℕ
repeat_of none = some 1
repeat_of (some (int (pos n))) = if leb 1 n then some n else none
repeat_of (some _) = none

abbrev pub consed {ℓ} : {A : Type ℓ} → Option A → Option (List A) → Option (List A)
consed (some a) (some more) = some (a ∷ more)
consed _ _ = none

-- texts that are not empty
abbrev pub filled_texts : List Json → Option (List String)
filled_texts [] = some []
filled_texts (x ∷ xs) = consed (named (λ s. not (is_empty s)) (some x)) (filled_texts xs)

abbrev pub tools_of : Option Json → Option (List String)
tools_of none = some []
tools_of (some (array xs)) = filled_texts (elements xs)
tools_of (some _) = none

abbrev pub probe : String → Option (List String) → Option (String × List String)
probe name (some (arg ∷ args)) = some (name, arg ∷ args)
probe name _ = none

abbrev pub probe_of : String × Json → Option (String × List String)
probe_of (name, array xs) = probe name (filled_texts (elements xs))
probe_of _ = none

abbrev pub probes_from : Dict Json → Option (Dict (List String))
probes_from [] = some []
probes_from (entry ∷ entries) = consed (probe_of entry) (probes_from entries)

abbrev pub probes_of : Option Json → Option (Dict (List String))
probes_of none = some []
probes_of (some (object fields)) = probes_from (entries_from [] fields)
probes_of (some _) = none

abbrev pub url_of : Option Json → Option (Option String)
url_of none = some none
url_of (some null) = some none
url_of (some (text s)) = if is_repository_url s then some (some s) else none
url_of (some _) = none
