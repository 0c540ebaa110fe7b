-- ===== src/Conditions/Paths.antt =====
-- `is_repo_relative` of token_bench/conditions.py, and the names that a condition may not set.
use claude_code_token_saving.Base.{
  ℕ, ◌+◌, String, Bool, true, false, not, ◌&&◌, ◌||◌, List, [], ◌∷◌, any, nat_beq, ◌==◌, string_eq,
  if◌then◌else◌,
}
use Prim.Native.Char.{code}

abbrev pub is_slash : ℕ → Bool
is_slash c = nat_beq c 47

-- a separator of PureWindowsPath
abbrev pub is_separator : ℕ → Bool
is_separator c = nat_beq c 47 || nat_beq c 92

-- `".." in parts`: the part that is read has `dots` dots so far, or more than two characters.
unfoldable pub has_parent : (ℕ → Bool) → (dots : ℕ) → String → Bool
has_parent is_sep dots String.[] = nat_beq dots 2
has_parent is_sep dots (String.◌∷◌ c s) =
    let new_part = has_parent is_sep 0 s in
    let dotted = has_parent is_sep (dots + 1) s in
    let other = has_parent is_sep 3 s in
    if is_sep (code c)
    then nat_beq dots 2 || new_part
    else if nat_beq (code c) 46
    then dotted
    else other

abbrev pub is_rooted : String → Bool
is_rooted String.[] = false
is_rooted (String.◌∷◌ c s) = is_slash (code c)

-- `windows.drive`: a letter with a colon, or two separators of a UNC path
abbrev pub has_drive : String → Bool
has_drive String.[] = false
has_drive (String.◌∷◌ c String.[]) = false
has_drive (String.◌∷◌ c (String.◌∷◌ d s)) =
    nat_beq (code d) 58 || (is_separator (code c) && is_separator (code d))

-- An absolute Windows path has a drive.
unfoldable pub is_repo_relative : String → Bool
unfolding has_parent
is_repo_relative path = not (
    is_rooted path
    || has_drive path
    || has_parent is_slash 0 path
    || has_parent is_separator 0 path)

-- `s.startswith(t)`
unfoldable pub starts_with : String → String → Bool
starts_with s String.[] = true
starts_with String.[] (String.◌∷◌ d t) = false
starts_with (String.◌∷◌ c s) (String.◌∷◌ d t) =
    let rest = starts_with s t in nat_beq (code c) (code d) && rest

abbrev pub reserved_env_names : List String
reserved_env_names =
    "ANTHROPIC_API_KEY" ∷ "ANTHROPIC_AUTH_TOKEN" ∷ "ANTHROPIC_BASE_URL" ∷ "CLAUDE_CODE_OAUTH_TOKEN"
    ∷ []

unfoldable pub is_reserved : String → Bool
unfolding starts_with
is_reserved name =
    any (λ other. other == name) reserved_env_names
    || starts_with name "ANTHROPIC_"
    || starts_with name "CLAUDE_"
