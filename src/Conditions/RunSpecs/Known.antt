-- ===== src/Conditions/RunSpecs/Known.antt =====
-- What is known of each field of a condition that passed its test (token_bench/conditions.py).
use claude_code_token_saving.Base.{
  ℕ, String, ◌≡◌, refl, Bool, true, false, not, Option, none, some, List, [], ◌∷◌, Result, ok, err,
  All, Dict, leb, if◌then◌else◌, string_eq,
}
use mathlib.Core.Path.{subst}
use claude_code_token_saving.Base.Int.{pos, negsuc}
use claude_code_token_saving.Conditions.{Injection}
use claude_code_token_saving.Conditions.Json.{
  Json, null, bool, int, float, text, array, object, elements, entries_from, is_empty,
}
use claude_code_token_saving.Conditions.Parsing.{InjectionError, parse_injection}
use claude_code_token_saving.Conditions.Fields.{
  is_lower_or_digit, is_name, is_repository_url, named, repeat_of, consed, filled_texts, tools_of,
  probe, probe_of, probes_from, probes_of, url_of,
}
use claude_code_token_saving.Conditions.Declarations.{
  ConditionError, injected, injections_from, injections_of,
}
use claude_code_token_saving.Conditions.RunSpecs.{injections_to_list}
use claude_code_token_saving.Conditions.RunSpecs.Injections.{Rereads, parse-Rereads}
use claude_code_token_saving.Conditions.RunSpecs.Probes.{AreFilled, IsArgs}

abbrev pub IsNamed : Option String → Type 0
IsNamed none = Unit
IsNamed (some s) = is_name is_lower_or_digit s ≡ true

abbrev pub IsPositive : Option ℕ → Type 0
IsPositive none = Unit
IsPositive (some n) = leb 1 n ≡ true

abbrev pub HasTexts : Option (List String) → Type 0
HasTexts none = Unit
HasTexts (some ss) = AreFilled ss

abbrev pub HasProbes : Option (Dict (List String)) → Type 0
HasProbes none = Unit
HasProbes (some d) = All (λ (p : String × List String). IsArgs p.1) d

abbrev pub HasUrl : Option (Option String) → Type 0
HasUrl (some (some s)) = is_repository_url s ≡ true
HasUrl _ = Unit

abbrev pub HasInjections : Result ConditionError (List Injection) → Type 0
HasInjections (ok is) = injections_from (elements (injections_to_list is)) ≡ ok is
HasInjections (err e) = Unit

if_IsNamed :
    (s : String) (b : Bool) → is_name is_lower_or_digit s ≡ b → IsNamed (if b then some s else none)
if_IsNamed s true e = e
if_IsNamed s false e = tt

pub named-IsNamed : (x : Option Json) → IsNamed (named (is_name is_lower_or_digit) x)
named-IsNamed (some (text s)) = if_IsNamed s (is_name is_lower_or_digit s) refl
named-IsNamed none = tt
named-IsNamed (some null) = tt
named-IsNamed (some (bool b)) = tt
named-IsNamed (some (int n)) = tt
named-IsNamed (some (float b)) = tt
named-IsNamed (some (array xs)) = tt
named-IsNamed (some (object fields)) = tt

if_IsPositive : (n : ℕ) (b : Bool) → leb 1 n ≡ b → IsPositive (if b then some n else none)
if_IsPositive n true e = e
if_IsPositive n false e = tt

pub repeat-IsPositive : (x : Option Json) → IsPositive (repeat_of x)
repeat-IsPositive none = refl
repeat-IsPositive (some (int (pos n))) = if_IsPositive n (leb 1 n) refl
repeat-IsPositive (some (int (negsuc n))) = tt
repeat-IsPositive (some null) = tt
repeat-IsPositive (some (bool b)) = tt
repeat-IsPositive (some (float b)) = tt
repeat-IsPositive (some (text s)) = tt
repeat-IsPositive (some (array xs)) = tt
repeat-IsPositive (some (object fields)) = tt

consed-HasTexts :
    (x : Option String) (xs : Option (List String))
    → ((s : String) → x ≡ some s → is_empty s ≡ false)
    → HasTexts xs
    → HasTexts (consed x xs)
consed-HasTexts none xs h f = tt
consed-HasTexts (some s) none h f = tt
consed-HasTexts (some s) (some ss) h f = (h s refl, f)

named_filled :
    (x : Json) (s : String) → named (λ t. not (is_empty t)) (some x) ≡ some s → is_empty s ≡ false
named_filled (text String.[]) s e = cc
named_filled (text (String.◌∷◌ c t)) s e =
    let same : String.◌∷◌ c t ≡ s = cc in subst (λ u. is_empty u ≡ false) same refl
named_filled null s e = cc
named_filled (bool b) s e = cc
named_filled (int n) s e = cc
named_filled (float b) s e = cc
named_filled (array xs) s e = cc
named_filled (object fields) s e = cc

texts-HasTexts : (xs : List Json) → HasTexts (filled_texts xs)
texts-HasTexts [] = tt
texts-HasTexts (x ∷ xs) =
    consed-HasTexts (named (λ t. not (is_empty t)) (some x)) (filled_texts xs) (named_filled x)
      (texts-HasTexts xs)

pub tools-HasTexts : (x : Option Json) → HasTexts (tools_of x)
tools-HasTexts none = tt
tools-HasTexts (some (array xs)) = texts-HasTexts (elements xs)
tools-HasTexts (some null) = tt
tools-HasTexts (some (bool b)) = tt
tools-HasTexts (some (int n)) = tt
tools-HasTexts (some (float b)) = tt
tools-HasTexts (some (text s)) = tt
tools-HasTexts (some (object fields)) = tt

abbrev HasArgs : Option (String × List String) → Type 0
HasArgs none = Unit
HasArgs (some p) = IsArgs p.1

probe-HasArgs : (name : String) (xs : Option (List String)) → HasTexts xs → HasArgs (probe name xs)
probe-HasArgs name none f = tt
probe-HasArgs name (some []) f = tt
probe-HasArgs name (some (s ∷ ss)) f = f

probe_of-HasArgs : (name : String) (x : Json) → HasArgs (probe_of (name, x))
probe_of-HasArgs name (array xs) =
    probe-HasArgs name (filled_texts (elements xs)) (texts-HasTexts (elements xs))
probe_of-HasArgs name null = tt
probe_of-HasArgs name (bool b) = tt
probe_of-HasArgs name (int n) = tt
probe_of-HasArgs name (float b) = tt
probe_of-HasArgs name (text s) = tt
probe_of-HasArgs name (object fields) = tt

consed-HasProbes :
    (p : Option (String × List String)) (ps : Option (Dict (List String)))
    → HasArgs p
    → HasProbes ps
    → HasProbes (consed p ps)
consed-HasProbes none ps h f = tt
consed-HasProbes (some p) none h f = tt
consed-HasProbes (some p) (some ps) h f = (h, f)

probes_from-HasProbes : (d : Dict Json) → HasProbes (probes_from d)
probes_from-HasProbes [] = tt
probes_from-HasProbes ((name, x) ∷ d) =
    consed-HasProbes (probe_of (name, x)) (probes_from d) (probe_of-HasArgs name x)
      (probes_from-HasProbes d)

pub probes-HasProbes : (x : Option Json) → HasProbes (probes_of x)
probes-HasProbes none = tt
probes-HasProbes (some (object fields)) = probes_from-HasProbes (entries_from [] fields)
probes-HasProbes (some null) = tt
probes-HasProbes (some (bool b)) = tt
probes-HasProbes (some (int n)) = tt
probes-HasProbes (some (float b)) = tt
probes-HasProbes (some (text s)) = tt
probes-HasProbes (some (array xs)) = tt

if_HasUrl :
    (s : String) (b : Bool) → is_repository_url s ≡ b → HasUrl (if b then some (some s) else none)
if_HasUrl s true e = e
if_HasUrl s false e = tt

pub url-HasUrl : (x : Option Json) → HasUrl (url_of x)
url-HasUrl none = tt
url-HasUrl (some null) = tt
url-HasUrl (some (text s)) = if_HasUrl s (is_repository_url s) refl
url-HasUrl (some (bool b)) = tt
url-HasUrl (some (int n)) = tt
url-HasUrl (some (float b)) = tt
url-HasUrl (some (array xs)) = tt
url-HasUrl (some (object fields)) = tt

injected-HasInjections :
    (r : Result InjectionError Injection) (rs : Result ConditionError (List Injection))
    → Rereads r
    → HasInjections rs
    → HasInjections (injected r rs)
injected-HasInjections (err e) rs h hs = tt
injected-HasInjections (ok i) (err e) h hs = tt
injected-HasInjections (ok i) (ok is) h hs = rw h (rw hs)

injections_from-HasInjections : (xs : List Json) → HasInjections (injections_from xs)
injections_from-HasInjections [] = refl
injections_from-HasInjections (x ∷ xs) =
    injected-HasInjections (parse_injection x) (injections_from xs) (parse-Rereads x)
      (injections_from-HasInjections xs)

pub injections-HasInjections : (x : Option Json) → HasInjections (injections_of x)
injections-HasInjections none = refl
injections-HasInjections (some (array xs)) = injections_from-HasInjections (elements xs)
injections-HasInjections (some null) = tt
injections-HasInjections (some (bool b)) = tt
injections-HasInjections (some (int n)) = tt
injections-HasInjections (some (float b)) = tt
injections-HasInjections (some (text s)) = tt
injections-HasInjections (some (object fields)) = tt
