-- ===== src/Conditions/Declarations/Loading.antt =====
-- What `load_conditions` of token_bench/conditions.py returns.
use claude_code_token_saving.Base.{
  suc, ◌≤◌, String, ◌≡◌, refl, sym, zero, length, Bool, true, false, not, ◌||◌, Option, none, some,
  List, [], ◌∷◌, Result, ok, err, All, Pairwise, Dict, lookup, arith, ◌==◌, string_eq,
  if◌then◌else◌, ==_refl,
}
use mathlib.Core.Path.{subst}
use claude_code_token_saving.Conditions.{Condition, is_one_of}
use claude_code_token_saving.Conditions.Json.{
  Json, null, bool, int, float, text, array, object, element, last, elements, entries_from,
}
use claude_code_token_saving.Conditions.Parsing.{has_unknown}
use claude_code_token_saving.Conditions.Declarations.{
  ConditionError, parse_condition, parsed, parse_conditions, distinct, all_distinct, declared_in,
  load_from, load_conditions, bad_schema_version, unknown_top_level, is_schema, duplicate_id,
  duplicate_label,
}
use claude_code_token_saving.Conditions.Declarations.Accepted.{
  IsSound, AllAccepted, parse_conditions-AllAccepted,
}

-- Neither the ids nor the labels are equal.
abbrev pub IsApart : Condition → Condition → Type 0
IsApart c d = (¬ (c.id ≡ d.id)) × (¬ (c.label ≡ d.label))

abbrev IsNew : List String → List String → Condition → Type 0
IsNew ids labels c = (is_one_of ids c.id ≡ false) × (is_one_of labels c.label ≡ false)

abbrev AllApart : List String → List String → List Condition → Type 0
AllApart ids labels cs = All (IsNew ids labels) cs × Pairwise IsApart cs

or_false : (a b : Bool) → (a || b) ≡ false → (a ≡ false) × (b ≡ false)
or_false false b h = (refl, h)
or_false true b h = cc

different : (a b : String) → (a == b) ≡ false → ¬ (a ≡ b)
different a b h p = let same = ==_refl b in cc

IsNew-IsApart :
    (ids labels : List String) (c : Condition) (cs : List Condition)
    → All (IsNew (c.id ∷ ids) (c.label ∷ labels)) cs
    → All (IsNew ids labels) cs × All (IsApart c) cs
IsNew-IsApart ids labels c [] h = (tt, tt)
IsNew-IsApart ids labels c (d ∷ ds) (h, hs) =
    let (i, is) = or_false (c.id == d.id) (is_one_of ids d.id) h.0 in
    let (l, ls) = or_false (c.label == d.label) (is_one_of labels d.label) h.1 in
    let (new, apart) = IsNew-IsApart ids labels c ds hs in
    (((is, ls), new), ((different c.id d.id i, different c.label d.label l), apart))

-- of what the loop returns after the conditions `cs`
abbrev AreDistinct :
    (ids labels : List String) (every cs : List Condition)
    → Result ConditionError (List Condition)
    → Type 0
AreDistinct ids labels every cs (ok ds) = (ds ≡ every) × AllApart ids labels cs
AreDistinct ids labels every cs (err e) = Unit

one_more :
    (ids labels : List String) (every cs : List Condition) (c : Condition)
    (r : Result ConditionError (List Condition))
    → is_one_of ids c.id ≡ false
    → is_one_of labels c.label ≡ false
    → AreDistinct (c.id ∷ ids) (c.label ∷ labels) every cs r
    → AreDistinct ids labels every (c ∷ cs) r
one_more ids labels every cs c (err e) i l h = tt
one_more ids labels every cs c (ok ds) i l (same, (new, apart)) =
    let (news, aparts) = IsNew-IsApart ids labels c cs new in
    (same, (((i, l), news), (aparts, apart)))

distinct-AreDistinct :
    (ids labels : List String) (every cs : List Condition)
    → AreDistinct ids labels every cs (distinct ids labels every cs)
unfolding distinct
distinct-AreDistinct ids labels every [] = (refl, (tt, tt))
distinct-AreDistinct ids labels every (c ∷ cs) =
    add (is_one_of ids c.id) (is_one_of labels c.label)
      (distinct (c.id ∷ ids) (c.label ∷ labels) every cs) refl refl
      (distinct-AreDistinct (c.id ∷ ids) (c.label ∷ labels) every cs)
  where
    add :
        (i l : Bool) (r : Result ConditionError (List Condition))
        → is_one_of ids c.id ≡ i
        → is_one_of labels c.label ≡ l
        → AreDistinct (c.id ∷ ids) (c.label ∷ labels) every cs r
        → AreDistinct ids labels every
            (c ∷ cs)
            (if i then err (duplicate_id c.id) else if l then err (duplicate_label c.label) else r)
    add true l r p q h = tt
    add false true r p q h = tt
    add false false r p q h = one_more ids labels every cs c r p q h

-- of the conditions of a file
abbrev pub AreSound : List Condition → Type 0
AreSound cs = All IsSound cs × Pairwise IsApart cs × (suc zero ≤ length cs)

abbrev Loaded : Result ConditionError (List Condition) → Type 0
Loaded (ok cs) = AreSound cs
Loaded (err e) = Unit

abbrev IsFilled : Result ConditionError (List Condition) → Type 0
IsFilled (ok cs) = suc zero ≤ length cs
IsFilled (err e) = Unit

parsed-IsFilled :
    (r : Result ConditionError Condition) (rs : Result ConditionError (List Condition))
    → IsFilled (parsed r rs)
parsed-IsFilled (err e) rs = tt
parsed-IsFilled (ok c) (err e) = tt
parsed-IsFilled (ok c) (ok cs) = ground arith

first-IsFilled : (x : Json) (xs : List Json) → IsFilled (parse_conditions (x ∷ xs))
unfolding parse_conditions
first-IsFilled x xs = parsed-IsFilled (parse_condition x) (parse_conditions xs)

distinct-Loaded :
    (cs : List Condition) (r : Result ConditionError (List Condition))
    → All IsSound cs
    → suc zero ≤ length cs
    → AreDistinct [] [] cs cs r
    → Loaded r
distinct-Loaded cs (err e) sound filled h = tt
distinct-Loaded cs (ok ds) sound filled (same, (new, apart)) =
    subst AreSound (sym same) (sound, apart, filled)

all_distinct-Loaded :
    (r : Result ConditionError (List Condition))
    → AllAccepted r
    → IsFilled r
    → Loaded (all_distinct r)
all_distinct-Loaded (err e) sound filled = tt
all_distinct-Loaded (ok cs) sound filled =
    distinct-Loaded cs (distinct [] [] cs cs) sound filled (distinct-AreDistinct [] [] cs cs)

declared_in-Loaded : (conditions : Json) → Loaded (declared_in conditions)
declared_in-Loaded (array (element x xs)) =
    all_distinct-Loaded (parse_conditions (x ∷ elements xs))
      (parse_conditions-AllAccepted (x ∷ elements xs)) (first-IsFilled x (elements xs))
declared_in-Loaded (array last) = tt
declared_in-Loaded null = tt
declared_in-Loaded (int n) = tt
declared_in-Loaded (bool b) = tt
declared_in-Loaded (float b) = tt
declared_in-Loaded (text s) = tt
declared_in-Loaded (object fields) = tt

if_Loaded :
    (b : Bool) (e : ConditionError) (r : Result ConditionError (List Condition))
    → Loaded r
    → Loaded (if b then err e else r)
if_Loaded true e r h = tt
if_Loaded false e r h = h

load_from-Loaded : (document : Dict Json) (x : Option Json) → Loaded (load_from document x)
load_from-Loaded document none = tt
load_from-Loaded document (some conditions) =
    if_Loaded (not (is_schema (lookup "schema_version" document))) bad_schema_version
      (if has_unknown ("schema_version" ∷ "conditions" ∷ []) document
        then err unknown_top_level
        else declared_in conditions)
      (if_Loaded (has_unknown ("schema_version" ∷ "conditions" ∷ []) document) unknown_top_level
        (declared_in conditions) (declared_in-Loaded conditions))

load_conditions-Loaded : (document : Json) → Loaded (load_conditions document)
unfolding load_conditions
load_conditions-Loaded (object fields) =
    load_from-Loaded (entries_from [] fields) (lookup "conditions" (entries_from [] fields))
load_conditions-Loaded null = tt
load_conditions-Loaded (int n) = tt
load_conditions-Loaded (bool b) = tt
load_conditions-Loaded (float b) = tt
load_conditions-Loaded (text s) = tt
load_conditions-Loaded (array xs) = tt

-- A document that is accepted declares at least one condition; each has a positive repeat, one probe
-- for each required tool, at most one proxy whose program it requires, and a source repository if a
-- tool or a plugin comes from outside; no two have the same id or the same label.
pub load_conditions-ok :
    (document : Json) {cs : List Condition} → load_conditions document ≡ ok cs → AreSound cs
load_conditions-ok document h = subst Loaded h (load_conditions-Loaded document)
