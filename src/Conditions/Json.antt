-- ===== src/Conditions/Json.antt =====
-- The values that `json.loads` returns, as far as token_bench/conditions.py tells them apart.
use claude_code_token_saving.Base.{
  String, Bool, true, false, Option, none, some, List, [], ◌∷◌, Dict, insert,
}
use claude_code_token_saving.Base.Int.{ℤ}

-- A number with a fraction or an exponent, as it is written, and whether it equals 0 or 1.
pub record Float : Type 0 where
  pub literal : String
  pub is_zero : Bool
  pub is_one : Bool

mutual
  pub data Json : Type 0 where
    null : Json
    bool : Bool → Json
    int : ℤ → Json
    float : Float → Json
    text : String → Json
    array : Elements → Json
    object : Fields → Json

  pub data Elements : Type 0 where
    last : Elements
    element : Json → Elements → Elements

  pub data Fields : Type 0 where
    end : Fields
    field : String → Json → Fields → Fields

abbrev pub elements : Elements → List Json
elements last = []
elements (element x xs) = x ∷ elements xs

-- Of two fields with one name the later one counts.
abbrev pub entries_from : Dict Json → Fields → Dict Json
entries_from d end = d
entries_from d (field name x fields) = entries_from (insert name x d) fields

abbrev pub consed : String → Option (List String) → Option (List String)
consed s none = none
consed s (some ts) = some (s ∷ ts)

-- `all(isinstance(a, str) for a in xs)`, and the texts
abbrev pub texts : List Json → Option (List String)
texts [] = some []
texts (text s ∷ xs) = consed s (texts xs)
texts (_ ∷ xs) = none

abbrev pub is_empty : String → Bool
is_empty String.[] = true
is_empty (String.◌∷◌ c s) = false
