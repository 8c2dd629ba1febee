-- ===== src/Json.antt =====
-- The values of `json.loads` and of event payloads.
-- A float stands by the decimal number that it is the nearest float of.
pub mod Dict
use fintech_data_platform.Prelude.{
  String, Bool, true, false, ◌==◌, Option, none, some, if◌then◌else◌, List, [], ◌∷◌, eqb,
}
use fintech_data_platform.Prelude.Int.{ℤ, pos, negsuc}
use fintech_data_platform.Decimal.{Amount}

mutual
  pub data Value : Type 0 where
    null : Value
    bool : Bool → Value
    int : ℤ → Value
    float : Amount → Value
    str : String → Value
    obj : Fields → Value
    arr : Items → Value

  -- a `dict` in insertion order
  pub data Fields : Type 0 where
    end : Fields
    field : String → Value → Fields → Fields

  pub data Items : Type 0 where
    nil : Items
    cons : Value → Items → Items

abbrev pub lookup : String → Fields → Option Value
lookup k end = none
lookup k (field j v fs) = if j == k then some v else lookup k fs

abbrev pub value_or_null : Option Value → Value
value_or_null none = null
value_or_null (some v) = v

-- `d.get(k)`: a missing key reads as `None`.
abbrev pub get : String → Fields → Value
get k fs = value_or_null (lookup k fs)

-- `d.get(k, v)`
abbrev pub get_or : String → Value → Fields → Value
get_or k w fs = elim (lookup k fs) [ none ↦ w | some v ↦ v ]

-- Python's truth test, as in `v or default`.
abbrev pub truthy : Value → Bool
truthy null = false
truthy (bool b) = b
truthy (int (pos n)) = if eqb n 0 then false else true
truthy (int (negsuc n)) = true
truthy (float (Amount.finite s x)) = if eqb x.coeff 0 then false else true
truthy (float _) = true
truthy (str s) = if s == "" then false else true
truthy (arr nil) = false
truthy (arr (cons v vs)) = true
truthy (obj end) = false
truthy (obj (field k v fs)) = true

abbrev pub is_null : Value → Bool
is_null null = true
is_null _ = false

abbrev pub or_else : Value → Value → Value
or_else v w = if truthy v then v else w

abbrev pub strings : List String → Items
strings [] = nil
strings (s ∷ ss) = cons (str s) (strings ss)

abbrev pub opt_str : Option String → Value
opt_str none = null
opt_str (some s) = str s

abbrev pub dict : List (String × Value) → Fields
dict [] = end
dict ((k, v) ∷ rest) = field k v (dict rest)

-- `d[k] = v`: the key keeps its place, and a new key is last.
abbrev pub put : String → Value → Fields → Fields
put k v end = field k v end
put k v (field j w fs) = if j == k then field j v fs else field j w (put k v fs)

-- `{**d, ...}`
abbrev pub puts : List (String × Value) → Fields → Fields
puts [] fs = fs
puts ((k, v) ∷ rest) fs = puts rest (put k v fs)

-- `k in d`
abbrev pub has : String → Fields → Bool
has k fs = elim (lookup k fs) [ none ↦ false | some v ↦ true ]
