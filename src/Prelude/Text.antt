-- ===== src/Prelude/Text.antt =====
-- Texts: f-strings, decimal printing, and Python's `strip` and `lower`.
-- `lower` maps the ASCII letters. The source compares lowered texts only with ASCII texts that
-- hold no `k` and no letter that another character's lower case contains on its own.
use Prim.Native.Nat.{ℕ, zero, suc, ◌/◌, ◌%◌}
use Prim.Native.String.{String}
use Prim.Native.Char.{Char, code}
use Prim.Native.String
use mathlib.Core.Bool.{Bool, true, false, ◌||◌, ◌&&◌}
use mathlib.Core.List.{List, [], ◌∷◌}
use mathlib.Core.Option.{none, some}
use mathlib.Core.Path.{◌≡◌, refl}
use text.Mathlib.Text.{find?}
use native.Mathlib.Omega.{arith}
use fintech_data_platform.Prelude.Tests.{ltb, leb, eqb, if◌then◌else◌}

-- The text of an f-string's parts.
abbrev pub concat : List String → String
concat [] = ""
concat (s ∷ ss) = String.◌++◌ s (concat ss)

digit : ℕ → String
digit zero = "0"
digit (suc zero) = "1"
digit (suc (suc zero)) = "2"
digit (suc (suc (suc zero))) = "3"
digit (suc (suc (suc (suc zero)))) = "4"
digit (suc (suc (suc (suc (suc zero))))) = "5"
digit (suc (suc (suc (suc (suc (suc zero)))))) = "6"
digit (suc (suc (suc (suc (suc (suc (suc zero))))))) = "7"
digit (suc (suc (suc (suc (suc (suc (suc (suc zero)))))))) = "8"
digit _ = "9"

show_fuel : ℕ → ℕ → String
show_fuel zero n = ""
show_fuel (suc f) n = elim (ltb n 10) [
  | true ↦ digit n
  | false ↦ String.◌++◌ (show_fuel f (n / 10)) (digit (n % 10))
]

-- `str(n)` of a natural number: a number has at most as many digits as one more than itself.
unfoldable pub show : ℕ → String
unfolding show_fuel digit
show n = show_fuel (suc n) n

-- `{n:02d}`
abbrev pub two_digits : ℕ → String
two_digits n = if ltb n 10 then concat ("0" ∷ show n ∷ []) else show n

-- `{n:04d}`
abbrev pub four_digits : ℕ → String
four_digits n =
    if ltb n 10
    then concat ("000" ∷ show n ∷ [])
    else if ltb n 100
    then concat ("00" ∷ show n ∷ [])
    else if ltb n 1000
    then concat ("0" ∷ show n ∷ [])
    else show n

-- `str.isspace` of one character.
abbrev pub is_space : ℕ → Bool
is_space c =
    (leb 9 c && leb c 13)
    || (leb 28 c && leb c 32)
    || eqb c 133
    || eqb c 160
    || eqb c 5760
    || (leb 8192 c && leb c 8202)
    || eqb c 8232
    || eqb c 8233
    || eqb c 8239
    || eqb c 8287
    || eqb c 12288

unfoldable pub lstrip : String → String
lstrip String.[] = String.[]
lstrip (String.◌∷◌ c s) = if is_space (code c) then lstrip s else String.◌∷◌ c s

unfoldable pub rstrip : String → String
rstrip String.[] = String.[]
rstrip (String.◌∷◌ c s) = keep_char (rstrip s)
  where
    keep_char : String → String
    keep_char String.[] = if is_space (code c) then String.[] else String.◌∷◌ c String.[]
    keep_char (String.◌∷◌ d r) = String.◌∷◌ c (String.◌∷◌ d r)

unfoldable pub strip : String → String
unfolding lstrip rstrip
strip s = rstrip (lstrip s)

-- `not value.strip()`
unfoldable pub is_blank : String → Bool
is_blank String.[] = true
is_blank (String.◌∷◌ c s) = is_space (code c) && is_blank s

-- Postgres: `length(trim(value)) = 0`; `trim` takes off spaces only.
unfoldable pub is_trimmed_empty : String → Bool
is_trimmed_empty String.[] = true
is_trimmed_empty (String.◌∷◌ c s) = eqb (code c) 32 && is_trimmed_empty s

-- `needle in text`
unfoldable pub contains : String → String → Bool
contains needle text = elim (find? text needle) [ none ↦ false | some _ ↦ true ]

abbrev lower_table : List (ℕ × Char)
lower_table =
    (65, "a")
    ∷ (66, "b")
    ∷ (67, "c")
    ∷ (68, "d")
    ∷ (69, "e")
    ∷ (70, "f")
    ∷ (71, "g")
    ∷ (72, "h")
    ∷ (73, "i")
    ∷ (74, "j")
    ∷ (75, "k")
    ∷ (76, "l")
    ∷ (77, "m")
    ∷ (78, "n")
    ∷ (79, "o")
    ∷ (80, "p")
    ∷ (81, "q")
    ∷ (82, "r")
    ∷ (83, "s")
    ∷ (84, "t")
    ∷ (85, "u")
    ∷ (86, "v")
    ∷ (87, "w")
    ∷ (88, "x")
    ∷ (89, "y")
    ∷ (90, "z")
    ∷ []

lower_char : Char → List (ℕ × Char) → Char
lower_char c [] = c
lower_char c ((upper, small) ∷ rest) = if eqb (code c) upper then small else lower_char c rest

-- `str.lower`
unfoldable pub lower : String → String
unfolding lower_char
lower String.[] = String.[]
lower (String.◌∷◌ c s) = String.◌∷◌ (lower_char c lower_table) (lower s)

-- `s < t`: by the code points of the first letters that differ
unfoldable pub text_less : String → String → Bool
text_less String.[] String.[] = false
text_less String.[] (String.◌∷◌ d t) = true
text_less (String.◌∷◌ c s) String.[] = false
text_less (String.◌∷◌ c s) (String.◌∷◌ d t) =
    ltb (code c) (code d) || (eqb (code c) (code d) && text_less s t)

pub text_less_asym : (s t : String) → text_less s t ≡ true → text_less t s ≡ false
unfolding text_less
text_less_asym String.[] String.[] h = cc
text_less_asym String.[] (String.◌∷◌ d t) h = refl
text_less_asym (String.◌∷◌ c s) String.[] h = cc
text_less_asym (String.◌∷◌ c s) (String.◌∷◌ d t) h = ground (arith, text_less_asym s t)

lower-commission : lower "Q1_Commission" ≡ "q1_commission"
unfolding lower
lower-commission = refl

show-120 : show 120 ≡ "120"
unfolding show
show-120 = refl

strip-padded : strip "  a b " ≡ "a b"
unfolding strip
strip-padded = refl

contains-commission : contains "commission" "q1-commission.xlsx" ≡ true
unfolding contains
contains-commission = refl
