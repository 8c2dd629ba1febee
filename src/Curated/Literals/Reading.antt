-- ===== src/Curated/Literals/Reading.antt =====
-- What a reader of SQL makes of a string literal.
use Prim.Native.String.{◌++◌}
use Prim.Native.Char.{Char}
use text.Mathlib.TextLemmas.{append_assoc, cons-append, head-eq_of_cons-eq, nil-append}
use fintech_data_platform.Prelude.{
  String, ◌≡◌, refl, ap, sym, ◌∙◌, Bool, true, false, Option, none, some, ◌==◌, eq_iff,
  if◌then◌else◌,
}
use fintech_data_platform.Curated.Literals.{doubled, sql_string_literal}
use fintech_data_platform.Library.{Library, str_of}
use fintech_data_platform.Json.{str}

abbrev pub is_quote : Char → Bool
is_quote c = String.◌∷◌ c String.[] == "'"

abbrev pub with_letter : Char → Option (String × String) → Option (String × String)
with_letter c none = none
with_letter c (some (s, rest)) = some (String.◌∷◌ c s, rest)

-- The text of a literal behind its opening quote, and what stands behind its closing quote: two
-- quotes stand for one, and a quote with another letter behind it, or with nothing, closes the
-- literal. The flag is whether the letter before was such a quote.
unfoldable pub read_literal : Bool → String → Option (String × String)
read_literal false String.[] = none
read_literal true String.[] = some ("", "")
read_literal false (String.◌∷◌ c s) =
    let after = read_literal true s in
    let rest = read_literal false s in if is_quote c then after else with_letter c rest
read_literal true (String.◌∷◌ c s) =
    let rest = read_literal false s in
    if is_quote c then with_letter "'" rest else some ("", String.◌∷◌ c s)

-- The text does not go on with a quote.
abbrev pub NoQuote : String → Type 0
NoQuote String.[] = Unit
NoQuote (String.◌∷◌ c s) = is_quote c ≡ false

closed : (rest : String) → NoQuote rest → read_literal true rest ≡ some ("", rest)
unfolding read_literal
closed String.[] h = refl
closed (String.◌∷◌ c s) h =
    ap (λ b. if b then with_letter "'" (read_literal false s) else some ("", String.◌∷◌ c s)) h

doubled-cons :
    (c : Char) (s : String) (b : Bool)
    → is_quote c ≡ b
    → doubled (String.◌∷◌ c s)
      ≡ (if b then String.◌∷◌ "'" (String.◌∷◌ "'" (doubled s)) else String.◌∷◌ c (doubled s))
unfolding doubled
doubled-cons c s b q =
    ap (λ b. if b then String.◌∷◌ "'" (String.◌∷◌ "'" (doubled s)) else String.◌∷◌ c (doubled s)) q

-- Behind its opening quote, the doubled text with its closing quote is read back as the text,
-- and what follows is left over.
read-doubled :
    (s rest : String)
    → NoQuote rest
    → read_literal false (doubled s ++ String.◌∷◌ "'" rest) ≡ some (s, rest)
unfolding read_literal doubled
read-doubled String.[] rest h =
    ap (read_literal false) (nil-append (String.◌∷◌ "'" rest)) ∙ closed rest h
read-doubled (String.◌∷◌ c s) rest h = split (is_quote c) refl (read-doubled s rest h)
  where
    split :
        (b : Bool)
        → is_quote c ≡ b
        → read_literal false (doubled s ++ String.◌∷◌ "'" rest) ≡ some (s, rest)
        → read_literal false (doubled (String.◌∷◌ c s) ++ String.◌∷◌ "'" rest)
          ≡ some (String.◌∷◌ c s, rest)
    split true q ih =
        ap (λ t. read_literal false (t ++ String.◌∷◌ "'" rest)) (doubled-cons c s true q)
        ∙ ap (read_literal false) (
            cons-append "'" (String.◌∷◌ "'" (doubled s)) (String.◌∷◌ "'" rest)
            ∙ ap (String.◌∷◌ "'") (cons-append "'" (doubled s) (String.◌∷◌ "'" rest)))
        ∙ ap (with_letter "'") ih
        ∙ ap (λ d. some (String.◌∷◌ d s, rest))
            (sym (head-eq_of_cons-eq ((eq_iff (String.◌∷◌ c String.[]) "'").0 q)))
    split false q ih =
        ap (λ t. read_literal false (t ++ String.◌∷◌ "'" rest)) (doubled-cons c s false q)
        ∙ ap (read_literal false) (cons-append c (doubled s) (String.◌∷◌ "'" rest))
        ∙ ap
            (λ b.
              if b
              then read_literal true (doubled s ++ String.◌∷◌ "'" rest)
              else with_letter c (read_literal false (doubled s ++ String.◌∷◌ "'" rest)))
            q
        ∙ ap (with_letter c) ih

-- A value that is not null, whatever quotes its text has, stands in a statement as a literal that
-- is read back as that text, and the reading stops where the literal ends, if no quote follows.
pub sql_string_literal_lem :
    (lib : Library) (s rest : String)
    → NoQuote rest
    → (body : String) × (sql_string_literal lib (str s) ++ rest ≡ String.◌∷◌ "'" body)
      × (read_literal false body ≡ some (s, rest))
unfolding sql_string_literal str_of
sql_string_literal_lem lib s rest h = (
  doubled s ++ String.◌∷◌ "'" rest,
  cons-append "'" (doubled s ++ "'") rest
      ∙ ap (String.◌∷◌ "'") (
          append_assoc (doubled s) "'" rest
          ∙ ap (λ t. doubled s ++ t)
              (cons-append "'" "" rest ∙ ap (String.◌∷◌ "'") (nil-append rest))),
  read-doubled s rest h,
)
