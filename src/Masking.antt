-- ===== src/Masking.antt =====
-- services/libs/masking/masking.py: the masking of personal data. A text is the list of its code
-- points; HMAC-SHA256 as hexadecimal text is a function `mac` of the salt and the message.
pub mod Redaction
pub mod Tokens
use fintech_data_platform.Prelude.{
  ℕ, ◌-◌, ◌/◌, Bool, true, false, not, ◌&&◌, ◌||◌, Option, none, some, List, [], ◌∷◌, ◌++◌, all,
  drop, eqb, if◌then◌else◌, length, replicate, take,
}
use fintech_data_platform.Prelude.Text.{is_space}
use fintech_data_platform.Exec.{Result, ok, err, failure, ErrorKind, ◌>>>◌}

abbrev pub Text : Type 0
Text = List ℕ

abbrev pub star : ℕ
star = 42

abbrev pub at_sign : ℕ
at_sign = 64

-- `redact`
unfoldable pub redact : Text → Text
redact [] = []
redact (c ∷ cs) =
    let n = length (c ∷ cs) in
    let a = n / 3 in let b = n - a in take a (c ∷ cs) ++ (replicate (b - a) star ++ drop b (c ∷ cs))

abbrev is_empty : Text → Bool
is_empty [] = true
is_empty (c ∷ cs) = false

-- `_salt`, of the value of the environment variable
abbrev pub salt_of : Option Text → Result Text
salt_of none = err (failure ErrorKind.runtime_error "PLATFORM_MASKING_SALT is not set")
salt_of (some []) = err (failure ErrorKind.runtime_error "PLATFORM_MASKING_SALT is not set")
salt_of (some (c ∷ cs)) = ok (c ∷ cs)

-- `f"{scope}:{value}"`
unfoldable pub keyed_text : Text → Text → Text
keyed_text scope value = scope ++ (58 ∷ value)

-- "email_local"
abbrev pub email_scope : Text
email_scope = 101 ∷ 109 ∷ 97 ∷ 105 ∷ 108 ∷ 95 ∷ 108 ∷ 111 ∷ 99 ∷ 97 ∷ 108 ∷ []

-- The letters before the first at sign, and those behind it.
abbrev pub split_at_sign : Text → Option (Text × Text)
split_at_sign [] = none
split_at_sign (c ∷ cs) =
    let rest = split_at_sign cs in
    if eqb c at_sign
    then some ([], cs)
    else elim rest [ none ↦ none | some (local, domain) ↦ some (c ∷ local, domain) ]

-- `[^@\s]`
unfoldable pub is_part : ℕ → Bool
is_part c = not (eqb c at_sign) && not (is_space c)

-- `$` matches at the end, and before a newline at the end.
abbrev pub chomp : Text → Text
chomp [] = []
chomp (c ∷ []) = if eqb c 10 then [] else c ∷ []
chomp (c ∷ cs) = c ∷ chomp cs

unfoldable pub is_group : Text → Bool
unfolding is_part
is_group cs = not (is_empty cs) && all is_part cs

abbrev pub groups : Text × Text → Option (Text × Text)
groups (local, domain) =
    if is_group local && is_group (chomp domain) then some (local, chomp domain) else none

abbrev pub after_split : Option (Text × Text) → Option (Text × Text)
after_split none = none
after_split (some p) = groups p

-- `_EMAIL_RE.match`, with its two groups
unfoldable pub match_email : Text → Option (Text × Text)
unfolding is_group
match_email value = after_split (split_at_sign value)

module _ (mac : Text → Text → Text) (variable : Option Text) where
  -- `hash_pii`
  unfoldable pub hash_pii : Text → Result Text
  hash_pii value = salt_of variable >>> λ salt. ok (mac salt value)

  -- `tokenize`
  unfoldable pub tokenize : Text → Text → Result Text
  unfolding keyed_text
  tokenize value scope =
      if is_empty scope
      then err (failure ErrorKind.value_error "scope must be non-empty")
      else salt_of variable >>> λ salt. ok (take 32 (mac salt (keyed_text scope value)))

  abbrev pub masked_groups : Option (Text × Text) → Result (Option Text)
  masked_groups none = err (failure ErrorKind.value_error "not an email")
  masked_groups (some (local, domain)) =
      tokenize local email_scope >>> λ token. ok (some (token ++ (at_sign ∷ domain)))

  -- `mask_email`
  unfoldable pub mask_email : Option Text → Result (Option Text)
  unfolding match_email tokenize
  mask_email none = ok none
  mask_email (some value) = masked_groups (match_email value)
