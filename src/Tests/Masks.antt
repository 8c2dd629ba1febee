-- ===== src/Tests/Masks.antt =====
-- The theorems on masking, at short texts.
use fintech_data_platform.Prelude.{
  ◌≡◌, ◌≢◌, ap, arith, refl, true, ◌&&◌, some, [], ◌∷◌, ◌++◌, if◌then◌else◌, leb, length, ltb, take,
  ◌/◌, ◌-◌, none,
}
use fintech_data_platform.Exec.{ok}
use fintech_data_platform.Masking.{
  Text, at_sign, email_scope, is_group, is_part, keyed_text, mask_email, redact, star,
}
use fintech_data_platform.Masking.Redaction.{letter_at, redact_lem}
use fintech_data_platform.Masking.Tokens.{keyed_text_apart, mask_email_lem}

abbrev word : Text
word = 97 ∷ 98 ∷ 99 ∷ 100 ∷ []

redacts : redact word ≡ 97 ∷ star ∷ star ∷ 100 ∷ []
unfolding redact
redacts = refl

redact_lem_example : letter_at (redact word) 2 ≡ (
    if leb (length word / 3) 2 && ltb 2 (length word - length word / 3)
    then some star
    else letter_at word 2)
redact_lem_example = redact_lem word 2

-- Without the colon both messages would be "abcd".
keyed_text_apart_example :
    keyed_text (97 ∷ 98 ∷ []) (99 ∷ 100 ∷ []) ≢ keyed_text (97 ∷ []) (98 ∷ 99 ∷ 100 ∷ [])
keyed_text_apart_example =
    keyed_text_apart (97 ∷ 98 ∷ []) (97 ∷ []) (99 ∷ 100 ∷ []) (98 ∷ 99 ∷ 100 ∷ []) refl refl
      (λ same. absurd (omega (arith, ap (λ (p : Text × Text). length p.0) same)))

-- A hash that repeats the message, for the test.
abbrev echo : Text → Text → Text
echo salt message = message

group_word : is_group word ≡ true
unfolding is_group is_part
group_word = refl

mask_email_lem_example :
    mask_email echo (some (7 ∷ [])) (some (word ++ (at_sign ∷ word)))
    ≡ ok (some (take 32 (echo (7 ∷ []) (keyed_text email_scope word)) ++ (at_sign ∷ word)))
mask_email_lem_example = mask_email_lem echo (7 ∷ []) word word refl group_word group_word

no_salt : mask_email echo none none ≡ ok none
unfolding mask_email
no_salt = refl
