-- ===== src/Masking/Tokens.antt =====
-- What the tokens keep apart, and what a masked address keeps.
use fintech_data_platform.Prelude.{
  ℕ, ◌≡◌, ◌≢◌, refl, ap, sym, ◌∙◌, Bool, true, false, not, some, [], ◌∷◌, ◌++◌, all, eqb, arith,
  take, if◌then◌else◌,
}
use fintech_data_platform.Exec.{ok}
use fintech_data_platform.Masking.{
  Text, at_sign, keyed_text, email_scope, split_at_sign, is_part, is_group, chomp, match_email,
  mask_email, masked_groups, after_split, groups, tokenize, salt_of,
}

-- The letters before the first colon, and those behind it.
split_at_colon : Text → Text × Text
split_at_colon [] = ([], [])
split_at_colon (c ∷ cs) =
    let rest = split_at_colon cs in if eqb c 58 then ([], cs) else (c ∷ rest.0, rest.1)

abbrev pub has_no_colon : Text → Bool
has_no_colon = all (λ c. not (eqb c 58))

split-keyed :
    (scope value : Text)
    → has_no_colon scope ≡ true
    → split_at_colon (keyed_text scope value) ≡ (scope, value)
unfolding split_at_colon keyed_text
split-keyed [] value h = refl
split-keyed (c ∷ cs) value h = ground (arith, split-keyed cs value)

-- The hashed messages of two different pairs of a scope without a colon and a value are different.
pub keyed_text_apart :
    (s t value other : Text)
    → has_no_colon s ≡ true
    → has_no_colon t ≡ true
    → ◌≢◌ {A = Text × Text} (s, value) (t, other)
    → keyed_text s value ≢ keyed_text t other
keyed_text_apart s t value other hs ht apart same =
    apart (sym (split-keyed s value hs) ∙ ap split_at_colon same ∙ split-keyed t other ht)

part_is_inside : (c : ℕ) → is_part c ≡ true → (eqb c at_sign ≡ false) × (eqb c 10 ≡ false)
unfolding is_part
part_is_inside c h = (ground arith, ground arith)

split_parts :
    (local domain : Text)
    → all is_part local ≡ true
    → split_at_sign (local ++ (at_sign ∷ domain)) ≡ some (local, domain)
split_parts [] domain h = refl
split_parts (c ∷ cs) domain h = ground (arith, split_parts cs domain, part_is_inside c)

chomp_parts : (domain : Text) → all is_part domain ≡ true → chomp domain ≡ domain
chomp_parts [] h = refl
chomp_parts (c ∷ []) h = ground (arith, part_is_inside c)
chomp_parts (c ∷ d ∷ ds) h = ground (arith, chomp_parts (d ∷ ds))

group_parts : (cs : Text) → is_group cs ≡ true → all is_part cs ≡ true
unfolding is_group
group_parts cs h = ground arith

matched :
    (local domain : Text)
    → is_group local ≡ true
    → is_group domain ≡ true
    → match_email (local ++ (at_sign ∷ domain)) ≡ some (local, domain)
unfolding match_email
matched local domain hl hd =
    ap after_split (split_parts local domain (group_parts local hl)) ∙ accepted
  where
    accepted : groups (local, domain) ≡ some (local, domain)
    accepted = rw (hl, chomp_parts domain (group_parts domain hd), hd)

-- With a salt, an address of two groups without spaces and at signs is masked: the local part becomes the first 32 letters
-- of the hash under its scope, and the domain stays.
pub mask_email_lem :
    (mac : Text → Text → Text) (salt local domain : Text)
    → salt_of (some salt) ≡ ok salt
    → is_group local ≡ true
    → is_group domain ≡ true
    → mask_email mac (some salt) (some (local ++ (at_sign ∷ domain)))
      ≡ ok (some (take 32 (mac salt (keyed_text email_scope local)) ++ (at_sign ∷ domain)))
unfolding mask_email match_email tokenize
mask_email_lem mac salt local domain hs hl hd =
    ap (masked_groups mac (some salt)) (matched local domain hl hd) ∙ masked
  where
    masked :
        masked_groups mac (some salt) (some (local, domain))
        ≡ ok (some (take 32 (mac salt (keyed_text email_scope local)) ++ (at_sign ∷ domain)))
    masked = rw hs
