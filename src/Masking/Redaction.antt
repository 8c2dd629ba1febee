-- ===== src/Masking/Redaction.antt =====
-- Which letters of a text `redact` keeps.
use fintech_data_platform.Prelude.{
  ℕ, zero, suc, ◌+◌, ◌-◌, ◌/◌, ◌≤◌, ◌≡◌, refl, ap, ◌∙◌, ◌&&◌, Option, none, some, [], ◌∷◌, ◌++◌,
  arith, drop, if◌then◌else◌, leb, length, ltb, replicate, take,
}
use fintech_data_platform.Masking.{Text, star, redact}

-- `value[k]`, where there is one
abbrev pub letter_at : Text → ℕ → Option ℕ
letter_at [] k = none
letter_at (c ∷ cs) zero = some c
letter_at (c ∷ cs) (suc k) = letter_at cs k

length-take : (n : ℕ) (cs : Text) → n ≤ length cs → length (take n cs) ≡ n
length-take zero cs h = refl
length-take (suc n) [] h = omega (arith, h)
length-take (suc n) (c ∷ cs) h = omega (arith, length-take n cs (omega (arith, h)))

length-replicate : (n c : ℕ) → length (replicate n c) ≡ n
length-replicate zero c = refl
length-replicate (suc n) c = omega (arith, length-replicate n c)

letter-append :
    (xs ys : Text) (k : ℕ)
    → letter_at (xs ++ ys) k
      ≡ (if ltb k (length xs) then letter_at xs k else letter_at ys (k - length xs))
letter-append [] ys k = grind arith
letter-append (x ∷ xs) ys zero = ground arith
letter-append (x ∷ xs) ys (suc k) = grind (arith, letter-append xs ys k)

letter-take :
    (n : ℕ) (cs : Text) (k : ℕ)
    → letter_at (take n cs) k ≡ (if ltb k n then letter_at cs k else none)
letter-take zero cs k = ground arith
letter-take (suc n) [] k = ground arith
letter-take (suc n) (c ∷ cs) zero = ground arith
letter-take (suc n) (c ∷ cs) (suc k) = ground (arith, letter-take n cs k)

suc_add : (n k : ℕ) → suc (n + k) ≡ suc n + k
suc_add n k = omega arith

letter-drop : (n : ℕ) (cs : Text) (k : ℕ) → letter_at (drop n cs) k ≡ letter_at cs (n + k)
letter-drop zero cs k = ap (letter_at cs) (omega arith)
letter-drop (suc n) [] k = refl
letter-drop (suc n) (c ∷ cs) k = letter-drop n cs k ∙ ap (letter_at (c ∷ cs)) (suc_add n k)

letter-replicate : (n c k : ℕ) → letter_at (replicate n c) k ≡ (if ltb k n then some c else none)
letter-replicate zero c k = ground arith
letter-replicate (suc n) c zero = ground arith
letter-replicate (suc n) c (suc k) = ground (arith, letter-replicate n c k)

-- The letter of the masked text at each place: a star in the middle third, else that of the text.
pub redact_lem :
    (value : Text) (k : ℕ)
    → letter_at (redact value) k ≡ (
        if leb (length value / 3) k && ltb k (length value - length value / 3)
        then some star
        else letter_at value k)
unfolding redact
redact_lem [] k = grind arith
redact_lem (c ∷ cs) k =
    let n = length (c ∷ cs) in
    let a = n / 3 in
    let b = n - a in
    grind (
      arith,
      letter-append (take a (c ∷ cs)) (replicate (b - a) star ++ drop b (c ∷ cs)) k,
      length-take a (c ∷ cs),
      letter-take a (c ∷ cs) k,
      letter-append (replicate (b - a) star) (drop b (c ∷ cs)) (k - a),
      length-replicate (b - a) star,
      letter-replicate (b - a) star (k - a),
      letter-drop b (c ∷ cs) (k - a - (b - a)),
    )
