-- ===== src/Decimal.antt =====
-- Python's `decimal` in the default context (28 digits, ROUND_HALF_EVEN), as far as the risk
-- scorer uses it: sums, quotients and differences of numbers that are not negative.
-- A number stands for its value; the exponent of the result, which `Decimal` keeps too, is never
-- looked at, since the score is quantized.
use Prim.Native.Nat.{◌^◌}
use fintech_data_platform.Prelude.{
  ℕ, zero, suc, ◌+◌, ◌-◌, ◌*◌, ◌/◌, ◌%◌, ◌≡◌, refl, Bool, true, false, ◌&&◌, ◌||◌, ltb, leb, eqb,
  if◌then◌else◌,
}

-- coeff / 10^places
pub record Dec10 : Type 0 where
  pub coeff : ℕ
  pub places : ℕ

-- What `Decimal(text)` may be; a finite number has a sign.
pub data Amount : Type 0 where
  finite : Bool → Dec10 → Amount
  infinite : Bool → Amount
  nan : Amount

abbrev pub precision : ℕ
precision = 28

-- the number of decimal digits; a number has at most as many as itself and one
digits_fuel : ℕ → ℕ → ℕ
digits_fuel zero n = 0
digits_fuel (suc f) n = elim (ltb n 10) [ true ↦ 1 | false ↦ suc (digits_fuel f (n / 10)) ]

unfoldable pub digits : ℕ → ℕ
unfolding digits_fuel
digits n = digits_fuel (suc n) n

-- n / d to the nearest whole number, to the even one of two that are equally near; `sticky` says
-- that n stands for a number that is a little larger.
unfoldable pub half_even : Bool → ℕ → ℕ → ℕ
half_even sticky n d =
    let q = n / d in
    let twice = 2 * (n % d) in
    if ltb d twice || (eqb d twice && (sticky || eqb (q % 2) 1)) then q + 1 else q

-- a coefficient with `drop` digits taken off, over 10^places
abbrev dropped : Bool → ℕ → ℕ → ℕ → Dec10
dropped sticky n places drop =
    let q = half_even sticky n (10 ^ drop) in
    if leb drop places
    then record { coeff = q; places = places - drop }
    else record { coeff = q * 10 ^ (drop - places); places = 0 }

-- the context's rounding
unfoldable pub rounded : Bool → Dec10 → Dec10
unfolding digits half_even
rounded sticky x =
    if leb (digits x.coeff) precision
    then x
    else dropped sticky x.coeff x.places (digits x.coeff - precision)

-- both coefficients over the larger number of places
abbrev scaled : Dec10 → ℕ → ℕ
scaled x places = x.coeff * 10 ^ (places - x.places)

abbrev common : Dec10 → Dec10 → ℕ
common x y = if leb x.places y.places then y.places else x.places

unfoldable pub add : Dec10 → Dec10 → Dec10
unfolding rounded
add x y =
    let p = common x y in rounded false (record { coeff = scaled x p + scaled y p; places = p })

-- x - y, for y at most x
unfoldable pub sub : Dec10 → Dec10 → Dec10
unfolding rounded
sub x y =
    let p = common x y in rounded false (record { coeff = scaled x p - scaled y p; places = p })

unfoldable pub mul : Dec10 → Dec10 → Dec10
unfolding rounded
mul x y = rounded false (record { coeff = x.coeff * y.coeff; places = x.places + y.places })

-- The quotient to more digits than are kept, with what is left over told by `sticky`.
unfoldable pub div : Dec10 → Dec10 → Dec10
unfolding rounded digits
div x y =
    let p = common x y in
    let d = scaled y p in
    let shift = 29 + digits d in
    let n = scaled x p * 10 ^ shift in
    rounded (if eqb (n % d) 0 then false else true) (record { coeff = n / d; places = shift })

-- x ≤ y
unfoldable pub le10 : Dec10 → Dec10 → Bool
le10 x y = let p = common x y in leb (scaled x p) (scaled y p)

unfoldable pub is_zero : Dec10 → Bool
is_zero x = eqb x.coeff 0

-- `quantize(Decimal("0.0001"), ROUND_HALF_UP)`, in units of 0.0001
unfoldable pub quantize4 : Dec10 → ℕ
quantize4 x =
    if leb x.places 4
    then x.coeff * 10 ^ (4 - x.places)
    else (x.coeff + 5 * 10 ^ (x.places - 5)) / 10 ^ (x.places - 4)

abbrev pub dec : ℕ → ℕ → Dec10
dec c p = record { coeff = c; places = p }

digits-three : digits 123 ≡ 3
unfolding digits
digits-three = refl

digits-large : digits 12345678901234567890 ≡ 20
unfolding digits
digits-large = refl

thirds : div (dec 1 0) (dec 3 0) ≡ dec 3333333333333333333333333333 28
unfolding div
thirds = refl

risk_factor_msft :
    div (mul (dec 14000 0) (sub (dec 1 0) (dec 9 1))) (dec 9 1)
    ≡ dec 1555555555555555555555555556 24
unfolding div mul sub
risk_factor_msft = refl
