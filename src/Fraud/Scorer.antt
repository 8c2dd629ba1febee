-- ===== src/Fraud/Scorer.antt =====
-- services/workers/fraud_worker/scorer.py
use fintech_data_platform.Prelude.{
  ℕ, ◌+◌, String, Bool, true, false, ◌||◌, ◌==◌, Option, none, some, List, [], ◌∷◌, if◌then◌else◌,
}
use fintech_data_platform.Prelude.Int.{ℤ, pos, negsuc}
use fintech_data_platform.Prelude.Text.{concat, lower}
use fintech_data_platform.Json.{Value, str, Fields, get, is_null}
use fintech_data_platform.Decimal.{Dec10, Amount, dec, add, sub, mul, div, le10, is_zero, quantize4}
use fintech_data_platform.Exec.{Result, ok, err, failure, ErrorKind}
use fintech_data_platform.Library.{Library, str_of}

abbrev pub risk_threshold_flag : String
risk_threshold_flag = "risk_threshold_exceeded"

abbrev pub platform_risk_threshold : Dec10
platform_risk_threshold = dec 9 1

abbrev pub risk_threshold_epsilon : Dec10
risk_threshold_epsilon = dec 1 9

-- `INSTRUMENT_RISK_AMOUNTS`, in dollars
abbrev pub instrument_risk_amounts : List (String × ℕ)
instrument_risk_amounts =
    ("AAPL", 10000)
    ∷ ("MSFT", 14000)
    ∷ ("GOOG", 30000)
    ∷ ("AMZN", 22000)
    ∷ ("TSLA", 8000)
    ∷ ("JPM", 5000)
    ∷ ("BAC", 3000)
    ∷ ("NVDA", 1000)
    ∷ []

abbrev pub amount_of : String → List (String × ℕ) → Option ℕ
amount_of key [] = none
amount_of key ((name, amount) ∷ rest) = if name == key then some amount else amount_of key rest

-- `risk_score` is a number of units of 0.0001.
pub record RiskAssessment : Type 0 where
  pub risk_score : ℕ
  pub risk_flags : List String

abbrev pub unscored : RiskAssessment
unscored = record { risk_score = 0; risk_flags = [] }

-- `_risk_factor_from_threshold_amount`; the amounts of the table are above 0, so it does not raise
unfoldable pub risk_factor : ℕ → Dec10
unfolding mul sub div
risk_factor threshold = div (mul (dec threshold 0) (sub (dec 1 0) (dec 9 1))) (dec 9 1)

-- `_bounded_risk_score_raw`: a comparison with NaN raises; the score of infinity is 1.
unfoldable pub bounded_risk_score_raw : Amount → Dec10 → Result Dec10
unfolding add sub div is_zero
bounded_risk_score_raw (Amount.finite negative x) factor =
    if negative || is_zero x then ok (dec 0 0) else ok (sub (dec 1 0) (div factor (add x factor)))
bounded_risk_score_raw (Amount.infinite negative) factor =
    if negative then ok (dec 0 0) else ok (dec 1 0)
bounded_risk_score_raw Amount.nan factor =
    err (failure ErrorKind.value_error "comparison involving NaN")

-- the test `risk_score_raw >= (PLATFORM_RISK_THRESHOLD - RISK_THRESHOLD_EPSILON)`
unfoldable pub exceeds : Dec10 → Bool
unfolding le10 sub
exceeds raw = le10 (sub platform_risk_threshold risk_threshold_epsilon) raw

abbrev flags_of : String → List String
flags_of name = risk_threshold_flag ∷ concat (lower name ∷ "_risk_threshold_exceeded" ∷ []) ∷ []

abbrev assessed : String → Dec10 → RiskAssessment
assessed name raw = record {
  risk_score = quantize4 raw;
  risk_flags = if exceeds raw then flags_of name else [];
}

abbrev assess : String → Result Dec10 → Result RiskAssessment
assess name (err e) = err e
assess name (ok raw) = ok (assessed name raw)

module _ (lib : Library) where
  abbrev of_unscaled : ℤ → Amount
  of_unscaled (pos n) = Amount.finite false (dec n 2)
  of_unscaled (negsuc n) = Amount.finite true (dec (n + 1) 2)

  abbrev from_base64 : Value → Option Amount
  from_base64 (str s) = elim (lib.base64_int s) [ none ↦ none | some n ↦ some (of_unscaled n) ]
  from_base64 _ = none

  -- `_parse_amount`: decimal text first, then the base64 of two's complement bytes at scale 2.
  -- `none` is the `ValueError`.
  unfoldable pub parse_amount : Value → Option Amount
  unfolding str_of
  parse_amount raw = elim (lib.decimal (str_of lib raw)) [
    | none ↦ from_base64 raw
    | some a ↦ some a
  ]

  abbrev score_against : String → Option ℕ → Amount → Result RiskAssessment
  score_against name none amount = ok unscored
  score_against name (some threshold) amount =
      assess name (bounded_risk_score_raw amount (risk_factor threshold))

  abbrev score_amount : String → Option Amount → Result RiskAssessment
  score_amount name none = ok unscored
  score_amount name (some amount) =
      score_against name (amount_of name instrument_risk_amounts) amount

  -- `score_transaction`
  unfoldable pub score_transaction : Fields → Result RiskAssessment
  unfolding str_of parse_amount risk_factor bounded_risk_score_raw exceeds quantize4 lower
  score_transaction row =
      let instrument = get "instrument" row in
      let amount = get "amount" row in
      if is_null instrument || is_null amount
      then ok unscored
      else score_amount (str_of lib instrument) (parse_amount amount)
