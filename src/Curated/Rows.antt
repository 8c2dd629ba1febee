-- ===== src/Curated/Rows.antt =====
-- `_extract_rows_for_domain` of services/pipeline/silver_curated/tasks/stage_and_mask_bronze.py: the
-- row of a silver table for each record of a bronze file. A record is a dict of what pyarrow reads,
-- whose numbers, texts and Booleans stand as they do in JSON.
use fintech_data_platform.Prelude.{
  String, ◌||◌, ◌==◌, Option, none, some, List, [], ◌∷◌, if◌then◌else◌,
}
use fintech_data_platform.Prelude.Int.{ℤ}
use fintech_data_platform.Decimal.{Amount}
use fintech_data_platform.Json.{Value, null, int, float, str, obj, Fields, end, dict, get, or_else}
use fintech_data_platform.Library.{Library, str_of}
use fintech_data_platform.Exec.{Error, ErrorKind, Result, err, failure, ok, ◌>>>◌}

-- What the rows take from elsewhere: `tokenize(_, scope="salesforce_account_id")` with the salt of
-- the environment, the time that a number of milliseconds stands for, where it is above 1e9, and the
-- difference of two floats.
pub record Conversion : Type 0 where
  pub account_token : String → Result String
  pub iso_of_millis : Value → Option String
  pub minus : Amount → Amount → Amount
  pub zero_amount : Amount

-- `except (TypeError, ValueError): return None`
abbrev null_unless : Error → Result Value
null_unless e = elim e.kind [
  | ErrorKind.type_error ↦ ok null
  | ErrorKind.value_error ↦ ok null
  | _ ↦ err e
]

abbrev caught_float : Result Amount → Result Value
caught_float (ok a) = ok (float a)
caught_float (err e) = null_unless e

abbrev caught_int : Result ℤ → Result Value
caught_int (ok n) = ok (int n)
caught_int (err e) = null_unless e

module _ (lib : Library) (conv : Conversion) where
  -- `_to_float`
  unfoldable pub to_float : Value → Result Value
  to_float null = ok null
  to_float v = caught_float (lib.float_of v)

  -- `_to_int`
  unfoldable pub to_int : Value → Result Value
  to_int null = ok null
  to_int v = caught_int (lib.int_of v)

  abbrev iso_or_text : Option String → Value → Value
  iso_or_text none v = str (str_of lib v)
  iso_or_text (some t) v = str t

  -- `_to_iso_date`: a Boolean is an int for Python, and is not above 1e9.
  unfoldable pub to_iso_date : Value → Value
  unfolding str_of
  to_iso_date null = null
  to_iso_date (int n) = iso_or_text (conv.iso_of_millis (int n)) (int n)
  to_iso_date (float a) = iso_or_text (conv.iso_of_millis (float a)) (float a)
  to_iso_date v = str (str_of lib v)

  abbrev token_or_null : Value → Result Value
  token_or_null null = ok null
  token_or_null v = conv.account_token (str_of lib v) >>> λ t. ok (str t)

  unfoldable pub opportunity_row : Fields → Result Fields
  unfolding to_float to_iso_date
  opportunity_row row = token_or_null (get "AccountId" row) >>> λ token.
      to_float (get "Amount" row) >>> λ amount. ok (
        dict (
          ("opportunity_id", get "Id" row)
          ∷ ("account_id_token", token)
          ∷ ("name", get "Name" row)
          ∷ ("stage_name", get "StageName" row)
          ∷ ("amount", amount)
          ∷ ("close_date", to_iso_date (get "CloseDate" row))
          ∷ ("is_won", get "IsWon" row)
          ∷ ("is_closed", get "IsClosed" row)
          ∷ ("source_system_mod", to_iso_date (get "SystemModstamp" row))
          ∷ []))

  unfoldable pub account_row : Fields → Result Fields
  unfolding to_float to_int to_iso_date
  account_row row = token_or_null (get "Id" row) >>> λ token.
      to_float (get "AnnualRevenue" row) >>> λ revenue.
      to_int (get "NumberOfEmployees" row) >>> λ employees. ok (
        dict (
          ("account_id_token", token)
          ∷ ("name", get "Name" row)
          ∷ ("industry", get "Industry" row)
          ∷ ("annual_revenue", revenue)
          ∷ ("number_of_employees", employees)
          ∷ ("source_system_mod", to_iso_date (get "SystemModstamp" row))
          ∷ []))

  -- `json.loads(payload_json)` of a text; what is no JSON is an empty payload, and what is no dict
  -- raises at its first `get`.
  abbrev loaded_payload : Result Value → Result Fields
  loaded_payload (ok (obj fs)) = ok fs
  loaded_payload (ok v) = err (failure ErrorKind.type_error "object has no attribute 'get'")
  loaded_payload (err e) = elim e.kind [ ErrorKind.json_decode_error ↦ ok end | _ ↦ err e ]

  abbrev payload_of : Value → Result Fields
  payload_of (str s) = loaded_payload (lib.loads s)
  payload_of v = ok end

  -- `row.get(k) or payload.get(k)`
  abbrev either_of : Fields → Fields → String → Value
  either_of row payload k = or_else (get k row) (get k payload)

  abbrev loan_dict : Fields → Fields → Result Fields
  loan_dict row payload =
      to_float (either_of row payload "principal_balance") >>> λ principal_balance.
      to_int (either_of row payload "days_past_due") >>> λ days_past_due.
      to_float (either_of row payload "payment_amount") >>> λ payment_amount. ok (
        dict (
          ("loan_id", either_of row payload "loan_id")
          ∷ ("account_id", either_of row payload "account_id")
          ∷ ("status_code", either_of row payload "status_code")
          ∷ ("principal_balance", principal_balance)
          ∷ ("days_past_due", days_past_due)
          ∷ ("payment_amount", payment_amount)
          ∷ ("payment_due_date", to_iso_date (either_of row payload "payment_due_date"))
          ∷ ("payment_posted_at", to_iso_date (either_of row payload "payment_posted_at"))
          ∷ ("status_at", to_iso_date (either_of row payload "status_at"))
          ∷ ("source_lsn", get "source_lsn" row)
          ∷ (
            "source_system_mod",
            to_iso_date (or_else (get "source_ts_ms" row) (get "source_system_mod" payload)),
          )
          ∷ []))

  unfoldable pub loan_row : Fields → Result Fields
  unfolding to_float to_int to_iso_date
  loan_row row = payload_of (get "assessed_payload" row) >>> loan_dict row

  -- `_to_float(v) or 0.0`
  abbrev amount_or_zero : Value → Amount
  amount_or_zero (float a) = a
  amount_or_zero v = conv.zero_amount

  abbrev adjustment_of : Fields → Value → Result Value
  adjustment_of row null = to_float (get "gross_amount" row) >>> λ gross.
      to_float (get "net_amount" row) >>> λ net.
      ok (float (conv.minus (amount_or_zero gross) (amount_or_zero net)))
  adjustment_of row v = ok v

  unfoldable pub commission_row : Fields → Result Fields
  unfolding to_float to_iso_date
  commission_row row = adjustment_of row (get "adjustment_amount" row) >>> to_float >>> λ amount.
      ok (
        dict (
          ("advisor_id", or_else (get "advisor_id" row) (get "employee_id" row))
          ∷ ("adjustment_amount", amount)
          ∷ ("adjustment_reason", or_else (get "adjustment_reason" row) (str "payroll_delta"))
          ∷ (
            "adjustment_date",
            to_iso_date (or_else (get "adjustment_date" row) (get "pay_period_end" row)),
          )
          ∷ ("currency", or_else (get "currency" row) (str "USD"))
          ∷ []))

  abbrev each_row : (Fields → Result Fields) → List Fields → Result (List Fields)
  each_row f [] = ok []
  each_row f (row ∷ rows) = f row >>> λ r. each_row f rows >>> λ rest. ok (r ∷ rest)

  -- `_extract_rows_for_domain`
  unfoldable pub extract_rows_for_domain : String → List Fields → Result (List Fields)
  unfolding opportunity_row account_row loan_row commission_row
  extract_rows_for_domain domain rows =
      if domain == "salesforce_opportunity"
      then each_row opportunity_row rows
      else if domain == "salesforce_account"
      then each_row account_row rows
      else if domain == "loan" || domain == "loan_payment" || domain == "loan_status_history"
      then each_row loan_row rows
      else if domain == "commission_adjustment"
      then each_row commission_row rows
      else err (failure ErrorKind.workflow_error "unsupported silver domain")
