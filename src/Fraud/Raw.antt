-- ===== src/Fraud/Raw.antt =====
-- services/workers/fraud_worker/handler.py, the reading of a Debezium record: `parse_raw`,
-- `_resolve_trigger_type` and the business key.
use fintech_data_platform.Prelude.{
  ℕ, ◌+◌, String, Bool, not, ◌||◌, ◌==◌, Option, none, some, List, [], ◌∷◌, any, ltb, if◌then◌else◌,
}
use fintech_data_platform.Prelude.Text.{concat}
use fintech_data_platform.Json.{Value, str, obj, Fields, get, lookup, truthy, or_else}
use fintech_data_platform.Exec.{Exec, Result, ok, err, pure, ◌>>=◌}
use fintech_data_platform.Library.{Library, Time, aware, naive, str_of, dict_or_empty}
use fintech_data_platform.World.{World, Env, draw_time}

pub record RawMessage : Type 0 where
  pub topic : String
  pub partition : ℕ
  pub offset : ℕ
  pub value : Fields
  pub key : Option String

pub record ParsedRow : Type 0 where
  pub op : String
  pub source_ts_ms : Value
  pub lsn : Value
  pub source_table : String
  pub row : Fields

-- `_extract_debezium_fields`
unfoldable pub extract_debezium_fields : Fields → Fields
extract_debezium_fields value = elim (get "payload" value) [ obj fs ↦ fs | _ ↦ value ]

abbrev one_of : String → List String → Bool
one_of s = any (λ t. t == s)

abbrev change_ops : List String
change_ops = "c" ∷ "u" ∷ "r" ∷ "d" ∷ []

abbrev source_tables : List String
source_tables =
    "trading.transaction" ∷ "trading.loan" ∷ "trading.loan_payment" ∷ "trading.loan_status_history"
    ∷ []

-- the text of an `op` that is one of the four
abbrev known_op : Value → Option String
known_op (str s) = if one_of s change_ops then some s else none
known_op _ = none

-- `source.get(k, "")` in an f-string
abbrev text_or_empty : Library → Option Value → String
text_or_empty lib none = ""
text_or_empty lib (some v) = str_of lib v

abbrev table_of : Library → Fields → String
table_of lib source = concat (
    text_or_empty lib (lookup "schema" source)
    ∷ "."
    ∷ text_or_empty lib (lookup "table" source)
    ∷ [])

abbrev row_value : String → Fields → Value
row_value op payload = if op == "d" then get "before" payload else get "after" payload

abbrev parsed_row : Library → String → Fields → Fields → Value → Option ParsedRow
parsed_row lib op payload source (obj row) = some (record {
  op = op;
  source_ts_ms = or_else (get "ts_ms" payload) (get "ts_ms" source);
  lsn = get "lsn" source;
  source_table = table_of lib source;
  row = row;
})
parsed_row lib op payload source _ = none

abbrev parse_source : Library → String → Fields → Result Fields → Result (Option ParsedRow)
parse_source lib op payload (err e) = err e
parse_source lib op payload (ok source) =
    if one_of (table_of lib source) source_tables
    then ok (parsed_row lib op payload source (row_value op payload))
    else ok none

abbrev parse_op : Library → Fields → Option String → Result (Option ParsedRow)
parse_op lib payload none = ok none
parse_op lib payload (some op) = parse_source lib op payload (dict_or_empty (get "source" payload))

-- `parse_raw`
unfoldable pub parse_raw : Library → RawMessage → Result (Option ParsedRow)
unfolding extract_debezium_fields
parse_raw lib raw =
    let payload = extract_debezium_fields raw.value in
    parse_op lib payload (known_op (get "op" payload))

abbrev pub trigger_type : String
trigger_type = "cdc_raw_event"

-- one hour, in microseconds
abbrev pub backfill_lag_threshold : ℕ
backfill_lag_threshold = 3600000000

-- The `ValueError` of a text that is no time, and the `TypeError` of a naive time, are passed over.
abbrev trigger_type_at : Option Time → ℕ → String
trigger_type_at none now = trigger_type
trigger_type_at (some (naive t)) now = trigger_type
trigger_type_at (some (aware executed_at)) now =
    if ltb (executed_at + backfill_lag_threshold) now then "backfill" else trigger_type

-- `_resolve_trigger_type`: a time that is not read, or is naive, is no backfill.
unfoldable pub resolve_trigger_type : Env → Fields → String → Exec World String
unfolding draw_time
resolve_trigger_type env row source_table =
    let executed_at = get "executed_at" row in
    if not (source_table == "trading.transaction") || not (truthy executed_at)
    then pure trigger_type
    else (do
      now ← draw_time env
      pure (trigger_type_at (env.library.from_isoformat (str_of env.library executed_at)) now))

-- the business key of `handle`
unfoldable pub business_key : Library → Fields → String → String
business_key lib row source_table =
    if source_table == "trading.loan"
    then str_of lib (get "loan_id" row)
    else if source_table == "trading.loan_payment"
    then str_of lib (get "payment_id" row)
    else if source_table == "trading.loan_status_history"
    then str_of lib (get "status_event_id" row)
    else str_of lib (get "transaction_id" row)
