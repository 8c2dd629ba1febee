-- ===== src/Bronze/Row.antt =====
-- services/workers/cdc_bronze_writer/writer.py: an assessed event as a row of the bronze layer.
use fintech_data_platform.Prelude.{ℕ, String, List, [], ◌∷◌, if◌then◌else◌}
use fintech_data_platform.Json.{
  Value, null, int, float, Items, nil, Fields, obj, get, is_null, truthy,
}
use fintech_data_platform.Library.{Library, str_of, dict_or_empty}
use fintech_data_platform.Exec.{ErrorKind, value_error, type_error, Result, ok, err, failure, ◌>>>◌}

-- The envelope is what `json.loads` gave.
pub record AssessedRecord : Type 0 where
  pub envelope : Value
  pub kafka_topic : String
  pub kafka_partition : ℕ
  pub kafka_offset : ℕ

-- The fields that are copied from the payload are whatever values it holds.
pub record BatchRow : Type 0 where
  pub op : Value
  pub transaction_id : Value
  pub source_table : Value
  pub source_lsn : Value
  pub source_ts_ms : Value
  pub kafka_topic : String
  pub kafka_partition : ℕ
  pub kafka_offset : ℕ
  pub event_id : String
  pub risk_score : Value
  pub risk_flags : Items
  pub account_id : Value
  pub loan_id : Value
  pub payment_id : Value
  pub payment_amount : Value
  pub payment_due_date : Value
  pub payment_posted_at : Value
  pub status_code : Value
  pub status_at : Value
  pub principal_balance : Value
  pub days_past_due : Value
  pub commission_adjustment_amount : Value
  pub commission_reason : Value
  pub assessed_payload : String

-- `except (ValueError, TypeError): return None`; another error, an overflow, goes through.
abbrev none_if_unreadable : Result Value → Result Value
none_if_unreadable (ok v) = ok v
none_if_unreadable (err e) = elim e.kind [
  | value_error ↦ ok null
  | ErrorKind.json_decode_error ↦ ok null
  | type_error ↦ ok null
  | _ ↦ err e
]

module _ (lib : Library) where
  -- `_coerce_float`
  unfoldable pub coerce_float : Value → Result Value
  coerce_float v =
      if is_null v then ok null else none_if_unreadable (lib.float_of v >>> λ x. ok (float x))

  -- `_coerce_int`
  unfoldable pub coerce_int : Value → Result Value
  coerce_int v =
      if is_null v then ok null else none_if_unreadable (lib.int_of v >>> λ n. ok (int n))

  -- `list(v or [])`
  abbrev list_or_empty : Value → Result Items
  list_or_empty v = if truthy v then lib.list_of v else ok nil

  -- `env.get(...)` of what is no dict
  abbrev envelope_fields : Value → Result Fields
  envelope_fields (obj fs) = ok fs
  envelope_fields v = err (failure type_error "object has no attribute 'get'")

  -- `assessed_record_to_row`
  unfoldable pub assessed_record_to_row : AssessedRecord → Result BatchRow
  unfolding coerce_float coerce_int str_of
  assessed_record_to_row rec = envelope_fields rec.envelope >>> λ env.
      dict_or_empty (get "payload" env) >>> λ payload.
      dict_or_empty (get "original_topic_metadata" payload) >>> λ orig.
      coerce_float (get "risk_score" payload) >>> λ risk_score.
      list_or_empty (get "risk_flags" payload) >>> λ risk_flags.
      coerce_float (get "payment_amount" payload) >>> λ payment_amount.
      coerce_float (get "principal_balance" payload) >>> λ principal_balance.
      coerce_int (get "days_past_due" payload) >>> λ days_past_due.
      coerce_float (get "commission_adjustment_amount" payload) >>> λ commission. ok (record {
        op = get "op" payload;
        transaction_id = get "transaction_id" payload;
        source_table = get "source_table" payload;
        source_lsn = get "lsn" orig;
        source_ts_ms = get "source_ts_ms" orig;
        kafka_topic = rec.kafka_topic;
        kafka_partition = rec.kafka_partition;
        kafka_offset = rec.kafka_offset;
        event_id = str_of lib (get "event_id" env);
        risk_score = risk_score;
        risk_flags = risk_flags;
        account_id = get "account_id" payload;
        loan_id = get "loan_id" payload;
        payment_id = get "payment_id" payload;
        payment_amount = payment_amount;
        payment_due_date = get "payment_due_date" payload;
        payment_posted_at = get "payment_posted_at" payload;
        status_code = get "status_code" payload;
        status_at = get "status_at" payload;
        principal_balance = principal_balance;
        days_past_due = days_past_due;
        commission_adjustment_amount = commission;
        commission_reason = get "commission_reason" payload;
        assessed_payload = lib.dumps (obj payload);
      })

  -- the comprehension over the records
  unfoldable pub rows_of : List AssessedRecord → Result (List BatchRow)
  unfolding assessed_record_to_row
  rows_of [] = ok []
  rows_of (r ∷ rs) = assessed_record_to_row r >>> λ row. rows_of rs >>> λ rows. ok (row ∷ rows)
