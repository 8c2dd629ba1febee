-- ===== src/Fraud/Safety.antt =====
-- What `FraudHandler.handle` keeps, whatever the record and however the outside services fail.
use fintech_data_platform.Prelude.{ℕ, String, Bool, Option, none, some, arith}
use fintech_data_platform.Json.{Fields}
use fintech_data_platform.Envelope.{Envelope}
use fintech_data_platform.Exec.{Keeps, keeps_rules}
use fintech_data_platform.World.{Env}
use fintech_data_platform.World.Committed.{
  IsStored, StoreIsValid, store_rules, worker_rules, transact-IsStored, build-IsStored,
  draw_time-IsStored,
}
use fintech_data_platform.Fraud.Scorer.{RiskAssessment}
use fintech_data_platform.Fraud.Raw.{RawMessage, ParsedRow, resolve_trigger_type, business_key}
use fintech_data_platform.Fraud.Handler.{
  handle, handle_parsed, keyed, assess_and_emit, fail_run, open_assessed_run, build_assessed,
  alert_if_new, record_assessed, write_risk_flag, upsert_risk_flag,
}

module _ (env : Env) (raw : RawMessage) (parsed : ParsedRow) where
  fail_run-IsStored :
      (run_id category summary : String) (details : Fields)
      → Keeps IsStored (fail_run env raw parsed run_id category summary details)
  unfolding fail_run
  fail_run-IsStored run_id category summary details =
      transact-IsStored env _ (search store_rules depth 12)

  open_assessed_run-IsStored :
      (run_id trace_id trigger : String)
      → Keeps IsStored (open_assessed_run env raw parsed run_id trace_id trigger)
  unfolding open_assessed_run
  open_assessed_run-IsStored run_id trace_id trigger =
      transact-IsStored env _ (search store_rules depth 12)

  build_assessed-IsStored :
      (event_id run_id trace_id : String) (a : RiskAssessment)
      → Keeps IsStored (build_assessed env raw parsed event_id run_id trace_id a)
  unfolding build_assessed
  build_assessed-IsStored event_id run_id trace_id a = search (keeps_rules, build-IsStored)

  write_risk_flag-IsStored :
      (transaction_id event_id : String) (a : RiskAssessment)
      → Keeps IsStored (write_risk_flag env raw parsed transaction_id event_id a)
  unfolding write_risk_flag upsert_risk_flag
  write_risk_flag-IsStored transaction_id event_id a = record { at = λ w h. ground (arith, h) }

  alert_if_new-StoreIsValid :
      (inserted : Bool) (run_id : String) (a : RiskAssessment)
      → Keeps StoreIsValid (alert_if_new env raw parsed inserted run_id a)
  unfolding alert_if_new
  alert_if_new-StoreIsValid inserted run_id a = search store_rules depth 12

  record_assessed-IsStored :
      (e : Envelope) (run_id : String) (a : RiskAssessment) (place : ℕ × ℕ)
      → Keeps IsStored (record_assessed env raw parsed e run_id a place)
  unfolding record_assessed
  record_assessed-IsStored e run_id a place =
      transact-IsStored env _ (search (store_rules, alert_if_new-StoreIsValid) depth 12)

  resolve_trigger_type-IsStored :
      (row : Fields) (table : String) → Keeps IsStored (resolve_trigger_type env row table)
  unfolding resolve_trigger_type
  resolve_trigger_type-IsStored row table = search (keeps_rules, draw_time-IsStored)

  ruleset handler_rules = (
    worker_rules, resolve_trigger_type-IsStored, write_risk_flag-IsStored,
    open_assessed_run-IsStored, build_assessed-IsStored, fail_run-IsStored,
    record_assessed-IsStored,
  )

  assess_and_emit-IsStored :
      (key : String) (a : RiskAssessment) → Keeps IsStored (assess_and_emit env raw parsed key a)
  unfolding assess_and_emit
  assess_and_emit-IsStored key a = search handler_rules depth 24

  keyed-IsStored : (key : String) → Keeps IsStored (keyed env raw parsed key)
  keyed-IsStored key = search (keeps_rules, assess_and_emit-IsStored)

handle_parsed-IsStored :
    (env : Env) (raw : RawMessage) (o : Option ParsedRow) → Keeps IsStored (handle_parsed env raw o)
handle_parsed-IsStored env raw none = search keeps_rules
handle_parsed-IsStored env raw (some parsed) =
    keyed-IsStored env raw parsed (business_key env.library parsed.row parsed.source_table)

-- Whatever the record, the ids and times drawn and the failures of the outside services, the
-- handler leaves the event store well formed: unique ids and triggers of runs, unique positions
-- of events, no dangling reference, and an event for every run.
pub handle-IsStored : (env : Env) (raw : RawMessage) → Keeps IsStored (handle env raw)
unfolding handle
handle-IsStored env raw = search (keeps_rules, handle_parsed-IsStored)
