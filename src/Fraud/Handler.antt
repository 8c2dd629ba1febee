-- ===== src/Fraud/Handler.antt =====
-- services/workers/fraud_worker/handler.py: `_upsert_risk_flag` and `FraudHandler.handle`.
use fintech_data_platform.Prelude.{
  ℕ, ◌/◌, ◌%◌, String, Bool, true, false, ◌&&◌, ◌||◌, ◌==◌, Option, none, some, [], ◌∷◌, any, eqb,
  if◌then◌else◌,
}
use fintech_data_platform.Prelude.Int.{pos, negsuc}
use fintech_data_platform.Prelude.Text.{concat, show}
use fintech_data_platform.Json.{
  Value, null, int, float, str, arr, obj, Fields, get, is_null, dict, strings,
}
use fintech_data_platform.Decimal.{Amount}
use fintech_data_platform.Envelope.{Envelope, EventSource, PipelineClass, PipelineName}
use fintech_data_platform.Exec.{Exec, Result, ok, err, pure, raise, lift, catch, ◌>>=◌, ◌>>◌}
use fintech_data_platform.EventStore.{
  Alert, open_run, close_run, append_event, raise_alert, violation,
}
use fintech_data_platform.World.{
  World, Env, Fault, RiskFlag, Draft, on_store, draw_uuid, draw_time, build, produce, transact,
  tick, external,
}
use fintech_data_platform.Library.{Library, str_of}
use fintech_data_platform.Fraud.Scorer.{RiskAssessment, unscored, parse_amount, score_transaction}
use fintech_data_platform.Fraud.Raw.{
  RawMessage, ParsedRow, parse_raw, resolve_trigger_type, business_key,
}

abbrev pub topic_assessed : String
topic_assessed = "cdc.oltp.assessed.v1"

abbrev pub topic_internal : String
topic_internal = "event_store.internal"

abbrev pub topic_assessed_started : String
topic_assessed_started = "cdc.oltp.assessed.started.v1"

-- the unique constraint on (raw_topic, raw_partition, raw_offset)
abbrev pub is_flag_of : String → ℕ → ℕ → RiskFlag → Bool
is_flag_of topic partition offset f =
    f.raw_topic == topic && eqb f.raw_partition partition && eqb f.raw_offset offset

abbrev pub flag_row : RawMessage → String → String → RiskAssessment → RiskFlag
flag_row raw transaction_id event_id assessment = record {
  transaction_id = transaction_id;
  event_id = event_id;
  risk_score = assessment.risk_score;
  risk_flags = assessment.risk_flags;
  raw_topic = raw.topic;
  raw_partition = raw.partition;
  raw_offset = raw.offset;
}

-- `_upsert_risk_flag`: true is a row inserted, false the conflict on the coordinates. The
-- transaction must be a row of `trading.transaction`.
unfoldable pub upsert_risk_flag : RiskFlag → Exec World Bool
upsert_risk_flag f w =
    if any (is_flag_of f.raw_topic f.raw_partition f.raw_offset) w.risk_flags
    then (ok false, w)
    else if any (λ id. id == f.transaction_id) w.transactions
    then (ok true, record w { risk_flags = f ∷ w.risk_flags })
    else (err (violation "risk_flag transaction_id"), w)

abbrev pub trigger_event_ref : RawMessage → String
trigger_event_ref raw = concat (raw.topic ∷ ":" ∷ show raw.partition ∷ ":" ∷ show raw.offset ∷ [])

abbrev started_payload : RawMessage → ParsedRow → Fields
started_payload raw parsed = dict (
    ("stage", str "assessed")
    ∷ ("state", str "started")
    ∷ ("source_table", str parsed.source_table)
    ∷ ("topic", str raw.topic)
    ∷ ("partition", int (pos raw.partition))
    ∷ ("offset", int (pos raw.offset))
    ∷ [])

-- `str(v) if v is not None else None`
abbrev opt_text : Library → Value → Value
opt_text lib v = if is_null v then null else str (str_of lib v)

module _ (lib : Library) where
  -- `_raw_numeric_to_float`
  unfoldable pub raw_numeric_to_float : Value → Value
  unfolding parse_amount
  raw_numeric_to_float v =
      if is_null v then null else elim (parse_amount lib v) [ none ↦ null | some a ↦ float a ]

  abbrev pub opt_int : Value → Result Value
  opt_int null = ok null
  opt_int v = elim (lib.int_of v) [ err e ↦ err e | ok n ↦ ok (int n) ]

  -- The payload of the assessed event, with `days_past_due` as `int(...)` gave it.
  unfoldable pub assessed_payload : RawMessage → ParsedRow → RiskAssessment → Value → Fields
  unfolding raw_numeric_to_float str_of
  assessed_payload raw parsed assessment days_past_due =
      let row = parsed.row in
      let is_payment = parsed.source_table == "trading.loan_payment" in
      dict (
        (
          "risk_score",
          float (Amount.finite false (record { coeff = assessment.risk_score; places = 4 })),
        )
        ∷ ("risk_flags", arr (strings assessment.risk_flags))
        ∷ ("transaction_id", str (str_of lib (get "transaction_id" row)))
        ∷ ("account_id", get "account_id" row)
        ∷ ("loan_id", get "loan_id" row)
        ∷ ("payment_id", get "payment_id" row)
        ∷ ("payment_amount", (if is_payment then raw_numeric_to_float (get "amount" row) else null))
        ∷ ("payment_due_date", opt_text lib (get "due_date" row))
        ∷ ("payment_posted_at", opt_text lib (get "posted_at" row))
        ∷ ("status_code", get "status_code" row)
        ∷ ("status_at", opt_text lib (get "status_at" row))
        ∷ ("principal_balance", raw_numeric_to_float (get "principal_balance" row))
        ∷ ("days_past_due", days_past_due)
        ∷ ("commission_adjustment_amount", null)
        ∷ ("commission_reason", null)
        ∷ ("op", str parsed.op)
        ∷ ("source_table", str parsed.source_table)
        ∷ (
          "original_topic_metadata",
          obj (
              dict (
                ("topic", str raw.topic)
                ∷ ("partition", int (pos raw.partition))
                ∷ ("offset", int (pos raw.offset))
                ∷ ("lsn", parsed.lsn)
                ∷ ("source_ts_ms", parsed.source_ts_ms)
                ∷ [])),
        )
        ∷ [])

module _ (env : Env) (raw : RawMessage) (parsed : ParsedRow) where
  abbrev pub draft : Option String → String → String → String → Fields → Draft
  draft event_id event_type run_id trace_id payload = record {
    event_id = event_id;
    event_type = event_type;
    source = EventSource.cdc;
    run_id = run_id;
    pipeline_class = PipelineClass.ingestion;
    pipeline_name = PipelineName.cdc_ingestion;
    parent_run_id = none;
    trigger_event_ref = trigger_event_ref raw;
    trace_id = trace_id;
    occurred_at = none;
    payload = payload;
  }

  -- A high alert and the end of the run, in one transaction.
  unfoldable pub fail_run : String → String → String → Fields → Exec World (Unit {0})
  fail_run run_id category summary details = transact env (do
    at ← draw_time env
    on_store (
        raise_alert (record {
          run_id = run_id;
          severity = "high";
          category = category;
          summary = summary;
          details = details;
          occurred_at = at;
        }))
    done ← draw_time env
    on_store (close_run run_id "failed" done))

  -- the risk flag of a transaction, in a transaction of the trading database
  abbrev pub oltp_fault : Fault → Exec World Bool → Exec World Bool
  oltp_fault Fault.fine m w = m w
  oltp_fault Fault.lost m w = (err (external "connection failed"), w)
  oltp_fault Fault.unacked m w = let (r, w') = m w in (err (external "connection lost"), w')

  unfoldable pub write_risk_flag : String → String → RiskAssessment → Exec World Bool
  write_risk_flag transaction_id event_id assessment w =
      oltp_fault (env.fault w.ticks)
        (upsert_risk_flag (flag_row raw transaction_id event_id assessment)) (tick w)

  -- The run and its first internal event.
  unfoldable pub open_assessed_run : String → String → String → Exec World String
  open_assessed_run run_id trace_id trigger = transact env (do
    id ← on_store (
        open_run (record {
          run_id = run_id;
          pipeline_class = PipelineClass.ingestion;
          pipeline_name = PipelineName.cdc_ingestion;
          source_system = "cdc";
          trigger_type = trigger;
          trigger_event_ref = trigger_event_ref raw;
          initiator = "fraud_worker";
          status = "running";
          parent_run_id = none;
        }))
    started ← build env (draft none topic_assessed_started id trace_id (started_payload raw parsed))
    inserted ← on_store (append_event started topic_internal (negsuc 0) (negsuc 0))
    pure id)

  -- The assessed envelope; a failure to build it ends the run.
  unfoldable pub build_assessed : String → String → String → RiskAssessment → Exec World Envelope
  build_assessed event_id run_id trace_id assessment = do
    days ← lift (opt_int env.library (get "days_past_due" parsed.row))
    build env (
        draft (some event_id) topic_assessed run_id trace_id
          (assessed_payload env.library raw parsed assessment days))

  abbrev pub has_flags : RiskAssessment → Bool
  has_flags a = elim a.risk_flags [ [] ↦ false | f ∷ fs ↦ true ]

  -- `{score:.4f}` of a score of at most four decimals
  abbrev score_text : ℕ → String
  score_text n = concat (
      show (n / 10000)
      ∷ "."
      ∷ show (n / 1000 % 10)
      ∷ show (n / 100 % 10)
      ∷ show (n / 10 % 10)
      ∷ show (n % 10)
      ∷ [])

  abbrev pub risk_alert : String → RiskAssessment → ℕ → Alert
  risk_alert run_id assessment at = record {
    run_id = run_id;
    severity = "high";
    category = "cdc_fraud_high_risk";
    summary =
        concat
          ("High-risk transaction flagged (score " ∷ score_text assessment.risk_score ∷ ")" ∷ []);
    details = dict (
        ("transaction_id", str (str_of env.library (get "transaction_id" parsed.row)))
        ∷ ("account_id", get "account_id" parsed.row)
        ∷ ("instrument", get "instrument" parsed.row)
        ∷ (
          "risk_score",
          float (Amount.finite false (record { coeff = assessment.risk_score; places = 4 })),
        )
        ∷ ("risk_flags", arr (strings assessment.risk_flags))
        ∷ []);
    occurred_at = at;
  }

  unfoldable pub alert_if_new : Bool → String → RiskAssessment → Exec World (Unit {0})
  alert_if_new inserted run_id assessment =
      if inserted && has_flags assessment
      then (do at ← draw_time env; on_store (raise_alert (risk_alert run_id assessment at)))
      else pure tt

  -- The assessed event in the event log, the alert of a flagged transaction, the end of the run.
  unfoldable pub record_assessed :
      Envelope → String → RiskAssessment → ℕ × ℕ → Exec World (Unit {0})
  record_assessed envelope run_id assessment (partition, offset) = transact env (do
    inserted ← on_store (append_event envelope topic_assessed (pos partition) (pos offset))
    alert_if_new inserted run_id assessment
    done ← draw_time env
    on_store (close_run run_id "completed" done))

  abbrev pub flag_step : String → String → RiskAssessment → Exec World Bool
  flag_step transaction_id event_id assessment =
      if parsed.source_table == "trading.transaction"
      then write_risk_flag transaction_id event_id assessment
      else pure false

  abbrev pub assessment_of : Result RiskAssessment
  assessment_of =
      if parsed.source_table == "trading.transaction"
      then score_transaction env.library parsed.row
      else ok unscored

  -- `handle` from the draw of the ids on
  unfoldable pub assess_and_emit : String → RiskAssessment → Exec World Bool
  assess_and_emit key assessment = do
    event_id ← draw_uuid env
    fresh_run_id ← draw_uuid env
    trace_id ← draw_uuid env
    trigger ← resolve_trigger_type env parsed.row parsed.source_table
    flagged ← flag_step (str_of env.library (get "transaction_id" parsed.row)) event_id assessment
    run_id ← open_assessed_run fresh_run_id trace_id trigger
    envelope ← catch (build_assessed event_id run_id trace_id assessment) (λ e.
        fail_run run_id "cdc_assessed_envelope_build_failed"
          "fraud worker failed to build assessed envelope"
          (dict (("raw", str (trigger_event_ref raw)) ∷ ("error", str e.message) ∷ []))
        >> raise e)
    place ←
        catch (produce env topic_assessed envelope (concat (parsed.source_table ∷ ":" ∷ key ∷ [])))
          (λ e.
            fail_run run_id "cdc_assessed_produce_failed"
              "fraud worker failed to produce assessed event"
              (dict (("raw", str (trigger_event_ref raw)) ∷ []))
            >> raise e)
    record_assessed envelope run_id assessment place
    pure true

  abbrev pub keyed : String → Exec World Bool
  keyed key =
      if key == "" || key == "None"
      then pure false
      else (do assessment ← lift assessment_of; assess_and_emit key assessment)

abbrev pub handle_parsed : Env → RawMessage → Option ParsedRow → Exec World Bool
handle_parsed env raw none = pure false
handle_parsed env raw (some parsed) =
    keyed env raw parsed (business_key env.library parsed.row parsed.source_table)

-- `FraudHandler.handle`: whether an assessed event was emitted
unfoldable pub handle : Env → RawMessage → Exec World Bool
handle env raw = do parsed ← lift (parse_raw env.library raw); handle_parsed env raw parsed
