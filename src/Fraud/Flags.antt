-- ===== src/Fraud/Flags.antt =====
-- The rows of `trading.risk_flag` that the handler writes: one at most for each raw record.
use fintech_data_platform.Prelude.{
  String, ◌≡◌, Bool, false, Option, none, some, List, [], ◌∷◌, any, arith,
}
use fintech_data_platform.Json.{Fields}
use fintech_data_platform.Envelope.{Envelope}
use fintech_data_platform.Exec.{Exec, Keeps, keeps_rules}
use fintech_data_platform.EventStore.{Db}
use fintech_data_platform.World.{
  World, Env, RiskFlag, Message, Fault, Draft, transact, build, draw_time, draw_uuid, produce,
  on_store, tick, delivered,
}
use fintech_data_platform.World.Rest.{
  draw_uuid-OnRest, draw_time-OnRest, build-OnRest, on_store-OnRest, transact-OnRest,
}
use fintech_data_platform.Fraud.Scorer.{RiskAssessment}
use fintech_data_platform.Fraud.Raw.{RawMessage, ParsedRow, resolve_trigger_type, business_key}
use fintech_data_platform.Fraud.Handler.{
  handle, handle_parsed, keyed, assess_and_emit, fail_run, open_assessed_run, build_assessed,
  alert_if_new, record_assessed, write_risk_flag, oltp_fault, is_flag_of, upsert_risk_flag,
  flag_row,
}

-- No two rows have one (topic, partition, offset).
abbrev pub UniqueFlags : List RiskFlag → Type 0
UniqueFlags [] = Unit
UniqueFlags (f ∷ fs) =
    (any (is_flag_of f.raw_topic f.raw_partition f.raw_offset) fs ≡ false) × UniqueFlags fs

abbrev pub HasUniqueFlags : World → Type 0
HasUniqueFlags w = UniqueFlags w.risk_flags

module _ (env : Env) where
  abbrev R : List RiskFlag → List (String × String) → List Message → Type 0
  R flags objects messages = UniqueFlags flags

  draw_uuid-flags : Keeps HasUniqueFlags (draw_uuid env)
  draw_uuid-flags = draw_uuid-OnRest env R

  draw_time-flags : Keeps HasUniqueFlags (draw_time env)
  draw_time-flags = draw_time-OnRest env R

  build-flags : (d : Draft) → Keeps HasUniqueFlags (build env d)
  build-flags d = build-OnRest env R d

  on_store-flags : {A : Type 0} (m : Exec Db A) → Keeps HasUniqueFlags (on_store m)
  on_store-flags m = on_store-OnRest env R m

  transact-flags :
      {A : Type 0} (body : Exec World A)
      → Keeps HasUniqueFlags body
      → Keeps HasUniqueFlags (transact env body)
  transact-flags body k = transact-OnRest env R body k

  delivered-flags :
      (f : Fault) (topic key : String) (e : Envelope)
      → Keeps HasUniqueFlags (delivered env f topic key e)
  delivered-flags Fault.fine topic key e = record { at = λ w h. h }
  delivered-flags Fault.lost topic key e = record { at = λ w h. h }
  delivered-flags Fault.unacked topic key e = record { at = λ w h. h }

  produce-flags :
      (topic : String) (e : Envelope) (key : String)
      → Keeps HasUniqueFlags (produce env topic e key)
  unfolding produce
  produce-flags topic e key = record {
    at = λ w h. (delivered-flags (env.fault w.ticks) topic key e).at (tick w) h;
  }

  ruleset flag_rules = (
    keeps_rules, on_store-flags, draw_uuid-flags, draw_time-flags, build-flags, produce-flags,
    transact-flags,
  )

upsert-flags : (f : RiskFlag) → Keeps HasUniqueFlags (upsert_risk_flag f)
unfolding upsert_risk_flag
upsert-flags f = record { at = λ w h. ground (arith, h) }

module _ (env : Env) (raw : RawMessage) (parsed : ParsedRow) where
  oltp_fault-flags :
      (f : Fault) (m : Exec World Bool)
      → Keeps HasUniqueFlags m
      → Keeps HasUniqueFlags (oltp_fault env raw parsed f m)
  oltp_fault-flags Fault.fine m k = record { at = λ w h. k.at w h }
  oltp_fault-flags Fault.lost m k = record { at = λ w h. h }
  oltp_fault-flags Fault.unacked m k = record { at = λ w h. k.at w h }

  write_risk_flag-flags :
      (transaction_id event_id : String) (a : RiskAssessment)
      → Keeps HasUniqueFlags (write_risk_flag env raw parsed transaction_id event_id a)
  unfolding write_risk_flag
  write_risk_flag-flags transaction_id event_id a = record {
    at = λ w h.
        (oltp_fault-flags (env.fault w.ticks) _
            (upsert-flags (flag_row raw transaction_id event_id a))).at
          (tick w) h;
  }

  resolve_trigger_type-flags :
      (row : Fields) (table : String) → Keeps HasUniqueFlags (resolve_trigger_type env row table)
  unfolding resolve_trigger_type
  resolve_trigger_type-flags row table = search flag_rules

  handler-flags :
      (key : String) (a : RiskAssessment)
      → Keeps HasUniqueFlags (assess_and_emit env raw parsed key a)
  unfolding assess_and_emit fail_run open_assessed_run build_assessed record_assessed alert_if_new
  handler-flags key a =
      search (flag_rules, write_risk_flag-flags, resolve_trigger_type-flags) depth 40

  keyed-flags : (key : String) → Keeps HasUniqueFlags (keyed env raw parsed key)
  keyed-flags key = search (keeps_rules, handler-flags)

handle_parsed-flags :
    (env : Env) (raw : RawMessage) (o : Option ParsedRow)
    → Keeps HasUniqueFlags (handle_parsed env raw o)
handle_parsed-flags env raw none = search keeps_rules
handle_parsed-flags env raw (some parsed) =
    keyed-flags env raw parsed (business_key env.library parsed.row parsed.source_table)

-- A raw record has at most one risk flag, however often it is handled and however a run ends.
pub handle-flags : (env : Env) (raw : RawMessage) → Keeps HasUniqueFlags (handle env raw)
unfolding handle
handle-flags env raw = search (keeps_rules, handle_parsed-flags)
