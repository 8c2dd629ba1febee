-- ===== src/EventStore/Events.antt =====
-- `append_event` and `raise_alert` (event_store.py, append_event.sql, raise_alert.sql).
use fintech_data_platform.Prelude.{String, Bool, true, false, not, ◌||◌, ◌∷◌, any, if◌then◌else◌}
use fintech_data_platform.Prelude.Int.{ℤ}
use fintech_data_platform.Exec.{Exec, ok, err}
use fintech_data_platform.Envelope.{Envelope}
use fintech_data_platform.EventStore.Tables.{
  Db, Event, Alert, has_run, same_position, same_event, violation,
}

abbrev pub event_of : Envelope → String → ℤ → ℤ → Event
event_of envelope topic partition kafka_offset = record {
  event_id = envelope.event_id;
  run_id = envelope.run_id;
  event_type = envelope.event_type;
  topic = topic;
  partition = partition;
  kafka_offset = kafka_offset;
  occurred_at = envelope.occurred_at;
  trace_id = envelope.trace_id;
  payload = envelope.payload;
  payload_hash = envelope.payload_hash;
  schema_version = envelope.version;
}

-- append_event.sql: true is a row inserted, false the conflict on the position.
unfoldable pub insert_event : Event → Exec Db Bool
insert_event e db =
    if any (same_position e) db.events
    then (ok false, db)
    else if any (same_event e) db.events || not (has_run e.run_id db.runs)
    then (err (violation "event_log key"), db)
    else (ok true, record db { events = e ∷ db.events })

-- `PgEventStore.append_event`
unfoldable pub append_event : Envelope → String → ℤ → ℤ → Exec Db Bool
unfolding insert_event
append_event envelope topic partition kafka_offset =
    insert_event (event_of envelope topic partition kafka_offset)

-- `PgEventStore.raise_alert`
unfoldable pub raise_alert : Alert → Exec Db Unit
raise_alert a db =
    if has_run a.run_id db.runs
    then (ok tt, record db { alerts = a ∷ db.alerts })
    else (err (violation "alert_event run_id"), db)
