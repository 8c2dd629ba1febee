-- ===== src/EventStore/Tables.antt =====
-- The rows and the tables of schema `event_store`, newest row first.
-- `inserted` holds the runs that the transaction in progress has inserted, which the deferred
-- constraint trigger looks at when it commits; `now` is the transaction's `now()`.
use fintech_data_platform.Prelude.{ℕ, String, Bool, ◌&&◌, ◌==◌, Option, List, [], any, eqb, all}
use fintech_data_platform.Prelude.Int.{ℤ, eqb_ℤ}
use fintech_data_platform.Json.{Fields}
use fintech_data_platform.Exec.{Error, failure, ErrorKind}

pub record Run : Type 0 where
  pub run_id : String
  pub pipeline_class : String
  pub pipeline_name : String
  pub source_system : String
  pub trigger_type : String
  pub trigger_event_ref : String
  pub status : String
  pub initiator : String
  pub parent_run_id : Option String
  pub completed_at : Option ℕ

pub record Event : Type 0 where
  pub event_id : String
  pub run_id : String
  pub event_type : String
  pub topic : String
  pub partition : ℤ
  pub kafka_offset : ℤ
  pub occurred_at : ℕ
  pub trace_id : String
  pub payload : Fields
  pub payload_hash : String
  pub schema_version : String

pub record Alert : Type 0 where
  pub run_id : String
  pub severity : String
  pub category : String
  pub summary : String
  pub details : Fields
  pub occurred_at : ℕ

pub record CdcCheckpoint : Type 0 where
  pub run_id : String
  pub source_table : String
  pub lsn_start : Option String
  pub lsn_end : Option String
  pub kafka_partition : ℤ
  pub offset_start : ℤ
  pub offset_end : ℤ
  pub record_count : ℕ
  pub recorded_at : ℕ

pub record SfCursor : Type 0 where
  pub run_id : String
  pub sobject : String
  pub cursor_ts : ℕ
  pub cursor_id : String
  pub kafka_partition : ℤ
  pub offset_start : ℤ
  pub offset_end : ℤ
  pub record_count : ℕ
  pub recorded_at : ℕ

-- A row of `silver_checkpoint` (the three counts of the merge) or of `gold_checkpoint`.
pub record CuratedCheckpoint : Type 0 where
  pub run_id : String
  pub parent_run_id : String
  -- `silver_domain` or `metric`
  pub subject : String
  pub input_uris : List String
  pub output_table : String
  pub output_uris : List String
  pub record_count : ℕ
  pub merge_inserted : ℕ
  pub merge_updated : ℕ
  pub merge_closed : ℕ
  pub recorded_at : ℕ

pub record Db : Type 0 where
  pub runs : List Run
  pub events : List Event
  pub alerts : List Alert
  pub cdc_checkpoints : List CdcCheckpoint
  pub sf_cursors : List SfCursor
  pub silver_checkpoints : List CuratedCheckpoint
  pub gold_checkpoints : List CuratedCheckpoint
  pub inserted : List String
  pub now : ℕ

abbrev pub empty_db : Db
empty_db = record {
  runs = [];
  events = [];
  alerts = [];
  cdc_checkpoints = [];
  sf_cursors = [];
  silver_checkpoints = [];
  gold_checkpoints = [];
  inserted = [];
  now = 0;
}

abbrev pub is_run : String → Run → Bool
is_run id r = r.run_id == id

-- the unique index on (pipeline_name, trigger_event_ref)
abbrev pub is_triggered_by : String → String → Run → Bool
is_triggered_by name ref r = r.pipeline_name == name && r.trigger_event_ref == ref

abbrev pub has_run : String → List Run → Bool
has_run id = any (is_run id)

-- the unique index on (topic, partition, kafka_offset, occurred_at)
abbrev pub same_position : Event → Event → Bool
same_position e d =
    d.topic == e.topic
    && eqb_ℤ d.partition e.partition
    && eqb_ℤ d.kafka_offset e.kafka_offset
    && eqb d.occurred_at e.occurred_at

-- the primary key (event_id, occurred_at)
abbrev pub same_event : Event → Event → Bool
same_event e d = d.event_id == e.event_id && eqb d.occurred_at e.occurred_at

abbrev pub is_event_of : String → Event → Bool
is_event_of id e = e.run_id == id

abbrev pub has_event : String → List Event → Bool
has_event id = any (is_event_of id)

-- `assert_run_has_event`, for every run that the transaction inserted
abbrev pub trigger_passes : Db → Bool
trigger_passes db = all (λ id. has_event id db.events) db.inserted

abbrev pub violation : String → Error
violation = failure ErrorKind.integrity_error
