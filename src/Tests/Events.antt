-- ===== src/Tests/Events.antt =====
-- The theorems on the bronze writers of ready events, at short events.
use fintech_data_platform.Prelude.{Bool, ◌≡◌, refl, none, List, [], ◌∷◌, ◌||◌}
use fintech_data_platform.Prelude.Int.{pos, eqb_ℤ}
use fintech_data_platform.Exec.{ok}
use fintech_data_platform.Json.{Value, arr, cons, str, int, obj, nil, Fields, dict}
use fintech_data_platform.World.{Fault, World}
use fintech_data_platform.World.Published.{IsEnded, IsPublished}
use fintech_data_platform.Ready.Recorded.{handled_event_is_recorded}
use fintech_data_platform.Envelope.{Envelope}
use fintech_data_platform.EventStore.{Run, append_event, close_run}
use fintech_data_platform.Lake.{read_uri, write_uri}
use fintech_data_platform.Ready.Uris.{excel_bronze_uri}
use fintech_data_platform.World.{build, produce, transact}
use fintech_data_platform.Ready.Excel.{excel_draft, finalize_excel, write_converted}
use fintech_data_platform.Consumer.{Outcome}
use fintech_data_platform.Ready.Excel.{
  Converter, Header, read_header, handle_excel_ready, write_excel_bronze,
}
use fintech_data_platform.Ready.Salesforce.{
  RawReady, Tables, handle_salesforce_ready, is_empty, read_raw_ready,
}
use fintech_data_platform.Ready.Loop.{ended}
use fintech_data_platform.Ready.Raises.{
  dropped_excel_event, dropped_salesforce_event, unclosed_empty_run,
}
use fintech_data_platform.Ready.Columns.{record_columns}
use fintech_data_platform.Ready.Columns.Keys.{IsTable, record_columns_lem}
use fintech_data_platform.Tests.Sample.{env_with, sample_env, sample_library, seeded}

abbrev pub sample_converter : Converter
sample_converter = record { to_parquet = λ xlsx. ok ("parquet", 1, "sha256-0") }

abbrev pub sample_tables : Tables
sample_tables = record { write_table = λ columns. ok ("parquet", "sha256-0") }

abbrev event_with : Value → Fields
event_with payload = dict (
    ("run_id", str "r-1")
    ∷ ("trace_id", str "t-1")
    ∷ ("trigger_event_ref", str "ref")
    ∷ ("payload", payload)
    ∷ [])

-- The URIs are a dict, of which there is no item 0.
abbrev odd_event : Fields
odd_event = event_with (obj (dict (("output_uris", obj (dict (("0", str "a") ∷ []))) ∷ [])))

dropped_excel_event_example :
    (ended (handle_excel_ready sample_env sample_converter odd_event seeded)).1 ≡ seeded
unfolding handle_excel_ready write_excel_bronze
dropped_excel_event_example = dropped_excel_event sample_env sample_converter seeded odd_event refl

-- There is no object.
abbrev nameless_event : Fields
nameless_event = event_with (obj (dict (("row_count", int (pos 1)) ∷ [])))

nameless_event_unread :
    (m : RawReady)
    → read_raw_ready sample_library nameless_event ≡ ok m
    → (eqb_ℤ m.row_count (pos 0) || is_empty m.raw_uris) ≡ Bool.false
unfolding read_raw_ready
nameless_event_unread m h = cc

dropped_salesforce_event_example :
    (ended (handle_salesforce_ready sample_env sample_tables nameless_event 0 0 seeded)).1 ≡ seeded
unfolding handle_salesforce_ready read_raw_ready
dropped_salesforce_event_example =
    dropped_salesforce_event sample_env sample_tables seeded nameless_event 0 0
      nameless_event_unread refl

abbrev empty_event : Fields
empty_event = event_with (obj (dict (("sobject", str "Account") ∷ [])))

abbrev empty_raw_ready : RawReady
empty_raw_ready = record {
  header = record {
    run_id = "r-1";
    run_id_text = "r-1";
    trace_id = "t-1";
    trigger_event_ref = "ref";
    payload = dict (("sobject", str "Account") ∷ []);
  };
  sobject = "Account";
  raw_uris = nil;
  row_count = pos 0;
}

unclosed_empty_run_example :
    ((ended (
        handle_salesforce_ready
          (env_with (λ n. Fault.lost))
          sample_tables
          empty_event
          0
          0
          seeded)).0
      ≡ Outcome.dropped)
    × ((ended (
          handle_salesforce_ready
            (env_with (λ n. Fault.lost))
            sample_tables
            empty_event
            0
            0
            seeded)).1.store
        ≡ seeded.store)
unfolding read_raw_ready
unclosed_empty_run_example =
    unclosed_empty_run (env_with (λ n. Fault.lost)) sample_tables seeded empty_event 0 0
      empty_raw_ready refl refl refl

abbrev two_records : List Fields
two_records = dict (("Id", str "1") ∷ []) ∷ dict (("Name", str "a") ∷ ("Id", str "2") ∷ []) ∷ []

record_columns_lem_example :
    IsTable sample_library two_records (record_columns sample_library two_records)
record_columns_lem_example = record_columns_lem sample_library two_records

abbrev open_excel_run : Run
open_excel_run = record {
  run_id = "r-1";
  pipeline_class = "ingestion";
  pipeline_name = "excel_ingestion";
  source_system = "excel";
  trigger_type = "excel_upload";
  trigger_event_ref = "ref";
  initiator = "u";
  status = "running";
  parent_run_id = none;
  completed_at = none;
}

abbrev running : World
running = record seeded { store = record seeded.store { runs = open_excel_run ∷ [] } }

abbrev good_event : Fields
good_event =
    event_with
      (obj (dict (("output_uris", arr (cons (str "s3://lake/raw/source=excel/a.xlsx") nil)) ∷ [])))

abbrev good_header : Header
good_header = record {
  run_id = "r-1";
  run_id_text = "r-1";
  trace_id = "t-1";
  trigger_event_ref = "ref";
  payload = dict (("output_uris", arr (cons (str "s3://lake/raw/source=excel/a.xlsx") nil)) ∷ []);
}

abbrev written : World
written = (handle_excel_ready sample_env sample_converter good_event running).1

handled_event_is_recorded_example :
    (e : Envelope) × (e.run_id ≡ "r-1")
    × IsPublished "ingest.excel.bronze.ready.v1" "r-1" e written
    × IsEnded "r-1" "completed" written
unfolding handle_excel_ready write_excel_bronze read_header read_uri write_converted
    excel_bronze_uri write_uri build excel_draft produce finalize_excel transact append_event
    close_run
handled_event_is_recorded_example =
    handled_event_is_recorded sample_env sample_converter good_event good_header running written
      refl refl
