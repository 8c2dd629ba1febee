-- ===== src/Ready/Salesforce.antt =====
-- services/workers/salesforce_bronze_writer/writer.py: `SalesforceBronzeWriter.handle_raw_ready`.
use fintech_data_platform.Prelude.{
  ℕ, String, Bool, true, false, ◌||◌, none, some, List, [], ◌∷◌, length, if◌then◌else◌,
}
use fintech_data_platform.Prelude.Int.{ℤ, pos, eqb_ℤ}
use fintech_data_platform.Prelude.Text.{concat}
use fintech_data_platform.Json.{
  Value, str, int, arr, obj, Items, nil, cons, Fields, dict, get, strings, truthy,
}
use fintech_data_platform.Library.{Library, Time, a_text, aware, naive, str_of, item, get_item}
use fintech_data_platform.Envelope.{Envelope, EventSource, PipelineClass, PipelineName}
use fintech_data_platform.Exec.{
  Error, ErrorKind, Exec, Result, catch, err, failure, lift, ok, pure, raise, ◌>>=◌, ◌>>◌, ◌>>>◌,
}
use fintech_data_platform.EventStore.{SfCursor, append_event, append_sf_cursor_checkpoint}
use fintech_data_platform.World.{Draft, Env, World, build, on_store, produce, transact}
use fintech_data_platform.Lake.{read_uri, write_uri}
use fintech_data_platform.Ready.Uris.{salesforce_bronze_uri}
use fintech_data_platform.Ready.Excel.{
  Header, end_run, is_retryable, read_header, report_failure, retryable,
}
use fintech_data_platform.Ready.Columns.{record_columns}

abbrev pub topic_salesforce_bronze_ready : String
topic_salesforce_bronze_ready = "ingest.salesforce.bronze.ready.v1"

-- What is read of the message before the `try`.
pub record RawReady : Type 0 where
  pub header : Header
  pub sobject : String
  pub raw_uris : Items
  pub row_count : ℤ

-- pyarrow's table of columns: the bytes of the file and the fingerprint of its schema
pub record Tables : Type 0 where
  pub write_table : List (String × List Value) → Result (String × String)

abbrev pub is_empty : Items → Bool
is_empty nil = true
is_empty (cons v vs) = false

abbrev pub append_items : Items → Items → Items
append_items nil ws = ws
append_items (cons v vs) ws = cons v (append_items vs ws)

-- `rec.keys()` of what is no dict raises.
abbrev pub dicts : Items → Result (List Fields)
dicts nil = ok []
dicts (cons (obj fs) vs) = dicts vs >>> λ rest. ok (fs ∷ rest)
dicts (cons v vs) = err (failure ErrorKind.type_error "object has no attribute 'keys'")

abbrev pub first_text : Items → Result String
first_text nil = err (failure ErrorKind.value_error "list index out of range")
first_text (cons v vs) = a_text v

abbrev pub last_record : Fields → List Fields → Fields
last_record r [] = r
last_record r (s ∷ rs) = last_record s rs

-- `ts.replace(tzinfo=timezone.utc)` of a time with no zone
abbrev pub in_utc : Time → ℕ
in_utc (aware t) = t
in_utc (naive t) = t

module _ (lib : Library) where
  -- `list(v or [])`
  abbrev pub list_or_empty : Value → Result Items
  list_or_empty (arr vs) = ok vs
  list_or_empty v = if truthy v then lib.list_of v else ok nil

  abbrev int_or_zero : Value → Result ℤ
  int_or_zero v = if truthy v then lib.int_of v else ok (pos 0)

  unfoldable pub read_raw_ready : Fields → Result RawReady
  unfolding read_header str_of
  read_raw_ready env = read_header lib env >>> λ header.
      item "sobject" (obj header.payload) >>> λ sobject.
      list_or_empty (get "output_uris" header.payload) >>> λ uris.
      int_or_zero (get "row_count" header.payload) >>> λ rows.
      ok (record {
        header = header;
        sobject = str_of lib sobject;
        raw_uris = uris;
        row_count = rows;
      })

  -- `_parse_cursor_ts`
  unfoldable pub parse_cursor_ts : String → Result ℕ
  parse_cursor_ts text = elim (lib.from_isoformat text) [
    | none ↦ err (failure ErrorKind.value_error "Invalid isoformat string")
    | some t ↦ ok (in_utc t)
  ]

  -- the time and the id of the last record
  unfoldable pub cursor_of : Fields → Result (ℕ × String)
  unfolding str_of parse_cursor_ts
  cursor_of last = item "SystemModstamp" (obj last) >>> λ stamp.
      parse_cursor_ts (str_of lib stamp) >>> λ ts.
      item "Id" (obj last) >>> λ id. ok (ts, str_of lib id)

module _ (env : Env) where
  unfoldable pub salesforce_draft : RawReady → String → ℕ → String → ℕ × String → Draft
  salesforce_draft m bronze_uri record_count fingerprint (cursor_ts, cursor_id) = record {
    event_id = none;
    event_type = topic_salesforce_bronze_ready;
    source = EventSource.salesforce;
    run_id = m.header.run_id;
    pipeline_class = PipelineClass.ingestion;
    pipeline_name = PipelineName.salesforce_ingestion;
    parent_run_id = none;
    trigger_event_ref = m.header.trigger_event_ref;
    trace_id = m.header.trace_id;
    occurred_at = none;
    payload = dict (
        (
          "message",
          str (
              concat (
                "Salesforce " ∷ m.sobject ∷ " raw transformed to bronze parquet: " ∷ bronze_uri
                ∷ [])),
        )
        ∷ ("stage", str "bronze")
        ∷ ("format", str "parquet")
        ∷ ("sobject", str m.sobject)
        ∷ ("input_uris", arr m.raw_uris)
        ∷ ("output_uris", arr (strings (bronze_uri ∷ [])))
        ∷ ("record_count", int (pos record_count))
        ∷ ("parquet_schema_fingerprint", str fingerprint)
        ∷ ("advanced_cursor_ts", str (env.library.isoformat cursor_ts))
        ∷ ("advanced_cursor_id", str cursor_id)
        ∷ ("transform_id", str "salesforce_json_to_parquet")
        ∷ ("transform_version", str "v1")
        ∷ []);
  }

  abbrev pub sf_cursor : RawReady → ℕ → ℕ → ℕ → ℕ × String → SfCursor
  sf_cursor m partition offset record_count (cursor_ts, cursor_id) = record {
    run_id = m.header.run_id;
    sobject = m.sobject;
    cursor_ts = cursor_ts;
    cursor_id = cursor_id;
    kafka_partition = pos partition;
    offset_start = pos offset;
    offset_end = pos offset;
    record_count = record_count;
    recorded_at = 0;
  }

  abbrev pub record_salesforce : RawReady → Envelope → SfCursor → ℕ × ℕ → Exec World Unit
  record_salesforce m envelope cursor (partition, offset) = do
    inserted ←
        on_store (append_event envelope topic_salesforce_bronze_ready (pos partition) (pos offset))
    on_store (append_sf_cursor_checkpoint cursor)
    end_run env m.header "completed"

  -- The event, the cursor and the end of the run; a failure here is retryable.
  unfoldable pub finalize_salesforce : RawReady → Envelope → SfCursor → ℕ × ℕ → Exec World Bool
  finalize_salesforce m envelope cursor place =
      catch (transact env (record_salesforce m envelope cursor place)) (λ e. raise (retryable e))
      >> pure true

  -- the end of a run that has no record
  unfoldable pub close_empty : RawReady → Exec World Bool
  close_empty m = transact env (end_run env m.header "completed") >> pure true

  -- the records of the pages, in order
  unfoldable pub read_pages : Items → Exec World Items
  read_pages nil = pure nil
  read_pages (cons uri uris) = do
    text ← lift (a_text uri)
    body ← read_uri env text
    records ← lift (env.library.loads body >>> get_item "records" >>> list_or_empty env.library)
    rest ← read_pages uris
    pure (append_items records rest)

  module _ (tables : Tables) (m : RawReady) (partition offset : ℕ) where
    abbrev pub write_table_of : Fields → List Fields → String × String → Exec World Bool
    write_table_of r rs (bytes, fingerprint) = do
      raw_uri ← lift (first_text m.raw_uris)
      bronze_uri ← lift (salesforce_bronze_uri env.library raw_uri)
      write_uri env bronze_uri bytes
      cursor ← lift (cursor_of env.library (last_record r rs))
      envelope ← build env (salesforce_draft m bronze_uri (length (r ∷ rs)) fingerprint cursor)
      place ←
          produce env topic_salesforce_bronze_ready envelope
            (concat (m.sobject ∷ ":" ∷ m.header.run_id ∷ []))
      finalize_salesforce m envelope (sf_cursor m partition offset (length (r ∷ rs)) cursor) place

    abbrev pub write_records : List Fields → Exec World Bool
    write_records [] = close_empty m
    write_records (r ∷ rs) = do
      table ← lift (tables.write_table (record_columns env.library (r ∷ rs)))
      write_table_of r rs table

    -- the body of the `try`
    unfoldable pub write_salesforce_bronze : Exec World Bool
    write_salesforce_bronze = do
      items ← read_pages m.raw_uris
      records ← lift (dicts items)
      write_records records

    abbrev pub salesforce_report : Error → Exec World Bool
    salesforce_report e =
        report_failure env m.header "salesforce_bronze_write_failed"
          "Salesforce bronze write failed"
          (dict (
            ("error", str e.message)
            ∷ ("sobject", str m.sobject)
            ∷ ("raw_uris", arr m.raw_uris)
            ∷ []))

    abbrev pub salesforce_failed : Error → Exec World Bool
    salesforce_failed e = if is_retryable e then raise e else salesforce_report e

    abbrev pub salesforce_body : Exec World Bool
    salesforce_body =
        if eqb_ℤ m.row_count (pos 0) || is_empty m.raw_uris
        then close_empty m
        else catch write_salesforce_bronze salesforce_failed

  -- `SalesforceBronzeWriter.handle_raw_ready`, of the message at an offset
  unfoldable pub handle_salesforce_ready : Tables → Fields → ℕ → ℕ → Exec World Bool
  handle_salesforce_ready tables fields partition offset = do
    m ← lift (read_raw_ready env.library fields)
    salesforce_body tables m partition offset
