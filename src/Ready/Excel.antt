-- ===== src/Ready/Excel.antt =====
-- services/workers/excel_bronze_writer/writer.py: `ExcelBronzeWriter.handle_raw_ready`.
use fintech_data_platform.Prelude.{
  ℕ, String, Bool, true, false, Option, none, some, ◌==◌, [], ◌∷◌, if◌then◌else◌,
}
use fintech_data_platform.Prelude.Int.{pos}
use fintech_data_platform.Prelude.Text.{concat}
use fintech_data_platform.Json.{
  Value, null, str, int, arr, obj, nil, cons, Fields, field, dict, get, strings, truthy,
}
use fintech_data_platform.Library.{Library, str_of, dict_or_empty, item}
use fintech_data_platform.Envelope.{Envelope, EventSource, PipelineClass, PipelineName}
use fintech_data_platform.Exec.{
  Error, ErrorKind, Exec, Result, catch, err, failure, lift, ok, pure, raise, ◌>>=◌, ◌>>◌, ◌>>>◌,
}
use fintech_data_platform.EventStore.{append_event, close_run, raise_alert}
use fintech_data_platform.World.{Draft, Env, World, build, draw_time, on_store, produce, transact}
use fintech_data_platform.Lake.{read_uri, write_uri}
use fintech_data_platform.Ready.Uris.{excel_bronze_uri}

abbrev pub topic_excel_bronze_ready : String
topic_excel_bronze_ready = "ingest.excel.bronze.ready.v1"

-- The ids of the message, which are read before the `try`.
pub record Header : Type 0 where
  pub run_id : String
  pub run_id_text : String
  pub trace_id : String
  pub trigger_event_ref : String
  pub payload : Fields

-- `Converter.to_parquet`, which is pandas': the bytes, the number of rows and the fingerprint
pub record Converter : Type 0 where
  pub to_parquet : String → Result (String × ℕ × String)

abbrev pub parsed_uuid : Option String → Result String
parsed_uuid none = err (failure ErrorKind.value_error "badly formed hexadecimal UUID string")
parsed_uuid (some id) = ok id

module _ (lib : Library) where
  -- `UUID(text)`
  abbrev pub uuid : String → Result String
  uuid text = parsed_uuid (lib.uuid_of text)

  -- `str(envelope_dict[k])`
  abbrev pub text_item : String → Fields → Result String
  text_item k env = item k (obj env) >>> λ v. ok (str_of lib v)

  unfoldable pub read_header : Fields → Result Header
  unfolding str_of
  read_header env = text_item "run_id" env >>> λ run_text.
      text_item "trace_id" env >>> λ trace_text. text_item "trigger_event_ref" env >>> λ ref.
      dict_or_empty (get "payload" env) >>> λ payload. uuid run_text >>> λ run_id.
      uuid trace_text >>> λ trace_id. ok (record {
        run_id = run_id;
        run_id_text = run_text;
        trace_id = trace_id;
        trigger_event_ref = ref;
        payload = payload;
      })

-- `text[0]` of a text
abbrev first_letter : String → Value
first_letter String.[] = null
first_letter (String.◌∷◌ c s) = str (String.◌∷◌ c String.[])

-- `(payload.get("output_uris") or [None])[0]`
abbrev pub first_uri : Value → Result Value
first_uri (arr nil) = ok null
first_uri (arr (cons v vs)) = ok v
first_uri (obj (field k v fs)) = err (failure ErrorKind.key_error "0")
first_uri (str s) = ok (first_letter s)
first_uri v =
    if truthy v then err (failure ErrorKind.type_error "object is not subscriptable") else ok null

abbrev missing_uri : Error
missing_uri = failure ErrorKind.value_error "raw.ready payload missing output_uris[0]"

-- what `read_uri` takes: another value than a text has no URI
abbrev pub uri_text : Value → Result String
uri_text (str s) = if s == "" then err missing_uri else ok s
uri_text v = if truthy v then err (failure ErrorKind.type_error "not a URI") else err missing_uri

-- `raise RetryableFinalizationError(...) from exc`
abbrev pub retryable : Error → Error
retryable e = failure ErrorKind.retryable_error "bronze ready published but finalization failed"

abbrev pub is_retryable : Error → Bool
is_retryable e = elim e.kind [ ErrorKind.retryable_error ↦ true | _ ↦ false ]

module _ (env : Env) where
  unfoldable pub excel_draft : Header → String → String → ℕ → String → Draft
  excel_draft h raw_uri bronze_uri record_count fingerprint = record {
    event_id = none;
    event_type = topic_excel_bronze_ready;
    source = EventSource.excel;
    run_id = h.run_id;
    pipeline_class = PipelineClass.ingestion;
    pipeline_name = PipelineName.excel_ingestion;
    parent_run_id = none;
    trigger_event_ref = h.trigger_event_ref;
    trace_id = h.trace_id;
    occurred_at = none;
    payload = dict (
        ("message", str (concat ("Excel raw transformed to bronze parquet: " ∷ bronze_uri ∷ [])))
        ∷ ("stage", str "bronze")
        ∷ ("format", str "parquet")
        ∷ ("input_uris", arr (strings (raw_uri ∷ [])))
        ∷ ("output_uris", arr (strings (bronze_uri ∷ [])))
        ∷ ("record_count", int (pos record_count))
        ∷ ("parquet_schema_fingerprint", str fingerprint)
        ∷ ("transform_id", str "excel_to_parquet")
        ∷ ("transform_version", str "v1")
        ∷ []);
  }

  -- the end of the run, in a transaction of its caller
  abbrev pub end_run : Header → String → Exec World Unit
  end_run h status = do done ← draw_time env; on_store (close_run h.run_id status done)

  abbrev pub record_excel : Header → Envelope → ℕ × ℕ → Exec World Unit
  record_excel h envelope (partition, offset) = do
    inserted ←
        on_store (append_event envelope topic_excel_bronze_ready (pos partition) (pos offset))
    end_run h "completed"

  -- The event in the event log and the end of the run; a failure here is retryable.
  unfoldable pub finalize_excel : Header → Envelope → ℕ × ℕ → Exec World Bool
  finalize_excel h envelope place =
      catch (transact env (record_excel h envelope place)) (λ e. raise (retryable e)) >> pure true

  unfoldable pub write_converted : Header → String → String × ℕ × String → Exec World Bool
  write_converted h raw_uri (bytes, record_count, fingerprint) = do
    bronze_uri ← lift (excel_bronze_uri env.library raw_uri)
    write_uri env bronze_uri bytes
    envelope ← build env (excel_draft h raw_uri bronze_uri record_count fingerprint)
    place ← produce env topic_excel_bronze_ready envelope h.run_id_text
    finalize_excel h envelope place

  abbrev pub record_failure : Header → String → String → Fields → Exec World Bool
  record_failure h category summary details = do
    at ← draw_time env
    on_store (
        raise_alert (record {
          run_id = h.run_id;
          severity = "high";
          category = category;
          summary = summary;
          details = details;
          occurred_at = at;
        }))
    end_run h "failed"
    pure false

  -- the alert and the end of the run, in one transaction whose failure is passed over
  unfoldable pub report_failure : Header → String → String → Fields → Exec World Bool
  report_failure h category summary details =
      catch (transact env (record_failure h category summary details)) (λ e. pure false)

  abbrev pub excel_report : Header → Error → Value → Exec World Bool
  excel_report h e raw_uri =
      report_failure h "excel_bronze_write_failed" "Excel bronze write failed"
        (dict (("error", str e.message) ∷ ("raw_uri", raw_uri) ∷ []))

  abbrev pub excel_failed : Header → Error → Exec World Bool
  excel_failed h e =
      if is_retryable e
      then raise e
      else lift (first_uri (get "output_uris" h.payload)) >>= excel_report h e

module _ (env : Env) (converter : Converter) where
  -- the body of the `try`
  unfoldable pub write_excel_bronze : Header → Exec World Bool
  write_excel_bronze h = do
    raw_uri ← lift (first_uri (get "output_uris" h.payload) >>> uri_text)
    xlsx ← read_uri env raw_uri
    converted ← lift (converter.to_parquet xlsx)
    write_converted env h raw_uri converted

  -- `ExcelBronzeWriter.handle_raw_ready`
  unfoldable pub handle_excel_ready : Fields → Exec World Bool
  unfolding read_header
  handle_excel_ready fields = do
    h ← lift (read_header env.library fields)
    catch (write_excel_bronze h) (excel_failed env h)
