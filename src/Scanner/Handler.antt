-- ===== src/Scanner/Handler.antt =====
-- services/workers/excel_scanner/scanner.py: `ExcelScanner.handle_record`.
use fintech_data_platform.Prelude.{
  ℕ, String, Bool, false, ◌==◌, Option, none, some, [], ◌∷◌, if◌then◌else◌,
}
use fintech_data_platform.Prelude.Int.{pos}
use fintech_data_platform.Prelude.Text.{concat}
use fintech_data_platform.Json.{int, str, arr, Fields, dict, strings, opt_str}
use fintech_data_platform.Library.{aware}
use fintech_data_platform.Envelope.{Envelope, EventSource, PipelineClass, PipelineName}
use fintech_data_platform.Exec.{Exec, Result, ok, err, pure, lift, ◌>>=◌, ◌>>◌}
use fintech_data_platform.EventStore.{Alert, open_run, close_run, append_event, raise_alert}
use fintech_data_platform.World.{
  World, Env, Draft, on_store, draw_uuid, draw_time, build, produce, transact,
}
use fintech_data_platform.Scanner.Upload.{
  UploadedObject, upload_ref, parse_minio_record, extract_uploader_from_stat,
  infer_schema_contract_id,
}
use fintech_data_platform.Scanner.Gates.{ScanVerdict, ScannerConfig, Storage, run_gates_and_scan}

abbrev pub topic_uploaded : String
topic_uploaded = "ingest.excel.uploaded.v1"

abbrev pub topic_scan_pass : String
topic_scan_pass = "ingest.excel.scanned.pass.v1"

abbrev pub topic_scan_fail : String
topic_scan_fail = "ingest.excel.scanned.fail.v1"

abbrev pub topic_of : ScanVerdict → String
topic_of v = if v.passed then topic_scan_pass else topic_scan_fail

abbrev with_uploader : UploadedObject → Option String → UploadedObject
with_uploader o none = o
with_uploader o (some name) = record o { uploader_principal = name }

-- A failed `stat` is logged and passed over.
abbrev pub attributed : UploadedObject → Result Fields → UploadedObject
attributed o (err e) = o
attributed o (ok stat) = with_uploader o (extract_uploader_from_stat stat)

abbrev reason_text : ScanVerdict → String
reason_text v = elim v.reason [ none ↦ "None" | some r ↦ r ]

abbrev is_malware : ScanVerdict → Bool
is_malware v = elim v.reason [ none ↦ false | some r ↦ r == "malware" ]

-- `_build_uploaded_envelope`
unfoldable pub uploaded_draft : UploadedObject → String → String → Draft
uploaded_draft o run_id trace_id = record {
  event_id = none;
  event_type = topic_uploaded;
  source = EventSource.excel;
  run_id = run_id;
  pipeline_class = PipelineClass.ingestion;
  pipeline_name = PipelineName.excel_ingestion;
  parent_run_id = none;
  trigger_event_ref = upload_ref o;
  trace_id = trace_id;
  occurred_at = some o.event_time;
  payload = dict (
      ("message", str (concat ("Excel upload received: " ∷ o.object_key ∷ [])))
      ∷ ("stage", str "raw")
      ∷ ("bucket", str o.bucket)
      ∷ ("object_key", str o.object_key)
      ∷ ("uploader_principal", str o.uploader_principal)
      ∷ ("content_type", str o.content_type)
      ∷ ("size_bytes", int o.size_bytes)
      ∷ []);
}

-- `_build_scanned_envelope`, at the time that it takes from the clock
unfoldable pub scanned_draft :
    ScannerConfig → UploadedObject → ScanVerdict → String → String → ℕ → Draft
unfolding infer_schema_contract_id
scanned_draft config o v run_id trace_id now = record {
  event_id = none;
  event_type = topic_of v;
  source = EventSource.excel;
  run_id = run_id;
  pipeline_class = PipelineClass.ingestion;
  pipeline_name = PipelineName.excel_ingestion;
  parent_run_id = none;
  trigger_event_ref = upload_ref o;
  trace_id = trace_id;
  occurred_at = some (aware now);
  payload = dict (
      (
        "message",
        str (
            if v.passed
            then concat ("Excel upload " ∷ o.object_key ∷ " passed scan" ∷ [])
            else concat ("Excel upload " ∷ o.object_key ∷ " rejected: " ∷ reason_text v ∷ [])),
      )
      ∷ ("scan_engine", str "clamav")
      ∷ ("scan_version", str config.scan_engine_version)
      ∷ ("scan_result", str (if v.passed then "pass" else "fail"))
      ∷ ("failure_reason", opt_str v.reason)
      ∷ ("bucket", str o.bucket)
      ∷ ("object_key", str o.object_key)
      ∷ ("schema_contract_id", str (infer_schema_contract_id o.object_key))
      ∷ ("input_uris", arr (strings (concat ("s3://" ∷ o.bucket ∷ "/" ∷ o.object_key ∷ []) ∷ [])))
      ∷ []);
}

module _ (env : Env) (storage : Storage) (config : ScannerConfig) where
  -- The run and the "uploaded" event, at the position where the notification was read.
  unfoldable pub open_upload_run :
      UploadedObject → String → String → String → ℕ → ℕ → Exec World String
  open_upload_run o run_id trace_id source_topic partition offset = transact env (do
    id ← on_store (
        open_run (record {
          run_id = run_id;
          pipeline_class = PipelineClass.ingestion;
          pipeline_name = PipelineName.excel_ingestion;
          source_system = "excel";
          trigger_type = "minio_object_created";
          trigger_event_ref = upload_ref o;
          initiator = o.uploader_principal;
          status = "running";
          parent_run_id = none;
        }))
    uploaded ← build env (uploaded_draft o id trace_id)
    inserted ← on_store (append_event uploaded source_topic (pos partition) (pos offset))
    pure id)

  abbrev pub reject_alert : UploadedObject → ScanVerdict → String → ℕ → Alert
  reject_alert o v run_id at = record {
    run_id = run_id;
    severity = if is_malware v then "high" else "medium";
    category = "excel_scan_failed";
    summary = concat ("Excel upload rejected: " ∷ reason_text v ∷ []);
    details = dict (
        ("object_key", str o.object_key)
        ∷ ("reason", opt_str v.reason)
        ∷ ("detail", opt_str v.detail)
        ∷ []);
    occurred_at = at;
  }

  -- the alert and the end of the run of an object that is rejected
  unfoldable pub reject_run : UploadedObject → ScanVerdict → String → Exec World (Unit {0})
  reject_run o v run_id = if v.passed then pure tt else (do
    at ← draw_time env
    on_store (raise_alert (reject_alert o v run_id at))
    done ← draw_time env
    on_store (close_run run_id "scan_failed" done))

  abbrev pub recorded :
      UploadedObject → ScanVerdict → Envelope → String → ℕ → ℕ → Exec World (Unit {0})
  recorded o v envelope run_id partition offset = do
    inserted ← on_store (append_event envelope (topic_of v) (pos partition) (pos offset))
    reject_run o v run_id

  unfoldable pub record_verdict :
      UploadedObject → ScanVerdict → Envelope → String → ℕ × ℕ → Exec World (Unit {0})
  record_verdict o v envelope run_id (partition, offset) =
      transact env (recorded o v envelope run_id partition offset)

  -- from the parsed and attributed object on
  unfoldable pub scan_object : UploadedObject → String → ℕ → ℕ → Exec World (Unit {0})
  scan_object o source_topic partition offset = do
    fresh_run_id ← draw_uuid env
    trace_id ← draw_uuid env
    run_id ← open_upload_run o fresh_run_id trace_id source_topic partition offset
    v ← lift (run_gates_and_scan storage config o)
    now ← draw_time env
    scanned ← build env (scanned_draft config o v run_id trace_id now)
    place ← produce env (topic_of v) scanned run_id
    record_verdict o v scanned run_id place

  -- `ExcelScanner.handle_record`
  unfoldable pub handle_record : Fields → String → ℕ → ℕ → Exec World (Unit {0})
  handle_record rec source_topic partition offset = do
    o ← parse_minio_record env rec
    scan_object (attributed o (storage.stat o.bucket o.object_key)) source_topic partition offset
