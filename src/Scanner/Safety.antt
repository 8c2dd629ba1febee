-- ===== src/Scanner/Safety.antt =====
-- What `ExcelScanner.handle_record` keeps, whatever the record and the answers of the services.
use fintech_data_platform.Prelude.{ℕ, String}
use fintech_data_platform.Json.{Value, Fields}
use fintech_data_platform.Envelope.{Envelope}
use fintech_data_platform.Exec.{Keeps}
use fintech_data_platform.World.{Env}
use fintech_data_platform.World.Committed.{
  IsStored, StoreIsValid, store_rules, worker_rules, transact-IsStored,
}
use fintech_data_platform.Scanner.Upload.{UploadedObject, parse_minio_record, event_time_of}
use fintech_data_platform.Scanner.Gates.{ScanVerdict, ScannerConfig, Storage}
use fintech_data_platform.Scanner.Handler.{
  open_upload_run, reject_run, record_verdict, scan_object, handle_record,
}

module _ (env : Env) (storage : Storage) (config : ScannerConfig) where
  open_upload_run-IsStored :
      (o : UploadedObject) (run_id trace_id topic : String) (p n : ℕ)
      → Keeps IsStored (open_upload_run env storage config o run_id trace_id topic p n)
  unfolding open_upload_run
  open_upload_run-IsStored o run_id trace_id topic p n =
      transact-IsStored env _ (search store_rules depth 12)

  reject_run-StoreIsValid :
      (o : UploadedObject) (v : ScanVerdict) (run_id : String)
      → Keeps StoreIsValid (reject_run env storage config o v run_id)
  unfolding reject_run
  reject_run-StoreIsValid o v run_id = search store_rules depth 12

  record_verdict-IsStored :
      (o : UploadedObject) (v : ScanVerdict) (e : Envelope) (run_id : String) (place : ℕ × ℕ)
      → Keeps IsStored (record_verdict env storage config o v e run_id place)
  unfolding record_verdict
  record_verdict-IsStored o v e run_id place =
      transact-IsStored env _ (search (store_rules, reject_run-StoreIsValid) depth 12)

  scan_object-IsStored :
      (o : UploadedObject) (topic : String) (p n : ℕ)
      → Keeps IsStored (scan_object env storage config o topic p n)
  unfolding scan_object
  scan_object-IsStored o topic p n =
      search (worker_rules, open_upload_run-IsStored, record_verdict-IsStored) depth 16

  event_time_of-IsStored : (v : Value) → Keeps IsStored (event_time_of env.library env v)
  event_time_of-IsStored v = search worker_rules depth 12

  parse_minio_record-IsStored : (rec : Fields) → Keeps IsStored (parse_minio_record env rec)
  unfolding parse_minio_record
  parse_minio_record-IsStored rec = search (worker_rules, event_time_of-IsStored) depth 12

  -- Whatever the notification, the object, the answers of the object store and of clamd, and the
  -- failures of the outside services, the scanner leaves the event store well formed: unique ids
  -- and triggers of runs, unique positions of events, no dangling reference, and an event for
  -- every run.
  pub handle_record-IsStored :
      (rec : Fields) (topic : String) (p n : ℕ)
      → Keeps IsStored (handle_record env storage config rec topic p n)
  unfolding handle_record
  handle_record-IsStored rec topic p n =
      search (worker_rules, parse_minio_record-IsStored, scan_object-IsStored) depth 8
