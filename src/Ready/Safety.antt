-- ===== src/Ready/Safety.antt =====
-- What the handlers of the two bronze writers keep, whatever the event and the answers of the
-- services.
use fintech_data_platform.Prelude.{ℕ, String, List, [], ◌∷◌}
use fintech_data_platform.Json.{Items, nil, cons, Fields}
use fintech_data_platform.Envelope.{Envelope}
use fintech_data_platform.Exec.{Error, Keeps, Keeps-bind, Keeps-lift, Keeps-pure, lift}
use fintech_data_platform.EventStore.{SfCursor}
use fintech_data_platform.Library.{a_text}
use fintech_data_platform.Lake.{read_uri, read_uri-IsStored, write_uri-IsStored}
use fintech_data_platform.World.{Env}
use fintech_data_platform.World.Committed.{
  IsStored, StoreIsValid, store_rules, transact-IsStored, worker_rules,
}
use fintech_data_platform.Ready.Excel.{
  Converter, Header, excel_failed, finalize_excel, handle_excel_ready, report_failure, end_run,
  record_excel, record_failure, write_converted, write_excel_bronze,
}
use fintech_data_platform.Ready.Salesforce.{
  RawReady, Tables, close_empty, finalize_salesforce, handle_salesforce_ready, read_pages,
  salesforce_body, salesforce_failed, record_salesforce, write_records, write_salesforce_bronze,
  write_table_of,
}

module _ (env : Env) where
  end_run-StoreIsValid : (h : Header) (status : String) → Keeps StoreIsValid (end_run env h status)
  end_run-StoreIsValid h status = search store_rules depth 12

  record_excel-StoreIsValid :
      (h : Header) (e : Envelope) (place : ℕ × ℕ) → Keeps StoreIsValid (record_excel env h e place)
  record_excel-StoreIsValid h e (p, n) = search (store_rules, end_run-StoreIsValid) depth 12

  record_failure-StoreIsValid :
      (h : Header) (category summary : String) (details : Fields)
      → Keeps StoreIsValid (record_failure env h category summary details)
  record_failure-StoreIsValid h category summary details =
      search (store_rules, end_run-StoreIsValid) depth 12

  finalize_excel-IsStored :
      (h : Header) (e : Envelope) (place : ℕ × ℕ) → Keeps IsStored (finalize_excel env h e place)
  unfolding finalize_excel
  finalize_excel-IsStored h e place =
      search (worker_rules, transact-IsStored, record_excel-StoreIsValid) depth 16

  report_failure-IsStored :
      (h : Header) (category summary : String) (details : Fields)
      → Keeps IsStored (report_failure env h category summary details)
  unfolding report_failure
  report_failure-IsStored h category summary details =
      search (worker_rules, transact-IsStored, record_failure-StoreIsValid) depth 16

  write_converted-IsStored :
      (h : Header) (uri : String) (c : String × ℕ × String)
      → Keeps IsStored (write_converted env h uri c)
  unfolding write_converted
  write_converted-IsStored h uri (bytes, n, fingerprint) =
      search (worker_rules, write_uri-IsStored, finalize_excel-IsStored) depth 16

  excel_failed-IsStored : (h : Header) (e : Error) → Keeps IsStored (excel_failed env h e)
  excel_failed-IsStored h e = search (worker_rules, report_failure-IsStored) depth 16

module _ (env : Env) (converter : Converter) where
  write_excel_bronze-IsStored : (h : Header) → Keeps IsStored (write_excel_bronze env converter h)
  unfolding write_excel_bronze
  write_excel_bronze-IsStored h =
      search (worker_rules, read_uri-IsStored, write_converted-IsStored) depth 16

  pub handle_excel_ready-IsStored :
      (fields : Fields) → Keeps IsStored (handle_excel_ready env converter fields)
  unfolding handle_excel_ready
  handle_excel_ready-IsStored fields =
      search (worker_rules, write_excel_bronze-IsStored, excel_failed-IsStored) depth 16

module _ (env : Env) where
  record_salesforce-StoreIsValid :
      (m : RawReady) (e : Envelope) (c : SfCursor) (place : ℕ × ℕ)
      → Keeps StoreIsValid (record_salesforce env m e c place)
  record_salesforce-StoreIsValid m e c (p, n) = search (store_rules, end_run-StoreIsValid) depth 12

  finalize_salesforce-IsStored :
      (m : RawReady) (e : Envelope) (c : SfCursor) (place : ℕ × ℕ)
      → Keeps IsStored (finalize_salesforce env m e c place)
  unfolding finalize_salesforce
  finalize_salesforce-IsStored m e c place =
      search (worker_rules, transact-IsStored, record_salesforce-StoreIsValid) depth 16

  close_empty-IsStored : (m : RawReady) → Keeps IsStored (close_empty env m)
  unfolding close_empty
  close_empty-IsStored m = search (worker_rules, transact-IsStored, end_run-StoreIsValid) depth 16

  read_pages-IsStored : (uris : Items) → Keeps IsStored (read_pages env uris)
  unfolding read_pages
  read_pages-IsStored nil = Keeps-pure nil
  read_pages-IsStored (cons uri uris) =
      Keeps-bind (lift (a_text uri)) _ (Keeps-lift (a_text uri)) (λ text.
        Keeps-bind (read_uri env text) _ (read_uri-IsStored env text) (λ body.
          Keeps-bind _ _ (Keeps-lift _) (λ records.
            Keeps-bind (read_pages env uris) _ (read_pages-IsStored uris) (λ rest. Keeps-pure _))))

module _ (env : Env) (tables : Tables) (m : RawReady) (partition offset : ℕ) where
  write_table_of-IsStored :
      (r : Fields) (rs : List Fields) (t : String × String)
      → Keeps IsStored (write_table_of env tables m partition offset r rs t)
  write_table_of-IsStored r rs (bytes, fingerprint) =
      search (worker_rules, write_uri-IsStored, finalize_salesforce-IsStored) depth 24

  write_records-IsStored :
      (rs : List Fields) → Keeps IsStored (write_records env tables m partition offset rs)
  write_records-IsStored [] = close_empty-IsStored env m
  write_records-IsStored (r ∷ rs) = search (worker_rules, write_table_of-IsStored) depth 16

  write_salesforce_bronze-IsStored :
      Keeps IsStored (write_salesforce_bronze env tables m partition offset)
  unfolding write_salesforce_bronze
  write_salesforce_bronze-IsStored =
      search (worker_rules, read_pages-IsStored, write_records-IsStored) depth 16

  salesforce_failed-IsStored :
      (e : Error) → Keeps IsStored (salesforce_failed env tables m partition offset e)
  salesforce_failed-IsStored e = search (worker_rules, report_failure-IsStored) depth 16

  salesforce_body-IsStored : Keeps IsStored (salesforce_body env tables m partition offset)
  salesforce_body-IsStored =
      search
        (
          worker_rules, close_empty-IsStored, write_salesforce_bronze-IsStored,
          salesforce_failed-IsStored,
        )
        depth 16

module _ (env : Env) (tables : Tables) where
  pub handle_salesforce_ready-IsStored :
      (fields : Fields) (partition offset : ℕ)
      → Keeps IsStored (handle_salesforce_ready env tables fields partition offset)
  unfolding handle_salesforce_ready
  handle_salesforce_ready-IsStored fields partition offset =
      search (worker_rules, salesforce_body-IsStored) depth 16
