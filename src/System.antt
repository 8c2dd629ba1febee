-- ===== src/System.antt =====
-- The components together, on the event store, the object store and the broker that they share: one
-- step is one call of a handler or of a task, or one message of a worker's loop, with any
-- arguments. Within a call the calls of another component are not interleaved.
use fintech_data_platform.Prelude.{ℕ, String, List}
use fintech_data_platform.Json.{Fields}
use fintech_data_platform.World.{Env, World}
use fintech_data_platform.World.Committed.{IsStored}
use fintech_data_platform.Consumer.{Delivered}
use fintech_data_platform.Fraud.Raw.{RawMessage}
use fintech_data_platform.Fraud.Handler.{handle}
use fintech_data_platform.Fraud.Safety.{handle-IsStored}
use fintech_data_platform.Scanner.Gates.{ScannerConfig, Storage}
use fintech_data_platform.Scanner.Handler.{handle_record}
use fintech_data_platform.Scanner.Loop.{process_upload, process_upload-IsStored}
use fintech_data_platform.Ready.Loop.{excel_handler, process_ready, process_ready-IsStored}
use fintech_data_platform.Scanner.Safety.{handle_record-IsStored}
use fintech_data_platform.Excel.Tasks.{Validation}
use fintech_data_platform.Excel.Emit.{validate_upload}
use fintech_data_platform.Excel.Safety.{validate_upload-IsStored}
use fintech_data_platform.Ready.Excel.{Converter, handle_excel_ready}
use fintech_data_platform.Ready.Salesforce.{Tables, handle_salesforce_ready}
use fintech_data_platform.Ready.Safety.{
  handle_excel_ready-IsStored, handle_salesforce_ready-IsStored,
}
use fintech_data_platform.Salesforce.Pull.{Api, pull_sobject}
use fintech_data_platform.Salesforce.Safety.{pull_sobject-IsStored}
use fintech_data_platform.Bronze.Row.{AssessedRecord}
use fintech_data_platform.Bronze.Batches.{Writer}
use fintech_data_platform.Bronze.Publish.{flush_records}
use fintech_data_platform.Bronze.Safety.{flush_records-IsStored}
use fintech_data_platform.Curated.Silver.{SilverState, emit_silver_failure, record_silver_and_emit}
use fintech_data_platform.Curated.Gold.{GoldState, emit_gold_failure, record_gold_and_emit}
use fintech_data_platform.Curated.Silver
use fintech_data_platform.Curated.Gold
use fintech_data_platform.Curated.Safety.{
  emit_gold_failure-IsStored, emit_silver_failure-IsStored, open_gold-IsStored,
  open_silver-IsStored, record_gold_and_emit-IsStored, record_silver_and_emit-IsStored,
}

-- The outside of every component.
pub record Outside : Type 0 where
  pub env : Env
  pub storage : Storage
  pub scanner : ScannerConfig
  pub validation : Validation
  pub converter : Converter
  pub tables : Tables
  pub api : Api
  pub writer : Writer
  pub bucket : String

module _ (o : Outside) where
  pub data Step : World → World → Type 0 where
    assessed : (raw : RawMessage) (w : World) → Step w (handle o.env raw w).1
    scanned :
        (rec : Fields) (topic : String) (p n : ℕ) (w : World)
        → Step w (handle_record o.env o.storage o.scanner rec topic p n w).1
    validated : (conf : Fields) (w : World) → Step w (validate_upload o.env o.validation conf w).1
    excel_written :
        (event : Fields) (w : World) → Step w (handle_excel_ready o.env o.converter event w).1
    salesforce_pulled :
        (sobject logical_ts : String) (w : World)
        → Step w (pull_sobject o.env o.api sobject logical_ts w).1
    salesforce_written :
        (event : Fields) (p n : ℕ) (w : World)
        → Step w (handle_salesforce_ready o.env o.tables event p n w).1
    cdc_flushed :
        (batch : List AssessedRecord) (w : World) → Step w (flush_records o.env o.writer batch w).1
    silver_opened : (conf : Fields) (w : World) → Step w (Silver.open_curated_run o.env conf w).1
    silver_recorded :
        (s : SilverState) (w : World) → Step w (record_silver_and_emit o.env o.bucket s w).1
    silver_failed :
        (conf : Fields) (id : String) (w : World) → Step w (emit_silver_failure o.env conf id w).1
    gold_opened : (conf : Fields) (w : World) → Step w (Gold.open_curated_run o.env conf w).1
    gold_recorded : (s : GoldState) (w : World) → Step w (record_gold_and_emit o.env o.bucket s w).1
    gold_failed :
        (conf : Fields) (id : String) (w : World) → Step w (emit_gold_failure o.env conf id w).1
    upload_taken :
        (m : Delivered) (w : World) → Step w (process_upload o.env o.storage o.scanner m w).1
    excel_taken :
        (m : Delivered) (w : World)
        → Step w (process_ready o.env (excel_handler o.env o.converter) m w).1
    salesforce_taken :
        (m : Delivered) (w : World)
        → Step w (process_ready o.env (handle_salesforce_ready o.env o.tables) m w).1

  pub data Reaches : World → World → Type 0 where
    here : (w : World) → Reaches w w
    next : {u v w : World} → Step u v → Reaches v w → Reaches u w

  step-IsStored : {u v : World} → Step u v → IsStored u → IsStored v
  step-IsStored (assessed raw w) h = (handle-IsStored o.env raw).at w h
  step-IsStored (scanned rec topic p n w) h =
      (handle_record-IsStored o.env o.storage o.scanner rec topic p n).at w h
  step-IsStored (validated conf w) h = (validate_upload-IsStored o.env o.validation conf).at w h
  step-IsStored (excel_written event w) h =
      (handle_excel_ready-IsStored o.env o.converter event).at w h
  step-IsStored (salesforce_pulled sobject ts w) h =
      (pull_sobject-IsStored o.env o.api sobject ts).at w h
  step-IsStored (salesforce_written event p n w) h =
      (handle_salesforce_ready-IsStored o.env o.tables event p n).at w h
  step-IsStored (cdc_flushed batch w) h = (flush_records-IsStored o.env o.writer batch).at w h
  step-IsStored (silver_opened conf w) h = (open_silver-IsStored o.env conf).at w h
  step-IsStored (silver_recorded s w) h = (record_silver_and_emit-IsStored o.env o.bucket s).at w h
  step-IsStored (silver_failed conf id w) h = (emit_silver_failure-IsStored o.env conf id).at w h
  step-IsStored (gold_opened conf w) h = (open_gold-IsStored o.env conf).at w h
  step-IsStored (gold_recorded s w) h = (record_gold_and_emit-IsStored o.env o.bucket s).at w h
  step-IsStored (gold_failed conf id w) h = (emit_gold_failure-IsStored o.env conf id).at w h
  step-IsStored (upload_taken m w) h = process_upload-IsStored o.env o.storage o.scanner m w h
  step-IsStored (excel_taken m w) h =
      process_ready-IsStored o.env (excel_handler o.env o.converter)
        (λ fs p n. handle_excel_ready-IsStored o.env o.converter fs) m w h
  step-IsStored (salesforce_taken m w) h =
      process_ready-IsStored o.env (handle_salesforce_ready o.env o.tables)
        (handle_salesforce_ready-IsStored o.env o.tables) m w h

  -- From a world whose event store is well formed, with an event for every run, every world that
  -- any sequence of calls of the components reaches has such an event store, whatever their
  -- arguments, the answers of the outside and the failures of the services.
  pub reachable-IsStored : {u w : World} → Reaches u w → IsStored u → IsStored w
  reachable-IsStored (here w) h = h
  reachable-IsStored (next step rest) h = reachable-IsStored rest (step-IsStored step h)
