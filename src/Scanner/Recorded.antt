-- ===== src/Scanner/Recorded.antt =====
-- What the scanner has done when it is done with an upload.
use fintech_data_platform.Prelude.{String, ◌≡◌, ◌⊎◌, true, false, if◌then◌else◌}
use fintech_data_platform.Envelope.{Envelope}
use fintech_data_platform.Exec.{ok, ◌>>◌}
use fintech_data_platform.World.{Env, World}
use fintech_data_platform.World.Published.{IsAlerted, IsEnded, IsPublished}
use fintech_data_platform.Scanner.Upload.{UploadedObject}
use fintech_data_platform.Scanner.Gates.{ScanVerdict, ScannerConfig, Storage, run_gates_and_scan}

module _ (env : Env) (storage : Storage) (config : ScannerConfig) where
  -- A rejected object has an alert, and its run is ended as failed.
  abbrev pub IsClosed : ScanVerdict → String → World → Type 0
  IsClosed v run_id w =
      (v.passed ≡ true) ⊎ ((v.passed ≡ false) × IsAlerted run_id w × IsEnded run_id "scan_failed" w)

  abbrev pub topic_of_verdict : ScanVerdict → String
  topic_of_verdict v =
      if v.passed then "ingest.excel.scanned.pass.v1" else "ingest.excel.scanned.fail.v1"

  -- The verdict of an object is sent to its topic, under the key of its run, and logged.
  pub record IsRecorded (o : UploadedObject) (w : World) : Type 0 where
    pub verdict : ScanVerdict
    pub run_id : String
    pub envelope : Envelope
    pub judged : run_gates_and_scan storage config o ≡ ok verdict
    pub of_run : envelope.run_id ≡ run_id
    pub published : IsPublished (topic_of_verdict verdict) run_id envelope w
    pub closed : IsClosed verdict run_id w
