-- ===== src/Tests/Workers.antt =====
-- The theorems on the consumer loops, at short logs.
use fintech_data_platform.Prelude.{
  ℕ, suc, String, ◌≡◌, refl, none, some, List, [], ◌∷◌, count, eqb, if◌then◌else◌, arith, ◌↔◌,
}
use fintech_data_platform.Prelude.Int.{pos}
use fintech_data_platform.Exec.{ok}
use fintech_data_platform.Json.{Fields, dict, end, int, obj, str}
use fintech_data_platform.Scanner.Handler.{handle_record}
use fintech_data_platform.Library.{aware}
use fintech_data_platform.World.{World}
use fintech_data_platform.World.Committed.{IsStored}
use fintech_data_platform.Consumer.{
  Outcome, handled, failed, Turn, poll, restart, Delivered, Session, run,
}
use fintech_data_platform.Consumer.Laws.{
  IsSound, is_at, run-IsSound, past_committed, failure_is_skipped,
}
use fintech_data_platform.Fraud.Flags.{HasUniqueFlags}
use fintech_data_platform.Fraud.Loop.{process_raw, fraud_worker_leaves}
use fintech_data_platform.Scanner.Upload.{UploadedObject}
use fintech_data_platform.Scanner.Gates.{
  ScannerConfig, Storage, default_allowed_content_types, pass, run_gates_and_scan,
}
use fintech_data_platform.Scanner.Verdicts.{IsClean, passes_iff_IsClean}
use fintech_data_platform.Tests.Sample.{sample_env, seeded, seeded-IsStored}

abbrev message : String → Delivered
message text = record {
  topic = "cdc.oltp.raw.v1";
  partition = 0;
  offset = 0;
  key = ok none;
  value = some text;
}

abbrev log : List Delivered
log = message "change" ∷ record (message "") { value = none } ∷ message "change" ∷ []

abbrev turns : List Turn
turns = poll ∷ poll ∷ restart ∷ poll ∷ []

abbrev new_session : Session World
new_session = record { position = 0; committed = 0; attempts = []; state = seeded }

fraud_worker_leaves_example :
    IsStored (run (process_raw sample_env) log turns new_session).state
    × HasUniqueFlags (run (process_raw sample_env) log turns new_session).state
fraud_worker_leaves_example =
    fraud_worker_leaves sample_env log turns new_session seeded-IsStored tt

abbrev pub sample_storage : Storage
sample_storage = record {
  stat = λ bucket key. ok end;
  probe = λ bucket key. ok (80 ∷ 75 ∷ 3 ∷ 4 ∷ []);
  scan = λ bucket key. ok (some ("OK", none));
}

abbrev pub sample_config : ScannerConfig
sample_config = record {
  max_bytes = 1000;
  allowed_content_types = default_allowed_content_types;
  scan_engine_version = "1";
}

abbrev upload : UploadedObject
upload = record {
  bucket = "ingest";
  object_key = "payroll.xlsx";
  etag = "e";
  size_bytes = pos 1000;
  content_type = "application/vnd.ms-excel.sheet.macroEnabled.12";
  uploader_principal = "u";
  event_time = aware 0;
}

passes_iff_IsClean_example :
    IsClean sample_storage sample_config upload
    ↔ (run_gates_and_scan sample_storage sample_config upload ≡ ok pass)
passes_iff_IsClean_example = passes_iff_IsClean sample_storage sample_config upload

-- A handler that fails on one message; its state counts the calls.
abbrev fails_on : ℕ → ℕ → ℕ → Outcome × ℕ
fails_on bad m calls = (if eqb m bad then failed else handled, suc calls)

abbrev counting : Session ℕ
counting = record { position = 0; committed = 0; attempts = []; state = 0 }

counting-IsSound : IsSound counting
counting-IsSound = record { ahead = omega arith; reached = λ k lt. absurd (omega (arith, lt)) }

run-IsSound_example : IsSound (run (fails_on 4) (4 ∷ 5 ∷ []) turns counting)
run-IsSound_example = run-IsSound (fails_on 4) (4 ∷ 5 ∷ []) turns counting counting-IsSound

failure_is_skipped_example :
    count (is_at 0) (run (fails_on 4) (4 ∷ 5 ∷ []) (poll ∷ poll ∷ turns) counting).attempts
    ≡ suc (count (is_at 0) counting.attempts)
failure_is_skipped_example =
    failure_is_skipped (fails_on 4) (4 ∷ 5 ∷ []) counting 4 5 refl refl turns refl refl

abbrev halfway : Session ℕ
halfway = record { position = 1; committed = 1; attempts = (0, handled) ∷ []; state = 1 }

past_committed_example :
    count (is_at 0) (run (fails_on 4) (4 ∷ 5 ∷ []) turns halfway).attempts
    ≡ count (is_at 0) halfway.attempts
past_committed_example =
    past_committed (fails_on 4) (4 ∷ 5 ∷ []) 0 turns halfway (omega arith) (omega arith)

-- An object of a content type that is not allowed.
abbrev uploaded_record : Fields
uploaded_record = dict (
    (
      "s3",
      obj (
          dict (
            ("bucket", obj (dict (("name", str "ingest") ∷ [])))
            ∷ (
              "object",
              obj (
                  dict (
                    ("key", str "notes.txt")
                    ∷ ("eTag", str "e")
                    ∷ ("size", int (pos 10))
                    ∷ ("contentType", str "text/plain")
                    ∷ [])),
            )
            ∷ [])),
    )
    ∷ ("eventTime", str "2026-01-01T00:00:00Z")
    ∷ [])

abbrev rejected_world : World
rejected_world =
    (handle_record sample_env sample_storage sample_config uploaded_record "minio" 0 0 seeded).1
