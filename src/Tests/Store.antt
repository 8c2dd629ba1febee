-- ===== src/Tests/Store.antt =====
-- The theorems on the event store, at a store of a few rows.
use fintech_data_platform.Prelude.{
  ℕ, String, ◌≡◌, refl, ◌≢◌, true, false, Option, none, some, [], ◌∷◌, find, eq_iff,
}
use fintech_data_platform.Prelude.Int.{pos}
use fintech_data_platform.Prelude.Text.{is_trimmed_empty}
use fintech_data_platform.Json.{end}
use fintech_data_platform.Envelope.{Envelope, EventSource, PipelineClass, PipelineName}
use fintech_data_platform.Exec.{ErrorKind, Keeps, ok, err}
use fintech_data_platform.EventStore.{
  Db, NewRun, SfCursor, empty_db, is_run, open_run, open_run_insert, open_run_select_existing,
  close_run, append_event, insert_event, event_of, check_run, domain_check, not_own_parent,
  parent_exists, row_of, latest_sf_cursor, violation,
}
use fintech_data_platform.EventStore.Idempotence.{open_run_once, open_run_failure, close_run_exact}
use fintech_data_platform.EventStore.Positions.{Appends, append_event_outcome, append_event_again}
use fintech_data_platform.EventStore.Cursor.{IsRead, latest_sf_cursor-IsLatest}
use fintech_data_platform.EventStore.Invariant.{IsValid, open_run-IsValid, append_event-IsValid}
use fintech_data_platform.World.{transact, on_store}
use fintech_data_platform.World.Committed.{IsStored, transact-IsStored, on_store-StoreIsValid}
use fintech_data_platform.Tests.Sample.{sample_env}

abbrev asked : NewRun
asked = record {
  run_id = "r-1";
  pipeline_class = PipelineClass.ingestion;
  pipeline_name = PipelineName.cdc_ingestion;
  source_system = "cdc";
  trigger_type = "cdc_raw_event";
  trigger_event_ref = "raw:0:7";
  initiator = "fraud_worker";
  status = "running";
  parent_run_id = none;
}

-- The same trigger, asked for by a replay.
abbrev asked_again : NewRun
asked_again = record asked { run_id = "r-2"; trigger_type = "backfill" }

abbrev opened : Db
opened = record empty_db { runs = row_of asked ∷ []; inserted = "r-1" ∷ [] }

opens : open_run asked empty_db ≡ (ok "r-1", opened)
unfolding open_run open_run_insert open_run_select_existing check_run domain_check not_own_parent
    parent_exists is_trimmed_empty
opens = refl

checks : check_run (row_of asked_again) ≡ true
unfolding check_run domain_check not_own_parent is_trimmed_empty
checks = refl

open_run_once_example : open_run asked_again opened ≡ (ok "r-1", opened)
open_run_once_example = open_run_once asked asked_again empty_db opened "r-1" opens refl refl checks

abbrev misplaced : NewRun
misplaced = record asked { source_system = "excel" }

misplaced_fails : (open_run misplaced empty_db).0 ≡ err (violation "pipeline_run check")
unfolding open_run open_run_insert check_run domain_check not_own_parent is_trimmed_empty
misplaced_fails = refl

open_run_failure_example :
    ((violation "pipeline_run check").kind ≡ ErrorKind.integrity_error)
    × ((open_run misplaced empty_db).1 ≡ empty_db)
open_run_failure_example =
    open_run_failure misplaced empty_db (violation "pipeline_run check") misplaced_fails

abbrev second_id : String
second_id = "r-2"

other_id : second_id ≢ "r-1"
other_id = λ e. not_both ((eq_iff second_id "r-1").1 e)
  where
    not_both : false ≡ true → ⊥
    not_both h = cc

close_run_exact_example :
    (find (is_run "r-1") (close_run "r-1" "completed" 9 opened).1.runs
      ≡ some (record (row_of asked) { status = "completed"; completed_at = some 9 }))
    × (find (is_run "r-2") (close_run "r-1" "completed" 9 opened).1.runs
        ≡ find (is_run "r-2") opened.runs)
close_run_exact_example =
    close_run_exact "r-1" "r-2" "completed" 9 opened (row_of asked) refl other_id

abbrev pub sample_envelope : Envelope
sample_envelope = record {
  event_id = "e-1";
  event_type = "cdc.oltp.assessed.v1";
  source = EventSource.cdc;
  run_id = "r-1";
  pipeline_class = PipelineClass.ingestion;
  pipeline_name = PipelineName.cdc_ingestion;
  parent_run_id = none;
  trigger_event_ref = "raw:0:7";
  trace_id = "t";
  occurred_at = 5;
  version = "1";
  payload_hash = "h";
  payload = end;
}

abbrev logged : Db
logged = record opened { events = event_of sample_envelope "assessed" (pos 0) (pos 3) ∷ [] }

appends : append_event sample_envelope "assessed" (pos 0) (pos 3) opened ≡ (ok true, logged)
unfolding append_event insert_event
appends = refl

append_event_outcome_example :
    Appends
      (event_of sample_envelope "assessed" (pos 0) (pos 3))
      opened
      (append_event sample_envelope "assessed" (pos 0) (pos 3) opened)
append_event_outcome_example =
    append_event_outcome sample_envelope "assessed" (pos 0) (pos 3) opened

append_event_again_example :
    append_event (record sample_envelope { event_id = "e-2" }) "assessed" (pos 0) (pos 3) logged
    ≡ (ok false, logged)
append_event_again_example =
    append_event_again sample_envelope (record sample_envelope { event_id = "e-2" }) "assessed"
      (pos 0) (pos 3) refl opened logged true appends

abbrev cursor_at : ℕ → SfCursor
cursor_at t = record {
  run_id = "r-1";
  sobject = "Account";
  cursor_ts = t;
  cursor_id = "001";
  kafka_partition = pos 0;
  offset_start = pos 0;
  offset_end = pos 9;
  record_count = 10;
  recorded_at = t;
}

abbrev pulled : Db
pulled = record opened { sf_cursors = cursor_at 2 ∷ cursor_at 8 ∷ [] }

latest_sf_cursor-IsLatest_example :
    (o : Option (ℕ × String)) × (latest_sf_cursor "Account" pulled ≡ (ok o, pulled))
    × IsRead "Account" pulled.sf_cursors o
latest_sf_cursor-IsLatest_example = latest_sf_cursor-IsLatest "Account" pulled

open_run-IsValid_example : Keeps IsValid (open_run asked)
open_run-IsValid_example = open_run-IsValid asked

append_event-IsValid_example :
    Keeps IsValid (append_event sample_envelope "assessed" (pos 0) (pos 3))
append_event-IsValid_example = append_event-IsValid sample_envelope "assessed" (pos 0) (pos 3)

transact-IsStored_example : Keeps IsStored (transact sample_env (on_store (open_run asked)))
transact-IsStored_example =
    transact-IsStored sample_env (on_store (open_run asked))
      (on_store-StoreIsValid (open_run asked) (open_run-IsValid asked))
