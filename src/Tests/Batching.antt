-- ===== src/Tests/Batching.antt =====
-- The theorems on the bronze writer, at a batch of two records.
use fintech_data_platform.Prelude.{
  ℕ, String, ◌≡◌, ◌==◌, arith, refl, Bool, true, false, none, some, List, [], ◌∷◌, count, All,
  length, leb, if◌then◌else◌,
}
use fintech_data_platform.Json.{null, str, nil, obj}
use fintech_data_platform.Exec.{Error, ErrorKind, ok, err, failure}
use fintech_data_platform.Library.{str_of}
use fintech_data_platform.World.{World, draw_time, external}
use fintech_data_platform.Consumer.{Delivered}
use fintech_data_platform.Bronze.Row.{
  AssessedRecord, BatchRow, rows_of, assessed_record_to_row, coerce_float, coerce_int,
}
use fintech_data_platform.Bronze.Flush.{
  Table, FlushResult, build_flush, grouped, sort_tables, sorted_onto, sorts_before,
}
use fintech_data_platform.Bronze.Batches.{Writer, write_batches, write_tables, write_batch}
use fintech_data_platform.Bronze.Publish.{flush_records, publish_batch}
use fintech_data_platform.Prelude.Text.{text_less}
use fintech_data_platform.Bronze.Loop.{poll, timeout, restart, BatchSession, batch_run, batch_turn}
use fintech_data_platform.Bronze.Sorting.{IsSorted}
use fintech_data_platform.Bronze.Grouping.{all_rows, build_flush_lem}
use fintech_data_platform.Bronze.Offsets.{Covers, write_batch_lem}
use fintech_data_platform.Bronze.Losses.{tombstone_loses_batch, failed_batch_is_lost}
use fintech_data_platform.Bronze.Passed.{IsPassed}
use fintech_data_platform.Bronze.Recorded
use fintech_data_platform.Bronze.Batches.{PreparedBatch}
use fintech_data_platform.Tests.Store.{sample_envelope}
use fintech_data_platform.Tests.Sample.{sample_env, sample_library, assessed, change, seeded}

abbrev assessed_at : String → String → ℕ → AssessedRecord
assessed_at table lsn offset = record {
  envelope = assessed table lsn;
  kafka_topic = "cdc.oltp.assessed.v1";
  kafka_partition = 0;
  kafka_offset = offset;
}

abbrev row_at : String → String → ℕ → BatchRow
row_at table lsn offset = record {
  op = null;
  transaction_id = null;
  source_table = str table;
  source_lsn = str lsn;
  source_ts_ms = null;
  kafka_topic = "cdc.oltp.assessed.v1";
  kafka_partition = 0;
  kafka_offset = offset;
  event_id = "e-1";
  risk_score = null;
  risk_flags = nil;
  account_id = null;
  loan_id = null;
  payment_id = null;
  payment_amount = null;
  payment_due_date = null;
  payment_posted_at = null;
  status_code = null;
  status_at = null;
  principal_balance = null;
  days_past_due = null;
  commission_adjustment_amount = null;
  commission_reason = null;
  assessed_payload = "{}";
}

abbrev records : List AssessedRecord
records = assessed_at "trading.loan" "0/2" 4 ∷ assessed_at "trading.loan" "0/1" 5 ∷ []

abbrev rows : List BatchRow
rows = row_at "trading.loan" "0/2" 4 ∷ row_at "trading.loan" "0/1" 5 ∷ []

rows_read : rows_of sample_library records ≡ ok rows
unfolding rows_of assessed_record_to_row coerce_float coerce_int str_of
rows_read = refl

build_flush_lem_example :
    (flush : FlushResult) × ((build_flush sample_library records ≡ ok flush)
      × (All (λ (t : Table). IsSorted sample_library t.rows) flush.by_table
          × ((p : BatchRow → Bool) → count p (all_rows flush.by_table) ≡ count p rows)))
build_flush_lem_example =
    build_flush_lem sample_library records rows rows_read ((refl, refl), ((refl, refl), tt))

abbrev pub sample_writer : Writer
sample_writer = record { bucket = "lake"; parquet = λ rs. ok "parquet" }

abbrev tombstone : Delivered
tombstone = record {
  topic = "cdc.oltp.assessed.v1";
  partition = 0;
  offset = 1;
  key = ok none;
  value = none;
}

abbrev log : List Delivered
log = record tombstone { value = some "assessed"; offset = 0 } ∷ tombstone ∷ []

abbrev new_session : BatchSession
new_session = record { position = 0; committed = 0; pending = []; world = seeded }

abbrev gathered : BatchSession
gathered = record new_session {
  position = 1;
  pending = assessed_at "trading.loan" "0/16B5C10" 0 ∷ [];
}

abbrev after_tombstone : BatchSession
after_tombstone = batch_run sample_env sample_writer 100 log (poll false ∷ restart ∷ []) gathered

tombstone_loses_batch_example :
    (after_tombstone.world ≡ seeded)
    × All
        (λ (r : AssessedRecord).
          IsPassed r.kafka_offset
            (batch_run sample_env sample_writer 100 log (poll true ∷ []) after_tombstone))
        gathered.pending
tombstone_loses_batch_example =
    tombstone_loses_batch sample_env sample_writer 100 log gathered tombstone (omega arith, tt) refl
      refl refl (poll true ∷ [])

-- pyarrow refuses an empty payload's object of two rows.
abbrev picky_writer : Writer
picky_writer = record {
  bucket = "lake";
  parquet = λ rs. if leb (length rs) 1 then ok "parquet" else err (external "mixed types");
}

-- Two records are gathered, at the offsets 0 and 1, and a tombstone is next.
abbrev full : BatchSession
full = record new_session {
  position = 2;
  pending = assessed_at "trading.loan" "0/2" 0 ∷ assessed_at "trading.loan" "0/1" 1 ∷ [];
}

abbrev long_log : List Delivered
long_log =
    record tombstone { value = some "assessed"; offset = 0 }
    ∷ record tombstone { value = some "assessed"; offset = 1 }
    ∷ record tombstone { offset = 2 }
    ∷ []

abbrev after_first : World
after_first = record seeded { ticks = 1 }

first_fails :
    flush_records sample_env picky_writer full.pending full.world
    ≡ (err (external "mixed types"), after_first)
unfolding flush_records build_flush rows_of assessed_record_to_row coerce_float coerce_int str_of
    grouped sort_tables sorted_onto sorts_before text_less write_batches write_tables write_batch
    draw_time
first_fails = refl

loads_only :
    (text : String) (e : Error)
    → sample_library.loads text ≡ err e
    → e.kind ≡ ErrorKind.json_decode_error
loads_only text e h = split (text == "change") (text == "assessed") h
  where
    split :
        (a b : Bool)
        → (if a
            then ok (obj change)
            else if b
            then ok (assessed "trading.loan" "0/16B5C10")
            else err (failure ErrorKind.json_decode_error "Expecting value"))
          ≡ err e
        → e.kind ≡ ErrorKind.json_decode_error
    split true b q = cc
    split false true q = cc
    split false false q = cc

abbrev after_failure : BatchSession
after_failure = batch_run sample_env picky_writer 100 long_log (timeout true ∷ poll false ∷ []) full

moved : after_failure.committed ≡ 3
unfolding flush_records build_flush rows_of assessed_record_to_row coerce_float coerce_int str_of
    grouped sort_tables sorted_onto sorts_before text_less write_batches write_tables write_batch
    draw_time batch_run batch_turn
moved = refl

failed_batch_is_lost_example :
    All
      (λ (x : AssessedRecord).
        IsPassed x.kafka_offset
          (batch_run sample_env picky_writer 100 long_log (restart ∷ poll true ∷ []) after_failure))
      full.pending
failed_batch_is_lost_example =
    failed_batch_is_lost sample_env picky_writer 100 long_log full
      (assessed_at "trading.loan" "0/2" 0) (assessed_at "trading.loan" "0/1" 1 ∷ [])
      (external "mixed types") after_first (poll false ∷ []) (restart ∷ poll true ∷ []) loads_only
      (omega arith, (omega arith, tt)) refl first_fails tt
      (λ same. absurd (omega (arith, moved, same)))

write_batch_lem_example :
    Covers rows
      (write_batch sample_env sample_writer 0
        (str "trading.loan")
        (row_at "trading.loan" "0/2" 4)
        (row_at "trading.loan" "0/1" 5 ∷ [])
        seeded).0
write_batch_lem_example =
    write_batch_lem sample_env sample_writer 0 (str "trading.loan") (row_at "trading.loan" "0/2" 4)
      (row_at "trading.loan" "0/1" 5 ∷ []) seeded

abbrev sample_batch : PreparedBatch
sample_batch = record {
  envelope = sample_envelope;
  run_id = "b-1";
  source_table = "trading.loan";
  trigger_event_ref = "cdc_bronze_batch:trading.loan:0:0-1";
  bronze_uri = "s3://lake/bronze/a.parquet";
  record_count = 2;
  first_lsn = str "0/1";
  last_lsn = str "0/2";
  kafka_partition = 0;
  offset_start = 0;
  offset_end = 1;
}

abbrev published_world : World
published_world = (publish_batch sample_env sample_batch seeded).1
